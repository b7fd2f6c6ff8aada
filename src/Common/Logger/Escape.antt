-- ===== src/Common/Logger/Escape.antt =====
-- The logger's JSON strings are read back, and hold no byte that could break a line.
use mathlib.Core.List.{append_assoc}
use uaop.Base.{ℕ, ◌≤◌, ◌≡◌, refl, ◌∙◌, ap, [], ◌∷◌, ◌++◌, some, arith}
use uaop.Base.Lists.{All, All-append}
use uaop.Base.Text.{Bytes}
use uaop.Common.Json.{plain, prepend, read_string, read_json, step}
use uaop.Common.Logger.{escape_byte, escape_all, json_escaped}

read_string-escape_byte :
    (c : ℕ) (rest : Bytes)
    → read_string plain (escape_byte c ++ rest) ≡ prepend c (read_string plain rest)
unfolding read_string escape_byte step
read_string-escape_byte c rest = ground arith

read_string-escape_all :
    (s rest : Bytes) → read_string plain (escape_all s ++ b'"' ∷ rest) ≡ some (s, rest)
unfolding escape_all
read_string-escape_all [] rest = unfold read_string step in refl
read_string-escape_all (c ∷ s) rest =
    ap (read_string plain) (append_assoc (escape_byte c) (escape_all s) (b'"' ∷ rest))
    ∙ read_string-escape_byte c (escape_all s ++ b'"' ∷ rest)
    ∙ ap (prepend c) (read_string-escape_all s rest)

-- Whatever bytes a text holds, a JSON reader gets just this text back from what the logger writes
-- for it, and goes on behind it.
pub read_json-json_escaped : (s rest : Bytes) → read_json (json_escaped s ++ rest) ≡ some (s, rest)
unfolding read_json json_escaped
read_json-json_escaped s rest =
    ap (read_string plain) (append_assoc (escape_all s) (b'"' ∷ []) rest)
    ∙ read_string-escape_all s rest

abbrev pub Printable : Bytes → Type 0
Printable = All (λ c. 32 ≤ c)

escape_byte-Printable : (c : ℕ) → Printable (escape_byte c)
unfolding escape_byte
escape_byte-Printable c = ground arith

escape_all-Printable : (s : Bytes) → Printable (escape_all s)
unfolding escape_all
escape_all-Printable [] = tt
escape_all-Printable (c ∷ s) =
    All-append _ (escape_byte c) (escape_all s) (escape_byte-Printable c) (escape_all-Printable s)

pub json_escaped-Printable : (s : Bytes) → Printable (json_escaped s)
unfolding json_escaped
json_escaped-Printable s =
    (omega arith, All-append _ (escape_all s) _ (escape_all-Printable s) (omega arith))
