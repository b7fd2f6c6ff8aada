-- ===== src/Common/Health/Render.antt =====
-- The status of the report is the aggregate, and its texts are read back only where they hold no
-- control character.
use mathlib.Core.List.{append_assoc}
use uaop.Base.{
  ℕ, ◌≡◌, refl, ◌∙◌, ap, Bool, false, ◌||◌, [], ◌∷◌, ◌++◌, none, some, ltb, if◌then◌else◌, arith,
}
use uaop.Base.Text.{Bytes}
use uaop.Common.Health.{
  HealthState, HealthRegistry, worse, worst_from, escape_byte, escape_all, json_escaped,
  render_from,
}
use uaop.Common.Json.{plain, prepend, read_string, read_json, step}

pub render_from-worst_from :
    (first : Bool) (w : HealthState) (checks : HealthRegistry)
    → (render_from first w checks).0 ≡ worst_from w checks
unfolding render_from worst_from
render_from-worst_from first w [] = refl
render_from-worst_from first w ((name, check) ∷ checks) =
    render_from-worst_from false (worse w check.state) checks

-- Some byte is a control character.
abbrev pub has_control : Bytes → Bool
has_control [] = false
has_control (c ∷ s) = ltb c 32 || has_control s

read_string-escape_byte :
    (c : ℕ) (rest : Bytes)
    → read_string plain (escape_byte c ++ rest)
      ≡ (if ltb c 32 then none else prepend c (read_string plain rest))
unfolding read_string escape_byte step
read_string-escape_byte c rest = ground arith

read_string-escape_all :
    (s rest : Bytes)
    → read_string plain (escape_all s ++ b'"' ∷ rest)
      ≡ (if has_control s then none else some (s, rest))
unfolding escape_all
read_string-escape_all [] rest = unfold read_string step in refl
read_string-escape_all (c ∷ s) rest =
    ap (read_string plain) (append_assoc (escape_byte c) (escape_all s) (b'"' ∷ rest))
    ∙ read_string-escape_byte c (escape_all s ++ b'"' ∷ rest)
    ∙ rw (read_string-escape_all s rest) (ground arith)

-- A JSON reader gets a check's name or reason back from what is written for it exactly where the
-- text holds no control character, such as a line feed, and rejects it otherwise.
pub read_json-json_escaped_control :
    (s rest : Bytes)
    → read_json (json_escaped s ++ rest) ≡ (if has_control s then none else some (s, rest))
unfolding read_json json_escaped
read_json-json_escaped_control s rest =
    ap (read_string plain) (append_assoc (escape_all s) (b'"' ∷ []) rest)
    ∙ read_string-escape_all s rest
