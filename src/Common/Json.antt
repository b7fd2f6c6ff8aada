-- ===== src/Common/Json.antt =====
-- JSON strings as RFC 8259 reads them: the reference for what the logger and the health registry
-- write. Code points are bytes here.
use uaop.Base.{
  ℕ, zero, suc, ◌+◌, ◌-◌, ◌*◌, ◌&&◌, ◌||◌, [], ◌∷◌, Option, none, some, ltb, leb, ◌==◌,
  if◌then◌else◌,
}
use uaop.Base.Text.{Bytes}

-- Goes on with what was read, if anything was.
abbrev pub then_read : {A B : Type 0} → Option A → (A → Option B) → Option B
then_read none f = none
then_read (some a) f = f a

-- Where the reader stands: between characters, behind a backslash, or with so many hexadecimal
-- digits of `\u` still to come.
pub data Mode : Type 0 where
  plain : Mode
  escaped : Mode
  unicode : ℕ → ℕ → Mode

pub data Action : Type 0 where
  reject : Action
  finish : Action
  enter : Mode → Action
  push : ℕ → Action

-- The value of a hexadecimal digit.
unfoldable pub hex_value : ℕ → Option ℕ
hex_value c =
    if leb b'0' c && leb c b'9'
    then some (c - b'0')
    else if leb b'a' c && leb c b'f'
    then some (c - 87)
    else if leb b'A' c && leb c b'F'
    then some (c - 55)
    else none

step_plain : ℕ → Action
step_plain c =
    if c == b'"'
    then finish
    else if c == b'\\'
    then enter escaped
    else if ltb c 32
    then reject
    else push c

step_escaped : ℕ → Action
step_escaped c =
    if c == b'"' || c == b'\\' || c == b'/'
    then push c
    else if c == b'n'
    then push 10
    else if c == b'r'
    then push 13
    else if c == b't'
    then push 9
    else if c == b'b'
    then push 8
    else if c == b'f'
    then push 12
    else if c == b'u'
    then enter (unicode 3 0)
    else reject

step_digit : ℕ → ℕ → Option ℕ → Action
step_digit left value none = reject
step_digit zero value (some d) = push (value * 16 + d)
step_digit (suc left) value (some d) = enter (unicode left (value * 16 + d))

unfoldable pub step : Mode → ℕ → Action
unfolding step_plain step_escaped step_digit hex_value
step plain c = step_plain c
step escaped c = step_escaped c
step (unicode left value) c = step_digit left value (hex_value c)

abbrev pub prepend : ℕ → Option (Bytes × Bytes) → Option (Bytes × Bytes)
prepend c none = none
prepend c (some (s, rest)) = some (c ∷ s, rest)

abbrev pub act : Action → (Mode → Option (Bytes × Bytes)) → Bytes → Option (Bytes × Bytes)
act reject later cs = none
act finish later cs = some ([], cs)
act (enter m) later cs = later m
act (push c) later cs = prepend c (later plain)

-- Reads a string behind its opening quote: the characters, and what follows the closing quote.
unfoldable pub read_string : Mode → Bytes → Option (Bytes × Bytes)
read_string m [] = none
read_string m (c ∷ cs) = act (step m c) (λ m'. read_string m' cs) cs

-- A whole string, and what follows it.
unfoldable pub read_json : Bytes → Option (Bytes × Bytes)
unfolding read_string
read_json [] = none
read_json (c ∷ cs) = if c == b'"' then read_string plain cs else none
