-- ===== src/Common/Config/Store.antt =====
-- `class ConfigStore`: a dictionary of texts, filled from the layers. A method that mutates the
-- store returns the new one. The file system and the environment are arguments: what a path holds
-- (`none` if it cannot be opened), and what `getenv` returns for a name.
use uaop.Base.{
  ℕ, ◌+◌, ◌-◌, ◌^◌, Bool, true, false, ◌&&◌, ◌||◌, List, [], ◌∷◌, ◌++◌, map, Option, none, some,
  leb, ◌==◌, if◌then◌else◌,
}
use uaop.Base.Decimal.{is_digit, read_digits, to_string}
use uaop.Base.Dict.{Dict, lookup, insert}
use uaop.Base.Int.{ℤ, pos, neg}
use uaop.Base.Text.{Bytes, codes, equal, is_empty}
use uaop.Common.Config.Line.{parse_config_line}
use uaop.Common.Result.{Error, invalid, fatal, Result, ok, err}

abbrev pub ConfigStore : Type 0
ConfigStore = Dict Bytes

-- `std::getline` until the end of the file; the last line may lack its newline.
abbrev extend : ℕ → List Bytes → List Bytes
extend c [] = (c ∷ []) ∷ []
extend c (l ∷ ls) = (c ∷ l) ∷ ls

unfoldable pub lines : Bytes → List Bytes
lines [] = []
lines (c ∷ cs) = let rest = lines cs in if c == b'\n' then [] ∷ rest else extend c rest

abbrev pub assign : Option (Bytes × Bytes) → ConfigStore → ConfigStore
assign none values = values
assign (some (k, v)) values = insert k v values

abbrev pub located : Bytes → ℕ → Error → Error
located path lineno e = record {
  error_class = invalid;
  code = e.code;
  message = path ++ (codes ":" ++ (to_string lineno ++ (codes ": " ++ e.message)));
}

-- The loop of `load_file`; `lineno` counts the lines read before.
unfoldable pub load_lines :
    Bytes → ℕ → List Bytes → ConfigStore → ConfigStore × Result (Unit {0}) Error
load_lines path lineno [] values = (values, ok tt)
load_lines path lineno (l ∷ ls) values = elim (parse_config_line l) [
  | ok entry ↦ load_lines path (lineno + 1) ls (assign entry values)
  | err e ↦ (values, err (located path (lineno + 1) e))
]

unfoldable pub load_file :
    Bytes → Option Bytes → ConfigStore → ConfigStore × Result (Unit {0}) Error
load_file path none values = (values, ok tt)
load_file path (some text) values = load_lines path 0 (lines text) values

-- `std::toupper` and `std::tolower` in the "C" locale.
abbrev pub to_upper : ℕ → ℕ
to_upper c = if leb b'a' c && leb c b'z' then c - 32 else c

abbrev pub to_lower : ℕ → ℕ
to_lower c = if leb b'A' c && leb c b'Z' then c + 32 else c

unfoldable pub env_tail : Bytes → Bytes
env_tail [] = []
env_tail (c ∷ cs) = (if c == b'.' then codes "__" else to_upper c ∷ []) ++ env_tail cs

-- The text up to its first NUL, which is what `c_str()` hands to C.
unfoldable pub c_str : Bytes → Bytes
c_str [] = []
c_str (c ∷ cs) = let rest = c_str cs in if c == 0 then [] else c ∷ rest

unfoldable pub env_name : Bytes → Bytes
env_name key = codes "UAOP_" ++ env_tail key

abbrev pub override : Bytes → Option Bytes → ConfigStore → ConfigStore
override key none values = values
override key (some v) values = insert key v values

abbrev pub Environment : Type 0
Environment = Bytes → Option Bytes

-- The second loop of `apply_environment`, over the keys that the first one has collected.
unfoldable pub apply_keys : Environment → List Bytes → ConfigStore → ConfigStore
apply_keys getenv [] values = values
apply_keys getenv (key ∷ keys) values =
    apply_keys getenv keys (override key (getenv (c_str (env_name key))) values)

unfoldable pub apply_environment : Environment → ConfigStore → ConfigStore
apply_environment getenv values = apply_keys getenv (map (λ e. e.0) values) values

unfoldable pub get : Bytes → ConfigStore → Option Bytes
get key values = lookup key values

unfoldable pub get_or : Bytes → Bytes → ConfigStore → Bytes
get_or key fallback values = elim (get key values) [ none ↦ fallback | some v ↦ v ]

unfoldable pub set : Bytes → Bytes → ConfigStore → ConfigStore
set key value values = insert key value values

-- `std::from_chars` into `int64_t`: the value and the text behind it, or nothing on an error.
abbrev pub limited : ℕ → (ℕ → ℤ) → ℕ × Bytes → Option (ℤ × Bytes)
limited bound sign (n, rest) = if leb n bound then some (sign n, rest) else none

unfoldable pub from_digits : ℕ → (ℕ → ℤ) → Bytes → Option (ℤ × Bytes)
from_digits bound sign [] = none
from_digits bound sign (c ∷ cs) =
    if is_digit c then limited bound sign (read_digits 0 (c ∷ cs)) else none

unfoldable pub from_chars : Bytes → Option (ℤ × Bytes)
from_chars [] = none
from_chars (c ∷ cs) =
    if c == b'-' then from_digits (2 ^ 63) neg cs else from_digits (2 ^ 63 - 1) pos (c ∷ cs)

-- The value, if it takes the whole text.
abbrev pub whole : {A : Type 0} → Option (A × Bytes) → Option A
whole none = none
whole (some (z, [])) = some z
whole (some (z, c ∷ cs)) = none

abbrev pub when_some : {A B : Type 0} → (A → Option B) → Option A → Option B
when_some f none = none
when_some f (some v) = f v

unfoldable pub get_int : Bytes → ConfigStore → Option ℤ
get_int key values = when_some (λ v. whole (from_chars v)) (get key values)

-- `std::from_chars` into `double` is a parameter.
unfoldable pub get_double :
    {D : Type 0} → (Bytes → Option (D × Bytes)) → Bytes → ConfigStore → Option D
get_double from_chars_double key values =
    when_some (λ v. whole (from_chars_double v)) (get key values)

abbrev one_of : Bytes → Bytes → Bytes → Bytes → Bool
one_of a b c s = equal s a || equal s b || equal s c

unfoldable pub parse_bool : Bytes → Option Bool
parse_bool v =
    let lower = map to_lower v in
    if one_of (codes "true") (codes "1") (codes "yes") lower
    then some true
    else if one_of (codes "false") (codes "0") (codes "no") lower
    then some false
    else none

unfoldable pub get_bool : Bytes → ConfigStore → Option Bool
get_bool key values = when_some parse_bool (get key values)

abbrev is_some : {A : Type 0} → Option A → Bool
is_some none = false
is_some (some a) = true

-- `missing` after one more missing key.
abbrev pub append_missing : Bytes → Bytes → Bytes
append_missing missing key = (if is_empty missing then [] else missing ++ codes ", ") ++ key

unfoldable pub missing_from : Bytes → List Bytes → ConfigStore → Bytes
missing_from missing [] values = missing
missing_from missing (key ∷ keys) values =
    missing_from (if is_some (get key values) then missing else append_missing missing key) keys
      values

unfoldable pub require : List Bytes → ConfigStore → Result (Unit {0}) Error
require keys values =
    let missing = missing_from [] keys values in
    if is_empty missing
    then ok tt
    else err (record {
      error_class = fatal;
      code = codes "E_CONFIG_MISSING";
      message = codes "missing required config keys: " ++ missing;
    })
