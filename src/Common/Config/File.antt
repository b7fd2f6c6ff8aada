-- ===== src/Common/Config/File.antt =====
-- A whole configuration file that is written in the format, from its text to the keys that a
-- service reads.
use mathlib.Core.List.{append_assoc}
use uaop.Base.{
  ℕ, ◌+◌, ◌≡◌, refl, ◌∙◌, ap, List, [], ◌∷◌, ◌++◌, map, Option, none, some, true, false, ◌==◌,
}
use uaop.Base.Lists.{All, flat_map}
use uaop.Base.Text.{Bytes}
use uaop.Common.Config.Layers.{assignments, last_value, overridden, layers-get}
use uaop.Common.Config.Line.{trim, trim_start, trim_end, is_skipped, parse_config_line}
use uaop.Common.Config.Store.{
  ConfigStore, lines, assign, load_lines, load_file, c_str, env_name, Environment,
  apply_environment, get,
}
use uaop.Common.Config.Trim.{AllSpace, trim_start-append, trim_start-AllSpace}
use uaop.Common.Config.Written.{IsKey, Writes, written, parse-written}
use uaop.Common.Result.{ok}

-- A line as it is written: white space, a comment behind white space, or an entry with the white
-- space around its parts, the text that stands for its value, and the value.
pub data FileLine : Type 0 where
  blank : Bytes → FileLine
  comment : Bytes → Bytes → FileLine
  setting : Bytes → Bytes → Bytes → Bytes → Bytes → Bytes → Bytes → FileLine

abbrev pub line_text : FileLine → Bytes
line_text (blank w) = w
line_text (comment w x) = w ++ b'#' ∷ x
line_text (setting w1 k w2 w3 t w4 v) = written w1 k w2 w3 t w4

abbrev entry_of : FileLine → Option (Bytes × Bytes)
entry_of (blank w) = none
entry_of (comment w x) = none
entry_of (setting w1 k w2 w3 t w4 v) = some (k, v)

abbrev pub entries : List FileLine → List (Bytes × Bytes)
entries [] = []
entries (blank w ∷ ls) = entries ls
entries (comment w x ∷ ls) = entries ls
entries (setting w1 k w2 w3 t w4 v ∷ ls) = (k, v) ∷ entries ls

abbrev Parts : FileLine → Type 0
Parts (blank w) = AllSpace w
Parts (comment w x) = AllSpace w
Parts (setting w1 k w2 w3 t w4 v) =
    AllSpace w1 × AllSpace w2 × AllSpace w3 × AllSpace w4 × IsKey k × Writes t v

abbrev OneLine : Bytes → Type 0
OneLine = All (λ c. (c == b'\n') ≡ false)

abbrev pub IsFileLine : FileLine → Type 0
IsFileLine l = Parts l × OneLine (line_text l)

unfoldable pub file_text : List FileLine → Bytes
file_text = flat_map (λ l. line_text l ++ b'\n' ∷ [])

lines-append : (s rest : Bytes) → OneLine s → lines (s ++ b'\n' ∷ rest) ≡ s ∷ lines rest
unfolding lines
lines-append [] rest h = refl
lines-append (c ∷ s) rest h = rw (lines-append s rest h.1, h.0) refl

parse-skipped : (raw : Bytes) → is_skipped (trim raw) ≡ true → parse_config_line raw ≡ ok none
unfolding parse_config_line
parse-skipped raw h = rw h refl

skipped_blank : (w : Bytes) → AllSpace w → is_skipped (trim w) ≡ true
unfolding trim
skipped_blank w h = rw (trim_start-AllSpace w h) (unfold trim_end is_skipped in refl)

skipped_comment : (w x : Bytes) → AllSpace w → is_skipped (trim (w ++ b'#' ∷ x)) ≡ true
unfolding trim
skipped_comment w x h =
    rw (trim_start-append w (b'#' ∷ x) h) (unfold trim_start trim_end is_skipped in refl)

parse-line_text : (l : FileLine) → Parts l → parse_config_line (line_text l) ≡ ok (entry_of l)
parse-line_text (blank w) h = parse-skipped w (skipped_blank w h)
parse-line_text (comment w x) h = parse-skipped (w ++ b'#' ∷ x) (skipped_comment w x h)
parse-line_text (setting w1 k w2 w3 t w4 v) (h1, h2, h3, h4, key, w) =
    parse-written w1 k w2 w3 t w4 v h1 h2 h3 h4 key w

lines-file_text : (ls : List FileLine) → All IsFileLine ls → lines (file_text ls) ≡ map line_text ls
unfolding file_text
lines-file_text [] h = unfold lines in refl
lines-file_text (l ∷ ls) h =
    ap lines (append_assoc (line_text l) (b'\n' ∷ []) (file_text ls))
    ∙ lines-append (line_text l) (file_text ls) h.0.1
    ∙ ap (λ rest. line_text l ∷ rest) (lines-file_text ls h.1)

assignments-line_text :
    (ls : List FileLine) → All IsFileLine ls → assignments (map line_text ls) ≡ entries ls
unfolding assignments
assignments-line_text [] h = refl
assignments-line_text (blank w ∷ ls) h =
    rw (parse-line_text (blank w) h.0.0) (assignments-line_text ls h.1)
assignments-line_text (comment w x ∷ ls) h =
    rw (parse-line_text (comment w x) h.0.0) (assignments-line_text ls h.1)
assignments-line_text (setting w1 k w2 w3 t w4 v ∷ ls) h =
    rw (parse-line_text (setting w1 k w2 w3 t w4 v) h.0.0)
      (ap (λ rest. (k, v) ∷ rest) (assignments-line_text ls h.1))

load_lines-line_text :
    (path : Bytes) (n : ℕ) (ls : List FileLine) (values : ConfigStore)
    → All IsFileLine ls
    → (load_lines path n (map line_text ls) values).1 ≡ ok tt
unfolding load_lines
load_lines-line_text path n [] values h = refl
load_lines-line_text path n (l ∷ ls) values h =
    rw (load_lines, parse-line_text l h.0.0)
      (load_lines-line_text path (n + 1) ls (assign (entry_of l) values) h.1)

-- A file of blank lines, comments and entries that are written in the format, each on a line of
-- its own, loads without an error; and once the environment has been applied, a key that the file
-- or the defaults know holds the value of its environment variable, or else the value of its last
-- entry in the file, or else its default. Any other key has no value.
pub load_file-file_text :
    (k path : Bytes) (ls : List FileLine) (getenv : Environment) (defaults : ConfigStore)
    → All IsFileLine ls
    → let (store, result) = load_file path (some (file_text ls)) defaults in
      (result ≡ ok tt)
      × (get k (apply_environment getenv store)
          ≡ overridden (getenv (c_str (env_name k))) (last_value k (entries ls) (get k defaults)))
load_file-file_text k path ls getenv defaults h = (
  unfold load_file in rw (lines-file_text ls h) (load_lines-line_text path 0 ls defaults h),
  layers-get k path (file_text ls) getenv defaults
      ∙ ap (λ es. overridden (getenv (c_str (env_name k))) (last_value k es (get k defaults)))
          (ap assignments (lines-file_text ls h) ∙ assignments-line_text ls h),
)
