-- ===== src/Common/Config/Tests.antt =====
-- Runs of the configuration, and the theorems at concrete inputs.
use Prim.Native.String.{String}
use uaop.Base.Lists.{All}
use uaop.Base.{List, arith, if◌then◌else◌, ◌≡◌, refl, true, false, [], ◌∷◌, ◌⊎◌, none, some}
use uaop.Base.Decimal.{to_string, read_digits}
use uaop.Base.Dict.{lookup, insert}
use uaop.Base.Int.{print_int, pos, negsuc}
use uaop.Base.Text.{Bytes, codes, equal, less}
use uaop.Common.Config.Line.{
  trim, strip_quotes, find_colon, parse_entry, is_skipped, parse_config_line, syntax_error,
  trim_start, trim_end, back, drop_back,
}
use uaop.Common.Config.Layers.{assignments, last_value, overridden, layers-get}
use uaop.Common.Config.Loading.{Loads, StopsAt, load_file-outcome}
use uaop.Common.Config.Numbers.{get_int-set}
use uaop.Common.Config.Require.{report, missing_error, require-report}
use uaop.Common.Config.Store.{
  ConfigStore, lines, load_lines, load_file, env_tail, env_name, c_str, Environment, apply_keys,
  apply_environment, get, get_or, set, get_int, require, missing_from, append_missing, parse_bool,
  get_bool, from_chars, from_digits,
}
use uaop.Common.Config.File.{
  FileLine, blank, comment, setting, IsFileLine, file_text, load_file-file_text,
}
use uaop.Common.Config.Written.{IsKey, bare, quoted, parse-written}
use uaop.Common.Result.{ok, err}

abbrev entry : String → String → Bytes × Bytes
entry k v = (codes k, codes v)

-- Quotes keep the white space of a value; a comment behind a value is part of it.
parse_lines :
    (parse_config_line (codes " nats.url :  'a b '  ") ≡ ok (some (entry "nats.url" "a b ")))
    × (parse_config_line (codes "# note") ≡ ok none)
    × (parse_config_line (codes "port: 80 # http") ≡ ok (some (entry "port" "80 # http")))
    × (parse_config_line (codes "oops")
        ≡ err (syntax_error (codes "expected 'key: value', got: oops")))
unfolding parse_config_line trim trim_start trim_end is_skipped find_colon parse_entry strip_quotes
    back drop_back
parse_lines = (refl, refl, refl, refl)

parse-written_example : parse_config_line (codes " a.b :\t\" x \" ") ≡ ok (some (entry "a.b" " x "))
parse-written_example =
    parse-written (codes " ") (codes "a.b") (codes " ") (codes "\t") (codes "\" x \"") (codes " ")
      (codes " x ") (refl, tt) (refl, tt) (refl, tt) (refl, tt)
      (record {
        trimmed = record { starts = refl; ends = refl };
        opens = refl;
        no_colon = (refl, (refl, (refl, tt)));
      })
      (quoted b'"' refl refl)

abbrev defaults : ConfigStore
defaults = entry "log.level" "info" ∷ entry "nats.url" "nats://default" ∷ []

abbrev file : Bytes
file = codes "log.level: warn\n\nport: 80\nlog.level: error"

abbrev environment : Environment
environment name = if equal name (codes "UAOP_NATS__URL") then some (codes "nats://env") else none

-- Three layers: the environment wins over the file, and the file over the defaults.
abbrev loaded : ConfigStore
loaded = (load_file (codes "f") (some file) defaults).0

layers-get_example :
    get (codes "log.level") (apply_environment environment loaded)
    ≡ overridden (environment (c_str (env_name (codes "log.level")))) (
        last_value
          (codes "log.level")
          (assignments (lines file))
          (get (codes "log.level") defaults))
layers-get_example = layers-get (codes "log.level") (codes "f") file environment defaults

layered :
    (get (codes "log.level") (apply_environment environment loaded) ≡ some (codes "error"))
    × (get (codes "nats.url") (apply_environment environment loaded) ≡ some (codes "nats://env"))
    × (get_int (codes "port") (apply_environment environment loaded) ≡ some (pos 80))
    × (get_or (codes "host") (codes "localhost") loaded ≡ codes "localhost")
unfolding get get_or lookup insert equal less load_file load_lines lines parse_config_line trim
    trim_start trim_end is_skipped find_colon parse_entry strip_quotes apply_environment apply_keys
    env_name env_tail c_str get_int from_chars from_digits read_digits
layered = (refl, refl, refl, refl)

-- A key that no layer below defines is not taken from the environment.
abbrev broken : Bytes
broken = codes "a: 1\noops\nb: 2"

load_file-outcome_example :
    Loads (lines broken) defaults (load_file (codes "f") (some broken) defaults)
    ⊎ StopsAt (codes "f") 0 (lines broken) defaults (load_file (codes "f") (some broken) defaults)
load_file-outcome_example = load_file-outcome (codes "f") broken defaults

broken_reports :
    (load_file (codes "f") (some broken) []
      ≡ (entry "a" "1" ∷ [], err (syntax_error (codes "f:2: expected 'key: value', got: oops"))))
    × (load_file (codes "f") none [] ≡ ([], ok tt))
unfolding insert load_file load_lines lines parse_config_line trim trim_start trim_end is_skipped
    find_colon parse_entry strip_quotes to_string
broken_reports = (refl, refl)

get_int-set_example :
    get_int (codes "k") (set (codes "k") (print_int (negsuc 41)) defaults) ≡ some (negsuc 41)
get_int-set_example = get_int-set (codes "k") (negsuc 41) defaults

booleans :
    (get_bool (codes "k") (entry "k" "Yes" ∷ []) ≡ some true)
    × (get_bool (codes "k") (entry "k" "0" ∷ []) ≡ some false)
    × (get_bool (codes "k") (entry "k" "on" ∷ []) ≡ none)
unfolding get_bool get lookup equal parse_bool
booleans = (refl, refl, refl)

abbrev settings : List FileLine
settings =
    comment (codes " ") (codes " link")
    ∷ setting [] (codes "a.b") [] (codes " ") (codes "old") [] (codes "old")
    ∷ blank (codes "\t")
    ∷ setting [] (codes "a.b") (codes " ") (codes " ") (codes "\"# new\"") (codes " ")
        (codes "# new")
    ∷ []

a_b-IsKey : IsKey (codes "a.b")
a_b-IsKey = record {
  trimmed = record { starts = refl; ends = refl };
  opens = refl;
  no_colon = (refl, (refl, (refl, tt)));
}

settings-IsFileLine : All IsFileLine settings
settings-IsFileLine = (
  ((refl, tt), ground arith),
  (
    (
      (tt, tt, (refl, tt), tt, a_b-IsKey, bare (record { starts = refl; ends = refl }) refl),
      ground arith,
    ),
    (
      ((refl, tt), ground arith),
      (
        ((tt, (refl, tt), (refl, tt), (refl, tt), a_b-IsKey, quoted b'"' refl refl), ground arith),
        tt,
      ),
    ),
  ),
)

no_environment : Environment
no_environment name = none

load_file-file_text_example :
    let (store, result) = load_file (codes "f") (some (file_text settings)) defaults in
    (result ≡ ok tt)
    × (get (codes "a.b") (apply_environment no_environment store) ≡ some (codes "# new"))
unfolding no_environment equal
load_file-file_text_example =
    load_file-file_text (codes "a.b") (codes "f") settings no_environment defaults
      settings-IsFileLine

abbrev demanded : List Bytes
demanded = codes "nats.url" ∷ codes "port" ∷ codes "db" ∷ []

abbrev port_only : ConfigStore
port_only = entry "port" "80" ∷ []

require-report_example : require demanded port_only ≡ report (codes "nats.url" ∷ codes "db" ∷ [])
unfolding get lookup equal
require-report_example = require-report demanded port_only (refl, (refl, (refl, tt)))

require_two : require demanded port_only ≡ err (missing_error (codes "nats.url, db"))
unfolding require missing_from append_missing get lookup equal
require_two = refl
