-- ===== src/Common/Logger/Tests.antt =====
-- Log lines, and the theorems on the logger at concrete inputs.
use uaop.Base.{ℕ, ◌+◌, ◌<◌, ◌≡◌, refl, List, [], ◌∷◌, ◌++◌, some, Bool, true, arith}
use uaop.Base.Int.{negsuc, print_int}
use uaop.Base.Decimal.{to_string}
use uaop.Base.Lists.{length}
use uaop.Base.Text.{Bytes, codes}
use uaop.Common.Logger.{
  debug, info, warn, int, double, Logger, set_min_level, new_event, json_escaped, show_event,
  show_value, set_msg, add_field, destroy, emission, escape_byte, level_name, set_vehicle, emit,
  move,
}
use uaop.Common.Logger.Literal.{number_from}
use uaop.Common.Logger.Object.{string, bare, read_object}
use uaop.Common.Logger.Emitted.{live-one_line, live-read_object}
use uaop.Common.Logger.Stamp.{rfc3339_now}
use uaop.Common.Logger.Lifecycle.{
  Call, with_msg, with_vehicle, with_field, emit_now, moved, live, perform,
}
use uaop.Common.Logger.Lines.{line_feeds}

abbrev svc : Logger
svc = record { service = codes "svc"; min_level = info }

-- There is one double.
abbrev shown : Bool → Bytes
shown d = codes "0.5"

abbrev calls : List (Call Bool)
calls =
    with_msg (codes "a\nb")
    ∷ moved
    ∷ with_field (codes "n") (int (negsuc 4))
    ∷ with_field (codes "d") (double true)
    ∷ emit_now
    ∷ emit_now
    ∷ with_vehicle (codes "late")
    ∷ []

live-calls :
    live shown (codes "T") svc calls (new_event warn (codes "E")) []
    ≡ codes
        "{\"ts\":\"T\",\"lvl\":\"WARN\",\"svc\":\"svc\",\"event\":\"E\",\"msg\":\"a\\nb\",\"n\":-5,\"d\":0.5}\n"
unfolding live perform new_event set_msg set_vehicle add_field show_event destroy emission
    json_escaped escape_byte level_name emit move show_value print_int to_string
live-calls = refl

live-debug : live shown (codes "T") svc calls (new_event debug (codes "E")) [] ≡ []
unfolding live perform new_event set_msg set_vehicle add_field destroy emission emit move
live-debug = refl

live-debug_enabled :
    live shown (codes "T") (set_min_level debug svc) [] (new_event debug []) []
    ≡ codes "{\"ts\":\"T\",\"lvl\":\"DEBUG\",\"svc\":\"svc\",\"event\":\"\"}\n"
unfolding live new_event set_min_level show_event destroy emission json_escaped escape_byte
    level_name
live-debug_enabled = refl

live-one_line_example :
    (line : Bytes) × (line_feeds line ≡ 0)
    × (0 < length line)
    × (live shown (codes "T") svc calls (new_event warn (codes "E")) [] ≡ line ++ codes "\n")
live-one_line_example =
    live-one_line shown (codes "T") svc calls warn (codes "E") [] (λ d. omega arith)

-- The first ten seconds of 1970.
abbrev put_time : ℕ → Bytes
put_time t = codes "1970-01-01T00:00:0" ++ (b'0' + t) ∷ []

rfc3339_now-padded : rfc3339_now put_time 7034999999 ≡ codes "1970-01-01T00:00:07.034Z"
unfolding rfc3339_now
rfc3339_now-padded = refl

live-read_object_example :
    (line : Bytes) × (live shown (codes "T") svc calls (new_event warn (codes "E")) [] ≡ line)
    × (read_object line
        ≡ some (
          (codes "ts", string (codes "T"))
              ∷ (codes "lvl", string (codes "WARN"))
              ∷ (codes "svc", string (codes "svc"))
              ∷ (codes "event", string (codes "E"))
              ∷ (codes "msg", string (codes "a\nb"))
              ∷ (codes "n", bare (codes "-5"))
              ∷ (codes "d", bare (codes "0.5"))
              ∷ [],
          codes "\n",
        ))
unfolding print_int to_string level_name
live-read_object_example =
    live-read_object shown (codes "T") svc calls warn (codes "E") []
      (tt, (unfold number_from in refl, tt)) refl
