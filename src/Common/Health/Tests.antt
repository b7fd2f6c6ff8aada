-- ===== src/Common/Health/Tests.antt =====
-- A registry of three checks, and the theorems on it.
use uaop.Base.{◌≡◌, refl, ◌≤◌, List, [], ◌∷◌, ◌++◌, none, some, ◌⊎◌}
use uaop.Base.Dict.{insert}
use uaop.Base.Text.{Bytes, codes, equal, less}
use uaop.Common.Health.{
  ok, degraded, fail, state_code, Check, overall, set, render_json, json_escaped, to_string,
  escape_byte,
}
use uaop.Common.Health.Worst.{Update, set_all, latest, overall-latest}
use uaop.Common.Health.Render.{read_json-json_escaped_control}
use uaop.Common.Json.{read_json}

abbrev updates : List Update
updates =
    (record { name = codes "nats"; state = ok; reason = [] })
    ∷ (record { name = codes "db"; state = degraded; reason = codes "slow" })
    ∷ (record { name = codes "nats"; state = fail; reason = codes "down" })
    ∷ []

overall-updates : overall (set_all updates) ≡ degraded
unfolding overall set_all set insert equal less
overall-updates = refl

render_json-updates :
    render_json (set_all updates)
    ≡ codes
        "{\"status\":\"DEGRADED\",\"checks\":{\"db\":{\"state\":\"DEGRADED\",\"reason\":\"slow\"},\"nats\":{\"state\":\"OK\",\"reason\":\"\"}}}"
unfolding render_json set_all set insert to_string equal less escape_byte
render_json-updates = refl

overall-latest_example :
    ((name : Bytes) (check : Check)
      → latest name updates ≡ some check
      → state_code check.state ≤ state_code (overall (set_all updates)))
    × ((overall (set_all updates) ≡ ok)
        ⊎ ((name : Bytes) × (check : Check) × (latest name updates ≡ some check)
            × (check.state ≡ overall (set_all updates))))
overall-latest_example = overall-latest updates

read_json-json_escaped_control_example :
    read_json (json_escaped (codes "connection lost:\ntimeout") ++ codes "}") ≡ none
read_json-json_escaped_control_example =
    read_json-json_escaped_control (codes "connection lost:\ntimeout") (codes "}")
