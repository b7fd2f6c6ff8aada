-- ===== src/Common/Health.antt =====
-- backend/services/common/src/health.cpp and include/uaop/common/health.h: named health checks and
-- their aggregate.
pub mod Worst
pub mod Render
pub mod Report
mod Tests
use uaop.Base.{ℕ, Bool, true, false, ◌||◌, List, [], ◌∷◌, ◌++◌, ltb, ◌==◌, if◌then◌else◌}
use uaop.Base.Dict.{Dict, insert}
use uaop.Base.Text.{Bytes, codes}

pub data HealthState : Type 0 where
  ok degraded fail : HealthState

abbrev pub state_code : HealthState → ℕ
state_code ok = 0
state_code degraded = 1
state_code fail = 2

unfoldable pub to_string : HealthState → Bytes
to_string ok = codes "OK"
to_string degraded = codes "DEGRADED"
to_string fail = codes "FAIL"

pub record Check : Type 0 where
  pub state : HealthState
  pub reason : Bytes

abbrev pub HealthRegistry : Type 0
HealthRegistry = Dict Check

unfoldable pub set : Bytes → HealthState → Bytes → HealthRegistry → HealthRegistry
set check_name state reason checks =
    insert check_name (record { state = state; reason = reason }) checks

-- One round of the loop that looks for the worst state.
abbrev pub worse : HealthState → HealthState → HealthState
worse worst s = if ltb (state_code worst) (state_code s) then s else worst

unfoldable pub worst_from : HealthState → HealthRegistry → HealthState
worst_from worst [] = worst
worst_from worst ((name, check) ∷ checks) = worst_from (worse worst check.state) checks

unfoldable pub overall : HealthRegistry → HealthState
unfolding worst_from
overall checks = worst_from ok checks

-- `write_json_escaped` of this file: only quotes and backslashes are escaped.
unfoldable pub escape_byte : ℕ → Bytes
escape_byte c = if c == b'"' || c == b'\\' then b'\\' ∷ c ∷ [] else c ∷ []

unfoldable pub escape_all : Bytes → Bytes
escape_all [] = []
escape_all (c ∷ s) = escape_byte c ++ escape_all s

unfoldable pub json_escaped : Bytes → Bytes
unfolding escape_all
json_escaped s = b'"' ∷ (escape_all s ++ b'"' ∷ [])

unfoldable pub render_check : Bytes → Check → Bytes
unfolding json_escaped
render_check name check =
    json_escaped name
    ++ (codes ":{\"state\":\""
        ++ (to_string check.state
            ++ (codes "\",\"reason\":" ++ (json_escaped check.reason ++ codes "}"))))

-- The loop of `render_json`: `worst`, and what is written for the checks.
unfoldable pub render_from : Bool → HealthState → HealthRegistry → HealthState × Bytes
render_from first worst [] = (worst, [])
render_from first worst ((name, check) ∷ checks) =
    let (worst', rest) = render_from false (worse worst check.state) checks in
    (worst', (if first then [] else codes ",") ++ (render_check name check ++ rest))

unfoldable pub render_json : HealthRegistry → Bytes
unfolding render_from render_check
render_json checks =
    let (worst, checks_json) = render_from true ok checks in
    codes "{\"status\":\""
    ++ (to_string worst ++ (codes "\",\"checks\":" ++ (codes "{" ++ (checks_json ++ codes "}}"))))
