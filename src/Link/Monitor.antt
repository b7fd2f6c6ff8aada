-- ===== src/Link/Monitor.antt =====
-- tools/service-template/src/domain/link_monitor.h: the state machine of one link. A method
-- returns the new monitor with its result.
pub mod History
pub mod Silence
use uaop.Base.{ℕ, ◌+◌, ◌-◌, ◌%◌, ◌^◌, Bool, true, false, not, ◌&&◌, ltb, ◌==◌, if◌then◌else◌}
use uaop.Base.Text.{codes}
use uaop.Base.Words.{sub_u64}
use uaop.Common.Result.{Error, invalid, Result, ok, err}

pub data LinkState : Type 0 where
  never_seen alive lost : LinkState

-- The value of the enumerator; comparisons of states compare these.
abbrev pub state_code : LinkState → ℕ
state_code never_seen = 0
state_code alive = 1
state_code lost = 2

abbrev pub same_state : LinkState → LinkState → Bool
same_state a b = state_code a == state_code b

pub record Transition : Type 0 where
  pub from : LinkState
  pub to : LinkState
  pub changed : Bool

pub record LinkMonitor : Type 0 where
  pub timeout_ms : ℕ
  pub last_seen_ms : ℕ
  pub state : LinkState

unfoldable pub new : ℕ → LinkMonitor
new timeout_ms = record { timeout_ms = timeout_ms; last_seen_ms = 0; state = never_seen }

unfoldable pub transition_to : LinkState → LinkMonitor → LinkMonitor × Transition
transition_to next m =
    let t : Transition = record {
      from = m.state;
      to = next;
      changed = not (same_state m.state next);
    } in
    (record m { state = next }, t)

abbrev pub time_regression : Error
time_regression = record {
  error_class = invalid;
  code = codes "E_TIME_REGRESSION";
  message = codes "heartbeat timestamp precedes last seen";
}

unfoldable pub on_heartbeat : ℕ → LinkMonitor → LinkMonitor × Result Transition Error
unfolding transition_to
on_heartbeat now_ms m =
    if not (same_state m.state never_seen) && ltb now_ms m.last_seen_ms
    then (m, err time_regression)
    else (let (m', t) = transition_to alive (record m { last_seen_ms = now_ms }) in (m', ok t))

unfoldable pub on_tick : ℕ → LinkMonitor → LinkMonitor × Transition
unfolding transition_to
on_tick now_ms m =
    if same_state m.state alive && ltb m.timeout_ms (sub_u64 now_ms m.last_seen_ms)
    then transition_to lost m
    else (m, record { from = m.state; to = m.state; changed = false })
