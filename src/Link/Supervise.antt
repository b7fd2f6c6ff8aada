-- ===== src/Link/Supervise.antt =====
-- tools/service-template/src/app/supervise_link.h over ports/event_publisher.h: the use case that
-- publishes each change of the link's state. The publisher is a parameter: a state `P` and what
-- `publish` makes of it.
pub mod Events
use uaop.Base.{ℕ, Bool, true, false, ◌++◌, if◌then◌else◌}
use uaop.Base.Text.{Bytes, codes}
use uaop.Base.Decimal.{to_string}
use uaop.Common.Result.{Error, Result, ok, err}
use uaop.Link.Monitor.{LinkState, state_code, Transition, LinkMonitor, on_heartbeat, on_tick}

-- `class EventPublisher`.
abbrev pub EventPublisher : Type 0 → Type 0
EventPublisher P = P → Bytes → Bytes → P × Result (Unit {0}) Error

pub record SuperviseLink (P : Type 0) : Type 0 where
  pub monitor : LinkMonitor
  pub publisher : P

abbrev pub link_subject : Bytes
link_subject = codes "uaop.event.v1.tpl.link_state_changed"

unfoldable pub link_payload : Transition → Bytes
link_payload t =
    codes "{\"from\":"
    ++ (to_string (state_code t.from)
        ++ (codes ",\"to\":" ++ (to_string (state_code t.to) ++ codes "}")))

module _ {P : Type 0} (publish : EventPublisher P) where
  unfoldable pub publish_if_changed :
      Transition → SuperviseLink P → SuperviseLink P × Result (Unit {0}) Error
  publish_if_changed t s =
      let (p, r) = publish s.publisher link_subject (link_payload t) in
      if t.changed then (record s { publisher = p }, r) else (s, ok tt)

  abbrev pub forward :
      SuperviseLink P → Result Transition Error → SuperviseLink P × Result (Unit {0}) Error
  forward s (err e) = (s, err e)
  forward s (ok t) = publish_if_changed t s

  unfoldable pub heartbeat_received :
      ℕ → SuperviseLink P → SuperviseLink P × Result (Unit {0}) Error
  unfolding publish_if_changed
  heartbeat_received now_ms s =
      let (m, r) = on_heartbeat now_ms s.monitor in forward (record s { monitor = m }) r

  unfoldable pub tick : ℕ → SuperviseLink P → SuperviseLink P × Result (Unit {0}) Error
  unfolding publish_if_changed
  tick now_ms s =
      let (m, t) = on_tick now_ms s.monitor in publish_if_changed t (record s { monitor = m })
