-- ===== src/Gateway/Tests.antt =====
-- Streams and sessions of the gateway, with whole numbers in place of `double`.
mod Requests
use uaop.Base.{
  ℕ, zero, suc, ap, ◌+◌, ◌-◌, ◌/◌, ◌≡◌, refl, false, List, [], ◌∷◌, ◌++◌, Option, none, some, ltb,
  leb, ◌==◌, if◌then◌else◌, arith,
}
use uaop.Base.Decimal.{to_string}
use uaop.Base.Lists.{All, length}
use uaop.Base.Text.{Bytes, codes, equal, equal_refl}
use uaop.Gateway.Value.{
  Numbers, Value, null, number, text, array, cons, nil, object, member, end, property, elements,
  to_list, last_member, to_number, to_text, is_truthy,
}
use uaop.Gateway.Access.{
  Payload, Claims, Jwt, Redis, Config, is_valid_role, is_revoked, authenticate, split, answered,
  unauthenticated, respond, token,
}
use uaop.Gateway.Access.Tokens.{IsJwt, IsRedis, header_of, claims_of, revoke-authenticate}
use uaop.Gateway.Routes.{
  Route, dev_login, logout, submit, fetch, replied, app, log_out, command_kind, inherited,
  submit_command, commands_router, health_router, auth_router,
}
use uaop.Gateway.Routes.Forwarding.{
  Admitted, IsForwarded, payload_of, app-Admitted, app-unchanged, app-log_in,
}
use uaop.Gateway.Streams.Client.{IsNumbered, Shaped, replay, missed}
use uaop.Gateway.Streams.Gaps.{pump-Shaped}
use uaop.Gateway.Session.Events.{
  Event, message, resumed, delivered, timer, closed, run, step, upto, IsTracked, session-IsTracked,
}
use uaop.Gateway.Streams.{Message, StreamState, new_state, min_interval, pump}
use uaop.Gateway.Session.{
  ClientSession, handle_message, finish_subscribe, begin_subscribe, subscribe, subscribe_request,
  subscribe_domain, for_elements, for_each, cleanup, cleanup_subscriptions, rejected, new_session,
}

abbrev pub numbers : Numbers ℕ
numbers = record {
  zero_number = 0;
  one = 1;
  thousand = 1000;
  nan = 0;
  minus = λ a b. a - b;
  divide = λ a b. a / b;
  exceeds = λ a b. ltb b a;
  at_least = λ a b. leb b a;
  equals = λ a b. a == b;
  print = to_string;
  parse = λ s. length s;
}

abbrev position : StreamState ℕ
position = record {
  key = codes "telemetry.v1.position";
  seq = 0;
  dropped = 0;
  min_interval_ms = 100;
  last_forwarded_at = 0;
}

position_made : new_state numbers (codes "telemetry.v1.position") (number 10) ≡ some position
unfolding new_state min_interval is_truthy to_number
position_made = refl

abbrev at_ms : ℕ → Message ℕ
at_ms now = record { now_ms = now; ts = to_string now; payload = codes "cGF5" }

abbrev burst : List (Message ℕ)
burst = at_ms 1000 ∷ at_ms 1050 ∷ at_ms 1099 ∷ at_ms 1100 ∷ at_ms 1101 ∷ []

pump-Shaped_example :
    IsNumbered (codes "telemetry.v1.position") 0 (pump numbers burst position).1
    × Shaped numbers 100 0 burst
        (replay (pump numbers burst position).1 ++ missed (pump numbers burst position).0.dropped)
pump-Shaped_example =
    pump-Shaped numbers (codes "telemetry.v1.position") (number 10) position burst position_made
      (omega arith)

abbrev subscription : Value ℕ
subscription = object (
    member (codes "op") (text (codes "subscribe")) (
      member (codes "streams")
        (array (
          cons
            (object (
              member (codes "type") (text (codes "events")) (
                member (codes "domains")
                  (array (cons (text (codes "vehicle")) (cons (number 7) nil))) end)))
            (cons null nil)))
        end))

abbrev history : List (Event ℕ)
history =
    message (some subscription)
    ∷ resumed
    ∷ delivered 1 (at_ms 5)
    ∷ message (some null)
    ∷ message (some subscription)
    ∷ timer (codes "now")
    ∷ resumed
    ∷ []

session-IsTracked_example :
    let s = run numbers history (new_session numbers) in
    let after = step numbers closed s in
    IsTracked s × (after.subs ≡ []) × (after.unsubscribed ≡ upto (length s.pumps))
session-IsTracked_example = session-IsTracked numbers history

-- A session handles two messages before the first handler goes on, and one that goes on after the
-- socket has closed.
abbrev events : Value ℕ
events = object (
    member (codes "op") (text (codes "subscribe")) (
      member (codes "streams")
        (array (
          cons
            (object (
              member (codes "type") (text (codes "events"))
                (member (codes "domains") (array (cons (text (codes "vehicle")) nil)) end)))
            nil))
        end))

subs-both :
    (run numbers
      (message (some events) ∷ message (some events) ∷ resumed ∷ resumed ∷ [])
      (new_session numbers)).subs
    ≡ 0 ∷ 1 ∷ []
unfolding run step new_session handle_message finish_subscribe begin_subscribe subscribe
    subscribe_request subscribe_domain for_elements for_each cleanup_subscriptions property
    last_member elements to_list equal new_state min_interval is_truthy to_text
subs-both = refl

subs-closed :
    (run numbers (message (some events) ∷ closed ∷ resumed ∷ []) (new_session numbers)).subs
    ≡ 0 ∷ []
unfolding run step new_session handle_message finish_subscribe begin_subscribe subscribe
    subscribe_request subscribe_domain for_elements for_each cleanup cleanup_subscriptions property
    last_member elements to_list equal new_state min_interval is_truthy to_text
subs-closed = refl

handle_message-null : (s : ClientSession ℕ) → handle_message numbers (some null) s ≡ rejected s
unfolding handle_message property
handle_message-null s = refl
