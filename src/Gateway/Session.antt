-- ===== src/Gateway/Session.antt =====
-- backend/api-gateway/src/streams/websocket.js: `ClientSession`, the subscriptions of one client. A
-- NATS subscription is its position among all that the session made, and a handler that is
-- suspended at an `await` waits in the session for its turn.
pub mod Events
use uaop.Base.{
  ℕ, ◌+◌, ◌^◌, Bool, true, false, List, [], ◌∷◌, ◌++◌, Option, none, some, ltb, if◌then◌else◌,
}
use uaop.Base.Dict.{Dict, insert}
use uaop.Base.Lists.{length, get_elem?, modify}
use uaop.Base.Text.{Bytes, codes}
use uaop.Gateway.Value.{
  Numbers, Value, text, property, field, or_empty, elements, is_text, null, to_text, to_number,
  is_truthy,
}
use uaop.Gateway.Streams.{
  StreamState, Frame, heartbeat, error, Message, new_state, pump_one, telemetry_subject,
  event_subject,
}

-- `class ClientSession` with its connections: whether the socket is open and the timer runs, the
-- streams with the position of their subscription, all subscriptions made with their states, those
-- that `unsubscribe` was called on, the handlers suspended, and the frames sent.
pub record Pump (D : Type 0) : Type 0 where
  pub subject : Bytes
  pub state : StreamState D

pub record ClientSession (D : Type 0) : Type 0 where
  pub is_open : Bool
  pub heartbeats : Bool
  pub subs : List ℕ
  pub streams : Dict ℕ
  pub pumps : List (Pump D)
  pub unsubscribed : List ℕ
  pub suspended : List (Value D)
  pub sent : List Frame

-- How a handler ends: it returns, or its promise is rejected with a TypeError, which nothing
-- handles.
pub data Outcome (S : Type 0) : Type 0 where
  returned : S → Outcome S
  rejected : S → Outcome S

module _ {D : Type 0} (num : Numbers D) where
  unfoldable pub new_session : ClientSession D
  new_session = record {
    is_open = true;
    heartbeats = true;
    subs = [];
    streams = [];
    pumps = [];
    unsubscribed = [];
    suspended = [];
    sent = [];
  }

  unfoldable pub send : List Frame → ClientSession D → ClientSession D
  send frames s = if s.is_open then record s { sent = s.sent ++ frames } else s

  unfoldable pub cleanup_subscriptions : ClientSession D → ClientSession D
  cleanup_subscriptions s = record s {
    unsubscribed = s.unsubscribed ++ s.subs;
    subs = [];
    streams = [];
  }

  unfoldable pub cleanup : ClientSession D → ClientSession D
  cleanup s = cleanup_subscriptions (record s { heartbeats = false })

  -- One turn of an inner loop: the state of the stream, the subscription and its pump.
  unfoldable pub subscribe : Bytes → StreamState D → ClientSession D → ClientSession D
  subscribe subject state s = record s {
    streams = insert state.key (length s.pumps) s.streams;
    pumps = s.pumps ++ record { subject = subject; state = state } ∷ [];
    subs = s.subs ++ length s.pumps ∷ [];
  }

  -- What goes on with a value, where computing it did not throw.
  abbrev pub or_reject :
      {A : Type 0}
      → Option A
      → ClientSession D
      → (A → Outcome (ClientSession D))
      → Outcome (ClientSession D)
  or_reject none s rest = rejected s
  or_reject (some a) s rest = rest a

  unfoldable pub subscribe_category :
      Value D → Value D → Value D → ClientSession D → Outcome (ClientSession D)
  subscribe_category vehicle rate category s = or_reject (to_text num vehicle) s (λ v.
      or_reject (to_text num category) s (λ c.
        or_reject (new_state num (codes "telemetry." ++ (v ++ (codes "." ++ c))) rate) s
          (λ state. returned (subscribe (telemetry_subject v c) state s))))

  unfoldable pub subscribe_domain : Value D → ClientSession D → Outcome (ClientSession D)
  subscribe_domain domain s = or_reject (to_text num domain) s (λ d.
      or_reject (new_state num (codes "events." ++ d) null) s
        (λ state. returned (subscribe (event_subject d) state s)))

  unfoldable pub for_each :
      {A : Type 0}
      → (A → ClientSession D → Outcome (ClientSession D))
      → List A
      → ClientSession D
      → Outcome (ClientSession D)
  for_each body [] s = returned s
  for_each body (x ∷ xs) s = elim (body x s) [
    | rejected t ↦ rejected t
    | returned t ↦ for_each body xs t
  ]

  -- A loop over what may have no elements to go through, or may not be there at all.
  unfoldable pub for_elements :
      (Value D → ClientSession D → Outcome (ClientSession D))
      → Option (Value D)
      → ClientSession D
      → Outcome (ClientSession D)
  for_elements body found s =
      or_reject found s (λ v. or_reject (elements v) s (λ vs. for_each body vs s))

  -- `v[name] ?? []`
  abbrev pub list_property : Bytes → Value D → Option (Value D)
  list_property name v = elim (property name v) [ none ↦ none | some found ↦ some (or_empty found) ]

  unfoldable pub subscribe_request : Value D → ClientSession D → Outcome (ClientSession D)
  subscribe_request req s = or_reject (property (codes "type") req) s (λ type.
      if is_text (codes "telemetry") type
      then for_elements
          (subscribe_category (field (codes "vehicle") req) (field (codes "rate_hz") req))
          (list_property (codes "categories") req) s
      else if is_text (codes "events") type
      then for_elements subscribe_domain (list_property (codes "domains") req) s
      else returned s)

  -- `handleSubscribe` up to its `await`, and from there on.
  unfoldable pub begin_subscribe : Value D → ClientSession D → ClientSession D
  begin_subscribe requests s =
      let cleaned = cleanup_subscriptions s in
      record cleaned { suspended = cleaned.suspended ++ requests ∷ [] }

  unfoldable pub finish_subscribe : Value D → ClientSession D → Outcome (ClientSession D)
  finish_subscribe requests s = for_elements subscribe_request (some requests) s

  -- `handleMessage` on what `JSON.parse` yields, or on nothing where it throws.
  unfoldable pub handle_message : Option (Value D) → ClientSession D → Outcome (ClientSession D)
  handle_message none s = returned (send (error (codes "invalid JSON") ∷ []) s)
  handle_message (some msg) s = or_reject (property (codes "op") msg) s (λ op.
      if is_text (codes "subscribe") op
      then returned (begin_subscribe (or_empty (field (codes "streams") msg)) s)
      else or_reject (to_text num op) s
          (λ shown. returned (send (error (codes "unknown op: " ++ shown) ∷ []) s)))

  -- The next message of a subscription goes through its pump.
  unfoldable pub deliver : ℕ → Message D → ClientSession D → ClientSession D
  deliver i msg s = elim (get_elem? s.pumps i) [
    | none ↦ s
    | some p ↦
        let (state, frames) = pump_one num msg p.state in
        send frames (record s { pumps = modify i (λ q. record q { state = state }) s.pumps })
  ]

  unfoldable pub send_heartbeat : Bytes → ClientSession D → ClientSession D
  send_heartbeat ts s = send (heartbeat ts ∷ []) s
