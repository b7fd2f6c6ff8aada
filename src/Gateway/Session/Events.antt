-- ===== src/Gateway/Session/Events.antt =====
-- The subscriptions of a session through any sequence of events.
use mathlib.Core.List.{append_assoc, append-nil}
use uaop.Base.{
  ℕ, zero, suc, ◌≡◌, ◌⊎◌, refl, sym, ◌∙◌, ap, Bool, true, false, List, [], ◌∷◌, ◌++◌, Option, none,
  some, if◌then◌else◌, Bool-cases, Option-cases, inl, inr, arith,
}
use uaop.Base.Lists.{length, length-append, length-modify, get_elem?}
use uaop.Base.Text.{Bytes, codes}
use uaop.Gateway.Value.{Numbers, Value, null, elements, property, field, is_text, to_text}
use uaop.Gateway.Streams.{Message, StreamState, Frame, telemetry_subject, event_subject, new_state}
use uaop.Gateway.Session.{
  ClientSession, Outcome, returned, rejected, new_session, send, cleanup_subscriptions, cleanup,
  subscribe, subscribe_category, subscribe_domain, or_reject, list_property, for_each, for_elements,
  subscribe_request, begin_subscribe, finish_subscribe, handle_message, deliver, send_heartbeat,
}

-- What happens to a session: a message comes, the handler that has waited longest resumes, NATS
-- delivers on a subscription, the timer fires, or the socket closes.
pub data Event (D : Type 0) : Type 0 where
  message : Option (Value D) → Event D
  resumed : Event D
  delivered : ℕ → Message D → Event D
  timer : Bytes → Event D
  closed : Event D

abbrev pub session_of : {S : Type 0} → Outcome S → S
session_of (returned s) = s
session_of (rejected s) = s

module _ {D : Type 0} (num : Numbers D) where
  abbrev resume : List (Value D) → ClientSession D → ClientSession D
  resume [] s = s
  resume (requests ∷ more) s =
      session_of (finish_subscribe num requests (record s { suspended = more }))

  unfoldable pub step : Event D → ClientSession D → ClientSession D
  step (message msg) s = session_of (handle_message num msg s)
  step resumed s = resume s.suspended s
  step (delivered i msg) s = deliver num i msg s
  step (timer ts) s = send_heartbeat num ts s
  step closed s = cleanup num (record s { is_open = false })

  unfoldable pub run : List (Event D) → ClientSession D → ClientSession D
  run [] s = s
  run (e ∷ es) s = run es (step e s)

-- The numbers below `n`.
abbrev pub upto : ℕ → List ℕ
upto zero = []
upto (suc n) = upto n ++ n ∷ []

-- Every subscription made was either cancelled, once, or is held, once.
abbrev pub IsTracked : {D : Type 0} → ClientSession D → Type 0
IsTracked s = s.unsubscribed ++ s.subs ≡ upto (length s.pumps)

Outcome-cases :
    {S : Type 0} (o : Outcome S) → ((s : S) × (o ≡ returned s)) ⊎ ((s : S) × (o ≡ rejected s))
Outcome-cases (returned s) = inl (s, refl)
Outcome-cases (rejected s) = inr (s, refl)

module _ {D : Type 0} (num : Numbers D) where
  cleanup_subscriptions-IsTracked :
      (s : ClientSession D) → IsTracked s → IsTracked (cleanup_subscriptions num s)
  unfolding cleanup_subscriptions
  cleanup_subscriptions-IsTracked s h = append-nil (s.unsubscribed ++ s.subs) ∙ h

  send-IsTracked :
      (frames : List Frame) (s : ClientSession D) → IsTracked s → IsTracked (send num frames s)
  unfolding send
  send-IsTracked frames s h = elim (Bool-cases s.is_open) [
    | inl open_socket ↦ rw open_socket h
    | inr shut ↦ rw shut h
  ]

  subscribe-IsTracked :
      (subject : Bytes) (state : StreamState D) (s : ClientSession D)
      → IsTracked s
      → IsTracked (subscribe num subject state s)
  unfolding subscribe
  subscribe-IsTracked subject state s h =
      let one_more : suc (length s.pumps)
          ≡ length (s.pumps ++ record { subject = subject; state = state } ∷ []) =
        omega (arith, length-append s.pumps (record { subject = subject; state = state } ∷ [])) in
      sym (append_assoc s.unsubscribed s.subs (length s.pumps ∷ []))
      ∙ ap (λ l. l ++ length s.pumps ∷ []) h
      ∙ ap upto one_more

  deliver-IsTracked :
      (i : ℕ) (msg : Message D) (s : ClientSession D)
      → IsTracked s
      → IsTracked (deliver num i msg s)
  unfolding deliver
  deliver-IsTracked i msg s h = elim (Option-cases (get_elem? s.pumps i)) [
    | inl out_of_range ↦ rw (out_of_range, deliver) h
    | inr (p, e) ↦
        rw (e, deliver) (send-IsTracked _ _ (h ∙ ap upto (sym (length-modify i _ s.pumps))))
  ]

  or_reject-IsTracked :
      {A : Type 0} (found : Option A) (s : ClientSession D) (rest : A → Outcome (ClientSession D))
      → IsTracked s
      → ((a : A) → IsTracked (session_of (rest a)))
      → IsTracked (session_of (or_reject num found s rest))
  or_reject-IsTracked none s rest h keeps = h
  or_reject-IsTracked (some a) s rest h keeps = keeps a

  if-IsTracked :
      (b : Bool) (yea nay : Outcome (ClientSession D))
      → IsTracked (session_of yea)
      → IsTracked (session_of nay)
      → IsTracked (session_of (if b then yea else nay))
  if-IsTracked true yea nay h k = h
  if-IsTracked false yea nay h k = k

  subscribe_category-IsTracked :
      (vehicle rate category : Value D) (s : ClientSession D)
      → IsTracked s
      → IsTracked (session_of (subscribe_category num vehicle rate category s))
  unfolding subscribe_category
  subscribe_category-IsTracked vehicle rate category s h =
      or_reject-IsTracked (to_text num vehicle) s _ h (λ v.
        or_reject-IsTracked (to_text num category) s _ h (λ c.
          or_reject-IsTracked (new_state num (codes "telemetry." ++ (v ++ (codes "." ++ c))) rate) s
            _ h (λ state. subscribe-IsTracked (telemetry_subject v c) state s h)))

  subscribe_domain-IsTracked :
      (domain : Value D) (s : ClientSession D)
      → IsTracked s
      → IsTracked (session_of (subscribe_domain num domain s))
  unfolding subscribe_domain
  subscribe_domain-IsTracked domain s h = or_reject-IsTracked (to_text num domain) s _ h (λ d.
      or_reject-IsTracked (new_state num (codes "events." ++ d) null) s _ h
        (λ state. subscribe-IsTracked (event_subject d) state s h))

  for_each-IsTracked :
      {A : Type 0} (body : A → ClientSession D → Outcome (ClientSession D))
      → ((x : A) (s : ClientSession D) → IsTracked s → IsTracked (session_of (body x s)))
      → (xs : List A) (s : ClientSession D) → IsTracked s
      → IsTracked (session_of (for_each num body xs s))
  unfolding for_each
  for_each-IsTracked body keeps [] s h = h
  for_each-IsTracked body keeps (x ∷ xs) s h = elim (Outcome-cases (body x s)) [
    | inl (t, e) ↦
        rw (e, session_of)
          (for_each-IsTracked body keeps xs t (rw (e, session_of) at (keeps x s h)))
    | inr (t, e) ↦ rw (e, session_of) (rw (e, session_of) at (keeps x s h))
  ]

  for_elements-IsTracked :
      (body : Value D → ClientSession D → Outcome (ClientSession D))
      → ((x : Value D) (s : ClientSession D) → IsTracked s → IsTracked (session_of (body x s)))
      → (found : Option (Value D)) (s : ClientSession D) → IsTracked s
      → IsTracked (session_of (for_elements num body found s))
  unfolding for_elements
  for_elements-IsTracked body keeps found s h =
      or_reject-IsTracked found s _ h
        (λ v. or_reject-IsTracked (elements v) s _ h (λ vs. for_each-IsTracked body keeps vs s h))

  subscribe_request-IsTracked :
      (req : Value D) (s : ClientSession D)
      → IsTracked s
      → IsTracked (session_of (subscribe_request num req s))
  unfolding subscribe_request
  subscribe_request-IsTracked req s h =
      or_reject-IsTracked (property (codes "type") req) s _ h (λ type.
        if-IsTracked (is_text (codes "telemetry") type) _ _
          (for_elements-IsTracked
            (subscribe_category num (field (codes "vehicle") req) (field (codes "rate_hz") req))
            (subscribe_category-IsTracked (field (codes "vehicle") req)
              (field (codes "rate_hz") req))
            (list_property num (codes "categories") req) s h)
          (if-IsTracked (is_text (codes "events") type) _ _
            (for_elements-IsTracked (subscribe_domain num) subscribe_domain-IsTracked
              (list_property num (codes "domains") req) s h)
            h))

  handle_message-IsTracked :
      (msg : Option (Value D)) (s : ClientSession D)
      → IsTracked s
      → IsTracked (session_of (handle_message num msg s))
  unfolding handle_message begin_subscribe
  handle_message-IsTracked none s h = send-IsTracked _ s h
  handle_message-IsTracked (some msg) s h =
      or_reject-IsTracked (property (codes "op") msg) s _ h (λ op.
        if-IsTracked (is_text (codes "subscribe") op) _ _ (cleanup_subscriptions-IsTracked s h)
          (or_reject-IsTracked (to_text num op) s _ h (λ shown. send-IsTracked _ s h)))

  resume-IsTracked :
      (waiting : List (Value D)) (s : ClientSession D)
      → IsTracked s
      → IsTracked (resume num waiting s)
  unfolding finish_subscribe
  resume-IsTracked [] s h = h
  resume-IsTracked (requests ∷ more) s h =
      for_elements-IsTracked (subscribe_request num) subscribe_request-IsTracked (some requests)
        (record s { suspended = more }) h

  step-IsTracked : (e : Event D) (s : ClientSession D) → IsTracked s → IsTracked (step num e s)
  unfolding step send_heartbeat cleanup
  step-IsTracked (message msg) s h = handle_message-IsTracked msg s h
  step-IsTracked resumed s h = resume-IsTracked s.suspended s h
  step-IsTracked (delivered i msg) s h = deliver-IsTracked i msg s h
  step-IsTracked (timer ts) s h = send-IsTracked _ s h
  step-IsTracked closed s h =
      cleanup_subscriptions-IsTracked (record s { is_open = false; heartbeats = false }) h

  run-IsTracked :
      (es : List (Event D)) (s : ClientSession D) → IsTracked s → IsTracked (run num es s)
  unfolding run
  run-IsTracked [] s h = h
  run-IsTracked (e ∷ es) s h = run-IsTracked es (step num e s) (step-IsTracked e s h)

  -- Whatever happens to a session, also where its handlers wait or fail: the subscriptions cancelled
  -- and the subscriptions held are together all that the session made, each once. When the socket
  -- closes, none is held and all that were made are cancelled.
  pub session-IsTracked :
      (es : List (Event D))
      → let s = run num es (new_session num) in
        let after = step num closed s in
        IsTracked s × (after.subs ≡ []) × (after.unsubscribed ≡ upto (length s.pumps))
  unfolding new_session step cleanup cleanup_subscriptions
  session-IsTracked es = let h = run-IsTracked es (new_session num) refl in (h, refl, h)
