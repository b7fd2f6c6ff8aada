-- ===== src/Link/Supervise/Events.antt =====
-- What the use case publishes over any run: the changes of state, each once and in order.
use mathlib.Core.List.{append_assoc, append-nil}
use uaop.Base.{
  ℕ, ◌≡◌, ◌≢◌, refl, List, [], ◌∷◌, ◌++◌, map, if◌then◌else◌, arith, Bool-cases, inl, inr, ◌∙◌, sym,
  Option, none, some,
}
use uaop.Base.Lists.{flat_map, flat_map-append, flat_map-singleton}
use uaop.Base.Text.{Bytes}
use uaop.Common.Result.{Error, Result, ok, err}
use uaop.Link.Monitor.{LinkState, lost, Transition, LinkMonitor, on_heartbeat, on_tick}
use uaop.Link.Monitor.History.{Input, step, to_option}
use uaop.Link.Supervise.{
  EventPublisher, SuperviseLink, link_subject, link_payload, publish_if_changed, heartbeat_received,
  tick, forward,
}

-- Each transition leaves the state that the one before it entered, for another state.
abbrev pub IsTrace : LinkState → List Transition → LinkState → Type 0
IsTrace a [] b = a ≡ b
IsTrace a (t ∷ ts) b = (t.from ≡ a) × (t.from ≢ t.to) × IsTrace t.to ts b

-- The published form of a transition.
abbrev pub event : Transition → Bytes × Bytes
event t = (link_subject, link_payload t)

module _ {P : Type 0} (publish : EventPublisher P) where
  unfoldable pub handle : Input → SuperviseLink P → SuperviseLink P × Result (Unit {0}) Error
  handle (Input.heartbeat t) = heartbeat_received publish t
  handle (Input.tick t) = tick publish t

  unfoldable pub supervise : List Input → SuperviseLink P → SuperviseLink P
  supervise [] s = s
  supervise (i ∷ is) s = supervise is (handle i s).0

-- The transitions of one input that changed the state.
abbrev changed_only : Option Transition → List Transition
changed_only none = []
changed_only (some t) = if t.changed then t ∷ [] else []

abbrev changed_by : Input → LinkMonitor → List Transition
changed_by i m = changed_only (step i m).1

IsTrace-append :
    (a b c : LinkState) (ts us : List Transition)
    → IsTrace a ts b
    → IsTrace b us c
    → IsTrace a (ts ++ us) c
IsTrace-append a b c [] us h k = rw h k
IsTrace-append a b c (t ∷ ts) us h k = (h.0, h.1, IsTrace-append t.to b c ts us h.2 k)

-- One input takes the state along the transitions that it publishes.
module _ {P : Type 0} (publish : EventPublisher P) where
  handle-IsTrace :
      (i : Input) (s : SuperviseLink P)
      → IsTrace s.monitor.state (changed_by i s.monitor) (handle publish i s).0.monitor.state
  unfolding handle heartbeat_received tick on_heartbeat on_tick step
  handle-IsTrace (Input.heartbeat t) s = ground arith
  handle-IsTrace (Input.tick t) s = ground arith

-- What a publisher puts out for each message is put out for each change of state.
module _ {P A : Type 0} (publish : EventPublisher P) (put_out : P → List A)
    (form : Bytes × Bytes → List A)
    (puts_out : (p : P) (s b : Bytes) → put_out (publish p s b).0 ≡ put_out p ++ form (s, b)) where
  abbrev outputs : List Transition → List A
  outputs ts = flat_map (λ t. form (event t)) ts

  publish_if_changed-outputs :
      (t : Transition) (s : SuperviseLink P)
      → put_out (publish_if_changed publish t s).0.publisher
        ≡ put_out s.publisher ++ outputs (changed_only (some t))
  unfolding publish_if_changed
  publish_if_changed-outputs t s = elim (Bool-cases t.changed) [
    | inl p ↦ simp (p, append-nil) (puts_out s.publisher link_subject (link_payload t))
    | inr p ↦ simp p (sym (append-nil (put_out s.publisher)))
  ]

  forward-outputs :
      (r : Result Transition Error) (s : SuperviseLink P)
      → put_out (forward publish s r).0.publisher
        ≡ put_out s.publisher ++ outputs (changed_only (to_option r))
  forward-outputs (ok t) s = publish_if_changed-outputs t s
  forward-outputs (err e) s = sym (append-nil (put_out s.publisher))

  handle-outputs :
      (i : Input) (s : SuperviseLink P)
      → put_out (handle publish i s).0.publisher
        ≡ put_out s.publisher ++ outputs (changed_by i s.monitor)
  handle-outputs (Input.heartbeat t) s =
      unfold handle heartbeat_received step in
      forward-outputs (on_heartbeat t s.monitor).1
        (record s { monitor = (on_heartbeat t s.monitor).0 })
  handle-outputs (Input.tick t) s =
      unfold handle tick step in
      publish_if_changed-outputs (on_tick t s.monitor).1
        (record s { monitor = (on_tick t s.monitor).0 })

  pub supervise-outputs :
      (is : List Input) (s : SuperviseLink P)
      → (ts : List Transition) × (put_out (supervise publish is s).publisher
          ≡ put_out s.publisher ++ flat_map (λ t. form (event t)) ts)
        × IsTrace s.monitor.state ts (supervise publish is s).monitor.state
  unfolding supervise
  supervise-outputs [] s = ([], sym (append-nil (put_out s.publisher)), refl)
  supervise-outputs (i ∷ is) s =
      let (ts, e, tr) = supervise-outputs is (handle publish i s).0 in
      (
        changed_by i s.monitor ++ ts,
        e
            ∙ rw (handle-outputs i s) (
                rw (
                  flat_map-append (λ t. form (event t)) (changed_by i s.monitor) ts,
                  append_assoc,
                )),
        IsTrace-append _ _ _ (changed_by i s.monitor) ts (handle-IsTrace publish i s) tr,
      )

-- Over any run the publisher receives exactly one message for each change of state, in order:
-- the published transitions lead from the first state to the last, each to another state.
pub supervise-sent :
    {P : Type 0} (publish : EventPublisher P) (sent : P → List (Bytes × Bytes))
    → ((p : P) (s b : Bytes) → sent (publish p s b).0 ≡ sent p ++ (s, b) ∷ [])
    → (is : List Input) (s : SuperviseLink P)
    → (ts : List Transition) × (sent (supervise publish is s).publisher
        ≡ sent s.publisher ++ map event ts)
      × IsTrace s.monitor.state ts (supervise publish is s).monitor.state
supervise-sent publish sent sends is s =
    let (ts, e, tr) = supervise-outputs publish sent (λ m. m ∷ []) sends is s in
    (ts, e ∙ rw (flat_map-singleton event ts), tr)

module _ {P : Type 0} (publish : EventPublisher P) where
  -- If a tick returns the publisher's error, the link is lost by then, and no later tick changes
  -- anything, publishes the change again or reports an error.
  pub failed_tick_not_retried :
      (now later : ℕ) (s : SuperviseLink P) {e : Error}
      → (tick publish now s).1 ≡ err e
      → let s' = (tick publish now s).0 in
        (s'.monitor.state ≡ lost) × (tick publish later s' ≡ (s', ok tt))
  unfolding tick on_tick
  failed_tick_not_retried now later s h = ground arith
