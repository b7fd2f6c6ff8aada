-- ===== src/Link/Program.antt =====
-- tools/service-template/src/main.cpp: the program that runs the use case, over any publisher.
use uaop.Base.{
  ℕ, zero, suc, ◌+◌, ◌≡◌, ◌∙◌, ap, refl, true, false, ◌++◌, [], Option, none, some, leb,
}
use uaop.Base.Text.{Bytes, codes}
use uaop.Common.Result.{Error, Result, ok, err}
use uaop.Link.Monitor.{LinkState, never_seen, alive, lost, LinkMonitor, new, on_heartbeat, on_tick}
use uaop.Link.Supervise.{
  EventPublisher, SuperviseLink, link_subject, link_payload, publish_if_changed, heartbeat_received,
  tick,
}

-- What is left when the program ends: the publisher, the text written to `std::cerr`, and the exit
-- status.
pub record Exit (P : Type 0) : Type 0 where
  pub publisher : P
  pub cerr : Bytes
  pub status : ℕ

-- `cout` is the effect of printing a text on the publisher's state, since the publisher of the
-- template prints to the same stream.
module _ {P : Type 0} (publish : EventPublisher P) (cout : P → Bytes → P) where
  abbrev Handler : Type 0
  Handler = ℕ → SuperviseLink P → SuperviseLink P × Result (Unit {0}) Error

  -- `for (t; t <= last; t += 1000)`, left with the first error; every round moves `t` on, so
  -- `last + 1` is enough fuel.
  unfoldable pub loop : Handler → ℕ → ℕ → ℕ → SuperviseLink P → SuperviseLink P × Option Error
  loop handler zero last t s = (s, none)
  loop handler (suc fuel) last t s = elim (leb t last) [
    | true ↦
        (let (s', r) = handler t s in
          elim r [ err e ↦ (s', some e) | ok u ↦ loop handler fuel last (t + 1000) s' ])
    | false ↦ (s, none)
  ]

  abbrev failure : Bytes → Error → P → Exit P
  failure what e p = record { publisher = p; cerr = what ++ (e.message ++ codes "\n"); status = 1 }

  abbrev after_ticks : SuperviseLink P × Option Error → Exit P
  after_ticks (s, some e) = failure (codes "tick error: ") e s.publisher
  after_ticks (s, none) = record {
    publisher = cout s.publisher (codes "service-template: done\n");
    cerr = [];
    status = 0;
  }

  abbrev after_heartbeats : SuperviseLink P × Option Error → Exit P
  after_heartbeats (s, some e) = failure (codes "heartbeat error: ") e s.publisher
  after_heartbeats (s, none) = after_ticks (loop (tick publish) 7001 7000 3000 s)

  unfoldable pub main : P → Exit P
  unfolding loop heartbeat_received tick
  main p =
      let s : SuperviseLink P = record { monitor = new 3000; publisher = p } in
      after_heartbeats (loop (heartbeat_received publish) 2001 2000 0 s)

  abbrev change : LinkState → LinkState → Bytes
  change a b = link_payload (record { from = a; to = b; changed = true })

  -- The two events of a run, each with what is said when it fails.
  abbrev then_lost : P × Result (Unit {0}) Error → Exit P
  then_lost (p, err e) = failure (codes "tick error: ") e p
  then_lost (p, ok u) = record {
    publisher = cout p (codes "service-template: done\n");
    cerr = [];
    status = 0;
  }

  abbrev then_alive : P × Result (Unit {0}) Error → Exit P
  then_alive (p, err e) = failure (codes "heartbeat error: ") e p
  then_alive (p, ok u) = then_lost (publish p link_subject (change alive lost))

  abbrev supervising : LinkMonitor → P → SuperviseLink P
  supervising m p = record { monitor = m; publisher = p }

  abbrev live : LinkMonitor
  live = record { timeout_ms = 3000; last_seen_ms = 2000; state = alive }

  abbrev gone : LinkMonitor
  gone = record { timeout_ms = 3000; last_seen_ms = 2000; state = lost }

  module _ (handler : Handler) (fuel last t : ℕ) (s s' : SuperviseLink P)
      (within : leb t last ≡ true) where
    round_ok :
        handler t s ≡ (s', ok tt)
        → loop handler (suc fuel) last t s ≡ loop handler fuel last (t + 1000) s'
    unfolding loop
    round_ok e = rw (loop, within, e) (ap (λ r. loop handler fuel last (t + 1000) r.0) e)

    round_err :
        (e : Error) → handler t s ≡ (s', err e) → loop handler (suc fuel) last t s ≡ (s', some e)
    unfolding loop
    round_err e h = rw (loop, within, h) (ap (λ r. (r.0, some e)) h)

  loop_over :
      (handler : Handler) (fuel last t : ℕ) (s : SuperviseLink P)
      → leb t last ≡ false
      → loop handler (suc fuel) last t s ≡ (s, none)
  unfolding loop
  loop_over handler fuel last t s over = rw (loop, over) refl

  quiet_tick :
      (t : ℕ) (m : LinkMonitor) (p : P)
      → on_tick t m ≡ (m, record { from = m.state; to = m.state; changed = false })
      → tick publish t (supervising m p) ≡ (supervising m p, ok tt)
  unfolding tick publish_if_changed
  quiet_tick t m p e = rw e refl

  lost_tick :
      (p : P) (r : P × Result (Unit {0}) Error)
      → publish p link_subject (change alive lost) ≡ r
      → tick publish 6000 (supervising live p) ≡ (supervising gone r.0, r.1)
  unfolding tick publish_if_changed on_tick
  lost_tick p r e = ap (λ r. (supervising gone r.0, r.1)) e

  until_lost :
      (p : P)
      → loop (tick publish) 7001 7000 3000 (supervising live p)
        ≡ loop (tick publish) 6998 7000 6000 (supervising live p)
  until_lost p =
      round_ok (tick publish) 7000 7000 3000 (supervising live p) (supervising live p) refl
        (quiet_tick 3000 live p (unfold on_tick in refl))
      ∙ round_ok (tick publish) 6999 7000 4000 (supervising live p) (supervising live p) refl
          (quiet_tick 4000 live p (unfold on_tick in refl))
      ∙ round_ok (tick publish) 6998 7000 5000 (supervising live p) (supervising live p) refl
          (quiet_tick 5000 live p (unfold on_tick in refl))

  lost_event :
      (p : P) (r : P × Result (Unit {0}) Error)
      → publish p link_subject (change alive lost) ≡ r
      → after_ticks (loop (tick publish) 7001 7000 3000 (supervising live p)) ≡ then_lost r
  lost_event p (q, err u) e = ap after_ticks (
      until_lost p
      ∙ round_err (tick publish) 6997 7000 6000 (supervising live p) (supervising gone q) refl u
          (lost_tick p (q, err u) e))
  lost_event p (q, ok u) e = ap after_ticks (
      until_lost p
      ∙ round_ok (tick publish) 6997 7000 6000 (supervising live p) (supervising gone q) refl
          (lost_tick p (q, ok u) e)
      ∙ round_ok (tick publish) 6996 7000 7000 (supervising gone q) (supervising gone q) refl
          (quiet_tick 7000 gone q (unfold on_tick in refl))
      ∙ loop_over (tick publish) 6995 7000 8000 (supervising gone q) refl)

  abbrev beaten : ℕ → LinkMonitor
  beaten t = record { timeout_ms = 3000; last_seen_ms = t; state = alive }

  first_heartbeat :
      (p : P) (r : P × Result (Unit {0}) Error)
      → publish p link_subject (change never_seen alive) ≡ r
      → heartbeat_received publish 0 (supervising (new 3000) p) ≡ (supervising (beaten 0) r.0, r.1)
  unfolding heartbeat_received publish_if_changed on_heartbeat new
  first_heartbeat p r e = ap (λ r. (supervising (beaten 0) r.0, r.1)) e

  quiet_heartbeat :
      (before now : ℕ) (p : P)
      → on_heartbeat now (beaten before)
        ≡ (beaten now, ok (record { from = alive; to = alive; changed = false }))
      → heartbeat_received publish now (supervising (beaten before) p)
        ≡ (supervising (beaten now) p, ok tt)
  unfolding heartbeat_received publish_if_changed
  quiet_heartbeat before now p e = rw e refl

  alive_event :
      (p : P) (r : P × Result (Unit {0}) Error)
      → publish p link_subject (change never_seen alive) ≡ r
      → after_heartbeats (loop (heartbeat_received publish) 2001 2000 0 (supervising (new 3000) p))
        ≡ then_alive r
  alive_event p (q, err u) e = ap after_heartbeats (
      round_err (heartbeat_received publish) 2000 2000 0 (supervising (new 3000) p)
        (supervising (beaten 0) q) refl u (first_heartbeat p (q, err u) e))
  alive_event p (q, ok u) e =
      ap after_heartbeats (
        round_ok (heartbeat_received publish) 2000 2000 0 (supervising (new 3000) p)
          (supervising (beaten 0) q) refl (first_heartbeat p (q, ok u) e)
        ∙ round_ok (heartbeat_received publish) 1999 2000 1000 (supervising (beaten 0) q)
            (supervising (beaten 1000) q) refl
            (quiet_heartbeat 0 1000 q (unfold on_heartbeat in refl))
        ∙ round_ok (heartbeat_received publish) 1998 2000 2000 (supervising (beaten 1000) q)
            (supervising live q) refl (quiet_heartbeat 1000 2000 q (unfold on_heartbeat in refl))
        ∙ loop_over (heartbeat_received publish) 1997 2000 3000 (supervising live q) refl)
      ∙ lost_event q (publish q link_subject (change alive lost)) refl

  -- Whatever the publisher does, the program ends having given it at most two messages: first that
  -- the link is alive, then, if that was accepted, that it is lost. The first of them that fails
  -- makes the program print the error and fail; if neither does, it prints that it is done and
  -- succeeds.
  pub main-then_alive :
      (p : P) → main p ≡ then_alive (publish p link_subject (change never_seen alive))
  unfolding main
  main-then_alive p = alive_event p (publish p link_subject (change never_seen alive)) refl
