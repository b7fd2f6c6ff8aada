-- ===== src/Link/Monitor/Silence.antt =====
-- A link that falls silent: the loop of ticks in tools/service-template/src/main.cpp, for any
-- monitor and any times.
use uaop.Base.{
  ℕ, ◌+◌, ◌≤◌, ◌<◌, ◌≡◌, refl, Bool, true, false, ◌||◌, List, [], ◌∷◌, ltb, if◌then◌else◌, arith,
  dec_lt,
}
use uaop.Base.Lists.{All}
use uaop.Link.Monitor.{alive, lost, Transition, LinkMonitor, on_tick}
use uaop.Base.Words.{u64_mod}

-- The transitions that a run of ticks returns, and the monitor after it.
unfoldable pub ticks : List ℕ → LinkMonitor → LinkMonitor × List Transition
ticks [] m = (m, [])
ticks (t ∷ ts) m = let (m1, tr) = on_tick t m in let (m2, trs) = ticks ts m1 in (m2, tr ∷ trs)

-- How many transitions changed the state.
abbrev pub changes : List Transition → ℕ
changes [] = 0
changes (tr ∷ trs) = (if tr.changed then 1 else 0) + changes trs

abbrev pub any_late : ℕ → List ℕ → Bool
any_late deadline [] = false
any_late deadline (t ∷ ts) = ltb deadline t || any_late deadline ts

ticks-quiet :
    (ts : List ℕ) (m : LinkMonitor)
    → m.state ≡ lost
    → ((ticks ts m).0.state ≡ lost) × (changes (ticks ts m).1 ≡ 0)
unfolding ticks on_tick
ticks-quiet [] m s = (s, refl)
ticks-quiet (t ∷ ts) m s = ground (arith, ticks-quiet ts m s)

late_step :
    (t : ℕ) (m : LinkMonitor)
    → m.state ≡ alive
    → m.last_seen_ms ≤ t
    → t < u64_mod
    → m.last_seen_ms + m.timeout_ms < t
    → on_tick t m ≡ (record m { state = lost }, record { from = alive; to = lost; changed = true })
unfolding on_tick
late_step t m s p q r = ground arith

early_step :
    (t : ℕ) (m : LinkMonitor)
    → m.state ≡ alive
    → m.last_seen_ms ≤ t
    → t < u64_mod
    → t ≤ m.last_seen_ms + m.timeout_ms
    → on_tick t m ≡ (m, record { from = m.state; to = m.state; changed = false })
unfolding on_tick
early_step t m s p q r = ground arith

-- Ticks that follow the last heartbeat of a live link yield exactly one change of state, to lost,
-- if one of them comes more than the timeout after that heartbeat, and none otherwise, in
-- whatever order they come.
pub ticks_lost_once :
    (ts : List ℕ) (m : LinkMonitor)
    → m.state ≡ alive
    → All (λ t. (m.last_seen_ms ≤ t) × (t < u64_mod)) ts
    → let late = any_late (m.last_seen_ms + m.timeout_ms) ts in
      ((ticks ts m).0.state ≡ (if late then lost else alive))
      × (changes (ticks ts m).1 ≡ (if late then 1 else 0))
unfolding ticks
ticks_lost_once [] m s h = (s, refl)
ticks_lost_once (t ∷ ts) m s h = elim (dec_lt (m.last_seen_ms + m.timeout_ms) t) [
  | yes p ↦
      rw (late_step t m s h.0.0 h.0.1 p)
        (ground (arith, ticks-quiet ts (record m { state = lost }) refl))
  | no p ↦
      rw (early_step t m s h.0.0 h.0.1 (omega arith)) (ground (arith, ticks_lost_once ts m s h.1))
]
