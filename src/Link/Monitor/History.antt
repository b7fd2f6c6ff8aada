-- ===== src/Link/Monitor/History.antt =====
-- The link monitor against its history: which heartbeats and ticks the app layer has fed it.
-- A history lists the newest input first.
use Prim.Native.Nat.{max}
use uaop.Base.{
  ℕ, ◌+◌, ◌≤◌, ◌<◌, ◌≡◌, refl, Bool, true, false, ◌||◌, List, [], ◌∷◌, Option, none, some, ltb,
  if◌then◌else◌, arith, ◌∙◌, ◌-◌,
}
use uaop.Common.Result.{Result, ok, err}
use uaop.Link.Monitor.{
  LinkState, never_seen, alive, lost, Transition, LinkMonitor, new, on_heartbeat, on_tick,
}
use uaop.Base.Words.{u64_mod, sub_u64}

pub data Input : Type 0 where
  heartbeat : ℕ → Input
  tick : ℕ → Input

abbrev pub time : Input → ℕ
time (heartbeat t) = t
time (tick t) = t

abbrev pub to_option : {T E : Type 0} → Result T E → Option T
to_option (ok v) = some v
to_option (err e) = none

-- One call of the monitor; `none` where it returns no transition but an error.
unfoldable pub step : Input → LinkMonitor → LinkMonitor × Option Transition
step (heartbeat t) m = let (m', r) = on_heartbeat t m in (m', to_option r)
step (tick t) m = let (m', tr) = on_tick t m in (m', some tr)

unfoldable pub run : ℕ → List Input → LinkMonitor
run timeout [] = new timeout
run timeout (i ∷ h) = (step i (run timeout h)).0

-- The latest time of any heartbeat, 0 if there was none.
abbrev pub max_beat : List Input → ℕ
max_beat [] = 0
max_beat (heartbeat t ∷ h) = max t (max_beat h)
max_beat (tick t ∷ h) = max_beat h

abbrev pub any_beat : List Input → Bool
any_beat [] = false
any_beat (heartbeat t ∷ h) = true
any_beat (tick t ∷ h) = any_beat h

-- Some tick since the last heartbeat found the link silent for more than the timeout.
abbrev pub silent : ℕ → List Input → Bool
silent deadline [] = false
silent deadline (heartbeat t ∷ h) = false
silent deadline (tick t ∷ h) = ltb deadline t || silent deadline h

abbrev pub latest : List Input → ℕ
latest [] = 0
latest (i ∷ h) = time i

-- The clock of the caller never runs backwards and fits `uint64_t`.
abbrev pub IsMonotone : List Input → Type 0
IsMonotone [] = Unit
IsMonotone (i ∷ h) = (latest h ≤ time i) × (time i < u64_mod) × IsMonotone h

-- What the history says of the link.
unfoldable pub expected : ℕ → List Input → LinkState
expected timeout h =
    if any_beat h then (if silent (max_beat h + timeout) h then lost else alive) else never_seen

record Tracks (h : List Input) (m : LinkMonitor) : Type 0 where
  seen_max : m.last_seen_ms ≡ max_beat h
  seen_any : (m.state ≡ never_seen) → any_beat h ≡ false
  any_seen : any_beat h ≡ false → m.state ≡ never_seen
  none_zero : any_beat h ≡ false → max_beat h ≡ 0

step-Tracks :
    (i : Input) (h : List Input) (m : LinkMonitor) → Tracks h m → Tracks (i ∷ h) (step i m).0
unfolding step on_heartbeat on_tick
step-Tracks (heartbeat t) h m v = ground arith
step-Tracks (tick t) h m v = ground arith

run-Tracks : (timeout : ℕ) (h : List Input) → Tracks h (run timeout h)
unfolding run new
run-Tracks timeout [] = ground arith
run-Tracks timeout (i ∷ h) = step-Tracks i h (run timeout h) (run-Tracks timeout h)

-- Whatever the order of the heartbeats, the monitor holds the latest time of any of them, so a
-- rejected heartbeat never moves it back.
pub last_seen-max_beat : (timeout : ℕ) (h : List Input) → (run timeout h).last_seen_ms ≡ max_beat h
last_seen-max_beat timeout h = (run-Tracks timeout h).seen_max

max_beat-le-latest : (h : List Input) → IsMonotone h → max_beat h ≤ latest h
max_beat-le-latest [] v = omega arith
max_beat-le-latest (heartbeat t ∷ h) v = omega (arith, max_beat-le-latest h v.2)
max_beat-le-latest (tick t ∷ h) v = omega (arith, max_beat-le-latest h v.2)

step-timeout : (i : Input) (m : LinkMonitor) → (step i m).0.timeout_ms ≡ m.timeout_ms
unfolding step on_heartbeat on_tick
step-timeout (heartbeat t) m = ground arith
step-timeout (tick t) m = ground arith

run-timeout : (timeout : ℕ) (h : List Input) → (run timeout h).timeout_ms ≡ timeout
unfolding run new
run-timeout timeout [] = refl
run-timeout timeout (i ∷ h) = step-timeout i (run timeout h) ∙ run-timeout timeout h

late_lem :
    (now seen timeout : ℕ)
    → seen ≤ now
    → now < u64_mod
    → ltb timeout (sub_u64 now seen) ≡ ltb (seen + timeout) now
late_lem now seen timeout p q = ground arith

-- What a tick makes of a state, by the same test with no subtraction.
abbrev after_tick : LinkState → Bool → LinkState
after_tick never_seen late = never_seen
after_tick alive late = if late then lost else alive
after_tick lost late = lost

on_tick-after_tick :
    (now : ℕ) (m : LinkMonitor)
    → m.last_seen_ms ≤ now
    → now < u64_mod
    → (on_tick now m).0.state ≡ after_tick m.state (ltb (m.last_seen_ms + m.timeout_ms) now)
unfolding on_tick
on_tick-after_tick now m p q = rw (late_lem now m.last_seen_ms m.timeout_ms p q) (ground arith)

after_tick-expected :
    (timeout t : ℕ) (h : List Input)
    → after_tick (expected timeout h) (ltb (max_beat h + timeout) t) ≡ expected timeout (tick t ∷ h)
unfolding expected
after_tick-expected timeout t h = ground arith

module _ (timeout : ℕ) (h : List Input) (m : LinkMonitor) where
  step-expected :
      (i : Input)
      → IsMonotone (i ∷ h)
      → m.timeout_ms ≡ timeout
      → Tracks h m
      → m.state ≡ expected timeout h
      → (step i m).0.state ≡ expected timeout (i ∷ h)
  unfolding step
  step-expected (heartbeat t) v e k s =
      unfold on_heartbeat expected in ground (arith, max_beat-le-latest h v.2)
  step-expected (tick t) v e k s =
      on_tick-after_tick t m (omega (arith, max_beat-le-latest h v.2, k.seen_max)) v.1
      ∙ rw (s, k.seen_max, e) (after_tick-expected timeout t h)

-- With a clock that never runs backwards, the state is what the history says: never seen before
-- the first heartbeat, lost if a tick since the last heartbeat came more than the timeout after
-- it, and alive otherwise.
pub run-expected :
    (timeout : ℕ) (h : List Input) → IsMonotone h → (run timeout h).state ≡ expected timeout h
unfolding run new
run-expected timeout [] v = unfold expected in refl
run-expected timeout (i ∷ h) v =
    step-expected timeout h (run timeout h) i v (run-timeout timeout h) (run-Tracks timeout h)
      (run-expected timeout h v.2)

-- A tick that is earlier than the last heartbeat wraps around, and the link counts as lost
-- although it is not silent, unless the timeout is within the difference of 2 ^ 64.
pub tick_regression-lost :
    (now : ℕ) (m : LinkMonitor)
    → m.state ≡ alive
    → now < m.last_seen_ms
    → m.last_seen_ms < u64_mod
    → m.timeout_ms + (m.last_seen_ms - now) < u64_mod
    → ((on_tick now m).0.state ≡ lost) × ((on_tick now m).1.changed ≡ true)
unfolding on_tick
tick_regression-lost now m s p q r = ground arith
