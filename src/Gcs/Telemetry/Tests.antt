-- ===== src/Gcs/Telemetry/Tests.antt =====
-- A flight with whole ten-thousandths for doubles, and the theorems on it.
use uaop.Base.{
  ℕ, ◌+◌, ◌-◌, ◌*◌, ◌/◌, ◌^◌, ◌≡◌, refl, true, false, not, ◌&&◌, List, [], ◌∷◌, ltb, ◌==◌,
  if◌then◌else◌, arith,
}
use uaop.Base.Int.{pos, less_int}
use uaop.Base.Text.{codes}
use uaop.Gcs.Telemetry.{
  DoubleOps, new_controller, ready_to_fly, status_message, arm_vehicle, toggle_jamming_simulation,
}
use uaop.Gcs.Telemetry.Battery.{IsOrdered, IsCharge, run-IsCharge}
use uaop.Gcs.Telemetry.Flight.{Event, assign, arm, toggle, timeout, run, handle, Armed, run-Armed}
use uaop.Gcs.Telemetry.Properties.{yaw, double, write}
use uaop.Gcs.Telemetry.Simulation.{
  Draws, fly, stay_on_ground, hop_channel, jam, move_vehicle, update_simulation,
}
use uaop.Gcs.Telemetry.Spoofing.{IsDrawn, IsRadioReport, run-IsRadioReport}
use uaop.Gcs.Telemetry.Status.{is_go, ready_to_fly-is_go, stale_after_jamming}

-- n / 10^k in ten-thousandths; subtraction stops at 0.
abbrev fixed : DoubleOps ℕ
fixed = record {
  lit = λ n k. n * 10000 / 10 ^ k;
  plus = λ a b. a + b;
  less = ltb;
  subtract = λ a b. a - b;
  times = λ a b. a * b / 10000;
  sin = λ a. 0;
  cos = λ a. 10000;
  fmod = λ a b. a;
  q_max = λ a b. if ltb a b then b else a;
  q_min = λ a b. if ltb a b then a else b;
  q_fuzzy_compare = λ a b. a == b;
}

fixed-IsOrdered : IsOrdered fixed
fixed-IsOrdered = record {
  one-not_below_zero = refl;
  one_irrefl = refl;
  q_max-left = λ a b. ground arith;
  q_max-above = λ a b c h k. ground arith;
  q_min-left = λ a b. ground arith;
  q_min-below = λ a b c h k. ground arith;
  drain = λ a c h. ground arith;
  charge = λ a c h. ground arith;
}

abbrev draws : Draws
draws = record { hop = 1; channel = 33; jamming = 240; satellites = 2; noise = 20 }

abbrev flight : List (Event ℕ)
flight = assign yaw (double 9) ∷ timeout draws ∷ toggle ∷ arm ∷ timeout draws ∷ []

flight-armed : (run fixed flight).armed ≡ true
unfolding run handle write update_simulation jam hop_channel move_vehicle toggle_jamming_simulation
    arm_vehicle ready_to_fly new_controller stay_on_ground fly
flight-armed = refl

flight-jamming :
    status_message fixed (run fixed flight)
    ≡ codes "🔴 NO-GO: ACTIVE RF JAMMING & GPS SPOOFING DETECTED"
unfolding run handle status_message write update_simulation jam hop_channel move_vehicle
    toggle_jamming_simulation arm_vehicle ready_to_fly new_controller stay_on_ground fly
flight-jamming = refl

run-Armed_example : Armed fixed flight
run-Armed_example = run-Armed fixed flight flight-armed

run-IsCharge_example : IsCharge fixed fixed-IsOrdered (run fixed flight).battery_remaining
run-IsCharge_example =
    run-IsCharge fixed fixed-IsOrdered flight ((λ e. cc), (tt, (tt, (tt, (tt, tt)))))

ready_to_fly-is_go_example :
    let c = run fixed flight in
    (ready_to_fly fixed c
      ≡ (is_go (status_message fixed c) && not (less_int (pos 150) c.signal_jamming)))
    × (status_message fixed (record c { signal_jamming = pos 200 }) ≡ status_message fixed c)
ready_to_fly-is_go_example = ready_to_fly-is_go fixed (run fixed flight) (pos 200)

stale_after_jamming_example :
    let c' =
      toggle_jamming_simulation fixed
        (update_simulation fixed draws (toggle_jamming_simulation fixed (new_controller fixed))) in
    (status_message fixed c' ≡ codes "🟢 READY TO FLY: SYSTEM HEALTH VERIFIED")
    × (ready_to_fly fixed c' ≡ false)
    × (arm_vehicle fixed c' ≡ c')
unfolding new_controller toggle_jamming_simulation update_simulation jam hop_channel move_vehicle
    stay_on_ground
stale_after_jamming_example =
    stale_after_jamming fixed draws (new_controller fixed) refl refl (omega arith) refl

draws-IsDrawn : IsDrawn draws
draws-IsDrawn = record {
  channel = (omega arith, omega arith);
  jamming = (omega arith, omega arith);
  satellites = omega arith;
  noise = (omega arith, omega arith);
}

run-IsRadioReport_example : IsRadioReport fixed (run fixed flight)
run-IsRadioReport_example =
    run-IsRadioReport fixed flight
      ((λ e. cc, λ e. cc, λ e. cc, λ e. cc), (draws-IsDrawn, (tt, (tt, (draws-IsDrawn, tt)))))
