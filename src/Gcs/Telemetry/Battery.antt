-- ===== src/Gcs/Telemetry/Battery.antt =====
-- The battery's charge stays between 0 and 1, whatever is simulated.
use mathlib.Core.Path.{subst}
use uaop.Base.{◌≡◌, ◌≢◌, sym, ◌∙◌, ap, inl, inr, false, List, [], ◌∷◌, arith, Bool-cases}
use uaop.Base.Lists.{All}
use uaop.Gcs.Telemetry.{
  DoubleOps, TelemetryController, new_controller, arm_vehicle, disarm_vehicle,
  toggle_jamming_simulation, abort_mission,
}
use uaop.Gcs.Telemetry.Flight.{Event, assign, arm, disarm, toggle, abort, timeout, handle, run}
use uaop.Gcs.Telemetry.Properties.{Property, battery_remaining, Value, double, write}
use uaop.Gcs.Telemetry.Simulation.{
  Draws, update_simulation, move_vehicle, fly, stay_on_ground, recharge, hop_channel, jam,
}
use uaop.Gcs.Telemetry.Written.{write-Written}

-- What the battery's code relies on: `qMax` is not below its first argument, `qMin` is not above
-- its own, neither leaves the range of its arguments, and adding and subtracting the positive
-- steps moves a value up and down.
pub record IsOrdered {D : Type 0} (ops : DoubleOps D) : Type 0 where
  pub one-not_below_zero : ops.less (ops.lit 10 1) (ops.lit 0 1) ≡ false
  pub one_irrefl : ops.less (ops.lit 10 1) (ops.lit 10 1) ≡ false
  pub q_max-left : (a b : D) → ops.less (ops.q_max a b) a ≡ false
  pub q_max-above :
      (a b c : D) → ops.less c a ≡ false → ops.less c b ≡ false → ops.less c (ops.q_max a b) ≡ false
  pub q_min-left : (a b : D) → ops.less a (ops.q_min a b) ≡ false
  pub q_min-below :
      (a b c : D) → ops.less a c ≡ false → ops.less b c ≡ false → ops.less (ops.q_min a b) c ≡ false
  pub drain : (a c : D) → ops.less c a ≡ false → ops.less c (ops.subtract a (ops.lit 2 4)) ≡ false
  pub charge : (a c : D) → ops.less a c ≡ false → ops.less (ops.plus a (ops.lit 1 3)) c ≡ false

-- The event does not write the charge.
abbrev pub LeavesBattery : {D : Type 0} → Event D → Type 0
LeavesBattery (assign p v) = p ≢ battery_remaining
LeavesBattery _ = Unit {0}

module _ {D : Type 0} (ops : DoubleOps D) (laws : IsOrdered ops) where
  open ops use {lit, less}

  abbrev pub IsCharge : D → Type 0
  IsCharge b = (less b (lit 0 1) ≡ false) × (less (lit 10 1) b ≡ false)

  fly-IsCharge :
      (step : D) (c : TelemetryController D)
      → IsCharge c.battery_remaining
      → IsCharge (fly ops step c).battery_remaining
  unfolding fly
  fly-IsCharge step c h = (
    laws.q_max-left (lit 0 1) (ops.subtract c.battery_remaining (lit 2 4)),
    laws.q_max-above (lit 0 1) (ops.subtract c.battery_remaining (lit 2 4)) (lit 10 1)
        laws.one-not_below_zero (laws.drain c.battery_remaining (lit 10 1) h.1),
  )

  recharge-IsCharge :
      (c : TelemetryController D)
      → IsCharge c.battery_remaining
      → IsCharge (recharge ops c).battery_remaining
  unfolding recharge
  recharge-IsCharge c h = elim (Bool-cases (less c.battery_remaining (lit 10 1))) [
    | inr full ↦ simp full h
    | inl below ↦ simp below (
      laws.q_min-below (lit 10 1) (ops.plus c.battery_remaining (lit 1 3)) (lit 0 1)
          laws.one-not_below_zero (laws.charge c.battery_remaining (lit 0 1) h.0),
      laws.q_min-left (lit 10 1) (ops.plus c.battery_remaining (lit 1 3)),
    )
  ]

  stay_on_ground-IsCharge :
      (step : D) (c : TelemetryController D)
      → IsCharge c.battery_remaining
      → IsCharge (stay_on_ground ops step c).battery_remaining
  unfolding stay_on_ground
  stay_on_ground-IsCharge step c h =
      recharge-IsCharge
        (record c {
          ground_speed = lit 0 1;
          altitude_agl = ops.q_max (lit 0 1) (ops.subtract c.altitude_agl (lit 10 1));
          altitude_wgs84 = lit 2500 1;
          roll = ops.times (ops.sin (ops.times step (lit 1 1))) (lit 5 1);
          pitch = ops.times (ops.cos (ops.times step (lit 1 1))) (lit 5 1);
        })
        h

  move_vehicle-IsCharge :
      (step : D) (c : TelemetryController D)
      → IsCharge c.battery_remaining
      → IsCharge (move_vehicle ops step c).battery_remaining
  unfolding move_vehicle
  move_vehicle-IsCharge step c h = elim (Bool-cases c.armed) [
    | inl flying ↦ simp flying (fly-IsCharge step c h)
    | inr landed ↦ simp landed (stay_on_ground-IsCharge step c h)
  ]

  hop_channel-battery :
      (d : Draws) (c : TelemetryController D)
      → (hop_channel ops d c).battery_remaining ≡ c.battery_remaining
  unfolding hop_channel
  hop_channel-battery d c = ground arith

  jam-battery :
      (d : Draws) (c : TelemetryController D)
      → (jam ops d c).battery_remaining ≡ c.battery_remaining
  unfolding jam
  jam-battery d c = ground arith

  update_simulation-IsCharge :
      (d : Draws) (c : TelemetryController D)
      → IsCharge c.battery_remaining
      → IsCharge (update_simulation ops d c).battery_remaining
  unfolding update_simulation
  update_simulation-IsCharge d c h =
      let step = ops.plus c.step (lit 1 1) in
      let moved = move_vehicle ops step (record c { step = step }) in
      subst IsCharge (sym (jam-battery d (hop_channel ops d moved) ∙ hop_channel-battery d moved))
        (move_vehicle-IsCharge step (record c { step = step }) h)

  write-battery :
      (p : Property) (v : Value D) (c : TelemetryController D)
      → p ≢ battery_remaining
      → (write ops p v c).battery_remaining ≡ c.battery_remaining
  write-battery p v c other = elim (write-Written ops p v c) [
    | inl (same, _) ↦ ap (λ r. r.battery_remaining) same
    | inr w ↦ elim (w.unchanged battery_remaining) [
      | inl here ↦ absurd (other here)
      | inr kept ↦
          (let e : Path (Value D) (double (write ops p v c).battery_remaining)
                (double c.battery_remaining) =
              kept in
            cc)
    ]
  ]

  arm-battery :
      (c : TelemetryController D) → (arm_vehicle ops c).battery_remaining ≡ c.battery_remaining
  unfolding arm_vehicle
  arm-battery c = ground arith

  toggle-battery :
      (c : TelemetryController D)
      → (toggle_jamming_simulation ops c).battery_remaining ≡ c.battery_remaining
  unfolding toggle_jamming_simulation
  toggle-battery c = ground arith

  handle-IsCharge :
      (e : Event D) (c : TelemetryController D)
      → LeavesBattery e
      → IsCharge c.battery_remaining
      → IsCharge (handle ops e c).battery_remaining
  unfolding handle
  handle-IsCharge (assign p v) c other h = subst IsCharge (sym (write-battery p v c other)) h
  handle-IsCharge arm c other h = subst IsCharge (sym (arm-battery c)) h
  handle-IsCharge disarm c other h = unfold disarm_vehicle in h
  handle-IsCharge toggle c other h = subst IsCharge (sym (toggle-battery c)) h
  handle-IsCharge abort c other h = unfold abort_mission in h
  handle-IsCharge (timeout d) c other h = update_simulation-IsCharge d c h

  -- Whatever is simulated, called and written, as long as the charge itself is not written, it is
  -- never below 0 nor above 1.
  pub run-IsCharge :
      (es : List (Event D)) → All LeavesBattery es → IsCharge (run ops es).battery_remaining
  unfolding run
  run-IsCharge [] h = unfold new_controller in (laws.one-not_below_zero, laws.one_irrefl)
  run-IsCharge (e ∷ es) h = handle-IsCharge e (run ops es) h.0 (run-IsCharge es h.1)
