-- ===== src/Gcs/Telemetry/Status.antt =====
-- What the operator is told, against what decides whether the vehicle may be armed.
use uaop.Base.{◌<◌, ◌≡◌, refl, ◌∙◌, ap, Bool, true, false, not, ◌&&◌, [], ◌∷◌, ◌==◌, arith}
use uaop.Base.Int.{ℤ, pos, less_int}
use uaop.Base.Text.{Bytes, codes}
use uaop.Gcs.Telemetry.{
  DoubleOps, TelemetryController, ready_to_fly, arm_vehicle, status_message,
  toggle_jamming_simulation,
}
use uaop.Gcs.Telemetry.Flight.{update_simulation-armed}
use uaop.Gcs.Telemetry.Simulation.{
  Draws, move_vehicle, fly, stay_on_ground, recharge, hop_channel, jam, update_simulation,
}

-- The message starts with the green circle, U+1F7E2.
abbrev pub is_go : Bytes → Bool
is_go [] = false
is_go (c ∷ s) = c == 0x1f7e2

module _ {D : Type 0} (ops : DoubleOps D) where
  open ops use {lit, less}

  is_go-ready :
      (c : TelemetryController D)
      → ready_to_fly ops c
        ≡ (is_go (status_message ops c) && not (less_int (pos 150) c.signal_jamming))
  unfolding ready_to_fly status_message
  is_go-ready c = ground arith

  -- The vehicle is ready exactly if the message is a go and the measured jamming is at most 150.
  -- The message does not look at the measurement: with any other one it is the same.
  pub ready_to_fly-is_go :
      (c : TelemetryController D) (measured : ℤ)
      → (ready_to_fly ops c
          ≡ (is_go (status_message ops c) && not (less_int (pos 150) c.signal_jamming)))
        × (status_message ops (record c { signal_jamming = measured }) ≡ status_message ops c)
  unfolding status_message
  ready_to_fly-is_go c measured = (is_go-ready c, refl)

  not_ready :
      (c : TelemetryController D)
      → less_int (pos 150) c.signal_jamming ≡ true
      → ready_to_fly ops c ≡ false
  unfolding ready_to_fly
  not_ready c h = ground arith

  move_vehicle-simulated_jamming :
      (step : D) (c : TelemetryController D)
      → (move_vehicle ops step c).simulated_jamming ≡ c.simulated_jamming
  unfolding move_vehicle fly stay_on_ground recharge
  move_vehicle-simulated_jamming step c = ground arith

  hop_channel-simulated_jamming :
      (d : Draws) (c : TelemetryController D)
      → (hop_channel ops d c).simulated_jamming ≡ c.simulated_jamming
  unfolding hop_channel
  hop_channel-simulated_jamming d c = ground arith

  jam_simulated :
      (d : Draws) (c : TelemetryController D)
      → c.simulated_jamming ≡ true
      → ((jam ops d c).signal_jamming ≡ pos d.jamming) × ((jam ops d c).simulated_jamming ≡ true)
  unfolding jam
  jam_simulated d c h = simp h (refl, refl)

  -- A tick while jamming is simulated.
  pub update_simulated :
      (d : Draws) (c : TelemetryController D)
      → c.simulated_jamming ≡ true
      → let c' = update_simulation ops d c in
        (c'.signal_jamming ≡ pos d.jamming) × (c'.simulated_jamming ≡ true)
  unfolding update_simulation
  update_simulated d c h =
      let step = ops.plus c.step (lit 1 1) in
      let moved = move_vehicle ops step (record c { step = step }) in
      jam_simulated d (hop_channel ops d moved) (
        hop_channel-simulated_jamming d moved
        ∙ move_vehicle-simulated_jamming step (record c { step = step })
        ∙ h)

  toggle_on :
      (c : TelemetryController D)
      → c.simulated_jamming ≡ false
      → (toggle_jamming_simulation ops c).simulated_jamming ≡ true
  unfolding toggle_jamming_simulation
  toggle_on c h = ground arith

  toggle-unarmed :
      (c : TelemetryController D)
      → c.armed ≡ false
      → (toggle_jamming_simulation ops c).armed ≡ false
  unfolding toggle_jamming_simulation
  toggle-unarmed c h = ground arith

  -- Turning the simulation off makes the message a go, unless the battery is low.
  toggle_off :
      (c : TelemetryController D)
      → c.simulated_jamming ≡ true
      → c.armed ≡ false
      → less c.battery_remaining (lit 20 2) ≡ false
      → let c' = toggle_jamming_simulation ops c in
        (status_message ops c' ≡ codes "🟢 READY TO FLY: SYSTEM HEALTH VERIFIED")
        × (c'.signal_jamming ≡ c.signal_jamming)
  unfolding toggle_jamming_simulation status_message
  toggle_off c h a b = ground arith

  -- After jamming was simulated for a tick and turned off again, the operator of a vehicle that is
  -- not armed is told that it is ready to fly (unless the battery is low) while it is not, since
  -- the measured jamming is stale, and a call to arm it does nothing.
  pub stale_after_jamming :
      (d : Draws) (c : TelemetryController D)
      → c.simulated_jamming ≡ false
      → c.armed ≡ false
      → 150 < d.jamming
      → let jammed = update_simulation ops d (toggle_jamming_simulation ops c) in
        less jammed.battery_remaining (lit 20 2) ≡ false
        → let c' =
            toggle_jamming_simulation ops
              (update_simulation ops d (toggle_jamming_simulation ops c)) in
          (status_message ops c' ≡ codes "🟢 READY TO FLY: SYSTEM HEALTH VERIFIED")
          × (ready_to_fly ops c' ≡ false)
          × (arm_vehicle ops c' ≡ c')
  unfolding arm_vehicle
  stale_after_jamming d c h unarmed j b =
      let toggled = toggle_jamming_simulation ops c in
      let jammed = update_simulation ops d toggled in
      let (measured, simulated) = update_simulated d toggled (toggle_on c h) in
      let (go, same) =
        toggle_off jammed simulated
          (update_simulation-armed ops d toggled ∙ toggle-unarmed c unarmed) b in
      let unready =
        not_ready (toggle_jamming_simulation ops jammed)
          (ap (less_int (pos 150)) (same ∙ measured) ∙ ground arith) in
      (go, unready, rw unready refl)
