-- ===== src/Gcs/Telemetry/Spoofing.antt =====
-- What the simulation makes of the radio link: the jamming and spoofing that it reports, and what
-- they mean for take-off.
use mathlib.Core.Path.{subst}
use uaop.Base.{
  ℕ, ◌<◌, ◌≤◌, ◌≡◌, ◌≢◌, refl, sym, ap, ◌⊎◌, inl, inr, false, List, [], ◌∷◌, arith, Bool-cases,
  ◌&&◌, ltb,
}
use uaop.Base.Int.{ℤ, pos}
use uaop.Base.Lists.{All}
use uaop.Base.Text.{Bytes, codes}
use uaop.Gcs.Telemetry.{
  DoubleOps, TelemetryController, new_controller, ready_to_fly, arm_vehicle, disarm_vehicle,
  toggle_jamming_simulation, abort_mission,
}
use uaop.Gcs.Telemetry.Flight.{Event, assign, arm, disarm, toggle, abort, timeout, handle, run}
use uaop.Gcs.Telemetry.Properties.{
  Property, Value, int, text, read, write, satellites, fhss_channel, signal_jamming, spoofing_state,
}
use uaop.Gcs.Telemetry.Simulation.{
  Draws, update_simulation, move_vehicle, fly, stay_on_ground, recharge, hop_channel, jam,
}
use uaop.Gcs.Telemetry.Written.{write-Written}

-- What `bounded` promises of its results.
pub record IsDrawn (d : Draws) : Type 0 where
  pub channel : (1 ≤ d.channel) × (d.channel < 50)
  pub jamming : (200 ≤ d.jamming) × (d.jamming < 255)
  pub satellites : d.satellites < 4
  pub noise : (10 ≤ d.noise) × (d.noise < 45)

-- The event draws within the bounds, and writes none of the four properties.
abbrev pub LeavesRadio : {D : Type 0} → Event D → Type 0
LeavesRadio (assign p v) =
    (p ≢ signal_jamming) × (p ≢ spoofing_state) × (p ≢ satellites) × (p ≢ fhss_channel)
LeavesRadio arm = Unit
LeavesRadio disarm = Unit
LeavesRadio toggle = Unit
LeavesRadio abort = Unit
LeavesRadio (timeout d) = IsDrawn d

abbrev pub IsWithin : ℕ → ℕ → ℤ → Type 0
IsWithin low high z = (n : ℕ) × (z ≡ pos n) × (low ≤ n) × (n ≤ high)

-- Spoofing is reported with strong jamming, and no spoofing with weak jamming.
abbrev IsReported : ℤ → Bytes → Type 0
IsReported jamming state =
    ((state ≡ codes "SPOOFING") × IsWithin 200 254 jamming)
    ⊎ ((state ≡ codes "NO_SPOOFING") × IsWithin 10 44 jamming)

abbrev Radio : Type 0
Radio = ℤ × Bytes × ℤ × ℤ

abbrev radio : {D : Type 0} → TelemetryController D → Radio
radio c = (c.signal_jamming, c.spoofing_state, c.satellites, c.fhss_channel)

abbrev IsRadio : Radio → Type 0
IsRadio (jamming, state, seen, channel) =
    IsReported jamming state × IsWithin 0 18 seen × IsWithin 1 49 channel

module _ {D : Type 0} (ops : DoubleOps D) where
  move_vehicle-radio :
      (step : D) (c : TelemetryController D) → radio (move_vehicle ops step c) ≡ radio c
  unfolding move_vehicle fly stay_on_ground recharge
  move_vehicle-radio step c = ground arith

  hop_channel-IsRadio :
      (d : Draws) (c : TelemetryController D)
      → IsDrawn d
      → IsRadio (radio c)
      → IsRadio (radio (hop_channel ops d c))
  unfolding hop_channel
  hop_channel-IsRadio d c drawn h = elim (Bool-cases (c.fhss_sync_active && ltb d.hop 3)) [
    | inl hops ↦
        simp hops (h.0, h.1, (d.channel, refl, drawn.channel.0, omega (arith, drawn.channel.1)))
    | inr stays ↦ simp stays h
  ]

  jam-IsRadio :
      (d : Draws) (c : TelemetryController D)
      → IsDrawn d
      → IsRadio (radio c)
      → IsRadio (radio (jam ops d c))
  unfolding jam
  jam-IsRadio d c drawn h = elim (Bool-cases c.simulated_jamming) [
    | inl jammed ↦ simp jammed (
      inl (refl, (d.jamming, refl, drawn.jamming.0, omega (arith, drawn.jamming.1))),
      (d.satellites, refl, omega arith, omega (arith, drawn.satellites)),
      h.2,
    )
    | inr clear ↦ simp clear (
      inr (refl, (d.noise, refl, drawn.noise.0, omega (arith, drawn.noise.1))),
      (18, refl, omega arith, omega arith),
      h.2,
    )
  ]

  update_simulation-IsRadio :
      (d : Draws) (c : TelemetryController D)
      → IsDrawn d
      → IsRadio (radio c)
      → IsRadio (radio (update_simulation ops d c))
  unfolding update_simulation
  update_simulation-IsRadio d c drawn h =
      let step = ops.plus c.step (ops.lit 1 1) in
      let moved = move_vehicle ops step (record c { step = step }) in
      jam-IsRadio d (hop_channel ops d moved) drawn (
        hop_channel-IsRadio d moved drawn
          (subst IsRadio (sym (move_vehicle-radio step (record c { step = step }))) h))

  write-kept :
      (p q : Property) (v : Value D) (c : TelemetryController D)
      → p ≢ q
      → read q (write ops p v c) ≡ read q c
  write-kept p q v c other = elim (write-Written ops p v c) [
    | inl (same, _) ↦ ap (λ r. read q r) same
    | inr w ↦ elim (w.unchanged q) [ inl here ↦ absurd (other here) | inr kept ↦ kept ]
  ]

  write-radio :
      (p : Property) (v : Value D) (c : TelemetryController D)
      → LeavesRadio (assign p v)
      → radio (write ops p v c) ≡ radio c
  write-radio p v c other =
      let jamming : Path (Value D) (int (write ops p v c).signal_jamming) (int c.signal_jamming) =
        write-kept p signal_jamming v c other.0 in
      let state : Path (Value D) (text (write ops p v c).spoofing_state) (text c.spoofing_state) =
        write-kept p spoofing_state v c other.1 in
      let seen : Path (Value D) (int (write ops p v c).satellites) (int c.satellites) =
        write-kept p satellites v c other.2 in
      let channel : Path (Value D) (int (write ops p v c).fhss_channel) (int c.fhss_channel) =
        write-kept p fhss_channel v c other.3 in
      cc

  arm-radio : (c : TelemetryController D) → radio (arm_vehicle ops c) ≡ radio c
  unfolding arm_vehicle
  arm-radio c = ground arith

  toggle-IsRadio :
      (c : TelemetryController D)
      → IsRadio (radio c)
      → IsRadio (radio (toggle_jamming_simulation ops c))
  unfolding toggle_jamming_simulation
  toggle-IsRadio c h = elim (Bool-cases c.simulated_jamming) [
    | inl off ↦ simp off (h.0, (18, refl, omega arith, omega arith), h.2)
    | inr on ↦ simp on h
  ]

  handle-IsRadio :
      (e : Event D) (c : TelemetryController D)
      → LeavesRadio e
      → IsRadio (radio c)
      → IsRadio (radio (handle ops e c))
  unfolding handle
  handle-IsRadio (assign p v) c leaves h = subst IsRadio (sym (write-radio p v c leaves)) h
  handle-IsRadio arm c leaves h = subst IsRadio (sym (arm-radio c)) h
  handle-IsRadio disarm c leaves h = unfold disarm_vehicle in h
  handle-IsRadio toggle c leaves h = toggle-IsRadio c h
  handle-IsRadio abort c leaves h = unfold abort_mission in h
  handle-IsRadio (timeout d) c leaves h = update_simulation-IsRadio d c leaves h

  run-IsRadio : (es : List (Event D)) → All LeavesRadio es → IsRadio (radio (run ops es))
  unfolding run
  run-IsRadio [] h =
      unfold new_controller in
      (
        inr (refl, (25, refl, omega arith, omega arith)),
        (18, refl, omega arith, omega arith),
        (12, refl, omega arith, omega arith),
      )
  run-IsRadio (e ∷ es) h = handle-IsRadio e (run ops es) h.0 (run-IsRadio es h.1)

  strong_jamming :
      (c : TelemetryController D) → IsWithin 200 254 c.signal_jamming → ready_to_fly ops c ≡ false
  unfolding ready_to_fly
  strong_jamming c (n, e, low, high) = simp e (ground arith)

  abbrev pub IsRadioReport : TelemetryController D → Type 0
  IsRadioReport c =
      (((c.spoofing_state ≡ codes "SPOOFING")
          × (ready_to_fly ops c ≡ false)
          × IsWithin 200 254 c.signal_jamming)
        ⊎ ((c.spoofing_state ≡ codes "NO_SPOOFING") × IsWithin 10 44 c.signal_jamming))
      × IsWithin 0 18 c.satellites
      × IsWithin 1 49 c.fhss_channel

  -- Whatever is called and written, as long as the properties of the radio link are not written
  -- and the draws are within the bounds asked for: a vehicle that reports spoofing is not ready to
  -- fly, its jamming is between 200 and 254 then and between 10 and 44 otherwise, it sees at most
  -- 18 satellites, and its channel is between 1 and 49.
  pub run-IsRadioReport : (es : List (Event D)) → All LeavesRadio es → IsRadioReport (run ops es)
  run-IsRadioReport es h =
      let (reported, seen, channel) = run-IsRadio es h in
      (
        elim reported [
          | inl (spoofed, strong) ↦ inl (spoofed, strong_jamming (run ops es) strong, strong)
          | inr clear ↦ inr clear
        ],
        seen,
        channel,
      )
