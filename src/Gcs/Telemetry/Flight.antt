-- ===== src/Gcs/Telemetry/Flight.antt =====
-- The life of the controller: writes and calls from the user interface, and the timer's ticks.
use uaop.Base.{
  ◌≡◌, refl, sym, ◌∙◌, ap, ◌⊎◌, inl, inr, Bool, true, false, List, [], ◌∷◌, ◌++◌, arith, Bool-cases,
}
use uaop.Base.Lists.{All}
use uaop.Gcs.Telemetry.{
  DoubleOps, TelemetryController, new_controller, ready_to_fly, arm_vehicle, disarm_vehicle,
  toggle_jamming_simulation, abort_mission,
}
use uaop.Gcs.Telemetry.Properties.{Property, Value, write}
use uaop.Gcs.Telemetry.Simulation.{
  Draws, update_simulation, move_vehicle, fly, stay_on_ground, recharge, hop_channel, jam,
}
use uaop.Gcs.Telemetry.Written.{write-Written}

pub data Event (D : Type 0) : Type 0 where
  assign : Property → Value D → Event D
  arm disarm toggle abort : Event D
  timeout : Draws → Event D

-- The event keeps an armed vehicle armed.
abbrev pub keeps_armed : {D : Type 0} → Event D → Bool
keeps_armed disarm = false
keeps_armed abort = false
keeps_armed (assign p v) = true
keeps_armed arm = true
keeps_armed toggle = true
keeps_armed (timeout d) = true

module _ {D : Type 0} (ops : DoubleOps D) where
  unfoldable pub handle : Event D → TelemetryController D → TelemetryController D
  handle (assign p v) c = write ops p v c
  handle arm c = arm_vehicle ops c
  handle disarm c = disarm_vehicle ops c
  handle toggle c = toggle_jamming_simulation ops c
  handle abort c = abort_mission ops c
  handle (timeout d) c = update_simulation ops d c

  -- The events, the newest first.
  unfoldable pub run : List (Event D) → TelemetryController D
  run [] = new_controller ops
  run (e ∷ es) = handle e (run es)

  write-armed :
      (p : Property) (v : Value D) (c : TelemetryController D) → (write ops p v c).armed ≡ c.armed
  write-armed p v c = elim (write-Written ops p v c) [
    | inl (same, _) ↦ ap (λ r. r.armed) same
    | inr w ↦ w.armed_kept
  ]

  move_vehicle-armed :
      (step : D) (c : TelemetryController D) → (move_vehicle ops step c).armed ≡ c.armed
  unfolding move_vehicle fly stay_on_ground recharge
  move_vehicle-armed step c = ground arith

  hop_channel-armed :
      (d : Draws) (c : TelemetryController D) → (hop_channel ops d c).armed ≡ c.armed
  unfolding hop_channel
  hop_channel-armed d c = ground arith

  jam-armed : (d : Draws) (c : TelemetryController D) → (jam ops d c).armed ≡ c.armed
  unfolding jam
  jam-armed d c = ground arith

  pub update_simulation-armed :
      (d : Draws) (c : TelemetryController D) → (update_simulation ops d c).armed ≡ c.armed
  unfolding update_simulation
  update_simulation-armed d c =
      let step = ops.plus c.step (ops.lit 1 1) in
      let moved = move_vehicle ops step (record c { step = step }) in
      jam-armed d (hop_channel ops d moved)
      ∙ hop_channel-armed d moved
      ∙ move_vehicle-armed step (record c { step = step })

  toggle-armed : (c : TelemetryController D) → (toggle_jamming_simulation ops c).armed ≡ c.armed
  unfolding toggle_jamming_simulation
  toggle-armed c = ground arith

  arm_refused : (c : TelemetryController D) → ready_to_fly ops c ≡ false → arm_vehicle ops c ≡ c
  unfolding arm_vehicle
  arm_refused c h = rw h refl

  -- Only a call to arm a vehicle that is ready arms it, and only these events keep it armed.
  handle-armed :
      (e : Event D) (c : TelemetryController D)
      → (handle e c).armed ≡ true
      → (keeps_armed e ≡ true) × ((c.armed ≡ true) ⊎ ((e ≡ arm) × (ready_to_fly ops c ≡ true)))
  unfolding handle
  handle-armed (assign p v) c h = (refl, inl (sym (write-armed p v c) ∙ h))
  handle-armed arm c h = (
    refl,
    elim (Bool-cases (ready_to_fly ops c)) [
      | inl ready ↦ inr (refl, ready)
      | inr not_ready ↦ inl (sym (ap (λ r. r.armed) (arm_refused c not_ready)) ∙ h)
    ],
  )
  handle-armed disarm c h = unfold disarm_vehicle in cc
  handle-armed toggle c h = (refl, inl (sym (toggle-armed c) ∙ h))
  handle-armed abort c h = unfold abort_mission in cc
  handle-armed (timeout d) c h = (refl, inl (sym (update_simulation-armed d c) ∙ h))

  -- An armed vehicle was armed by a call when it was ready, and nothing has disarmed it since.
  pub record Armed (es : List (Event D)) : Type 0 where
    pub later : List (Event D)
    pub before : List (Event D)
    pub history : es ≡ later ++ arm ∷ before
    pub was_ready : ready_to_fly ops (run before) ≡ true
    pub kept : All (λ e. keeps_armed e ≡ true) later

  Armed-cons :
      (e : Event D) (es : List (Event D)) → keeps_armed e ≡ true → Armed es → Armed (e ∷ es)
  Armed-cons e es k a = record {
    later = e ∷ a.later;
    before = a.before;
    history = ap (λ r. e ∷ r) a.history;
    was_ready = a.was_ready;
    kept = (k, a.kept);
  }

  -- Whatever the user interface writes and calls and whatever is drawn, if the vehicle is armed
  -- then at some time it was ready and a call armed it, and no call has disarmed it or aborted the
  -- mission since.
  pub run-Armed : (es : List (Event D)) → (run es).armed ≡ true → Armed es
  unfolding run
  run-Armed [] h = unfold new_controller in cc
  run-Armed (e ∷ es) h =
      let (k, how) = handle-armed e (run es) h in
      elim how [
        | inl was ↦ Armed-cons e es k (run-Armed es was)
        | inr (called, ready) ↦ record {
          later = [];
          before = es;
          history = ap (λ x. x ∷ es) called;
          was_ready = ready;
          kept = tt;
        }
      ]
