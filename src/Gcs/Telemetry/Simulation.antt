-- ===== src/Gcs/Telemetry/Simulation.antt =====
-- `updateSimulation`, which the timer calls every 100 ms.
use uaop.Base.{ℕ, false, ◌&&◌, ltb, if◌then◌else◌}
use uaop.Base.Int.{pos}
use uaop.Base.Text.{codes}
use uaop.Gcs.Telemetry.{
  DoubleOps, TelemetryController, telemetry_changed, security_changed, rf_health_changed,
  diagnostics_changed, emit,
}

-- What `bounded` returns at each of its calls.
pub record Draws : Type 0 where
  pub hop : ℕ
  pub channel : ℕ
  pub jamming : ℕ
  pub satellites : ℕ
  pub noise : ℕ

module _ {D : Type 0} (ops : DoubleOps D) where
  open ops use {lit, plus, less, subtract, times, sin, cos, fmod, q_max, q_min}

  abbrev pub voltage : D → D
  voltage remaining = plus (lit 140 1) (times remaining (lit 28 1))

  unfoldable pub fly : D → TelemetryController D → TelemetryController D
  fly step c =
      let agl = plus c.altitude_agl (times (subtract (lit 150 1) c.altitude_agl) (lit 5 2)) in
      let remaining = q_max (lit 0 1) (subtract c.battery_remaining (lit 2 4)) in
      record c {
        ground_speed = plus (lit 125 1) (times (sin (times step (lit 2 1))) (lit 20 1));
        altitude_agl = agl;
        altitude_wgs84 = plus (lit 2500 1) agl;
        latitude = plus c.latitude (times (cos (times step (lit 5 2))) (lit 2 5));
        longitude = plus c.longitude (times (sin (times step (lit 5 2))) (lit 2 5));
        roll = times (sin (times step (lit 5 1))) (lit 80 1);
        pitch = times (cos (times step (lit 5 1))) (lit 40 1);
        yaw = fmod (plus c.yaw (lit 5 1)) (lit 3600 1);
        battery_remaining = remaining;
        battery_voltage = voltage remaining;
      }

  unfoldable pub recharge : TelemetryController D → TelemetryController D
  recharge c =
      let remaining = q_min (lit 10 1) (plus c.battery_remaining (lit 1 3)) in
      if less c.battery_remaining (lit 10 1)
      then record c { battery_remaining = remaining; battery_voltage = voltage remaining }
      else c

  unfoldable pub stay_on_ground : D → TelemetryController D → TelemetryController D
  unfolding recharge
  stay_on_ground step c = recharge (record c {
    ground_speed = lit 0 1;
    altitude_agl = q_max (lit 0 1) (subtract c.altitude_agl (lit 10 1));
    altitude_wgs84 = lit 2500 1;
    roll = times (sin (times step (lit 1 1))) (lit 5 1);
    pitch = times (cos (times step (lit 1 1))) (lit 5 1);
  })

  unfoldable pub hop_channel : Draws → TelemetryController D → TelemetryController D
  hop_channel d c =
      if c.fhss_sync_active && ltb d.hop 3
      then emit security_changed (record c { fhss_channel = pos d.channel })
      else c

  unfoldable pub jam : Draws → TelemetryController D → TelemetryController D
  jam d c =
      if c.simulated_jamming
      then emit security_changed (
          emit rf_health_changed (record c {
            signal_jamming = pos d.jamming;
            spoofing_state = codes "SPOOFING";
            satellites = pos d.satellites;
            fhss_sync_active = false;
            e2ee_enabled = false;
          }))
      else record c {
        signal_jamming = pos d.noise;
        spoofing_state = codes "NO_SPOOFING";
        satellites = pos 18;
      }

  unfoldable pub move_vehicle : D → TelemetryController D → TelemetryController D
  move_vehicle step c = if c.armed then fly step c else stay_on_ground step c

  unfoldable pub update_simulation : Draws → TelemetryController D → TelemetryController D
  update_simulation d c =
      let step = plus c.step (lit 1 1) in
      let jammed = jam d (hop_channel d (move_vehicle step (record c { step = step }))) in
      emit diagnostics_changed (
        emit telemetry_changed (record jammed {
          cpu_load = plus (lit 120 1) (times (sin (times step (lit 1 1))) (lit 30 1));
        }))
