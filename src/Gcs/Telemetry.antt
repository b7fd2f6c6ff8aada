-- ===== src/Gcs/Telemetry.antt =====
-- TelemetryController.h and TelemetryController.cpp: the simulated vehicle, its setters, and the
-- calls of the user interface. `double` is a type `D` with the operations that the code uses; the
-- draws of `QRandomGenerator` are arguments. A `QString` is the list of its Unicode characters.
pub mod Simulation
pub mod Settings
pub mod Properties
pub mod Written
pub mod Status
pub mod Spoofing
pub mod Flight
pub mod Battery
mod Tests
use uaop.Base.{ℕ, Bool, true, false, not, ◌||◌, List, [], ◌∷◌, ◌==◌, if◌then◌else◌}
use uaop.Base.Int.{ℤ, pos, less_int, equal_int}
use uaop.Base.Text.{Bytes, codes, equal}

-- The operations on `double`; `lit n k` is the literal n / 10^k.
pub record DoubleOps (D : Type 0) : Type 0 where
  pub lit : ℕ → ℕ → D
  pub plus : D → D → D
  pub less : D → D → Bool
  pub subtract : D → D → D
  pub times : D → D → D
  pub sin : D → D
  pub cos : D → D
  pub fmod : D → D → D
  pub q_max : D → D → D
  pub q_min : D → D → D
  pub q_fuzzy_compare : D → D → Bool

pub data Signal : Type 0 where
  telemetry_changed security_changed rf_health_changed diagnostics_changed : Signal

-- The members, the local static `step` of `updateSimulation`, and the signals emitted, the newest
-- first.
pub record TelemetryController (D : Type 0) : Type 0 where
  pub latitude : D
  pub longitude : D
  pub altitude_wgs84 : D
  pub altitude_agl : D
  pub satellites : ℤ
  pub ground_speed : D
  pub roll : D
  pub pitch : D
  pub yaw : D
  pub battery_voltage : D
  pub battery_remaining : D
  pub e2ee_enabled : Bool
  pub fhss_sync_active : Bool
  pub fhss_channel : ℤ
  pub signal_jamming : ℤ
  pub spoofing_state : Bytes
  pub cpu_load : D
  pub armed : Bool
  pub simulated_jamming : Bool
  pub step : D
  pub emitted : List Signal

abbrev pub emit : {D : Type 0} → Signal → TelemetryController D → TelemetryController D
emit s c = record c { emitted = s ∷ c.emitted }

module _ {D : Type 0} (ops : DoubleOps D) where
  open ops use {lit, less, q_fuzzy_compare}

  unfoldable pub new_controller : TelemetryController D
  new_controller = record {
    latitude = lit 284595 4;
    longitude = lit 770266 4;
    altitude_wgs84 = lit 2500 1;
    altitude_agl = lit 0 1;
    satellites = pos 18;
    ground_speed = lit 0 1;
    roll = lit 0 1;
    pitch = lit 0 1;
    yaw = lit 0 1;
    battery_voltage = lit 168 1;
    battery_remaining = lit 10 1;
    e2ee_enabled = true;
    fhss_sync_active = true;
    fhss_channel = pos 12;
    signal_jamming = pos 25;
    spoofing_state = codes "NO_SPOOFING";
    cpu_load = lit 154 1;
    armed = false;
    simulated_jamming = false;
    step = lit 0 1;
    emitted = [];
  }

  unfoldable pub ready_to_fly : TelemetryController D → Bool
  ready_to_fly c =
      if c.simulated_jamming || less_int (pos 150) c.signal_jamming
      then false
      else if less c.battery_remaining (lit 20 2)
      then false
      else if not c.e2ee_enabled
      then false
      else if not c.fhss_sync_active
      then false
      else if less_int c.satellites (pos 6)
      then false
      else true

  unfoldable pub status_message : TelemetryController D → Bytes
  status_message c =
      if c.simulated_jamming
      then codes "🔴 NO-GO: ACTIVE RF JAMMING & GPS SPOOFING DETECTED"
      else if less c.battery_remaining (lit 20 2)
      then codes "🔴 NO-GO: BATTERY CAPACITY CRITICAL (< 20%)"
      else if not c.e2ee_enabled
      then codes "🔴 NO-GO: E2E LINK ENCRYPTION DISENGAGED"
      else if not c.fhss_sync_active
      then codes "🔴 NO-GO: FHSS HOPPING OUT OF SYNC"
      else if less_int c.satellites (pos 6)
      then codes "🔴 NO-GO: INSUFFICIENT GPS SATELLITES FOR LOCK"
      else if c.armed
      then codes "🟢 FLIGHT COMMAND ACTIVE: TARGET TRACKING ENGAGED"
      else codes "🟢 READY TO FLY: SYSTEM HEALTH VERIFIED"

  unfoldable pub arm_vehicle : TelemetryController D → TelemetryController D
  arm_vehicle c =
      if not (ready_to_fly c) then c else emit diagnostics_changed (record c { armed = true })

  unfoldable pub disarm_vehicle : TelemetryController D → TelemetryController D
  disarm_vehicle c = emit diagnostics_changed (record c { armed = false })

  -- What turning the simulation off recovers.
  abbrev recovered : TelemetryController D → TelemetryController D
  recovered c = record c { fhss_sync_active = true; e2ee_enabled = true; satellites = pos 18 }

  unfoldable pub toggle_jamming_simulation : TelemetryController D → TelemetryController D
  toggle_jamming_simulation c =
      let toggled = record c { simulated_jamming = not c.simulated_jamming } in
      emit diagnostics_changed
        (if not toggled.simulated_jamming then recovered toggled else toggled)

  unfoldable pub abort_mission : TelemetryController D → TelemetryController D
  abort_mission c =
      emit diagnostics_changed
        (record c { armed = false; altitude_agl = lit 0 1; ground_speed = lit 0 1 })
