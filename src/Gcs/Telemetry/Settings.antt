-- ===== src/Gcs/Telemetry/Settings.antt =====
-- The setters of `TelemetryController.cpp`, and what the user interface can rely on when a property
-- is set: each `Q_PROPERTY` of the header with its getter and its `NOTIFY` signal.
use uaop.Base.{Bool, true, false, not, if◌then◌else◌}
use uaop.Base.Int.{ℤ, equal_int}
use uaop.Base.Text.{Bytes, equal}
use uaop.Gcs.Telemetry.{
  DoubleOps, TelemetryController, telemetry_changed, security_changed, rf_health_changed,
  diagnostics_changed, emit,
}

-- `==` on `bool`.
abbrev pub same_bool : Bool → Bool → Bool
same_bool true b = b
same_bool false b = not b

module _ {D : Type 0} (ops : DoubleOps D) where
  open ops use {q_fuzzy_compare}

  unfoldable pub set_latitude : D → TelemetryController D → TelemetryController D
  set_latitude val c =
      if q_fuzzy_compare c.latitude val
      then c
      else emit telemetry_changed (record c { latitude = val })

  unfoldable pub set_longitude : D → TelemetryController D → TelemetryController D
  set_longitude val c =
      if q_fuzzy_compare c.longitude val
      then c
      else emit telemetry_changed (record c { longitude = val })

  unfoldable pub set_altitude_wgs84 : D → TelemetryController D → TelemetryController D
  set_altitude_wgs84 val c =
      if q_fuzzy_compare c.altitude_wgs84 val
      then c
      else emit telemetry_changed (record c { altitude_wgs84 = val })

  unfoldable pub set_altitude_agl : D → TelemetryController D → TelemetryController D
  set_altitude_agl val c =
      if q_fuzzy_compare c.altitude_agl val
      then c
      else emit telemetry_changed (record c { altitude_agl = val })

  unfoldable pub set_ground_speed : D → TelemetryController D → TelemetryController D
  set_ground_speed val c =
      if q_fuzzy_compare c.ground_speed val
      then c
      else emit telemetry_changed (record c { ground_speed = val })

  unfoldable pub set_roll : D → TelemetryController D → TelemetryController D
  set_roll val c =
      if q_fuzzy_compare c.roll val then c else emit telemetry_changed (record c { roll = val })

  unfoldable pub set_pitch : D → TelemetryController D → TelemetryController D
  set_pitch val c =
      if q_fuzzy_compare c.pitch val then c else emit telemetry_changed (record c { pitch = val })

  unfoldable pub set_yaw : D → TelemetryController D → TelemetryController D
  set_yaw val c =
      if q_fuzzy_compare c.yaw val then c else emit telemetry_changed (record c { yaw = val })

  unfoldable pub set_battery_voltage : D → TelemetryController D → TelemetryController D
  set_battery_voltage val c =
      if q_fuzzy_compare c.battery_voltage val
      then c
      else emit telemetry_changed (record c { battery_voltage = val })

  unfoldable pub set_battery_remaining : D → TelemetryController D → TelemetryController D
  set_battery_remaining val c =
      if q_fuzzy_compare c.battery_remaining val
      then c
      else emit telemetry_changed (record c { battery_remaining = val })

  unfoldable pub set_satellites : ℤ → TelemetryController D → TelemetryController D
  set_satellites val c =
      if equal_int c.satellites val
      then c
      else emit telemetry_changed (record c { satellites = val })

  unfoldable pub set_e2ee_enabled : Bool → TelemetryController D → TelemetryController D
  set_e2ee_enabled val c =
      if same_bool c.e2ee_enabled val
      then c
      else emit diagnostics_changed (emit security_changed (record c { e2ee_enabled = val }))

  unfoldable pub set_fhss_sync_active : Bool → TelemetryController D → TelemetryController D
  set_fhss_sync_active val c =
      if same_bool c.fhss_sync_active val
      then c
      else emit diagnostics_changed (emit security_changed (record c { fhss_sync_active = val }))

  unfoldable pub set_fhss_channel : ℤ → TelemetryController D → TelemetryController D
  set_fhss_channel val c =
      if equal_int c.fhss_channel val
      then c
      else emit security_changed (record c { fhss_channel = val })

  unfoldable pub set_signal_jamming : ℤ → TelemetryController D → TelemetryController D
  set_signal_jamming val c =
      if equal_int c.signal_jamming val
      then c
      else emit diagnostics_changed (emit rf_health_changed (record c { signal_jamming = val }))

  unfoldable pub set_spoofing_state : Bytes → TelemetryController D → TelemetryController D
  set_spoofing_state val c =
      if equal c.spoofing_state val
      then c
      else emit diagnostics_changed (emit rf_health_changed (record c { spoofing_state = val }))

  unfoldable pub set_cpu_load : D → TelemetryController D → TelemetryController D
  set_cpu_load val c =
      if q_fuzzy_compare c.cpu_load val
      then c
      else emit diagnostics_changed (record c { cpu_load = val })
