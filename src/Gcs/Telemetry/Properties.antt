-- ===== src/Gcs/Telemetry/Properties.antt =====
-- What the user interface can rely on when it sets a property: the `Q_PROPERTY` lines of
-- TelemetryController.h, each with its getter, its setter and its `NOTIFY` signal.
use uaop.Base.{Bool, true}
use uaop.Base.Int.{ℤ, equal_int}
use uaop.Base.Text.{Bytes, equal}
use uaop.Gcs.Telemetry.{
  DoubleOps, TelemetryController, Signal, telemetry_changed, security_changed, rf_health_changed,
  diagnostics_changed,
}
use uaop.Gcs.Telemetry.Settings.{
  same_bool, set_latitude, set_longitude, set_altitude_wgs84, set_altitude_agl, set_satellites,
  set_ground_speed, set_roll, set_pitch, set_yaw, set_battery_voltage, set_battery_remaining,
  set_e2ee_enabled, set_fhss_sync_active, set_fhss_channel, set_signal_jamming, set_spoofing_state,
  set_cpu_load,
}

pub data Property : Type 0 where
  latitude : Property
  longitude : Property
  altitude_wgs84 : Property
  altitude_agl : Property
  satellites : Property
  ground_speed : Property
  roll : Property
  pitch : Property
  yaw : Property
  battery_voltage : Property
  battery_remaining : Property
  e2ee_enabled : Property
  fhss_sync_active : Property
  fhss_channel : Property
  signal_jamming : Property
  spoofing_state : Property
  cpu_load : Property

pub data Value (D : Type 0) : Type 0 where
  double : D → Value D
  int : ℤ → Value D
  bool : Bool → Value D
  text : Bytes → Value D

-- `NOTIFY`.
abbrev pub notify : Property → Signal
notify latitude = telemetry_changed
notify longitude = telemetry_changed
notify altitude_wgs84 = telemetry_changed
notify altitude_agl = telemetry_changed
notify satellites = telemetry_changed
notify ground_speed = telemetry_changed
notify roll = telemetry_changed
notify pitch = telemetry_changed
notify yaw = telemetry_changed
notify battery_voltage = telemetry_changed
notify battery_remaining = telemetry_changed
notify e2ee_enabled = security_changed
notify fhss_sync_active = security_changed
notify fhss_channel = security_changed
notify signal_jamming = rf_health_changed
notify spoofing_state = rf_health_changed
notify cpu_load = diagnostics_changed

-- `READ`.
abbrev pub read : {D : Type 0} → Property → TelemetryController D → Value D
read latitude c = double c.latitude
read longitude c = double c.longitude
read altitude_wgs84 c = double c.altitude_wgs84
read altitude_agl c = double c.altitude_agl
read satellites c = int c.satellites
read ground_speed c = double c.ground_speed
read roll c = double c.roll
read pitch c = double c.pitch
read yaw c = double c.yaw
read battery_voltage c = double c.battery_voltage
read battery_remaining c = double c.battery_remaining
read e2ee_enabled c = bool c.e2ee_enabled
read fhss_sync_active c = bool c.fhss_sync_active
read fhss_channel c = int c.fhss_channel
read signal_jamming c = int c.signal_jamming
read spoofing_state c = text c.spoofing_state
read cpu_load c = double c.cpu_load

-- The test by which a setter returns early; values of different types are never compared.
abbrev pub same_value : {D : Type 0} → DoubleOps D → Value D → Value D → Bool
same_value ops (double a) (double b) = ops.q_fuzzy_compare a b
same_value ops (int a) (int b) = equal_int a b
same_value ops (bool a) (bool b) = same_bool a b
same_value ops (text a) (text b) = equal a b
same_value ops _ _ = true

-- `WRITE`; a value of another type is not assigned.
unfoldable pub write :
    {D : Type 0} → DoubleOps D → Property → Value D → TelemetryController D → TelemetryController D
unfolding set_latitude set_longitude set_altitude_wgs84 set_altitude_agl set_satellites
    set_ground_speed set_roll set_pitch set_yaw set_battery_voltage set_battery_remaining
    set_e2ee_enabled set_fhss_sync_active set_fhss_channel set_signal_jamming set_spoofing_state
    set_cpu_load
write ops latitude (double v) c = set_latitude ops v c
write ops longitude (double v) c = set_longitude ops v c
write ops altitude_wgs84 (double v) c = set_altitude_wgs84 ops v c
write ops altitude_agl (double v) c = set_altitude_agl ops v c
write ops satellites (int v) c = set_satellites ops v c
write ops ground_speed (double v) c = set_ground_speed ops v c
write ops roll (double v) c = set_roll ops v c
write ops pitch (double v) c = set_pitch ops v c
write ops yaw (double v) c = set_yaw ops v c
write ops battery_voltage (double v) c = set_battery_voltage ops v c
write ops battery_remaining (double v) c = set_battery_remaining ops v c
write ops e2ee_enabled (bool v) c = set_e2ee_enabled ops v c
write ops fhss_sync_active (bool v) c = set_fhss_sync_active ops v c
write ops fhss_channel (int v) c = set_fhss_channel ops v c
write ops signal_jamming (int v) c = set_signal_jamming ops v c
write ops spoofing_state (text v) c = set_spoofing_state ops v c
write ops cpu_load (double v) c = set_cpu_load ops v c
write ops _ _ c = c
