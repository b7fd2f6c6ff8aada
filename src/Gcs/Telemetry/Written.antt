-- ===== src/Gcs/Telemetry/Written.antt =====
-- What writing a property does: nothing, or it is assigned, its signal is emitted, and every other
-- property keeps its value.
use uaop.Base.{
  ℕ, Bool, true, false, ◌||◌, List, [], ◌∷◌, ◌++◌, ◌≡◌, refl, sym, ◌⊎◌, inl, inr, ◌==◌,
  if◌then◌else◌,
}
use uaop.Base.Lists.{All}
use uaop.Gcs.Telemetry.{
  DoubleOps, TelemetryController, Signal, telemetry_changed, security_changed, rf_health_changed,
  diagnostics_changed,
}
use uaop.Gcs.Telemetry.Properties.{
  Property, Value, double, int, bool, text, notify, read, same_value, write, latitude, longitude,
  altitude_wgs84, altitude_agl, satellites, ground_speed, roll, pitch, yaw, battery_voltage,
  battery_remaining, e2ee_enabled, fhss_sync_active, fhss_channel, signal_jamming, spoofing_state,
  cpu_load,
}

properties : List Property
properties =
    latitude ∷ longitude ∷ altitude_wgs84 ∷ altitude_agl ∷ satellites ∷ ground_speed ∷ roll ∷ pitch
    ∷ yaw ∷ battery_voltage ∷ battery_remaining ∷ e2ee_enabled ∷ fhss_sync_active ∷ fhss_channel
    ∷ signal_jamming ∷ spoofing_state ∷ cpu_load ∷ []

-- What holds for every listed property holds for each.
at_each : (P : Property → Type 0) → All P properties → (p : Property) → P p
unfolding properties
at_each P h latitude = h.0
at_each P h longitude = h.1.0
at_each P h altitude_wgs84 = h.1.1.0
at_each P h altitude_agl = h.1.1.1.0
at_each P h satellites = h.1.1.1.1.0
at_each P h ground_speed = h.1.1.1.1.1.0
at_each P h roll = h.1.1.1.1.1.1.0
at_each P h pitch = h.1.1.1.1.1.1.1.0
at_each P h yaw = h.1.1.1.1.1.1.1.1.0
at_each P h battery_voltage = h.1.1.1.1.1.1.1.1.1.0
at_each P h battery_remaining = h.1.1.1.1.1.1.1.1.1.1.0
at_each P h e2ee_enabled = h.1.1.1.1.1.1.1.1.1.1.1.0
at_each P h fhss_sync_active = h.1.1.1.1.1.1.1.1.1.1.1.1.0
at_each P h fhss_channel = h.1.1.1.1.1.1.1.1.1.1.1.1.1.0
at_each P h signal_jamming = h.1.1.1.1.1.1.1.1.1.1.1.1.1.1.0
at_each P h spoofing_state = h.1.1.1.1.1.1.1.1.1.1.1.1.1.1.1.0
at_each P h cpu_load = h.1.1.1.1.1.1.1.1.1.1.1.1.1.1.1.1.0

-- One of the signals is this one.
abbrev signal_code : Signal → ℕ
signal_code telemetry_changed = 0
signal_code security_changed = 1
signal_code rf_health_changed = 2
signal_code diagnostics_changed = 3

abbrev pub holds : Signal → List Signal → Bool
holds s [] = false
holds s (t ∷ ts) = signal_code s == signal_code t || holds s ts

module _ {D : Type 0} where
  pub record Written (p : Property) (v : Value D) (c c' : TelemetryController D) : Type 0 where
    pub assigned : read p c' ≡ v
    pub signals : List Signal
    pub sent : c'.emitted ≡ signals ++ c.emitted
    pub notified : holds (notify p) signals ≡ true
    pub unchanged : (q : Property) → (p ≡ q) ⊎ (read q c' ≡ read q c)
    pub armed_kept : c'.armed ≡ c.armed
    pub jamming_kept : c'.simulated_jamming ≡ c.simulated_jamming

  abbrev pub Outcome :
      DoubleOps D → Property → Value D → TelemetryController D → TelemetryController D → Type 0
  Outcome ops p v c r = ((r ≡ c) × (same_value ops (read p c) v ≡ true)) ⊎ Written p v c r

  -- A setter returns early, or changes the controller to `c'` and emits the signals.
  unless_same :
      (ops : DoubleOps D) (p : Property) (v : Value D) (same : Bool) (c c' : TelemetryController D)
      (signals : List Signal)
      → same ≡ same_value ops (read p c) v
      → read p c' ≡ v
      → c'.emitted ≡ signals ++ c.emitted
      → holds (notify p) signals ≡ true
      → All (λ q. (p ≡ q) ⊎ (read q c' ≡ read q c)) properties
      → c'.armed ≡ c.armed
      → c'.simulated_jamming ≡ c.simulated_jamming
      → Outcome ops p v c (if same then c else c')
  unless_same ops p v true c c' signals t a b d e f g = inl (refl, sym t)
  unless_same ops p v false c c' signals t a b d e f g = inr (record {
    assigned = a;
    signals = signals;
    sent = b;
    notified = d;
    unchanged = at_each (λ q. (p ≡ q) ⊎ (read q c' ≡ read q c)) e;
    armed_kept = f;
    jamming_kept = g;
  })

  -- Writing a property leaves the controller as it was if the value compares equal to the one there
  -- (or is of another type). Otherwise it assigns the value, emits the property's signal, and
  -- changes no other property, nor whether the vehicle is armed or jamming is simulated.
  pub write-Written :
      (ops : DoubleOps D) (p : Property) (v : Value D) (c : TelemetryController D)
      → Outcome ops p v c (write ops p v c)
  unfolding write properties
  write-Written ops latitude (double v) c =
      unless_same ops latitude (double v) _ c
        (record c { latitude = v; emitted = telemetry_changed ∷ c.emitted })
        (telemetry_changed ∷ []) refl refl refl refl (search (inl, inr)) refl refl
  write-Written ops longitude (double v) c =
      unless_same ops longitude (double v) _ c
        (record c { longitude = v; emitted = telemetry_changed ∷ c.emitted })
        (telemetry_changed ∷ []) refl refl refl refl (search (inl, inr)) refl refl
  write-Written ops altitude_wgs84 (double v) c =
      unless_same ops altitude_wgs84 (double v) _ c
        (record c { altitude_wgs84 = v; emitted = telemetry_changed ∷ c.emitted })
        (telemetry_changed ∷ []) refl refl refl refl (search (inl, inr)) refl refl
  write-Written ops altitude_agl (double v) c =
      unless_same ops altitude_agl (double v) _ c
        (record c { altitude_agl = v; emitted = telemetry_changed ∷ c.emitted })
        (telemetry_changed ∷ []) refl refl refl refl (search (inl, inr)) refl refl
  write-Written ops satellites (int v) c =
      unless_same ops satellites (int v) _ c
        (record c { satellites = v; emitted = telemetry_changed ∷ c.emitted })
        (telemetry_changed ∷ []) refl refl refl refl (search (inl, inr)) refl refl
  write-Written ops ground_speed (double v) c =
      unless_same ops ground_speed (double v) _ c
        (record c { ground_speed = v; emitted = telemetry_changed ∷ c.emitted })
        (telemetry_changed ∷ []) refl refl refl refl (search (inl, inr)) refl refl
  write-Written ops roll (double v) c =
      unless_same ops roll (double v) _ c
        (record c { roll = v; emitted = telemetry_changed ∷ c.emitted }) (telemetry_changed ∷ [])
        refl refl refl refl (search (inl, inr)) refl refl
  write-Written ops pitch (double v) c =
      unless_same ops pitch (double v) _ c
        (record c { pitch = v; emitted = telemetry_changed ∷ c.emitted }) (telemetry_changed ∷ [])
        refl refl refl refl (search (inl, inr)) refl refl
  write-Written ops yaw (double v) c =
      unless_same ops yaw (double v) _ c
        (record c { yaw = v; emitted = telemetry_changed ∷ c.emitted }) (telemetry_changed ∷ [])
        refl refl refl refl (search (inl, inr)) refl refl
  write-Written ops battery_voltage (double v) c =
      unless_same ops battery_voltage (double v) _ c
        (record c { battery_voltage = v; emitted = telemetry_changed ∷ c.emitted })
        (telemetry_changed ∷ []) refl refl refl refl (search (inl, inr)) refl refl
  write-Written ops battery_remaining (double v) c =
      unless_same ops battery_remaining (double v) _ c
        (record c { battery_remaining = v; emitted = telemetry_changed ∷ c.emitted })
        (telemetry_changed ∷ []) refl refl refl refl (search (inl, inr)) refl refl
  write-Written ops e2ee_enabled (bool v) c =
      unless_same ops e2ee_enabled (bool v) _ c
        (record c {
          e2ee_enabled = v;
          emitted = diagnostics_changed ∷ security_changed ∷ c.emitted;
        })
        (diagnostics_changed ∷ security_changed ∷ []) refl refl refl refl (search (inl, inr)) refl
        refl
  write-Written ops fhss_sync_active (bool v) c =
      unless_same ops fhss_sync_active (bool v) _ c
        (record c {
          fhss_sync_active = v;
          emitted = diagnostics_changed ∷ security_changed ∷ c.emitted;
        })
        (diagnostics_changed ∷ security_changed ∷ []) refl refl refl refl (search (inl, inr)) refl
        refl
  write-Written ops fhss_channel (int v) c =
      unless_same ops fhss_channel (int v) _ c
        (record c { fhss_channel = v; emitted = security_changed ∷ c.emitted })
        (security_changed ∷ []) refl refl refl refl (search (inl, inr)) refl refl
  write-Written ops signal_jamming (int v) c =
      unless_same ops signal_jamming (int v) _ c
        (record c {
          signal_jamming = v;
          emitted = diagnostics_changed ∷ rf_health_changed ∷ c.emitted;
        })
        (diagnostics_changed ∷ rf_health_changed ∷ []) refl refl refl refl (search (inl, inr)) refl
        refl
  write-Written ops spoofing_state (text v) c =
      unless_same ops spoofing_state (text v) _ c
        (record c {
          spoofing_state = v;
          emitted = diagnostics_changed ∷ rf_health_changed ∷ c.emitted;
        })
        (diagnostics_changed ∷ rf_health_changed ∷ []) refl refl refl refl (search (inl, inr)) refl
        refl
  write-Written ops cpu_load (double v) c =
      unless_same ops cpu_load (double v) _ c
        (record c { cpu_load = v; emitted = diagnostics_changed ∷ c.emitted })
        (diagnostics_changed ∷ []) refl refl refl refl (search (inl, inr)) refl refl
  write-Written ops _ _ c = inl (refl, refl)
