-- ===== src/Weather.antt =====
-- The poll cycle of src/weather/weather.c and the register that it overrides. What the weather service
-- says is in Weather/Checks; the UPS layer's answers to a cycle are an argument.
pub mod Cycles
pub mod Checks
use airies_ups_c.Base.{
  ℕ, ◌%◌, Bool, true, false, not, ◌&&◌, Option, none, some, List, [], ◌∷◌, ◌++◌, String, ◌==◌,
  if◌then◌else◌, take,
}
use airies_ups_c.Base.Text.{bytes}
use airies_ups_c.Monitor.Events.{Event}
use text.Mathlib.Text.{◌==◌ as str_eq}

-- `sim_severe`: 0, 1 and -1.
pub data Simulation : Type 0 where
  not_simulated : Simulation
  inject : Simulation
  force_clear : Simulation

-- The fields of `weather_t` that a cycle reads or changes.
pub record Weather : Type 0 where
  pub severe_raw_value : ℕ
  pub normal_raw_value : ℕ
  pub saved_value : ℕ
  pub has_saved : Bool
  pub severe : Bool
  pub reasons : List ℕ
  pub sim_severe : Simulation
  pub sim_active : Bool
  pub sim_reasons : List ℕ

-- What the UPS layer answers in a cycle: whether the control register is found, and writable, and the
-- value that `ups_config_read` gives, if it gives one.
pub record Device : Type 0 where
  pub found : Bool
  pub writable : Bool
  pub current : Option ℕ

-- The monitor's inhibit: `he_inhibit` and `he_source`.
pub record Inhibit : Type 0 where
  pub active : Bool
  pub source : String

-- monitor_he_inhibit_set and monitor_he_inhibit_clear
abbrev pub inhibit_by : String → Inhibit
inhibit_by source = record { active = true; source = source }

abbrev pub not_inhibited : Inhibit
not_inhibited = record { active = false; source = "" }

-- The value handed to `ups_config_write`, if it is called.
pub write_param : Device → ℕ → List ℕ
write_param dev value = if not dev.found then [] else if not dev.writable then [] else value ∷ []

pub read_and_save_param : Device → Weather → Weather
read_and_save_param dev w = if not dev.found then w else elim dev.current [
  | none ↦ w
  | some current ↦ record w { saved_value = current % 65536; has_saved = true }
]

pub apply_severe : Device → Weather → Weather × List ℕ
unfolding read_and_save_param write_param
apply_severe dev w = (read_and_save_param dev w, write_param dev w.severe_raw_value)

pub apply_restore : Device → Weather → Weather × List ℕ
unfolding write_param
apply_restore dev w =
    if w.normal_raw_value == 65535
    then (if w.has_saved
        then (record w { has_saved = false }, write_param dev w.saved_value)
        else (w, []))
    else (record w { has_saved = false }, write_param dev w.normal_raw_value)

-- What a cycle finds: the UPS layer's answers, and the checks' result and reasons.
pub record Reading : Type 0 where
  pub dev : Device
  pub severe : Bool
  pub reasons : List ℕ

-- The simulation's override of the checks, and the state they leave.
pub take_reading : Reading → Weather → Weather
take_reading r w = elim w.sim_severe [
  | inject ↦ record w {
    severe = true;
    reasons = take 511 (bytes "[SIMULATED] " ++ w.sim_reasons);
    sim_severe = not_simulated;
    sim_active = true;
  }
  | force_clear ↦ record w {
    severe = false;
    reasons = [];
    sim_severe = not_simulated;
    sim_active = false;
  }
  | not_simulated ↦ record w {
    severe = r.severe;
    reasons = r.reasons;
    sim_active = if r.severe then w.sim_active else false;
  }
]

-- The values written in a cycle stand with the event that it fires.
pub record Cycled : Type 0 where
  pub weather : Weather
  pub inhibit : Inhibit
  pub writes : List ℕ
  pub events : List Event

abbrev pub weather_event : String → String → Event
weather_event severity title = record {
  severity = severity;
  category = "weather";
  title = title;
  reason_suffix = none;
}

-- The two branches of the parameter control that change something.
pub override : Device → Weather → Cycled
unfolding apply_severe
override dev w =
    let (w', writes) = apply_severe dev w in
    record {
      weather = w';
      inhibit = inhibit_by "weather";
      writes = writes;
      events = weather_event "warning" "Weather: Severe" ∷ [];
    }

pub restore : Device → Weather → Cycled
unfolding apply_restore
restore dev w =
    let (w', writes) = apply_restore dev w in
    record {
      weather = w';
      inhibit = not_inhibited;
      writes = writes;
      events = weather_event "info" "Weather: Clear" ∷ [];
    }

-- The parameter control, for the state that the reading leaves.
pub control : Device → Weather → Inhibit → Cycled
unfolding override restore
control dev w inhibit =
    if w.severe && not inhibit.active
    then override dev w
    else if not w.severe && inhibit.active && str_eq inhibit.source "weather"
    then restore dev w
    else record { weather = w; inhibit = inhibit; writes = []; events = [] }

-- A round of `weather_thread`.
pub cycle : Reading → Weather → Inhibit → Cycled
unfolding take_reading control
cycle r w inhibit = control r.dev (take_reading r w) inhibit

-- `reason` is NULL or a text.
pub weather_simulate_severe : Option (List ℕ) → Weather → Weather
weather_simulate_severe none w = record w {
  sim_reasons = bytes "Manual simulation";
  sim_severe = inject;
}
weather_simulate_severe (some reason) w = record w {
  sim_reasons = take 255 reason;
  sim_severe = inject;
}

pub weather_simulate_clear : Weather → Weather
weather_simulate_clear w = record w { sim_severe = force_clear }
