-- ===== src/Tests/Alerting.antt =====
-- Instances for the modules about src/alerts.
use airies_ups_c.Base.{false, map, ℕ, ◌≡◌, refl, true, [], ◌∷◌}
use airies_ups_c.Base.Bits.{has}
use airies_ups_c.Base.Int.{ℤ, pos}
use airies_ups_c.Ups.Format.{battery_error_flags}
use airies_ups_c.Alerts.{battery_on, AlertState, AlertConfig, AlertThresholds}
use airies_ups_c.Ups.Data.{UpsData}
use airies_ups_c.Alerts.Transitions.{rose_names}
use airies_ups_c.Tests.Stopping.{on_battery}

abbrev limits : AlertThresholds
limits = record { transfer_high = 130; transfer_low = 105 }

abbrev settings : AlertConfig
settings = record {
  load_high_pct = pos 80;
  battery_low_pct = pos 50;
  voltage_warn_offset = pos 5;
  voltage_deadband = pos 2;
}

-- An overloaded UPS whose battery is to be replaced, at the given input voltage.
abbrev faulty : ℕ → UpsData ℤ
faulty volts = record (on_battery 300) {
  status = 0x200002;
  bat_system_error = 0x4;
  input_voltage = pos volts;
}

-- The input and battery alerts are up.
abbrev alarmed : AlertState ℤ
alarmed = record {
  overload = false;
  fault = false;
  bat_replace = false;
  input_high = true;
  input_low = true;
  load_high = false;
  bat_low = true;
  prev_charge = pos 40;
  prev_general_error = 0;
  prev_power_error = 0;
  prev_battery_error = 0;
}

replaced : map battery_on (rose_names 0 4 battery_error_flags) ≡ battery_on "NeedsReplacement" ∷ []
unfolding rose_names has
replaced = refl
