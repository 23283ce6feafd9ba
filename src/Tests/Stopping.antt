-- ===== src/Tests/Stopping.antt =====
-- Instances for the modules about src/shutdown. Doubles are numbers, with no NaN.
use airies_ups_c.Shutdown.Trigger.Debounce
use airies_ups_c.Base.{
  length, ℕ, ◌≡◌, refl, true, not, ◌&&◌, none, List, [], ◌∷◌, arith, if◌then◌else◌,
}
use airies_ups_c.Base.Bits.{has}
use airies_ups_c.Base.Int.{◌+ℤ◌, ◌-ℤ◌, ltb_ℤ, ℤ, pos}
use airies_ups_c.Base.Double.{Double}
use airies_ups_c.Ups.Data.{UpsData}
use airies_ups_c.Ups.Flags.{ups_st_on_battery}
use airies_ups_c.Shutdown.Trigger.{
  condition_met, shutdown_check_trigger, TriggerConfig, StartAnswer, workflow_started,
  workflow_runs,
}
use airies_ups_c.Shutdown.Trigger.Debounce.{calls, firing, since, held, time_of, run_debounced}

abbrev pub whole : Double
whole = record {
  Real = ℤ;
  lt_real = ltb_ℤ;
  le_real = λ a b. not (ltb_ℤ b a);
  eq_real = λ a b. not (ltb_ℤ a b) && not (ltb_ℤ b a);
  add_real = ◌+ℤ◌;
  sub_real = ◌-ℤ◌;
  of_int = λ z. z;
  nan = pos 0;
}

-- On battery, with the given runtime.
abbrev pub on_battery : ℕ → UpsData ℤ
on_battery runtime = record {
  status = ups_st_on_battery;
  transfer_reason = 0;
  sig_status = 0;
  general_error = 0;
  power_system_error = 0;
  bat_system_error = 0;
  bat_test_status = 0;
  bat_lifetime_status = 0;
  runtime_sec = runtime;
  charge_pct = pos 40;
  battery_voltage = pos 24;
  load_pct = pos 30;
  output_current = pos 2;
  output_voltage = pos 120;
  output_frequency = pos 60;
  bypass_voltage = pos 0;
  bypass_frequency = pos 0;
  input_voltage = pos 0;
  efficiency = pos 0;
  efficiency_reason = 4;
}

abbrev defaults : TriggerConfig
defaults = record {
  trigger = none;
  trigger_delay_sec = pos 30;
  trigger_on_battery = pos 1;
  trigger_source = none;
  trigger_runtime_sec = pos 300;
  trigger_battery_pct = pos 0;
  trigger_field = none;
  trigger_field_op = none;
  trigger_field_value = pos 0;
}

-- The runtime falls below the threshold at 100 and stays there; the latest poll comes first.
abbrev outage : List (ℕ × UpsData ℤ × StartAnswer)
outage =
    (130, on_battery 260, workflow_runs)
    ∷ (110, on_battery 280, workflow_started)
    ∷ (100, on_battery 290, workflow_started)
    ∷ (90, on_battery 400, workflow_started)
    ∷ []

outage_fires : (Debounce.run whole defaults outage).triggered ≡ true
unfolding Debounce.run shutdown_check_trigger condition_met has ◌-ℤ◌
outage_fires = refl

run_debounced_example :
    ((Debounce.run whole defaults outage).triggered ≡ held whole defaults outage)
    × (calls whole defaults outage ≡ firing whole defaults outage)
    × (length (calls whole defaults outage) ≡ (if held whole defaults outage then 1 else 0))
    × ((if held whole defaults outage
          then 0
          else (Debounce.run whole defaults outage).trigger_first_met)
        ≡ (if held whole defaults outage
            then 0
            else time_of whole defaults (since whole defaults outage)))
run_debounced_example = run_debounced whole defaults outage (omega arith)
