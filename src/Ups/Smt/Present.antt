-- ===== src/Ups/Smt/Present.antt =====
-- Which register descriptors are kept on a device of the SMT line (src/ups/ups_smt.c).
use airies_ups_c.Base.{ℕ, ◌≡◌, refl, Bool, true, false, Option, List, [], ◌∷◌, if◌then◌else◌}
use airies_ups_c.Base.Bits.{has}
use airies_ups_c.Ups.Smt.{
  SmtReg, kept, sog_bits, smt_resolve_config_regs, cfg_transfer_high, cfg_transfer_low,
  cfg_bat_test_interval, cfg_sensitivity, cfg_output_voltage_setting, cfg_manufacture_date,
  cfg_battery_date, cfg_mog_turn_off_delay, cfg_mog_turn_on_delay, cfg_mog_min_return_runtime,
  cfg_mog_loadshed_config, cfg_mog_loadshed_runtime, cfg_mog_loadshed_time_on_bat,
  cfg_sog0_turn_off_delay, cfg_sog0_turn_on_delay, cfg_sog0_min_return_runtime,
  cfg_sog0_loadshed_config, cfg_sog0_loadshed_runtime, cfg_sog0_loadshed_time_on_bat,
  cfg_sog1_turn_off_delay, cfg_sog1_turn_on_delay, cfg_sog1_min_return_runtime,
  cfg_sog1_loadshed_config, cfg_sog1_loadshed_runtime, cfg_sog1_loadshed_time_on_bat,
  cfg_sog2_turn_off_delay, cfg_sog2_turn_on_delay, cfg_sog2_min_return_runtime,
  cfg_sog2_loadshed_config, cfg_sog2_loadshed_runtime, cfg_sog2_loadshed_time_on_bat,
  cfg_ups_status, cfg_transfer_reason, cfg_mog_status, cfg_sog0_status, cfg_sog1_status,
  cfg_sog2_status, cfg_signaling_status, cfg_general_error, cfg_power_system_error,
  cfg_battery_system_error, cfg_replace_battery_test_status, cfg_runtime_calibration_status,
  cfg_battery_lifetime_status, cfg_ui_status, cfg_battery_runtime, cfg_battery_charge_pct,
  cfg_battery_voltage_pos, cfg_battery_voltage_neg, cfg_battery_internal_date,
  cfg_battery_temperature, cfg_output_load_pct, cfg_output_apparent_power_pct, cfg_output_current,
  cfg_output_voltage, cfg_output_frequency, cfg_output_energy, cfg_bypass_input_status,
  cfg_bypass_voltage, cfg_bypass_frequency, cfg_input_status, cfg_input_voltage, cfg_efficiency,
  cfg_mog_off_countdown, cfg_mog_on_countdown, cfg_mog_stayoff_countdown, cfg_sog0_off_countdown,
  cfg_sog0_on_countdown, cfg_sog0_stayoff_countdown, cfg_sog1_off_countdown, cfg_sog1_on_countdown,
  cfg_sog1_stayoff_countdown, cfg_sog2_off_countdown, cfg_sog2_on_countdown,
  cfg_sog2_stayoff_countdown, cfg_firmware_version, cfg_model_name, cfg_sku, cfg_serial_number,
  cfg_battery_sku, cfg_nominal_apparent_power, cfg_nominal_real_power, cfg_sog_relay_config,
  cfg_ups_name, cfg_mog_name, cfg_sog0_name, cfg_sog1_name, cfg_sog2_name,
}

-- All the indices, in the order of the array.
abbrev pub all_regs : List SmtReg
all_regs =
    cfg_transfer_high ∷ cfg_transfer_low ∷ cfg_bat_test_interval ∷ cfg_sensitivity
    ∷ cfg_output_voltage_setting ∷ cfg_manufacture_date ∷ cfg_battery_date ∷ cfg_mog_turn_off_delay
    ∷ cfg_mog_turn_on_delay ∷ cfg_mog_min_return_runtime ∷ cfg_mog_loadshed_config
    ∷ cfg_mog_loadshed_runtime ∷ cfg_mog_loadshed_time_on_bat ∷ cfg_sog0_turn_off_delay
    ∷ cfg_sog0_turn_on_delay ∷ cfg_sog0_min_return_runtime ∷ cfg_sog0_loadshed_config
    ∷ cfg_sog0_loadshed_runtime ∷ cfg_sog0_loadshed_time_on_bat ∷ cfg_sog1_turn_off_delay
    ∷ cfg_sog1_turn_on_delay ∷ cfg_sog1_min_return_runtime ∷ cfg_sog1_loadshed_config
    ∷ cfg_sog1_loadshed_runtime ∷ cfg_sog1_loadshed_time_on_bat ∷ cfg_sog2_turn_off_delay
    ∷ cfg_sog2_turn_on_delay ∷ cfg_sog2_min_return_runtime ∷ cfg_sog2_loadshed_config
    ∷ cfg_sog2_loadshed_runtime ∷ cfg_sog2_loadshed_time_on_bat ∷ cfg_ups_status
    ∷ cfg_transfer_reason ∷ cfg_mog_status ∷ cfg_sog0_status ∷ cfg_sog1_status ∷ cfg_sog2_status
    ∷ cfg_signaling_status ∷ cfg_general_error ∷ cfg_power_system_error ∷ cfg_battery_system_error
    ∷ cfg_replace_battery_test_status ∷ cfg_runtime_calibration_status ∷ cfg_battery_lifetime_status
    ∷ cfg_ui_status ∷ cfg_battery_runtime ∷ cfg_battery_charge_pct ∷ cfg_battery_voltage_pos
    ∷ cfg_battery_voltage_neg ∷ cfg_battery_internal_date ∷ cfg_battery_temperature
    ∷ cfg_output_load_pct ∷ cfg_output_apparent_power_pct ∷ cfg_output_current ∷ cfg_output_voltage
    ∷ cfg_output_frequency ∷ cfg_output_energy ∷ cfg_bypass_input_status ∷ cfg_bypass_voltage
    ∷ cfg_bypass_frequency ∷ cfg_input_status ∷ cfg_input_voltage ∷ cfg_efficiency
    ∷ cfg_mog_off_countdown ∷ cfg_mog_on_countdown ∷ cfg_mog_stayoff_countdown
    ∷ cfg_sog0_off_countdown ∷ cfg_sog0_on_countdown ∷ cfg_sog0_stayoff_countdown
    ∷ cfg_sog1_off_countdown ∷ cfg_sog1_on_countdown ∷ cfg_sog1_stayoff_countdown
    ∷ cfg_sog2_off_countdown ∷ cfg_sog2_on_countdown ∷ cfg_sog2_stayoff_countdown
    ∷ cfg_firmware_version ∷ cfg_model_name ∷ cfg_sku ∷ cfg_serial_number ∷ cfg_battery_sku
    ∷ cfg_nominal_apparent_power ∷ cfg_nominal_real_power ∷ cfg_sog_relay_config ∷ cfg_ups_name
    ∷ cfg_mog_name ∷ cfg_sog0_name ∷ cfg_sog1_name ∷ cfg_sog2_name ∷ []

-- Whether the group of outlets that a register belongs to is there; most belong to none.
abbrev pub is_present : Bool → Bool → Bool → SmtReg → Bool
is_present s0 s1 s2 cfg_sog0_turn_off_delay = s0
is_present s0 s1 s2 cfg_sog0_turn_on_delay = s0
is_present s0 s1 s2 cfg_sog0_min_return_runtime = s0
is_present s0 s1 s2 cfg_sog0_loadshed_config = s0
is_present s0 s1 s2 cfg_sog0_loadshed_runtime = s0
is_present s0 s1 s2 cfg_sog0_loadshed_time_on_bat = s0
is_present s0 s1 s2 cfg_sog1_turn_off_delay = s1
is_present s0 s1 s2 cfg_sog1_turn_on_delay = s1
is_present s0 s1 s2 cfg_sog1_min_return_runtime = s1
is_present s0 s1 s2 cfg_sog1_loadshed_config = s1
is_present s0 s1 s2 cfg_sog1_loadshed_runtime = s1
is_present s0 s1 s2 cfg_sog1_loadshed_time_on_bat = s1
is_present s0 s1 s2 cfg_sog2_turn_off_delay = s2
is_present s0 s1 s2 cfg_sog2_turn_on_delay = s2
is_present s0 s1 s2 cfg_sog2_min_return_runtime = s2
is_present s0 s1 s2 cfg_sog2_loadshed_config = s2
is_present s0 s1 s2 cfg_sog2_loadshed_runtime = s2
is_present s0 s1 s2 cfg_sog2_loadshed_time_on_bat = s2
is_present s0 s1 s2 cfg_sog0_status = s0
is_present s0 s1 s2 cfg_sog1_status = s1
is_present s0 s1 s2 cfg_sog2_status = s2
is_present s0 s1 s2 cfg_sog0_off_countdown = s0
is_present s0 s1 s2 cfg_sog0_on_countdown = s0
is_present s0 s1 s2 cfg_sog0_stayoff_countdown = s0
is_present s0 s1 s2 cfg_sog1_off_countdown = s1
is_present s0 s1 s2 cfg_sog1_on_countdown = s1
is_present s0 s1 s2 cfg_sog1_stayoff_countdown = s1
is_present s0 s1 s2 cfg_sog2_off_countdown = s2
is_present s0 s1 s2 cfg_sog2_on_countdown = s2
is_present s0 s1 s2 cfg_sog2_stayoff_countdown = s2
is_present s0 s1 s2 cfg_sog0_name = s0
is_present s0 s1 s2 cfg_sog1_name = s1
is_present s0 s1 s2 cfg_sog2_name = s2
is_present s0 s1 s2 _ = true

pub filter {ℓ} : {A : Type ℓ} → (A → Bool) → List A → List A
filter p [] = []
filter p (x ∷ xs) = let rest = filter p xs in if p x then x ∷ rest else rest

kept_present : (s0 s1 s2 : Bool) → kept s0 s1 s2 ≡ filter (is_present s0 s1 s2) all_regs
unfolding filter
kept_present true true true = refl
kept_present true true false = refl
kept_present true false true = refl
kept_present true false false = refl
kept_present false true true = refl
kept_present false true false = refl
kept_present false false true = refl
kept_present false false false = refl

-- Of all the descriptors, in the order of their array, those are kept whose group of switched outlets is
-- there by the bits of register 590, or that belong to none; all are kept if the register cannot be
-- read.
pub resolve_config_regs-present :
    (read : Option ℕ)
    → let bits = sog_bits read in
      smt_resolve_config_regs read
      ≡ filter (is_present (has bits 2) (has bits 4) (has bits 8)) all_regs
unfolding smt_resolve_config_regs
resolve_config_regs-present read =
    kept_present (has (sog_bits read) 2) (has (sog_bits read) 4) (has (sog_bits read) 8)
