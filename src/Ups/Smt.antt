-- ===== src/Ups/Smt.antt =====
-- The register descriptors of src/ups/ups_smt.c, and those that `smt_resolve_config_regs` keeps.
pub mod Present
pub mod Options
pub mod Table
pub mod Written
use airies_ups_c.Base.{ℕ, Bool, Option, none, some, List, [], ◌∷◌, if◌then◌else◌}
use airies_ups_c.Base.Bits.{has}

-- The indices of `smt_config_regs`.
pub data SmtReg : Type 0 where
  cfg_transfer_high : SmtReg
  cfg_transfer_low : SmtReg
  cfg_bat_test_interval : SmtReg
  cfg_sensitivity : SmtReg
  cfg_output_voltage_setting : SmtReg
  cfg_manufacture_date : SmtReg
  cfg_battery_date : SmtReg
  cfg_mog_turn_off_delay : SmtReg
  cfg_mog_turn_on_delay : SmtReg
  cfg_mog_min_return_runtime : SmtReg
  cfg_mog_loadshed_config : SmtReg
  cfg_mog_loadshed_runtime : SmtReg
  cfg_mog_loadshed_time_on_bat : SmtReg
  cfg_sog0_turn_off_delay : SmtReg
  cfg_sog0_turn_on_delay : SmtReg
  cfg_sog0_min_return_runtime : SmtReg
  cfg_sog0_loadshed_config : SmtReg
  cfg_sog0_loadshed_runtime : SmtReg
  cfg_sog0_loadshed_time_on_bat : SmtReg
  cfg_sog1_turn_off_delay : SmtReg
  cfg_sog1_turn_on_delay : SmtReg
  cfg_sog1_min_return_runtime : SmtReg
  cfg_sog1_loadshed_config : SmtReg
  cfg_sog1_loadshed_runtime : SmtReg
  cfg_sog1_loadshed_time_on_bat : SmtReg
  cfg_sog2_turn_off_delay : SmtReg
  cfg_sog2_turn_on_delay : SmtReg
  cfg_sog2_min_return_runtime : SmtReg
  cfg_sog2_loadshed_config : SmtReg
  cfg_sog2_loadshed_runtime : SmtReg
  cfg_sog2_loadshed_time_on_bat : SmtReg
  cfg_ups_status : SmtReg
  cfg_transfer_reason : SmtReg
  cfg_mog_status : SmtReg
  cfg_sog0_status : SmtReg
  cfg_sog1_status : SmtReg
  cfg_sog2_status : SmtReg
  cfg_signaling_status : SmtReg
  cfg_general_error : SmtReg
  cfg_power_system_error : SmtReg
  cfg_battery_system_error : SmtReg
  cfg_replace_battery_test_status : SmtReg
  cfg_runtime_calibration_status : SmtReg
  cfg_battery_lifetime_status : SmtReg
  cfg_ui_status : SmtReg
  cfg_battery_runtime : SmtReg
  cfg_battery_charge_pct : SmtReg
  cfg_battery_voltage_pos : SmtReg
  cfg_battery_voltage_neg : SmtReg
  cfg_battery_internal_date : SmtReg
  cfg_battery_temperature : SmtReg
  cfg_output_load_pct : SmtReg
  cfg_output_apparent_power_pct : SmtReg
  cfg_output_current : SmtReg
  cfg_output_voltage : SmtReg
  cfg_output_frequency : SmtReg
  cfg_output_energy : SmtReg
  cfg_bypass_input_status : SmtReg
  cfg_bypass_voltage : SmtReg
  cfg_bypass_frequency : SmtReg
  cfg_input_status : SmtReg
  cfg_input_voltage : SmtReg
  cfg_efficiency : SmtReg
  cfg_mog_off_countdown : SmtReg
  cfg_mog_on_countdown : SmtReg
  cfg_mog_stayoff_countdown : SmtReg
  cfg_sog0_off_countdown : SmtReg
  cfg_sog0_on_countdown : SmtReg
  cfg_sog0_stayoff_countdown : SmtReg
  cfg_sog1_off_countdown : SmtReg
  cfg_sog1_on_countdown : SmtReg
  cfg_sog1_stayoff_countdown : SmtReg
  cfg_sog2_off_countdown : SmtReg
  cfg_sog2_on_countdown : SmtReg
  cfg_sog2_stayoff_countdown : SmtReg
  cfg_firmware_version : SmtReg
  cfg_model_name : SmtReg
  cfg_sku : SmtReg
  cfg_serial_number : SmtReg
  cfg_battery_sku : SmtReg
  cfg_nominal_apparent_power : SmtReg
  cfg_nominal_real_power : SmtReg
  cfg_sog_relay_config : SmtReg
  cfg_ups_name : SmtReg
  cfg_mog_name : SmtReg
  cfg_sog0_name : SmtReg
  cfg_sog1_name : SmtReg
  cfg_sog2_name : SmtReg

-- `if (cnd) out[n++] = ...`, before the later statements.
abbrev keep_if : SmtReg → Bool → List SmtReg → List SmtReg
keep_if idx cnd later = if cnd then idx ∷ later else later

abbrev always_kept : Bool → Bool → Bool → List SmtReg → List SmtReg
always_kept has_sog0 has_sog1 has_sog2 later =
    cfg_transfer_high
    ∷ (cfg_transfer_low
        ∷ (cfg_bat_test_interval
            ∷ (cfg_sensitivity
                ∷ (cfg_output_voltage_setting
                    ∷ (cfg_manufacture_date
                        ∷ (cfg_battery_date
                            ∷ (cfg_mog_turn_off_delay
                                ∷ (cfg_mog_turn_on_delay
                                    ∷ (cfg_mog_min_return_runtime
                                        ∷ (cfg_mog_loadshed_config
                                            ∷ (cfg_mog_loadshed_runtime
                                                ∷ (cfg_mog_loadshed_time_on_bat
                                                    ∷ (later)))))))))))))

abbrev sog_settings_kept : Bool → Bool → Bool → List SmtReg → List SmtReg
sog_settings_kept has_sog0 has_sog1 has_sog2 later = keep_if cfg_sog0_turn_off_delay has_sog0 (
    keep_if cfg_sog0_turn_on_delay has_sog0 (
      keep_if cfg_sog0_min_return_runtime has_sog0 (
        keep_if cfg_sog0_loadshed_config has_sog0 (
          keep_if cfg_sog0_loadshed_runtime has_sog0 (
            keep_if cfg_sog0_loadshed_time_on_bat has_sog0 (
              keep_if cfg_sog1_turn_off_delay has_sog1 (
                keep_if cfg_sog1_turn_on_delay has_sog1 (
                  keep_if cfg_sog1_min_return_runtime has_sog1 (
                    keep_if cfg_sog1_loadshed_config has_sog1 (
                      keep_if cfg_sog1_loadshed_runtime has_sog1 (
                        keep_if cfg_sog1_loadshed_time_on_bat has_sog1 (
                          keep_if cfg_sog2_turn_off_delay has_sog2 (
                            keep_if cfg_sog2_turn_on_delay has_sog2 (
                              keep_if cfg_sog2_min_return_runtime has_sog2 (
                                keep_if cfg_sog2_loadshed_config has_sog2 (
                                  keep_if cfg_sog2_loadshed_runtime has_sog2 (
                                    keep_if cfg_sog2_loadshed_time_on_bat has_sog2
                                      (later))))))))))))))))))

abbrev status_kept : Bool → Bool → Bool → List SmtReg → List SmtReg
status_kept has_sog0 has_sog1 has_sog2 later =
    cfg_ups_status
    ∷ (cfg_transfer_reason
        ∷ (cfg_mog_status
            ∷ (keep_if cfg_sog0_status has_sog0 (
                keep_if cfg_sog1_status has_sog1 (
                  keep_if cfg_sog2_status has_sog2 (
                    cfg_signaling_status
                    ∷ (cfg_general_error
                        ∷ (cfg_power_system_error
                            ∷ (cfg_battery_system_error
                                ∷ (cfg_replace_battery_test_status
                                    ∷ (cfg_runtime_calibration_status
                                        ∷ (cfg_battery_lifetime_status
                                            ∷ (cfg_ui_status ∷ (later))))))))))))))

abbrev dynamic_kept : Bool → Bool → Bool → List SmtReg → List SmtReg
dynamic_kept has_sog0 has_sog1 has_sog2 later =
    cfg_battery_runtime
    ∷ (cfg_battery_charge_pct
        ∷ (cfg_battery_voltage_pos
            ∷ (cfg_battery_voltage_neg
                ∷ (cfg_battery_internal_date
                    ∷ (cfg_battery_temperature
                        ∷ (cfg_output_load_pct
                            ∷ (cfg_output_apparent_power_pct
                                ∷ (cfg_output_current
                                    ∷ (cfg_output_voltage
                                        ∷ (cfg_output_frequency
                                            ∷ (cfg_output_energy
                                                ∷ (cfg_bypass_input_status
                                                    ∷ (cfg_bypass_voltage
                                                        ∷ (cfg_bypass_frequency
                                                            ∷ (cfg_input_status
                                                            ∷ (cfg_input_voltage
                                                            ∷ (cfg_efficiency
                                                            ∷ (cfg_mog_off_countdown
                                                            ∷ (cfg_mog_on_countdown
                                                            ∷ (cfg_mog_stayoff_countdown
                                                            ∷ (keep_if cfg_sog0_off_countdown
                                                            has_sog0
                                                            (keep_if cfg_sog0_on_countdown has_sog0
                                                            (keep_if cfg_sog0_stayoff_countdown
                                                            has_sog0
                                                            (keep_if cfg_sog1_off_countdown has_sog1
                                                            (keep_if cfg_sog1_on_countdown has_sog1
                                                            (keep_if cfg_sog1_stayoff_countdown
                                                            has_sog1
                                                            (keep_if cfg_sog2_off_countdown has_sog2
                                                            (keep_if cfg_sog2_on_countdown has_sog2
                                                            (keep_if cfg_sog2_stayoff_countdown
                                                            has_sog2
                                                            (later))))))))))))))))))))))))))))))

abbrev inventory_kept : Bool → Bool → Bool → List SmtReg → List SmtReg
inventory_kept has_sog0 has_sog1 has_sog2 later =
    cfg_firmware_version
    ∷ (cfg_model_name
        ∷ (cfg_sku
            ∷ (cfg_serial_number
                ∷ (cfg_battery_sku
                    ∷ (cfg_nominal_apparent_power
                        ∷ (cfg_nominal_real_power ∷ (cfg_sog_relay_config ∷ (later))))))))

abbrev names_kept : Bool → Bool → Bool → List SmtReg → List SmtReg
names_kept has_sog0 has_sog1 has_sog2 later =
    cfg_ups_name
    ∷ (cfg_mog_name
        ∷ (keep_if cfg_sog0_name has_sog0
            (keep_if cfg_sog1_name has_sog1 (keep_if cfg_sog2_name has_sog2 (later)))))

abbrev pub kept : Bool → Bool → Bool → List SmtReg
kept has_sog0 has_sog1 has_sog2 = always_kept has_sog0 has_sog1 has_sog2 (
    sog_settings_kept has_sog0 has_sog1 has_sog2 (
      status_kept has_sog0 has_sog1 has_sog2 (
        dynamic_kept has_sog0 has_sog1 has_sog2
          (inventory_kept has_sog0 has_sog1 has_sog2 (names_kept has_sog0 has_sog1 has_sog2 [])))))

-- The register 590, if the read succeeds; without it all groups count as there.
abbrev pub sog_bits : Option ℕ → ℕ
sog_bits none = 0xFFFF
sog_bits (some r) = r

pub smt_resolve_config_regs : Option ℕ → List SmtReg
smt_resolve_config_regs read =
    kept (has (sog_bits read) 2) (has (sog_bits read) 4) (has (sog_bits read) 8)
