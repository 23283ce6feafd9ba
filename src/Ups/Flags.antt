-- ===== src/Ups/Flags.antt =====
-- The status and error bit masks of src/ups/ups.h. Each is written as the power of two of its bit.
use airies_ups_c.Base.{ℕ, ◌^◌}

-- UPSStatus_BF, kept in `status`
abbrev pub ups_st_online : ℕ
ups_st_online = 2 ^ 1

abbrev pub ups_st_on_battery : ℕ
ups_st_on_battery = 2 ^ 2

abbrev pub ups_st_bypass : ℕ
ups_st_bypass = 2 ^ 3

abbrev pub ups_st_output_off : ℕ
ups_st_output_off = 2 ^ 4

abbrev pub ups_st_fault : ℕ
ups_st_fault = 2 ^ 5

abbrev pub ups_st_input_bad : ℕ
ups_st_input_bad = 2 ^ 6

abbrev pub ups_st_test : ℕ
ups_st_test = 2 ^ 7

abbrev pub ups_st_pending_on : ℕ
ups_st_pending_on = 2 ^ 8

abbrev pub ups_st_shut_pending : ℕ
ups_st_shut_pending = 2 ^ 9

abbrev pub ups_st_commanded : ℕ
ups_st_commanded = 2 ^ 10

abbrev pub ups_st_he_mode : ℕ
ups_st_he_mode = 2 ^ 13

abbrev pub ups_st_info_alert : ℕ
ups_st_info_alert = 2 ^ 14

abbrev pub ups_st_fault_state : ℕ
ups_st_fault_state = 2 ^ 15

abbrev pub ups_st_mains_bad : ℕ
ups_st_mains_bad = 2 ^ 19

abbrev pub ups_st_fault_recovery : ℕ
ups_st_fault_recovery = 2 ^ 20

abbrev pub ups_st_overload : ℕ
ups_st_overload = 2 ^ 21

-- SimpleSignalingStatus_BF, kept in `sig_status`
abbrev pub ups_sig_shutdown_imminent : ℕ
ups_sig_shutdown_imminent = 2 ^ 1

-- GeneralError_BF
abbrev pub ups_generr_site_wiring : ℕ
ups_generr_site_wiring = 2 ^ 0

abbrev pub ups_generr_eeprom : ℕ
ups_generr_eeprom = 2 ^ 1

abbrev pub ups_generr_ad_conv : ℕ
ups_generr_ad_conv = 2 ^ 2

abbrev pub ups_generr_logic_psu : ℕ
ups_generr_logic_psu = 2 ^ 3

abbrev pub ups_generr_internal_comm : ℕ
ups_generr_internal_comm = 2 ^ 4

abbrev pub ups_generr_ui_button : ℕ
ups_generr_ui_button = 2 ^ 5

abbrev pub ups_generr_epo_active : ℕ
ups_generr_epo_active = 2 ^ 7

abbrev pub ups_generr_fw_mismatch : ℕ
ups_generr_fw_mismatch = 2 ^ 8

-- PowerSystemError_BF
abbrev pub ups_pwrerr_overload : ℕ
ups_pwrerr_overload = 2 ^ 0

abbrev pub ups_pwrerr_short_circuit : ℕ
ups_pwrerr_short_circuit = 2 ^ 1

abbrev pub ups_pwrerr_overvoltage : ℕ
ups_pwrerr_overvoltage = 2 ^ 2

abbrev pub ups_pwrerr_overtemp : ℕ
ups_pwrerr_overtemp = 2 ^ 4

abbrev pub ups_pwrerr_fan : ℕ
ups_pwrerr_fan = 2 ^ 10

abbrev pub ups_pwrerr_inverter : ℕ
ups_pwrerr_inverter = 2 ^ 13

-- BatterySystemError_BF
abbrev pub ups_baterr_disconnected : ℕ
ups_baterr_disconnected = 2 ^ 0

abbrev pub ups_baterr_overvoltage : ℕ
ups_baterr_overvoltage = 2 ^ 1

abbrev pub ups_baterr_replace : ℕ
ups_baterr_replace = 2 ^ 2

abbrev pub ups_baterr_overtemp_crit : ℕ
ups_baterr_overtemp_crit = 2 ^ 3

abbrev pub ups_baterr_charger : ℕ
ups_baterr_charger = 2 ^ 4

abbrev pub ups_baterr_temp_sensor : ℕ
ups_baterr_temp_sensor = 2 ^ 5

abbrev pub ups_baterr_overtemp_warn : ℕ
ups_baterr_overtemp_warn = 2 ^ 7

abbrev pub ups_baterr_general : ℕ
ups_baterr_general = 2 ^ 8

abbrev pub ups_baterr_comm : ℕ
ups_baterr_comm = 2 ^ 9

-- ReplaceBatteryTestStatus_BF
abbrev pub ups_battest_passed : ℕ
ups_battest_passed = 2 ^ 2

abbrev pub ups_battest_failed : ℕ
ups_battest_failed = 2 ^ 3

abbrev pub ups_battest_refused : ℕ
ups_battest_refused = 2 ^ 4

abbrev pub ups_battest_aborted : ℕ
ups_battest_aborted = 2 ^ 5

abbrev pub ups_battest_src_protocol : ℕ
ups_battest_src_protocol = 2 ^ 6

abbrev pub ups_battest_src_local_ui : ℕ
ups_battest_src_local_ui = 2 ^ 7

abbrev pub ups_battest_src_internal : ℕ
ups_battest_src_internal = 2 ^ 8

-- UPS_TRANSFER_REASON_UNKNOWN of src/ups/ups_format.h
abbrev pub ups_transfer_reason_unknown : ℕ
ups_transfer_reason_unknown = 0xffff
