-- ===== src/Ups/Format.antt =====
-- The text tables of src/ups/ups_format.c. A returned `const char *` is a `String`, NULL is `none`,
-- and a caller's buffer is the list of the bytes before its terminator.
pub mod Decode
use airies_ups_c.Base.{
  max, ℕ, ◌+◌, ◌-◌, List, [], ◌∷◌, ◌++◌, Bool, true, false, Option, none, some, ltb, String,
  if◌then◌else◌, length, get_or, take,
}
use airies_ups_c.Ups.Flags.{
  ups_st_online, ups_st_on_battery, ups_st_bypass, ups_st_output_off, ups_st_fault,
  ups_st_input_bad, ups_st_test, ups_st_pending_on, ups_st_shut_pending, ups_st_commanded,
  ups_st_he_mode, ups_st_info_alert, ups_st_fault_state, ups_st_mains_bad, ups_st_fault_recovery,
  ups_st_overload, ups_generr_site_wiring, ups_generr_eeprom, ups_generr_ad_conv,
  ups_generr_logic_psu, ups_generr_internal_comm, ups_generr_ui_button, ups_generr_epo_active,
  ups_generr_fw_mismatch, ups_pwrerr_overload, ups_pwrerr_short_circuit, ups_pwrerr_overvoltage,
  ups_pwrerr_overtemp, ups_pwrerr_fan, ups_pwrerr_inverter, ups_baterr_disconnected,
  ups_baterr_overvoltage, ups_baterr_replace, ups_baterr_overtemp_crit, ups_baterr_charger,
  ups_baterr_temp_sensor, ups_baterr_overtemp_warn, ups_baterr_general, ups_baterr_comm,
  ups_battest_passed, ups_battest_failed, ups_battest_refused, ups_battest_aborted,
  ups_battest_src_protocol, ups_battest_src_local_ui, ups_battest_src_internal,
}
use airies_ups_c.Base.Bits.{has}
use airies_ups_c.Base.Text.{bytes}

-- The array `transfer_reasons`.
abbrev pub transfer_reasons : List String
transfer_reasons =
    "SystemInitialization" ∷ "HighInputVoltage" ∷ "LowInputVoltage" ∷ "DistortedInput"
    ∷ "RapidChangeOfInputVoltage" ∷ "HighInputFrequency" ∷ "LowInputFrequency"
    ∷ "FreqAndOrPhaseDifference" ∷ "AcceptableInput" ∷ "AutomaticTest" ∷ "TestEnded"
    ∷ "LocalUICommand" ∷ "ProtocolCommand" ∷ "LowBatteryVoltage" ∷ "GeneralError"
    ∷ "PowerSystemError" ∷ "BatterySystemError" ∷ "ErrorCleared" ∷ "AutomaticRestart"
    ∷ "DistortedInverterOutput" ∷ "InverterOutputAcceptable" ∷ "EPOInterface"
    ∷ "InputPhaseDeltaOutOfRange" ∷ "InputNeutralNotConnected" ∷ "ATSTransfer"
    ∷ "ConfigurationChange" ∷ "AlertAsserted" ∷ "AlertCleared" ∷ "PlugRatingExceeded"
    ∷ "OutletGroupStateChange" ∷ "FailureBypassExpired" ∷ []

unfoldable pub ups_transfer_reason_str : ℕ → String
ups_transfer_reason_str reason =
    if ltb reason (length transfer_reasons)
    then get_or transfer_reasons reason "Unknown"
    else "Unknown"

unfoldable pub ups_transfer_reason_known : ℕ → Bool
ups_transfer_reason_known reason = ltb reason (length transfer_reasons)

-- `bit_label_t`
abbrev pub BitLabel : Type 0
BitLabel = ℕ × String

-- The table `flags` of `ups_status_str`.
abbrev pub status_flags : List BitLabel
status_flags =
    (ups_st_online, "Online")
    ∷ (ups_st_on_battery, "OnBattery")
    ∷ (ups_st_bypass, "Bypass")
    ∷ (ups_st_output_off, "OutputOff")
    ∷ (ups_st_fault, "Fault")
    ∷ (ups_st_input_bad, "InputBad")
    ∷ (ups_st_test, "SelfTest")
    ∷ (ups_st_pending_on, "PendingOn")
    ∷ (ups_st_shut_pending, "ShutdownPending")
    ∷ (ups_st_commanded, "Commanded")
    ∷ (ups_st_he_mode, "HighEfficiency")
    ∷ (ups_st_info_alert, "InfoAlert")
    ∷ (ups_st_fault_state, "FaultState")
    ∷ (ups_st_mains_bad, "MainsBad")
    ∷ (ups_st_fault_recovery, "FaultRecovery")
    ∷ (ups_st_overload, "Overload")
    ∷ []

-- `strncat(buf, s, len - strlen(buf) - 1)`. The difference wraps in C if `buf` fills `len` already;
-- `Status.within` shows that it never does.
pub append : ℕ → List ℕ → String → List ℕ
append len buf s = buf ++ take (len - length buf - 1) (bytes s)

abbrev pub is_empty : List ℕ → Bool
is_empty [] = true
is_empty (c ∷ cs) = false

-- The loop of `ups_status_str` over the rest of the table.
pub append_flags : ℕ → ℕ → List BitLabel → List ℕ → List ℕ
append_flags status len [] buf = buf
append_flags status len ((bit, name) ∷ flags) buf = append_flags status len flags (
    if has status bit
    then append len (if is_empty buf then buf else append len buf " ") name
    else buf)

pub ups_status_str : ℕ → ℕ → List ℕ
unfolding append append_flags
ups_status_str status len =
    let buf = append_flags status len status_flags [] in
    if is_empty buf then take (len - 1) (bytes "Unknown") else buf

-- `decode_bits`: the loop over the rest of the table, `n` names found so far.
pub decode_from : ℕ → ℕ → ℕ → List BitLabel → List String
decode_from raw max n [] = []
decode_from raw max n ((bit, name) ∷ table) =
    let found = name ∷ decode_from raw max (n + 1) table in
    let passed = decode_from raw max n table in
    if ltb n max then (if has raw bit then found else passed) else []

pub decode_bits : ℕ → ℕ → List BitLabel → List String
unfolding decode_from
decode_bits raw max table = decode_from raw max 0 table

abbrev pub general_error_flags : List BitLabel
general_error_flags =
    (ups_generr_site_wiring, "SiteWiring")
    ∷ (ups_generr_eeprom, "EEPROM")
    ∷ (ups_generr_ad_conv, "ADConverter")
    ∷ (ups_generr_logic_psu, "LogicPowerSupply")
    ∷ (ups_generr_internal_comm, "InternalComm")
    ∷ (ups_generr_ui_button, "UIButton")
    ∷ (ups_generr_epo_active, "EPOActive")
    ∷ (ups_generr_fw_mismatch, "FirmwareMismatch")
    ∷ []

abbrev pub power_error_flags : List BitLabel
power_error_flags =
    (ups_pwrerr_overload, "Overload")
    ∷ (ups_pwrerr_short_circuit, "ShortCircuit")
    ∷ (ups_pwrerr_overvoltage, "Overvoltage")
    ∷ (ups_pwrerr_overtemp, "Overtemperature")
    ∷ (ups_pwrerr_fan, "Fan")
    ∷ (ups_pwrerr_inverter, "Inverter")
    ∷ []

abbrev pub battery_error_flags : List BitLabel
battery_error_flags =
    (ups_baterr_disconnected, "Disconnected")
    ∷ (ups_baterr_overvoltage, "Overvoltage")
    ∷ (ups_baterr_replace, "NeedsReplacement")
    ∷ (ups_baterr_overtemp_crit, "OvertemperatureCritical")
    ∷ (ups_baterr_charger, "ChargerFault")
    ∷ (ups_baterr_temp_sensor, "TempSensorFault")
    ∷ (ups_baterr_overtemp_warn, "OvertemperatureWarning")
    ∷ (ups_baterr_general, "GeneralError")
    ∷ (ups_baterr_comm, "CommunicationError")
    ∷ []

unfoldable pub ups_decode_general_errors : ℕ → ℕ → List String
unfolding decode_bits
ups_decode_general_errors raw max = decode_bits raw max general_error_flags

unfoldable pub ups_decode_power_errors : ℕ → ℕ → List String
unfolding decode_bits
ups_decode_power_errors raw max = decode_bits raw max power_error_flags

unfoldable pub ups_decode_battery_errors : ℕ → ℕ → List String
unfolding decode_bits
ups_decode_battery_errors raw max = decode_bits raw max battery_error_flags

unfoldable pub ups_battery_test_result_str : ℕ → Option String
ups_battery_test_result_str raw =
    if has raw ups_battest_failed
    then some "failed"
    else if has raw ups_battest_refused
    then some "refused"
    else if has raw ups_battest_aborted
    then some "aborted"
    else if has raw ups_battest_passed
    then some "passed"
    else none

unfoldable pub ups_battery_test_source_str : ℕ → Option String
ups_battery_test_source_str raw =
    if has raw ups_battest_src_protocol
    then some "protocol"
    else if has raw ups_battest_src_local_ui
    then some "local UI"
    else if has raw ups_battest_src_internal
    then some "internal scheduler"
    else none
