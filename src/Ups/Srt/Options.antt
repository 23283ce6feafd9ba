-- ===== src/Ups/Srt/Options.antt =====
-- The declared options of the bit-field registers of src/ups/ups_srt.c.
use airies_ups_c.Base.{List, [], ◌∷◌}
use airies_ups_c.Ups.Registers.{BitOption, opt}

abbrev pub srt_freq_settings : List BitOption
srt_freq_settings =
    opt 1 "auto" "Automatic 50/60Hz (47-53, 57-63)"
    ∷ opt 2 "hz50_0_1" "50 Hz +/- 0.1 Hz"
    ∷ opt 8 "hz50_3_0" "50 Hz +/- 3.0 Hz"
    ∷ opt 16 "hz60_0_1" "60 Hz +/- 0.1 Hz"
    ∷ opt 64 "hz60_3_0" "60 Hz +/- 3.0 Hz"
    ∷ []

abbrev pub srt_bat_test_opts : List BitOption
srt_bat_test_opts =
    opt 1 "never" "Never"
    ∷ opt 2 "onstart_only" "Startup Only"
    ∷ opt 16 "onstart_7d" "Startup + 7d Since Test"
    ∷ opt 32 "onstart_14d" "Startup + 14d Since Test"
    ∷ []

abbrev pub srt_voltage_opts : List BitOption
srt_voltage_opts =
    opt 1 "vac100" "100 VAC"
    ∷ opt 2 "vac120" "120 VAC"
    ∷ opt 4 "vac200" "200 VAC"
    ∷ opt 8 "vac208" "208 VAC"
    ∷ opt 16 "vac220" "220 VAC"
    ∷ opt 32 "vac230" "230 VAC"
    ∷ opt 64 "vac240" "240 VAC"
    ∷ opt 2048 "vac110" "110 VAC"
    ∷ []

abbrev pub srt_freq_tol_opts : List BitOption
srt_freq_tol_opts =
    opt 1 "auto" "Automatic 50/60Hz"
    ∷ opt 2 "hz50_0_1" "50 Hz +/- 0.1 Hz"
    ∷ opt 8 "hz50_3_0" "50 Hz +/- 3.0 Hz"
    ∷ opt 16 "hz60_0_1" "60 Hz +/- 0.1 Hz"
    ∷ opt 64 "hz60_3_0" "60 Hz +/- 3.0 Hz"
    ∷ []

abbrev pub srt_ups_status_opts : List BitOption
srt_ups_status_opts =
    opt 2 "online" "Online"
    ∷ opt 4 "on_battery" "On Battery"
    ∷ opt 8 "output_on_bypass" "Output on Bypass"
    ∷ opt 16 "output_off" "Output Off"
    ∷ opt 32 "general_fault" "General Fault"
    ∷ opt 64 "input_not_acceptable" "Input Not Acceptable"
    ∷ opt 128 "self_test_in_progress" "Self Test in Progress"
    ∷ opt 256 "pending_output_on" "Pending Output On"
    ∷ opt 512 "shutdown_pending" "Shutdown Pending"
    ∷ opt 1024 "commanded_bypass" "Commanded Bypass"
    ∷ opt 8192 "high_efficiency" "High Efficiency Mode"
    ∷ opt 16384 "informational_alert" "Informational Alert"
    ∷ opt 32768 "fault_state" "Fault State"
    ∷ opt 524288 "mains_bad_state" "Mains Bad State"
    ∷ opt 1048576 "fault_recovery" "Fault Recovery"
    ∷ opt 2097152 "overload" "Overload"
    ∷ []

abbrev pub srt_transfer_reason_opts : List BitOption
srt_transfer_reason_opts =
    opt 0 "system_initialization" "System Initialization"
    ∷ opt 1 "high_input_voltage" "High Input Voltage"
    ∷ opt 2 "low_input_voltage" "Low Input Voltage"
    ∷ opt 3 "distorted_input" "Distorted Input"
    ∷ opt 4 "rapid_change_input_voltage" "Rapid Change of Input Voltage"
    ∷ opt 5 "high_input_frequency" "High Input Frequency"
    ∷ opt 6 "low_input_frequency" "Low Input Frequency"
    ∷ opt 7 "freq_or_phase_difference" "Frequency and/or Phase Difference"
    ∷ opt 8 "acceptable_input" "Acceptable Input"
    ∷ opt 9 "automatic_test" "Automatic Test"
    ∷ opt 10 "test_ended" "Test Ended"
    ∷ opt 11 "local_ui_command" "Local UI Command"
    ∷ opt 12 "protocol_command" "Protocol Command"
    ∷ opt 13 "low_battery_voltage" "Low Battery Voltage"
    ∷ opt 14 "general_error" "General Error"
    ∷ opt 15 "power_system_error" "Power System Error"
    ∷ opt 16 "battery_system_error" "Battery System Error"
    ∷ opt 17 "error_cleared" "Error Cleared"
    ∷ opt 18 "automatic_restart" "Automatic Restart"
    ∷ opt 19 "distorted_inverter_output" "Distorted Inverter Output"
    ∷ opt 20 "inverter_output_acceptable" "Inverter Output Acceptable"
    ∷ opt 21 "epo_interface" "EPO Interface"
    ∷ opt 22 "input_phase_delta_oor" "Input Phase Delta Out of Range"
    ∷ opt 23 "input_neutral_not_connected" "Input Neutral Not Connected"
    ∷ opt 24 "ats_transfer" "ATS Transfer"
    ∷ opt 25 "configuration_change" "Configuration Change"
    ∷ opt 26 "alert_asserted" "Alert Asserted"
    ∷ opt 27 "alert_cleared" "Alert Cleared"
    ∷ opt 28 "plug_rating_exceeded" "Plug Rating Exceeded"
    ∷ opt 29 "outlet_group_state_change" "Outlet Group State Change"
    ∷ opt 30 "failure_bypass_expired" "Failure Bypass Expired"
    ∷ []

abbrev pub srt_outlet_status_opts : List BitOption
srt_outlet_status_opts =
    opt 1 "state_on" "State: ON"
    ∷ opt 2 "state_off" "State: OFF"
    ∷ opt 4 "processing_reboot" "Processing Reboot"
    ∷ opt 8 "processing_shutdown" "Processing Shutdown"
    ∷ opt 16 "processing_sleep" "Processing Sleep"
    ∷ opt 128 "pending_load_shed" "Pending Load Shed"
    ∷ opt 256 "pending_on_delay" "Pending On Delay"
    ∷ opt 512 "pending_off_delay" "Pending Off Delay"
    ∷ opt 1024 "pending_on_ac_presence" "Pending On AC Presence"
    ∷ opt 2048 "pending_on_min_runtime" "Pending On Min Runtime"
    ∷ opt 16384 "low_runtime" "Low Runtime"
    ∷ []

abbrev pub srt_signaling_status_opts : List BitOption
srt_signaling_status_opts =
    opt 1 "power_failure" "Power Failure" ∷ opt 2 "shutdown_imminent" "Shutdown Imminent" ∷ []

abbrev pub srt_general_error_opts : List BitOption
srt_general_error_opts =
    opt 1 "site_wiring" "Site Wiring"
    ∷ opt 2 "eeprom" "EEPROM"
    ∷ opt 4 "ad_converter" "A/D Converter"
    ∷ opt 8 "logic_power_supply" "Logic Power Supply"
    ∷ opt 16 "internal_communication" "Internal Communication"
    ∷ opt 32 "ui_button" "UI Button"
    ∷ opt 128 "epo_active" "EPO Active"
    ∷ opt 256 "firmware_mismatch" "Firmware Mismatch"
    ∷ opt 512 "oscillator" "Oscillator"
    ∷ opt 1024 "measurement_mismatch" "Measurement Mismatch"
    ∷ opt 2048 "subsystem" "Subsystem"
    ∷ []

abbrev pub srt_power_system_error_opts : List BitOption
srt_power_system_error_opts =
    opt 1 "output_overload" "Output Overload"
    ∷ opt 2 "output_short_circuit" "Output Short Circuit"
    ∷ opt 4 "output_overvoltage" "Output Overvoltage"
    ∷ opt 8 "transformer_dc_imbalance" "Transformer DC Imbalance"
    ∷ opt 16 "overtemperature" "Overtemperature"
    ∷ opt 32 "backfeed_relay" "Backfeed Relay"
    ∷ opt 64 "avr_relay" "AVR Relay"
    ∷ opt 128 "pfc_input_relay" "PFC Input Relay"
    ∷ opt 256 "output_relay" "Output Relay"
    ∷ opt 512 "bypass_relay" "Bypass Relay"
    ∷ opt 1024 "fan" "Fan"
    ∷ opt 2048 "pfc" "PFC"
    ∷ opt 4096 "dc_bus_overvoltage" "DC Bus Overvoltage"
    ∷ opt 8192 "inverter" "Inverter"
    ∷ opt 16384 "over_current" "Over Current"
    ∷ []

abbrev pub srt_battery_system_error_opts : List BitOption
srt_battery_system_error_opts =
    opt 1 "disconnected" "Disconnected"
    ∷ opt 2 "overvoltage" "Overvoltage"
    ∷ opt 4 "needs_replacement" "Needs Replacement"
    ∷ opt 8 "overtemp_critical" "Overtemperature Critical"
    ∷ opt 16 "charger" "Charger"
    ∷ opt 32 "temperature_sensor" "Temperature Sensor"
    ∷ opt 64 "bus_soft_start" "Bus Soft Start"
    ∷ opt 128 "overtemp_warning" "Overtemperature Warning"
    ∷ opt 256 "general_error" "General Error"
    ∷ opt 512 "communication" "Communication"
    ∷ []

abbrev pub srt_replace_battery_test_status_opts : List BitOption
srt_replace_battery_test_status_opts =
    opt 1 "pending" "Pending"
    ∷ opt 2 "in_progress" "In Progress"
    ∷ opt 4 "passed" "Passed"
    ∷ opt 8 "failed" "Failed"
    ∷ opt 16 "refused" "Refused"
    ∷ opt 32 "aborted" "Aborted"
    ∷ opt 64 "source_protocol" "Source: Protocol"
    ∷ opt 128 "source_local_ui" "Source: Local UI"
    ∷ opt 256 "source_internal" "Source: Internal"
    ∷ []

abbrev pub srt_runtime_calibration_status_opts : List BitOption
srt_runtime_calibration_status_opts =
    opt 1 "pending" "Pending"
    ∷ opt 2 "in_progress" "In Progress"
    ∷ opt 4 "passed" "Passed"
    ∷ opt 8 "failed" "Failed"
    ∷ opt 16 "refused" "Refused"
    ∷ opt 32 "aborted" "Aborted"
    ∷ opt 64 "source_protocol" "Source: Protocol"
    ∷ opt 128 "source_local_ui" "Source: Local UI"
    ∷ opt 4096 "load_change" "Load Change"
    ∷ opt 8192 "ac_input_not_acceptable" "AC Input Not Acceptable"
    ∷ opt 16384 "load_too_low" "Load Too Low"
    ∷ []

abbrev pub srt_battery_lifetime_status_opts : List BitOption
srt_battery_lifetime_status_opts =
    opt 1 "ok" "Lifetime OK"
    ∷ opt 2 "near_end" "Lifetime Near End"
    ∷ opt 4 "exceeded" "Lifetime Exceeded"
    ∷ opt 8 "near_end_acknowledged" "Lifetime Near End Acknowledged"
    ∷ opt 16 "exceeded_acknowledged" "Lifetime Exceeded Acknowledged"
    ∷ []

abbrev pub srt_ui_status_opts : List BitOption
srt_ui_status_opts =
    opt 1 "continuous_test_in_progress" "Continuous Test in Progress"
    ∷ opt 2 "audible_alarm_in_progress" "Audible Alarm in Progress"
    ∷ opt 4 "audible_alarm_muted" "Audible Alarm Muted"
    ∷ opt 8 "any_button_pressed_recently" "Any Button Pressed Recently"
    ∷ []

abbrev pub srt_input_status_opts : List BitOption
srt_input_status_opts =
    opt 1 "acceptable" "Acceptable"
    ∷ opt 2 "pending_acceptable" "Pending Acceptable"
    ∷ opt 4 "voltage_too_low" "Voltage Too Low"
    ∷ opt 8 "voltage_too_high" "Voltage Too High"
    ∷ opt 16 "distorted" "Distorted"
    ∷ opt 32 "boost" "Boost"
    ∷ opt 64 "trim" "Trim"
    ∷ opt 128 "frequency_too_low" "Frequency Too Low"
    ∷ opt 256 "frequency_too_high" "Frequency Too High"
    ∷ opt 512 "freq_phase_not_locked" "Frequency and Phase Not Locked"
    ∷ opt 1024 "phase_delta_oor" "Phase Delta Out of Range"
    ∷ opt 2048 "neutral_not_connected" "Neutral Not Connected"
    ∷ opt 32768 "powering_load" "Powering Load"
    ∷ []

abbrev pub srt_sog_relay_config_opts : List BitOption
srt_sog_relay_config_opts =
    opt 1 "mog_present" "MOG Present"
    ∷ opt 2 "sog0_present" "SOG0 Present"
    ∷ opt 4 "sog1_present" "SOG1 Present"
    ∷ opt 8 "sog2_present" "SOG2 Present"
    ∷ opt 16 "sog3_present" "SOG3 Present"
    ∷ []
