-- ===== src/Ups/Srt/Table.antt =====
-- `srt_config_regs` of src/ups/ups_srt.c, in six parts.
use airies_ups_c.Base.{true, false, none, some, List, [], ◌∷◌, ◌++◌}
use airies_ups_c.Ups.Registers.{
  Descriptor, reg, cfg_scalar, cfg_bitfield, cfg_flags, cfg_string, config, measurement, identity,
  diagnostic,
}
use airies_ups_c.Ups.Srt.Options.{
  srt_bat_test_opts, srt_voltage_opts, srt_freq_tol_opts, srt_ups_status_opts,
  srt_transfer_reason_opts, srt_outlet_status_opts, srt_signaling_status_opts,
  srt_general_error_opts, srt_power_system_error_opts, srt_battery_system_error_opts,
  srt_replace_battery_test_status_opts, srt_runtime_calibration_status_opts,
  srt_battery_lifetime_status_opts, srt_ui_status_opts, srt_input_status_opts,
  srt_sog_relay_config_opts,
}

abbrev pub srt_settings_regs : List Descriptor
srt_settings_regs =
    reg "transfer_high" "Upper Acceptable Input Voltage" (some "V") "transfer" 1026 1 1 true config
      none (cfg_scalar 110 150)
    ∷ reg "transfer_low" "Lower Acceptable Input Voltage" (some "V") "transfer" 1027 1 1 true config
        none (cfg_scalar 80 120)
    ∷ reg "bat_test_interval" "Battery Test Interval" none "battery" 1024 1 1 true config none
        (cfg_bitfield true srt_bat_test_opts)
    ∷ reg "mog_turn_off_delay" "MOG Turn Off Countdown" (some "s") "outlet_delays" 1029 1 1 true
        config none (cfg_scalar 0 32767)
    ∷ reg "mog_turn_on_delay" "MOG Turn On Countdown" (some "s") "outlet_delays" 1030 1 1 true
        config none (cfg_scalar 0 32767)
    ∷ reg "sog0_turn_off_delay" "SOG0 Turn Off Countdown" (some "s") "outlet_delays" 1034 1 1 true
        config none (cfg_scalar 0 32767)
    ∷ reg "sog0_turn_on_delay" "SOG0 Turn On Countdown" (some "s") "outlet_delays" 1035 1 1 true
        config none (cfg_scalar 0 32767)
    ∷ reg "sog1_turn_off_delay" "SOG1 Turn Off Countdown" (some "s") "outlet_delays" 1039 1 1 true
        config none (cfg_scalar 0 32767)
    ∷ reg "sog1_turn_on_delay" "SOG1 Turn On Countdown" (some "s") "outlet_delays" 1040 1 1 true
        config none (cfg_scalar 0 32767)
    ∷ reg "mog_min_return_runtime" "MOG Minimum Return Runtime" (some "s") "outlet_delays" 1033 1 1
        true config none (cfg_scalar 0 32767)
    ∷ reg "sog0_min_return_runtime" "SOG0 Minimum Return Runtime" (some "s") "outlet_delays" 1038 1
        1 true config none (cfg_scalar 0 32767)
    ∷ reg "sog1_min_return_runtime" "SOG1 Minimum Return Runtime" (some "s") "outlet_delays" 1043 1
        1 true config none (cfg_scalar 0 32767)
    ∷ reg "mog_loadshed_config" "MOG Load Shed Config" none "load_shed" 1054 1 1 true config none
        (cfg_scalar 0 65535)
    ∷ reg "sog0_loadshed_config" "SOG0 Load Shed Config" none "load_shed" 1056 1 1 true config none
        (cfg_scalar 0 65535)
    ∷ reg "sog1_loadshed_config" "SOG1 Load Shed Config" none "load_shed" 1058 1 1 true config none
        (cfg_scalar 0 65535)
    ∷ reg "mog_loadshed_runtime" "MOG Load Shed Runtime Threshold" (some "s") "load_shed" 1072 1 1
        true config none (cfg_scalar 0 32767)
    ∷ reg "sog0_loadshed_runtime" "SOG0 Load Shed Runtime Threshold" (some "s") "load_shed" 1064 1 1
        true config none (cfg_scalar 0 32767)
    ∷ reg "sog1_loadshed_runtime" "SOG1 Load Shed Runtime Threshold" (some "s") "load_shed" 1065 1 1
        true config none (cfg_scalar 0 32767)
    ∷ reg "mog_loadshed_time_on_bat" "MOG Load Shed Time on Battery" (some "s") "load_shed" 1073 1 1
        true config none (cfg_scalar 0 32767)
    ∷ reg "sog0_loadshed_time_on_bat" "SOG0 Load Shed Time on Battery" (some "s") "load_shed" 1068 1
        1 true config none (cfg_scalar 0 32767)
    ∷ reg "sog1_loadshed_time_on_bat" "SOG1 Load Shed Time on Battery" (some "s") "load_shed" 1069 1
        1 true config none (cfg_scalar 0 32767)
    ∷ reg "output_voltage_setting" "Output Voltage Setting" none "output" 592 1 1 false config none
        (cfg_bitfield true srt_voltage_opts)
    ∷ reg "freq_tolerance" "Output Frequency Tolerance" none "output" 593 1 1 true config none
        (cfg_bitfield true srt_freq_tol_opts)
    ∷ reg "manufacture_date" "Manufacture Date" (some "days since 2000-01-01") "info" 591 1 1 false
        identity none (cfg_scalar 0 65535)
    ∷ reg "battery_date" "Battery Install Date" (some "days since 2000-01-01") "info" 595 1 1 true
        config none (cfg_scalar 0 65535)
    ∷ []

abbrev pub srt_status_regs : List Descriptor
srt_status_regs =
    reg "ups_status" "UPS Status" none "status" 0 2 1 false diagnostic none
      (cfg_flags srt_ups_status_opts)
    ∷ reg "transfer_reason" "Last Transfer Reason" none "status" 2 1 1 false diagnostic none
        (cfg_bitfield false srt_transfer_reason_opts)
    ∷ reg "mog_status" "MOG Status" none "status" 3 2 1 false diagnostic none
        (cfg_flags srt_outlet_status_opts)
    ∷ reg "sog0_status" "SOG0 Status" none "status" 6 2 1 false diagnostic none
        (cfg_flags srt_outlet_status_opts)
    ∷ reg "sog1_status" "SOG1 Status" none "status" 9 2 1 false diagnostic none
        (cfg_flags srt_outlet_status_opts)
    ∷ reg "sog2_status" "SOG2 Status" none "status" 12 2 1 false diagnostic none
        (cfg_flags srt_outlet_status_opts)
    ∷ reg "signaling_status" "Simple Signaling Status" none "status" 18 1 1 false diagnostic none
        (cfg_flags srt_signaling_status_opts)
    ∷ reg "general_error" "General Error" none "errors" 19 1 1 false diagnostic none
        (cfg_flags srt_general_error_opts)
    ∷ reg "power_system_error" "Power System Error" none "errors" 20 2 1 false diagnostic none
        (cfg_flags srt_power_system_error_opts)
    ∷ reg "battery_system_error" "Battery System Error" none "errors" 22 1 1 false diagnostic none
        (cfg_flags srt_battery_system_error_opts)
    ∷ reg "replace_battery_test_status" "Replace Battery Test Status" none "status" 23 1 1 false
        diagnostic none (cfg_flags srt_replace_battery_test_status_opts)
    ∷ reg "runtime_calibration_status" "Runtime Calibration Status" none "status" 24 1 1 false
        diagnostic none (cfg_flags srt_runtime_calibration_status_opts)
    ∷ reg "battery_lifetime_status" "Battery Lifetime Status" none "status" 25 1 1 false diagnostic
        none (cfg_flags srt_battery_lifetime_status_opts)
    ∷ reg "ui_status" "UI Status" none "status" 26 1 1 false diagnostic none
        (cfg_flags srt_ui_status_opts)
    ∷ []

abbrev pub srt_measurements_regs : List Descriptor
srt_measurements_regs =
    reg "battery_runtime" "Battery Runtime" (some "s") "battery" 128 2 1 false measurement none
      (cfg_scalar 0 0)
    ∷ reg "battery_charge_pct" "Battery Charge" (some "%") "battery" 130 1 512 false measurement
        none (cfg_scalar 0 0)
    ∷ reg "battery_voltage_pos" "Battery Positive Voltage" (some "V") "battery" 131 1 32 false
        measurement none (cfg_scalar 0 0)
    ∷ reg "battery_voltage_neg" "Battery Negative Voltage" (some "V") "battery" 132 1 32 false
        measurement none (cfg_scalar 0 0)
    ∷ reg "battery_internal_date" "Battery Internal Date" (some "days since 2000-01-01") "battery"
        133 1 1 false measurement none (cfg_scalar 0 0)
    ∷ reg "battery_temperature" "Battery Temperature" (some "°C") "battery" 135 1 128 false
        measurement none (cfg_scalar 0 0)
    ∷ reg "output_load_pct" "Output Load" (some "%") "output" 136 1 256 false measurement none
        (cfg_scalar 0 0)
    ∷ reg "output_apparent_power_pct" "Output Apparent Power" (some "%") "output" 138 1 256 false
        measurement none (cfg_scalar 0 0)
    ∷ reg "output_current" "Output Current" (some "A") "output" 140 1 32 false measurement none
        (cfg_scalar 0 0)
    ∷ reg "output_voltage" "Output Voltage" (some "V") "output" 142 1 64 false measurement none
        (cfg_scalar 0 0)
    ∷ reg "output_frequency" "Output Frequency" (some "Hz") "output" 144 1 128 false measurement
        none (cfg_scalar 0 0)
    ∷ reg "output_energy" "Output Energy" (some "Wh") "output" 145 2 1 false measurement none
        (cfg_scalar 0 0)
    ∷ reg "bypass_input_status" "Bypass Input Status" none "bypass" 147 1 1 false measurement none
        (cfg_flags srt_input_status_opts)
    ∷ reg "bypass_voltage" "Bypass Voltage" (some "V") "bypass" 148 1 64 false measurement none
        (cfg_scalar 0 0)
    ∷ reg "bypass_frequency" "Bypass Frequency" (some "Hz") "bypass" 149 1 128 false measurement
        none (cfg_scalar 0 0)
    ∷ reg "input_status" "Input Status" none "input" 150 1 1 false measurement none
        (cfg_flags srt_input_status_opts)
    ∷ reg "input_voltage" "Input Voltage" (some "V") "input" 151 1 64 false measurement
        (some 0xFFFF) (cfg_scalar 0 0)
    ∷ reg "efficiency" "Efficiency" (some "%") "ups" 154 1 128 false measurement (some 0xFFFF)
        (cfg_scalar 0 0)
    ∷ reg "shutdown_timer" "Shutdown Timer" (some "s") "timers" 155 1 1 false measurement
        (some 0xFFFF) (cfg_scalar 0 0)
    ∷ reg "start_timer" "Start Timer" (some "s") "timers" 156 1 1 false measurement (some 0xFFFF)
        (cfg_scalar 0 0)
    ∷ reg "reboot_timer" "Reboot Timer" (some "s") "timers" 157 2 1 false measurement
        (some 0xFFFFFFFF) (cfg_scalar 0 0)
    ∷ []

abbrev pub srt_identity_regs : List Descriptor
srt_identity_regs =
    reg "firmware_version" "Firmware Version" none "identity" 516 8 1 false identity none
      (cfg_string 16)
    ∷ reg "model_name" "Model Name" none "identity" 532 16 1 false identity none (cfg_string 32)
    ∷ reg "sku" "SKU" none "identity" 548 16 1 false identity none (cfg_string 32)
    ∷ reg "serial_number" "Serial Number" none "identity" 564 8 1 false identity none
        (cfg_string 16)
    ∷ reg "battery_sku" "Battery SKU" none "identity" 572 8 1 false identity none (cfg_string 16)
    ∷ reg "external_battery_sku" "External Battery SKU" none "identity" 580 8 1 false identity none
        (cfg_string 16)
    ∷ reg "nominal_apparent_power" "Nominal Apparent Power" (some "VA") "identity" 588 1 1 false
        identity none (cfg_scalar 0 0)
    ∷ reg "nominal_real_power" "Nominal Real Power" (some "W") "identity" 589 1 1 false identity
        none (cfg_scalar 0 0)
    ∷ reg "sog_relay_config" "Outlet Group Relay Configuration" none "identity" 590 1 1 false
        identity none (cfg_flags srt_sog_relay_config_opts)
    ∷ []

abbrev pub srt_names_regs : List Descriptor
srt_names_regs =
    reg "ups_name" "UPS Name" none "names" 596 8 1 true config none (cfg_string 16)
    ∷ reg "mog_name" "MOG Name" none "names" 604 8 1 true config none (cfg_string 16)
    ∷ reg "sog0_name" "SOG0 Name" none "names" 612 8 1 true config none (cfg_string 16)
    ∷ reg "sog1_name" "SOG1 Name" none "names" 620 8 1 true config none (cfg_string 16)
    ∷ reg "sog2_name" "SOG2 Name" none "names" 628 8 1 true config none (cfg_string 16)
    ∷ []

abbrev pub srt_config_regs : List Descriptor
srt_config_regs =
    srt_settings_regs
    ++ (srt_status_regs ++ (srt_measurements_regs ++ (srt_identity_regs ++ (srt_names_regs))))
