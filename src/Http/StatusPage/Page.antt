-- ===== src/Http/StatusPage/Page.antt =====
-- What the page's type `UpsStatus` (src/frontend/src/types/ups.ts) finds in the status document of
-- src/api/routes/routes.c. A path of the document is a path into the JSON object.
use airies_ups_c.Base.{
  ℕ, Bool, true, false, Option, none, some, List, [], ◌∷◌, ◌++◌, String, if◌then◌else◌,
}
use airies_ups_c.Base.Double.{Double}
use airies_ups_c.Base.Int.{pos}
use airies_ups_c.Base.Text.{bytes}
use airies_ups_c.Http.StatusPage.{
  Value, text, texts, word, signed, real, flag, null, Document, Extra, Inputs, device_entries,
  reading_entries, topology_text, capabilities, capability_names,
}
use airies_ups_c.Ups.Data.{UpsData}
use airies_ups_c.Ups.Format.{
  ups_status_str, ups_transfer_reason_str, ups_decode_general_errors, ups_decode_power_errors,
  ups_decode_battery_errors,
}
use package.text.Mathlib.Text.{◌==◌ as str_eq}

-- What stands at a path.
abbrev pub value_at : {R : Type 0} → String → Document R → Option (Value R)
value_at path [] = none
value_at path ((p, v) ∷ entries) =
    let rest = value_at path entries in if str_eq path p then some v else rest

-- A reader of the document: each path with what stands there, if anything does.
abbrev pub reads : {R : Type 0} → List String → Document R → List (String × Option (Value R))
reads [] doc = []
reads (path ∷ paths) doc = (path, value_at path doc) ∷ reads paths doc

-- The paths of the members of `UpsStatus`, but for the name.
abbrev pub page_paths : List String
page_paths =
    "driver" ∷ "topology" ∷ "connected" ∷ "message" ∷ "inventory.model" ∷ "inventory.sku"
    ∷ "inventory.serial" ∷ "inventory.firmware" ∷ "inventory.nominal_va" ∷ "inventory.nominal_watts"
    ∷ "inventory.sog_config" ∷ "status.raw" ∷ "status.text" ∷ "battery.charge_pct"
    ∷ "battery.voltage" ∷ "battery.runtime_sec" ∷ "output.voltage" ∷ "output.frequency"
    ∷ "output.current" ∷ "output.load_pct" ∷ "output.energy_wh" ∷ "outlets.mog" ∷ "outlets.sog0"
    ∷ "outlets.sog1" ∷ "bypass.voltage" ∷ "bypass.frequency" ∷ "bypass.status" ∷ "input.voltage"
    ∷ "input.status" ∷ "input.transfer_high" ∷ "input.transfer_low" ∷ "input.warn_offset"
    ∷ "errors.general" ∷ "errors.power_system" ∷ "errors.battery_system" ∷ "errors.general_detail"
    ∷ "errors.power_system_detail" ∷ "errors.battery_system_detail" ∷ "timers.shutdown"
    ∷ "timers.start" ∷ "timers.reboot" ∷ "efficiency" ∷ "transfer_reason" ∷ "bat_test_status"
    ∷ "rt_cal_status" ∷ "bat_lifetime_status" ∷ "capabilities" ∷ "he_mode.inhibited"
    ∷ "he_mode.source" ∷ []

abbrev tail : {A : Type 0} → List A → List A
tail [] = []
tail (a ∷ as') = as'

-- The name, if one is set.
abbrev pub name_member : {R : Type 0} → Option (List ℕ) → Option (Value R)
name_member none = none
name_member (some []) = none
name_member (some (c ∷ name)) = some (text (c ∷ name))

abbrev pub only_if : {R : Type 0} → Bool → Value R → Option (Value R)
only_if true v = some v
only_if false v = none

module _ (F : Double) where
  open F use {Real}

  abbrev pub frequency : Bool → Real → Value Real
  frequency true hz = null
  frequency false hz = real hz

  -- The members of `UpsStatus`, as it lists them, and what they are to be, by whether the frequencies are NaN, the
  -- thresholds known, and the mode inhibited.
  abbrev pub page_members :
      (out_nan bypass_nan known inhibited : Bool)
      → Inputs F
      → UpsData Real
      → Extra
      → List (String × Option (Value Real))
  page_members out_nan bypass_nan known inhibited i s x =
      ("driver", some (text i.driver_name))
      ∷ ("topology", some (text (bytes (topology_text i.topology))))
      ∷ ("connected", some (flag i.connected))
      ∷ ("message", none)
      ∷ ("inventory.model", some (text i.inventory.model))
      ∷ ("inventory.sku", some (text i.inventory.sku))
      ∷ ("inventory.serial", some (text i.inventory.serial))
      ∷ ("inventory.firmware", some (text i.inventory.firmware))
      ∷ ("inventory.nominal_va", some (word i.inventory.nominal_va))
      ∷ ("inventory.nominal_watts", some (word i.inventory.nominal_watts))
      ∷ ("inventory.sog_config", some (word i.inventory.sog_config))
      ∷ ("status.raw", some (word s.status))
      ∷ ("status.text", some (text (ups_status_str s.status 256)))
      ∷ ("battery.charge_pct", some (real s.charge_pct))
      ∷ ("battery.voltage", some (real s.battery_voltage))
      ∷ ("battery.runtime_sec", some (word s.runtime_sec))
      ∷ ("output.voltage", some (real s.output_voltage))
      ∷ ("output.frequency", some (frequency out_nan s.output_frequency))
      ∷ ("output.current", some (real s.output_current))
      ∷ ("output.load_pct", some (real s.load_pct))
      ∷ ("output.energy_wh", some (word x.output_energy_wh))
      ∷ ("outlets.mog", some (word x.outlet_mog))
      ∷ ("outlets.sog0", some (word x.outlet_sog0))
      ∷ ("outlets.sog1", some (word x.outlet_sog1))
      ∷ ("bypass.voltage", some (real s.bypass_voltage))
      ∷ ("bypass.frequency", some (frequency bypass_nan s.bypass_frequency))
      ∷ ("bypass.status", some (word x.bypass_status))
      ∷ ("input.voltage", some (real s.input_voltage))
      ∷ ("input.status", some (word x.input_status))
      ∷ ("input.transfer_high", only_if known (signed (pos i.transfer_high)))
      ∷ ("input.transfer_low", only_if known (signed (pos i.transfer_low)))
      ∷ ("input.warn_offset", only_if known (signed i.warn_offset))
      ∷ ("errors.general", some (word s.general_error))
      ∷ ("errors.power_system", some (word s.power_system_error))
      ∷ ("errors.battery_system", some (word s.bat_system_error))
      ∷ ("errors.general_detail", some (texts (ups_decode_general_errors s.general_error 16)))
      ∷ (
        "errors.power_system_detail",
        some (texts (ups_decode_power_errors s.power_system_error 16)),
      )
      ∷ (
        "errors.battery_system_detail",
        some (texts (ups_decode_battery_errors s.bat_system_error 16)),
      )
      ∷ ("timers.shutdown", some (signed x.timer_shutdown))
      ∷ ("timers.start", some (signed x.timer_start))
      ∷ ("timers.reboot", some (signed x.timer_reboot))
      ∷ ("efficiency", none)
      ∷ ("transfer_reason", some (text (bytes (ups_transfer_reason_str s.transfer_reason))))
      ∷ ("bat_test_status", some (word s.bat_test_status))
      ∷ ("rt_cal_status", some (word x.rt_cal_status))
      ∷ ("bat_lifetime_status", some (word s.bat_lifetime_status))
      ∷ ("capabilities", some (texts (capabilities i.caps capability_names)))
      ∷ ("he_mode.inhibited", only_if inhibited (flag true))
      ∷ ("he_mode.source", only_if inhibited (text i.inhibit_source))
      ∷ []

  -- The document without the name, by the four questions.
  abbrev unnamed : (a b c e : Bool) → Inputs F → UpsData Real → Extra → Document Real
  unnamed a b c e i s x =
      device_entries F i
      ++ (reading_entries F a b c e i s x
          ++ (("capabilities", texts (capabilities i.caps capability_names)) ∷ []))
