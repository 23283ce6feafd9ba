-- ===== src/Http/StatusPage.antt =====
-- The status document of src/api/routes/routes.c, which /api/status answers with and `api_state_emit` sends to the
-- streams: its paths and values in the order in which they are added. Adding to the builder succeeds.
pub mod Page
use airies_ups_c.Base.{
  ℕ, Bool, true, false, not, Option, none, some, List, [], ◌∷◌, ◌++◌, String, ◌==◌, ltb,
  if◌then◌else◌,
}
use airies_ups_c.Base.Bits.{has}
use airies_ups_c.Base.Double.{Double}
use airies_ups_c.Base.Int.{ℤ, pos}
use airies_ups_c.Base.Text.{bytes}
use airies_ups_c.Ups.Data.{UpsData}
use airies_ups_c.Ups.Exchange.{Inventory}
use airies_ups_c.Ups.Format.{
  ups_status_str, ups_transfer_reason_str, ups_decode_general_errors, ups_decode_power_errors,
  ups_decode_battery_errors,
}

-- A value of the document; `texts` is an array.
pub data Value (R : Type 0) : Type 0 where
  text : List ℕ → Value R
  texts : List String → Value R
  word : ℕ → Value R
  signed : ℤ → Value R
  real : R → Value R
  flag : Bool → Value R
  null : Value R

abbrev pub Document : Type 0 → Type 0
Document R = List (String × Value R)

-- The fields of `ups_data_t` that only the document reads.
pub record Extra : Type 0 where
  pub outlet_mog : ℕ
  pub outlet_sog0 : ℕ
  pub outlet_sog1 : ℕ
  pub output_energy_wh : ℕ
  pub bypass_status : ℕ
  pub input_status : ℕ
  pub rt_cal_status : ℕ
  pub timer_shutdown : ℤ
  pub timer_start : ℤ
  pub timer_reboot : ℤ

-- UPS_TOPO_ONLINE_DOUBLE, UPS_TOPO_LINE_INTERACTIVE, UPS_TOPO_STANDBY
pub topology_text : ℕ → String
topology_text topology =
    if topology == 0
    then "online_double"
    else if topology == 1
    then "line_interactive"
    else if topology == 2
    then "standby"
    else "unknown"

abbrev capability_names : List (ℕ × String)
capability_names =
    (1, "shutdown")
    ∷ (2, "battery_test")
    ∷ (4, "runtime_cal")
    ∷ (8, "clear_faults")
    ∷ (16, "mute")
    ∷ (32, "beep")
    ∷ (64, "bypass")
    ∷ (128, "freq_tolerance")
    ∷ (256, "he_mode")
    ∷ []

pub capabilities : ℕ → List (ℕ × String) → List String
capabilities caps [] = []
capabilities caps ((cap, name) ∷ names) =
    let rest = capabilities caps names in if has caps cap then name ∷ rest else rest

abbrev pub name_entry : {R : Type 0} → Option (List ℕ) → Document R
name_entry none = []
name_entry (some []) = []
name_entry (some (c ∷ name)) = ("name", text (c ∷ name)) ∷ []

abbrev pub absent_entries : {R : Type 0} → Document R
absent_entries =
    ("driver", text (bytes "none"))
    ∷ ("connected", flag false)
    ∷ ("message", text (bytes "no UPS connected"))
    ∷ []

module _ (F : Double) where
  open F use {Real, eq_real}

  -- What the context, the monitor, the driver and the configuration answer; `status` is `none` before the first
  -- reading.
  pub record Inputs : Type 0 where
    pub ups_name : Option (List ℕ)
    pub has_ups : Bool
    pub driver_name : List ℕ
    pub connected : Bool
    pub topology : ℕ
    pub inventory : Inventory
    pub status : Option (UpsData Real × Extra)
    pub voltage_high : ℤ
    pub voltage_low : ℤ
    pub transfer_high : ℕ
    pub transfer_low : ℕ
    pub warn_offset : ℤ
    pub inhibited : Bool
    pub inhibit_source : List ℕ
    pub caps : ℕ

  -- isnan
  abbrev pub is_nan : Real → Bool
  is_nan r = not (eq_real r r)

  abbrev pub device_entries : Inputs → Document Real
  device_entries i =
      ("driver", text i.driver_name)
      ∷ ("connected", flag i.connected)
      ∷ ("topology", text (bytes (topology_text i.topology)))
      ∷ ("inventory.model", text i.inventory.model)
      ∷ ("inventory.sku", text i.inventory.sku)
      ∷ ("inventory.serial", text i.inventory.serial)
      ∷ ("inventory.firmware", text i.inventory.firmware)
      ∷ ("inventory.nominal_va", word i.inventory.nominal_va)
      ∷ ("inventory.nominal_watts", word i.inventory.nominal_watts)
      ∷ ("inventory.sog_config", word i.inventory.sog_config)
      ∷ []

  abbrev pub or_null : Bool → Real → Value Real
  or_null true r = null
  or_null false r = real r

  abbrev pub transfer_entries : Bool → Inputs → Document Real
  transfer_entries false i = []
  transfer_entries true i =
      ("input.transfer_high", signed (pos i.transfer_high))
      ∷ ("input.transfer_low", signed (pos i.transfer_low))
      ∷ ("input.warn_offset", signed i.warn_offset)
      ∷ []

  abbrev pub inhibit_entries : Bool → Inputs → Document Real
  inhibit_entries false i = []
  inhibit_entries true i =
      ("he_mode.inhibited", flag true) ∷ ("he_mode.source", text i.inhibit_source) ∷ []

  -- The entries of a reading, by whether each frequency is NaN, a threshold is cached, and the mode is inhibited.
  pub reading_entries :
      (out_nan bypass_nan cached inhibited : Bool) → Inputs → UpsData Real → Extra → Document Real
  reading_entries out_nan bypass_nan cached inhibited i s x =
      ("status.raw", word s.status)
      ∷ ("status.text", text (ups_status_str s.status 256))
      ∷ ("battery.charge_pct", real s.charge_pct)
      ∷ ("battery.voltage", real s.battery_voltage)
      ∷ ("battery.runtime_sec", word s.runtime_sec)
      ∷ ("output.voltage", real s.output_voltage)
      ∷ ("output.frequency", or_null out_nan s.output_frequency)
      ∷ ("output.current", real s.output_current)
      ∷ ("output.load_pct", real s.load_pct)
      ∷ ("output.energy_wh", word x.output_energy_wh)
      ∷ ("outlets.mog", word x.outlet_mog)
      ∷ ("outlets.sog0", word x.outlet_sog0)
      ∷ ("outlets.sog1", word x.outlet_sog1)
      ∷ ("bypass.voltage", real s.bypass_voltage)
      ∷ ("bypass.frequency", or_null bypass_nan s.bypass_frequency)
      ∷ ("bypass.status", word x.bypass_status)
      ∷ ("bypass.voltage_high", signed i.voltage_high)
      ∷ ("bypass.voltage_low", signed i.voltage_low)
      ∷ ("input.voltage", real s.input_voltage)
      ∷ ("input.status", word x.input_status)
      ∷ (transfer_entries cached i
          ++ (("efficiency.value", real s.efficiency)
              ∷ ("efficiency.reason", word s.efficiency_reason)
              ∷ ("efficiency.valid", flag (s.efficiency_reason == 0))
              ∷ ("transfer_reason", text (bytes (ups_transfer_reason_str s.transfer_reason)))
              ∷ ("errors.general", word s.general_error)
              ∷ ("errors.power_system", word s.power_system_error)
              ∷ ("errors.battery_system", word s.bat_system_error)
              ∷ ("errors.general_detail", texts (ups_decode_general_errors s.general_error 16))
              ∷ (
                "errors.power_system_detail",
                texts (ups_decode_power_errors s.power_system_error 16),
              )
              ∷ (
                "errors.battery_system_detail",
                texts (ups_decode_battery_errors s.bat_system_error 16),
              )
              ∷ ("bat_test_status", word s.bat_test_status)
              ∷ ("rt_cal_status", word x.rt_cal_status)
              ∷ ("bat_lifetime_status", word s.bat_lifetime_status)
              ∷ ("timers.shutdown", signed x.timer_shutdown)
              ∷ ("timers.start", signed x.timer_start)
              ∷ ("timers.reboot", signed x.timer_reboot)
              ∷ inhibit_entries inhibited i))

  pub status_entries : Inputs → Option (UpsData Real × Extra) → Document Real
  unfolding reading_entries
  status_entries i none = []
  status_entries i (some (s, x)) =
      reading_entries (is_nan s.output_frequency) (is_nan s.bypass_frequency)
        (ltb 0 i.transfer_high) i.inhibited i s x

  pub build_status_into_resp : Inputs → Document Real
  unfolding status_entries capabilities
  build_status_into_resp i =
      name_entry i.ups_name
      ++ (if not i.has_ups
          then absent_entries
          else device_entries i
            ++ (status_entries i i.status
                ++ (("capabilities", texts (capabilities i.caps capability_names)) ∷ [])))
