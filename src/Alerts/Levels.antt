-- ===== src/Alerts/Levels.antt =====
-- The hysteresis of the alert engine of src/alerts/alerts.c over runs of readings.
use airies_ups_c.Base.{◌&&◌, ◌∙◌, ◌≡◌, refl, true, false, not, List, [], ◌∷◌, some, arith}
use airies_ups_c.Base.Bits.{has}
use airies_ups_c.Ups.Flags.{ups_st_online}
use airies_ups_c.Alerts.{
  notice, check_threshold_alert, alerts_check, is_input_high, is_input_low, next_input_high,
  next_input_low, check_battery_low, AlertState, AlertThresholds, AlertConfig,
}
use airies_ups_c.Base.Int.{pos, ◌+ℤ◌, ◌-ℤ◌}
use airies_ups_c.Base.Double.{Double}
use airies_ups_c.Ups.Data.{UpsData}

module _ (d : Double) (cfg : AlertConfig) (t : AlertThresholds) where
  open d use {Real, lt_real, add_real, sub_real, of_int}

  -- The state after the checks of some readings, the first one first.
  unfoldable pub run : AlertState Real → List (UpsData Real) → AlertState Real
  run s [] = s
  run s (now ∷ later) = run (alerts_check d s now (some t) cfg).state later

  -- Every reading is above the level that clears the alert, and not above the one that raises it.
  abbrev pub InHighBand : List (UpsData Real) → Type 0
  InHighBand [] = Unit {0}
  InHighBand (now ∷ later) =
      (lt_real
          (sub_real (of_int (pos t.transfer_high -ℤ cfg.voltage_warn_offset))
            (of_int cfg.voltage_deadband))
          now.input_voltage
        ≡ true)
      × (lt_real (of_int (pos t.transfer_high -ℤ cfg.voltage_warn_offset)) now.input_voltage
          ≡ false)
      × InHighBand later

  abbrev pub InLowBand : List (UpsData Real) → Type 0
  InLowBand [] = Unit {0}
  InLowBand (now ∷ later) =
      (lt_real now.input_voltage (
          add_real (of_int (pos t.transfer_low +ℤ cfg.voltage_warn_offset))
            (of_int cfg.voltage_deadband))
        ≡ true)
      × (lt_real now.input_voltage (of_int (pos t.transfer_low +ℤ cfg.voltage_warn_offset)) ≡ false)
      × InLowBand later

  high_once :
      (s : AlertState Real) (now : UpsData Real)
      → InHighBand (now ∷ [])
      → (alerts_check d s now (some t) cfg).state.input_high ≡ s.input_high
  unfolding alerts_check next_input_high is_input_high
  high_once s now h = ground (arith, h.0, h.1)

  low_once :
      (s : AlertState Real) (now : UpsData Real)
      → InLowBand (now ∷ [])
      → (alerts_check d s now (some t) cfg).state.input_low ≡ s.input_low
  unfolding alerts_check next_input_low is_input_low
  low_once s now h = ground (arith, h.0, h.1)

  -- The deadband works: while the input voltage stays between the level that clears the high alert
  -- and the one that raises it, the alert stays what it was, however many checks are made.
  pub high_band_quiet :
      (s : AlertState Real) (readings : List (UpsData Real))
      → InHighBand readings
      → (run s readings).input_high ≡ s.input_high
  unfolding run
  high_band_quiet s [] h = refl
  high_band_quiet s (now ∷ later) h =
      high_band_quiet (alerts_check d s now (some t) cfg).state later h.2
      ∙ high_once s now (h.0, h.1, tt)

  -- While the input voltage stays between the level that raises the low alert and the one that clears
  -- it, the low alert stays what it was, however many checks are made.
  pub low_band_quiet :
      (s : AlertState Real) (readings : List (UpsData Real))
      → InLowBand readings
      → (run s readings).input_low ≡ s.input_low
  unfolding run
  low_band_quiet s [] h = refl
  low_band_quiet s (now ∷ later) h =
      low_band_quiet (alerts_check d s now (some t) cfg).state later h.2
      ∙ low_once s now (h.0, h.1, tt)

  -- The battery alert is notified exactly when its flag changes, "UPS Battery Low" when it rises and
  -- "UPS Battery Normal" when it falls, as `check_threshold_alert` does for the other alerts; while it
  -- is up it stays up exactly if the charge is below the limit, the UPS on line, and the charge not
  -- above the one before.
  pub battery_low_edge :
      (s : AlertState Real) (now : UpsData Real)
      → ((check_battery_low d cfg s now).1
          ≡ check_threshold_alert s.bat_low
              (check_battery_low d cfg s now).0
              (notice "warning" "power" "UPS Battery Low")
              (notice "info" "power" "UPS Battery Normal"))
        × ((s.bat_low && (check_battery_low d cfg s now).0) ≡ (
            s.bat_low
            && (lt_real now.charge_pct (of_int cfg.battery_low_pct)
                && has now.status ups_st_online
                && not (lt_real s.prev_charge now.charge_pct))))
  unfolding check_battery_low check_threshold_alert
  battery_low_edge s now = (ground arith, ground arith)
