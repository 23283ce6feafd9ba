-- ===== src/Alerts.antt =====
-- The alert engine of src/alerts/alerts.c. `notify` is a list of the notices it is called with;
-- numbers printed into a notice's body are left out, names of error bits kept.
pub mod Transitions
pub mod Naming
pub mod Levels
use airies_ups_c.Base.{
  ℕ, bit_and, bit_or, bit_xor, ltb, String, Bool, true, false, not, ◌&&◌, ◌||◌, Option, none, some,
  List, [], ◌∷◌, ◌++◌, map, ◌==◌, if◌then◌else◌,
}
use airies_ups_c.Base.Bits.{has}
use airies_ups_c.Base.Int.{ℤ, pos, negsuc, ◌+ℤ◌, ◌-ℤ◌}
use airies_ups_c.Base.Double.{Double}
use airies_ups_c.Ups.Data.{UpsData}
use airies_ups_c.Ups.Flags.{ups_st_online, ups_st_fault, ups_st_overload, ups_baterr_replace}
use airies_ups_c.Ups.Format.{
  ups_decode_general_errors, ups_decode_power_errors, ups_decode_battery_errors,
}
use airies_ups_c.Monitor.SlowPoll.{Snapshot}

pub record Notice : Type 0 where
  pub severity : String
  pub category : String
  pub title : String
  pub detail : Option String  -- the name of the error bit in the body

pub record AlertState (R : Type 0) : Type 0 where
  pub overload : Bool
  pub fault : Bool
  pub bat_replace : Bool
  pub input_high : Bool
  pub input_low : Bool
  pub load_high : Bool
  pub bat_low : Bool
  pub prev_charge : R
  pub prev_general_error : ℕ  -- uint16_t
  pub prev_power_error : ℕ  -- uint32_t
  pub prev_battery_error : ℕ  -- uint16_t

pub record AlertThresholds : Type 0 where
  pub transfer_high : ℕ  -- uint16_t
  pub transfer_low : ℕ  -- uint16_t

pub record AlertConfig : Type 0 where
  pub load_high_pct : ℤ
  pub battery_low_pct : ℤ
  pub voltage_warn_offset : ℤ
  pub voltage_deadband : ℤ

abbrev pub notice : String → String → String → Notice
notice severity category title = record {
  severity = severity;
  category = category;
  title = title;
  detail = none;
}

-- `check_threshold_alert`, and the notices of `check_bit_alert`: the flag before, the flag now.
pub check_threshold_alert : Bool → Bool → Notice → Notice → List Notice
check_threshold_alert prev current on off =
    if current && not prev then on ∷ [] else if not current && prev then off ∷ [] else []

-- The bit that `check_bit_alert` returns.
pub check_bit_alert : Bool → Bool → ℕ → ℕ
check_bit_alert prev current bit =
    if current && not prev then bit else if not current && prev then bit else 0

-- The bits of `a` that are not in `b`, with C's `~` on words whose bits are `ones`.
abbrev pub without : ℕ → ℕ → ℕ → ℕ
without ones a b = bit_and a (bit_xor b ones)

-- One error register: the decoder's names of what is new, then of what went away. `on` and `off` make
-- the notice of a name.
pub check_register :
    ℕ → (ℕ → ℕ → List String) → (String → Notice) → (String → Notice) → ℕ → ℕ → List Notice
check_register ones decode on off prev now =
    (if without ones now prev == 0 then [] else map on (decode (without ones now prev) 16))
    ++ (if without ones prev now == 0 then [] else map off (decode (without ones prev now) 16))

abbrev pub named : String → String → String → String → Notice
named severity category title name = record {
  severity = severity;
  category = category;
  title = title;
  detail = some name;
}

abbrev pub general_on : String → Notice
general_on = named "error" "system" "UPS General Error"

abbrev pub general_off : String → Notice
general_off = named "info" "system" "UPS General Error Cleared"

abbrev pub power_on : String → Notice
power_on = named "error" "fault" "UPS Power System Error"

abbrev pub power_off : String → Notice
power_off = named "info" "fault" "UPS Power System Error Cleared"

abbrev pub battery_on : String → Notice
battery_on = named "error" "system" "UPS Battery Error"

abbrev pub battery_off : String → Notice
battery_off = named "info" "system" "UPS Battery Error Cleared"

module _ (d : Double) where
  open d use {Real, lt_real, le_real, add_real, sub_real, of_int}

  pub alerts_init : AlertState Real
  alerts_init = record {
    overload = false;
    fault = false;
    bat_replace = false;
    input_high = false;
    input_low = false;
    load_high = false;
    bat_low = false;
    prev_charge = of_int (negsuc 0);
    prev_general_error = 0;
    prev_power_error = 0;
    prev_battery_error = 0;
  }

  pub alerts_seed_from_snapshot : AlertState Real → Snapshot → AlertState Real
  alerts_seed_from_snapshot s snap = record s {
    overload = has snap.status ups_st_overload;
    fault = has snap.status ups_st_fault;
    bat_replace = has snap.bat_system_error ups_baterr_replace;
    prev_general_error = snap.general_error;
    prev_power_error = snap.power_system_error;
    prev_battery_error = snap.bat_system_error;
  }

  -- The comparison with the enter or the clear level; the enter level is an `int`.
  pub is_input_high : Bool → AlertConfig → ℕ → Real → Bool
  is_input_high active cfg transfer_high voltage =
      let enter = of_int (pos transfer_high -ℤ cfg.voltage_warn_offset) in
      if active
      then lt_real (sub_real enter (of_int cfg.voltage_deadband)) voltage
      else lt_real enter voltage

  pub is_input_low : Bool → AlertConfig → ℕ → Real → Bool
  is_input_low active cfg transfer_low voltage =
      let enter = of_int (pos transfer_low +ℤ cfg.voltage_warn_offset) in
      if active
      then lt_real voltage (add_real enter (of_int cfg.voltage_deadband))
      else lt_real voltage enter

  -- The flag after the check, `thresh` being NULL or not.
  pub next_input_high : AlertConfig → Option AlertThresholds → Bool → Real → Bool
  unfolding is_input_high
  next_input_high cfg none active voltage = active
  next_input_high cfg (some t) active voltage =
      if ltb 0 t.transfer_high then is_input_high active cfg t.transfer_high voltage else active

  pub next_input_low : AlertConfig → Option AlertThresholds → Bool → Real → Bool
  unfolding is_input_low
  next_input_low cfg none active voltage = active
  next_input_low cfg (some t) active voltage =
      if ltb 0 t.transfer_low then is_input_low active cfg t.transfer_low voltage else active

  -- Battery low: the flag after the check, and the notices.
  pub check_battery_low : AlertConfig → AlertState Real → UpsData Real → Bool × List Notice
  check_battery_low cfg s now =
      let below = lt_real now.charge_pct (of_int cfg.battery_low_pct) in
      let online = has now.status ups_st_online in
      let not_rising =
        le_real (of_int (pos 0)) s.prev_charge && le_real now.charge_pct s.prev_charge in
      let recovered =
        s.bat_low && (not below || not online || lt_real s.prev_charge now.charge_pct) in
      if below && online && not_rising && not s.bat_low
      then (true, notice "warning" "power" "UPS Battery Low" ∷ [])
      else if recovered
      then (false, notice "info" "power" "UPS Battery Normal" ∷ [])
      else (s.bat_low, [])

  pub record Checked : Type 0 where
    pub state : AlertState Real
    pub alerted : ℕ
    pub notices : List Notice

  -- The notices of overload, fault and battery replacement.
  pub bit_notices : AlertState Real → UpsData Real → List Notice
  unfolding check_threshold_alert
  bit_notices s now =
      check_threshold_alert s.overload (has now.status ups_st_overload)
        (notice "error" "fault" "UPS Overload") (notice "info" "fault" "UPS Overload Cleared")
      ++ (check_threshold_alert s.fault (has now.status ups_st_fault)
            (notice "error" "fault" "UPS Fault") (notice "info" "fault" "UPS Fault Cleared")
          ++ check_threshold_alert s.bat_replace (has now.bat_system_error ups_baterr_replace)
              (notice "error" "system" "UPS Battery Replace Required")
              (notice "info" "system" "UPS Battery Error Cleared"))

  -- The notices of input voltage, load and charge. Where `thresh` is NULL or 0 the input flags stay
  -- and nothing is notified.
  pub level_notices :
      AlertConfig → Option AlertThresholds → AlertState Real → UpsData Real → List Notice
  unfolding check_threshold_alert next_input_high next_input_low check_battery_low
  level_notices cfg thresh s now =
      check_threshold_alert s.input_high (next_input_high cfg thresh s.input_high now.input_voltage)
        (notice "warning" "power" "UPS Input Voltage High")
        (notice "info" "power" "UPS Input Voltage Normal")
      ++ (check_threshold_alert s.input_low
            (next_input_low cfg thresh s.input_low now.input_voltage)
            (notice "warning" "power" "UPS Input Voltage Low")
            (notice "info" "power" "UPS Input Voltage Normal")
          ++ (check_threshold_alert s.load_high (lt_real (of_int cfg.load_high_pct) now.load_pct)
                (notice "warning" "power" "UPS Load High") (notice "info" "power" "UPS Load Normal")
              ++ (check_battery_low cfg s now).1))

  -- The three registers; `uint16_t`, `uint32_t`, `uint16_t`.
  pub register_notices : AlertState Real → UpsData Real → List Notice
  unfolding check_register
  register_notices s now =
      check_register 0xffff ups_decode_general_errors general_on general_off s.prev_general_error
        now.general_error
      ++ (check_register 0xffffffff ups_decode_power_errors power_on power_off s.prev_power_error
            now.power_system_error
          ++ check_register 0xffff ups_decode_battery_errors battery_on battery_off
              s.prev_battery_error now.bat_system_error)

  pub alerts_check : AlertState Real → UpsData Real → Option AlertThresholds → AlertConfig → Checked
  unfolding bit_notices level_notices register_notices check_bit_alert next_input_high
      next_input_low check_battery_low
  alerts_check s now thresh cfg = record {
    state = record {
      overload = has now.status ups_st_overload;
      fault = has now.status ups_st_fault;
      bat_replace = has now.bat_system_error ups_baterr_replace;
      input_high = next_input_high cfg thresh s.input_high now.input_voltage;
      input_low = next_input_low cfg thresh s.input_low now.input_voltage;
      load_high = lt_real (of_int cfg.load_high_pct) now.load_pct;
      bat_low = (check_battery_low cfg s now).0;
      prev_charge = now.charge_pct;
      prev_general_error = now.general_error;
      prev_power_error = now.power_system_error;
      prev_battery_error = now.bat_system_error;
    };
    alerted =
        bit_or (check_bit_alert s.overload (has now.status ups_st_overload) ups_st_overload)
          (check_bit_alert s.fault (has now.status ups_st_fault) ups_st_fault);
    notices = bit_notices s now ++ (level_notices cfg thresh s now ++ register_notices s now);
  }
