-- ===== src/Ups/Pdc/Settings.antt =====
-- The commands and the settings of a HID power device, src/ups/hid_pdc_core.c. A write of a feature
-- report is its bytes and its outcome; a read of one is its outcome and its bytes.
pub mod Verified
use airies_ups_c.Base.{
  ℕ, ◌+◌, ◌-◌, ◌/◌, ◌%◌, ◌^◌, Bool, true, false, ◌&&◌, Option, none, some, List, [], ◌∷◌, ◌++◌,
  ◌==◌, ltb, if◌then◌else◌, take, drop, replicate,
}
use airies_ups_c.Base.Int.{ℤ, pos, negsuc}
use airies_ups_c.Ups.Hid.{Field}
use airies_ups_c.Ups.Hid.Value.{hid_field_read_raw}

-- The fields of `hid_pdc_fields_t` that the commands use.
pub record PdcFields : Type 0 where
  pub test : Option Field
  pub alarm_control : Option Field
  pub delay_before_shutdown : Option Field
  pub delay_before_startup : Option Field
  pub module_reset : Option Field

-- What a command does: the reports it writes, in order, and what it returns.
pub record Command : Type 0 where
  pub written : List (List ℕ)
  pub ok : Bool

abbrev refused : Command
refused = record { written = []; ok = false }

-- One write to a field; `done` is that `hid_pdc_set_feature` returns 0 or more.
pub write_to : Option Field → List ℕ → Bool → Command
write_to none bytes done = refused
write_to (some f) bytes done = record { written = (f.report_id ∷ bytes) ∷ []; ok = done }

-- The startup delay, whose outcome is not looked at, comes before the shutdown delay.
pub hid_pdc_cmd_shutdown : PdcFields → Bool → Command
unfolding write_to
hid_pdc_cmd_shutdown pdc done = elim pdc.delay_before_shutdown [
  | none ↦ refused
  | some f ↦ record {
    written =
        (write_to pdc.delay_before_startup (0 ∷ 0 ∷ []) true).written
        ++ (write_to (some f) (60 ∷ 0 ∷ []) done).written;
    ok = done;
  }
]

pub hid_pdc_cmd_abort_shutdown : PdcFields → Bool → Command
unfolding write_to
hid_pdc_cmd_abort_shutdown pdc done = write_to pdc.delay_before_shutdown (0xFF ∷ 0xFF ∷ []) done

pub hid_pdc_cmd_battery_test : PdcFields → Bool → Command
unfolding write_to
hid_pdc_cmd_battery_test pdc done = write_to pdc.test (1 ∷ []) done

pub hid_pdc_cmd_mute_alarm : PdcFields → Bool → Command
unfolding write_to
hid_pdc_cmd_mute_alarm pdc done = write_to pdc.alarm_control (3 ∷ []) done

pub hid_pdc_cmd_unmute_alarm : PdcFields → Bool → Command
unfolding write_to
hid_pdc_cmd_unmute_alarm pdc done = write_to pdc.alarm_control (2 ∷ []) done

pub hid_pdc_cmd_clear_faults : PdcFields → Bool → Command
unfolding write_to
hid_pdc_cmd_clear_faults pdc done = write_to pdc.module_reset (2 ∷ []) done

-- UPS_OK, UPS_ERR_IO and UPS_ERR_NOT_SUPPORTED, and an access outside an array or a shift out of range.
pub data Outcome : Type 0 where
  ups_ok : Outcome
  ups_err_io : Outcome
  ups_err_not_supported : Outcome
  undefined_behaviour : Outcome

-- `(uint32_t)val` of an int32_t.
abbrev pub to_u32 : ℤ → ℕ
to_u32 (pos n) = n
to_u32 (negsuc n) = 2 ^ 32 - 1 - n

-- `val & 0xFF` for a bitfield of more than a byte; `bitfield` is `reg->type == UPS_CFG_BITFIELD`.
pub masked : Bool → ℕ → ℤ → ℕ
masked bitfield bit_size val = if bitfield && ltb 8 bit_size then to_u32 val % 256 else to_u32 val

-- What a read of a setting gives: UPS_ERR_NOT_SUPPORTED, undefined behaviour, or UPS_OK and the value.
pub data Reading : Type 0 where
  not_supported : Reading
  unreadable : Reading
  reading : ℕ → Reading

pub hid_pdc_config_read_field : Option Field → Bool → Bool → List ℕ → Reading
unfolding masked
hid_pdc_config_read_field none bitfield ok buf = not_supported
hid_pdc_config_read_field (some f) bitfield ok buf = elim (hid_field_read_raw (some f) ok buf) [
  | none ↦ unreadable
  | some val ↦ reading (masked bitfield f.bit_size val)
]

abbrev pub data_bytes : Field → ℕ
data_bytes f = ((f.bit_size + 7) / 8) % 65536

-- The bytes to write, `cur` being the current report, none if its read fails.
pub value_report : Field → Bool → Option (List ℕ) → ℕ → Option (List ℕ)
value_report f true none value =
    if ltb 1 (data_bytes f)
    then none
    else some (take (1 + data_bytes f) (f.report_id ∷ value % 256 ∷ []))
value_report f true (some cur) value =
    if ltb 1 (data_bytes f)
    then some (take 1 cur ++ (value % 256 ∷ []) ++ drop 2 (take (1 + data_bytes f) cur))
    else some (take (1 + data_bytes f) (f.report_id ∷ value % 256 ∷ []))
value_report f false cur value = some (
    if ltb 1 (data_bytes f)
    then f.report_id ∷ value % 256 ∷ value / 256 % 256 ∷ replicate (data_bytes f - 2) 0
    else take (1 + data_bytes f) (f.report_id ∷ value % 256 ∷ []))

-- What a write of a setting sent, and how it ended.
pub record Write : Type 0 where
  pub sent : Option (List ℕ)
  pub outcome : Outcome

pub read_back : Reading → ℕ → Outcome
read_back not_supported value = ups_err_io
read_back unreadable value = undefined_behaviour
read_back (reading readback) value = if readback == value then ups_ok else ups_err_io

pub send : Field → Bool → Option (List ℕ) → ℕ → Bool → Bool → List ℕ → Write
unfolding read_back hid_pdc_config_read_field
send f bitfield none value done ok buf = record { sent = none; outcome = ups_err_io }
send f bitfield (some bytes) value done ok buf = record {
  sent = some bytes;
  outcome =
      if done
      then read_back (hid_pdc_config_read_field (some f) bitfield ok buf) value
      else ups_err_io;
}

-- `cur` is the read before the write, `done` the outcome of the write, `ok` and `buf` the read after it.
-- The two arrays hold 8 bytes.
pub hid_pdc_config_write_field :
    Option Field → Bool → (cur : Option (List ℕ)) → ℕ → (done ok : Bool) → (buf : List ℕ) → Write
unfolding send value_report
hid_pdc_config_write_field none bitfield cur value done ok buf = record {
  sent = none;
  outcome = ups_err_not_supported;
}
hid_pdc_config_write_field (some f) bitfield cur value done ok buf =
    if ltb 7 (data_bytes f)
    then record { sent = none; outcome = undefined_behaviour }
    else send f bitfield (value_report f bitfield cur value) value done ok buf
