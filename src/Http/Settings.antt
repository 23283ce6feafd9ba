-- ===== src/Http/Settings.antt =====
-- `handle_config_ups_set` of src/api/routes/config.c: a register is set over the API. What the parser of the
-- body answers is an argument; the answer's JSON is left out, but for its result.
pub mod Written
use airies_ups_c.Base.{
  ℕ, Bool, true, not, ◌&&◌, ◌||◌, Option, none, some, List, ◌==◌, if◌then◌else◌,
}
use airies_ups_c.Base.Text.{bytes}
use airies_ups_c.Base.Int.{ℤ, pos_part, neg_part}
use airies_ups_c.Auth.{same_text}
use airies_ups_c.Ups.Connection.{Connection, Driver, Answers, is_ok}
use airies_ups_c.Ups.Connection.Write.{ups_config_write}
use airies_ups_c.Ups.Registers.{Descriptor, config_reg, ups_find_config_reg}

-- The UPS of the context: its registers, whether they are the copies in `resolved_regs`, and what its driver and connection do. `readback` is what the read
-- after the write gives, `none` if it fails.
pub record Target : Type 0 where
  pub regs : List Descriptor
  pub resolved : Bool
  pub driver : Driver
  pub answers : Answers
  pub now : ℕ
  pub connection : Connection
  pub has_config_write : Bool
  pub readback : Option ℕ

-- The body: missing, no JSON, without the two fields in their ranges, or a name and a value below 65536.
pub data SetBody : Type 0 where
  no_body : SetBody
  invalid_json : SetBody
  missing_fields : SetBody
  set_to : List ℕ → ℕ → SetBody

-- An error's status; the 400 with the register's limits; or 200 with "written" or "rejected", the value read
-- back (it is kept in the table ups_config too) and whether the thresholds are read again.
pub data SetAnswer : Type 0 where
  failed : ℕ → SetAnswer
  out_of_range : Descriptor → ℕ → SetAnswer
  answered : (written : Bool) → Descriptor → (readback : ℕ) → (refreshed : Bool) → SetAnswer

abbrev pub or_zero : Option ℕ → ℕ
or_zero none = 0
or_zero (some v) = v

abbrev pub is_threshold : Descriptor → Bool
is_threshold d =
    same_text (bytes d.name) (bytes "transfer_high")
    || same_text (bytes d.name) (bytes "transfer_low")

-- The answer after the write, whose result is `rc`.
pub after_write : Target → Descriptor → ℕ → ℤ → SetAnswer
unfolding same_text
after_write t d value rc =
    if is_ok rc
    then answered true d (or_zero t.readback) (is_threshold d)
    else answered (or_zero t.readback == value) d (or_zero t.readback) (is_threshold d)

-- The result code is UPS_ERR_INVALID_VALUE, -4.
abbrev pub is_invalid : ℤ → Bool
is_invalid rc = pos_part rc == 0 && neg_part rc == 4

write_register : Target → Descriptor → ℕ → Connection × ℤ × Option (ℕ × Bool)
write_register t d value =
    ups_config_write t.driver t.answers t.now t.connection t.has_config_write
      (config_reg t.resolved d) value

-- With the value that is handed to the driver, if one is, and whether its descriptor was freed before; the answer
-- reads the descriptor too, and is then without meaning.
pub set_found : Target → Option Descriptor → ℕ → SetAnswer × Option (ℕ × Bool)
unfolding after_write write_register
set_found t none value = (failed 404, none)
set_found t (some d) value =
    if not d.writable
    then (failed 400, none)
    else let wrote = write_register t d value in
      (if is_invalid wrote.1 then out_of_range d value else after_write t d value wrote.1, wrote.2)

unfoldable pub handle_config_ups_set : Option Target → SetBody → SetAnswer × Option (ℕ × Bool)
unfolding set_found
handle_config_ups_set none body = (failed 503, none)
handle_config_ups_set (some t) no_body = (failed 400, none)
handle_config_ups_set (some t) invalid_json = (failed 400, none)
handle_config_ups_set (some t) missing_fields = (failed 400, none)
handle_config_ups_set (some t) (set_to name value) =
    set_found t (ups_find_config_reg t.regs name) value
