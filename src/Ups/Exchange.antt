-- ===== src/Ups/Exchange.antt =====
-- The other exchanges of src/ups/ups_smt.c and src/ups/ups_srt.c: inventory, thresholds, settings, commands. The
-- two drivers have the same bodies; a function that is not named for one of them stands for both.
pub mod Verified
use mathlib.Core.Option
use airies_ups_c.Base.{
  ℕ, Bool, true, false, not, ◌&&◌, Option, none, some, List, [], ◌∷◌, ◌==◌, ltb, leb, if◌then◌else◌,
  String, take, drop,
}
use airies_ups_c.Base.Text.{bytes, strstr, is_some}
use airies_ups_c.Ups.RegisterText.{smt_str_decode, c_string, high_byte, low_byte}
use airies_ups_c.Ups.Connect.{CmdDesc}
use airies_ups_c.Ups.Registers.{Descriptor, Kind, cfg_string}
use airies_ups_c.Ups.Blocks.{at, word32, whole}

-- The two characters of each register, and `srt_detect`: the model, up to its first NUL.
pub raw_bytes : List ℕ → List ℕ
raw_bytes [] = []
raw_bytes (r ∷ regs) = high_byte r ∷ low_byte r ∷ raw_bytes regs

pub names_srt : Option (List ℕ) → Bool
unfolding raw_bytes c_string
names_srt none = false
names_srt (some regs) = is_some (strstr (c_string (raw_bytes regs)) (bytes "SRT"))

pub srt_detect : Option (List ℕ) → Bool
unfolding whole names_srt
srt_detect reply = names_srt (whole 16 reply)

pub smt_read_transfer_reason : Option (List ℕ) → Option ℕ
unfolding whole
smt_read_transfer_reason reply = Option.map (λ regs. at regs 0) (whole 1 reply)

pub srt_read_transfer_reason : Option (List ℕ) → Option ℕ
unfolding whole
srt_read_transfer_reason reply = Option.map (λ regs. at regs 0) (whole 1 reply)

-- ups_inventory_t
pub record Inventory : Type 0 where
  pub model : List ℕ
  pub sku : List ℕ
  pub serial : List ℕ
  pub firmware : List ℕ
  pub nominal_va : ℕ
  pub nominal_watts : ℕ
  pub sog_config : ℕ

-- The text of `n` registers from the `i`-th on; `srt_str_decode` is `smt_str_decode`.
abbrev text_at : List ℕ → ℕ → ℕ → ℕ → List ℕ
text_at regs i n outsz = smt_str_decode (take n (drop i regs)) outsz

inventory_of : List ℕ → Inventory
inventory_of regs = record {
  firmware = text_at regs 0 8 17;
  model = text_at regs 16 16 33;
  sku = text_at regs 32 16 33;
  serial = text_at regs 48 8 17;
  nominal_va = at regs 72;
  nominal_watts = at regs 73;
  sog_config = at regs 74;
}

pub smt_read_inventory : Option (List ℕ) → Option Inventory
unfolding whole inventory_of
smt_read_inventory reply = Option.map inventory_of (whole 80 reply)

pub srt_read_inventory : Option (List ℕ) → Option Inventory
unfolding whole inventory_of
srt_read_inventory reply = Option.map inventory_of (whole 80 reply)

-- The upper and the lower threshold.
pub smt_read_thresholds : Option (List ℕ) → Option (ℕ × ℕ)
unfolding whole
smt_read_thresholds reply = Option.map (λ regs. (at regs 0, at regs 1)) (whole 2 reply)

pub srt_read_thresholds : Option (List ℕ) → Option (ℕ × ℕ)
unfolding whole
srt_read_thresholds reply = Option.map (λ regs. (at regs 0, at regs 1)) (whole 2 reply)

-- The number of registers that a read of a setting asks for.
pub read_count : ℕ → ℕ
read_count reg_count = if ltb 32 reg_count then 32 else if reg_count == 0 then 1 else reg_count

abbrev is_text : Kind → Bool
is_text (cfg_string max_chars) = true
is_text _ = false

-- The raw value and the text, which only a text register has; `none` is UPS_ERR_IO. `str_bufsz` is 0 where the
-- caller gives no buffer.
value_of : Descriptor → ℕ → ℕ → List ℕ → ℕ × Option (List ℕ)
value_of d n str_bufsz regs = (
  (if leb 2 n && not (is_text d.kind) then word32 regs 0 else at regs 0),
  (if is_text d.kind && ltb 0 str_bufsz then some (smt_str_decode regs str_bufsz) else none),
)

pub smt_config_read : Descriptor → ℕ → Option (List ℕ) → Option (ℕ × Option (List ℕ))
unfolding whole read_count value_of
smt_config_read d str_bufsz reply =
    Option.map (value_of d (read_count d.reg_count) str_bufsz)
      (whole (read_count d.reg_count) reply)

pub srt_config_read : Descriptor → ℕ → Option (List ℕ) → Option (ℕ × Option (List ℕ))
unfolding whole read_count value_of
srt_config_read d str_bufsz reply =
    Option.map (value_of d (read_count d.reg_count) str_bufsz)
      (whole (read_count d.reg_count) reply)

-- Whether a write ends with UPS_OK: `write_ok` is that of the write, `reply` the read after it.
pub smt_config_write : (write_ok : Bool) → ℕ → Option (List ℕ) → Bool
unfolding whole
smt_config_write false value reply = false
smt_config_write true value reply = elim (whole 1 reply) [
  | none ↦ false
  | some regs ↦ at regs 0 == value
]

pub srt_config_write : (write_ok : Bool) → ℕ → Option (List ℕ) → Bool
unfolding whole
srt_config_write false value reply = false
srt_config_write true value reply = elim (whole 1 reply) [
  | none ↦ false
  | some regs ↦ at regs 0 == value
]

-- A command: its name, flags and type, and the write of each of its functions, the register and the words.
pub record Cmd : Type 0 where
  pub name : String
  pub flags : ℕ
  pub is_toggle : Bool
  pub execute : ℕ × List ℕ
  pub execute_off : Option (ℕ × List ℕ)

abbrev cmd : String → ℕ → ℕ → List ℕ → Cmd
cmd name flags register words = record {
  name = name;
  flags = flags;
  is_toggle = false;
  execute = (register, words);
  execute_off = none;
}

-- `smt_commands` with the functions that it names; the texts for the page are left out.
abbrev pub smt_commands : List Cmd
smt_commands =
    cmd "shutdown" 1 1540 (0x0001 ∷ [])
    ∷ cmd "battery_test" 0 1541 (0x0001 ∷ [])
    ∷ cmd "runtime_cal" 0 1542 (0x0001 ∷ [])
    ∷ cmd "abort_runtime_cal" 0 1542 (0x0002 ∷ [])
    ∷ cmd "beep_short" 0 1543 (0x0001 ∷ [])
    ∷ cmd "beep_continuous" 0 1543 (0x0002 ∷ [])
    ∷ cmd "mute" 2 1543 (0x0004 ∷ [])
    ∷ cmd "unmute" 0 1543 (0x0008 ∷ [])
    ∷ cmd "clear_faults" 0 1536 (0x0000 ∷ 0x0200 ∷ [])
    ∷ []

abbrev pub srt_commands : List Cmd
srt_commands =
    cmd "shutdown" 1 1540 (0x0001 ∷ [])
    ∷ cmd "battery_test" 0 1541 (0x0001 ∷ [])
    ∷ cmd "runtime_cal" 0 1542 (0x0001 ∷ [])
    ∷ cmd "abort_runtime_cal" 0 1542 (0x0002 ∷ [])
    ∷ cmd "beep_short" 0 1543 (0x0001 ∷ [])
    ∷ cmd "beep_continuous" 0 1543 (0x0002 ∷ [])
    ∷ cmd "mute" 2 1543 (0x0004 ∷ [])
    ∷ cmd "unmute" 0 1543 (0x0008 ∷ [])
    ∷ cmd "clear_faults" 0 1536 (0x0000 ∷ 0x0200 ∷ [])
    ∷ record {
      name = "bypass";
      flags = 0;
      is_toggle = true;
      execute = (1536, 0x0000 ∷ 0x0010 ∷ []);
      execute_off = some (1536, 0x0000 ∷ 0x0020 ∷ []);
    }
    ∷ []

-- A command as the dispatch reads it.
abbrev pub cmd_desc : Cmd → CmdDesc
cmd_desc c = record {
  name = c.name;
  flags = c.flags;
  is_toggle = c.is_toggle;
  has_execute = true;
  has_execute_off = is_some c.execute_off;
}
