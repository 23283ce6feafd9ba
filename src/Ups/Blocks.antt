-- ===== src/Ups/Blocks.antt =====
-- The reads and writes of src/ups/ups_smt.c and src/ups/ups_srt.c, which have the same bodies. A reply is the
-- registers that a read returns, `none` if it fails. A value that C divides by a power of two, exactly in a
-- double, is kept as a fraction.
pub mod Snapshot
use mathlib.Core.Option
use airies_ups_c.Base.{
  ℕ, ◌+◌, ◌-◌, ◌*◌, Bool, true, false, Option, none, some, List, ◌==◌, ltb, if◌then◌else◌, get_or,
  length, bit_or,
}
use airies_ups_c.Base.Int.{ℤ, pos, negsuc}
use airies_ups_c.Ups.Hid.{to_i32}

-- The registers from the `i`-th on as a text of `n` of them, and as words.
abbrev pub at : List ℕ → ℕ → ℕ
at regs i = get_or regs i 0

abbrev pub word32 : List ℕ → ℕ → ℕ
word32 regs i = bit_or (at regs i * 65536) (at regs (i + 1))

abbrev pub to_i16 : ℕ → ℤ
to_i16 r = if ltb r 32768 then pos r else negsuc (65535 - r)

-- `num / den` in doubles.
pub record Fraction : Type 0 where
  pub num : ℤ
  pub den : ℕ

abbrev pub over : ℤ → ℕ → Fraction
over num den = record { num = num; den = den }

-- A read of `n` registers counts only if all of them come.
unfoldable pub whole : ℕ → Option (List ℕ) → Option (List ℕ)
whole n none = none
whole n (some regs) = if length regs == n then some regs else none

-- The fields that `read_status` fills in.
pub record StatusBlock : Type 0 where
  pub status : ℕ
  pub transfer_reason : ℕ
  pub outlet_mog : ℕ
  pub outlet_sog0 : ℕ
  pub outlet_sog1 : ℕ
  pub sig_status : ℕ
  pub general_error : ℕ
  pub power_system_error : ℕ
  pub bat_system_error : ℕ
  pub bat_test_status : ℕ
  pub rt_cal_status : ℕ
  pub bat_lifetime_status : ℕ
  pub ui_status : ℕ

pub status_of : List ℕ → StatusBlock
status_of regs = record {
  status = word32 regs 0;
  transfer_reason = at regs 2;
  outlet_mog = word32 regs 3;
  outlet_sog0 = word32 regs 6;
  outlet_sog1 = word32 regs 9;
  sig_status = at regs 18;
  general_error = at regs 19;
  power_system_error = word32 regs 20;
  bat_system_error = at regs 22;
  bat_test_status = at regs 23;
  rt_cal_status = at regs 24;
  bat_lifetime_status = at regs 25;
  ui_status = at regs 26;
}

-- Register 0 on, 27 of them; `none` is -1.
pub smt_read_status : Option (List ℕ) → Option StatusBlock
unfolding whole status_of
smt_read_status reply = Option.map status_of (whole 27 reply)

pub srt_read_status : Option (List ℕ) → Option StatusBlock
unfolding whole status_of
srt_read_status reply = Option.map status_of (whole 27 reply)

-- The fields that `read_dynamic` fills in; those of the bypass are `none` where the driver leaves them.
pub record DynamicBlock : Type 0 where
  pub runtime_sec : ℕ
  pub charge_pct : Fraction
  pub battery_voltage : Fraction
  pub load_pct : Fraction
  pub output_current : Fraction
  pub output_voltage : Fraction
  pub output_frequency : Fraction
  pub output_energy_wh : ℕ
  pub bypass_status : Option ℕ
  pub bypass_voltage : Option Fraction
  pub bypass_frequency : Option Fraction
  pub input_status : ℕ
  pub input_voltage : Fraction
  pub efficiency : Fraction
  pub efficiency_reason : ℕ
  pub timer_shutdown : ℤ
  pub timer_start : ℤ
  pub timer_reboot : ℤ

-- The efficiency, and the reason that it has no value: 0 or the negated register.
pub efficiency_of : ℤ → Fraction × ℕ
efficiency_of (pos raw) = (over (pos raw) 128, 0)
efficiency_of (negsuc n) = (over (pos 0) 1, n + 1)

-- The shift of a negative `int32_t`, which C leaves open, is taken as that of its bits.
pub dynamic_of : Bool → List ℕ → DynamicBlock
unfolding efficiency_of
dynamic_of has_bypass regs = record {
  runtime_sec = word32 regs 0;
  charge_pct = over (pos (at regs 2)) 512;
  battery_voltage = over (to_i16 (at regs 3)) 32;
  load_pct = over (pos (at regs 8)) 256;
  output_current = over (pos (at regs 12)) 32;
  output_voltage = over (pos (at regs 14)) 64;
  output_frequency = over (pos (at regs 16)) 128;
  output_energy_wh = word32 regs 17;
  bypass_status = if has_bypass then some (at regs 19) else none;
  bypass_voltage = if has_bypass then some (over (pos (at regs 20)) 64) else none;
  bypass_frequency = if has_bypass then some (over (pos (at regs 21)) 128) else none;
  input_status = at regs 22;
  input_voltage = over (pos (at regs 23)) 64;
  efficiency = (efficiency_of (to_i16 (at regs 26))).0;
  efficiency_reason = (efficiency_of (to_i16 (at regs 26))).1;
  timer_shutdown = to_i16 (at regs 27);
  timer_start = to_i16 (at regs 28);
  timer_reboot = to_i32 (word32 regs 29);
}

-- Register 128 on; `n` is SMT_REG_DYNAMIC_LEN.
pub smt_read_dynamic : Option (List ℕ) → Option DynamicBlock
unfolding whole dynamic_of
smt_read_dynamic reply = Option.map (dynamic_of false) (whole 44 reply)

pub srt_read_dynamic : Option (List ℕ) → Option DynamicBlock
unfolding whole dynamic_of
srt_read_dynamic reply = Option.map (dynamic_of true) (whole 44 reply)
