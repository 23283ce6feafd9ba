-- ===== src/Ups/Srt/Written.antt =====
-- What a write through the registers of src/ups/ups_srt.c can do, and that each is found by its name.
use airies_ups_c.Base.{ℕ, ◌≡◌, refl, Bool, true, false, not, ◌&&◌, some}
use airies_ups_c.Base.Text.{bytes}
use airies_ups_c.Auth.{same_text}
use airies_ups_c.Ups.Connection.{Connection, Driver, Answers}
use airies_ups_c.Ups.Connection.Write.{ups_config_write}
use airies_ups_c.Ups.Registers.{Descriptor, config_reg, ups_find_config_reg}
use airies_ups_c.Ups.Registers.Checked.{
  In, InBlocks, Within, has_distinct_names, is_fresh, are_safe, is_safe, is_guarded, found_by_name,
  written-Within,
}
use airies_ups_c.Ups.Srt.Table.{srt_config_regs}

srt_names : has_distinct_names srt_config_regs ≡ true
unfolding has_distinct_names is_fresh same_text
srt_names = refl

pub srt_safe : are_safe srt_config_regs ≡ true
unfolding are_safe is_safe is_guarded
srt_safe = refl

-- Every register of the table is found by its name.
pub srt_found :
    (d : Descriptor)
    → In d srt_config_regs
    → ups_find_config_reg srt_config_regs (bytes d.name) ≡ some d
srt_found d i = found_by_name srt_config_regs d srt_names i

-- A value that a write through a register of the table hands to the driver is the value given, goes to the block
-- of dates and names (591 to 635) or that of settings (1024 to 1073), so never to a command register, and is
-- within the register's range or one of its options; only a register of the names' block (596 to 635) takes any
-- value.
pub srt_written :
    (drv : Driver) (ans : Answers) (now : ℕ) (c : Connection) (has_config_write copied : Bool)
    (d : Descriptor) (value written : ℕ)
    → In d srt_config_regs
    → (ups_config_write drv ans now c has_config_write (config_reg copied d) value).2
      ≡ some (written, false)
    → (written ≡ value)
      × InBlocks d.reg_addr
      × Within d.kind d.reg_addr value
      × ((copied && not c.transport) ≡ false)
srt_written drv ans now c has_config_write copied d value written i h =
    written-Within srt_config_regs srt_safe drv ans now c has_config_write copied d value written i
      h
