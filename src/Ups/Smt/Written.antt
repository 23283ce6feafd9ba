-- ===== src/Ups/Smt/Written.antt =====
-- What a write through the registers of src/ups/ups_smt.c can do, and that each is found by its name.
use airies_ups_c.Base.{ℕ, ◌≡◌, refl, Bool, true, false, not, ◌&&◌, some}
use airies_ups_c.Base.Text.{bytes}
use airies_ups_c.Auth.{same_text}
use airies_ups_c.Ups.Connection.{Connection, Driver, Answers}
use airies_ups_c.Ups.Connection.Write.{ups_config_write}
use airies_ups_c.Ups.Registers.{Descriptor, config_reg, ups_find_config_reg}
use airies_ups_c.Ups.Registers.Checked.{
  In, InBlocks, Within, has_distinct_names, is_fresh, are_safe, is_safe, is_guarded, found_by_name,
  written-Within,
}
use airies_ups_c.Ups.Smt.Table.{smt_config_regs}

smt_names : has_distinct_names smt_config_regs ≡ true
unfolding has_distinct_names is_fresh same_text
smt_names = refl

pub smt_safe : are_safe smt_config_regs ≡ true
unfolding are_safe is_safe is_guarded
smt_safe = refl

-- Every register of the table is found by its name.
pub smt_found :
    (d : Descriptor)
    → In d smt_config_regs
    → ups_find_config_reg smt_config_regs (bytes d.name) ≡ some d
smt_found d i = found_by_name smt_config_regs d smt_names i

-- A value that a write through a register of the table hands to the driver is the value given, goes to the block
-- of dates and names (591 to 635) or that of settings (1024 to 1073), so never to a command register, and is
-- within the register's range or one of its options; only a register of the names' block (596 to 635) takes any
-- value.
pub smt_written :
    (drv : Driver) (ans : Answers) (now : ℕ) (c : Connection) (has_config_write copied : Bool)
    (d : Descriptor) (value written : ℕ)
    → In d smt_config_regs
    → (ups_config_write drv ans now c has_config_write (config_reg copied d) value).2
      ≡ some (written, false)
    → (written ≡ value)
      × InBlocks d.reg_addr
      × Within d.kind d.reg_addr value
      × ((copied && not c.transport) ≡ false)
smt_written drv ans now c has_config_write copied d value written i h =
    written-Within smt_config_regs smt_safe drv ans now c has_config_write copied d value written i
      h
