-- ===== src/Shutdown/Workflow/Device.antt =====
-- Phase 2 of `shutdown_execute_ex` of src/shutdown/shutdown.c: the UPS is commanded, or a register written.
use airies_ups_c.Base.{
  ℕ, ◌-◌, ◌%◌, Bool, true, false, not, Option, none, some, List, [], ◌∷◌, String, if◌then◌else◌,
}
use airies_ups_c.Base.Int.{ℤ, pos, negsuc}
use airies_ups_c.Base.Text.{bytes}
use airies_ups_c.Ups.Connection.{is_ok}
use airies_ups_c.Ups.Connection.Write.{ConfigReg, ups_config_write}
use airies_ups_c.Ups.Connect.{CmdDesc, ups_find_command_flag, ups_cmd_execute}
use airies_ups_c.Shutdown.Targets.{Append, Action, ups_command, ups_write}
use text.Mathlib.Text.{◌==◌ as str_eq}
use airies_ups_c.Shutdown.Workflow.Setup.{ups_cmd_is_shutdown, UpsSetup}

abbrev pub ups_row : UpsSetup → ℕ → Option (List ℕ) → List Append
ups_row u ok err =
    record { phase = bytes "phase2"; target = bytes "ups"; ok = ok; err = err; grown = u.grown }
    ∷ []

-- `(uint16_t)raw_val`
abbrev pub to_u16 : ℤ → ℕ
to_u16 (pos n) = n % 65536
to_u16 (negsuc n) = 65535 - n % 65536

unfoldable pub command_action : Option (CmdDesc × Bool) → List Action
command_action none = []
command_action (some (cmd, off)) = ups_command cmd.name ∷ []

unfoldable pub write_action : Option (ℕ × Bool) → List Action
write_action none = []
write_action (some (value, freed)) = ups_write value ∷ []

unfoldable pub command_phase : Bool → UpsSetup → Option CmdDesc → List Append × List Action
unfolding command_action
command_phase true u none = (ups_row u 1 (some (bytes "driver advertises no shutdown command")), [])
command_phase true u (some sd) = (ups_row u 0 none, [])
command_phase false u none =
    (ups_row u 1 (some (bytes "UPS shutdown command not supported by driver")), [])
command_phase false u (some sd) =
    let r = ups_cmd_execute u.drv u.ans u.now u.conn u.cmds sd.name false in
    (if is_ok r.1 then ups_row u 0 none else ups_row u 1 (some u.error), command_action r.2)

unfoldable pub write_phase : UpsSetup → Option ConfigReg → List Append × List Action
unfolding write_action
write_phase u none = (ups_row u 1 (some (bytes "register not found or not writable")), [])
write_phase u (some reg) =
    if not reg.writable
    then (ups_row u 1 (some (bytes "register not found or not writable")), [])
    else let r =
        ups_config_write u.drv u.ans u.now u.conn u.has_config_write reg (to_u16 u.raw_val) in
      (if is_ok r.1 then ups_row u 0 none else ups_row u 1 (some u.error), write_action r.2)

abbrev pub is_named : Option String → Bool
is_named none = false
is_named (some name) = not (str_eq name "")

unfoldable pub register_phase : Bool → UpsSetup → List Append × List Action
unfolding write_phase
register_phase dry_run u =
    if dry_run
    then (
      if is_named u.register_name
          then ups_row u 0 none
          else ups_row u 1 (some (bytes "shutdown.ups_register is empty")),
      [],
    )
    else if is_named u.register_name
    then write_phase u u.reg
    else (ups_row u 1 (some (bytes "shutdown.ups_register is empty")), [])

abbrev pub mode_of : Option String → String
mode_of none = "command"
mode_of (some mode) = mode

unfoldable pub ups_phase : Bool → UpsSetup → List Append × List Action
unfolding command_phase register_phase
ups_phase dry_run u =
    if str_eq (mode_of u.mode) "none"
    then (ups_row u 2 none, [])
    else if str_eq (mode_of u.mode) "command"
    then command_phase dry_run u (ups_find_command_flag u.cmds ups_cmd_is_shutdown)
    else if str_eq (mode_of u.mode) "register"
    then register_phase dry_run u
    else (ups_row u 1 (some (bytes "unknown shutdown.ups_mode")), [])
