-- ===== src/Ups/Connect/Dispatch.antt =====
-- Which function of which command `ups_cmd_execute` of src/ups/ups.c calls.
use airies_ups_c.Base.{
  ℕ, ◌≡◌, ◌⊎◌, refl, inl, inr, Bool-cases, Bool, true, false, Option, none, some, List, [], ◌∷◌,
  if◌then◌else◌, arith, String,
}
use airies_ups_c.Ups.Connection.{Connection, Driver, Answers}
use text.Mathlib.Text.{◌==◌ as str_eq}
use airies_ups_c.Ups.Connect.{
  CmdDesc, ups_find_command, ups_cmd_execute, execute_found, ups_get_config_regs, resolved_regs,
}

-- The command is the first of the table with the name.
abbrev pub IsFirst : String → List CmdDesc → CmdDesc → Type 0
IsFirst name [] cmd = ⊥
IsFirst name (c ∷ cmds) cmd =
    ((str_eq c.name name ≡ true) × (c ≡ cmd))
    ⊎ ((str_eq c.name name ≡ false) × IsFirst name cmds cmd)

find_command-IsFirst :
    (cmds : List CmdDesc) (name : String) (cmd : CmdDesc)
    → ups_find_command cmds name ≡ some cmd
    → IsFirst name cmds cmd
unfolding ups_find_command
find_command-IsFirst [] name cmd h = cc
find_command-IsFirst (c ∷ cmds) name cmd h = elim (Bool-cases (str_eq c.name name)) [
  | inl e ↦ inl (e, ground arith)
  | inr e ↦ inr (e, find_command-IsFirst cmds name cmd (ground arith))
]

execute_found-cases :
    (drv : Driver) (ans : Answers) (now : ℕ) (c : Connection) (found : Option CmdDesc)
    (is_off : Bool) (cmd : CmdDesc) (off : Bool)
    → (execute_found drv ans now c found is_off).2 ≡ some (cmd, off)
    → (found ≡ some cmd)
      × (off ≡ is_off)
      × ((if is_off then cmd.has_execute_off else cmd.has_execute) ≡ true)
      × ((execute_found drv ans now c found is_off).0.transport ≡ true)
      × ((execute_found drv ans now c found is_off).1 ≡ ans.read_rc)
unfolding execute_found
execute_found-cases drv ans now c none is_off cmd off h = cc
execute_found-cases drv ans now c (some found) is_off cmd off h =
    (ground arith, ground arith, ground arith, ground arith, ground arith)

-- A command's function is called only if the command is the first of its name in the driver's table,
-- has a function for the direction asked, and the transport is open; the code returned is then
-- the function's.
pub cmd_execute_allowed :
    (drv : Driver) (ans : Answers) (now : ℕ) (c : Connection) (cmds : List CmdDesc) (name : String)
    (is_off : Bool) (cmd : CmdDesc) (off : Bool)
    → (ups_cmd_execute drv ans now c cmds name is_off).2 ≡ some (cmd, off)
    → IsFirst name cmds cmd
      × (off ≡ is_off)
      × ((if is_off then cmd.has_execute_off else cmd.has_execute) ≡ true)
      × ((ups_cmd_execute drv ans now c cmds name is_off).0.transport ≡ true)
      × ((ups_cmd_execute drv ans now c cmds name is_off).1 ≡ ans.read_rc)
unfolding ups_cmd_execute
cmd_execute_allowed drv ans now c cmds name is_off cmd off h =
    let r = execute_found-cases drv ans now c (ups_find_command cmds name) is_off cmd off h in
    (find_command-IsFirst cmds name cmd r.0, r.1, r.2, r.3, r.4)

-- What the resolver keeps is what callers see, unless it keeps nothing: then, as when there is no
-- memory for it, they see every register of the driver.
pub resolved-visible {ℓ} :
    {R : Type ℓ} (r : R) (regs kept : List R) (got : Bool)
    → ups_get_config_regs (resolved_regs (some (r ∷ regs)) (some kept) got) (some (r ∷ regs))
      ≡ (elim kept [ [] ↦ r ∷ regs | k ∷ ks ↦ if got then k ∷ ks else r ∷ regs ])
unfolding ups_get_config_regs resolved_regs
resolved-visible r regs [] got = refl
resolved-visible r regs (k ∷ kept) true = refl
resolved-visible r regs (k ∷ kept) false = refl
