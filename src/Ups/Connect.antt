-- ===== src/Ups/Connect.antt =====
-- The search for a driver and the choice of commands and registers in src/ups/ups.c. What a driver
-- answers when it is called stands beside what it implements; a transport is named by its driver's
-- place in `ups_drivers`.
pub mod Search
pub mod Dispatch
use airies_ups_c.Base.{
  ℕ, ◌+◌, Bool, true, false, not, ◌||◌, Option, none, some, List, [], ◌∷◌, String, ◌==◌,
  if◌then◌else◌,
}
use airies_ups_c.Base.Bits.{has}
use airies_ups_c.Base.Int.{ℤ, negsuc}
use airies_ups_c.Ups.Connection.{
  ups_ok, ups_err_io, ups_err_not_supported, ups_ensure_transport, Connection, Driver, Answers,
}
use text.Mathlib.Text.{◌==◌ as str_eq}

-- -2
abbrev pub ups_err_no_driver : ℤ
ups_err_no_driver = negsuc 1

-- An entry of `ups_drivers`, with the answers of its `connect` and `detect`.
pub record DriverEntry : Type 0 where
  pub conn_type : ℕ
  pub has_connect : Bool
  pub has_detect : Bool
  pub has_disconnect : Bool
  pub connects : Bool
  pub detects : Bool

-- A transport that `connect` gave or `disconnect` took back.
pub data Call : Type 0 where
  opened : ℕ → Call
  shut : ℕ → Call

-- The result, the driver whose transport the new context holds, and the calls.
pub record Connected : Type 0 where
  pub result : ℤ
  pub chosen : Option ℕ
  pub calls : List Call

abbrev pub disconnect_if : DriverEntry → ℕ → List Call → List Call
disconnect_if drv i calls = if drv.has_disconnect then shut i ∷ calls else calls

-- The loop of `ups_connect` from the driver at place `i` on; `got`: the `calloc` succeeds.
pub connect_from : ℕ → Bool → Bool → Bool → ℕ → List DriverEntry → Connected
connect_from type got any_matched_type any_connected i [] = record {
  result =
      if not any_matched_type
      then ups_err_no_driver
      else if not any_connected
      then ups_err_io
      else ups_err_no_driver;
  chosen = none;
  calls = [];
}
connect_from type got any_matched_type any_connected i (drv ∷ drivers) =
    let skipped = connect_from type got any_matched_type any_connected (i + 1) drivers in
    let matched = connect_from type got true any_connected (i + 1) drivers in
    let refused = connect_from type got true true (i + 1) drivers in
    if not (drv.conn_type == type)
    then skipped
    else if not drv.has_connect || not drv.has_detect
    then matched
    else if not drv.connects
    then matched
    else if not drv.detects
    then record refused { calls = opened i ∷ disconnect_if drv i refused.calls }
    else if not got
    then record { result = ups_err_io; chosen = none; calls = opened i ∷ disconnect_if drv i [] }
    else record { result = ups_ok; chosen = some i; calls = opened i ∷ [] }

-- `ups_connect` with the parameters and the place for the result given.
pub ups_connect : ℕ → Bool → List DriverEntry → Connected
unfolding connect_from
ups_connect type got drivers = connect_from type got false false 0 drivers

-- A command descriptor: its name, its flags, whether it is a toggle, and which of its two functions it has.
pub record CmdDesc : Type 0 where
  pub name : String
  pub flags : ℕ
  pub is_toggle : Bool
  pub has_execute : Bool
  pub has_execute_off : Bool

-- The loops of `ups_find_command` and `ups_find_command_flag`; a driver without commands has none.
unfoldable pub ups_find_command : List CmdDesc → String → Option CmdDesc
ups_find_command [] name = none
ups_find_command (c ∷ cmds) name = if str_eq c.name name then some c else ups_find_command cmds name

unfoldable pub ups_find_command_flag : List CmdDesc → ℕ → Option CmdDesc
ups_find_command_flag [] flag = none
ups_find_command_flag (c ∷ cmds) flag =
    if has c.flags flag then some c else ups_find_command_flag cmds flag

execute_found :
    Driver
    → Answers
    → ℕ
    → Connection
    → Option CmdDesc
    → Bool
    → Connection × ℤ × Option (CmdDesc × Bool)
unfolding ups_ensure_transport
execute_found drv ans now c none is_off = (c, ups_err_not_supported, none)
execute_found drv ans now c (some cmd) is_off =
    if not (if is_off then cmd.has_execute_off else cmd.has_execute)
    then (c, ups_err_not_supported, none)
    else let c' = ups_ensure_transport drv ans now c in
      if not c'.transport then (c', ups_err_io, none) else (c', ans.read_rc, some (cmd, is_off))

-- With the result code: the function of a command that was called, if any.
unfoldable pub ups_cmd_execute :
    Driver
    → Answers
    → ℕ
    → Connection
    → List CmdDesc
    → String
    → Bool
    → Connection × ℤ × Option (CmdDesc × Bool)
unfolding execute_found
ups_cmd_execute drv ans now c cmds name is_off =
    execute_found drv ans now c (ups_find_command cmds name) is_off

-- The register set that `ups_resolve_runtime` leaves: the driver's static registers, what its
-- resolver (`none`: it has none) keeps of them, and whether the `calloc` succeeds.
module _ {ℓ} {R : Type ℓ} where
  pub resolved_regs : Option (List R) → Option (List R) → Bool → Option (List R)
  resolved_regs none kept got = none
  resolved_regs (some []) kept got = none
  resolved_regs (some (r ∷ regs)) none got = none
  resolved_regs (some (r ∷ regs)) (some []) got = none
  resolved_regs (some (r ∷ regs)) (some (k ∷ kept)) got = if got then some (k ∷ kept) else none

  -- `ups_get_config_regs`: the resolved registers, or else the driver's.
  pub ups_get_config_regs : Option (List R) → Option (List R) → List R
  ups_get_config_regs (some regs) config_regs = regs
  ups_get_config_regs none none = []
  ups_get_config_regs none (some config_regs) = config_regs
