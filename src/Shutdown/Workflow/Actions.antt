-- ===== src/Shutdown/Workflow/Actions.antt =====
-- What the workflow of src/shutdown/shutdown.c does to the world, in a dry run and in a real one.
use airies_ups_c.Base.{
  ℕ, ◌≡◌, refl, Bool, true, false, not, ◌&&◌, Option, none, some, List, [], ◌∷◌, ◌++◌, arith,
  Bool-cases, inl, inr, if◌then◌else◌,
}
use airies_ups_c.Ups.Connect.{CmdDesc, ups_find_command_flag}
use airies_ups_c.Ups.Connection.Write.{ConfigReg}
use airies_ups_c.Shutdown.Targets.{Target, Append, Action}
use airies_ups_c.Shutdown.Targets.Harmless.{
  count_off, count_off-append, sequential-off, parallel-off,
}
use airies_ups_c.Shutdown.Workflow.{
  Group, UpsSetup, Controller, Done, dry_rows, run_targets, run_found, run_group, both, run_groups,
  groups_found, total_targets, ups_cmd_is_shutdown, command_action, write_action, command_phase,
  write_phase, register_phase, ups_phase, powers_off, controller_phase, finish_workflow,
  workflow_after, shutdown_execute_ex,
}

dry_found :
    (g : Group) (targets : Option (List Target))
    → (rows : List Append) × (run_found true g targets ≡ some (rows, []))
unfolding run_found run_targets
dry_found g none = ([], refl)
dry_found g (some []) = ([], refl)
dry_found g (some (t ∷ targets)) = (dry_rows g.name (t ∷ targets), refl)

dry_groups :
    (groups : List Group) → (rows : List Append) × (run_groups true groups ≡ some (rows, []))
unfolding run_groups run_group
dry_groups [] = ([], refl)
dry_groups (g ∷ groups) =
    let here = dry_found g g.targets in
    let later = dry_groups groups in (here.0 ++ later.0, rw (here.1, later.1) refl)

dry_command : (u : UpsSetup) (sd : Option CmdDesc) → (command_phase true u sd).1 ≡ []
unfolding command_phase
dry_command u none = refl
dry_command u (some sd) = refl

dry_ups : (u : UpsSetup) → (ups_phase true u).1 ≡ []
unfolding ups_phase register_phase
dry_ups u = ground (arith, dry_command u (ups_find_command_flag u.cmds ups_cmd_is_shutdown))

dry_controller : (c : Controller) → (controller_phase true c).actions ≡ []
unfolding controller_phase
dry_controller c = ground arith

-- A dry run always ends, and does nothing to the world: no target's action is fired, the UPS gets no
-- command and no write, and the controller is not powered off.
pub dry_run_harmless :
    (got_res : Bool) (groups : Option (List Group)) (u : UpsSetup) (c : Controller)
    → (d : Done) × (shutdown_execute_ex true got_res groups u c ≡ some d) × (d.actions ≡ [])
unfolding shutdown_execute_ex workflow_after finish_workflow
dry_run_harmless got_res groups u c =
    let phase1 = dry_groups (groups_found groups) in
    (
      finish_workflow true got_res (total_targets (groups_found groups)) u c (phase1.0, []),
      rw phase1.1 refl,
      rw (dry_ups u, dry_controller c) refl,
    )

command-off :
    (dry_run : Bool) (u : UpsSetup) (sd : Option CmdDesc)
    → count_off (command_phase dry_run u sd).1 ≡ 0
unfolding command_phase command_action count_off
command-off true u none = refl
command-off true u (some sd) = refl
command-off false u none = refl
command-off false u (some sd) = action-off _
  where
    action-off : (ran : Option (CmdDesc × Bool)) → count_off (command_action ran) ≡ 0
    action-off none = refl
    action-off (some (cmd, off)) = refl

found-off :
    (dry_run : Bool) (g : Group) (targets : Option (List Target)) (rows : List Append)
    (actions : List Action)
    → run_found dry_run g targets ≡ some (rows, actions)
    → count_off actions ≡ 0
unfolding run_found run_targets count_off
found-off dry_run g none rows actions h = ground arith
found-off dry_run g (some []) rows actions h = ground arith
found-off true g (some (t ∷ targets)) rows actions h = ground arith
found-off false g (some (t ∷ targets)) rows actions h = elim (Bool-cases g.parallel) [
  | inl e ↦ parallel-off g.name g.max_timeout g.wait (t ∷ targets) rows actions (rw e at h)
  | inr e ↦ ground (arith, sequential-off g.name g.max_timeout (t ∷ targets))
]

both-off :
    (here later : Option (List Append × List Action)) (rows : List Append) (actions : List Action)
    → both here later ≡ some (rows, actions)
    → ((r : List Append) (a : List Action) → here ≡ some (r, a) → count_off a ≡ 0)
    → ((r : List Append) (a : List Action) → later ≡ some (r, a) → count_off a ≡ 0)
    → count_off actions ≡ 0
both-off none later rows actions h p q = cc
both-off (some (r, a)) none rows actions h p q = cc
both-off (some (r, a)) (some (r', a')) rows actions h p q =
    ground (arith, p r a refl, q r' a' refl, count_off-append a a')

groups-off :
    (dry_run : Bool) (groups : List Group) (rows : List Append) (actions : List Action)
    → run_groups dry_run groups ≡ some (rows, actions)
    → count_off actions ≡ 0
unfolding run_groups run_group count_off
groups-off dry_run [] rows actions h = ground arith
groups-off dry_run (g ∷ groups) rows actions h =
    both-off (run_found dry_run g g.targets) (run_groups dry_run groups) rows actions h
      (found-off dry_run g g.targets) (groups-off dry_run groups)

write-off : (ran : Option (ℕ × Bool)) → count_off (write_action ran) ≡ 0
unfolding write_action count_off
write-off none = refl
write-off (some (value, freed)) = refl

register-off : (u : UpsSetup) (reg : Option ConfigReg) → count_off (write_phase u reg).1 ≡ 0
unfolding write_phase count_off
register-off u none = refl
register-off u (some reg) = elim (Bool-cases reg.writable) [
  | inl e ↦ rw e (write-off _)
  | inr e ↦ rw e refl
]

ups-off : (dry_run : Bool) (u : UpsSetup) → count_off (ups_phase dry_run u).1 ≡ 0
unfolding ups_phase register_phase count_off
ups-off dry_run u = ground (
  arith,
  command-off dry_run u (ups_find_command_flag u.cmds ups_cmd_is_shutdown),
  register-off u u.reg,
)

controller-off :
    (dry_run : Bool) (c : Controller)
    → count_off (controller_phase dry_run c).actions ≡ (if powers_off dry_run c then 1 else 0)
unfolding controller_phase count_off
controller-off dry_run c = ground arith

after-off :
    (dry_run got_res : Bool) (total : ℕ) (u : UpsSetup) (c : Controller)
    (phase1 : Option (List Append × List Action)) (d : Done)
    → ((r : List Append) (a : List Action) → phase1 ≡ some (r, a) → count_off a ≡ 0)
    → workflow_after dry_run got_res total u c phase1 ≡ some d
    → count_off d.actions ≡ (if powers_off dry_run c then 1 else 0)
unfolding workflow_after finish_workflow
after-off dry_run got_res total u c none d p h = cc
after-off dry_run got_res total u c (some (rows, actions)) d p h = ground (
  arith,
  p rows actions refl,
  ups-off dry_run u,
  controller-off dry_run c,
  count_off-append actions ((ups_phase dry_run u).1 ++ (controller_phase dry_run c).actions),
  count_off-append (ups_phase dry_run u).1 (controller_phase dry_run c).actions,
)

-- The workflow runs `systemctl poweroff` once if the run is real, the build is not for Docker and the
-- controller's shutdown is enabled, and otherwise not at all; no other phase does.
pub poweroff_guard :
    (dry_run got_res : Bool) (groups : Option (List Group)) (u : UpsSetup) (c : Controller)
    (d : Done)
    → shutdown_execute_ex dry_run got_res groups u c ≡ some d
    → count_off d.actions ≡ (if not c.is_docker_build && c.enabled && not dry_run then 1 else 0)
unfolding shutdown_execute_ex
poweroff_guard dry_run got_res groups u c d h =
    after-off dry_run got_res (total_targets (groups_found groups)) u c
      (run_groups dry_run (groups_found groups)) d (groups-off dry_run (groups_found groups)) h
