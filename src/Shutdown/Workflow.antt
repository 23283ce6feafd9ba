-- ===== src/Shutdown/Workflow.antt =====
-- `shutdown_execute_ex` of src/shutdown/shutdown.c: the three phases, their rows, the actions they take
-- and the events they emit. What the database, the configuration, the UPS and the shell answer is
-- an argument.
pub mod Setup
pub mod Groups
pub mod Device
pub mod Actions
pub mod Steps
pub mod Summary
use airies_ups_c.Base.{
  ℕ, ◌-◌, Bool, not, ◌&&◌, ◌||◌, Option, none, some, List, [], ◌∷◌, ◌++◌, ◌==◌, ltb, if◌then◌else◌,
}
use airies_ups_c.Base.Text.{bytes}
use airies_ups_c.Shutdown.Targets.{Append, Action, poweroff}
pub use airies_ups_c.Shutdown.Workflow.Setup.{
  ups_cmd_is_shutdown, Group, WorkflowEvent, event, UpsSetup, Controller, Done,
}
unfoldable pub use airies_ups_c.Shutdown.Workflow.Groups.{
  dry_rows, run_targets, run_found, run_group, run_groups, total_targets, append_all, n_failed,
  phase1_events,
}
pub use airies_ups_c.Shutdown.Workflow.Groups.{both, count_targets}
unfoldable pub use airies_ups_c.Shutdown.Workflow.Device.{
  command_action, write_action, command_phase, write_phase, register_phase, ups_phase,
}
pub use airies_ups_c.Shutdown.Workflow.Device.{ups_row, to_u16, is_named, mode_of}

abbrev pub ctrl_row : Controller → ℕ → Option (List ℕ) → List Append
ctrl_row c ok err =
    record {
      phase = bytes "phase3";
      target = bytes "controller";
      ok = ok;
      err = err;
      grown = c.grown;
    }
    ∷ []

-- Whether `systemctl poweroff` is run.
abbrev pub powers_off : Bool → Controller → Bool
powers_off dry_run c = not c.is_docker_build && c.enabled && not dry_run

pub controller_phase : Bool → Controller → Done
controller_phase dry_run c =
    if c.is_docker_build
    then record { rows = ctrl_row c 2 none; actions = []; events = [] }
    else if c.enabled
    then (if dry_run
        then record {
          rows =
              if c.can_rc == 0
              then ctrl_row c 0 none
              else ctrl_row c 1 (some (bytes "logind refused poweroff (polkit grant missing?)"));
          actions = [];
          events = [];
        }
        else if not (c.shut_rc == 0)
        then record {
          rows = ctrl_row c 1 (some c.exit_text);
          actions = poweroff ∷ [];
          events =
              event "critical" "Controller Poweroff Initiated"
              ∷ event "error" "Controller Poweroff Failed"
              ∷ [];
        }
        else record {
          rows = ctrl_row c 0 none;
          actions = poweroff ∷ [];
          events = event "critical" "Controller Poweroff Initiated" ∷ [];
        })
    else record { rows = ctrl_row c 2 none; actions = []; events = [] }

-- The terminal event; none after a poweroff that was accepted.
pub final_events : Bool → Controller → ℕ → List WorkflowEvent
final_events dry_run c failed =
    let off_failed = powers_off dry_run c && not (c.shut_rc == 0) in
    if powers_off dry_run c && c.shut_rc == 0
    then []
    else event (if ltb 0 failed || off_failed then "error" else "info") (
        if dry_run
        then "Dry Run Complete"
        else if off_failed
        then "Shutdown Workflow Halted"
        else "Shutdown Workflow Complete")
      ∷ []

-- The phases after the first, and all the events.
pub finish_workflow : Bool → Bool → ℕ → UpsSetup → Controller → List Append × List Action → Done
unfolding phase1_events ups_phase controller_phase final_events n_failed
finish_workflow dry_run got_res total u c (rows1, actions1) =
    let (rows2, actions2) = ups_phase dry_run u in
    let last = controller_phase dry_run c in
    let failed1 = n_failed got_res rows1 in
    let failed2 = n_failed got_res (rows1 ++ rows2) - failed1 in
    let rows = rows1 ++ (rows2 ++ last.rows) in
    record {
      rows = rows;
      actions = actions1 ++ (actions2 ++ last.actions);
      events =
          event (if dry_run then "warning" else "critical")
            (if dry_run then "Dry Run Started" else "Shutdown Workflow Started")
          ∷ (phase1_events total failed1
              ++ (event (if ltb 0 failed2 then "error" else "info") "UPS Action"
                  ∷ (last.events ++ final_events dry_run c (n_failed got_res rows))));
    }

abbrev pub groups_found : Option (List Group) → List Group
groups_found none = []
groups_found (some groups) = groups

workflow_after :
    Bool → Bool → ℕ → UpsSetup → Controller → Option (List Append × List Action) → Option Done
unfolding finish_workflow
workflow_after dry_run got_res total u c none = none
workflow_after dry_run got_res total u c (some phase1) =
    some (finish_workflow dry_run got_res total u c phase1)

-- `got_res`: there is memory for the accumulator. `none`: a parallel group never ends.
pub shutdown_execute_ex : Bool → Bool → Option (List Group) → UpsSetup → Controller → Option Done
unfolding run_groups workflow_after total_targets
shutdown_execute_ex dry_run got_res groups u c =
    workflow_after dry_run got_res (total_targets (groups_found groups)) u c
      (run_groups dry_run (groups_found groups))
