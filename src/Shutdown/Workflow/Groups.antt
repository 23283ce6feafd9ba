-- ===== src/Shutdown/Workflow/Groups.antt =====
-- Phase 1 of `shutdown_execute_ex` of src/shutdown/shutdown.c: the groups, and the summary.
use airies_ups_c.Base.{
  ℕ, ◌+◌, ◌-◌, Bool, Option, none, some, List, [], ◌∷◌, ◌++◌, ltb, if◌then◌else◌, take, length,
}
use airies_ups_c.Base.Text.{bytes}
use airies_ups_c.Shutdown.Async.{Result, result_append_to}
use airies_ups_c.Shutdown.Targets.{
  Target, Append, Action, phase1_row, test_target_connectivity, execute_group_sequential,
  execute_group_parallel,
}
use airies_ups_c.Shutdown.Workflow.Setup.{Group, WorkflowEvent}

unfoldable pub dry_rows : List ℕ → List Target → List Append
unfolding test_target_connectivity
dry_rows group [] = []
dry_rows group (t ∷ targets) =
    (if test_target_connectivity t
      then phase1_row group t 0 none
      else phase1_row group t 1 (
          some (
            take 255 (
              bytes t.method
              ++ (bytes " probe to " ++ (t.username ++ (b'@' ∷ (t.host ++ bytes " failed"))))))))
    ∷ dry_rows group targets

-- One round of the loop over the groups; `none`: the group never ends.
unfoldable pub run_targets : Bool → Group → List Target → Option (List Append × List Action)
unfolding dry_rows execute_group_sequential execute_group_parallel
run_targets dry_run g targets =
    if dry_run
    then some (dry_rows g.name targets, [])
    else if g.parallel
    then execute_group_parallel g.name g.max_timeout g.wait targets
    else some (execute_group_sequential g.name g.max_timeout targets)

unfoldable pub run_found : Bool → Group → Option (List Target) → Option (List Append × List Action)
unfolding run_targets
run_found dry_run g none = some ([], [])
run_found dry_run g (some []) = some ([], [])
run_found dry_run g (some (t ∷ targets)) = run_targets dry_run g (t ∷ targets)

unfoldable pub run_group : Bool → Group → Option (List Append × List Action)
unfolding run_found
run_group dry_run g = run_found dry_run g g.targets

abbrev pub both :
    Option (List Append × List Action)
    → Option (List Append × List Action)
    → Option (List Append × List Action)
both none later = none
both (some (rows, actions)) none = none
both (some (rows, actions)) (some (rows', actions')) = some (rows ++ rows', actions ++ actions')

unfoldable pub run_groups : Bool → List Group → Option (List Append × List Action)
unfolding run_group
run_groups dry_run [] = some ([], [])
run_groups dry_run (g ∷ groups) = both (run_group dry_run g) (run_groups dry_run groups)

abbrev pub count_targets : Option (List Target) → ℕ
count_targets none = 0
count_targets (some targets) = length targets

-- phase1_total
unfoldable pub total_targets : List Group → ℕ
total_targets [] = 0
total_targets (g ∷ groups) = count_targets g.targets + total_targets groups

-- The accumulator after some rows, and its count of failures; without memory for it the count reads
-- as 0. No phase has more failures than rows, so the differences below do not wrap.
unfoldable pub append_all : Result → List Append → Result
unfolding result_append_to
append_all res [] = res
append_all res (a ∷ rows) =
    append_all (result_append_to a.grown res (some a.phase) (some a.target) a.ok a.err) rows

unfoldable pub n_failed : Bool → List Append → ℕ
unfolding append_all
n_failed got_res rows =
    if got_res
    then (append_all (record { steps = []; n_steps = 0; n_failed = 0 }) rows).n_failed
    else 0

-- The summary of phase 1: (succeeded, total).
unfoldable pub phase1_events : ℕ → ℕ → List WorkflowEvent
phase1_events total failed =
    if ltb 0 total
    then record {
      severity = if ltb 0 failed then "error" else "info";
      title = "Phase 1 Complete";
      counts = some (total - failed, total);
    }
      ∷ []
    else []
