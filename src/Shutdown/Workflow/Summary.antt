-- ===== src/Shutdown/Workflow/Summary.antt =====
-- What the summary of phase 1 in src/shutdown/shutdown.c says of targets that were skipped.
use airies_ups_c.Base.{
  ℕ, ◌≡◌, refl, ◌∙◌, Bool, true, Option, none, some, List, [], ◌∷◌, length, arith,
}
use airies_ups_c.Base.Int.{ℤ}
use airies_ups_c.Shutdown.Async.{Result, result_append_to}
use airies_ups_c.Shutdown.Targets.{Target, phase1_row, past, execute_group_sequential}
use airies_ups_c.Shutdown.Workflow.{append_all, n_failed, phase1_events}

-- The ceiling is reached before every target.
abbrev pub AllPast : ℤ → List Target → Type 0
AllPast max_timeout [] = Unit {0}
AllPast max_timeout (t ∷ targets) =
    (past max_timeout t.elapsed ≡ true) × AllPast max_timeout targets

append-skip :
    (grown : Bool) (res : Result) (phase target : Option (List ℕ))
    → (result_append_to grown res phase target 2 none).n_failed ≡ res.n_failed
unfolding result_append_to
append-skip grown res phase target = ground arith

skip-n_failed :
    (res : Result) (group : List ℕ) (max_timeout : ℤ) (targets : List Target)
    → AllPast max_timeout targets
    → (append_all res (execute_group_sequential group max_timeout targets).0).n_failed
      ≡ res.n_failed
unfolding append_all execute_group_sequential
skip-n_failed res group max_timeout [] h = refl
skip-n_failed res group max_timeout (t ∷ targets) h =
    let row = phase1_row group t 2 none in
    rw h.0 (
      skip-n_failed (result_append_to t.grown res (some row.phase) (some row.target) 2 none) group
        max_timeout targets h.1
      ∙ append-skip t.grown res (some row.phase) (some row.target))

skip-actions :
    (group : List ℕ) (max_timeout : ℤ) (targets : List Target)
    → AllPast max_timeout targets
    → (execute_group_sequential group max_timeout targets).1 ≡ []
unfolding execute_group_sequential
skip-actions group max_timeout [] h = refl
skip-actions group max_timeout (t ∷ targets) h = rw h.0 (skip-actions group max_timeout targets h.1)

-- Targets that a group's ceiling skips count as succeeded: if all of a group are skipped, nothing is
-- fired, and the summary of phase 1 for this group alone says that all of its targets succeeded.
pub skipped_succeed :
    (got_res : Bool) (group : List ℕ) (max_timeout : ℤ) (t : Target) (targets : List Target)
    → AllPast max_timeout (t ∷ targets)
    → let run = execute_group_sequential group max_timeout (t ∷ targets) in
      let total = length (t ∷ targets) in
      (run.1 ≡ [])
      × (phase1_events total (n_failed got_res run.0)
          ≡ record { severity = "info"; title = "Phase 1 Complete"; counts = some (total, total) }
            ∷ [])
unfolding phase1_events n_failed
skipped_succeed got_res group max_timeout t targets h = (
  skip-actions group max_timeout (t ∷ targets) h,
  ground (
    arith,
    skip-n_failed (record { steps = []; n_steps = 0; n_failed = 0 }) group max_timeout (t ∷ targets)
        h,
  ),
)
