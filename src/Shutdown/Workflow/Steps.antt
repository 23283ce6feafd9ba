-- ===== src/Shutdown/Workflow/Steps.antt =====
-- The result rows of the whole workflow of src/shutdown/shutdown.c, and that the workflow ends.
use airies_ups_c.Base.{
  ℕ, ◌≤◌, ◌<◌, ◌≡◌, refl, Bool, true, false, Option, none, some, List, [], ◌∷◌, ◌++◌, arith,
  Bool-cases, inl, inr, map-append,
}
use airies_ups_c.Base.Int.{pos}
use airies_ups_c.Base.Text.{bytes}
use airies_ups_c.Shutdown.Targets.{Target, Append, Action, execute_group_sequential, child_actions}
use airies_ups_c.Shutdown.Targets.Rows.{
  row_names, group_names, sequential-names, parallel-names, parallel_ends,
}
use airies_ups_c.Ups.Connect.{CmdDesc, ups_find_command_flag}
use airies_ups_c.Ups.Connection.Write.{ConfigReg}
use airies_ups_c.Shutdown.Workflow.{
  Group, UpsSetup, Controller, Done, dry_rows, run_targets, run_found, run_group, both, run_groups,
  groups_found, total_targets, ups_cmd_is_shutdown, command_phase, write_phase, register_phase,
  ups_phase, controller_phase, finish_workflow, workflow_after, shutdown_execute_ex,
}

abbrev found_names : List ℕ → Option (List Target) → List (List ℕ)
found_names name none = []
found_names name (some targets) = group_names name targets

-- The names of the rows of phase 1: the targets of all groups, in order.
unfoldable pub all_names : List Group → List (List ℕ)
all_names [] = []
all_names (g ∷ groups) = found_names g.name g.targets ++ all_names groups

-- A parallel group has memory for its bookkeeping.
abbrev pub HasMemory : Group → Type 0
HasMemory g = (g.wait.got_pids ≡ true) × (g.wait.got_arrays ≡ true)

abbrev pub AllHaveMemory : List Group → Type 0
AllHaveMemory [] = Unit {0}
AllHaveMemory (g ∷ groups) = HasMemory g × AllHaveMemory groups

dry_rows-names :
    (name : List ℕ) (targets : List Target)
    → row_names (dry_rows name targets) ≡ group_names name targets
unfolding dry_rows
dry_rows-names name [] = refl
dry_rows-names name (t ∷ targets) = ground (arith, dry_rows-names name targets)

found-names :
    (dry_run : Bool) (g : Group) (targets : Option (List Target)) (rows : List Append)
    (actions : List Action)
    → HasMemory g
    → run_found dry_run g targets ≡ some (rows, actions)
    → row_names rows ≡ found_names g.name targets
unfolding run_found run_targets
found-names dry_run g none rows actions m h = ground arith
found-names dry_run g (some []) rows actions m h = ground arith
found-names true g (some (t ∷ targets)) rows actions m h =
    ground (arith, dry_rows-names g.name (t ∷ targets))
found-names false g (some (t ∷ targets)) rows actions m h = elim (Bool-cases g.parallel) [
  | inl e ↦
      parallel-names g.name g.max_timeout g.wait (t ∷ targets) rows actions m.0 m.1 (rw e at h)
  | inr e ↦ ground (arith, sequential-names g.name g.max_timeout (t ∷ targets))
]

both-names :
    (here later : Option (List Append × List Action)) (rows : List Append) (actions : List Action)
    (names names' : List (List ℕ))
    → both here later ≡ some (rows, actions)
    → ((r : List Append) (a : List Action) → here ≡ some (r, a) → row_names r ≡ names)
    → ((r : List Append) (a : List Action) → later ≡ some (r, a) → row_names r ≡ names')
    → row_names rows ≡ names ++ names'
both-names none later rows actions names names' h p q = cc
both-names (some (r, a)) none rows actions names names' h p q = cc
both-names (some (r, a)) (some (r', a')) rows actions names names' h p q =
    let e : rows ≡ r ++ r' = ground arith in
    rw (e, map-append (λ (x : Append). x.target) r r', p r a refl, q r' a' refl) refl

groups-names :
    (dry_run : Bool) (groups : List Group) (rows : List Append) (actions : List Action)
    → AllHaveMemory groups
    → run_groups dry_run groups ≡ some (rows, actions)
    → row_names rows ≡ all_names groups
unfolding run_groups run_group all_names
groups-names dry_run [] rows actions m h = ground arith
groups-names dry_run (g ∷ groups) rows actions m h =
    both-names (run_found dry_run g g.targets) (run_groups dry_run groups) rows actions
      (found_names g.name g.targets) (all_names groups) h
      (λ r a e. found-names dry_run g g.targets r a m.0 e)
      (λ r a e. groups-names dry_run groups r a m.1 e)

command-names :
    (dry_run : Bool) (u : UpsSetup) (sd : Option CmdDesc)
    → row_names (command_phase dry_run u sd).0 ≡ bytes "ups" ∷ []
unfolding command_phase
command-names true u none = refl
command-names true u (some sd) = refl
command-names false u none = refl
command-names false u (some sd) = ground arith

write-names :
    (u : UpsSetup) (reg : Option ConfigReg) → row_names (write_phase u reg).0 ≡ bytes "ups" ∷ []
unfolding write_phase
write-names u none = refl
write-names u (some reg) = ground arith

ups-names : (dry_run : Bool) (u : UpsSetup) → row_names (ups_phase dry_run u).0 ≡ bytes "ups" ∷ []
unfolding ups_phase register_phase
ups-names dry_run u = ground (
  arith,
  command-names dry_run u (ups_find_command_flag u.cmds ups_cmd_is_shutdown),
  write-names u u.reg,
)

controller-names :
    (dry_run : Bool) (c : Controller)
    → row_names (controller_phase dry_run c).rows ≡ bytes "controller" ∷ []
unfolding controller_phase
controller-names dry_run c = ground arith

after-names :
    (dry_run got_res : Bool) (total : ℕ) (u : UpsSetup) (c : Controller)
    (phase1 : Option (List Append × List Action)) (d : Done) (names : List (List ℕ))
    → ((r : List Append) (a : List Action) → phase1 ≡ some (r, a) → row_names r ≡ names)
    → workflow_after dry_run got_res total u c phase1 ≡ some d
    → row_names d.rows ≡ names ++ (bytes "ups" ∷ bytes "controller" ∷ [])
unfolding workflow_after finish_workflow
after-names dry_run got_res total u c none d names p h = cc
after-names dry_run got_res total u c (some (rows, actions)) d names p h =
    let e : d.rows ≡ rows ++ ((ups_phase dry_run u).0 ++ (controller_phase dry_run c).rows) =
      ground arith in
    rw
      (
        e,
        map-append (λ (x : Append). x.target) rows
            ((ups_phase dry_run u).0 ++ (controller_phase dry_run c).rows),
        map-append (λ (x : Append). x.target) (ups_phase dry_run u).0
            (controller_phase dry_run c).rows,
        p rows actions refl,
        ups-names dry_run u,
        controller-names dry_run c,
      )
      refl

-- A workflow, real or dry, that has ended has tried to report one row for every target of every
-- group, in order, then one for the UPS and one for the controller, if there was memory for the
-- bookkeeping of the parallel groups.
pub workflow-names :
    (dry_run got_res : Bool) (groups : Option (List Group)) (u : UpsSetup) (c : Controller)
    (d : Done)
    → AllHaveMemory (groups_found groups)
    → shutdown_execute_ex dry_run got_res groups u c ≡ some d
    → row_names d.rows ≡ all_names (groups_found groups) ++ (bytes "ups" ∷ bytes "controller" ∷ [])
unfolding shutdown_execute_ex
workflow-names dry_run got_res groups u c d m h =
    after-names dry_run got_res (total_targets (groups_found groups)) u c
      (run_groups dry_run (groups_found groups)) d (all_names (groups_found groups))
      (λ r a e. groups-names dry_run (groups_found groups) r a m e) h

-- A group that runs in parallel has a ceiling, a clock that moves a second a round, and is looked at
-- for as long as the ceiling says.
pub record IsBounded (g : Group) : Type 0 where
  pub ceiling : ℕ
  pub is_ceiling : g.max_timeout ≡ pos ceiling
  pub positive : 0 < ceiling
  pub enough : ceiling < g.wait.rounds
  pub sleeps : (j : ℕ) → j ≤ g.wait.elapsed j
  pub memory : HasMemory g

abbrev pub AllBounded : List Group → Type 0
AllBounded [] = Unit {0}
AllBounded (g ∷ groups) = IsBounded g × AllBounded groups

found_ends :
    (dry_run : Bool) (g : Group) (targets : Option (List Target))
    → IsBounded g
    → (r : List Append × List Action) × (run_found dry_run g targets ≡ some r)
unfolding run_found run_targets
found_ends dry_run g none b = (([], []), refl)
found_ends dry_run g (some []) b = (([], []), refl)
found_ends true g (some (t ∷ targets)) b = ((dry_rows g.name (t ∷ targets), []), refl)
found_ends false g (some (t ∷ targets)) b = elim (Bool-cases g.parallel) [
  | inl e ↦
      let r =
        parallel_ends g.name b.ceiling g.wait (t ∷ targets) b.sleeps b.positive b.enough b.memory.0
          b.memory.1 in
      ((r.0, child_actions (t ∷ targets)), rw (e, b.is_ceiling) r.1)
  | inr e ↦ (execute_group_sequential g.name g.max_timeout (t ∷ targets), rw e refl)
]

groups_end :
    (dry_run : Bool) (groups : List Group)
    → AllBounded groups
    → (r : List Append × List Action) × (run_groups dry_run groups ≡ some r)
unfolding run_groups run_group
groups_end dry_run [] b = (([], []), refl)
groups_end dry_run (g ∷ groups) b =
    let here = found_ends dry_run g g.targets b.0 in
    let later = groups_end dry_run groups b.1 in
    ((here.0.0 ++ later.0.0, here.0.1 ++ later.0.1), rw (here.1, later.1) refl)

-- The loops over groups, targets and children end: the workflow gives its result if every group has a
-- ceiling, each round of the wait for children sleeps its second, and there is memory for the
-- bookkeeping. (The waits for single targets are taken to end.)
pub workflow_ends :
    (dry_run got_res : Bool) (groups : Option (List Group)) (u : UpsSetup) (c : Controller)
    → AllBounded (groups_found groups)
    → (d : Done) × (shutdown_execute_ex dry_run got_res groups u c ≡ some d)
unfolding shutdown_execute_ex workflow_after
workflow_ends dry_run got_res groups u c b =
    let r = groups_end dry_run (groups_found groups) b in
    (finish_workflow dry_run got_res (total_targets (groups_found groups)) u c r.0, rw r.1 refl)
