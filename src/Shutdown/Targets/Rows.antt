-- ===== src/Shutdown/Targets/Rows.antt =====
-- The result rows of a group's execution in src/shutdown/shutdown.c.
use airies_ups_c.Base.{
  ℕ, zero, suc, ◌+◌, ◌≤◌, ◌<◌, ◌≡◌, refl, ◌∙◌, ap, ap₂, Bool, true, false, Option, none, some, List,
  [], ◌∷◌, map, arith,
}
use airies_ups_c.Base.Int.{ℤ, pos}
use airies_ups_c.Shutdown.Targets.{
  Target, Append, Action, Slot, Wait, step_target, phase1_row, slot_row, slot_rows, new_slots,
  poll_slot, poll_slots, wait_children, child_actions, reported, execute_group_sequential,
  execute_group_parallel,
}
use airies_ups_c.Shutdown.Targets.Waits.{
  targets_of, new_slots-targets, wait_children_ends, wait_children-targets,
}

-- The names that rows carry, and those that a group's targets ought to.
abbrev pub row_names : List Append → List (List ℕ)
row_names rows = map (λ (r : Append). r.target) rows

abbrev pub group_names : List ℕ → List Target → List (List ℕ)
group_names group targets = map (λ (t : Target). step_target group t.name) targets

-- A group run one after another gets one row for each target, in order, the skipped ones included.
pub sequential-names :
    (group : List ℕ) (max_timeout : ℤ) (targets : List Target)
    → row_names (execute_group_sequential group max_timeout targets).0 ≡ group_names group targets
unfolding execute_group_sequential
sequential-names group max_timeout [] = refl
sequential-names group max_timeout (t ∷ targets) =
    ground (arith, sequential-names group max_timeout targets)

slot_row-name :
    (group : List ℕ) (s : Slot) → (slot_row group s).target ≡ step_target group s.target.name
unfolding slot_row
slot_row-name group s = ground arith

slot_rows-names :
    (group : List ℕ) (slots : List Slot)
    → row_names (slot_rows group slots) ≡ group_names group (targets_of slots)
unfolding slot_rows
slot_rows-names group [] = refl
slot_rows-names group (s ∷ slots) =
    ap₂ (λ t ts. t ∷ ts) (slot_row-name group s) (slot_rows-names group slots)

-- A parallel group with a ceiling comes to an end, given that each round sleeps its second and that
-- there is memory: in at most one round more than the ceiling has seconds, with one row for
-- each target, in order.
pub parallel_ends :
    (group : List ℕ) (ceiling : ℕ) (w : Wait) (targets : List Target)
    → ((j : ℕ) → j ≤ w.elapsed j)
    → 0 < ceiling
    → ceiling < w.rounds
    → w.got_pids ≡ true
    → w.got_arrays ≡ true
    → (rows : List Append) × (execute_group_parallel group (pos ceiling) w targets
        ≡ some (rows, child_actions targets))
      × (row_names rows ≡ group_names group targets)
unfolding execute_group_parallel
parallel_ends group ceiling w targets sleeps c h pids arrays =
    let r =
      wait_children_ends w.rounds w.exits w.elapsed ceiling 0 (new_slots targets) sleeps c
        (omega arith) (omega arith) in
    (
      slot_rows group r.0,
      rw (pids, arrays, r.1) refl,
      slot_rows-names group r.0 ∙ ap (group_names group) (r.2 ∙ new_slots-targets targets),
    )

reported-names :
    (group : List ℕ) (targets : List Target) (slots : Option (List Slot)) (rows : List Append)
    (actions : List Action)
    → ((s : List Slot) → slots ≡ some s → targets_of s ≡ targets)
    → reported group targets slots ≡ some (rows, actions)
    → row_names rows ≡ group_names group targets
unfolding reported
reported-names group targets none rows actions p h = cc
reported-names group targets (some slots) rows actions p h =
    let e : rows ≡ slot_rows group slots = ground arith in
    rw e (slot_rows-names group slots ∙ ap (group_names group) (p slots refl))

-- A parallel group that has ended has one row for each target, in order.
pub parallel-names :
    (group : List ℕ) (max_timeout : ℤ) (w : Wait) (targets : List Target) (rows : List Append)
    (actions : List Action)
    → w.got_pids ≡ true
    → w.got_arrays ≡ true
    → execute_group_parallel group max_timeout w targets ≡ some (rows, actions)
    → row_names rows ≡ group_names group targets
unfolding execute_group_parallel
parallel-names group max_timeout w targets rows actions pids arrays h =
    reported-names group targets
      (wait_children w.rounds w.exits w.elapsed max_timeout 0 (new_slots targets)) rows actions
      (λ s e.
        wait_children-targets w.rounds w.exits w.elapsed max_timeout 0 (new_slots targets) s e
        ∙ new_slots-targets targets)
      (rw (pids, arrays) at h)

-- Every `fork` of the group fails.
abbrev pub NoneForked : List Target → Type 0
NoneForked [] = Unit {0}
NoneForked (t ∷ targets) = (t.forked ≡ false) × NoneForked targets

abbrev pub ok_rows : List ℕ → List Target → List Append
ok_rows group targets = map (λ (t : Target). phase1_row group t 0 none) targets

unforked-poll :
    (exits : ℕ → Option Bool) (i : ℕ) (targets : List Target)
    → NoneForked targets
    → poll_slots exits i (new_slots targets) ≡ (new_slots targets, true)
unfolding poll_slots new_slots poll_slot
unforked-poll exits i [] h = refl
unforked-poll exits i (t ∷ targets) h = ground (arith, unforked-poll exits (i + 1) targets h.1)

unforked-wait :
    (rounds : ℕ) (exits : ℕ → ℕ → Option Bool) (elapsed : ℕ → ℕ) (max_timeout : ℤ)
    (targets : List Target)
    → NoneForked targets
    → 0 < rounds
    → wait_children rounds exits elapsed max_timeout 0 (new_slots targets)
      ≡ some (new_slots targets)
unfolding wait_children
unforked-wait zero exits elapsed max_timeout targets h r = elim r [ ]
unforked-wait (suc rounds) exits elapsed max_timeout targets h r =
    rw (unforked-poll (exits 0) 0 targets h) refl

unforked-rows :
    (group : List ℕ) (targets : List Target)
    → NoneForked targets
    → slot_rows group (new_slots targets) ≡ ok_rows group targets
unfolding slot_rows new_slots slot_row
unforked-rows group [] h = refl
unforked-rows group (t ∷ targets) h =
    ap (λ rows. phase1_row group t 0 none ∷ rows) (unforked-rows group targets h.1)

unforked-actions : (targets : List Target) → NoneForked targets → child_actions targets ≡ []
unfolding child_actions
unforked-actions [] h = refl
unforked-actions (t ∷ targets) h = rw h.0 (unforked-actions targets h.1)

-- A failed `fork` is reported as a success: a parallel group none of whose children could be forked
-- does nothing, and gets a row that says "ok" for every target.
pub unforked_reported_ok :
    (group : List ℕ) (max_timeout : ℤ) (w : Wait) (targets : List Target)
    → NoneForked targets
    → 0 < w.rounds
    → w.got_pids ≡ true
    → w.got_arrays ≡ true
    → execute_group_parallel group max_timeout w targets ≡ some (ok_rows group targets, [])
unfolding execute_group_parallel
unforked_reported_ok group max_timeout w targets h r pids arrays =
    rw
      (
        pids,
        arrays,
        unforked-wait w.rounds w.exits w.elapsed max_timeout targets h r,
        unforked-rows group targets h,
        unforked-actions targets h,
      )
      refl
