-- ===== src/Shutdown/Targets/Harmless.antt =====
-- The execution of a group in src/shutdown/shutdown.c never powers the controller off.
use airies_ups_c.Base.{ℕ, ◌+◌, ◌≡◌, refl, Option, none, some, List, [], ◌∷◌, ◌++◌, arith}
use airies_ups_c.Base.Int.{ℤ}
use airies_ups_c.Shutdown.Targets.{
  Target, Append, Action, fired, ups_command, ups_write, poweroff, Wait, Slot, fire_target_action,
  child_actions, reported, wait_children, new_slots, execute_group_sequential,
  execute_group_parallel,
}

unfoldable pub count_off : List Action → ℕ
count_off [] = 0
count_off (fired name ∷ actions) = count_off actions
count_off (ups_command name ∷ actions) = count_off actions
count_off (ups_write value ∷ actions) = count_off actions
count_off (poweroff ∷ actions) = 1 + count_off actions

pub count_off-append : (xs ys : List Action) → count_off (xs ++ ys) ≡ count_off xs + count_off ys
unfolding count_off
count_off-append [] ys = omega arith
count_off-append (fired name ∷ xs) ys = count_off-append xs ys
count_off-append (ups_command name ∷ xs) ys = count_off-append xs ys
count_off-append (ups_write value ∷ xs) ys = count_off-append xs ys
count_off-append (poweroff ∷ xs) ys = omega (arith, count_off-append xs ys)

fire-off : (t : Target) → count_off (fire_target_action t).1 ≡ 0
unfolding fire_target_action count_off
fire-off t = ground arith

pub sequential-off :
    (group : List ℕ) (max_timeout : ℤ) (targets : List Target)
    → count_off (execute_group_sequential group max_timeout targets).1 ≡ 0
unfolding execute_group_sequential count_off
sequential-off group max_timeout [] = refl
sequential-off group max_timeout (t ∷ targets) = ground (
  arith,
  sequential-off group max_timeout targets,
  fire-off t,
  count_off-append (fire_target_action t).1 (execute_group_sequential group max_timeout targets).1,
)

child-off : (targets : List Target) → count_off (child_actions targets) ≡ 0
unfolding child_actions count_off
child-off [] = refl
child-off (t ∷ targets) = ground (
  arith,
  child-off targets,
  fire-off t,
  count_off-append (fire_target_action t).1 (child_actions targets),
)

reported-off :
    (group : List ℕ) (targets : List Target) (slots : Option (List Slot)) (rows : List Append)
    (actions : List Action)
    → reported group targets slots ≡ some (rows, actions)
    → count_off actions ≡ 0
unfolding reported
reported-off group targets none rows actions h = cc
reported-off group targets (some slots) rows actions h = ground (arith, child-off targets)

pub parallel-off :
    (group : List ℕ) (max_timeout : ℤ) (w : Wait) (targets : List Target) (rows : List Append)
    (actions : List Action)
    → execute_group_parallel group max_timeout w targets ≡ some (rows, actions)
    → count_off actions ≡ 0
unfolding execute_group_parallel count_off
parallel-off group max_timeout w targets rows actions h = ground (
  arith,
  child-off targets,
  reported-off group targets
      (wait_children w.rounds w.exits w.elapsed max_timeout 0 (new_slots targets)) rows actions,
)
