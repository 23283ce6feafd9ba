-- ===== src/Shutdown/Targets.antt =====
-- The targets of a shutdown group in src/shutdown/shutdown.c: the action on one target, the wait until
-- it is down, and a group's execution one after another or in parallel. What the shell, `fork`,
-- `waitpid` and the clock answer stands beside the target, or is a function of the round.
pub mod Waits
pub mod Rows
pub mod Harmless
use airies_ups_c.Base.{
  ◌||◌, ℕ, zero, suc, ◌+◌, Bool, true, false, not, ◌&&◌, Option, none, some, List, [], ◌∷◌, ◌++◌,
  String, ◌==◌, if◌then◌else◌, take,
}
use airies_ups_c.Base.Int.{ℤ, pos, ltb_ℤ}
use airies_ups_c.Base.Text.{bytes}
use text.Mathlib.Text.{◌==◌ as str_eq}

-- A row of `shutdown_targets` as far as it is used, and the answers it meets.
pub record Target : Type 0 where
  pub name : List ℕ
  pub method : String
  pub host : List ℕ
  pub username : List ℕ
  pub key_written : Bool  -- `write_key_to_tmpfs` gives a path
  pub shell_ok : Bool  -- the shell command returns 0
  pub probe_ok : Bool  -- the `echo OK` of a dry run returns 0
  pub error : List ℕ  -- `cutils_get_error` after a failure
  pub elapsed : ℕ  -- seconds since the group's start, when its turn comes
  pub forked : Bool  -- `fork` gives a child
  pub grown : Bool  -- the `realloc` for its row succeeds

-- What the workflow does to the world.
pub data Action : Type 0 where
  fired : List ℕ → Action
  ups_command : String → Action
  ups_write : ℕ → Action
  poweroff : Action

-- A call of `result_append`.
pub record Append : Type 0 where
  pub phase : List ℕ
  pub target : List ℕ
  pub ok : ℕ
  pub err : Option (List ℕ)
  pub grown : Bool

-- `fire_target_action`, and with it `execute_target`, whose wait and delay change no result.
pub fire_target_action : Target → Bool × List Action
fire_target_action t =
    if str_eq t.method "ssh_password"
    then (t.shell_ok, fired t.name ∷ [])
    else if str_eq t.method "ssh_key"
    then (if t.key_written then (t.shell_ok, fired t.name ∷ []) else (false, []))
    else if str_eq t.method "command"
    then (t.shell_ok, fired t.name ∷ [])
    else (false, [])

-- `test_target_connectivity`: the probe of a dry run.
unfoldable pub test_target_connectivity : Target → Bool
test_target_connectivity t =
    if str_eq t.method "ssh_password"
    then t.probe_ok
    else if str_eq t.method "ssh_key"
    then t.probe_ok
    else str_eq t.method "command"

-- The loops of `confirm_ping`, `confirm_tcp_port` and `confirm_command` from round `k` on: `up k` is
-- the probe's answer, `elapsed k` the clock after it. `some true` is 0, `some false` is -1.
pub confirm_down : ℕ → (ℕ → Bool) → (ℕ → ℕ) → ℤ → ℕ → Option Bool
confirm_down zero up elapsed timeout k = none
confirm_down (suc fuel) up elapsed timeout k =
    let rest = confirm_down fuel up elapsed timeout (k + 1) in
    if not (up k)
    then some true
    else if not (ltb_ℤ (pos (elapsed k)) timeout)
    then some false
    else rest

-- `confirm_target_down`.
pub confirm_target_down : Option String → Bool → ℕ → (ℕ → Bool) → (ℕ → ℕ) → ℤ → Option Bool
unfolding confirm_down
confirm_target_down none has_cmd fuel up elapsed timeout = some true
confirm_target_down (some method) has_cmd fuel up elapsed timeout =
    if str_eq method "none"
    then some true
    else if str_eq method "ping"
    then confirm_down fuel up elapsed timeout 0
    else if str_eq method "tcp_port"
    then confirm_down fuel up elapsed timeout 0
    else if str_eq method "command" && has_cmd
    then confirm_down fuel up elapsed timeout 0
    else some true

-- `snprintf(step_target, 96, "%s/%s", group_name, tname)`
abbrev pub step_target : List ℕ → List ℕ → List ℕ
step_target group name = take 95 (group ++ (b'/' ∷ name))

abbrev pub phase1_row : List ℕ → Target → ℕ → Option (List ℕ) → Append
phase1_row group t ok err = record {
  phase = bytes "phase1";
  target = step_target group t.name;
  ok = ok;
  err = err;
  grown = t.grown;
}

-- The ceiling of a group is reached.
abbrev pub past : ℤ → ℕ → Bool
past max_timeout elapsed = ltb_ℤ (pos 0) max_timeout && not (ltb_ℤ (pos elapsed) max_timeout)

unfoldable pub execute_group_sequential : List ℕ → ℤ → List Target → List Append × List Action
unfolding fire_target_action
execute_group_sequential group max_timeout [] = ([], [])
execute_group_sequential group max_timeout (t ∷ targets) =
    let (rows, actions) = execute_group_sequential group max_timeout targets in
    if past max_timeout t.elapsed
    then (phase1_row group t 2 none ∷ rows, actions)
    else let (ok, act) = fire_target_action t in
      (
        phase1_row group t (if ok then 0 else 1) (if ok then none else some t.error) ∷ rows,
        act ++ actions,
      )

-- A child of a parallel group: `pids[t]`, `done[t]` and `outcome[t]`.
pub record Slot : Type 0 where
  pub target : Target
  pub done : Bool
  pub outcome : ℕ  -- 0 ok, 1 failed, 2 killed

abbrev pub new_slot : Target → Slot
new_slot t = record { target = t; done = false; outcome = 0 }

-- One look at a child; `exit` is what `waitpid` tells: the child's success, or `none` if it runs.
pub poll_slot : Option Bool → Slot → Slot × Bool
poll_slot none s = if s.done || not s.target.forked then (s, true) else (s, false)
poll_slot (some ok) s =
    if s.done || not s.target.forked
    then (s, true)
    else (record s { done = true; outcome = if ok then 0 else 1 }, true)

-- A round over the children from the place `i` on, and whether all are done.
pub poll_slots : (ℕ → Option Bool) → ℕ → List Slot → List Slot × Bool
unfolding poll_slot
poll_slots exits i [] = ([], true)
poll_slots exits i (s ∷ slots) =
    let (s', over) = poll_slot (exits i) s in
    let (slots', all_done) = poll_slots exits (i + 1) slots in (s' ∷ slots', over && all_done)

pub kill_slot : Slot → Slot
kill_slot s = if not s.done && s.target.forked then record s { done = true; outcome = 2 } else s

pub kill_slots : List Slot → List Slot
unfolding kill_slot
kill_slots [] = []
kill_slots (s ∷ slots) = kill_slot s ∷ kill_slots slots

-- The wait of `execute_group_parallel` from round `k` on; `none`: the fuel has run out.
pub wait_children : ℕ → (ℕ → ℕ → Option Bool) → (ℕ → ℕ) → ℤ → ℕ → List Slot → Option (List Slot)
unfolding poll_slots kill_slots
wait_children zero exits elapsed max_timeout k slots = none
wait_children (suc fuel) exits elapsed max_timeout k slots =
    let (slots', all_done) = poll_slots (exits k) 0 slots in
    let rest = wait_children fuel exits elapsed max_timeout (k + 1) slots' in
    if all_done
    then some slots'
    else if past max_timeout (elapsed k)
    then some (kill_slots slots')
    else rest

pub slot_row : List ℕ → Slot → Append
slot_row group s =
    if s.outcome == 0
    then phase1_row group s.target 0 none
    else if s.outcome == 2
    then phase1_row group s.target 1 (some (bytes "killed: group timeout exceeded"))
    else phase1_row group s.target 1 (some (bytes "step failed (see daemon log)"))

pub slot_rows : List ℕ → List Slot → List Append
unfolding slot_row
slot_rows group [] = []
slot_rows group (s ∷ slots) = slot_row group s ∷ slot_rows group slots

pub new_slots : List Target → List Slot
new_slots [] = []
new_slots (t ∷ targets) = new_slot t ∷ new_slots targets

-- What the children do.
pub child_actions : List Target → List Action
unfolding fire_target_action
child_actions [] = []
child_actions (t ∷ targets) =
    if t.forked then (fire_target_action t).1 ++ child_actions targets else child_actions targets

-- What a group's execution meets: the memory for `pids`, and for `done` and `outcome`; the answers of
-- `waitpid` and of the clock, by round; the rounds looked at.
pub record Wait : Type 0 where
  pub got_pids : Bool
  pub got_arrays : Bool
  pub exits : ℕ → ℕ → Option Bool
  pub elapsed : ℕ → ℕ
  pub rounds : ℕ

reported : List ℕ → List Target → Option (List Slot) → Option (List Append × List Action)
unfolding slot_rows child_actions
reported group targets none = none
reported group targets (some slots) = some (slot_rows group slots, child_actions targets)

unfoldable pub execute_group_parallel :
    List ℕ → ℤ → Wait → List Target → Option (List Append × List Action)
unfolding wait_children reported new_slots
execute_group_parallel group max_timeout w targets =
    if not w.got_pids
    then some ([], [])
    else if not w.got_arrays
    then some ([], child_actions targets)
    else reported group targets
        (wait_children w.rounds w.exits w.elapsed max_timeout 0 (new_slots targets))
