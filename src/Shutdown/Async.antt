-- ===== src/Shutdown/Async.antt =====
-- The asynchronous manager of src/shutdown/shutdown.c: the result rows, the locked sections of
-- `shutdown_start_async`, `worker_main` and `result_append`, and `shutdown_get_status`. A text is the
-- list of its bytes, NULL is `none`; whether an allocation succeeds and the clock are arguments.
pub mod Steps
pub mod Report
use airies_ups_c.Base.{
  ◌-◌, ℕ, ◌+◌, ◌^◌, ◌%◌, Bool, true, false, ◌&&◌, Option, none, some, List, [], ◌∷◌, ◌++◌, ltb,
  ◌==◌, if◌then◌else◌, take,
}

pub data State : Type 0 where
  shutdown_idle : State
  shutdown_running : State
  shutdown_completed : State

pub record StepRow : Type 0 where
  pub phase : List ℕ
  pub target : List ℕ
  pub ok : ℕ  -- 0 ok, 1 failed, 2 skipped
  pub error : List ℕ

pub record Result : Type 0 where
  pub steps : List StepRow
  pub n_steps : ℕ
  pub n_failed : ℕ

pub record Mgr : Type 0 where
  pub worker_started : Bool
  pub state : State
  pub workflow_id : ℕ  -- uint64_t
  pub active_dry_run : Bool
  pub started_at : ℕ
  pub finished_at : ℕ
  pub current_phase : List ℕ
  pub current_target : List ℕ
  pub snapshot : Option Result

abbrev pub is_running : State → Bool
is_running shutdown_idle = false
is_running shutdown_running = true
is_running shutdown_completed = false

abbrev pub is_completed : State → Bool
is_completed shutdown_idle = false
is_completed shutdown_running = false
is_completed shutdown_completed = true

-- `snprintf(buf, size, "%s", p ? p : "")`
pub printed : ℕ → Option (List ℕ) → List ℕ
printed size none = []
printed size (some text) = take (size - 1) text

pub result_row_fill : Option (List ℕ) → Option (List ℕ) → ℕ → Option (List ℕ) → StepRow
unfolding printed
result_row_fill phase target ok err = record {
  phase = printed 16 phase;
  target = printed 96 target;
  ok = ok;
  error = if ok == 1 then printed 256 err else [];
}

-- `grown`: the `realloc` succeeds.
unfoldable pub result_append_to :
    Bool → Result → Option (List ℕ) → Option (List ℕ) → ℕ → Option (List ℕ) → Result
unfolding result_row_fill
result_append_to grown res phase target ok err =
    if grown
    then record {
      steps = res.steps ++ (result_row_fill phase target ok err ∷ []);
      n_steps = res.n_steps + 1;
      n_failed = if ok == 1 then res.n_failed + 1 else res.n_failed;
    }
    else res

mirror_into :
    Bool → Mgr → Option Result → Option (List ℕ) → Option (List ℕ) → ℕ → Option (List ℕ) → Mgr
unfolding result_append_to printed
mirror_into grown m none phase target ok err = m
mirror_into grown m (some snap) phase target ok err =
    if is_running m.state
    then record m {
      snapshot = some (result_append_to grown snap phase target ok err);
      current_phase = printed 16 phase;
      current_target = printed 96 target;
    }
    else m

-- The locked section of `result_append`.
unfoldable pub mirror : Bool → Mgr → Option (List ℕ) → Option (List ℕ) → ℕ → Option (List ℕ) → Mgr
unfolding mirror_into
mirror grown m phase target ok err = mirror_into grown m m.snapshot phase target ok err

-- The first locked section of `shutdown_start_async`; `none` is -EALREADY. `got`: the `calloc`
-- succeeds. The id handed out is the manager's, whatever the result.
unfoldable pub begin_start : Mgr → Bool → ℕ → Bool → Option Mgr
begin_start m dry_run now got =
    if is_running m.state
    then none
    else some (record {
      worker_started = false;
      state = shutdown_running;
      workflow_id = (m.workflow_id + 1) % 2 ^ 64;
      active_dry_run = dry_run;
      started_at = now;
      finished_at = 0;
      current_phase = [];
      current_target = [];
      snapshot = if got then some (record { steps = []; n_steps = 0; n_failed = 0 }) else none;
    })

-- Its last section where `pthread_create` failed, and where it did not.
unfoldable pub start_failed : Mgr → ℕ → Mgr
start_failed m now = record m { state = shutdown_idle; finished_at = now }

unfoldable pub start_recorded : Mgr → Mgr
start_recorded m = record m { worker_started = true }

-- The last section of `worker_main`.
unfoldable pub finish : Mgr → ℕ → Mgr
finish m now = record m { state = shutdown_completed; finished_at = now }

pub record Status : Type 0 where
  pub state : State
  pub workflow_id : ℕ
  pub dry_run : Bool
  pub started_at : ℕ
  pub finished_at : ℕ
  pub current_phase : List ℕ
  pub current_target : List ℕ
  pub n_steps : ℕ
  pub n_failed : ℕ
  pub all_ok : Bool
  pub steps : List StepRow

-- The rows, their number and the failures that the status copies; `got`: the `malloc` succeeds.
pub copied : Bool → Option Result → List StepRow × ℕ × ℕ
copied got none = ([], 0, 0)
copied got (some snap) =
    if ltb 0 snap.n_steps
    then (if got then (snap.steps, snap.n_steps, snap.n_failed) else ([], 0, snap.n_failed))
    else ([], 0, 0)

unfoldable pub shutdown_get_status : Bool → Mgr → Status
unfolding copied
shutdown_get_status got m =
    let c = copied got m.snapshot in
    record {
      state = m.state;
      workflow_id = m.workflow_id;
      dry_run = m.active_dry_run;
      started_at = m.started_at;
      finished_at = m.finished_at;
      current_phase = printed 16 (some m.current_phase);
      current_target = printed 96 (some m.current_target);
      n_steps = c.1;
      n_failed = c.2;
      all_ok = is_completed m.state && c.2 == 0;
      steps = c.0;
    }
