-- ===== src/Shutdown/Async/Steps.antt =====
-- The threads of src/shutdown/shutdown.c as a step relation: every locked section is one step, and
-- the steps of all threads interleave freely.
use airies_ups_c.Base.{
  ℕ, ◌+◌, ◌≡◌, refl, Bool, true, false, Option, none, some, List, [], if◌then◌else◌, arith,
}
use airies_ups_c.Shutdown.Async.{
  Mgr, Result, shutdown_idle, is_running, mirror, mirror_into, begin_start, start_failed,
  start_recorded, finish,
}

-- The manager; the calls of `shutdown_start_async` between its first section and `pthread_create`;
-- those that have a thread to record; the workers that have not finished.
pub record System : Type 0 where
  pub mgr : Mgr
  pub starting : ℕ
  pub recording : ℕ
  pub workers : ℕ

pub data Step (s : System) : System → Type 0 where
  refused :
      (dry_run : Bool) (now : ℕ) (got : Bool) → begin_start s.mgr dry_run now got ≡ none → Step s s
  begun :
      (dry_run : Bool) (now : ℕ) (got : Bool) (m : Mgr)
      → begin_start s.mgr dry_run now got ≡ some m
      → Step s (record s { mgr = m; starting = s.starting + 1 })
  spawned :
      (k : ℕ)
      → s.starting ≡ k + 1
      → Step s (record s { starting = k; recording = s.recording + 1; workers = s.workers + 1 })
  not_spawned :
      (k now : ℕ)
      → s.starting ≡ k + 1
      → Step s (record s { mgr = start_failed s.mgr now; starting = k })
  recorded :
      (k : ℕ)
      → s.recording ≡ k + 1
      → Step s (record s { mgr = start_recorded s.mgr; recording = k })
  appended :
      (k ok : ℕ) (grown : Bool) (phase target err : Option (List ℕ))
      → s.workers ≡ k + 1
      → Step s (record s { mgr = mirror grown s.mgr phase target ok err })
  finished :
      (k now : ℕ) → s.workers ≡ k + 1 → Step s (record s { mgr = finish s.mgr now; workers = k })

-- As `shutdown_create` leaves it.
abbrev pub created : System
created = record {
  mgr = record {
    worker_started = false;
    state = shutdown_idle;
    workflow_id = 0;
    active_dry_run = false;
    started_at = 0;
    finished_at = 0;
    current_phase = [];
    current_target = [];
    snapshot = none;
  };
  starting = 0;
  recording = 0;
  workers = 0;
}

pub data Reachable : System → Type 0 where
  at_first : Reachable created
  then_step : {s t : System} → Reachable s → Step s t → Reachable t

begun-runs :
    (m : Mgr) (dry_run : Bool) (now : ℕ) (got : Bool) (m' : Mgr)
    → begin_start m dry_run now got ≡ some m'
    → (is_running m.state ≡ false) × (is_running m'.state ≡ true)
unfolding begin_start
begun-runs m dry_run now got m' e = (ground arith, ground arith)

mirror-state :
    (grown : Bool) (m : Mgr) (snap : Option Result) (phase target : Option (List ℕ)) (ok : ℕ)
    (err : Option (List ℕ))
    → (mirror_into grown m snap phase target ok err).state ≡ m.state
unfolding mirror_into
mirror-state grown m none phase target ok err = refl
mirror-state grown m (some snap) phase target ok err = ground arith

-- The workers and the starts under way.
abbrev pub busy : System → ℕ
busy s = s.starting + s.workers

Step-busy :
    {s t : System}
    → Step s t
    → busy s ≡ (if is_running s.mgr.state then 1 else 0)
    → busy t ≡ (if is_running t.mgr.state then 1 else 0)
unfolding start_failed start_recorded finish mirror
Step-busy (refused _ _ _ _) h = h
Step-busy {s} (begun dry_run now got m e) h = ground (arith, begun-runs s.mgr dry_run now got m e)
Step-busy (spawned k e) h = ground arith
Step-busy (not_spawned k now e) h = ground arith
Step-busy (recorded k e) h = h
Step-busy {s} (appended k ok grown phase target err e) h =
    ground (arith, mirror-state grown s.mgr s.mgr.snapshot phase target ok err)
Step-busy (finished k now e) h = ground arith

-- However the threads interleave, while the state is RUNNING there is exactly one start under way or
-- one worker, and otherwise there is none; so no two workflows ever run at a time.
pub one_workflow : {s : System} → Reachable s → busy s ≡ (if is_running s.mgr.state then 1 else 0)
one_workflow at_first = refl
one_workflow (then_step r st) = Step-busy st (one_workflow r)
