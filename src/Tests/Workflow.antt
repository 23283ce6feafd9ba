-- ===== src/Tests/Workflow.antt =====
-- Instances for the asynchronous manager of src/shutdown/shutdown.c.
use airies_ups_c.Base.{◌≡◌, refl, true, false, none, some, [], ◌∷◌}
use airies_ups_c.Shutdown.Async.{
  mirror, finish, shutdown_get_status, shutdown_running, Mgr, begin_start,
}
use airies_ups_c.Shutdown.Async.Steps.{
  System, Reachable, at_first, then_step, begun, spawned, appended, finished, one_workflow, busy,
}
use airies_ups_c.Shutdown.Async.Report.{status_honest, count_failed}

-- A dry run is started at 100, its worker records a failed step and finishes at 130.
abbrev started : Mgr
started = record {
  worker_started = false;
  state = shutdown_running;
  workflow_id = 1;
  active_dry_run = true;
  started_at = 100;
  finished_at = 0;
  current_phase = [];
  current_target = [];
  snapshot = some (record { steps = []; n_steps = 0; n_failed = 0 });
}

abbrev at_work : System
at_work = record { mgr = started; starting = 0; recording = 1; workers = 1 }

at_work-Reachable : Reachable at_work
unfolding begin_start
at_work-Reachable =
    then_step (then_step at_first (begun true 100 true started refl)) (spawned 0 refl)

one_workflow_example : busy at_work ≡ 1
one_workflow_example = one_workflow at_work-Reachable

abbrev one_failed : System
one_failed = record at_work { mgr = mirror true started (some (112 ∷ [])) none 1 none }

abbrev done : System
done = record one_failed {
  mgr = finish (mirror true started (some (112 ∷ [])) none 1 none) 130;
  workers = 0;
}

done-Reachable : Reachable done
done-Reachable =
    then_step (then_step at_work-Reachable (appended 0 1 true (some (112 ∷ [])) none none refl))
      (finished 0 130 refl)

done_reports : (shutdown_get_status true done.mgr).all_ok ≡ false
unfolding shutdown_get_status mirror finish
done_reports = refl

status_honest_example :
    (shutdown_get_status true done.mgr).n_failed
    ≡ count_failed (shutdown_get_status true done.mgr).steps
status_honest_example = (status_honest done-Reachable).1
