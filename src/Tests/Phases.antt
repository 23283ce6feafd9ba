-- ===== src/Tests/Phases.antt =====
-- Instances for the phases of the workflow in src/shutdown/shutdown.c.
use airies_ups_c.Base.{
  ◌≡◌, refl, true, false, ◌&&◌, ◌==◌, if◌then◌else◌, Option, none, some, List, [], ◌∷◌, arith, leb,
}
use airies_ups_c.Base.Int.{pos}
use airies_ups_c.Base.Text.{bytes}
use airies_ups_c.Shutdown.Targets.{Target, Wait, execute_group_parallel}
use airies_ups_c.Shutdown.Targets.Rows.{unforked_reported_ok, ok_rows}
use airies_ups_c.Shutdown.Targets.Harmless.{count_off}
use airies_ups_c.Shutdown.Workflow.{Group, UpsSetup, Controller, Done, shutdown_execute_ex}
use airies_ups_c.Shutdown.Workflow.Actions.{dry_run_harmless, poweroff_guard}
use airies_ups_c.Shutdown.Workflow.Steps.{IsBounded, workflow_ends}

abbrev nas : Target
nas = record {
  name = bytes "nas";
  method = "ssh_key";
  host = bytes "10.0.0.2";
  username = bytes "root";
  key_written = true;
  shell_ok = true;
  probe_ok = true;
  error = [];
  elapsed = 0;
  forked = true;
  grown = true;
}

abbrev switch : Target
switch = record nas {
  name = bytes "switch";
  method = "command";
  shell_ok = false;
  error = bytes "exit 1";
}

-- The first child exits in round 1, the second never.
abbrev slow : Wait
slow = record {
  got_pids = true;
  got_arrays = true;
  exits = λ k i. if leb 1 k && i == 0 then some true else none;
  elapsed = λ k. k;
  rounds = 4;
}

abbrev rack : Group
rack = record {
  name = bytes "rack";
  parallel = true;
  max_timeout = pos 3;
  wait = slow;
  targets = some (nas ∷ switch ∷ []);
}

abbrev desk : Group
desk = record rack { name = bytes "desk"; parallel = false }

abbrev groups : Option (List Group)
groups = some (rack ∷ desk ∷ [])

abbrev smt : UpsSetup
smt = record {
  mode = none;
  register_name = none;
  raw_val = pos 0;
  drv = record { has_connect = true; has_detect = true; has_read = true };
  ans = record { connects = true; detects = true; read_rc = pos 0 };
  now = 100;
  conn = record { transport = true; consecutive_errors = 0; last_reconnect_attempt = 0 };
  cmds =
      record {
        name = "shutdown";
        flags = 1;
        is_toggle = false;
        has_execute = true;
        has_execute_off = false;
      }
      ∷ [];
  has_config_write = true;
  reg = none;
  error = [];
  grown = true;
}

abbrev host : Controller
host = record {
  is_docker_build = false;
  enabled = true;
  can_rc = 0;
  shut_rc = 0;
  exit_text = [];
  grown = true;
}

abbrev DryResult : Type 0
DryResult = (d : Done) × (shutdown_execute_ex true true groups smt host ≡ some d) × (d.actions ≡ [])

dry_run_harmless_example : DryResult
dry_run_harmless_example = dry_run_harmless true groups smt host

abbrev rack_bounded : IsBounded rack
rack_bounded = record {
  ceiling = 3;
  is_ceiling = refl;
  positive = omega arith;
  enough = omega arith;
  sleeps = λ j. omega arith;
  memory = (refl, refl);
}

abbrev desk_bounded : IsBounded desk
desk_bounded = record {
  ceiling = 3;
  is_ceiling = refl;
  positive = omega arith;
  enough = omega arith;
  sleeps = λ j. omega arith;
  memory = (refl, refl);
}

-- What the run of both groups ends in.
abbrev ended : (d : Done) × (shutdown_execute_ex false true groups smt host ≡ some d)
ended = workflow_ends false true groups smt host (rack_bounded, (desk_bounded, tt))

workflow_ends_example : (d : Done) × (shutdown_execute_ex false true groups smt host ≡ some d)
workflow_ends_example = workflow_ends false true groups smt host (rack_bounded, (desk_bounded, tt))

poweroff_guard_example : count_off ended.0.actions ≡ 1
poweroff_guard_example = poweroff_guard false true groups smt host ended.0 ended.1

abbrev unforked : List Target
unforked = record nas { forked = false } ∷ record switch { forked = false } ∷ []

unforked_reported_ok_example :
    execute_group_parallel (bytes "rack") (pos 3) slow unforked
    ≡ some (ok_rows (bytes "rack") unforked, [])
unforked_reported_ok_example =
    unforked_reported_ok (bytes "rack") (pos 3) slow unforked (refl, (refl, tt)) (omega arith) refl
      refl

abbrev late : Target
late = record nas { elapsed = 60 }
