-- ===== src/Http/Commands.antt =====
-- `handle_cmd` of src/api/routes/routes.c: a command of the UPS is run, or the shutdown workflow started. What
-- the parser of the body answers is an argument; the building of an answer's JSON succeeds.
pub mod Run
use airies_ups_c.Base.{
  ℕ, Bool, false, not, ◌&&◌, Option, none, some, List, String, ◌==◌, if◌then◌else◌,
}
use airies_ups_c.Base.Int.{ℤ, pos_part, neg_part}
use airies_ups_c.Shutdown.Async.{Mgr, begin_start, start_failed, start_recorded}
use airies_ups_c.Ups.Connect.{CmdDesc, ups_find_command, ups_cmd_execute}
use airies_ups_c.Ups.Connection.{Connection, Driver, Answers, is_ok}
use text.Mathlib.Text.{◌==◌ as str_eq}

-- The UPS of the context: its commands, and what its driver and connection do.
pub record Device : Type 0 where
  pub driver : Driver
  pub answers : Answers
  pub now : ℕ
  pub connection : Connection
  pub commands : List CmdDesc

-- The body: missing, no JSON, without the text "action", or with it and the flags "dry_run" and "off", `none`
-- where they are missing or no booleans.
pub data CmdBody : Type 0 where
  no_body : CmdBody
  invalid_json : CmdBody
  missing_action : CmdBody
  action : String → (dry_run off : Option Bool) → CmdBody

-- An error's status; 409 with the id of the workflow that runs; 202 with the flag and the id of the one that
-- was started; or 200 for a command.
pub data CmdAnswer : Type 0 where
  failed : ℕ → CmdAnswer
  already_running : (workflow_id : ℕ) → CmdAnswer
  started : (dry_run : Bool) → (workflow_id : ℕ) → CmdAnswer
  done : CmdDesc → CmdAnswer

-- The answer, the manager and the connection after it, and the function of a command that was called.
pub record Handled : Type 0 where
  pub answer : CmdAnswer
  pub manager : Option Mgr
  pub connection : Option Connection
  pub called : Option (CmdDesc × Bool)

abbrev pub or_false : Option Bool → Bool
or_false none = false
or_false (some flag) = flag

-- What the outside answers to `shutdown_start_async`: the memory for the snapshot, the thread, the two times.
pub record StartOutcome : Type 0 where
  pub got : Bool
  pub spawned : Bool
  pub at_start : ℕ
  pub at_failure : ℕ

-- `shutdown_start_async`, with no section of another thread between its own, answered over the API.
abbrev pub start_rest : StartOutcome → Bool → Mgr → Option Mgr → CmdAnswer × Mgr
start_rest o dry_run m none = (already_running m.workflow_id, m)
start_rest o dry_run m (some begun) =
    if o.spawned
    then (started dry_run begun.workflow_id, start_recorded begun)
    else (failed 500, start_failed begun o.at_failure)

pub start_workflow : StartOutcome → Bool → Mgr → CmdAnswer × Mgr
unfolding start_recorded start_failed begin_start
start_workflow o dry_run m = start_rest o dry_run m (begin_start m dry_run o.at_start o.got)

-- UPS_ERR_NOT_SUPPORTED, -3
abbrev pub is_unsupported : ℤ → Bool
is_unsupported rc = pos_part rc == 0 && neg_part rc == 3

abbrev pub code_answer : CmdDesc → ℤ → CmdAnswer
code_answer cmd rc =
    if is_unsupported rc then failed 400 else if not (is_ok rc) then failed 500 else done cmd

-- The branch of a command, which `ups_find_command` was asked for.
unfoldable pub run_command : Device → String → Option Bool → Option Mgr → Option CmdDesc → Handled
unfolding ups_cmd_execute
run_command d act off mgr none = record {
  answer = failed 400;
  manager = mgr;
  connection = some d.connection;
  called = none;
}
run_command d act off mgr (some cmd) =
    let is_off = cmd.is_toggle && or_false off in
    let (connection, rc, called) =
      ups_cmd_execute d.driver d.answers d.now d.connection d.commands act is_off in
    record {
      answer = code_answer cmd rc;
      manager = mgr;
      connection = some connection;
      called = called;
    }

pub run_workflow : StartOutcome → Device → Option Bool → Option Mgr → Handled
unfolding start_workflow
run_workflow o d dry_run none = record {
  answer = failed 503;
  manager = none;
  connection = some d.connection;
  called = none;
}
run_workflow o d dry_run (some m) =
    let (answer, m') = start_workflow o (or_false dry_run) m in
    record { answer = answer; manager = some m'; connection = some d.connection; called = none }

abbrev refused : ℕ → Option Device → Option Mgr → Handled
refused status none mgr = record {
  answer = failed status;
  manager = mgr;
  connection = none;
  called = none;
}
refused status (some d) mgr = record {
  answer = failed status;
  manager = mgr;
  connection = some d.connection;
  called = none;
}

unfoldable pub handle_cmd : StartOutcome → Option Device → Option Mgr → CmdBody → Handled
unfolding run_workflow run_command
handle_cmd o none mgr body = refused 503 none mgr
handle_cmd o (some d) mgr no_body = refused 400 (some d) mgr
handle_cmd o (some d) mgr invalid_json = refused 400 (some d) mgr
handle_cmd o (some d) mgr missing_action = refused 400 (some d) mgr
handle_cmd o (some d) mgr (action act dry_run off) =
    if str_eq act "shutdown_workflow"
    then run_workflow o d dry_run mgr
    else run_command d act off mgr (ups_find_command d.commands act)
