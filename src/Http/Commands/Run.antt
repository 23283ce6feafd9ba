-- ===== src/Http/Commands/Run.antt =====
-- What an answer of `handle_cmd` of src/api/routes/routes.c says of the workflow and of the device.
use airies_ups_c.Base.{
  ◌+◌, ◌%◌, ◌^◌, ◌≡◌, ◌⊎◌, inl, inr, refl, ap, ◌∙◌, Bool, true, false, ◌&&◌, Option, none, some,
  List, String, arith, Bool-cases, if◌then◌else◌,
}
use airies_ups_c.Http.Commands.{
  Device, CmdBody, no_body, invalid_json, missing_action, action, CmdAnswer, failed,
  already_running, started, done, Handled, or_false, StartOutcome, start_rest, is_unsupported,
  code_answer, run_command, run_workflow, handle_cmd,
}
use airies_ups_c.Base.Int.{ℤ}
use airies_ups_c.Shutdown.Async.{Mgr, is_running, begin_start, start_failed, start_recorded}
use airies_ups_c.Ups.Connect.{CmdDesc, ups_find_command, ups_cmd_execute}
use airies_ups_c.Ups.Connect.Dispatch.{IsFirst, cmd_execute_allowed}
use airies_ups_c.Ups.Connection.{Connection, is_ok, ups_ensure_transport}
use text.Mathlib.Text.{◌==◌ as str_eq}

-- The request names the workflow, with its flag.
abbrev pub AsksWorkflow : CmdBody → Bool → Type 0
AsksWorkflow (action act dry_run off) flag =
    (str_eq act "shutdown_workflow" ≡ true) × (flag ≡ or_false dry_run)
AsksWorkflow _ flag = ⊥

-- The request names the command, and the direction.
abbrev pub AsksCommand : List CmdDesc → CmdBody → CmdDesc → Bool → Type 0
AsksCommand commands (action act dry_run off) cmd is_off =
    (str_eq act "shutdown_workflow" ≡ false)
    × IsFirst act commands cmd
    × (is_off ≡ (cmd.is_toggle && or_false off))
AsksCommand commands _ cmd is_off = ⊥

-- What an answer means for the manager and the device, `mgr` the manager before.
abbrev pub AnswerMeans : Device → Option Mgr → CmdBody → Handled → CmdAnswer → Type 0
AnswerMeans d mgr body h (started dry_run id) =
    (m : Mgr) × (m' : Mgr) × (mgr ≡ some m)
    × (h.manager ≡ some m')
    × AsksWorkflow body dry_run
    × (is_running m.state ≡ false)
    × (is_running m'.state ≡ true)
    × (id ≡ (m.workflow_id + 1) % 2 ^ 64)
    × (m'.workflow_id ≡ id)
    × (m'.active_dry_run ≡ dry_run)
    × (h.called ≡ none)
AnswerMeans d mgr body h (already_running id) =
    (m : Mgr) × (mgr ≡ some m)
    × (h.manager ≡ some m)
    × (is_running m.state ≡ true)
    × (id ≡ m.workflow_id)
    × (h.called ≡ none)
AnswerMeans d mgr body h (done cmd) =
    (is_off : Bool) × (h.manager ≡ mgr)
    × (h.called ≡ some (cmd, is_off))
    × AsksCommand d.commands body cmd is_off
    × (is_ok d.answers.read_rc ≡ true)
AnswerMeans d mgr body h (failed status) =
    ((h.manager ≡ mgr) × ((h.called ≡ none) ⊎ (is_ok d.answers.read_rc ≡ false)))
    ⊎ ((m : Mgr) × (m' : Mgr) × (mgr ≡ some m)
        × (h.manager ≡ some m')
        × (h.called ≡ none)
        × (is_running m.state ≡ false)
        × (is_running m'.state ≡ false))

begun :
    (o : StartOutcome) (dry_run : Bool) (m m' : Mgr)
    → begin_start m dry_run o.at_start o.got ≡ some m'
    → (is_running m.state ≡ false)
      × (is_running m'.state ≡ true)
      × (m'.workflow_id ≡ (m.workflow_id + 1) % 2 ^ 64)
      × (m'.active_dry_run ≡ dry_run)
unfolding begin_start
begun o dry_run m m' e = (ground arith, ground arith, ground arith, ground arith)

refused-runs :
    (o : StartOutcome) (dry_run : Bool) (m : Mgr)
    → begin_start m dry_run o.at_start o.got ≡ none
    → is_running m.state ≡ true
unfolding begin_start
refused-runs o dry_run m e = ground arith

module _ (o : StartOutcome) (d : Device) where
  recorded :
      (dry off : Option Bool) (act : String) (m m' : Mgr)
      → str_eq act "shutdown_workflow" ≡ true
      → begin_start m (or_false dry) o.at_start o.got ≡ some m'
      → AnswerMeans d
          (some m)
          (action act dry off)
          (record {
            answer = started (or_false dry) m'.workflow_id;
            manager = some (start_recorded m');
            connection = some d.connection;
            called = none;
          })
          (started (or_false dry) m'.workflow_id)
  unfolding start_recorded
  recorded dry off act m m' named e =
      let (idle, runs, id, flag) = begun o (or_false dry) m m' e in
      (m, start_recorded m', refl, refl, (named, refl), idle, runs, id, refl, flag, refl)

  not_started :
      (dry off : Option Bool) (act : String) (m m' : Mgr)
      → begin_start m (or_false dry) o.at_start o.got ≡ some m'
      → AnswerMeans d
          (some m)
          (action act dry off)
          (record {
            answer = failed 500;
            manager = some (start_failed m' o.at_failure);
            connection = some d.connection;
            called = none;
          })
          (failed 500)
  unfolding start_failed
  not_started dry off act m m' e =
      let (idle, runs, id, flag) = begun o (or_false dry) m m' e in
      inr (m, start_failed m' o.at_failure, refl, refl, refl, idle, refl)

  rest-Means :
      (dry off : Option Bool) (act : String) (m : Mgr) (start : Option Mgr)
      → str_eq act "shutdown_workflow" ≡ true
      → begin_start m (or_false dry) o.at_start o.got ≡ start
      → let (answer, m') = start_rest o (or_false dry) m start in
        AnswerMeans d
          (some m)
          (action act dry off)
          (record {
            answer = answer;
            manager = some m';
            connection = some d.connection;
            called = none;
          })
          answer
  rest-Means dry off act m none named e =
      (m, refl, refl, refused-runs o (or_false dry) m e, refl, refl)
  rest-Means dry off act m (some m') named e = elim (Bool-cases o.spawned) [
    | inl yes' ↦ rw yes' (recorded dry off act m m' named e)
    | inr no' ↦ rw no' (not_started dry off act m m' e)
  ]

  -- The command is called, or the code is an error.
  executed :
      (act : String) (is_off : Bool) (cmd : CmdDesc)
      → ups_find_command d.commands act ≡ some cmd
      → let r = ups_cmd_execute d.driver d.answers d.now d.connection d.commands act is_off in
        ((r.2 ≡ none) × (is_ok r.1 ≡ false))
        ⊎ ((r.2 ≡ some (cmd, is_off)) × (r.1 ≡ d.answers.read_rc))
  unfolding ups_cmd_execute
  executed act is_off cmd e =
      elim (Bool-cases (if is_off then cmd.has_execute_off else cmd.has_execute)) [
        | inr lacks ↦ rw (e, lacks) (inl (refl, refl))
        | inl has ↦
            elim (Bool-cases
              (ups_ensure_transport d.driver d.answers d.now d.connection).transport) [
                | inr offline ↦ rw (e, has, offline) (inl (refl, refl))
                | inl online ↦ rw (e, has, online) (inr (refl, refl))
              ]
      ]

  workflow-Means :
      (dry off : Option Bool) (act : String) (mgr : Option Mgr)
      → str_eq act "shutdown_workflow" ≡ true
      → AnswerMeans d mgr
          (action act dry off)
          (run_workflow o d dry mgr)
          (run_workflow o d dry mgr).answer
  unfolding run_workflow
  workflow-Means dry off act none named = inl (refl, inl refl)
  workflow-Means dry off act (some m) named =
      rest-Means dry off act m (begin_start m (or_false dry) o.at_start o.got) named refl

  errs :
      (dry off : Option Bool) (act : String) (mgr : Option Mgr) (cmd : CmdDesc) (conn : Connection)
      (rc : ℤ) (called : Option (CmdDesc × Bool))
      → is_ok rc ≡ false
      → (called ≡ none) ⊎ (is_ok d.answers.read_rc ≡ false)
      → AnswerMeans d mgr
          (action act dry off)
          (record {
            answer = code_answer cmd rc;
            manager = mgr;
            connection = some conn;
            called = called;
          })
          (code_answer cmd rc)
  errs dry off act mgr cmd conn rc called bad why = elim (Bool-cases (is_unsupported rc)) [
    | inl e ↦ rw e (inl (refl, why))
    | inr e ↦ rw (e, bad) (inl (refl, why))
  ]

  ran :
      (dry off : Option Bool) (act : String) (mgr : Option Mgr) (cmd : CmdDesc) (conn : Connection)
      (rc : ℤ) (called : Option (CmdDesc × Bool))
      → str_eq act "shutdown_workflow" ≡ false
      → is_ok rc ≡ true
      → is_ok d.answers.read_rc ≡ true
      → called ≡ some (cmd, cmd.is_toggle && or_false off)
      → IsFirst act d.commands cmd
      → AnswerMeans d mgr
          (action act dry off)
          (record {
            answer = code_answer cmd rc;
            manager = mgr;
            connection = some conn;
            called = called;
          })
          (code_answer cmd rc)
  ran dry off act mgr cmd conn rc called named good code was_called is_first =
      let other : is_unsupported rc ≡ false = ground arith in
      rw (other, good)
        (cmd.is_toggle && or_false off, refl, was_called, (named, is_first, refl), code)

  -- A command that was called, or the code of the refusal.
  command-Means :
      (dry off : Option Bool) (act : String) (mgr : Option Mgr) (found : Option CmdDesc)
      → str_eq act "shutdown_workflow" ≡ false
      → ups_find_command d.commands act ≡ found
      → AnswerMeans d mgr
          (action act dry off)
          (run_command d act off mgr found)
          (run_command d act off mgr found).answer
  unfolding run_command
  command-Means dry off act mgr none named e = inl (refl, inl refl)
  command-Means dry off act mgr (some cmd) named e =
      let is_off = cmd.is_toggle && or_false off in
      let r = ups_cmd_execute d.driver d.answers d.now d.connection d.commands act is_off in
      elim (executed act is_off cmd e) [
        | inl (none_called, bad) ↦ errs dry off act mgr cmd r.0 r.1 r.2 bad (inl none_called)
        | inr (was_called, code) ↦ elim (Bool-cases (is_ok d.answers.read_rc)) [
          | inr bad ↦ errs dry off act mgr cmd r.0 r.1 r.2 (ap is_ok code ∙ bad) (inr bad)
          | inl good ↦
              let is_first =
                cmd_execute_allowed d.driver d.answers d.now d.connection d.commands act is_off cmd
                  is_off was_called in
              ran dry off act mgr cmd r.0 r.1 r.2 named (ap is_ok code ∙ good) good was_called
                is_first.0
        ]
      ]

-- What an answer to a command over the API means where there is a UPS. Started, with an id: the request
-- asked for the workflow, none was running, and one runs now, with that id, the number of the last one
-- and 1 in 64 bits, and with the dry-run flag asked for. Already running, with an id: a workflow of that
-- id runs, and nothing has changed. Done: the command is the first of the driver's with the name, its
-- function was called once, the one for off just if it is a toggle and "off" was asked for, and
-- succeeded. Failed: the manager is as before, and a function that was called has failed; or a workflow
-- was to start, and is not running. No answer but that of a command calls a function of the device, and
-- none of a command touches the workflow.
pub handle_cmd_means :
    (o : StartOutcome) (d : Device) (mgr : Option Mgr) (body : CmdBody)
    → AnswerMeans d mgr body
        (handle_cmd o (some d) mgr body)
        (handle_cmd o (some d) mgr body).answer
unfolding handle_cmd
handle_cmd_means o d mgr no_body = inl (refl, inl refl)
handle_cmd_means o d mgr invalid_json = inl (refl, inl refl)
handle_cmd_means o d mgr missing_action = inl (refl, inl refl)
handle_cmd_means o d mgr (action act dry off) = elim (Bool-cases (str_eq act "shutdown_workflow")) [
  | inl named ↦ rw named (workflow-Means o d dry off act mgr named)
  | inr named ↦
      rw named (command-Means o d dry off act mgr (ups_find_command d.commands act) named refl)
]
