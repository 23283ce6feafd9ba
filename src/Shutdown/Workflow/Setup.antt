-- ===== src/Shutdown/Workflow/Setup.antt =====
-- What `shutdown_execute_ex` of src/shutdown/shutdown.c reads and gives: the groups, the configuration of the
-- phases, the events.
use airies_ups_c.Base.{ℕ, ◌^◌, Bool, Option, none, List, String}
use airies_ups_c.Base.Int.{ℤ}
use airies_ups_c.Ups.Connection.{Connection, Driver, Answers}
use airies_ups_c.Ups.Connection.Write.{ConfigReg}
use airies_ups_c.Ups.Connect.{CmdDesc}
use airies_ups_c.Shutdown.Targets.{Target, Append, Action, Wait}

abbrev pub ups_cmd_is_shutdown : ℕ
ups_cmd_is_shutdown = 2 ^ 0

-- A row of `shutdown_groups` with the rows of its targets, `none` if the query failed.
pub record Group : Type 0 where
  pub name : List ℕ
  pub parallel : Bool
  pub max_timeout : ℤ
  pub wait : Wait
  pub targets : Option (List Target)

-- What an event of the workflow carries: severity, title, and the counts of the phase 1 summary.
pub record WorkflowEvent : Type 0 where
  pub severity : String
  pub title : String
  pub counts : Option (ℕ × ℕ)

abbrev pub event : String → String → WorkflowEvent
event severity title = record { severity = severity; title = title; counts = none }

-- Phase 2's configuration, and the UPS it meets: `reg` is the register of the configured name.
pub record UpsSetup : Type 0 where
  pub mode : Option String
  pub register_name : Option String
  pub raw_val : ℤ
  pub drv : Driver
  pub ans : Answers
  pub now : ℕ
  pub conn : Connection
  pub cmds : List CmdDesc
  pub has_config_write : Bool
  pub reg : Option ConfigReg
  pub error : List ℕ
  pub grown : Bool

-- Phase 3's configuration and the shell's answers.
pub record Controller : Type 0 where
  pub is_docker_build : Bool
  pub enabled : Bool
  pub can_rc : ℕ
  pub shut_rc : ℕ
  pub exit_text : List ℕ
  pub grown : Bool

-- What a phase, or the workflow, has done.
pub record Done : Type 0 where
  pub rows : List Append
  pub actions : List Action
  pub events : List WorkflowEvent
