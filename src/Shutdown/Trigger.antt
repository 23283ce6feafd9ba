-- ===== src/Shutdown/Trigger.antt =====
-- `shutdown_check_trigger` of src/shutdown/shutdown.c with its helpers. The configuration holds what
-- `config_get_int` and `config_get_str` return, NULL as `none`; the clock's reading is an argument.
pub mod Debounce
use airies_ups_c.Base.{
  ◌==◌, ℕ, String, Bool, true, false, not, ◌&&◌, ◌||◌, Option, none, some, List, [], ◌∷◌, ltb, leb,
  if◌then◌else◌,
}
use airies_ups_c.Base.Bits.{has}
use airies_ups_c.Base.Int.{pos_part, neg_part, ◌-ℤ◌, ltb_ℤ, ℤ, pos}
use airies_ups_c.Base.Double.{Double}
use airies_ups_c.Ups.Data.{UpsData}
use airies_ups_c.Ups.Flags.{ups_st_on_battery, ups_sig_shutdown_imminent}
use text.Mathlib.Text.{◌==◌ as str_eq}

pub record TriggerConfig : Type 0 where
  pub trigger : Option String
  pub trigger_delay_sec : ℤ
  pub trigger_on_battery : ℤ
  pub trigger_source : Option String
  pub trigger_runtime_sec : ℤ
  pub trigger_battery_pct : ℤ
  pub trigger_field : Option String
  pub trigger_field_op : Option String
  pub trigger_field_value : ℤ

-- The trigger fields of `shutdown_mgr`; `trigger_first_met` is 0 while the condition is not met.
pub record TriggerState : Type 0 where
  pub trigger_first_met : ℕ  -- time_t
  pub triggered : Bool

-- The two events of this function, each with the debounce that its message prints.
pub data TriggerEvent : Type 0 where
  trigger_armed : ℤ → TriggerEvent
  trigger_cleared : ℤ → TriggerEvent

-- What `shutdown_start_async` answers: a workflow was started, -EALREADY as one is running, or an error as no
-- thread can be made.
pub data StartAnswer : Type 0 where
  workflow_started : StartAnswer
  workflow_runs : StartAnswer
  no_thread : StartAnswer

-- What a call does to the manager: its new state, the events, and the answer of `shutdown_start_async` if it is
-- called; the answer is logged and has no effect.
pub record Checked : Type 0 where
  pub state : TriggerState
  pub events : List TriggerEvent
  pub called : Option StartAnswer

abbrev pub or_else : Option String → String → String
or_else none d = d
or_else (some s) d = s

abbrev pub is_positive : ℤ → Bool
is_positive z = ltb_ℤ (pos 0) z

abbrev pub is_zero : ℤ → Bool
is_zero z = pos_part z == 0 && neg_part z == 0

module _ (d : Double) where
  open d use {Real, lt_real, le_real, eq_real, of_int, nan}

  -- The empty name and an unknown one give 0.
  unfoldable pub get_ups_field : UpsData Real → String → Real
  get_ups_field data' name =
      if str_eq name "runtime_sec"
      then of_int (pos data'.runtime_sec)
      else if str_eq name "charge_pct"
      then data'.charge_pct
      else if str_eq name "battery_voltage"
      then data'.battery_voltage
      else if str_eq name "load_pct"
      then data'.load_pct
      else if str_eq name "output_current"
      then data'.output_current
      else if str_eq name "output_voltage"
      then data'.output_voltage
      else if str_eq name "output_frequency"
      then data'.output_frequency
      else if str_eq name "input_voltage"
      then data'.input_voltage
      else if str_eq name "efficiency"
      then (if data'.efficiency_reason == 0 then data'.efficiency else nan)
      else if str_eq name "bypass_voltage"
      then data'.bypass_voltage
      else if str_eq name "bypass_frequency"
      then data'.bypass_frequency
      else of_int (pos 0)

  unfoldable pub compare_field : Real → Option String → Real → Bool
  compare_field value none threshold = lt_real value threshold
  compare_field value (some op) threshold =
      if str_eq op "lt"
      then lt_real value threshold
      else if str_eq op "gt"
      then lt_real threshold value
      else if str_eq op "eq"
      then eq_real value threshold
      else false

  -- The source "runtime": either threshold, each disabled by a value that is not positive.
  pub runtime_met : TriggerConfig → UpsData Real → Bool
  runtime_met cfg data' =
      (is_positive cfg.trigger_runtime_sec
        && ltb 0 data'.runtime_sec
        && leb data'.runtime_sec (pos_part cfg.trigger_runtime_sec))
      || (is_positive cfg.trigger_battery_pct
          && le_real data'.charge_pct (of_int cfg.trigger_battery_pct))

  pub watch : TriggerConfig → UpsData Real → Option String → Bool
  watch cfg data' none = false
  watch cfg data' (some field) =
      if str_eq field ""
      then false
      else compare_field (get_ups_field data' field) cfg.trigger_field_op
          (of_int cfg.trigger_field_value)

  pub source_met : TriggerConfig → UpsData Real → Bool
  unfolding runtime_met watch get_ups_field compare_field
  source_met cfg data' =
      let source = or_else cfg.trigger_source "runtime" in
      if str_eq source "runtime"
      then runtime_met cfg data'
      else if str_eq source "field"
      then watch cfg data' cfg.trigger_field
      else false

  -- The mode "software" waits for battery power if so configured: this return clears the trigger
  -- without an event.
  abbrev pub waits_for_battery : TriggerConfig → UpsData Real → Bool
  waits_for_battery cfg data' =
      not (is_zero cfg.trigger_on_battery) && not (has data'.status ups_st_on_battery)

  -- The condition of one poll, in the modes that reach the debounce.
  unfoldable pub condition_met : TriggerConfig → UpsData Real → Bool
  unfolding source_met
  condition_met cfg data' =
      if str_eq (or_else cfg.trigger "software") "ups"
      then has data'.sig_status ups_sig_shutdown_imminent
      else source_met cfg data'

  -- The end of the function: clear, arm, wait or fire.
  unfoldable pub debounce : ℤ → TriggerState → Bool → ℕ → StartAnswer → Checked
  debounce delay_sec s met now answer =
      if not met
      then record {
        state = record s { trigger_first_met = 0 };
        events = if s.trigger_first_met == 0 then [] else trigger_cleared delay_sec ∷ [];
        called = none;
      }
      else if s.trigger_first_met == 0
      then record {
        state = record s { trigger_first_met = now };
        events = trigger_armed delay_sec ∷ [];
        called = none;
      }
      else if ltb_ℤ (pos now -ℤ pos s.trigger_first_met) delay_sec
      then record { state = s; events = []; called = none }
      else record { state = record s { triggered = true }; events = []; called = some answer }

  unfoldable pub shutdown_check_trigger :
      TriggerConfig → TriggerState → UpsData Real → ℕ → StartAnswer → Checked
  unfolding debounce
  shutdown_check_trigger cfg s data' now answer =
      if s.triggered
      then record { state = s; events = []; called = none }
      else if str_eq (or_else cfg.trigger "software") "manual"
      then record { state = s; events = []; called = none }
      else if not (str_eq (or_else cfg.trigger "software") "ups") && waits_for_battery cfg data'
      then record { state = record s { trigger_first_met = 0 }; events = []; called = none }
      else debounce cfg.trigger_delay_sec s (condition_met cfg data') now answer
