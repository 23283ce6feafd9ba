-- ===== src/Shutdown/Trigger/Debounce.antt =====
-- The debounce of `shutdown_check_trigger` (src/shutdown/shutdown.c) over a history of polls, under a
-- configuration that does not change.
use airies_ups_c.Base.{
  ◌∙◌, ◌⊎◌, inl, inr, true, Bool-cases, ℕ, ◌<◌, ◌≡◌, refl, Bool, false, not, ◌&&◌, ◌||◌, Option,
  none, some, List, [], ◌∷◌, arith, if◌then◌else◌, length,
}
use airies_ups_c.Shutdown.Trigger.{
  debounce, or_else, waits_for_battery, condition_met, shutdown_check_trigger, TriggerConfig,
  TriggerState, StartAnswer,
}
use airies_ups_c.Base.Int.{◌-ℤ◌, ltb_ℤ, pos}
use airies_ups_c.Base.Double.{Double}
use airies_ups_c.Ups.Data.{UpsData}
use text.Mathlib.Text.{◌==◌ as str_eq}

module _ (d : Double) where
  open d use {Real}

  -- One poll: the clock's reading, the data, and what `shutdown_start_async` answers if it is called.
  abbrev pub Poll : Type 0
  Poll = ℕ × UpsData Real × StartAnswer

  abbrev add_call : Option StartAnswer → List StartAnswer → List StartAnswer
  add_call none calls' = calls'
  add_call (some a) calls' = a ∷ calls'

  -- The specification's condition: what the mode asks for, battery power included.
  abbrev pub holds : TriggerConfig → UpsData Real → Bool
  holds cfg data' =
      not (str_eq (or_else cfg.trigger "software") "manual")
      && not (not (str_eq (or_else cfg.trigger "software") "ups") && waits_for_battery d cfg data')
      && condition_met d cfg data'

  module _ (cfg : TriggerConfig) where
    -- The manager after a history, its latest poll first.
    unfoldable pub run : List Poll → TriggerState
    run [] = record { trigger_first_met = 0; triggered = false }
    run ((now, data', answer) ∷ before) =
        (shutdown_check_trigger d cfg (run before) data' now answer).state

    -- The answers of the calls that start the workflow, the latest call first.
    unfoldable pub calls : List Poll → List StartAnswer
    calls [] = []
    calls ((now, data', answer) ∷ before) =
        add_call (shutdown_check_trigger d cfg (run before) data' now answer).called (calls before)

    -- How a poll carries the beginning of the run on.
    abbrev pub carry : Bool → ℕ → Option ℕ → Option ℕ
    carry met now (some t) = if met then some t else none
    carry met now none = if met then some now else none

    -- Whether the run began at least the configured delay before.
    abbrev pub elapsed : ℕ → Option ℕ → Bool
    elapsed now (some t) = not (ltb_ℤ (pos now -ℤ pos t) cfg.trigger_delay_sec)
    elapsed now none = false

    -- The time at which the unbroken run of polls that meet the condition began, if it goes on.
    unfoldable pub since : List Poll → Option ℕ
    since [] = none
    since ((now, data', answer) ∷ before) = elim (since before) [
      | some t ↦ if holds cfg data' then some t else none
      | none ↦ if holds cfg data' then some now else none
    ]

    -- Whether at some poll the condition had held for the configured time.
    unfoldable pub held : List Poll → Bool
    held [] = false
    held ((now, data', answer) ∷ before) =
        held before
        || (holds cfg data' && elim (since before) [
          | some t ↦ not (ltb_ℤ (pos now -ℤ pos t) cfg.trigger_delay_sec)
          | none ↦ false
        ])

    -- The specification's calls: one, at the first poll at which the condition had held for the time.
    unfoldable pub firing : List Poll → List StartAnswer
    unfolding held
    firing [] = []
    firing ((now, data', answer) ∷ before) =
        let rest = firing before in
        if held before
        then rest
        else if held ((now, data', answer) ∷ before)
        then answer ∷ []
        else []

    -- Every clock reading is after the epoch.
    abbrev pub Timed : List Poll → Type 0
    Timed [] = Unit {0}
    Timed ((now, data', answer) ∷ before) = (0 < now) × Timed before

    since-pos : (ps : List Poll) (t : ℕ) → Timed ps → since ps ≡ some t → 0 < t
    unfolding since
    since-pos [] t h e = cc
    since-pos ((now, data', answer) ∷ before) t h e = ground (arith, since-pos before t h.1)

    abbrev is_manual : Bool
    is_manual = str_eq (or_else cfg.trigger "software") "manual"

    -- In manual mode the condition never holds.
    since-manual : (ps : List Poll) → is_manual ≡ true → since ps ≡ none
    unfolding since
    since-manual [] m = refl
    since-manual ((now, data', answer) ∷ before) m = ground (arith, since-manual before m)

    held-manual : (ps : List Poll) → is_manual ≡ true → held ps ≡ false
    unfolding held
    held-manual [] m = refl
    held-manual ((now, data', answer) ∷ before) m = ground (arith, held-manual before m)

    -- The early returns come to the debounce under the whole condition, but for the event.
    check-debounce :
        (s : TriggerState) (data' : UpsData Real) (now : ℕ) (answer : StartAnswer)
        → s.triggered ≡ false
        → is_manual ≡ false
        → ((shutdown_check_trigger d cfg s data' now answer).state
            ≡ (debounce d cfg.trigger_delay_sec s (holds cfg data') now answer).state)
          × ((shutdown_check_trigger d cfg s data' now answer).called
              ≡ (debounce d cfg.trigger_delay_sec s (holds cfg data') now answer).called)
    unfolding shutdown_check_trigger debounce
    check-debounce s data' now answer t m = ground arith

    check_frozen :
        (s : TriggerState) (data' : UpsData Real) (now : ℕ) (answer : StartAnswer)
        → (s.triggered ≡ true) ⊎ (is_manual ≡ true)
        → ((shutdown_check_trigger d cfg s data' now answer).state ≡ s)
          × ((shutdown_check_trigger d cfg s data' now answer).called ≡ none)
    unfolding shutdown_check_trigger
    check_frozen s data' now answer h = ground arith

    -- The time kept in the manager, as the specification has it.
    abbrev pub time_of : Option ℕ → ℕ
    time_of none = 0
    time_of (some t) = t

    -- The manager's state is the specification of the history.
    record Agrees (ps : List Poll) : Type 0 where
      fired : (run ps).triggered ≡ held ps
      waiting : held ps ≡ false → (run ps).trigger_first_met ≡ time_of (since ps)
      same : calls ps ≡ firing ps
      quiet : held ps ≡ false → calls ps ≡ []
      once : held ps ≡ true → length (calls ps) ≡ 1

    -- One step of the debounce against one step of the specification.
    debounce_step :
        (s : TriggerState) (met : Bool) (now : ℕ) (answer : StartAnswer) (o : Option ℕ)
        → s.triggered ≡ false
        → s.trigger_first_met ≡ time_of o
        → ((t : ℕ) → o ≡ some t → 0 < t)
        → let next = debounce d cfg.trigger_delay_sec s met now answer in
          (next.state.triggered ≡ (met && elapsed now o))
          × (next.called ≡ (if met && elapsed now o then some answer else none))
          × (next.state.triggered ≡ false
              → next.state.trigger_first_met ≡ time_of (carry met now o))
    unfolding debounce
    debounce_step s met now answer none t f p = ground arith
    debounce_step s met now answer (some time) t f p = ground (arith, p time refl)

    run-Agrees : (ps : List Poll) → Timed ps → Agrees ps
    unfolding run since held calls firing
    run-Agrees [] h = record {
      fired = refl;
      waiting = λ _. refl;
      same = refl;
      quiet = λ _. refl;
      once = λ h. cc;
    }
    run-Agrees ((now, data', answer) ∷ before) h =
        let ih = run-Agrees before h.1 in
        elim (Bool-cases (held before)) [
          | inl fired ↦
              ground
                (arith, ih, check_frozen (run before) data' now answer (inl (ih.fired ∙ fired)))
          | inr waits ↦ elim (Bool-cases is_manual) [
            | inl m ↦ ground (
              arith,
              ih,
              check_frozen (run before) data' now answer (inr m),
              since-manual before m,
              held-manual before m,
            )
            | inr auto ↦ ground (
              arith,
              ih,
              check-debounce (run before) data' now answer (ih.fired ∙ waits) auto,
              debounce_step (run before) (holds cfg data') now answer (since before)
                  (ih.fired ∙ waits) (ih.waiting waits) (λ t e. since-pos before t h.1 e),
            )
          ]
        ]

    -- Over any history of polls, under a configuration that does not change and a clock past the
    -- epoch: the trigger has fired exactly if at some poll the condition (mode, battery power and
    -- thresholds) had held at every poll since a time at least the configured delay before. The
    -- workflow's start was then asked for exactly once, at the first such poll, whatever the answer was (a workflow
    -- was started, one is running, or no thread can be made), and otherwise never. While it has not fired, the
    -- manager keeps the time at which the present run of polls that meet the condition began.
    pub run_debounced :
        (ps : List Poll)
        → Timed ps
        → ((run ps).triggered ≡ held ps)
          × (calls ps ≡ firing ps)
          × (length (calls ps) ≡ (if held ps then 1 else 0))
          × ((if held ps then 0 else (run ps).trigger_first_met)
              ≡ (if held ps then 0 else time_of (since ps)))
    run_debounced ps h =
        let a = run-Agrees ps h in
        (a.fired, a.same, ground (arith, a.quiet, a.once), ground (arith, a.waiting))
