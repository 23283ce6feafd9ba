-- ===== src/Tests/Monitoring.antt =====
-- Instances for the modules about src/monitor.
use airies_ups_c.Monitor.XferRing
use airies_ups_c.Monitor.SlowPoll
use airies_ups_c.Base.{
  ℕ, false, not, ◌&&◌, if◌then◌else◌, ◌≡◌, refl, true, none, some, List, [], ◌∷◌, arith, replicate,
}
use airies_ups_c.Base.Bits.{has}
use airies_ups_c.Ups.Data.{UpsData}
use airies_ups_c.Ups.Flags.{
  ups_st_on_battery, ups_sig_shutdown_imminent, ups_transfer_reason_unknown,
}
use airies_ups_c.Monitor.SlowPoll.{store, poll, Monitor}
use airies_ups_c.Monitor.SlowPoll.Laws.{shutdown_event}
use airies_ups_c.Monitor.FastLoop.{emit_transitions, FastLoop}
use airies_ups_c.Monitor.Events.{fire_with_reason}
use airies_ups_c.Monitor.FastLoop.Transitions.{report, emit_transitions-report}
use airies_ups_c.Monitor.XferRing.{zero_event, cutoff_of, recent_cause, XferRing}
use airies_ups_c.Monitor.XferRing.Cause.{latest, recent_cause-latest}
use airies_ups_c.Monitor.XferRing.Contents.{window, contents, Reading, push_all, IsValid}

-- Three readings, the second a duplicate: two events, and the later is AcceptableInput.
abbrev readings : List Reading
readings = (100, 2) ∷ (300, 2) ∷ (500, 8) ∷ []

abbrev sampled : XferRing
sampled = record {
  entries =
      record { timestamp_ms = 100; reason = 2 }
      ∷ record { timestamp_ms = 500; reason = 8 }
      ∷ replicate 14 zero_event;
  head = 2;
  count = 2;
  last_seen = 8;
  last_seen_valid = true;
}

sampled_run : push_all XferRing.init readings ≡ sampled
unfolding push_all XferRing.init XferRing.push
sampled_run = refl

sampled-IsValid : IsValid sampled
sampled-IsValid = ground arith

recent_cause-latest_example :
    recent_cause sampled 600 5000 ≡ elim (latest (cutoff_of 600 5000) (contents sampled)) [
      | some e ↦ e.reason
      | none ↦ ups_transfer_reason_unknown
    ]
recent_cause-latest_example =
    recent_cause-latest sampled 600 5000 sampled-IsValid (unfold window in omega arith)

recent_cause-sampled : recent_cause sampled 600 5000 ≡ 2
unfolding recent_cause
recent_cause-sampled = refl

-- From online to on battery with an overload, the reason being LowInputVoltage.
emit_transitions-report_example : emit_transitions 0x2 0x200004 2 ≡ report 0x2 0x200004 2
emit_transitions-report_example = emit_transitions-report 0x2 0x200004 2

two_events :
    emit_transitions 0x2 0x200004 2
    ≡ record {
      severity = "warning";
      category = "power";
      title = "On Battery";
      reason_suffix = some "LowInputVoltage";
    }
      ∷ record {
        severity = "error";
        category = "fault";
        title = "Overload";
        reason_suffix = some "LowInputVoltage";
      }
      ∷ []
unfolding emit_transitions has fire_with_reason
two_events = refl

abbrev running : FastLoop
running = record { ring = sampled; prev_status_fast = 0x2; first_tick = false }

-- On battery, the flag coming up.
abbrev imminent : UpsData ℕ
imminent = record {
  status = 0x4;
  transfer_reason = 2;
  sig_status = 0x2;
  general_error = 0;
  power_system_error = 0;
  bat_system_error = 0;
  bat_test_status = 0;
  bat_lifetime_status = 0;
  runtime_sec = 60;
  charge_pct = 10;
  battery_voltage = 22;
  load_pct = 30;
  output_current = 1;
  output_voltage = 120;
  output_frequency = 60;
  bypass_voltage = 0;
  bypass_frequency = 0;
  input_voltage = 0;
  efficiency = 0;
  efficiency_reason = 4;
}

-- The poll before found the UPS on battery already.
abbrev watching : Monitor ℕ
watching = record {
  latest_data = none;
  connected = true;
  was_connected = true;
  disconnected_at = 0;
  prev_status = 0x4;
  snapshot = record {
    status = 0x4;
    bat_system_error = 0;
    general_error = 0;
    power_system_error = 0;
    bat_lifetime_status = 0;
  };
  he_inhibit = false;
  he_reengage_count = 0;
}

shutdown_event_example : SlowPoll.transitions (store watching imminent) imminent 2 ≡ (
    if has 0x4 ups_st_on_battery
      && has 0x2 ups_sig_shutdown_imminent
      && not (has 0x4 ups_st_on_battery)
    then fire_with_reason "critical" "shutdown" "Shutdown Triggered" 2 ∷ []
    else [])
shutdown_event_example = shutdown_event watching imminent 2 refl refl

-- Neither the flag that comes up now nor going on battery in the same poll as before is reported.
missed : SlowPoll.transitions (store watching imminent) imminent 2 ≡ []
unfolding SlowPoll.transitions store has
missed = refl
