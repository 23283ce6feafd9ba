-- ===== src/Monitor/SlowPoll.antt =====
-- One round of the poll loop of src/monitor/monitor.c, without the daily job. The reading (`none` if
-- it failed), whether the transport is open, the clock, the recent cause and whether the UPS has
-- an HE mode are arguments. Messages are left out, severities, categories and titles kept.
pub mod Laws
use airies_ups_c.Base.{
  ℕ, ◌+◌, bit_and, bit_xor, String, Bool, true, false, not, ◌&&◌, Option, none, some, List, [], ◌∷◌,
  ◌++◌, ltb, leb, ◌==◌, if◌then◌else◌,
}
use airies_ups_c.Base.Bits.{has}
use airies_ups_c.Ups.Format.{ups_battery_test_result_str}
use airies_ups_c.Ups.Data.{UpsData}
use airies_ups_c.Ups.Flags.{
  ups_st_on_battery, ups_st_test, ups_st_he_mode, ups_sig_shutdown_imminent,
}
use airies_ups_c.Monitor.Events.{fire_with_reason, fire_if, Event}
use text.Mathlib.Text.{◌==◌ as str_eq}

abbrev pub he_reengage_threshold : ℕ
he_reengage_threshold = 30

-- The tracked fields of `status_snapshot_t`.
pub record Snapshot : Type 0 where
  pub status : ℕ
  pub bat_system_error : ℕ
  pub general_error : ℕ
  pub power_system_error : ℕ
  pub bat_lifetime_status : ℕ

-- The fields of `struct monitor` that a poll reads or changes.
pub record Monitor (R : Type 0) : Type 0 where
  pub latest_data : Option (UpsData R)  -- `data` and `has_data`
  pub connected : Bool
  pub was_connected : Bool
  pub disconnected_at : ℕ  -- time_t, 0 for none
  pub prev_status : ℕ
  pub snapshot : Snapshot
  pub he_inhibit : Bool
  pub he_reengage_count : ℕ

-- What a poll does: the state, the events, and the snapshot written if any.
pub record Polled (R : Type 0) : Type 0 where
  pub monitor : Monitor R
  pub events : List Event
  pub saved : Option Snapshot

abbrev pub fire : String → String → String → Event
fire severity category title = record {
  severity = severity;
  category = category;
  title = title;
  reason_suffix = none;
}

abbrev pub kept_sig : {R : Type 0} → Option (UpsData R) → ℕ
kept_sig none = 0
kept_sig (some data') = data'.sig_status

-- The title and the severity of a finished self-test.
pub test_ended : Option String → ℕ → Event
test_ended none cause = fire_with_reason "info" "test" "Self-Test Ended" cause
test_ended (some result) cause =
    if str_eq result "passed"
    then fire_with_reason "info" "test" "Self-Test Passed" cause
    else if str_eq result "failed"
    then fire_with_reason "error" "test" "Self-Test Failed" cause
    else if str_eq result "refused"
    then fire_with_reason "warning" "test" "Self-Test Refused" cause
    else if str_eq result "aborted"
    then fire_with_reason "warning" "test" "Self-Test Aborted" cause
    else fire_with_reason "info" "test" "Self-Test Ended" cause

-- The guard of the "Shutdown Triggered" event; `kept` is the sig_status of the monitor's own data.
pub shutdown_triggered : ℕ → ℕ → ℕ → ℕ → Bool
shutdown_triggered prev_status status sig kept =
    has status ups_st_on_battery
    && has sig ups_sig_shutdown_imminent
    && not (has prev_status ups_st_on_battery && has kept ups_sig_shutdown_imminent)

module _ {R : Type 0} where
  -- A reading failed: the transport's state decides, not the reading.
  pub read_failed : Monitor R → Bool → ℕ → Polled R
  read_failed mon transport_up now =
      if not transport_up && mon.was_connected
      then record {
        monitor = record mon {
          connected = transport_up;
          was_connected = false;
          disconnected_at = now;
        };
        events = fire "error" "system" "UPS Disconnected" ∷ [];
        saved = none;
      }
      else record { monitor = record mon { connected = transport_up }; events = []; saved = none }

  -- The data is stored before anything looks at it.
  unfoldable pub store : Monitor R → UpsData R → Monitor R
  store mon data' = record mon { latest_data = some data'; connected = true }

  pub reconnect : Monitor R → Monitor R × List Event
  reconnect mon =
      if not mon.was_connected && ltb 0 mon.disconnected_at
      then (
        record mon { disconnected_at = 0; was_connected = true },
        fire "warning" "system" "UPS Reconnected" ∷ [],
      )
      else (record mon { was_connected = true }, [])

  -- HE inhibit auto-clear; `monitor_he_inhibit_clear` resets the count.
  pub he_clear : Monitor R → Bool → ℕ → ℕ → Monitor R × List Event
  he_clear mon has_he_cap status cause =
      if mon.he_inhibit && has_he_cap
      then (if has status ups_st_he_mode
          then (if leb he_reengage_threshold (mon.he_reengage_count + 1)
              then (
                record mon { he_inhibit = false; he_reengage_count = 0 },
                fire_with_reason "info" "status" "HE Mode Restored" cause ∷ [],
              )
              else (record mon { he_reengage_count = mon.he_reengage_count + 1 }, []))
          else (record mon { he_reengage_count = 0 }, []))
      else (mon, [])

  -- The per-bit transitions of the slow loop. `mon` holds the new data already.
  unfoldable pub transitions : Monitor R → UpsData R → ℕ → List Event
  unfolding test_ended shutdown_triggered
  transitions mon data' cause =
      let changed = bit_xor mon.prev_status data'.status in
      let set' = bit_and changed data'.status in
      let fell' = bit_and changed mon.prev_status in
      fire_if (has set' ups_st_he_mode) (fire_with_reason "info" "mode" "HE Mode Entered" cause) (
        fire_if (has fell' ups_st_he_mode) (fire_with_reason "info" "mode" "HE Mode Exited" cause) (
          fire_if (has set' ups_st_test) (fire_with_reason "info" "test" "Self-Test Started" cause)
            (fire_if (has fell' ups_st_test)
              (test_ended (ups_battery_test_result_str data'.bat_test_status) cause)
              (fire_if
                (shutdown_triggered mon.prev_status data'.status data'.sig_status
                  (kept_sig mon.latest_data))
                (fire_with_reason "critical" "shutdown" "Shutdown Triggered" cause) []))))

  abbrev pub snapshot_of : UpsData R → Snapshot
  snapshot_of data' = record {
    status = data'.status;
    bat_system_error = data'.bat_system_error;
    general_error = data'.general_error;
    power_system_error = data'.power_system_error;
    bat_lifetime_status = data'.bat_lifetime_status;
  }

  pub same_snapshot : UpsData R → Snapshot → Bool
  same_snapshot data' snap =
      data'.status == snap.status
      && data'.bat_system_error == snap.bat_system_error
      && data'.general_error == snap.general_error
      && data'.power_system_error == snap.power_system_error
      && data'.bat_lifetime_status == snap.bat_lifetime_status

  -- The round from the first good reading on.
  pub read_ok : Monitor R → UpsData R → Bool → ℕ → Polled R
  unfolding store reconnect he_clear transitions same_snapshot
  read_ok mon data' has_he_cap cause =
      let (mon₁, back) = reconnect (store mon data') in
      let (mon₂, he) = he_clear mon₁ has_he_cap data'.status cause in
      let mon₃ = record mon₂ { prev_status = data'.status } in
      let events' = back ++ (he ++ transitions mon₂ data' cause) in
      if same_snapshot data' mon.snapshot
      then record { monitor = mon₃; events = events'; saved = none }
      else record {
        monitor = record mon₃ { snapshot = snapshot_of data' };
        events = events';
        saved = some (snapshot_of data');
      }

  pub poll : Monitor R → Option (UpsData R) → Bool → ℕ → Bool → ℕ → Polled R
  unfolding read_failed read_ok
  poll mon none transport_up now has_he_cap cause = read_failed mon transport_up now
  poll mon (some data') transport_up now has_he_cap cause = read_ok mon data' has_he_cap cause
