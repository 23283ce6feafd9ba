-- ===== src/Monitor/FastLoop.antt =====
-- One tick of the fast loop of src/monitor/fast_loop.c. The driver's two readings, the clock and what
-- was stored come in as arguments; `none` is a reading that failed.
pub mod Transitions
use airies_ups_c.Base.{
  ℕ, bit_and, bit_or, bit_xor, Bool, false, Option, none, some, List, [], ◌==◌, if◌then◌else◌,
}
use airies_ups_c.Base.Bits.{has}
use airies_ups_c.Ups.Flags.{
  ups_st_on_battery, ups_st_bypass, ups_st_output_off, ups_st_fault, ups_st_fault_state,
  ups_st_overload,
}
use airies_ups_c.Monitor.XferRing.{push, XferRing}
use airies_ups_c.Monitor.Events.{fire_with_reason, fire_if, Event}

-- FAST_OWNED_BITS
abbrev pub fast_owned_bits : ℕ
fast_owned_bits =
    bit_or
      (bit_or
        (bit_or (bit_or (bit_or ups_st_on_battery ups_st_output_off) ups_st_bypass) ups_st_fault)
        ups_st_fault_state)
      ups_st_overload

abbrev pub fault_bits : ℕ
fault_bits = bit_or ups_st_fault ups_st_fault_state

-- The state of `struct fast_loop` that the thread changes.
pub record FastLoop : Type 0 where
  pub ring : XferRing
  pub prev_status_fast : ℕ  -- uint32_t
  pub first_tick : Bool

-- The statements of `emit_transitions` below its early return.
pub emit_all : ℕ → ℕ → ℕ → List Event
emit_all set' cleared reason =
    fire_if (has set' ups_st_on_battery) (fire_with_reason "warning" "power" "On Battery" reason) (
      fire_if (has cleared ups_st_on_battery)
        (fire_with_reason "info" "power" "Utility Restored" reason)
        (fire_if (has set' ups_st_output_off) (fire_with_reason "error" "power" "Output Off" reason)
          (fire_if (has cleared ups_st_output_off)
            (fire_with_reason "info" "power" "Output Restored" reason)
            (fire_if (has set' ups_st_bypass)
              (fire_with_reason "warning" "mode" "Bypass Entered" reason)
              (fire_if (has cleared ups_st_bypass)
                (fire_with_reason "info" "mode" "Bypass Exited" reason)
                (fire_if (has set' fault_bits)
                  (fire_with_reason "error" "fault" "Fault Detected" reason)
                  (fire_if (has cleared fault_bits)
                    (fire_with_reason "info" "fault" "Fault Cleared" reason)
                    (fire_if (has set' ups_st_overload)
                      (fire_with_reason "error" "fault" "Overload" reason)
                      (fire_if (has cleared ups_st_overload)
                        (fire_with_reason "info" "fault" "Overload Cleared" reason) [])))))))))

unfoldable pub emit_transitions : ℕ → ℕ → ℕ → List Event
unfolding emit_all
emit_transitions prev status reason =
    let changed = bit_and (bit_xor prev status) fast_owned_bits in
    if changed == 0 then [] else emit_all (bit_and changed status) (bit_and changed prev) reason

-- What a tick does: the new state, the events, and the row for xfer_history if one is written.
pub record Ticked : Type 0 where
  pub loop : FastLoop
  pub events : List Event
  pub persisted : Option (ℕ × ℕ)

pub tick_read : FastLoop → ℕ → ℕ → ℕ → Ticked
unfolding emit_transitions
tick_read fl status reason now_ms =
    let (ring', recorded) = push fl.ring now_ms reason in
    record {
      loop = record { ring = ring'; prev_status_fast = status; first_tick = false };
      events = if fl.first_tick then [] else emit_transitions fl.prev_status_fast status reason;
      persisted = if recorded then some (reason, status) else none;
    }

-- The body of the thread's loop; each failed reading is a `continue`.
pub tick : FastLoop → Option ℕ → Option ℕ → ℕ → Ticked
unfolding tick_read
tick fl (some status) (some reason) now_ms = tick_read fl status reason now_ms
tick fl none reason now_ms = record { loop = fl; events = []; persisted = none }
tick fl (some status) none now_ms = record { loop = fl; events = []; persisted = none }
