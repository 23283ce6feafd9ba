-- ===== src/Monitor/FastLoop/Transitions.antt =====
-- What the fast loop of src/monitor/fast_loop.c reports of a change of the status word.
use airies_ups_c.Base.{
  ap, false, refl, sym, ◌∙◌, inl, inr, Option, none, some, ◌==◌, if◌then◌else◌, ==_iff, Bool-cases,
  ◌||◌, List, [], ℕ, ◌^◌, bit_and, bit_xor, ◌≡◌, Bool, true, not, ◌&&◌, arith,
}
use airies_ups_c.Base.Bits.{bit_and_zero, has-bit_or, has, has-bit_and, has-bit_xor}
use airies_ups_c.Monitor.FastLoop.{tick, FastLoop, emit_all, emit_transitions, fast_owned_bits}
use airies_ups_c.Ups.Flags.{
  ups_st_on_battery, ups_st_bypass, ups_st_output_off, ups_st_fault, ups_st_fault_state,
  ups_st_overload,
}
use airies_ups_c.Monitor.Events.{fire_with_reason, fire_if, Event}
use mathlib.Core.Bool.{xor}

-- A bit that rose, or fell, from one status word to the next.
abbrev pub rose : ℕ → ℕ → ℕ → Bool
rose mask prev status = not (has prev mask) && has status mask

abbrev pub fell : ℕ → ℕ → ℕ → Bool
fell mask prev status = has prev mask && not (has status mask)

-- The specification: one event for each owned bit that rose or fell, the two fault bits together.
unfoldable pub report : ℕ → ℕ → ℕ → List Event
report prev status reason =
    fire_if (rose ups_st_on_battery prev status)
      (fire_with_reason "warning" "power" "On Battery" reason)
      (fire_if (fell ups_st_on_battery prev status)
        (fire_with_reason "info" "power" "Utility Restored" reason)
        (fire_if (rose ups_st_output_off prev status)
          (fire_with_reason "error" "power" "Output Off" reason)
          (fire_if (fell ups_st_output_off prev status)
            (fire_with_reason "info" "power" "Output Restored" reason)
            (fire_if (rose ups_st_bypass prev status)
              (fire_with_reason "warning" "mode" "Bypass Entered" reason)
              (fire_if (fell ups_st_bypass prev status)
                (fire_with_reason "info" "mode" "Bypass Exited" reason)
                (fire_if (rose ups_st_fault prev status || rose ups_st_fault_state prev status)
                  (fire_with_reason "error" "fault" "Fault Detected" reason)
                  (fire_if (fell ups_st_fault prev status || fell ups_st_fault_state prev status)
                    (fire_with_reason "info" "fault" "Fault Cleared" reason)
                    (fire_if (rose ups_st_overload prev status)
                      (fire_with_reason "error" "fault" "Overload" reason)
                      (fire_if (fell ups_st_overload prev status)
                        (fire_with_reason "info" "fault" "Overload Cleared" reason) [])))))))))

-- The fast loop owns each of the six bits.
owned_each :
    (has fast_owned_bits (2 ^ 2) ≡ true)
    × (has fast_owned_bits (2 ^ 4) ≡ true)
    × (has fast_owned_bits (2 ^ 3) ≡ true)
    × (has fast_owned_bits (2 ^ 5) ≡ true)
    × (has fast_owned_bits (2 ^ 15) ≡ true)
    × (has fast_owned_bits (2 ^ 21) ≡ true)
unfolding has
owned_each = (refl, refl, refl, refl, refl, refl)

module _ (prev status : ℕ) where
  abbrev changed : ℕ
  changed = bit_and (bit_xor prev status) fast_owned_bits

  -- A bit of the owned mask.
  owned_bit :
      (k : ℕ)
      → has fast_owned_bits (2 ^ k) ≡ true
      → (has (bit_and changed status) (2 ^ k) ≡ rose (2 ^ k) prev status)
        × (has (bit_and changed prev) (2 ^ k) ≡ fell (2 ^ k) prev status)
  unfolding xor
  owned_bit k own = ground (
    arith,
    has-bit_and k changed status,
    has-bit_and k changed prev,
    has-bit_and k (bit_xor prev status) fast_owned_bits,
    has-bit_xor k prev status,
  )

  rises :
      (k : ℕ)
      → has fast_owned_bits (2 ^ k) ≡ true
      → has (bit_and changed status) (2 ^ k) ≡ rose (2 ^ k) prev status
  rises k own = (owned_bit k own).0

  falls :
      (k : ℕ)
      → has fast_owned_bits (2 ^ k) ≡ true
      → has (bit_and changed prev) (2 ^ k) ≡ fell (2 ^ k) prev status
  falls k own = (owned_bit k own).1

  emit_all-report :
      (reason : ℕ)
      → emit_all (bit_and changed status) (bit_and changed prev) reason ≡ report prev status reason
  unfolding emit_all report
  emit_all-report reason = rw (
    rises 2 owned_each.0,
    falls 2 owned_each.0,
    rises 4 owned_each.1,
    falls 4 owned_each.1,
    rises 3 owned_each.2,
    falls 3 owned_each.2,
    has-bit_or (bit_and changed status) (2 ^ 5) (2 ^ 15),
    has-bit_or (bit_and changed prev) (2 ^ 5) (2 ^ 15),
    rises 5 owned_each.3,
    falls 5 owned_each.3,
    rises 15 owned_each.4,
    falls 15 owned_each.4,
    rises 21 owned_each.5,
    falls 21 owned_each.5,
  )

  -- If no owned bit changed, the statements below the early return would fire nothing.
  emit_all_unchanged :
      (reason : ℕ)
      → changed ≡ 0
      → emit_all (bit_and changed status) (bit_and changed prev) reason ≡ []
  unfolding emit_all has
  emit_all_unchanged reason e = rw (e, bit_and_zero status, bit_and_zero prev)

  -- A change of the status word is reported by exactly one event for each owned bit that rose or
  -- fell (the two fault bits count as one), in a fixed order, each with the reason given, and by
  -- no other event; the early return loses none.
  pub emit_transitions-report :
      (reason : ℕ) → emit_transitions prev status reason ≡ report prev status reason
  unfolding emit_transitions
  emit_transitions-report reason = elim (Bool-cases (changed == 0)) [
    | inl same ↦
        rw same
          (sym (emit_all_unchanged reason ((==_iff changed 0).0 same)) ∙ emit_all-report reason)
    | inr differs ↦ rw differs (emit_all-report reason)
  ]

-- A tick with both readings fires nothing at first and the report of the change after that, and keeps
-- the status; a tick with a failed reading changes nothing, fires nothing and stores nothing.
pub tick-report :
    (fl : FastLoop) (status reason now_ms : ℕ) (other : Option ℕ)
    → ((tick fl (some status) (some reason) now_ms).events
        ≡ (if fl.first_tick then [] else report fl.prev_status_fast status reason))
      × ((tick fl (some status) (some reason) now_ms).loop.prev_status_fast ≡ status)
      × ((tick fl (some status) (some reason) now_ms).loop.first_tick ≡ false)
      × (tick fl none other now_ms ≡ record { loop = fl; events = []; persisted = none })
      × (tick fl (some status) none now_ms ≡ record { loop = fl; events = []; persisted = none })
unfolding tick
tick-report fl status reason now_ms other = (
  ap (λ t. if fl.first_tick then [] else t)
      (emit_transitions-report fl.prev_status_fast status reason),
  refl,
  refl,
  refl,
  refl,
)
