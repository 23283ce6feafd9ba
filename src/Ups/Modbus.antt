-- ===== src/Ups/Modbus.antt =====
-- The pacing of Modbus operations in src/ups/ups_modbus.c. Times are nanoseconds of the monotonic
-- clock where they are not said to be milliseconds, in uint64_t; `nanosleep` is taken to sleep its time.
pub mod Gap
use airies_ups_c.Base.{ℕ, ◌+◌, ◌-◌, ◌*◌, ◌/◌, ◌%◌, ◌^◌, List, [], ◌∷◌, ◌==◌, leb, if◌then◌else◌}

abbrev pub ups_mb_min_gap_ms : ℕ
ups_mb_min_gap_ms = 50

-- The clock's milliseconds; the rest is cut off.
unfoldable pub monotonic_ms : ℕ → ℕ
monotonic_ms ns = ns / 1000000 % 2 ^ 64

-- How many milliseconds `pace` sleeps, `now` in milliseconds.
unfoldable pub pace : ℕ → ℕ → ℕ
pace last_op_ms now =
    if last_op_ms == 0
    then 0
    else let elapsed = (now + 2 ^ 64 - last_op_ms) % 2 ^ 64 in
      if leb ups_mb_min_gap_ms elapsed then 0 else ups_mb_min_gap_ms - elapsed

-- When an operation begins and ends on the line; `last_op_ms` is made of the end.
pub record Span : Type 0 where
  pub begins : ℕ
  pub ends : ℕ

-- `ups_mb_read`, `ups_mb_write` and `ups_mb_write_n`, called at `now`, with what the operation takes.
unfoldable pub paced : ℕ → ℕ → ℕ → Span
unfolding pace monotonic_ms
paced last_op_ms now takes =
    let begins = now + pace last_op_ms (monotonic_ms now) * 1000000 in
    record { begins = begins; ends = begins + takes }

-- A call: how long after the end of the last operation it comes, and what it takes.
pub record Call : Type 0 where
  pub idle : ℕ
  pub takes : ℕ

-- The operations that calls make; the last one before them has ended at `last`.
unfoldable pub spans : ℕ → List Call → List Span
unfolding paced monotonic_ms
spans last [] = []
spans last (c ∷ calls) =
    let s = paced (monotonic_ms last) (last + c.idle) c.takes in s ∷ spans s.ends calls
