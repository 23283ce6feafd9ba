-- ===== src/Ups/Modbus/Gap.antt =====
-- The gaps between the operations of src/ups/ups_modbus.c.
use airies_ups_c.Base.{
  ℕ, ◌+◌, ◌-◌, ◌*◌, ◌/◌, ◌%◌, ◌^◌, ◌≤◌, ◌<◌, ◌≡◌, false, List, [], ◌∷◌, ◌==◌, arith,
}
use airies_ups_c.Ups.Modbus.{monotonic_ms, pace, paced, Span, Call, spans}

-- On the clock's milliseconds each operation begins 50 after the one before has ended, at the earliest; in
-- nanoseconds that is more than 49 ms.
abbrev pub Spaced : ℕ → List Span → Type 0
Spaced last [] = Unit {0}
Spaced last (s ∷ later) =
    (last / 1000000 + 50 ≤ s.begins / 1000000)
    × (last + 49000000 < s.begins)
    × (s.begins ≤ s.ends)
    × Spaced s.ends later

-- All of it happens before the clock's milliseconds wrap.
abbrev pub AllBefore : List Span → Type 0
AllBefore [] = Unit {0}
AllBefore (s ∷ later) = (s.ends / 1000000 < 2 ^ 64) × AllBefore later

pace-gap : (last now : ℕ) → 0 < last → last ≤ now → now < 2 ^ 64 → last + 50 ≤ now + pace last now
unfolding pace
pace-gap last now pos order room =
    let elapsed : (now + 2 ^ 64 - last) % 2 ^ 64 ≡ now - last = omega arith in
    let known : (last == 0) ≡ false = ground arith in rw (known, elapsed) (ground arith)

monotonic_ms-small : (ns : ℕ) → ns / 1000000 < 2 ^ 64 → monotonic_ms ns ≡ ns / 1000000
unfolding monotonic_ms
monotonic_ms-small ns room = omega arith

-- A call that comes `idle` after the end of the last operation.
begins-late :
    (last idle wait : ℕ)
    → last / 1000000 + 50 ≤ (last + idle) / 1000000 + wait
    → (last / 1000000 + 50 ≤ (last + idle + wait * 1000000) / 1000000)
      × (last + 49000000 < last + idle + wait * 1000000)
begins-late last idle wait h = (omega arith, omega arith)

-- After a first operation that ends past the clock's first millisecond, whatever the times of the calls are, and
-- until the milliseconds wrap: by the clock in milliseconds, which cuts the rest off, each operation begins at
-- least 50 after the one before it has ended, so in fact more than 49 ms after it.
pub spans-Spaced :
    (calls : List Call) (last : ℕ)
    → 1000000 ≤ last
    → last / 1000000 < 2 ^ 64
    → AllBefore (spans last calls)
    → Spaced last (spans last calls)
unfolding spans paced
spans-Spaced [] last pos started room = tt
spans-Spaced (c ∷ calls) last pos started room =
    let s = paced (monotonic_ms last) (last + c.idle) c.takes in
    let called : (last + c.idle) / 1000000 < 2 ^ 64 = omega (arith, room.0) in
    let gap = begins-late last c.idle (pace (monotonic_ms last) (monotonic_ms (last + c.idle))) (
      omega (
        arith,
        monotonic_ms-small last started,
        monotonic_ms-small (last + c.idle) called,
        pace-gap (monotonic_ms last) (monotonic_ms (last + c.idle))
            (omega (arith, monotonic_ms-small last started))
            (omega
              (arith, monotonic_ms-small last started, monotonic_ms-small (last + c.idle) called))
            (omega (arith, monotonic_ms-small (last + c.idle) called)),
      )) in
    (gap.0, gap.1, omega arith, spans-Spaced calls s.ends (omega arith) room.0 room.1)
