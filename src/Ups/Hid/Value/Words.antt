-- ===== src/Ups/Hid/Value/Words.antt =====
-- The fast paths of `hid_field_read_raw` in src/ups/hid_parser.c on a field of one or two bytes at the start of its report.
use airies_ups_c.Base.{ℕ, ◌+◌, ◌*◌, ◌<◌, true, some, List, ◌∷◌, ◌≡◌, ap, arith}
use airies_ups_c.Base.Int.{pos}
use airies_ups_c.Ups.Hid.{Field, to_i32}
use airies_ups_c.Ups.Hid.Value.{hid_field_read_raw, read_buf, read_bytes, as_i32}

to_i32-small : (v w : ℕ) → v ≡ w → w < 65536 → to_i32 v ≡ pos w
to_i32-small v w e h = rw e (ground arith)

pub read_byte :
    (f : Field) (id low : ℕ) (rest : List ℕ)
    → f.bit_offset ≡ 0
    → f.bit_size ≡ 8
    → low < 256
    → hid_field_read_raw (some f) true (id ∷ low ∷ rest) ≡ some (pos low)
unfolding hid_field_read_raw read_buf read_bytes as_i32
read_byte f id low rest at' size h =
    rw (at', size) (ap some (to_i32-small (low + 0) low (omega arith) (omega arith)))

pub read_word :
    (f : Field) (id low high : ℕ) (rest : List ℕ)
    → f.bit_offset ≡ 0
    → f.bit_size ≡ 16
    → low < 256
    → high < 256
    → hid_field_read_raw (some f) true (id ∷ low ∷ high ∷ rest) ≡ some (pos (low + 256 * high))
unfolding hid_field_read_raw read_buf read_bytes as_i32
read_word f id low high rest at' size h k =
    rw (at', size)
      (ap some
        (to_i32-small (low + 256 * (high + 0)) (low + 256 * high) (omega arith) (omega arith)))
