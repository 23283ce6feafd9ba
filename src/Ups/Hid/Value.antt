-- ===== src/Ups/Hid/Value.antt =====
-- `hid_field_read_raw` of src/ups/hid_parser.c. `buf` is the report that the ioctl filled in; `none` is
-- undefined behaviour: an index outside `buf`, or a shift by 32 or more.
pub mod Bits
pub mod Aligned
pub mod Words
use airies_ups_c.Base.{
  ℕ, zero, suc, ◌+◌, ◌-◌, ◌*◌, ◌/◌, ◌%◌, ◌^◌, Bool, ◌&&◌, Option, none, some, List, ◌==◌, ltb, leb,
  if◌then◌else◌, get_or, get_elem?, bit_or,
}
use airies_ups_c.Base.Bits.{has}
use airies_ups_c.Base.Int.{ℤ, pos, ltb_ℤ}
use airies_ups_c.Ups.Hid.{Field, to_i32}

-- `buf[byte_idx] & (1u << bit_idx)` for the bit `b` of a field, false outside the buffer.
unfoldable pub bit_at : List ℕ → ℕ → ℕ → Bool
bit_at buf offset b =
    let abs_bit = (offset + b) % 65536 in
    ltb (1 + abs_bit / 8) 64 && has (get_or buf (1 + abs_bit / 8) 0) (2 ^ (abs_bit % 8))

-- The loop over the bits from `b` on; the first argument is the bits left.
pub extract : ℕ → ℕ → ℕ → List ℕ → ℕ → Option ℕ
extract zero b offset buf result = some result
extract (suc left) b offset buf result =
    let rest =
      extract left (b + 1) offset buf
        (if bit_at buf offset b then bit_or result (2 ^ b) else result) in
    if bit_at buf offset b && leb 32 b then none else rest

-- The sign extension; `~((1u << bits) - 1)` is 2 ^ 32 - 2 ^ bits.
pub extend_sign : Field → ℕ → ℕ
extend_sign f result =
    if ltb_ℤ f.logical_min (pos 0) && ltb 0 f.bit_size && ltb f.bit_size 32
    then (if has result (2 ^ (f.bit_size - 1))
        then bit_or result (2 ^ 32 - 2 ^ f.bit_size)
        else result)
    else result

extended : Field → Option ℕ → Option ℤ
unfolding extend_sign
extended f none = none
extended f (some result) = some (to_i32 (extend_sign f result))

-- The general path.
pub read_general : Field → List ℕ → Option ℤ
unfolding extract extended
read_general f buf = extended f (extract f.bit_size 0 f.bit_offset buf 0)

abbrev pub join_bytes : Option ℕ → Option ℕ → Option ℕ
join_bytes none high = none
join_bytes (some v) none = none
join_bytes (some v) (some w) = some (v + 256 * w)

-- `n` bytes of the buffer from an index on, the lowest first; `|` of bytes at their places is their sum.
pub read_bytes : ℕ → List ℕ → ℕ → Option ℕ
read_bytes zero buf i = some 0
read_bytes (suc n) buf i = join_bytes (get_elem? buf i) (read_bytes n buf (i + 1))

pub as_i32 : Option ℕ → Option ℤ
as_i32 none = none
as_i32 (some v) = some (to_i32 v)

-- The fast paths for aligned fields of 8, 16 and 32 bits, and the general one.
pub read_buf : Field → List ℕ → Option ℤ
unfolding read_general read_bytes as_i32
read_buf f buf =
    if f.bit_offset % 8 == 0 && f.bit_size == 8
    then as_i32 (read_bytes 1 buf (1 + f.bit_offset / 8))
    else if f.bit_offset % 8 == 0 && f.bit_size == 16
    then as_i32 (read_bytes 2 buf (1 + f.bit_offset / 8))
    else if f.bit_offset % 8 == 0 && f.bit_size == 32
    then as_i32 (read_bytes 4 buf (1 + f.bit_offset / 8))
    else read_general f buf

-- The field may be NULL, and the ioctl may fail.
pub hid_field_read_raw : Option Field → Bool → List ℕ → Option ℤ
unfolding read_buf
hid_field_read_raw none ok buf = some (pos 0)
hid_field_read_raw (some f) ok buf = if ok then read_buf f buf else some (pos 0)
