-- ===== src/Ups/Hid/Value/Aligned.antt =====
-- The fast paths of `hid_field_read_raw` in src/ups/hid_parser.c against its general path.
use mathlib.Core.Path.{subst}
use airies_ups_c.Base.{
  ◌≢◌, dec_lt, ℕ, zero, suc, ◌+◌, ◌-◌, ◌*◌, ◌/◌, ◌%◌, ◌^◌, ◌≤◌, ◌<◌, ◌≡◌, ◌⊎◌, ◌↔◌, refl, ◌∙◌, ap,
  ap₂, sym, Bool, true, false, ◌&&◌, Option, none, some, List, [], ◌∷◌, ◌==◌, ltb, length, get_or,
  get_elem?, bit_or, arith, inl, inr,
}
use airies_ups_c.Base.Text.{bytes}
use airies_ups_c.Ups.Hid.Value.{
  join_bytes, bit_at, extract, extend_sign, extended, read_general, read_bytes, as_i32, read_buf,
}
use airies_ups_c.Base.Bits.{has, has_pow, test_bit}
use airies_ups_c.Base.Int.{ℤ, pos, ltb_ℤ, ◌-ℤ◌}
use airies_ups_c.Ups.Hid.{Field, to_i32}
use airies_ups_c.Ups.Hid.Value.Bits.{pow_next, extract_bits}

pow_twice : (b : ℕ) → 2 ^ (b + 2) ≡ 2 ^ b * 4
pow_twice b =
    let e : b + 2 ≡ b + 1 + 1 = omega arith in rw e (omega (arith, pow_next b, pow_next (b + 1)))

pow_four : (b : ℕ) → 2 ^ (b + 4) ≡ 2 ^ b * 16
pow_four b =
    let e : b + 4 ≡ b + 2 + 2 = omega arith in rw e (omega (arith, pow_twice b, pow_twice (b + 2)))

pow_byte : (b : ℕ) → 2 ^ (b + 8) ≡ 2 ^ b * 256
pow_byte b =
    let e : b + 8 ≡ b + 4 + 4 = omega arith in rw e (omega (arith, pow_four b, pow_four (b + 4)))

abbrev pub AllBytes : List ℕ → Type 0
AllBytes [] = Unit {0}
AllBytes (v ∷ buf) = (v < 256) × AllBytes buf

get_byte :
    (buf : List ℕ) (i v : ℕ)
    → AllBytes buf
    → get_elem? buf i ≡ some v
    → (get_or buf i 0 ≡ v) × (v < 256)
get_byte [] i v h e = cc
get_byte (x ∷ buf) zero v h e = ground arith
get_byte (x ∷ buf) (suc i) v h e = get_byte buf i v h.1 e

get_in : (buf : List ℕ) (i : ℕ) → i < length buf → (v : ℕ) × (get_elem? buf i ≡ some v)
get_in [] i h = elim h [ ]
get_in (x ∷ buf) zero h = (x, refl)
get_in (x ∷ buf) (suc i) h = get_in buf i (omega arith)

get_out : (buf : List ℕ) (i : ℕ) → length buf ≤ i → get_elem? buf i ≡ none
get_out [] i h = refl
get_out (x ∷ buf) zero h = absurd (omega arith)
get_out (x ∷ buf) (suc i) h = get_out buf i (omega arith)

read_bytes_in :
    (n : ℕ) (buf : List ℕ) (i : ℕ) → i + n ≤ length buf → (v : ℕ) × (read_bytes n buf i ≡ some v)
unfolding read_bytes
read_bytes_in zero buf i h = (0, refl)
read_bytes_in (suc n) buf i h =
    let first = get_in buf i (omega arith) in
    let rest = read_bytes_in n buf (i + 1) (omega arith) in
    (first.0 + 256 * rest.0, rw (first.1, rest.1) refl)

read_bytes_out :
    (n : ℕ) (buf : List ℕ) (i : ℕ) → 0 < n → length buf < i + n → read_bytes n buf i ≡ none
unfolding read_bytes
read_bytes_out zero buf i p h = elim p [ ]
read_bytes_out (suc n) buf i p h = elim (dec_lt i (length buf)) [
  | no out ↦ rw (get_out buf i (omega arith)) refl
  | yes in' ↦
      let first = get_in buf i in' in
      rw (first.1, read_bytes_out n buf (i + 1) (omega arith) (omega arith)) refl
]

-- The bits of an aligned byte.
bit_at_byte :
    (buf : List ℕ) (offset b q i : ℕ)
    → offset + b ≡ 8 * q
    → q < 63
    → i < 8
    → bit_at buf offset (b + i) ≡ test_bit i (get_or buf (1 + q) 0)
unfolding bit_at
bit_at_byte buf offset b q i e h k =
    let place : (offset + (b + i)) % 65536 ≡ 8 * q + i = omega arith in
    let byte : (8 * q + i) / 8 ≡ q = omega arith in
    let bit : (8 * q + i) % 8 ≡ i = omega arith in
    let room : ltb (1 + q) 64 ≡ true = ground arith in
    rw (place, byte, bit, room) (has_pow i (get_or buf (1 + q) 0))

join_bytes-some :
    (low high : Option ℕ) (v : ℕ)
    → join_bytes low high ≡ some v
    → (v0 : ℕ) × ((w : ℕ) × ((low ≡ some v0) × (high ≡ some w) × (v ≡ v0 + 256 * w)))
join_bytes-some none high v h = cc
join_bytes-some (some v0) none v h = cc
join_bytes-some (some v0) (some w) v h = (v0, (w, (refl, refl, ground arith)))

times_byte : (b v : ℕ) → v < 256 → 2 ^ b * v + 2 ^ b ≤ 2 ^ b * 256
times_byte b v h = grind arith

extract_bytes :
    (buf : List ℕ) (offset n left m b q res v : ℕ)
    → AllBytes buf
    → m ≡ 8 * n + left
    → offset + b ≡ 8 * q
    → q + n ≤ 63
    → read_bytes n buf (1 + q) ≡ some v
    → b + 8 * n ≤ 32
    → res < 2 ^ b
    → extract m b offset buf res ≡ extract left (b + 8 * n) offset buf (res + 2 ^ b * v)
unfolding read_bytes
extract_bytes buf offset zero left m b q res v h e o lt r k small =
    let f : m ≡ left = omega arith in
    let g : v ≡ 0 = ground arith in
    let j : b + 0 ≡ b = omega arith in
    let z : res + 2 ^ b * 0 ≡ res = omega arith in rw (f, g, j, z) refl
extract_bytes buf offset (suc n) left m b q res v h e o lt r k small =
    let parts = join_bytes-some (get_elem? buf (1 + q)) (read_bytes n buf (1 + q + 1)) v r in
    let (v0, (w, (first, rest, value))) = parts in
    let byte = get_byte buf (1 + q) v0 h first in
    let f : m ≡ 8 + (8 * n + left) = omega arith in
    let next : 1 + q + 1 ≡ 1 + (q + 1) = omega arith in
    let j : b + 8 + 8 * n ≡ b + 8 * suc n = omega arith in
    extract_bits buf offset 8 (8 * n + left) m b v0 res f
      (λ i below. bit_at_byte buf offset b q i o (omega arith) below ∙ ap (test_bit i) byte.0)
      (omega arith) small byte.1
    ∙ extract_bytes buf offset n left (8 * n + left) (b + 8) (q + 1) (res + 2 ^ b * v0) w h refl
        (omega arith) (omega arith) (ap (read_bytes n buf) (sym next) ∙ rest) (omega arith)
        (omega (arith, pow_byte b, times_byte b v0 byte.1))
    ∙ ap₂ (λ k x. extract left k offset buf x) j
        (omega (arith, ap (λ (t : ℕ). t * w) (pow_byte b), ap (λ (t : ℕ). 2 ^ b * t) value))

-- The sizes that have a fast path.
abbrev pub IsFast : Field → Type 0
IsFast f = (f.bit_offset % 8 ≡ 0) × ((f.bit_size ≡ 8) ⊎ ((f.bit_size ≡ 16) ⊎ (f.bit_size ≡ 32)))

fast-bytes :
    (f : Field) (buf : List ℕ) (n : ℕ)
    → f.bit_offset % 8 ≡ 0
    → f.bit_size ≡ 8 * n
    → (n ≡ 1) ⊎ ((n ≡ 2) ⊎ (n ≡ 4))
    → read_buf f buf ≡ as_i32 (read_bytes n buf (1 + f.bit_offset / 8))
unfolding read_buf
fast-bytes f buf n o s (inl e) = let a : f.bit_size ≡ 8 = omega arith in rw (o, a, e) refl
fast-bytes f buf n o s (inr (inl e)) = let a : f.bit_size ≡ 16 = omega arith in rw (o, a, e) refl
fast-bytes f buf n o s (inr (inr e)) = let a : f.bit_size ≡ 32 = omega arith in rw (o, a, e) refl

general-bytes :
    (f : Field) (buf : List ℕ) (n v : ℕ)
    → AllBytes buf
    → f.bit_offset % 8 ≡ 0
    → f.bit_size ≡ 8 * n
    → n ≤ 4
    → f.bit_offset / 8 + n ≤ 63
    → read_bytes n buf (1 + f.bit_offset / 8) ≡ some v
    → read_general f buf ≡ some (to_i32 (extend_sign f v))
unfolding read_general extended extract
general-bytes f buf n v h o s small room r =
    let loop : extract f.bit_size 0 f.bit_offset buf 0 ≡ some v =
      extract_bytes buf f.bit_offset n 0 f.bit_size 0 (f.bit_offset / 8) 0 v h (omega arith)
        (omega arith) room r (omega arith) (omega arith)
      ∙ ap some (omega arith) in
    rw loop refl

bytes_of :
    (f : Field) → IsFast f → (n : ℕ) × ((f.bit_size ≡ 8 * n) × ((n ≡ 1) ⊎ ((n ≡ 2) ⊎ (n ≡ 4))))
bytes_of f (o, inl e) = (1, (omega arith, inl refl))
bytes_of f (o, inr (inl e)) = (2, (omega arith, inr (inl refl)))
bytes_of f (o, inr (inr e)) = (4, (omega arith, inr (inr refl)))

as_i32-none : (o : Option ℕ) (z : ℤ) → o ≡ none → as_i32 o ≡ none
unfolding as_i32
as_i32-none o z e = rw e refl

as_i32-some : (o : Option ℕ) (v : ℕ) → o ≡ some v → as_i32 o ≡ some (to_i32 v)
unfolding as_i32
as_i32-some o v e = rw e refl

some-ne-none : {A : Type 0} {a : A} → some a ≢ none
some-ne-none e = cc

-- An aligned field of 8, 16 or 32 bits of a 64-byte report is read without an index outside the
-- buffer exactly if it ends within the 63 bytes after the report number.
pub fast_in_bounds :
    (f : Field) (buf : List ℕ)
    → IsFast f
    → length buf ≡ 64
    → (read_buf f buf ≢ none) ↔ (f.bit_offset + f.bit_size ≤ 8 * 63)
fast_in_bounds f buf fast size =
    let (n, (s, which)) = bytes_of f fast in
    let path = fast-bytes f buf n fast.0 s which in
    (
      λ ok. elim (dec_lt 63 (f.bit_offset / 8 + n)) [
        | yes out ↦ absurd (
            ok (
              path
              ∙ as_i32-none _ (pos 0)
                  (read_bytes_out n buf (1 + f.bit_offset / 8) (ground arith) (omega arith))))
        | no in' ↦ omega (arith, fast.0)
      ],
      λ fits.
          let r = read_bytes_in n buf (1 + f.bit_offset / 8) (omega (arith, fast.0)) in
          λ gone. some-ne-none (sym (as_i32-some _ r.0 r.1) ∙ sym path ∙ gone),
    )

-- A fast path gives what the general path would give, for a field that lies in the buffer and
-- whose logical minimum is not negative.
pub fast-general :
    (f : Field) (buf : List ℕ)
    → IsFast f
    → length buf ≡ 64
    → AllBytes buf
    → f.bit_offset + f.bit_size ≤ 8 * 63
    → ltb_ℤ f.logical_min (pos 0) ≡ false
    → read_buf f buf ≡ read_general f buf
unfolding extend_sign
fast-general f buf fast size bytes fits sign =
    let (n, (s, which)) = bytes_of f fast in
    let r = read_bytes_in n buf (1 + f.bit_offset / 8) (omega (arith, fast.0)) in
    let general =
      general-bytes f buf n r.0 bytes fast.0 s (ground arith) (omega (arith, fast.0)) r.1 in
    fast-bytes f buf n fast.0 s which ∙ as_i32-some _ r.0 r.1 ∙ sym (general ∙ rw sign refl)

-- The value 128 + k, and the `n` - 1 after it, have the top bit of a byte set, and the extension sets
-- the 24 bits above.
signed_run : ℕ → ℕ → Bool
signed_run zero k = true
signed_run (suc n) k =
    has (128 + k) (2 ^ 7)
    && bit_or (128 + k) (2 ^ 32 - 2 ^ 8) == 128 + k + 2 ^ 32 - 2 ^ 8
    && signed_run n (k + 1)

signed_at :
    (n k d : ℕ)
    → signed_run n k ≡ true
    → d < n
    → (has (128 + (k + d)) (2 ^ 7) ≡ true)
      × (bit_or (128 + (k + d)) (2 ^ 32 - 2 ^ 8) ≡ 128 + (k + d) + 2 ^ 32 - 2 ^ 8)
unfolding signed_run
signed_at zero k d run lt = absurd (omega arith)
signed_at (suc n) k zero run lt =
    let same : k + 0 ≡ k = omega arith in rw same (ground arith, ground arith)
signed_at (suc n) k (suc d) run lt =
    let same : k + suc d ≡ k + 1 + d = omega arith in
    rw same (signed_at n (k + 1) d (ground arith) (omega arith))

signed_bytes : signed_run 128 0 ≡ true
unfolding signed_run has
signed_bytes = refl

extend_byte :
    (f : Field) (v : ℕ)
    → f.bit_size ≡ 8
    → ltb_ℤ f.logical_min (pos 0) ≡ true
    → 128 ≤ v
    → v < 256
    → to_i32 (extend_sign f v) ≡ pos v -ℤ pos 256
unfolding extend_sign ◌-ℤ◌
extend_byte f v s sign high byte =
    let same : 128 + (0 + (v - 128)) ≡ v = omega arith in
    let h = signed_at 128 0 (v - 128) signed_bytes (omega arith) in
    let top : has v (2 ^ 7) ≡ true = subst (λ w. has w (2 ^ 7) ≡ true) same h.0 in
    let set' : bit_or v (2 ^ 32 - 2 ^ 8) ≡ v + 2 ^ 32 - 2 ^ 8 =
      subst (λ w. bit_or w (2 ^ 32 - 2 ^ 8) ≡ w + 2 ^ 32 - 2 ^ 8) same h.1 in
    rw (sign, s, top, set') (ground arith)

-- With a negative logical minimum the fast path of eight bits forgets the sign: it gives the byte
-- itself, where the general path would give the byte less 256 for a byte from 128 on.
pub fast_sign :
    (f : Field) (buf : List ℕ) (v : ℕ)
    → f.bit_offset % 8 ≡ 0
    → f.bit_size ≡ 8
    → AllBytes buf
    → f.bit_offset / 8 < 63
    → get_elem? buf (1 + f.bit_offset / 8) ≡ some v
    → ltb_ℤ f.logical_min (pos 0) ≡ true
    → 128 ≤ v
    → (read_buf f buf ≡ some (pos v)) × (read_general f buf ≡ some (pos v -ℤ pos 256))
unfolding extend_sign read_bytes
fast_sign f buf v o s bytes room at' sign high =
    let r : read_bytes 1 buf (1 + f.bit_offset / 8) ≡ some v = rw at' (ap some (omega arith)) in
    let byte = get_byte buf (1 + f.bit_offset / 8) v bytes at' in
    (
      fast-bytes f buf 1 o (omega arith) (inl refl) ∙ as_i32-some _ v r ∙ ap some (ground arith),
      general-bytes f buf 1 v bytes o (omega arith) (omega arith) (omega arith) r
          ∙ ap some (extend_byte f v s sign high byte.1),
    )
