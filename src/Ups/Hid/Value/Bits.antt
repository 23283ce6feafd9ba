-- ===== src/Ups/Hid/Value/Bits.antt =====
-- The bit loop of `hid_field_read_raw` in src/ups/hid_parser.c reads the number that stands in the buffer.
use airies_ups_c.Base.{
  ℕ, zero, suc, ◌+◌, ◌*◌, ◌/◌, ◌%◌, ◌^◌, ◌≤◌, ◌<◌, ◌≡◌, refl, ◌∙◌, ap, ap₂, Bool, true, false, List,
  ◌==◌, leb, if◌then◌else◌, bit_or, arith, Bool-cases, inl, inr,
}
use airies_ups_c.Base.Bits.{test_bit, bit_or_step}
use native.Mathlib.Nat.{pow-suc}
use airies_ups_c.Ups.Hid.Value.{bit_at, extract}

-- Setting a bit above a number adds it.
bit_or_above : (b r : ℕ) → r < 2 ^ b → bit_or r (2 ^ b) ≡ r + 2 ^ b
bit_or_above zero r h = let e : r ≡ 0 = omega arith in rw e refl
bit_or_above (suc b) r h =
    ground (arith, bit_or_step r (2 ^ suc b), pow-suc 2 b, bit_or_above b (r / 2))

pub pow_next : (b : ℕ) → 2 ^ (b + 1) ≡ 2 ^ b * 2
pow_next b = let e : b + 1 ≡ suc b = omega arith in rw e (pow-suc 2 b)

module _ (buf : List ℕ) (offset : ℕ) where
  extract_one :
      (left b res : ℕ) (t : Bool)
      → bit_at buf offset b ≡ t
      → b < 32
      → res < 2 ^ b
      → extract (suc left) b offset buf res
        ≡ extract left (b + 1) offset buf (if t then res + 2 ^ b else res)
  unfolding extract
  extract_one left b res true e h k =
      let small : leb 32 b ≡ false = ground arith in rw (e, small, bit_or_above b res k) refl
  extract_one left b res false e h k = rw e refl

  grow :
      (b w res : ℕ)
      → (if w % 2 == 1 then res + 2 ^ b else res) + 2 ^ (b + 1) * (w / 2) ≡ res + 2 ^ b * w
  grow b w res = elim (Bool-cases (w % 2 == 1)) [
    | inl odd ↦
        let e : w ≡ 2 * (w / 2) + 1 = ground arith in
        rw odd
          (omega (arith, ap (λ (t : ℕ). 2 ^ b * t) e, ap (λ (t : ℕ). t * (w / 2)) (pow_next b)))
    | inr even ↦
        let e : w ≡ 2 * (w / 2) = ground arith in
        rw even
          (omega (arith, ap (λ (t : ℕ). 2 ^ b * t) e, ap (λ (t : ℕ). t * (w / 2)) (pow_next b)))
  ]

  -- `n` rounds of the loop read the number `w` whose bits stand at the field's place.
  pub extract_bits :
      (n left m b w res : ℕ)
      → m ≡ n + left
      → ((i : ℕ) → i < n → bit_at buf offset (b + i) ≡ test_bit i w)
      → b + n ≤ 32
      → res < 2 ^ b
      → w < 2 ^ n
      → extract m b offset buf res ≡ extract left (b + n) offset buf (res + 2 ^ b * w)
  unfolding test_bit
  extract_bits zero left m b w res e bits h k lt =
      let f : m ≡ left = omega arith in
      let g : w ≡ 0 = omega arith in
      let j : b + 0 ≡ b = omega arith in
      let r : res + 2 ^ b * 0 ≡ res = omega arith in rw (f, g, j, r) refl
  extract_bits (suc n) left m b w res e bits h k lt =
      let f : m ≡ suc (n + left) = omega arith in
      let j : b + 1 + n ≡ b + suc n = omega arith in
      rw f (
        extract_one (n + left) b res (w % 2 == 1) (ground (arith, bits 0)) (omega arith) k
        ∙ extract_bits n left (n + left) (b + 1) (w / 2) (if w % 2 == 1 then res + 2 ^ b else res)
            refl (λ i lt. shifted i (bits (suc i) (omega arith))) (omega arith)
            (ground (arith, pow_next b)) (omega (arith, pow-suc 2 n))
        ∙ ap₂ (λ k r. extract left k offset buf r) j (grow b w res))
    where
      shifted :
          (i : ℕ)
          → bit_at buf offset (b + suc i) ≡ test_bit i (w / 2)
          → bit_at buf offset (b + 1 + i) ≡ test_bit i (w / 2)
      shifted i e = let f : b + 1 + i ≡ b + suc i = omega arith in rw f e
