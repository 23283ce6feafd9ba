-- ===== src/Base/Bits.antt =====
-- Bit masks of machine words: the laws of `bit_and`, `bit_or` and `bit_xor` digit by digit, the
-- bit test, and C's `(w & mask) != 0`.
use airies_ups_c.Base.{
  ap, ◌∙◌, dec_lt, ℕ, zero, suc, ◌+◌, ◌*◌, ◌/◌, ◌%◌, ◌^◌, ◌≤◌, ◌<◌, min, max, bit_and, bit_or,
  bit_xor, ◌≡◌, refl, Bool, false, not, ◌&&◌, ◌||◌, arith, ◌==◌,
}
use Prim.Native.Nat.{digits, bitwise, differ, bit_and-bitwise, bit_or-bitwise, bit_xor-bitwise}
use native.Mathlib.Nat.{pow-suc, le_refl}
use mathlib.Core.Bool.{xor}

-- The native operations go through the digits of their first argument, on fuel.
module _ (end : ℕ → ℕ) (digit : ℕ → ℕ → ℕ) where
  one_more : (fuel x y : ℕ) → x ≤ fuel → digits end digit (suc fuel) x y ≡ digits end digit fuel x y
  one_more zero zero y h = refl
  one_more (suc fuel) zero y h = refl
  one_more zero (suc x) y h = absurd (omega arith)
  one_more (suc fuel) (suc x) y h =
      ap (λ t. t * 2 + digit (suc x % 2) (y % 2)) (one_more fuel (suc x / 2) (y / 2) (omega arith))

  -- Any fuel that covers the number gives what the number itself gives as fuel.
  enough_fuel : (fuel x y : ℕ) → x ≤ fuel → digits end digit fuel x y ≡ digits end digit x x y
  enough_fuel zero x y h = let none_left : x ≡ 0 = omega arith in rw none_left
  enough_fuel (suc fuel) x y h = elim (dec_lt fuel x) [
    | yes above ↦ ap (λ t. digits end digit t x y) {x = suc fuel} {y = x} (omega arith)
    | no within ↦ one_more fuel x y (omega arith) ∙ enough_fuel fuel x y (omega arith)
  ]

  split_digit :
      (x y : ℕ)
      → bitwise end digit (suc x) y
        ≡ bitwise end digit (suc x / 2) (y / 2) * 2 + digit (suc x % 2) (y % 2)
  split_digit x y =
      ap (λ t. t * 2 + digit (suc x % 2) (y % 2)) (enough_fuel x (suc x / 2) (y / 2) (omega arith))

-- The lowest digit of each operation, and the rest.
pub bit_and_step : (x y : ℕ) → bit_and x y ≡ bit_and (x / 2) (y / 2) * 2 + min (x % 2) (y % 2)
bit_and_step zero y = omega (arith, bit_and-bitwise 0 y, bit_and-bitwise 0 (y / 2))
bit_and_step (suc x) y =
    rw (bit_and-bitwise (suc x) y, bit_and-bitwise (suc x / 2) (y / 2))
      (split_digit (λ _. 0) min x y)

pub bit_or_step : (x y : ℕ) → bit_or x y ≡ bit_or (x / 2) (y / 2) * 2 + max (x % 2) (y % 2)
bit_or_step zero y = omega (arith, bit_or-bitwise 0 y, bit_or-bitwise 0 (y / 2))
bit_or_step (suc x) y =
    rw (bit_or-bitwise (suc x) y, bit_or-bitwise (suc x / 2) (y / 2)) (split_digit (λ t. t) max x y)

pub bit_xor_step : (x y : ℕ) → bit_xor x y ≡ bit_xor (x / 2) (y / 2) * 2 + differ (x % 2) (y % 2)
bit_xor_step zero y = omega (arith, bit_xor-bitwise 0 y, bit_xor-bitwise 0 (y / 2))
bit_xor_step (suc x) y =
    rw (bit_xor-bitwise (suc x) y, bit_xor-bitwise (suc x / 2) (y / 2))
      (split_digit (λ t. t) differ x y)

-- bit `k` of the word `w`, `(w >> k) & 1`
unfoldable pub test_bit : ℕ → ℕ → Bool
test_bit zero w = w % 2 == 1
test_bit (suc k) w = test_bit k (w / 2)

-- `(w & mask) != 0`
unfoldable pub has : ℕ → ℕ → Bool
has w mask = not (bit_and w mask == 0)

-- Nothing is common with the empty mask.
meet_empty : (fuel w : ℕ) → w ≤ fuel → bit_and w 0 ≡ 0
meet_empty fuel zero within = refl
meet_empty zero (suc w) within = absurd (omega arith)
meet_empty (suc fuel) (suc w) within =
    ground (arith, bit_and_step (suc w) 0, meet_empty fuel (suc w / 2))

pub bit_and_zero : (m : ℕ) → bit_and 0 m ≡ 0
bit_and_zero m = bit_and-bitwise 0 m

pub has_pow : (k w : ℕ) → has w (2 ^ k) ≡ test_bit k w
unfolding has test_bit
has_pow zero w = ground (arith, bit_and_step w 1, meet_empty (w / 2) (w / 2))
has_pow (suc k) w = ground (arith, bit_and_step w (2 ^ suc k), pow-suc 2 k, has_pow k (w / 2))

pub test_bit-bit_and : (k a b : ℕ) → test_bit k (bit_and a b) ≡ (test_bit k a && test_bit k b)
unfolding test_bit
test_bit-bit_and zero a b = ground (arith, bit_and_step a b)
test_bit-bit_and (suc k) a b = ground (arith, bit_and_step a b, test_bit-bit_and k (a / 2) (b / 2))

pub test_bit-bit_or : (k a b : ℕ) → test_bit k (bit_or a b) ≡ (test_bit k a || test_bit k b)
unfolding test_bit
test_bit-bit_or zero a b = ground (arith, bit_or_step a b)
test_bit-bit_or (suc k) a b = ground (arith, bit_or_step a b, test_bit-bit_or k (a / 2) (b / 2))

-- The digit of an exclusive or, as a Boolean.
differ_lem : (a b : ℕ) → a < 2 → b < 2 → (differ a b == 1) ≡ xor (a == 1) (b == 1)
unfolding xor
differ_lem zero zero p q = refl
differ_lem zero (suc zero) p q = refl
differ_lem (suc zero) zero p q = refl
differ_lem (suc zero) (suc zero) p q = refl
differ_lem zero (suc (suc b)) p q = absurd (omega arith)
differ_lem (suc zero) (suc (suc b)) p q = absurd (omega arith)
differ_lem (suc (suc a)) b p q = absurd (omega arith)

differ-lt : (a b : ℕ) → a < 2 → b < 2 → differ a b < 2
differ-lt zero b p q = q
differ-lt (suc zero) zero p q = p
differ-lt (suc zero) (suc b) p q = omega arith
differ-lt (suc (suc a)) b p q = absurd (omega arith)

bit_xor-digit : (a b : ℕ) → bit_xor a b % 2 ≡ differ (a % 2) (b % 2)
bit_xor-digit a b =
    omega (arith, bit_xor_step a b, differ-lt (a % 2) (b % 2) (omega arith) (omega arith))

bit_xor-half : (a b : ℕ) → bit_xor a b / 2 ≡ bit_xor (a / 2) (b / 2)
bit_xor-half a b =
    omega (arith, bit_xor_step a b, differ-lt (a % 2) (b % 2) (omega arith) (omega arith))

pub test_bit-bit_xor : (k a b : ℕ) → test_bit k (bit_xor a b) ≡ xor (test_bit k a) (test_bit k b)
unfolding test_bit
test_bit-bit_xor zero a b =
    rw (bit_xor-digit a b) (differ_lem (a % 2) (b % 2) (omega arith) (omega arith))
test_bit-bit_xor (suc k) a b = rw (bit_xor-half a b) (test_bit-bit_xor k (a / 2) (b / 2))

-- A mask of several bits: some bit of it is set.
has-bit_or_fuel : (f w m n : ℕ) → w ≤ f → has w (bit_or m n) ≡ (has w m || has w n)
unfolding has
has-bit_or_fuel f zero m n h =
    ground (arith, bit_and_zero m, bit_and_zero n, bit_and_zero (bit_or m n))
has-bit_or_fuel zero (suc w) m n h = absurd (omega arith)
has-bit_or_fuel (suc f) (suc w) m n h = ground (
  arith,
  bit_and_step (suc w) m,
  bit_and_step (suc w) n,
  bit_and_step (suc w) (bit_or m n),
  bit_or_step m n,
  has-bit_or_fuel f (suc w / 2) (m / 2) (n / 2),
)

pub has-bit_or : (w m n : ℕ) → has w (bit_or m n) ≡ (has w m || has w n)
has-bit_or w m n = has-bit_or_fuel w w m n (le_refl w)

-- `has` of an intersection, a symmetric difference and a mask with one bit.
pub has-bit_and : (k a b : ℕ) → has (bit_and a b) (2 ^ k) ≡ (has a (2 ^ k) && has b (2 ^ k))
has-bit_and k a b = simp (has_pow, test_bit-bit_and)

pub has-bit_xor : (k a b : ℕ) → has (bit_xor a b) (2 ^ k) ≡ xor (has a (2 ^ k)) (has b (2 ^ k))
has-bit_xor k a b = simp (has_pow, test_bit-bit_xor)

-- The word with no bit set meets no mask, and a word that meets no mask of one bit is zero.
pub has-zero : (m : ℕ) → has 0 m ≡ false
unfolding has
has-zero m = rw (bit_and_zero m)
