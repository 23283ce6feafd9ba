-- ===== src/Ups/Blocks/Snapshot.antt =====
-- What `read_status` of src/ups/ups_smt.c and src/ups/ups_srt.c makes of the registers of a status.
use mathlib.Core.Option
use airies_ups_c.Base.{
  ℕ, zero, suc, ◌+◌, ◌*◌, ◌/◌, ◌%◌, ◌^◌, ◌<◌, max, ◌≡◌, refl, sym, ap, ◌∙◌, none, some, List, [],
  ◌∷◌, length, bit_or, arith, ◌≤◌, dec_lt,
}
use airies_ups_c.Base.Bits.{bit_or_step}
use native.Mathlib.Nat.{pow-suc, le_refl, mul_assoc}
use airies_ups_c.Ups.Blocks.{whole, StatusBlock, status_of, smt_read_status, srt_read_status}

bit_or_zero_fuel : (fuel a : ℕ) → a ≤ fuel → bit_or a 0 ≡ a
bit_or_zero_fuel zero a h = let none_left : a ≡ 0 = omega arith in rw none_left
bit_or_zero_fuel (suc fuel) a h = elim (dec_lt 0 a) [
  | yes more ↦ omega (arith, bit_or_step a 0, bit_or_zero_fuel fuel (a / 2) (omega arith))
  | no end ↦ let none_left : a ≡ 0 = omega arith in rw none_left
]

doubled : (y b : ℕ) → bit_or y (b / 2) ≡ y + b / 2 → bit_or (y * 2) b ≡ y * 2 + b
doubled y b h =
    let half : y * 2 / 2 ≡ y = omega arith in
    let step : bit_or (y * 2) b ≡ bit_or y (b / 2) * 2 + max (y * 2 % 2) (b % 2) =
      bit_or_step (y * 2) b ∙ rw half refl in
    omega (arith, step)

-- `|` of a shifted number and one below the shift is their sum.
bit_or-shift : (k a b : ℕ) → b < 2 ^ k → bit_or (a * 2 ^ k) b ≡ a * 2 ^ k + b
bit_or-shift zero a b h =
    let nothing : b ≡ 0 = omega arith in
    let same : a * 2 ^ 0 ≡ a = omega arith in
    rw (nothing, same) (bit_or_zero_fuel a a (le_refl a) ∙ omega arith)
bit_or-shift (suc k) a b h =
    let twice : a * 2 ^ suc k ≡ a * 2 ^ k * 2 =
      ap (λ (t : ℕ). a * t) (pow-suc 2 k) ∙ sym (mul_assoc a (2 ^ k) 2) in
    rw twice (doubled (a * 2 ^ k) b (bit_or-shift k a (b / 2) (omega (arith, pow-suc 2 k))))

-- A word cut into its registers is the word.
joined : (w : ℕ) → bit_or (w / 65536 * 65536) (w % 65536) ≡ w
joined w = bit_or-shift 16 (w / 65536) (w % 65536) (omega arith) ∙ omega arith

-- The status registers that hold a snapshot, the higher word of a pair first; `spare` is in the nine
-- that the driver does not read, by their order.
abbrev pub status_registers : (ℕ → ℕ) → StatusBlock → List ℕ
status_registers spare s =
    (s.status / 65536)
    ∷ (s.status % 65536)
    ∷ s.transfer_reason
    ∷ (s.outlet_mog / 65536)
    ∷ (s.outlet_mog % 65536)
    ∷ spare 0
    ∷ (s.outlet_sog0 / 65536)
    ∷ (s.outlet_sog0 % 65536)
    ∷ spare 1
    ∷ (s.outlet_sog1 / 65536)
    ∷ (s.outlet_sog1 % 65536)
    ∷ spare 2
    ∷ spare 3
    ∷ spare 4
    ∷ spare 5
    ∷ spare 6
    ∷ spare 7
    ∷ spare 8
    ∷ s.sig_status
    ∷ s.general_error
    ∷ (s.power_system_error / 65536)
    ∷ (s.power_system_error % 65536)
    ∷ s.bat_system_error
    ∷ s.bat_test_status
    ∷ s.rt_cal_status
    ∷ s.bat_lifetime_status
    ∷ s.ui_status
    ∷ []

fields : (spare : ℕ → ℕ) (s : StatusBlock) → status_of (status_registers spare s) ≡ s
unfolding status_of
fields spare s =
    rw
      (
        joined s.status,
        joined s.outlet_mog,
        joined s.outlet_sog0,
        joined s.outlet_sog1,
        joined s.power_system_error,
      )
      refl

whole-short : (n : ℕ) (reply : List ℕ) → (length reply ≡ n → ⊥) → whole n (some reply) ≡ none
unfolding whole
whole-short n reply h = ground (arith, h)

-- A device that holds a status in its registers, the words of 32 bits with the higher half first, is read back
-- as that status by both drivers, whatever each of the nine registers holds that are not read; and a reply with fewer
-- or more registers than the 27 of the block gives no status.
pub status_comes_back :
    (spare : ℕ → ℕ) (s : StatusBlock) (reply : List ℕ)
    → ¬ (length reply ≡ 27)
    → (smt_read_status (some (status_registers spare s)) ≡ some s)
      × (srt_read_status (some (status_registers spare s)) ≡ some s)
      × (smt_read_status (some reply) ≡ none)
      × (srt_read_status (some reply) ≡ none)
unfolding smt_read_status srt_read_status
status_comes_back spare s reply short =
    let cut = ap (Option.map status_of) (whole-short 27 reply short) in
    (ap some (fields spare s), ap some (fields spare s), cut, cut)
