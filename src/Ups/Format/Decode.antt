-- ===== src/Ups/Format/Decode.antt =====
-- The error decoders of src/ups/ups_format.c against filtering their tables.
use airies_ups_c.Base.{
  ◌<◌, max, sym, ap, ◌∙◌, dec_lt, ℕ, zero, suc, ◌+◌, ◌-◌, ◌≤◌, ◌≡◌, refl, List, [], ◌∷◌, String,
  if◌then◌else◌, length, take, take-all, arith,
}
use airies_ups_c.Base.Bits.{has}
use airies_ups_c.Ups.Format.{
  BitLabel, decode_from, decode_bits, general_error_flags, power_error_flags, battery_error_flags,
  ups_decode_general_errors, ups_decode_power_errors, ups_decode_battery_errors,
}

-- The names of a table whose bit is set in a word, in table order.
unfoldable pub set_names : ℕ → List BitLabel → List String
set_names raw [] = []
set_names raw ((bit, name) ∷ table) =
    let rest = set_names raw table in if has raw bit then name ∷ rest else rest

take_of_lt : (k : ℕ) (x : String) (xs : List String) → 0 < k → take k (x ∷ xs) ≡ x ∷ take (k - 1) xs
take_of_lt zero x xs h = absurd (omega arith)
take_of_lt (suc k) x xs h = ap (λ j. x ∷ take j xs) {x = k} {y = suc k - 1} (omega arith)

take-nil : (k : ℕ) → take {A = String} k [] ≡ []
take-nil zero = refl
take-nil (suc k) = refl

decode_from-take :
    (raw max n : ℕ) (table : List BitLabel)
    → decode_from raw max n table ≡ take (max - n) (set_names raw table)
unfolding decode_from set_names
decode_from-take raw max n [] = sym (take-nil (max - n))
decode_from-take raw max n ((bit, name) ∷ table) = elim (dec_lt n max) [
  | yes p ↦ ground (
    arith,
    decode_from-take raw max n table,
    decode_from-take raw max (n + 1) table,
    take_of_lt (max - n) name (set_names raw table),
  )
  | no p ↦ let e : max - n ≡ 0 = omega arith in rw e (ground arith)
]

length-set_names : (raw : ℕ) (table : List BitLabel) → length (set_names raw table) ≤ length table
unfolding set_names
length-set_names raw [] = omega arith
length-set_names raw ((bit, name) ∷ table) = ground (arith, length-set_names raw table)

-- A decoder writes the names of the set bits in table order, the first `max` of them.
pub decode_bits-take :
    (raw max : ℕ) (table : List BitLabel)
    → decode_bits raw max table ≡ take max (set_names raw table)
unfolding decode_bits
decode_bits-take raw max table =
    decode_from-take raw max 0 table
    ∙ ap (λ k. take k (set_names raw table)) {x = max - 0} {y = max} (omega arith)

decode_bits-all :
    (raw max : ℕ) (table : List BitLabel)
    → length table ≤ max
    → decode_bits raw max table ≡ set_names raw table
decode_bits-all raw max table h =
    decode_bits-take raw max table
    ∙ take-all max (set_names raw table) (omega (arith, length-set_names raw table))

-- With the 16 slots that the alert engine passes, each decoder reports every set bit of its table
-- and nothing else, and writes no more than 16 names.
pub decode_errors_complete :
    (raw : ℕ)
    → (ups_decode_general_errors raw 16 ≡ set_names raw general_error_flags)
      × (ups_decode_power_errors raw 16 ≡ set_names raw power_error_flags)
      × (ups_decode_battery_errors raw 16 ≡ set_names raw battery_error_flags)
unfolding ups_decode_general_errors ups_decode_power_errors ups_decode_battery_errors
decode_errors_complete raw = (
  decode_bits-all raw 16 general_error_flags (omega arith),
  decode_bits-all raw 16 power_error_flags (omega arith),
  decode_bits-all raw 16 battery_error_flags (omega arith),
)
