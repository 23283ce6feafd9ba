-- ===== src/Ups/RegisterText.antt =====
-- The text in a block of registers: `smt_str_decode` of src/ups/ups_smt.c, and the detection by it.
pub mod Decoded
use airies_ups_c.Base.{
  ℕ, ◌-◌, ◌*◌, ◌/◌, ◌%◌, Bool, false, not, ◌&&◌, ◌||◌, Option, none, some, List, [], ◌∷◌, ◌++◌,
  ◌==◌, ltb, if◌then◌else◌, length, min,
}
use airies_ups_c.Base.Text.{bytes, strstr, is_some}

abbrev pub high_byte : ℕ → ℕ
high_byte r = r / 256 % 256

abbrev pub low_byte : ℕ → ℕ
low_byte r = r % 256

-- `if (c && k < max) out[k++] = c;` and `if (k < max) out[k++] = c;`
abbrev add_nonzero : ℕ → ℕ → List ℕ → List ℕ
add_nonzero max c out = if not (c == 0) && ltb (length out) max then out ++ (c ∷ []) else out

abbrev add_any : ℕ → ℕ → List ℕ → List ℕ
add_any max c out = if ltb (length out) max then out ++ (c ∷ []) else out

-- A register's two characters after those in `out`; the caller has seen that there is room for one.
pub add_register : ℕ → ℕ → List ℕ → List ℕ
add_register max r [] = add_nonzero max (low_byte r) (add_nonzero max (high_byte r) [])
add_register max r (c ∷ out) = add_any max (low_byte r) ((c ∷ out) ++ (high_byte r ∷ []))

pub decode_registers : ℕ → List ℕ → List ℕ → List ℕ
unfolding add_register
decode_registers max [] out = out
decode_registers max (r ∷ regs) out =
    let more = decode_registers max regs (add_register max r out) in
    if ltb (length out) max then more else out

-- The loop from the end: trailing spaces and NULs go.
abbrev strip_step : ℕ → List ℕ → List ℕ
strip_step c [] = if c == 32 || c == 0 then [] else c ∷ []
strip_step c (d ∷ rest) = c ∷ (d ∷ rest)

unfoldable pub strip_trailing : List ℕ → List ℕ
strip_trailing [] = []
strip_trailing (c ∷ text) = strip_step c (strip_trailing text)

-- `outsz` is at least 1.
pub smt_str_decode : List ℕ → ℕ → List ℕ
unfolding decode_registers strip_trailing
smt_str_decode regs outsz =
    strip_trailing (decode_registers (min (outsz - 1) (length regs * 2)) regs [])

-- A C string ends at its first NUL.
unfoldable pub c_string : List ℕ → List ℕ
c_string [] = []
c_string (c ∷ text) = let rest = c_string text in if c == 0 then [] else c ∷ rest

-- `smt_detect`; `none` is a failed read of the SKU's registers.
pub smt_detect : Option (List ℕ) → Bool
unfolding smt_str_decode c_string
smt_detect none = false
smt_detect (some regs) = is_some (strstr (c_string (smt_str_decode regs 33)) (bytes "SMT"))
