-- ===== src/Ups/RegisterText/Decoded.antt =====
-- What `smt_str_decode` of src/ups/ups_smt.c gives.
use airies_ups_c.Base.{
  ℕ, zero, suc, ◌+◌, ◌-◌, ◌*◌, ◌/◌, ◌%◌, ◌≤◌, ◌<◌, ◌≡◌, refl, sym, ap, ◌∙◌, true, ◌||◌, List, [],
  ◌∷◌, ◌++◌, ◌==◌, ltb, length, length-append, append_assoc, append-nil, min, arith, replicate,
}
use airies_ups_c.Ups.RegisterText.{
  add_register, decode_registers, strip_step, strip_trailing, smt_str_decode,
}

-- Two characters to a register, the first in the high byte.
abbrev pub registers : List (ℕ × ℕ) → List ℕ
registers [] = []
registers ((a, b) ∷ pairs) = (a * 256 + b) ∷ registers pairs

abbrev pub characters : List (ℕ × ℕ) → List ℕ
characters [] = []
characters ((a, b) ∷ pairs) = a ∷ (b ∷ characters pairs)

abbrev pub AllChars : List (ℕ × ℕ) → Type 0
AllChars [] = Unit {0}
AllChars ((a, b) ∷ pairs) = (a < 256) × (b < 256) × AllChars pairs

abbrev pub AllBlank : List ℕ → Type 0
AllBlank [] = Unit {0}
AllBlank (c ∷ text) = ((c == 32 || c == 0) ≡ true) × AllBlank text

strip-blank : (text : List ℕ) → AllBlank text → strip_trailing text ≡ []
unfolding strip_trailing
strip-blank [] h = refl
strip-blank (c ∷ text) h = rw (strip-blank text h.1, h.0) refl

strip-append :
    (text blanks : List ℕ) → AllBlank blanks → strip_trailing (text ++ blanks) ≡ strip_trailing text
unfolding strip_trailing
strip-append [] blanks h = strip-blank blanks h
strip-append (c ∷ text) blanks h = ap (strip_step c) (strip-append text blanks h)

decode_next :
    (max r : ℕ) (regs out : List ℕ)
    → ltb (length out) max ≡ true
    → decode_registers max (r ∷ regs) out ≡ decode_registers max regs (add_register max r out)
unfolding decode_registers
decode_next max r regs out room = simp room refl

add_started :
    (max a b c : ℕ) (out : List ℕ)
    → a < 256
    → b < 256
    → length (c ∷ out) + 2 ≤ max
    → add_register max (a * 256 + b) (c ∷ out) ≡ (c ∷ out) ++ (a ∷ (b ∷ []))
unfolding add_register
add_started max a b c out ha hb fits =
    let hi : (a * 256 + b) / 256 % 256 ≡ a = omega arith in
    let lo : (a * 256 + b) % 256 ≡ b = omega arith in
    let room : ltb (length ((c ∷ out) ++ (a ∷ []))) max ≡ true =
      ground (arith, length-append (c ∷ out) (a ∷ [])) in
    rw (hi, lo, room) (append_assoc (c ∷ out) (a ∷ []) (b ∷ []))

-- Characters after the first are all taken.
decode_started :
    (max : ℕ) (pairs : List (ℕ × ℕ)) (c : ℕ) (out : List ℕ)
    → AllChars pairs
    → length (c ∷ out) + length (characters pairs) ≤ max
    → decode_registers max (registers pairs) (c ∷ out) ≡ (c ∷ out) ++ characters pairs
unfolding decode_registers
decode_started max [] c out chars fits = sym (append-nil (c ∷ out))
decode_started max ((a, b) ∷ pairs) c out chars fits =
    let room : ltb (length (c ∷ out)) max ≡ true = ground arith in
    let longer = length-append out (a ∷ (b ∷ [])) in
    rw room (
      ap (decode_registers max (registers pairs))
        (add_started max a b c out chars.0 chars.1 (omega (arith, fits)))
      ∙ decode_started max pairs c (out ++ (a ∷ (b ∷ []))) chars.2 (omega (arith, fits, longer))
      ∙ append_assoc (c ∷ out) (a ∷ (b ∷ [])) (characters pairs))

add_first :
    (max a b : ℕ)
    → a < 256
    → b < 256
    → 0 < a
    → 0 < b
    → 2 ≤ max
    → add_register max (a * 256 + b) [] ≡ a ∷ (b ∷ [])
unfolding add_register
add_first max a b ha hb pa pb fits =
    let hi : (a * 256 + b) / 256 % 256 ≡ a = omega arith in
    let lo : (a * 256 + b) % 256 ≡ b = omega arith in rw (hi, lo) (ground arith)

add_empty : (max : ℕ) → add_register max 0 [] ≡ []
unfolding add_register
add_empty max = refl

-- Registers of NULs in front are skipped.
decode_padded :
    (z max a b : ℕ) (pairs : List (ℕ × ℕ))
    → a < 256
    → b < 256
    → 0 < a
    → 0 < b
    → AllChars pairs
    → 2 + length (characters pairs) ≤ max
    → decode_registers max (replicate z 0 ++ registers ((a, b) ∷ pairs)) []
      ≡ a ∷ (b ∷ characters pairs)
decode_padded zero max a b pairs ha hb pa pb chars fits =
    decode_next max (a * 256 + b) (registers pairs) [] (ground arith)
    ∙ ap (decode_registers max (registers pairs)) (add_first max a b ha hb pa pb (omega arith))
    ∙ decode_started max pairs a (b ∷ []) chars (omega arith)
decode_padded (suc z) max a b pairs ha hb pa pb chars fits =
    decode_next max 0 (replicate z 0 ++ registers ((a, b) ∷ pairs)) [] (ground arith)
    ∙ ap (decode_registers max (replicate z 0 ++ registers ((a, b) ∷ pairs))) (add_empty max)
    ∙ decode_padded z max a b pairs ha hb pa pb chars fits

length-registers : (pairs : List (ℕ × ℕ)) → length (registers pairs) * 2 ≡ length (characters pairs)
length-registers [] = refl
length-registers ((a, b) ∷ pairs) = omega (arith, length-registers pairs)

-- A text comes back from its registers: it is stored two characters to a register, its first two not NUL,
-- after any number of zero registers and before any spaces and NULs, it does not end with one of
-- those, and the buffer has room for the characters stored.
pub text_comes_back :
    (z a b outsz : ℕ) (pairs : List (ℕ × ℕ)) (text blanks : List ℕ)
    → a < 256
    → b < 256
    → 0 < a
    → 0 < b
    → AllChars pairs
    → a ∷ (b ∷ characters pairs) ≡ text ++ blanks
    → AllBlank blanks
    → strip_trailing text ≡ text
    → 2 + length (characters pairs) < outsz
    → smt_str_decode (replicate z 0 ++ registers ((a, b) ∷ pairs)) outsz ≡ text
unfolding smt_str_decode
text_comes_back z a b outsz pairs text blanks ha hb pa pb chars stored blank tidy fits =
    let regs = replicate z 0 ++ registers ((a, b) ∷ pairs) in
    let room : 2 + length (characters pairs) ≤ min (outsz - 1) (length regs * 2) = omega (
      arith,
      fits,
      length-append (replicate z 0) (registers ((a, b) ∷ pairs)),
      length-registers pairs,
    ) in
    ap strip_trailing (decode_padded z _ a b pairs ha hb pa pb chars room ∙ stored)
    ∙ strip-append text blanks blank
    ∙ tidy
