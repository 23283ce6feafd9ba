-- ===== src/Base/Text.antt =====
-- Texts: the bytes of a string, and the pieces of a `snprintf` call. How a number is printed is
-- the C library's affair, so a piece keeps the value and the conversion. At the end, `strstr`.
use Prim.Native.Char.{code}
use airies_ups_c.Base.{
  ℕ, Bool, true, false, ◌&&◌, Option, none, some, String, List, [], ◌∷◌, ◌==◌, if◌then◌else◌, ◌++◌,
  ◌≡◌, refl, ap₂, arith,
}
use airies_ups_c.Base.Int.{ℤ}

-- The bytes of an ASCII text.
abbrev pub bytes : String → List ℕ
bytes String.[] = []
bytes (String.◌∷◌ c s) = code c ∷ bytes s

-- `lit` is text, a `%s` of a known string included; `unsigned` is `%u`, `signed` is `%d`, and
-- `fixed p x` is `%.pf`.
pub data Piece (R : Type 0) : Type 0 where
  lit : String → Piece R
  unsigned : ℕ → Piece R
  signed : ℤ → Piece R
  fixed : ℕ → R → Piece R

abbrev pub Text : Type 0 → Type 0
Text R = List (Piece R)

-- Whether a text begins with another, and `strstr` from each place on: the rest that begins there.
unfoldable pub starts_with : List ℕ → List ℕ → Bool
starts_with text [] = true
starts_with [] (n ∷ needle) = false
starts_with (c ∷ text) (n ∷ needle) = c == n && starts_with text needle

unfoldable pub strstr : List ℕ → List ℕ → Option (List ℕ)
unfolding starts_with
strstr [] needle = if starts_with [] needle then some [] else none
strstr (c ∷ text) needle =
    let later = strstr text needle in
    if starts_with (c ∷ text) needle then some (c ∷ text) else later

abbrev pub is_some {ℓ} : {A : Type ℓ} → Option A → Bool
is_some none = false
is_some (some a) = true

-- A text begins with another exactly if something follows the other.
pub starts_with-append : (front rest : List ℕ) → starts_with (front ++ rest) front ≡ true
unfolding starts_with
starts_with-append [] rest = refl
starts_with-append (c ∷ front) rest = ground (arith, starts_with-append front rest)

pub starts_with_split :
    (text front : List ℕ) → starts_with text front ≡ true → (rest : List ℕ) × (text ≡ front ++ rest)
unfolding starts_with
starts_with_split text [] h = (text, refl)
starts_with_split [] (n ∷ front) h = cc
starts_with_split (c ∷ text) (n ∷ front) h =
    let (rest, e) = starts_with_split text front (ground arith) in
    (rest, ap₂ (λ x xs. x ∷ xs) (ground arith) e)

-- `strstr` finds nothing only if the text is nowhere within.
pub strstr-none :
    (text needle front back : List ℕ)
    → strstr text needle ≡ none
    → text ≡ front ++ (needle ++ back)
    → ⊥
unfolding strstr
strstr-none [] needle [] back h e =
    let here : starts_with [] needle ≡ true = rw e (starts_with-append needle back) in ground arith
strstr-none [] needle (d ∷ front) back h e = cc
strstr-none (c ∷ text) needle [] back h e =
    let here : starts_with (c ∷ text) needle ≡ true = rw e (starts_with-append needle back) in
    ground arith
strstr-none (c ∷ text) needle (d ∷ front) back h e =
    strstr-none text needle front back (ground arith) (ground arith)
