-- ===== src/Http/Cookies/Parsed.antt =====
-- How a client reads the Set-Cookie text that src/api/server.c prints.
use airies_ups_c.Base.{
  ℕ, zero, suc, ◌+◌, ◌%◌, ◌/◌, ◌<◌, ◌≡◌, ◌≢◌, refl, ap, ◌∙◌, Bool, true, false, some, List, [], ◌∷◌,
  ◌++◌, ◌==◌, ltb, length, if◌then◌else◌, arith, Bool-cases, inl, inr, append-nil,
}
use airies_ups_c.Base.Text.{bytes}
use airies_ups_c.Http.Cookies.{
  safe_cookie_token, digits_of, print_int, within_buffer, secure_suffix, age_suffix, api_cookie_set,
}

-- Nothing that ends the header's line.
abbrev pub IsOneLine : List ℕ → Type 0
IsOneLine [] = Unit {0}
IsOneLine (c ∷ text) = (c ≢ 13) × (c ≢ 10) × IsOneLine text

-- The cookie pair: the text before the first semicolon.
abbrev pub cookie_pair : List ℕ → List ℕ
cookie_pair [] = []
cookie_pair (c ∷ text) = if c == 59 then [] else c ∷ cookie_pair text

IsOneLine-append : (a b : List ℕ) → IsOneLine a → IsOneLine b → IsOneLine (a ++ b)
IsOneLine-append [] b h k = k
IsOneLine-append (c ∷ a) b (p, q, h) k = (p, q, IsOneLine-append a b h k)

safe-IsOneLine : (text : List ℕ) → safe_cookie_token text ≡ true → IsOneLine text
unfolding safe_cookie_token
safe-IsOneLine [] h = tt
safe-IsOneLine (c ∷ text) h = (ground arith, ground arith, safe-IsOneLine text (ground arith))

-- A safe text has no semicolon: the pair goes on after it.
pair_through :
    (text rest : List ℕ)
    → safe_cookie_token text ≡ true
    → cookie_pair (text ++ rest) ≡ text ++ cookie_pair rest
unfolding safe_cookie_token
pair_through [] rest h = refl
pair_through (c ∷ text) rest h = ground (arith, pair_through text rest)

digits-IsOneLine : (fuel n : ℕ) (rest : List ℕ) → IsOneLine rest → IsOneLine (digits_of fuel n rest)
unfolding digits_of
digits-IsOneLine zero n rest h = h
digits-IsOneLine (suc fuel) n rest h = elim (Bool-cases (ltb n 10)) [
  | inl last' ↦ rw last' (omega arith, omega arith, h)
  | inr more ↦
      rw more (digits-IsOneLine fuel (n / 10) ((48 + n % 10) ∷ rest) (omega arith, omega arith, h))
]

age-IsOneLine : (max_age : ℕ) → IsOneLine (age_suffix max_age)
unfolding age_suffix print_int
age-IsOneLine max_age = elim (Bool-cases (ltb 0 max_age)) [
  | inl some_age ↦ rw some_age (
      IsOneLine-append (bytes "; Max-Age=") (print_int max_age) (omega arith)
        (digits-IsOneLine 10 max_age [] tt))
  | inr no_age ↦ rw no_age tt
]

secure-IsOneLine : (secure : Bool) → IsOneLine (secure_suffix secure)
secure-IsOneLine true = omega arith
secure-IsOneLine false = tt

abbrev attributes : ℕ → Bool → List ℕ
attributes max_age secure =
    bytes "; HttpOnly; SameSite=Strict; Path=/" ++ (age_suffix max_age ++ secure_suffix secure)

within-some :
    (size : ℕ) (text out : List ℕ)
    → within_buffer size text ≡ some out
    → (out ≡ text) × (length text < size)
unfolding within_buffer
within-some size text out h = ground arith

set-some :
    (name value : List ℕ) (max_age : ℕ) (secure : Bool) (text : List ℕ)
    → api_cookie_set (some name) (some value) max_age secure ≡ some text
    → (safe_cookie_token name ≡ true)
      × (safe_cookie_token value ≡ true)
      × (within_buffer 512 (name ++ (b'=' ∷ (value ++ attributes max_age secure))) ≡ some text)
unfolding api_cookie_set
set-some name value max_age secure text h = (ground arith, ground arith, ground arith)

printed-pair :
    (name value : List ℕ) (max_age : ℕ) (secure : Bool)
    → safe_cookie_token name ≡ true
    → safe_cookie_token value ≡ true
    → cookie_pair (name ++ (b'=' ∷ (value ++ attributes max_age secure))) ≡ name ++ b'=' ∷ value
printed-pair name value max_age secure n v =
    pair_through name (b'=' ∷ (value ++ attributes max_age secure)) n
    ∙ ap (λ (l : List ℕ). name ++ b'=' ∷ l)
        (pair_through value (attributes max_age secure) v ∙ append-nil value)

printed-IsOneLine :
    (name value : List ℕ) (max_age : ℕ) (secure : Bool)
    → safe_cookie_token name ≡ true
    → safe_cookie_token value ≡ true
    → IsOneLine (name ++ (b'=' ∷ (value ++ attributes max_age secure)))
printed-IsOneLine name value max_age secure n v = IsOneLine-append name _ (safe-IsOneLine name n) (
  omega arith,
  omega arith,
  IsOneLine-append value _ (safe-IsOneLine value v) (
      IsOneLine-append (bytes "; HttpOnly; SameSite=Strict; Path=/") _ (omega arith) (
        IsOneLine-append (age_suffix max_age) (secure_suffix secure) (age-IsOneLine max_age)
          (secure-IsOneLine secure))),
)

-- A Set-Cookie text that is printed fits its 512 bytes with the final zero, holds nothing that ends the header's
-- line, and its pair, the text before the first semicolon, is the name, '=' and the value as they were given.
pub cookie_comes_back :
    (name value : List ℕ) (max_age : ℕ) (secure : Bool) (text : List ℕ)
    → api_cookie_set (some name) (some value) max_age secure ≡ some text
    → (cookie_pair text ≡ name ++ b'=' ∷ value) × IsOneLine text × (length text < 512)
cookie_comes_back name value max_age secure text h =
    let (n, v, printed) = set-some name value max_age secure text h in
    let (same, short) =
      within-some 512 (name ++ (b'=' ∷ (value ++ attributes max_age secure))) text printed in
    rw same (
      printed-pair name value max_age secure n v,
      printed-IsOneLine name value max_age secure n v,
      rw (← same) (rw same short),
    )
