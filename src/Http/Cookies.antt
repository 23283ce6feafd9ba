-- ===== src/Http/Cookies.antt =====
-- The Set-Cookie texts of src/api/server.c. A missing text is `none`.
pub mod Parsed
use airies_ups_c.Base.{
  ℕ, zero, suc, ◌+◌, ◌/◌, ◌%◌, Bool, true, false, not, ◌||◌, Option, none, some, List, [], ◌∷◌,
  ◌++◌, ◌==◌, ltb, leb, if◌then◌else◌, length,
}
use airies_ups_c.Base.Text.{bytes}

pub safe_cookie_token : List ℕ → Bool
safe_cookie_token [] = true
safe_cookie_token (c ∷ text) =
    let rest = safe_cookie_token text in
    if c == 13 || c == 10 || c == 59 || c == 34 then false else rest

-- `%d` of a number: `fuel` digits at most, before the digits that follow.
digits_of : ℕ → ℕ → List ℕ → List ℕ
digits_of zero n rest = rest
digits_of (suc fuel) n rest =
    let more = digits_of fuel (n / 10) ((48 + n % 10) ∷ rest) in
    if ltb n 10 then (48 + n) ∷ rest else more

-- An `int` has ten digits at most.
pub print_int : ℕ → List ℕ
unfolding digits_of
print_int n = digits_of 10 n []

pub within_buffer : ℕ → List ℕ → Option (List ℕ)
within_buffer size text = if leb size (length text) then none else some text

abbrev pub secure_suffix : Bool → List ℕ
secure_suffix true = bytes "; Secure"
secure_suffix false = []

pub age_suffix : ℕ → List ℕ
unfolding print_int
age_suffix max_age = if ltb 0 max_age then bytes "; Max-Age=" ++ print_int max_age else []

-- `strdup` succeeds; `max_age` is 0 where the code has a negative one, which it treats in the same way.
unfoldable pub api_cookie_set : Option (List ℕ) → Option (List ℕ) → ℕ → Bool → Option (List ℕ)
unfolding safe_cookie_token within_buffer age_suffix
api_cookie_set none value max_age secure = none
api_cookie_set (some name) none max_age secure = none
api_cookie_set (some name) (some value) max_age secure =
    if not (safe_cookie_token name) || not (safe_cookie_token value)
    then none
    else within_buffer 512 (
        name
        ++ (b'='
            ∷ (value
                ++ (bytes "; HttpOnly; SameSite=Strict; Path=/"
                    ++ (age_suffix max_age ++ secure_suffix secure)))))

unfoldable pub api_cookie_clear : Option (List ℕ) → Bool → Option (List ℕ)
unfolding safe_cookie_token within_buffer
api_cookie_clear none secure = none
api_cookie_clear (some name) secure =
    if not (safe_cookie_token name)
    then none
    else within_buffer 256
        (name ++ (bytes "=; HttpOnly; SameSite=Strict; Path=/; Max-Age=0" ++ secure_suffix secure))
