-- ===== src/Auth/Access.antt =====
-- What lets a request in (`auth_check` of src/api/auth.c).
use airies_ups_c.Base.{
  ℕ, ◌<◌, ◌≡◌, ◌↔◌, ◌⊎◌, inl, inr, refl, sym, ap, ap₂, ◌∙◌, Bool, true, false, Option, none, some,
  List, [], ◌∷◌, String, arith, Bool-cases,
}
use airies_ups_c.Base.Text.{bytes}
use airies_ups_c.Auth.{
  same_text, Session, lookup, strip_bearer, validate_row, auth_validate_token, public_endpoints,
  is_public, auth_is_setup, Request, or_cookie, auth_check,
}

pub same_text_eq : (a b : List ℕ) → same_text a b ≡ true → a ≡ b
unfolding same_text
same_text_eq [] [] h = refl
same_text_eq [] (d ∷ ds) h = cc
same_text_eq (c ∷ cs) [] h = cc
same_text_eq (c ∷ cs) (d ∷ ds) h =
    ap₂ (λ x xs. x ∷ xs) (ground arith) (same_text_eq cs ds (ground arith))

pub same_text_self : (a : List ℕ) → same_text a a ≡ true
unfolding same_text
same_text_self [] = refl
same_text_self (c ∷ cs) = ground (arith, same_text_self cs)

abbrev pub Listed : List ℕ → List String → Type 0
Listed url [] = ⊥
Listed url (p ∷ endpoints) = (url ≡ bytes p) ⊎ Listed url endpoints

pub is_public-Listed :
    (url : List ℕ) (endpoints : List String) → is_public url endpoints ≡ true → Listed url endpoints
unfolding is_public
is_public-Listed url [] h = cc
is_public-Listed url (p ∷ endpoints) h = elim (Bool-cases (same_text url (bytes p))) [
  | inl e ↦ inl (same_text_eq url (bytes p) e)
  | inr e ↦ inr (is_public-Listed url endpoints (ground arith))
]

pub Listed-is_public :
    (url : List ℕ) (endpoints : List String) → Listed url endpoints → is_public url endpoints ≡ true
unfolding is_public
Listed-is_public url [] h = elim h [ ]
Listed-is_public url (p ∷ endpoints) (inl e) =
    rw (ap (λ u. same_text u (bytes p)) e ∙ same_text_self (bytes p)) refl
Listed-is_public url (p ∷ endpoints) (inr h) = ground (arith, Listed-is_public url endpoints h)

-- A token that the table holds, that has not expired and is not revoked.
abbrev pub HasSession : Bool → ℕ → List ℕ → List Session → Type 0
HasSession db_ok now [] sessions = ⊥
HasSession db_ok now (c ∷ token) sessions =
    (db_ok ≡ true)
    × ((s : Session) × (lookup (strip_bearer (c ∷ token)) sessions ≡ some s)
        × (now < s.expires_at)
        × (s.revoked ≡ false))

row-HasSession :
    (up_ok : Bool) (now : ℕ) (tok : List ℕ) (found : Option Session) (sessions : List Session)
    → (validate_row up_ok now tok found sessions).1 ≡ true
    → (s : Session) × (found ≡ some s) × (now < s.expires_at) × (s.revoked ≡ false)
unfolding validate_row
row-HasSession up_ok now tok none sessions h = cc
row-HasSession up_ok now tok (some s) sessions h = (s, refl, ground arith, ground arith)

token-HasSession :
    (db_ok up_ok : Bool) (now : ℕ) (token : List ℕ) (sessions : List Session)
    → (auth_validate_token db_ok up_ok now token sessions).1 ≡ true
    → HasSession db_ok now token sessions
unfolding auth_validate_token
token-HasSession db_ok up_ok now [] sessions h = cc
token-HasSession false up_ok now (c ∷ token) sessions h = cc
token-HasSession true up_ok now (c ∷ token) sessions h =
    (refl, row-HasSession up_ok now _ (lookup (strip_bearer (c ∷ token)) sessions) sessions h)

pub HasSession-token :
    (db_ok up_ok : Bool) (now : ℕ) (token : List ℕ) (sessions : List Session)
    → HasSession db_ok now token sessions
    → (auth_validate_token db_ok up_ok now token sessions).1 ≡ true
unfolding auth_validate_token validate_row
HasSession-token db_ok up_ok now [] sessions h = elim h [ ]
HasSession-token db_ok up_ok now (c ∷ token) sessions (ok, (s, found, fresh, good)) =
    rw (ok, found) (ground (arith, good, fresh))

-- The ways in.
abbrev pub Allowed : Bool → Bool → ℕ → Request → Option (List ℕ) → List Session → Type 0
Allowed setup_ok db_ok now req stored sessions =
    (req.is_local ≡ true)
    ⊎ (Listed req.url public_endpoints
        ⊎ (((setup_ok ≡ true) × (stored ≡ none))
            ⊎ HasSession db_ok now (or_cookie req.auth_token req.cookie) sessions))

not_setup :
    (setup_ok : Bool) (stored : Option (List ℕ))
    → auth_is_setup setup_ok stored ≡ false
    → (setup_ok ≡ true) × (stored ≡ none)
unfolding auth_is_setup
not_setup true none h = (refl, refl)
not_setup false none h = cc
not_setup setup_ok (some hash) h = cc

-- The last way in.
check-token :
    (setup_ok db_ok up_ok : Bool) (now : ℕ) (req : Request) (stored : Option (List ℕ))
    (sessions : List Session)
    → req.is_local ≡ false
    → is_public req.url public_endpoints ≡ false
    → auth_is_setup setup_ok stored ≡ true
    → auth_check setup_ok db_ok up_ok now req stored sessions
      ≡ auth_validate_token db_ok up_ok now (or_cookie req.auth_token req.cookie) sessions
unfolding auth_check
check-token setup_ok db_ok up_ok now req stored sessions l p f = simp (l, p, f) refl

check-Allowed :
    (setup_ok db_ok up_ok : Bool) (now : ℕ) (req : Request) (stored : Option (List ℕ))
    (sessions : List Session)
    → (auth_check setup_ok db_ok up_ok now req stored sessions).1 ≡ true
    → Allowed setup_ok db_ok now req stored sessions
check-Allowed setup_ok db_ok up_ok now req stored sessions h = elim (Bool-cases req.is_local) [
  | inl l ↦ inl l
  | inr l ↦ elim (Bool-cases (is_public req.url public_endpoints)) [
    | inl p ↦ inr (inl (is_public-Listed req.url public_endpoints p))
    | inr p ↦ elim (Bool-cases (auth_is_setup setup_ok stored)) [
      | inr f ↦ inr (inr (inl (not_setup setup_ok stored f)))
      | inl f ↦
          let same = check-token setup_ok db_ok up_ok now req stored sessions l p f in
          inr (
            inr (
              inr (
                token-HasSession db_ok up_ok now (or_cookie req.auth_token req.cookie) sessions
                  (sym (ap (λ (r : List Session × Bool). r.1) same) ∙ h))))
    ]
  ]
]

-- A request is let in where the setup is open, or its token is good, whatever the earlier ways say.
let_in :
    (setup_ok db_ok up_ok : Bool) (now : ℕ) (req : Request) (stored : Option (List ℕ))
    (sessions : List Session)
    → (auth_is_setup setup_ok stored ≡ false)
      ⊎ ((auth_validate_token db_ok up_ok now (or_cookie req.auth_token req.cookie) sessions).1
          ≡ true)
    → (auth_check setup_ok db_ok up_ok now req stored sessions).1 ≡ true
unfolding auth_check
let_in setup_ok db_ok up_ok now req stored sessions h = elim (Bool-cases req.is_local) [
  | inl l ↦ simp l refl
  | inr l ↦ elim (Bool-cases (is_public req.url public_endpoints)) [
    | inl p ↦ simp (l, p) refl
    | inr p ↦ elim (Bool-cases (auth_is_setup setup_ok stored)) [
      | inr f ↦ simp (l, p, f) refl
      | inl f ↦ elim h [
        | inl open' ↦ simp (l, p, open') refl
        | inr good ↦
            ap (λ (r : List Session × Bool). r.1)
              (check-token setup_ok db_ok up_ok now req stored sessions l p f)
            ∙ good
      ]
    ]
  ]
]

Allowed-check :
    (setup_ok db_ok up_ok : Bool) (now : ℕ) (req : Request) (stored : Option (List ℕ))
    (sessions : List Session)
    → Allowed setup_ok db_ok now req stored sessions
    → (auth_check setup_ok db_ok up_ok now req stored sessions).1 ≡ true
unfolding auth_check auth_is_setup
Allowed-check setup_ok db_ok up_ok now req stored sessions (inl l) = simp l refl
Allowed-check setup_ok db_ok up_ok now req stored sessions (inr (inl listed)) =
    let p = Listed-is_public req.url public_endpoints listed in
    elim (Bool-cases req.is_local) [ inl l ↦ simp l refl | inr l ↦ simp (l, p) refl ]
Allowed-check setup_ok db_ok up_ok now req stored sessions (inr (inr (inl (ok, fresh)))) =
    let_in setup_ok db_ok up_ok now req stored sessions (inl (rw (ok, fresh) refl))
Allowed-check setup_ok db_ok up_ok now req stored sessions (inr (inr (inr has))) =
    let_in setup_ok db_ok up_ok now req stored sessions
      (inr (HasSession-token db_ok up_ok now (or_cookie req.auth_token req.cookie) sessions has))

-- A request is let in exactly if it comes over the local socket, or asks for a public endpoint, or the
-- query for the password succeeds and finds none, or its token (the header's, or else the
-- cookie's) is one that a successful query finds, not expired and not revoked.
pub auth_check-Allowed :
    (setup_ok db_ok up_ok : Bool) (now : ℕ) (req : Request) (stored : Option (List ℕ))
    (sessions : List Session)
    → ((auth_check setup_ok db_ok up_ok now req stored sessions).1 ≡ true)
      ↔ Allowed setup_ok db_ok now req stored sessions
auth_check-Allowed setup_ok db_ok up_ok now req stored sessions = (
  check-Allowed setup_ok db_ok up_ok now req stored sessions,
  Allowed-check setup_ok db_ok up_ok now req stored sessions,
)
