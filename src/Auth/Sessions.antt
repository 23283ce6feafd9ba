-- ===== src/Auth/Sessions.antt =====
-- The life of a session in src/api/auth.c.
use airies_ups_c.Base.{
  ℕ, ◌+◌, ◌<◌, ◌≡◌, inl, inr, refl, ap, ◌∙◌, Bool, true, false, ◌&&◌, Option, some, List, [], ◌∷◌,
  arith, Bool-cases,
}
use airies_ups_c.Auth.{
  same_text, Session, session_ttl, lookup, update, strip_bearer, is_live, touch, validate_row,
  auth_validate_token,
}

-- All validations of a run succeed.
unfoldable pub all_valid : List ℕ → List ℕ → List Session → Bool
all_valid token [] sessions = true
all_valid token (now ∷ times) sessions =
    let r = auth_validate_token true true now token sessions in r.1 && all_valid token times r.0

-- The first time is before `until`, and each later one within the lifetime after the one before.
abbrev pub Frequent : ℕ → List ℕ → Type 0
Frequent until [] = Unit {0}
Frequent until (now ∷ times) = (now < until) × Frequent (now + session_ttl) times

pub touch-token : (now : ℕ) (s : Session) → (touch now s).token ≡ s.token
unfolding touch
touch-token now s = ground arith

lookup-touch :
    (tok : List ℕ) (now : ℕ) (sessions : List Session) (s : Session)
    → lookup tok sessions ≡ some s
    → lookup tok (update tok (touch now) sessions) ≡ some (touch now s)
unfolding lookup update
lookup-touch tok now [] s h = cc
lookup-touch tok now (x ∷ sessions) s h = elim (Bool-cases (same_text x.token tok)) [
  | inl e ↦
      let same : x ≡ s = ground arith in
      let kept : same_text (touch now x).token tok ≡ true =
        ap (λ t. same_text t tok) (touch-token now x) ∙ e in
      simp (e, kept) (ap (λ y. some (touch now y)) same)
  | inr e ↦ simp e (lookup-touch tok now sessions s (ground arith))
]

row-live :
    (now : ℕ) (tok : List ℕ) (found : Option Session) (s : Session) (sessions : List Session)
    → found ≡ some s
    → is_live now s ≡ true
    → validate_row true now tok found sessions ≡ (update tok (touch now) sessions, true)
unfolding validate_row
row-live now tok found s sessions f live = rw (f, live) refl

token-live :
    (now : ℕ) (c : ℕ) (token : List ℕ) (s : Session) (sessions : List Session)
    → lookup (strip_bearer (c ∷ token)) sessions ≡ some s
    → is_live now s ≡ true
    → auth_validate_token true true now (c ∷ token) sessions
      ≡ (update (strip_bearer (c ∷ token)) (touch now) sessions, true)
unfolding auth_validate_token
token-live now c token s sessions found live =
    row-live now (strip_bearer (c ∷ token)) (lookup (strip_bearer (c ∷ token)) sessions) s sessions
      found live

-- A session that is used often enough never ends, as long as the queries and the updates of its end succeed and
-- nothing else changes the table: if it is in the table, not revoked, and used before it
-- expires and then each time within 90 days of the time before, every validation succeeds.
pub used_stays_valid :
    (times : List ℕ) (c : ℕ) (token : List ℕ) (sessions : List Session) (s : Session)
    → lookup (strip_bearer (c ∷ token)) sessions ≡ some s
    → s.is_session ≡ true
    → s.revoked ≡ false
    → Frequent s.expires_at times
    → all_valid (c ∷ token) times sessions ≡ true
unfolding all_valid touch
used_stays_valid [] c token sessions s found kind good often = refl
used_stays_valid (now ∷ times) c token sessions s found kind good often =
    let tok = strip_bearer (c ∷ token) in
    let once = token-live now c token s sessions found (ground (arith, often.0)) in
    let later =
      used_stays_valid times c token (update tok (touch now) sessions) (touch now s)
        (lookup-touch tok now sessions s found) (ground arith) (ground arith) (rw kind often.1) in
    rw once later
