-- ===== src/Auth/Revocation.antt =====
-- A token that is out, revoked or expired, stays out (src/api/auth.c).
use airies_ups_c.Base.{
  ℕ, ◌≤◌, ◌≡◌, ◌⊎◌, inl, inr, refl, sym, ap, ◌∙◌, Bool, true, false, Option, none, some, List, [],
  ◌∷◌, ltb, arith, Bool-cases, Option-cases,
}
use airies_ups_c.Auth.{
  same_text, Session, lookup, update, delete, auth_create_token, strip_bearer, is_live, touch,
  validate_row, auth_validate_token, auth_revoke_token, expired_out, auth_cleanup_sessions,
}
use airies_ups_c.Auth.Access.{same_text_eq}
use airies_ups_c.Auth.Sessions.{touch-token}

-- What the daemon does with the table, and when; the flags say whether the statements succeed.
pub data Op : Type 0 where
  create : Bool → List ℕ → ℕ → Op
  validate : Bool → Bool → List ℕ → Op
  revoke : Bool → List ℕ → Op
  cleanup : Bool → Op

-- A failed `auth_create_token` leaves the table.
abbrev or_kept : Option (List Session) → List Session → List Session
or_kept none sessions = sessions
or_kept (some created) sessions = created

pub apply : ℕ → Op → List Session → List Session
apply now (create db_ok token hours) sessions =
    or_kept (auth_create_token db_ok token now hours sessions) sessions
apply now (validate db_ok up_ok token) sessions =
    (auth_validate_token db_ok up_ok now token sessions).0
apply now (revoke db_ok token) sessions = auth_revoke_token db_ok token sessions
apply now (cleanup db_ok) sessions = auth_cleanup_sessions db_ok now sessions

pub apply_all : List (ℕ × Op) → List Session → List Session
unfolding apply
apply_all [] sessions = sessions
apply_all ((now, op) ∷ ops) sessions = apply_all ops (apply now op sessions)

-- Every row of the token is revoked, or has expired at the time.
abbrev pub IsOver : List ℕ → ℕ → List Session → Type 0
IsOver tok t [] = Unit {0}
IsOver tok t (s ∷ sessions) =
    ((same_text s.token tok ≡ false) ⊎ ((s.revoked ≡ true) ⊎ (s.expires_at ≤ t)))
    × IsOver tok t sessions

IsOver-lookup :
    (tok : List ℕ) (t now : ℕ) (sessions : List Session) (s : Session)
    → IsOver tok t sessions
    → t ≤ now
    → lookup tok sessions ≡ some s
    → is_live now s ≡ false
unfolding lookup
IsOver-lookup tok t now [] s out le found = cc
IsOver-lookup tok t now (x ∷ sessions) s out le found = elim (Bool-cases (same_text x.token tok)) [
  | inl e ↦
      let same : x ≡ s = ground arith in
      let dead : is_live now x ≡ false = ground (arith, out.0) in ap (is_live now) (sym same) ∙ dead
  | inr e ↦ IsOver-lookup tok t now sessions s out.1 le (ground arith)
]

IsOver-delete :
    (tok tok' : List ℕ) (t : ℕ) (sessions : List Session)
    → IsOver tok t sessions
    → IsOver tok t (delete tok' sessions)
unfolding delete
IsOver-delete tok tok' t [] out = tt
IsOver-delete tok tok' t (s ∷ sessions) out = elim (Bool-cases (same_text s.token tok')) [
  | inl e ↦ simp e (IsOver-delete tok tok' t sessions out.1)
  | inr e ↦ simp e (out.0, IsOver-delete tok tok' t sessions out.1)
]

IsOver-expired :
    (tok : List ℕ) (t now : ℕ) (sessions : List Session)
    → IsOver tok t sessions
    → IsOver tok t (expired_out now sessions)
unfolding expired_out
IsOver-expired tok t now [] out = tt
IsOver-expired tok t now (s ∷ sessions) out = elim (Bool-cases (ltb s.expires_at now)) [
  | inl e ↦ simp e (IsOver-expired tok t now sessions out.1)
  | inr e ↦ simp e (out.0, IsOver-expired tok t now sessions out.1)
]

-- Another token's rows are touched.
IsOver-touch :
    (tok tok' : List ℕ) (t now : ℕ) (sessions : List Session)
    → same_text tok' tok ≡ false
    → IsOver tok t sessions
    → IsOver tok t (update tok' (touch now) sessions)
unfolding update
IsOver-touch tok tok' t now [] other out = tt
IsOver-touch tok tok' t now (s ∷ sessions) other out = elim (Bool-cases (same_text s.token tok')) [
  | inl e ↦
      let theirs : same_text (touch now s).token tok ≡ false =
        ap (λ u. same_text u tok) (touch-token now s ∙ same_text_eq s.token tok' e) ∙ other in
      simp e (inl theirs, IsOver-touch tok tok' t now sessions other out.1)
  | inr e ↦ simp e (out.0, IsOver-touch tok tok' t now sessions other out.1)
]

-- A validation of any token: a row that is live is not one of the token's.
IsOver-row :
    (tok tok' : List ℕ) (t now : ℕ) (up_ok : Bool) (found : Option Session)
    (sessions : List Session)
    → IsOver tok t sessions
    → t ≤ now
    → lookup tok' sessions ≡ found
    → IsOver tok t (validate_row up_ok now tok' found sessions).0
unfolding validate_row
IsOver-row tok tok' t now up_ok none sessions out le f = out
IsOver-row tok tok' t now false (some s) sessions out le f = elim (Bool-cases (is_live now s)) [
  | inl e ↦ rw e out
  | inr e ↦ rw e out
]
IsOver-row tok tok' t now true (some s) sessions out le f = elim (Bool-cases (is_live now s)) [
  | inr e ↦ rw e out
  | inl e ↦ elim (Bool-cases (same_text tok' tok)) [
    | inr other ↦ rw e (IsOver-touch tok tok' t now sessions other out)
    | inl ours ↦
        let mine : lookup tok sessions ≡ some s =
          ap (λ u. lookup u sessions) (sym (same_text_eq tok' tok ours)) ∙ f in
        let dead = IsOver-lookup tok t now sessions s out le mine in rw dead out
  ]
]

IsOver-validate :
    (tok token : List ℕ) (t now : ℕ) (db_ok up_ok : Bool) (sessions : List Session)
    → IsOver tok t sessions
    → t ≤ now
    → IsOver tok t (auth_validate_token db_ok up_ok now token sessions).0
unfolding auth_validate_token
IsOver-validate tok [] t now db_ok up_ok sessions out le = out
IsOver-validate tok (c ∷ token) t now false up_ok sessions out le = out
IsOver-validate tok (c ∷ token) t now true up_ok sessions out le =
    IsOver-row tok (strip_bearer (c ∷ token)) t now up_ok
      (lookup (strip_bearer (c ∷ token)) sessions) sessions out le refl

-- The operation does not create the token.
abbrev pub Spares : List ℕ → Op → Type 0
Spares tok (create db_ok token hours) = same_text token tok ≡ false
Spares tok (validate db_ok up_ok token) = Unit {0}
Spares tok (revoke db_ok token) = Unit {0}
Spares tok (cleanup db_ok) = Unit {0}

IsOver-create :
    (tok token : List ℕ) (t now hours : ℕ) (db_ok : Bool) (sessions : List Session)
    → IsOver tok t sessions
    → same_text token tok ≡ false
    → IsOver tok t (or_kept (auth_create_token db_ok token now hours sessions) sessions)
unfolding auth_create_token
IsOver-create tok token t now hours false sessions out other = out
IsOver-create tok token t now hours true sessions out other =
    elim (Option-cases (lookup token sessions)) [
      | inl e ↦ rw e (inl other, out)
      | inr (s, e) ↦ rw e out
    ]

IsOver-revoke :
    (tok token : List ℕ) (t : ℕ) (db_ok : Bool) (sessions : List Session)
    → IsOver tok t sessions
    → IsOver tok t (auth_revoke_token db_ok token sessions)
unfolding auth_revoke_token
IsOver-revoke tok [] t db_ok sessions out = out
IsOver-revoke tok (c ∷ token) t true sessions out =
    IsOver-delete tok (strip_bearer (c ∷ token)) t sessions out
IsOver-revoke tok (c ∷ token) t false sessions out = out

apply-IsOver :
    (tok : List ℕ) (t now : ℕ) (op : Op) (sessions : List Session)
    → IsOver tok t sessions
    → t ≤ now
    → Spares tok op
    → IsOver tok t (apply now op sessions)
unfolding apply auth_cleanup_sessions
apply-IsOver tok t now (create db_ok token hours) sessions out le spares =
    IsOver-create tok token t now hours db_ok sessions out spares
apply-IsOver tok t now (validate db_ok up_ok token) sessions out le spares =
    IsOver-validate tok token t now db_ok up_ok sessions out le
apply-IsOver tok t now (revoke db_ok token) sessions out le spares =
    IsOver-revoke tok token t db_ok sessions out
apply-IsOver tok t now (cleanup true) sessions out le spares = IsOver-expired tok t now sessions out
apply-IsOver tok t now (cleanup false) sessions out le spares = out

abbrev pub AllSpare : List ℕ → ℕ → List (ℕ × Op) → Type 0
AllSpare tok t [] = Unit {0}
AllSpare tok t ((now, op) ∷ ops) = (t ≤ now) × Spares tok op × AllSpare tok t ops

apply_all-IsOver :
    (tok : List ℕ) (t : ℕ) (ops : List (ℕ × Op)) (sessions : List Session)
    → IsOver tok t sessions
    → AllSpare tok t ops
    → IsOver tok t (apply_all ops sessions)
unfolding apply_all
apply_all-IsOver tok t [] sessions out all = out
apply_all-IsOver tok t ((now, op) ∷ ops) sessions out all =
    apply_all-IsOver tok t ops (apply now op sessions)
      (apply-IsOver tok t now op sessions out all.0 all.1) all.2

row-dead :
    (up_ok : Bool) (now : ℕ) (tok : List ℕ) (found : Option Session) (sessions : List Session)
    → ((s : Session) → found ≡ some s → is_live now s ≡ false)
    → (validate_row up_ok now tok found sessions).1 ≡ false
unfolding validate_row
row-dead up_ok now tok none sessions dead = refl
row-dead up_ok now tok (some s) sessions dead = rw (dead s refl) refl

-- A token that is out stays out: if all of its rows have expired or are revoked, then after any
-- creations of other tokens, validations, revocations and clean-ups at that time or later, whatever
-- statements fail, it is not valid.
pub out_stays_out :
    (c : ℕ) (token : List ℕ) (t now : ℕ) (db_ok up_ok : Bool) (ops : List (ℕ × Op))
    (sessions : List Session)
    → IsOver (strip_bearer (c ∷ token)) t sessions
    → AllSpare (strip_bearer (c ∷ token)) t ops
    → t ≤ now
    → (auth_validate_token db_ok up_ok now (c ∷ token) (apply_all ops sessions)).1 ≡ false
unfolding auth_validate_token
out_stays_out c token t now false up_ok ops sessions out all le = refl
out_stays_out c token t now true up_ok ops sessions out all le =
    let tok = strip_bearer (c ∷ token) in
    row-dead up_ok now tok (lookup tok (apply_all ops sessions)) (apply_all ops sessions)
      (λ s found.
        IsOver-lookup tok t now (apply_all ops sessions) s
          (apply_all-IsOver tok t ops sessions out all) le found)

IsOver-deleted : (tok : List ℕ) (sessions : List Session) → IsOver tok 0 (delete tok sessions)
unfolding delete
IsOver-deleted tok [] = tt
IsOver-deleted tok (s ∷ sessions) = elim (Bool-cases (same_text s.token tok)) [
  | inl e ↦ simp e (IsOver-deleted tok sessions)
  | inr e ↦ simp e (inl refl, IsOver-deleted tok sessions)
]

-- A revocation that succeeds is for good: whatever the table held, and whatever is done to it after at
-- any times and in any order, short of creating the token again, the token is not valid any more.
pub revoked_stays_out :
    (c : ℕ) (token : List ℕ) (now : ℕ) (db_ok up_ok : Bool) (ops : List (ℕ × Op))
    (sessions : List Session)
    → AllSpare (strip_bearer (c ∷ token)) 0 ops
    → (auth_validate_token db_ok up_ok now
        (c ∷ token)
        (apply_all ops (auth_revoke_token true (c ∷ token) sessions))).1
      ≡ false
unfolding auth_revoke_token
revoked_stays_out c token now db_ok up_ok ops sessions all =
    out_stays_out c token 0 now db_ok up_ok ops (delete (strip_bearer (c ∷ token)) sessions)
      (IsOver-deleted (strip_bearer (c ∷ token)) sessions) all (omega arith)
