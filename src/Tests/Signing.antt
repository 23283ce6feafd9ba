-- ===== src/Tests/Signing.antt =====
-- Instances for src/api/auth.c.
use airies_ups_c.Base.{ℕ, ◌≡◌, ◌↔◌, refl, true, false, none, some, List, [], ◌∷◌, arith}
use airies_ups_c.Base.Text.{bytes}
use airies_ups_c.Auth.{same_text, Session, lookup, strip_bearer, Request, auth_check}
use airies_ups_c.Auth.Access.{Allowed, auth_check-Allowed}
use airies_ups_c.Auth.Sessions.{all_valid, used_stays_valid}
use airies_ups_c.Auth.Revocation.{Op, create, validate, cleanup}

abbrev login : Session
login = record {
  token = bytes "a1";
  is_session = true;
  last_used_at = none;
  expires_at = 1000;
  revoked = false;
}

abbrev page : Request
page = record { is_local = false; url = bytes "/api/status"; auth_token = []; cookie = bytes "a1" }

auth_check-Allowed_example :
    ((auth_check true true true 500 page (some (bytes "$pbkdf2$")) (login ∷ [])).1 ≡ true)
    ↔ Allowed true true 500 page (some (bytes "$pbkdf2$")) (login ∷ [])
auth_check-Allowed_example =
    auth_check-Allowed true true true 500 page (some (bytes "$pbkdf2$")) (login ∷ [])

-- The header is used at 500, and then 80 and 160 days later.
used_stays_valid_example :
    all_valid (bytes "Bearer a1") (500 ∷ 6912500 ∷ 13824500 ∷ []) (login ∷ []) ≡ true
used_stays_valid_example =
    used_stays_valid (500 ∷ 6912500 ∷ 13824500 ∷ []) 66 (bytes "earer a1") (login ∷ []) login
      (unfold lookup strip_bearer same_text in refl) refl refl
      (omega arith, (omega arith, (omega arith, tt)))

abbrev later_ops : List (ℕ × Op)
later_ops =
    (1100, validate true true (bytes "a1"))
    ∷ (1200, create true (bytes "b2") 24)
    ∷ (1300, cleanup true)
    ∷ []
