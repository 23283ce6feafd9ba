-- ===== src/Auth.antt =====
-- The sessions and the request check of src/api/auth.c. The table `sessions` is a list with at most one
-- row for a token, its PRIMARY KEY; times are seconds, which order as their printed forms do. Hashing and
-- random numbers are OpenSSL's: what they answer is an argument.
pub mod Access
pub mod Sessions
pub mod Revocation
use mathlib.Core.Option
use airies_ups_c.Base.{
  ℕ, ◌+◌, ◌*◌, Bool, true, false, not, ◌&&◌, Option, none, some, List, [], ◌∷◌, ◌==◌, ltb,
  if◌then◌else◌, String, drop, length,
}
use airies_ups_c.Base.Text.{bytes}

-- Two texts are the same (`strcmp`, and `=` of SQL).
unfoldable pub same_text : List ℕ → List ℕ → Bool
same_text [] [] = true
same_text [] (d ∷ ds) = false
same_text (c ∷ cs) [] = false
same_text (c ∷ cs) (d ∷ ds) = c == d && same_text cs ds

-- A row of `sessions`; `is_session`: its kind is "session", and not "api_token".
pub record Session : Type 0 where
  pub token : List ℕ
  pub is_session : Bool
  pub last_used_at : Option ℕ
  pub expires_at : ℕ
  pub revoked : Bool

-- AUTH_SESSION_TTL_HOURS, in seconds.
abbrev pub session_ttl : ℕ
session_ttl = 90 * 24 * 3600

unfoldable pub lookup : List ℕ → List Session → Option Session
unfolding same_text
lookup tok [] = none
lookup tok (s ∷ sessions) = if same_text s.token tok then some s else lookup tok sessions

-- UPDATE and DELETE of the rows of a token.
pub update : List ℕ → (Session → Session) → List Session → List Session
unfolding same_text
update tok f [] = []
update tok f (s ∷ sessions) = (if same_text s.token tok then f s else s) ∷ update tok f sessions

pub delete : List ℕ → List Session → List Session
unfolding same_text
delete tok [] = []
delete tok (s ∷ sessions) =
    let rest = delete tok sessions in if same_text s.token tok then rest else s ∷ rest

-- `token` of `auth_create_token`, random; `expire_hours` is not negative. `none`: the row is there
-- already, or the INSERT fails.
unfoldable pub auth_create_token : Bool → List ℕ → ℕ → ℕ → List Session → Option (List Session)
unfolding lookup
auth_create_token db_ok token now expire_hours sessions =
    if not db_ok then none else elim (lookup token sessions) [
      | some s ↦ none
      | none ↦ some (
          record {
            token = token;
            is_session = true;
            last_used_at = none;
            expires_at = now + expire_hours * 3600;
            revoked = false;
          }
          ∷ sessions)
    ]

-- `if (strncmp(tok, "Bearer ", 7) == 0) tok += 7;`
abbrev prefix_of : List ℕ → List ℕ → Bool
prefix_of [] text = true
prefix_of (p ∷ ps) [] = false
prefix_of (p ∷ ps) (c ∷ text) = p == c && prefix_of ps text

unfoldable pub strip_bearer : List ℕ → List ℕ
strip_bearer tok = if prefix_of (bytes "Bearer ") tok then drop 7 tok else tok

-- The row counts: it has not expired, and is not revoked.
abbrev pub is_live : ℕ → Session → Bool
is_live now s = ltb now s.expires_at && not s.revoked

-- What a successful validation does to the row.
pub touch : ℕ → Session → Session
touch now s =
    if s.is_session
    then record s { expires_at = now + session_ttl; last_used_at = some now }
    else record s { last_used_at = some now }

validate_row : Bool → ℕ → List ℕ → Option Session → List Session → List Session × Bool
unfolding update touch
validate_row up_ok now tok none sessions = (sessions, false)
validate_row up_ok now tok (some s) sessions =
    if is_live now s
    then (if up_ok then update tok (touch now) sessions else sessions, true)
    else (sessions, false)

-- `db_ok` and `up_ok`: the query and the UPDATE succeed. A missing token (NULL) is the empty one.
pub auth_validate_token : Bool → Bool → ℕ → List ℕ → List Session → List Session × Bool
unfolding strip_bearer validate_row lookup
auth_validate_token db_ok up_ok now [] sessions = (sessions, false)
auth_validate_token db_ok up_ok now (c ∷ token) sessions =
    if not db_ok
    then (sessions, false)
    else let tok = strip_bearer (c ∷ token) in
      validate_row up_ok now tok (lookup tok sessions) sessions

unfoldable pub auth_revoke_token : Bool → List ℕ → List Session → List Session
unfolding delete strip_bearer
auth_revoke_token db_ok [] sessions = sessions
auth_revoke_token db_ok (c ∷ token) sessions =
    if db_ok then delete (strip_bearer (c ∷ token)) sessions else sessions

pub expired_out : ℕ → List Session → List Session
expired_out now [] = []
expired_out now (s ∷ sessions) =
    let rest = expired_out now sessions in if ltb s.expires_at now then rest else s ∷ rest

pub auth_cleanup_sessions : Bool → ℕ → List Session → List Session
unfolding expired_out
auth_cleanup_sessions db_ok now sessions = if db_ok then expired_out now sessions else sessions

-- PUBLIC_ENDPOINTS
abbrev pub public_endpoints : List String
public_endpoints =
    "/api/auth/setup" ∷ "/api/auth/login" ∷ "/api/setup/status" ∷ "/api/setup/ports"
    ∷ "/api/setup/test" ∷ []

unfoldable pub is_public : List ℕ → List String → Bool
unfolding same_text
is_public url [] = false
is_public url (p ∷ endpoints) = if same_text url (bytes p) then true else is_public url endpoints

-- The stored password hash, if there is one.
unfoldable pub auth_is_setup : Bool → Option (List ℕ) → Bool
auth_is_setup db_ok none = not db_ok
auth_is_setup db_ok (some hash) = true

abbrev pub auth_min_password_len : ℕ
auth_min_password_len = 4

-- `hashed` is what `hash_password` gives, `none` without memory; the result, and the stored hash.
unfoldable pub auth_set_password :
    Bool → List ℕ → Option (List ℕ) → Option (List ℕ) → Bool × Option (List ℕ)
auth_set_password db_ok password hashed stored =
    if ltb (length password) auth_min_password_len then (false, stored) else elim hashed [
      | none ↦ (false, stored)
      | some hash ↦ if db_ok then (true, some hash) else (false, stored)
    ]

-- `verify` is `verify_password`; a hash without the prefix "$pbkdf2$" is replaced after a success.
unfoldable pub auth_verify_password :
    Bool
    → (List ℕ → List ℕ → Bool)
    → List ℕ
    → Option (List ℕ)
    → Option (List ℕ)
    → Bool × Option (List ℕ)
unfolding auth_set_password
auth_verify_password db_ok verify password hashed none = (false, none)
auth_verify_password db_ok verify password hashed (some stored) =
    if not db_ok
    then (false, some stored)
    else if verify password stored && not (prefix_of (bytes "$pbkdf2$") stored)
    then (true, (auth_set_password db_ok password hashed (some stored)).1)
    else (verify password stored, some stored)

-- A request, as far as the check reads it.
pub record Request : Type 0 where
  pub is_local : Bool
  pub url : List ℕ
  pub auth_token : List ℕ  -- the header, empty if it is missing
  pub cookie : List ℕ  -- the cookie "auth", empty if it is missing

abbrev pub or_cookie : List ℕ → List ℕ → List ℕ
or_cookie [] cookie = cookie
or_cookie (c ∷ token) cookie = c ∷ token

-- `setup_ok`, `db_ok` and `up_ok`: the three statements succeed.
unfoldable pub auth_check :
    Bool → Bool → Bool → ℕ → Request → Option (List ℕ) → List Session → List Session × Bool
unfolding is_public auth_is_setup auth_validate_token
auth_check setup_ok db_ok up_ok now req stored sessions =
    if req.is_local
    then (sessions, true)
    else if is_public req.url public_endpoints
    then (sessions, true)
    else if not (auth_is_setup setup_ok stored)
    then (sessions, true)
    else auth_validate_token db_ok up_ok now (or_cookie req.auth_token req.cookie) sessions
