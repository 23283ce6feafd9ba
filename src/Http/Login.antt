-- ===== src/Http/Login.antt =====
-- The password and session handlers of src/api/routes/auth_routes.c. What the parser of the body answers is an
-- argument, with the random token, the hash, and the outcomes of the statements; the building of a
-- response's JSON succeeds. The audit rows are left out.
pub mod Access
use airies_ups_c.Base.{ℕ, ◌*◌, Bool, not, Option, none, some, List, ltb, if◌then◌else◌, length}
use airies_ups_c.Base.Text.{bytes}
use airies_ups_c.Auth.{
  Session, auth_create_token, auth_set_password, auth_verify_password, auth_is_setup,
  auth_revoke_token, or_cookie,
}
use airies_ups_c.Http.Cookies.{api_cookie_set, api_cookie_clear}

-- The tables `auth` (the hash) and `sessions`.
pub record AuthDb : Type 0 where
  pub stored : Option (List ℕ)
  pub sessions : List Session

-- A body: missing, no JSON, without the texts that the handler asks for, or with them.
pub data LoginBody (A : Type 0) : Type 0 where
  no_body : LoginBody A
  invalid_json : LoginBody A
  missing_fields : LoginBody A
  fields : A → LoginBody A

-- An answer: its status, its Set-Cookie text, and the token of a login.
pub record Answer : Type 0 where
  pub status : ℕ
  pub set_cookie : Option (List ℕ)
  pub token : Option (List ℕ)

abbrev pub just : ℕ → Answer
just status = record { status = status; set_cookie = none; token = none }

-- AUTH_SESSION_TTL_HOURS
abbrev pub ttl_hours : ℕ
ttl_hours = 90 * 24

-- What the outside answers: the outcomes of the query for the hash and of a write, `verify_password`, the new
-- hash, the token and the time.
pub record Outside : Type 0 where
  pub db_ok : Bool
  pub write_ok : Bool
  pub verify : List ℕ → List ℕ → Bool
  pub hashed : Option (List ℕ)
  pub token : List ℕ
  pub now : ℕ
  pub cookie_secure : Bool

set_password : Outside → List ℕ → AuthDb → Answer × AuthDb
unfolding auth_set_password
set_password o password db =
    let (done, stored) = auth_set_password o.write_ok password o.hashed db.stored in
    (if done then just 200 else just 500, record db { stored = stored })

pub handle_auth_setup : Outside → LoginBody (List ℕ) → AuthDb → Answer × AuthDb
unfolding auth_is_setup set_password
handle_auth_setup o (fields password) db =
    if auth_is_setup o.db_ok db.stored
    then (just 400, db)
    else if ltb (length password) 4
    then (just 400, db)
    else set_password o password db
handle_auth_setup o _ db = (just 400, db)

-- A created session, or none.
logged_in : Outside → Option (List Session) → AuthDb → Answer × AuthDb
unfolding api_cookie_set
logged_in o none db = (just 500, db)
logged_in o (some sessions) db = (
  record {
    status = 200;
    set_cookie =
        api_cookie_set (some (bytes "auth")) (some o.token) (ttl_hours * 3600) o.cookie_secure;
    token = some o.token;
  },
  record db { sessions = sessions },
)

unfoldable pub handle_auth_login : Outside → LoginBody (List ℕ) → AuthDb → Answer × AuthDb
unfolding auth_verify_password auth_create_token logged_in
handle_auth_login o (fields password) db =
    let (valid, stored) = auth_verify_password o.db_ok o.verify password o.hashed db.stored in
    let db' = record db { stored = stored } in
    if not valid
    then (just 401, db')
    else logged_in o (auth_create_token o.write_ok o.token o.now ttl_hours db.sessions) db'
handle_auth_login o _ db = (just 400, db)

pub handle_auth_change : Outside → LoginBody (List ℕ × List ℕ) → AuthDb → Answer × AuthDb
unfolding auth_verify_password set_password
handle_auth_change o (fields (old_password, new_password)) db =
    if ltb (length new_password) 4
    then (just 400, db)
    else let (valid, stored) =
        auth_verify_password o.db_ok o.verify old_password o.hashed db.stored in
      let db' = record db { stored = stored } in
      if not valid then (just 401, db') else set_password o new_password db'
handle_auth_change o _ db = (just 400, db)

-- The header, or else the cookie, names the session.
pub handle_auth_logout : Outside → (header cookie : List ℕ) → AuthDb → Answer × AuthDb
unfolding auth_revoke_token api_cookie_clear
handle_auth_logout o header cookie db = (
  record {
    status = 200;
    set_cookie = api_cookie_clear (some (bytes "auth")) o.cookie_secure;
    token = none;
  },
  record db { sessions = auth_revoke_token o.write_ok (or_cookie header cookie) db.sessions },
)
