-- ===== src/Http/Login/Access.antt =====
-- What a login and a logout over the API (src/api/routes/auth_routes.c) do for the requests after them.
use airies_ups_c.Base.{
  ℕ, ◌+◌, ◌*◌, ◌<◌, ◌≡◌, inl, inr, refl, sym, ap, ◌∙◌, Bool, true, false, not, Option, none, some,
  List, [], ◌∷◌, arith, Bool-cases, if◌then◌else◌, length,
}
use airies_ups_c.Base.Text.{bytes}
use airies_ups_c.Auth.{
  Session, lookup, strip_bearer, auth_create_token, auth_verify_password, auth_validate_token,
  auth_check, or_cookie, public_endpoints, Request,
}
use airies_ups_c.Auth.Access.{
  same_text_self, Listed, HasSession, HasSession-token, auth_check-Allowed,
}
use airies_ups_c.Auth.Revocation.{Op, AllSpare, apply_all, revoked_stays_out}
use airies_ups_c.Http.Cookies.{api_cookie_set}
use airies_ups_c.Http.Login.{
  AuthDb, fields, Answer, just, ttl_hours, Outside, logged_in, handle_auth_login,
  handle_auth_logout,
}

-- The row that a created token has.
abbrev new_row : List ℕ → ℕ → Session
new_row token expires = record {
  token = token;
  is_session = true;
  last_used_at = none;
  expires_at = expires;
  revoked = false;
}

created-head :
    (db_ok : Bool) (token : List ℕ) (now hours : ℕ) (sessions sessions' : List Session)
    → auth_create_token db_ok token now hours sessions ≡ some sessions'
    → sessions' ≡ new_row token (now + hours * 3600) ∷ sessions
unfolding auth_create_token
created-head false token now hours sessions sessions' h = cc
created-head true token now hours sessions sessions' h = ground arith

created-lookup :
    (db_ok : Bool) (token : List ℕ) (now hours : ℕ) (sessions sessions' : List Session)
    → auth_create_token db_ok token now hours sessions ≡ some sessions'
    → lookup token sessions' ≡ some (new_row token (now + hours * 3600))
unfolding lookup
created-lookup db_ok token now hours sessions sessions' h =
    rw (created-head db_ok token now hours sessions sessions' h, same_text_self token) refl

-- A login with 200 created the session of its token.
logged :
    (o : Outside) (made : Option (List Session)) (db : AuthDb)
    → (logged_in o made db).0.status ≡ 200
    → (made ≡ some (logged_in o made db).1.sessions)
      × ((logged_in o made db).0.set_cookie
          ≡ api_cookie_set (some (bytes "auth")) (some o.token) (ttl_hours * 3600) o.cookie_secure)
unfolding logged_in
logged o none db h = absurd (omega arith)
logged o (some sessions) db h = (refl, refl)

-- The answer and the tables of a valid password.
picks :
    (valid : Bool) (o : Outside) (made : Option (List Session)) (db : AuthDb)
    → (let r : Answer × AuthDb = if not valid then (just 401, db) else logged_in o made db in
        r.0.status)
      ≡ 200
    → (made
        ≡ some (
            let r : Answer × AuthDb = if not valid then (just 401, db) else logged_in o made db in
            r.1.sessions))
      × ((let r : Answer × AuthDb = if not valid then (just 401, db) else logged_in o made db in
            r.0.set_cookie)
          ≡ api_cookie_set (some (bytes "auth")) (some o.token) (ttl_hours * 3600) o.cookie_secure)
picks true o made db h = logged o made db h
picks false o made db h = absurd (omega arith)

login-created :
    (o : Outside) (password : List ℕ) (db : AuthDb)
    → (handle_auth_login o (fields password) db).0.status ≡ 200
    → (auth_create_token o.write_ok o.token o.now ttl_hours db.sessions
        ≡ some (handle_auth_login o (fields password) db).1.sessions)
      × ((handle_auth_login o (fields password) db).0.set_cookie
          ≡ api_cookie_set (some (bytes "auth")) (some o.token) (ttl_hours * 3600) o.cookie_secure)
unfolding handle_auth_login
login-created o password db h =
    picks (auth_verify_password o.db_ok o.verify password o.hashed db.stored).0 o
      (auth_create_token o.write_ok o.token o.now ttl_hours db.sessions)
      (record db { stored = (auth_verify_password o.db_ok o.verify password o.hashed db.stored).1 })
      h

-- A session in the table lets a request with its token in, before it expires.
session_allows :
    (o : Outside) (sessions sessions' : List Session) (now : ℕ) (sent : List ℕ)
    → auth_create_token o.write_ok o.token o.now ttl_hours sessions ≡ some sessions'
    → strip_bearer sent ≡ o.token
    → 0 < length sent
    → now < o.now + ttl_hours * 3600
    → HasSession true now sent sessions'
session_allows o sessions sessions' now [] made names long fresh = absurd (omega arith)
session_allows o sessions sessions' now (c ∷ sent) made names long fresh = (
  refl,
  (
    new_row o.token (o.now + ttl_hours * 3600),
    ap (λ t. lookup t sessions') names
        ∙ created-lookup o.write_ok o.token o.now ttl_hours sessions sessions' made,
    fresh,
    refl,
  ),
)

-- After a login that is answered 200, and while the table of sessions is what the login left, a request is let in until 90 days later (the other end not included) if the
-- text of its header, or else of its cookie, is the login's token, with or without "Bearer " before it, and the
-- query for the session succeeds; and the login's answer sets the cookie `auth` to that token for as long.
pub login_lets_in :
    (o : Outside) (password : List ℕ) (db : AuthDb) (setup_ok up_ok : Bool) (now : ℕ)
    (req : Request)
    → (handle_auth_login o (fields password) db).0.status ≡ 200
    → strip_bearer (or_cookie req.auth_token req.cookie) ≡ o.token
    → 0 < length (or_cookie req.auth_token req.cookie)
    → now < o.now + 90 * 24 * 3600
    → ((auth_check setup_ok true up_ok now req
          (handle_auth_login o (fields password) db).1.stored
          (handle_auth_login o (fields password) db).1.sessions).1
        ≡ true)
      × ((handle_auth_login o (fields password) db).0.set_cookie
          ≡ api_cookie_set (some (bytes "auth")) (some o.token) (90 * 24 * 3600) o.cookie_secure)
login_lets_in o password db setup_ok up_ok now req ok names long fresh =
    let (made, cookie) = login-created o password db ok in
    let after = (handle_auth_login o (fields password) db).1 in
    let has =
      session_allows o db.sessions after.sessions now (or_cookie req.auth_token req.cookie) made
        names long fresh in
    (
      (auth_check-Allowed setup_ok true up_ok now req after.stored after.sessions).1
          (inr (inr (inr has))),
      cookie,
    )

-- The token of a logout is not valid any more.
logged_out :
    (o : Outside) (header cookie : List ℕ) (c : ℕ) (token : List ℕ) (db : AuthDb)
    (ops : List (ℕ × Op)) (db_ok up_ok : Bool) (now : ℕ)
    → o.write_ok ≡ true
    → or_cookie header cookie ≡ c ∷ token
    → AllSpare (strip_bearer (c ∷ token)) 0 ops
    → (auth_validate_token db_ok up_ok now
        (c ∷ token)
        (apply_all ops (handle_auth_logout o header cookie db).1.sessions)).1
      ≡ false
unfolding handle_auth_logout
logged_out o header cookie c token db ops db_ok up_ok now ok named all =
    rw (ok, named) (revoked_stays_out c token now db_ok up_ok ops db.sessions all)

spent :
    (o : Outside) (header cookie sent : List ℕ) (db : AuthDb) (ops : List (ℕ × Op))
    (db_ok up_ok : Bool) (now : ℕ)
    → o.write_ok ≡ true
    → or_cookie header cookie ≡ sent
    → AllSpare (strip_bearer (or_cookie header cookie)) 0 ops
    → ¬ HasSession db_ok now sent (apply_all ops (handle_auth_logout o header cookie db).1.sessions)
spent o header cookie [] db ops db_ok up_ok now ok named all has = elim has [ ]
spent o header cookie (c ∷ token) db ops db_ok up_ok now ok named all has =
    let sessions = apply_all ops (handle_auth_logout o header cookie db).1.sessions in
    let good = HasSession-token db_ok up_ok now (c ∷ token) sessions has in
    let spares = rw named at all in
    let out = logged_out o header cookie c token db ops db_ok up_ok now ok named spares in cc

-- After a logout whose statement succeeds, no request with the same token text, in its header or its cookie, is let
-- in by that token again, whatever is done to the sessions later short of creating the token: it is refused unless it
-- comes over the local socket or asks for a public endpoint, provided that a password is set.
pub logout_shuts_out :
    (o : Outside) (header cookie : List ℕ) (db : AuthDb) (ops : List (ℕ × Op))
    (setup_ok db_ok up_ok : Bool) (now : ℕ) (req : Request) (hash : List ℕ)
    → o.write_ok ≡ true
    → or_cookie req.auth_token req.cookie ≡ or_cookie header cookie
    → AllSpare (strip_bearer (or_cookie header cookie)) 0 ops
    → req.is_local ≡ false
    → ¬ Listed req.url public_endpoints
    → (auth_check setup_ok db_ok up_ok now req
        (some hash)
        (apply_all ops (handle_auth_logout o header cookie db).1.sessions)).1
      ≡ false
logout_shuts_out o header cookie db ops setup_ok db_ok up_ok now req hash ok same all remote
      private =
    let sessions = apply_all ops (handle_auth_logout o header cookie db).1.sessions in
    elim (Bool-cases (auth_check setup_ok db_ok up_ok now req (some hash) sessions).1) [
      | inr refused ↦ refused
      | inl pass ↦
          elim ((auth_check-Allowed setup_ok db_ok up_ok now req (some hash) sessions).0 pass) [
            | inl l ↦ cc
            | inr (inl listed) ↦ absurd (private listed)
            | inr (inr (inl (s, none_set))) ↦ cc
            | inr (inr (inr has)) ↦ absurd (
                spent o header cookie (or_cookie req.auth_token req.cookie) db ops db_ok up_ok now
                  ok (sym same) all has)
          ]
    ]
