-- ===== src/Http/Strangers.antt =====
-- What src/api/server.c runs for a request without a session, with the routes of src/api/routes.
use airies_ups_c.Base.{
  ℕ, ◌≡◌, inl, inr, refl, ap, ◌∙◌, Bool, true, false, ◌&&◌, Option, none, some, List, [], ◌∷◌,
  String, arith, Bool-cases, Option-cases,
}
use airies_ups_c.Base.Text.{bytes, starts_with}
use airies_ups_c.Auth.{same_text, Session, is_public, public_endpoints, or_cookie, auth_is_setup}
use airies_ups_c.Auth.Access.{Listed, is_public-Listed, HasSession}
use airies_ups_c.Http.{
  HttpRequest, called, found, not_found, Server, call_route, no_route, dispatch,
}
use airies_ups_c.Http.Files.{Sources, Served, try_serve_static, spa_fallback}
use airies_ups_c.Http.Guarded.{auth_fn, request, or_empty, called-Allowed}
use airies_ups_c.Http.Routes.{
  Method, api_get, api_post, api_put, api_delete, method_from_string, Route, star_prefix,
  matches_with, pattern_matches, find_route, api_server_route,
}
use airies_ups_c.Http.Routes.Table.{register_all, api_register_routes}

-- The handlers that anyone may have called.
abbrev pub open_handlers : List String
open_handlers =
    "handle_auth_setup" ∷ "handle_auth_login" ∷ "handle_setup_status" ∷ "handle_setup_ports"
    ∷ "handle_setup_test" ∷ []

abbrev is_open : Option Route → Bool
is_open none = true
is_open (some r) = is_public (bytes r.handler) open_handlers

is_open-Listed : (r : Route) → is_open (some r) ≡ true → Listed (bytes r.handler) open_handlers
is_open-Listed r h = is_public-Listed (bytes r.handler) open_handlers h

-- Whatever the method, a path of the list is taken by an open handler or by none.
abbrev opens : List Route → List ℕ → Bool
opens table url =
    (is_open (find_route table url api_get) && is_open (find_route table url api_post))
    && (is_open (find_route table url api_put) && is_open (find_route table url api_delete))

abbrev all_open : List Route → List String → Bool
all_open table [] = true
all_open table (p ∷ endpoints) = opens table (bytes p) && all_open table endpoints

public_open : (has_sse : Bool) → all_open (api_register_routes has_sse) public_endpoints ≡ true
unfolding api_register_routes register_all api_server_route find_route pattern_matches star_prefix
    matches_with starts_with same_text is_public
public_open false = refl
public_open true = refl

by_method :
    (table : List Route) (url : List ℕ) (m : Method)
    → opens table url ≡ true
    → is_open (find_route table url m) ≡ true
by_method table url api_get h = ground arith
by_method table url api_post h = ground arith
by_method table url api_put h = ground arith
by_method table url api_delete h = ground arith

Listed-open :
    (table : List Route) (endpoints : List String) (url : List ℕ) (m : Method)
    → all_open table endpoints ≡ true
    → Listed url endpoints
    → is_open (find_route table url m) ≡ true
Listed-open table [] url m h i = elim i [ ]
Listed-open table (p ∷ endpoints) url m h (inl same) =
    rw same (by_method table (bytes p) m (ground arith))
Listed-open table (p ∷ endpoints) url m h (inr i) =
    Listed-open table endpoints url m (ground arith) i

called-route :
    (auth : Option (HttpRequest → Bool)) (r r' : Route) (req req' : HttpRequest)
    → call_route auth r req ≡ called r' req'
    → r ≡ r'
unfolding call_route
called-route none r r' req req' h = cc
called-route (some auth_fn) r r' req req' h = elim (Bool-cases (auth_fn req)) [
  | inl ok ↦ let same = rw ok at h in cc
  | inr ko ↦ let same = rw ko at h in cc
]

served-quiet :
    (first second : Option Served) (r : Route) (req : HttpRequest)
    → ¬ (
        (elim first [
          | some s ↦ found s
          | none ↦ elim second [ some s ↦ found s | none ↦ not_found ]
        ])
        ≡ called r req)
served-quiet (some s) second r req h = cc
served-quiet none (some s) r req h = cc
served-quiet none none r req h = cc

no_route-quiet :
    (files : Sources) (srv : Server) (url : List ℕ) (m : Method) (r : Route) (req : HttpRequest)
    → ¬ (no_route files srv url m ≡ called r req)
unfolding no_route
no_route-quiet files srv url api_get r req h =
    served-quiet (try_serve_static files url srv.static_dir) (spa_fallback files url srv.static_dir)
      r req h
no_route-quiet files srv url api_post r req h = cc
no_route-quiet files srv url api_put r req h = cc
no_route-quiet files srv url api_delete r req h = cc

unset_open :
    (setup_ok : Bool) (stored : Option (List ℕ))
    → auth_is_setup setup_ok stored ≡ true
    → setup_ok ≡ true
    → stored ≡ none
    → ⊥
unfolding auth_is_setup
unset_open setup_ok stored set ok unset = let shut = rw (unset, ok) at set in cc

found_route :
    (files : Sources) (srv : Server) (auth : Option (HttpRequest → Bool)) (is_local : Bool)
    (url method : List ℕ) (token : Option (List ℕ)) (body : List ℕ) (r : Route) (req : HttpRequest)
    → dispatch files srv auth is_local url method token body ≡ called r req
    → find_route srv.routes url (method_from_string method) ≡ some r
unfolding dispatch
found_route files srv auth is_local url method token body r req h =
    elim (Bool-cases (same_text method (bytes "OPTIONS"))) [
      | inl e ↦ let none_called = rw e at h in cc
      | inr e ↦
          let rest = rw e at h in
          elim (Option-cases (find_route srv.routes url (method_from_string method))) [
            | inl f ↦
                absurd
                  (no_route-quiet files srv url (method_from_string method) r req (rw f at rest))
            | inr (r', f) ↦
                f
                ∙ ap some (
                    called-route auth r' r (request files srv none is_local url method token body)
                      req (rw f at rest))
          ]
    ]

-- Where the check of requests is set, which it is not in the first moments of the daemon, a request over the network
-- without a valid session, once a password is set or the query for it fails, has no
-- handler called of the routes that the daemon registers but those of the set-up (its status, the list of
-- ports, the test of a connection, the first password) and of the login.
pub stranger_called :
    (files : Sources) (has_sse : Bool) (static_dir : Option (List ℕ)) (setup_ok db_ok up_ok : Bool)
    (now : ℕ) (stored : Option (List ℕ)) (sessions : List Session) (cookie : Option (List ℕ))
    (url method : List ℕ) (token : Option (List ℕ)) (body : List ℕ) (r : Route) (req : HttpRequest)
    → auth_is_setup setup_ok stored ≡ true
    → ¬ HasSession db_ok now (or_cookie (or_empty token) (or_empty cookie)) sessions
    → dispatch files
        (record { routes = api_register_routes has_sse; static_dir = static_dir })
        (some (auth_fn setup_ok db_ok up_ok now stored sessions cookie))
        false
        url
        method
        token
        body
      ≡ called r req
    → Listed (bytes r.handler) open_handlers
stranger_called files has_sse static_dir setup_ok db_ok up_ok now stored sessions cookie url method
      token body r req set no_session h =
    let srv : Server = record { routes = api_register_routes has_sse; static_dir = static_dir } in
    let auth : Option (HttpRequest → Bool) =
      some (auth_fn setup_ok db_ok up_ok now stored sessions cookie) in
    let is_found = found_route files srv auth false url method token body r req h in
    elim (called-Allowed files srv setup_ok db_ok up_ok now stored sessions cookie false url method
      token body r req h) [
        | inl remote ↦ cc
        | inr (inl listed) ↦
            let opened =
              Listed-open (api_register_routes has_sse) public_endpoints url
                (method_from_string method) (public_open has_sse) listed in
            is_open-Listed r (rw is_found at opened)
        | inr (inr (inl (ok, unset))) ↦ absurd (unset_open setup_ok stored set ok unset)
        | inr (inr (inr has)) ↦ absurd (no_session has)
      ]

-- While no check is set, which is how the daemon starts to serve (it listens, then registers the routes, then sets the
-- check), every request but a preflight that finds a route has its handler called, from the network and without
-- a session too.
pub unset_check_calls :
    (files : Sources) (srv : Server) (url method : List ℕ) (token : Option (List ℕ)) (body : List ℕ)
    (r : Route)
    → same_text method (bytes "OPTIONS") ≡ false
    → find_route srv.routes url (method_from_string method) ≡ some r
    → dispatch files srv none false url method token body
      ≡ called r (request files srv none false url method token body)
unfolding dispatch call_route
unset_check_calls files srv url method token body r other is_found = rw (other, is_found) refl
