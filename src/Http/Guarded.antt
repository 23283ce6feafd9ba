-- ===== src/Http/Guarded.antt =====
-- What the end of a request in src/api/server.c answers, and what the check of src/api/auth.c means for it.
use airies_ups_c.Base.{
  ℕ, ◌≡◌, refl, Bool, true, false, Option, none, some, List, [], Bool-cases, inl, inr,
}
use airies_ups_c.Base.Text.{bytes}
use airies_ups_c.Auth.{same_text, Session, auth_check}
use airies_ups_c.Auth
use airies_ups_c.Auth.Access.{same_text_eq, Allowed, auth_check-Allowed}
use airies_ups_c.Http.Routes.{
  Method, api_get, api_post, api_put, api_delete, Route, find_route, method_from_string,
}
use airies_ups_c.Http.Routes.First.{FirstRoute, find_route-first}
use airies_ups_c.Http.Files.{Sources, Served, try_serve_static, spa_fallback}
use airies_ups_c.Http.Files.Inside.{Inside, IfInside, try_serve_static-Inside, spa_fallback-Inside}
use airies_ups_c.Http.{
  Server, HttpRequest, Response, preflight, unauthorized, called, found, not_found, no_route,
  call_route, dispatch,
}

-- What `auth_fn` says of a request; without one every request is let in.
abbrev pub let_in : Option (HttpRequest → Bool) → HttpRequest → Bool
let_in none req = true
let_in (some auth_fn) req = auth_fn req

module _ (files : Sources) (srv : Server) (auth : Option (HttpRequest → Bool)) (is_local : Bool)
    (url method : List ℕ) (token : Option (List ℕ)) (body : List ℕ) where
  -- The request that a handler is given.
  abbrev pub request : HttpRequest
  request = record {
    method = method_from_string method;
    url = url;
    body = body;
    auth_token = token;
    is_local = is_local;
  }

  -- The route that the table has for the request.
  abbrev pub RouteIs : Option Route → Type 0
  RouteIs r = FirstRoute url (method_from_string method) srv.routes r

  abbrev pub ResponseMeans : Response → Type 0
  ResponseMeans preflight = method ≡ bytes "OPTIONS"
  ResponseMeans unauthorized = (r : Route) × RouteIs (some r) × (let_in auth request ≡ false)
  ResponseMeans (called r req) = RouteIs (some r) × (req ≡ request) × (let_in auth request ≡ true)
  ResponseMeans (found s) =
      RouteIs none × (method_from_string method ≡ api_get) × Inside files srv.static_dir s
  ResponseMeans not_found = RouteIs none

  call-Means :
      (a : Option (HttpRequest → Bool))
      → a ≡ auth
      → (r : Route) → RouteIs (some r)
      → ResponseMeans (call_route a r request)
  unfolding call_route
  call-Means none e r first = (first, refl, rw (← e) refl)
  call-Means (some auth_fn) e r first = elim (Bool-cases (auth_fn request)) [
    | inl ok ↦ rw ok (first, refl, rw (← e) ok)
    | inr ko ↦ rw ko (r, first, rw (← e) ko)
  ]

  served-Means :
      (first second : Option Served)
      → RouteIs none
      → method_from_string method ≡ api_get
      → IfInside files srv.static_dir first
      → IfInside files srv.static_dir second
      → ResponseMeans (elim first [
        | some s ↦ found s
        | none ↦ elim second [ some s ↦ found s | none ↦ not_found ]
      ])
  served-Means (some s) second routes get h k = (routes, get, h)
  served-Means none (some s) routes get h k = (routes, get, k)
  served-Means none none routes get h k = routes

  no_route-Means :
      (m : Method)
      → method_from_string method ≡ m
      → RouteIs none
      → ResponseMeans (no_route files srv url m)
  unfolding no_route
  no_route-Means api_get e routes =
      served-Means (try_serve_static files url srv.static_dir)
        (spa_fallback files url srv.static_dir) routes e
        (try_serve_static-Inside files url srv.static_dir)
        (spa_fallback-Inside files url srv.static_dir)
  no_route-Means api_post e routes = routes
  no_route-Means api_put e routes = routes
  no_route-Means api_delete e routes = routes

  routed :
      (r : Option Route)
      → RouteIs r
      → ResponseMeans (elim r [
        | none ↦ no_route files srv url (method_from_string method)
        | some r' ↦ call_route auth r' request
      ])
  routed none h = no_route-Means (method_from_string method) refl h
  routed (some r) h = call-Means auth refl r h

  -- What an answer means: a preflight, that the method is OPTIONS; 401, that a route takes the request and the
  -- check refuses it; a call, that the route is the first of the table that takes the request, is given the
  -- request as it came, and the check lets it in; a file, that no route takes the request, whose method counts
  -- as GET, and that the file is an embedded one or the content at a path made of the static directory and a
  -- text without "..", cut after 511 bytes; 404, that no route takes it.
  pub dispatch_means : ResponseMeans (dispatch files srv auth is_local url method token body)
  unfolding dispatch
  dispatch_means = elim (Bool-cases (same_text method (bytes "OPTIONS"))) [
    | inl e ↦ rw e (same_text_eq method (bytes "OPTIONS") e)
    | inr e ↦ rw e (
        routed (find_route srv.routes url (method_from_string method))
          (find_route-first srv.routes url (method_from_string method)))
  ]

-- The request as `auth_check` reads it; a missing text is the empty one.
abbrev pub or_empty : Option (List ℕ) → List ℕ
or_empty none = []
or_empty (some text) = text

abbrev pub checked : Option (List ℕ) → HttpRequest → Auth.Request
checked cookie req = record {
  is_local = req.is_local;
  url = req.url;
  auth_token = or_empty req.auth_token;
  cookie = or_empty cookie;
}

-- `auth_check` as the server's check, its statements' outcomes and the tables given.
abbrev pub auth_fn :
    (setup_ok db_ok up_ok : Bool)
    → ℕ
    → Option (List ℕ)
    → List Session
    → Option (List ℕ)
    → HttpRequest
    → Bool
auth_fn setup_ok db_ok up_ok now stored sessions cookie req =
    (auth_check setup_ok db_ok up_ok now (checked cookie req) stored sessions).1

-- With `auth_check` as its check, the server calls a route's handler only for a request that is allowed: from
-- the local socket, for a public endpoint, before a password is set, or with a token that has not expired
-- and is not revoked. It is the request as it came in, with its whole path.
pub called-Allowed :
    (files : Sources) (srv : Server) (setup_ok db_ok up_ok : Bool) (now : ℕ)
    (stored : Option (List ℕ)) (sessions : List Session) (cookie : Option (List ℕ))
    (is_local : Bool) (url method : List ℕ) (token : Option (List ℕ)) (body : List ℕ) (r : Route)
    (req : HttpRequest)
    → dispatch files srv
        (some (auth_fn setup_ok db_ok up_ok now stored sessions cookie))
        is_local
        url
        method
        token
        body
      ≡ called r req
    → Allowed setup_ok db_ok now
        (checked cookie (request files srv none is_local url method token body))
        stored
        sessions
called-Allowed files srv setup_ok db_ok up_ok now stored sessions cookie is_local url method token
      body r req e =
    let auth : Option (HttpRequest → Bool) =
      some (auth_fn setup_ok db_ok up_ok now stored sessions cookie) in
    let means : ResponseMeans files srv auth is_local url method token body (called r req) =
      rw e at (dispatch_means files srv auth is_local url method token body) in
    (auth_check-Allowed setup_ok db_ok up_ok now
        (checked cookie (request files srv none is_local url method token body)) stored sessions).0
      means.2
