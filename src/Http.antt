-- ===== src/Http.antt =====
-- The HTTP server of src/api/server.c. A text is its bytes without the final zero, a missing one `none`.
-- libmicrohttpd's answers are arguments, and the making and queueing of a response succeeds.
pub mod Routes
pub mod Files
pub mod Cookies
pub mod Guarded
pub mod Strangers
pub mod Uploads
pub mod Settings
pub mod Commands
pub mod StatusPage
pub mod Login
use airies_ups_c.Base.{
  ℕ, ◌+◌, ◌*◌, Bool, Option, none, some, List, [], ◌∷◌, ◌++◌, ltb, if◌then◌else◌, length,
}
use airies_ups_c.Base.Text.{bytes}
use airies_ups_c.Auth.{same_text}
use airies_ups_c.Http.Routes.{Method, api_get, Route, method_from_string, find_route}
use airies_ups_c.Http.Files.{Sources, Served, try_serve_static, spa_fallback}

-- post_body_t; `len` is the length of `bytes`.
pub record PostBody : Type 0 where
  pub body : List ℕ
  pub capacity : ℕ

abbrev pub new_body : PostBody
new_body = record { body = []; capacity = 0 }

pub new_capacity : ℕ → ℕ → ℕ
new_capacity needed capacity =
    let newcap = if ltb (capacity * 2) needed then needed else capacity * 2 in
    if ltb newcap 1024 then 1024 else newcap

-- One part of the upload; `realloc_ok` is that the growth succeeds. The text is a list, so the capacity, which is
-- kept beside it, has no effect on what is stored.
pub add_upload : Bool → PostBody → List ℕ → PostBody
unfolding new_capacity
add_upload realloc_ok pb upload =
    let needed = length pb.body + length upload + 1 in
    if ltb pb.capacity needed
    then (if realloc_ok
        then record { body = pb.body ++ upload; capacity = new_capacity needed pb.capacity }
        else pb)
    else record pb { body = pb.body ++ upload }

-- What a handler is given, less the connection that it asks for parameters and cookies.
pub record HttpRequest : Type 0 where
  pub method : Method
  pub url : List ℕ
  pub body : List ℕ
  pub auth_token : Option (List ℕ)
  pub is_local : Bool

-- A response that is queued. `called`: the route's handler is called with the request, and its response
-- sent.
pub data Response : Type 0 where
  preflight : Response
  unauthorized : Response
  called : Route → HttpRequest → Response
  found : Served → Response
  not_found : Response

pub record Server : Type 0 where
  pub routes : List Route
  pub static_dir : Option (List ℕ)

no_route : Sources → Server → List ℕ → Method → Response
no_route files srv url api_get = elim (try_serve_static files url srv.static_dir) [
  | some served ↦ found served
  | none ↦ elim (spa_fallback files url srv.static_dir) [
    | some served ↦ found served
    | none ↦ not_found
  ]
]
no_route files srv url _ = not_found

-- `auth_fn`, if it is set: whether the request is let in.
call_route : Option (HttpRequest → Bool) → Route → HttpRequest → Response
call_route none r req = called r req
call_route (some auth_fn) r req = if auth_fn req then called r req else unauthorized

-- The end of the request: the body is complete. `token` is the header Authorization.
unfoldable pub dispatch :
    Sources
    → Server
    → Option (HttpRequest → Bool)
    → (is_local : Bool) → (url method : List ℕ) → (token : Option (List ℕ)) → (body : List ℕ)
    → Response
unfolding same_text call_route no_route
dispatch files srv auth is_local url method token body =
    if same_text method (bytes "OPTIONS")
    then preflight
    else let api_method = method_from_string method in
      elim (find_route srv.routes url api_method) [
        | none ↦ no_route files srv url api_method
        | some r ↦ call_route auth r (record {
          method = api_method;
          url = url;
          body = body;
          auth_token = token;
          is_local = is_local;
        })
      ]

-- One call by libmicrohttpd: the state kept in `*req_cls`, and the response, if one is queued. An empty
-- upload ends the request.
pub request_handler :
    Sources
    → Server
    → Option (HttpRequest → Bool)
    → (is_local : Bool) → (url method : List ℕ) → (token : Option (List ℕ)) → (realloc_ok : Bool)
    → (upload : List ℕ) → Option PostBody
    → Option PostBody × Option Response
unfolding add_upload dispatch
request_handler files srv auth is_local url method token realloc_ok upload none =
    (some new_body, none)
request_handler files srv auth is_local url method token realloc_ok (c ∷ upload) (some pb) =
    (some (add_upload realloc_ok pb (c ∷ upload)), none)
request_handler files srv auth is_local url method token realloc_ok [] (some pb) =
    (none, some (dispatch files srv auth is_local url method token pb.body))
