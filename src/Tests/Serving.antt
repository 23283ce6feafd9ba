-- ===== src/Tests/Serving.antt =====
-- Instances for src/api/server.c.
use airies_ups_c.Base.{
  ◌<◌, ◌≡◌, refl, true, false, none, some, List, [], ◌∷◌, ◌++◌, length, inl, inr,
}
use airies_ups_c.Base.Text.{bytes, starts_with}
use airies_ups_c.Auth.{same_text, auth_check, is_public, auth_is_setup}
use airies_ups_c.Auth.Access.{Listed}
use airies_ups_c.Http.Routes.{
  api_get, api_post, Route, find_route, pattern_matches, method_from_string, star_prefix,
  matches_with, api_server_route,
}
use airies_ups_c.Http.Files.{Sources}
use airies_ups_c.Http.Cookies.{api_cookie_set}
use airies_ups_c.Http.Cookies.Parsed.{cookie_pair, IsOneLine, cookie_comes_back}
use airies_ups_c.Http.{Server, HttpRequest, dispatch}
use airies_ups_c.Http.Guarded.{ResponseMeans, dispatch_means}
use airies_ups_c.Http.Routes.Table.{
  Registration, api_register_routes, register_all, stream_route, core_routes, auth_routes,
  shutdown_routes, config_routes, weather_routes,
}
use airies_ups_c.Http.Routes.Table.Reached.{In, registered, route_of, all_routes_reached}
use airies_ups_c.Http.Strangers.{open_handlers, stranger_called}
use airies_ups_c.Http.Uploads.{run_uploads, step, uploads_joined}

abbrev table : List Route
table =
    record {
      pattern = bytes "/api/status";
      method = api_get;
      streaming = false;
      handler = "handle_status";
    }
    ∷ record {
      pattern = bytes "/api/events/*";
      method = api_get;
      streaming = true;
      handler = "sse_handle_stream";
    }
    ∷ record {
      pattern = bytes "/api/auth/login";
      method = api_post;
      streaming = false;
      handler = "handle_auth_login";
    }
    ∷ []

found_second :
    find_route table (bytes "/api/events/ups") api_get
    ≡ some (record {
      pattern = bytes "/api/events/*";
      method = api_get;
      streaming = true;
      handler = "sse_handle_stream";
    })
unfolding find_route
found_second = refl

-- A disk with one page, and no embedded files.
abbrev sources : Sources
sources = record { embedded = λ _. false; disk = λ _. some (bytes "<html>") }

abbrev server : Server
server = record { routes = table; static_dir = some (bytes "frontend/dist") }

dispatch_means_example :
    ResponseMeans sources server none false
      (bytes "/logo.png")
      (bytes "GET")
      none
      []
      (dispatch sources server none false (bytes "/logo.png") (bytes "GET") none [])
dispatch_means_example =
    dispatch_means sources server none false (bytes "/logo.png") (bytes "GET") none []

-- A login, which is public.
abbrev login : HttpRequest
login = record {
  method = api_post;
  url = bytes "/api/auth/login";
  body = bytes "{}";
  auth_token = none;
  is_local = false;
}

cookie_comes_back_example :
    (cookie_pair (bytes "auth=abc; HttpOnly; SameSite=Strict; Path=/; Max-Age=60")
      ≡ bytes "auth" ++ b'=' ∷ bytes "abc")
    × IsOneLine (bytes "auth=abc; HttpOnly; SameSite=Strict; Path=/; Max-Age=60")
    × (length (bytes "auth=abc; HttpOnly; SameSite=Strict; Path=/; Max-Age=60") < 512)
cookie_comes_back_example =
    cookie_comes_back (bytes "auth") (bytes "abc") 60 false
      (bytes "auth=abc; HttpOnly; SameSite=Strict; Path=/; Max-Age=60")
      (unfold api_cookie_set in refl)

uploads_joined_example :
    run_uploads
      (step sources server none true (bytes "/api/auth/login") (bytes "POST") none)
      (bytes "{" ∷ bytes "}" ∷ [])
      (step sources server none true (bytes "/api/auth/login") (bytes "POST") none [] none).0
    ≡ (
      none,
      some (
          dispatch sources server none true
            (bytes "/api/auth/login")
            (bytes "POST")
            none
            (bytes "{}")),
    )
uploads_joined_example =
    uploads_joined sources server none true (bytes "/api/auth/login") (bytes "POST") none
      (bytes "{" ∷ bytes "}" ∷ []) tt

abbrev ups_get : Registration
ups_get = record {
  streaming = false;
  pattern = "/api/config/ups*";
  method = api_get;
  handler = "handle_config_ups_get";
}

-- It is the second of the settings' routes.
ups_get-In : In ups_get (registered true)
ups_get-In =
    let last = config_routes ++ weather_routes in
    let stopping = shutdown_routes ++ last in
    let signing = auth_routes ++ stopping in
    let in_last : In ups_get last = inr (inl refl) in
    after core_routes ups_get (stream_route true ++ signing) (
      after (stream_route true) ups_get signing
        (after auth_routes ups_get stopping (after shutdown_routes ups_get last in_last)))
  where
    after :
        (front : List Registration) (g : Registration) (rest : List Registration)
        → In g rest
        → In g (front ++ rest)
    after [] g rest i = i
    after (e ∷ front) g rest i = inr (after front g rest i)

-- The route with the star takes the path without it.
all_routes_reached_example :
    find_route (api_register_routes true) (bytes "/api/config/ups") api_get
    ≡ some (route_of ups_get)
unfolding star_prefix
all_routes_reached_example = all_routes_reached true ups_get ups_get-In

-- A login without a session.
stranger_called_example : Listed (bytes "handle_auth_login") open_handlers
stranger_called_example =
    stranger_called sources true none true true true 5 (some (bytes "hash")) [] none
      (bytes "/api/auth/login") (bytes "POST") none (bytes "{}")
      (record {
        pattern = bytes "/api/auth/login";
        method = api_post;
        streaming = false;
        handler = "handle_auth_login";
      })
      login (unfold auth_is_setup in refl) (λ h. elim h [ ])
      (unfold dispatch api_register_routes register_all api_server_route find_route pattern_matches
          star_prefix matches_with method_from_string same_text auth_check is_public starts_with in
        refl)
