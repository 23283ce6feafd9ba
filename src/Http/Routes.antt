-- ===== src/Http/Routes.antt =====
-- The methods and the route table of src/api/server.c.
pub mod First
pub mod Table
use airies_ups_c.Base.{
  ℕ, Bool, true, false, not, Option, none, some, List, [], ◌∷◌, ◌++◌, ◌==◌, leb, if◌then◌else◌,
  take, length, get_or, String,
}
use airies_ups_c.Base.Text.{bytes, starts_with}
use airies_ups_c.Auth.{same_text}

-- api_method_t
pub data Method : Type 0 where
  api_get : Method
  api_post : Method
  api_put : Method
  api_delete : Method

abbrev pub same_method : Method → Method → Bool
same_method api_get api_get = true
same_method api_post api_post = true
same_method api_put api_put = true
same_method api_delete api_delete = true
same_method _ _ = false

unfoldable pub method_from_string : List ℕ → Method
unfolding same_text
method_from_string method =
    if same_text method (bytes "GET")
    then api_get
    else if same_text method (bytes "POST")
    then api_post
    else if same_text method (bytes "PUT")
    then api_put
    else if same_text method (bytes "DELETE")
    then api_delete
    else api_get

-- route_entry_t; `handler` is the name of the function, its userdata is left out, `streaming` for the kind.
pub record Route : Type 0 where
  pub pattern : List ℕ
  pub method : Method
  pub streaming : Bool
  pub handler : String

abbrev pub max_routes : ℕ
max_routes = 64

-- The bytes before a final '*'.
unfoldable pub star_prefix : List ℕ → Option (List ℕ)
star_prefix [] = none
star_prefix (c ∷ pat) =
    if get_or (c ∷ pat) (length pat) 0 == 42 then some (take (length pat) (c ∷ pat)) else none

-- `strncmp` with the prefix, or `strcmp`.
unfoldable pub matches_with : Option (List ℕ) → List ℕ → List ℕ → Bool
unfolding same_text starts_with
matches_with none pat url = same_text pat url
matches_with (some front) pat url = starts_with url front

unfoldable pub pattern_matches : List ℕ → List ℕ → Bool
unfolding star_prefix matches_with
pattern_matches pat url = matches_with (star_prefix pat) pat url

unfoldable pub find_route : List Route → List ℕ → Method → Option Route
unfolding pattern_matches
find_route [] url method = none
find_route (r ∷ routes) url method =
    let rest = find_route routes url method in
    if not (same_method r.method method)
    then rest
    else if pattern_matches r.pattern url
    then some r
    else rest

-- `api_server_route` and `api_server_route_streaming`; `none` is the error "too many API routes".
unfoldable pub api_server_route : Bool → List Route → List ℕ → Method → String → Option (List Route)
api_server_route streaming routes pattern method handler =
    if leb max_routes (length routes)
    then none
    else some (
        routes
        ++ record {
          pattern = take 127 pattern;
          method = method;
          streaming = streaming;
          handler = handler;
        }
          ∷ [])
