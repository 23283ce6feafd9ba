-- ===== src/Http/Routes/Table/Reached.antt =====
-- Which registered routes of src/api/routes are reached.
use airies_ups_c.Base.{
  ℕ, ◌≡◌, ◌⊎◌, inl, inr, refl, Bool, true, false, not, ◌&&◌, Option, none, some, List, [], ◌∷◌,
  ◌++◌, map, arith,
}
use airies_ups_c.Base.Text.{bytes, starts_with}
use airies_ups_c.Auth.{same_text}
use airies_ups_c.Http.Routes.{
  same_method, Route, star_prefix, matches_with, pattern_matches, find_route, api_server_route,
}
use airies_ups_c.Http.Routes.First.{same_method_self, find_route-cons}
use airies_ups_c.Http.Routes.Table.{
  Registration, core_routes, stream_route, auth_routes, shutdown_routes, config_routes,
  weather_routes, register_all, api_register_routes,
}

-- All the calls, in their order.
abbrev pub registered : Bool → List Registration
registered has_sse =
    core_routes
    ++ (stream_route has_sse
        ++ (auth_routes ++ (shutdown_routes ++ (config_routes ++ weather_routes))))

abbrev pub route_of : Registration → Route
route_of g = record {
  pattern = bytes g.pattern;
  method = g.method;
  streaming = g.streaming;
  handler = g.handler;
}

-- The shortest path that a pattern covers.
abbrev pub or_whole : List ℕ → Option (List ℕ) → List ℕ
or_whole pattern none = pattern
or_whole pattern (some front) = front

abbrev pub address : List ℕ → List ℕ
address pattern = or_whole pattern (star_prefix pattern)

abbrev pub In : Registration → List Registration → Type 0
In g [] = ⊥
In g (e ∷ calls) = (g ≡ e) ⊎ In g calls

-- The route takes the address of none of the registrations.
abbrev spares : Route → List Registration → Bool
spares e [] = true
spares e (g ∷ calls) =
    not (same_method e.method g.method && pattern_matches e.pattern (address (bytes g.pattern)))
    && spares e calls

abbrev are_reached : List Registration → Bool
are_reached [] = true
are_reached (g ∷ calls) =
    pattern_matches (bytes g.pattern) (address (bytes g.pattern))
    && spares (route_of g) calls
    && are_reached calls

spares-In :
    (e : Route) (calls : List Registration) (g : Registration)
    → spares e calls ≡ true
    → In g calls
    → (same_method e.method g.method && pattern_matches e.pattern (address (bytes g.pattern)))
      ≡ false
spares-In e [] g h i = elim i [ ]
spares-In e (x ∷ calls) g h (inl same) = rw same (ground arith)
spares-In e (x ∷ calls) g h (inr i) = spares-In e calls g (ground arith) i

first_found :
    (calls : List Registration) (g : Registration)
    → are_reached calls ≡ true
    → In g calls
    → find_route (map route_of calls) (address (bytes g.pattern)) g.method ≡ some (route_of g)
first_found [] g h i = elim i [ ]
first_found (e ∷ calls) g h (inl same) =
    let own : pattern_matches (bytes e.pattern) (address (bytes e.pattern)) ≡ true = ground arith in
    rw
      (
        same,
        find_route-cons (route_of e) (map route_of calls) (address (bytes e.pattern)) e.method,
        same_method_self e.method,
        own,
      )
      refl
first_found (e ∷ calls) g h (inr i) =
    let other = spares-In (route_of e) calls g (ground arith) i in
    rw
      (
        find_route-cons (route_of e) (map route_of calls) (address (bytes g.pattern)) g.method,
        other,
      )
      (first_found calls g (ground arith) i)

all_kept : (has_sse : Bool) → api_register_routes has_sse ≡ map route_of (registered has_sse)
unfolding api_register_routes register_all api_server_route
all_kept false = refl
all_kept true = refl

all_reached : (has_sse : Bool) → are_reached (registered has_sse) ≡ true
unfolding pattern_matches star_prefix matches_with starts_with same_text
all_reached false = refl
all_reached true = refl

-- Every route that is registered is reached: there is room for it, its pattern is kept whole, and no route before it
-- takes its method and path (for a pattern with a final star, the text before the star).
pub all_routes_reached :
    (has_sse : Bool) (g : Registration)
    → In g (registered has_sse)
    → find_route (api_register_routes has_sse) (address (bytes g.pattern)) g.method
      ≡ some (route_of g)
all_routes_reached has_sse g i =
    rw (all_kept has_sse) (first_found (registered has_sse) g (all_reached has_sse) i)
