-- ===== src/Http/Routes/First.antt =====
-- Which route `find_route` of src/api/server.c takes.
use airies_ups_c.Base.{
  ℕ, ◌≡◌, ◌⊎◌, inl, inr, refl, ap, ◌∙◌, Bool, true, false, ◌&&◌, if◌then◌else◌, Option, none, some,
  List, [], ◌∷◌, ◌++◌, length, take, get_or, arith, Bool-cases,
}
use airies_ups_c.Base.Text.{starts_with-append, starts_with_split}
use airies_ups_c.Auth.Access.{same_text_eq, same_text_self}
use airies_ups_c.Http.Routes.{
  Method, api_get, api_post, api_put, api_delete, same_method, Route, star_prefix, matches_with,
  pattern_matches, find_route,
}

same_method_eq : (a b : Method) → same_method a b ≡ true → a ≡ b
same_method_eq api_get api_get h = refl
same_method_eq api_post api_post h = refl
same_method_eq api_put api_put h = refl
same_method_eq api_delete api_delete h = refl
same_method_eq api_get api_post h = cc
same_method_eq api_get api_put h = cc
same_method_eq api_get api_delete h = cc
same_method_eq api_post api_get h = cc
same_method_eq api_post api_put h = cc
same_method_eq api_post api_delete h = cc
same_method_eq api_put api_get h = cc
same_method_eq api_put api_post h = cc
same_method_eq api_put api_delete h = cc
same_method_eq api_delete api_get h = cc
same_method_eq api_delete api_post h = cc
same_method_eq api_delete api_put h = cc

pub same_method_self : (a : Method) → same_method a a ≡ true
same_method_self api_get = refl
same_method_self api_post = refl
same_method_self api_put = refl
same_method_self api_delete = refl

last_split :
    (c : ℕ) (pat : List ℕ)
    → c ∷ pat ≡ take (length pat) (c ∷ pat) ++ get_or (c ∷ pat) (length pat) 0 ∷ []
last_split c [] = refl
last_split c (d ∷ pat) = ap (λ l. c ∷ l) (last_split d pat)

take-snoc :
    (c : ℕ) (front : List ℕ) (d : ℕ)
    → take (length (front ++ d ∷ [])) (c ∷ (front ++ d ∷ [])) ≡ c ∷ front
take-snoc c [] d = refl
take-snoc c (e ∷ front) d = ap (λ l. c ∷ l) (take-snoc e front d)

get_or-snoc :
    (c : ℕ) (front : List ℕ) (d : ℕ)
    → get_or (c ∷ (front ++ d ∷ [])) (length (front ++ d ∷ [])) 0 ≡ d
get_or-snoc c [] d = refl
get_or-snoc c (e ∷ front) d = get_or-snoc e front d

-- A pattern with a final star is its prefix and the star.
star_prefix-some : (pat front : List ℕ) → star_prefix pat ≡ some front → pat ≡ front ++ 42 ∷ []
unfolding star_prefix
star_prefix-some [] front h = cc
star_prefix-some (c ∷ pat) front h =
    let star : get_or (c ∷ pat) (length pat) 0 ≡ 42 = ground arith in
    let same : take (length pat) (c ∷ pat) ≡ front = ground arith in
    last_split c pat ∙ rw (star, same) refl

star_prefix-snoc : (front : List ℕ) → star_prefix (front ++ 42 ∷ []) ≡ some front
unfolding star_prefix
star_prefix-snoc [] = refl
star_prefix-snoc (c ∷ front) = rw (get_or-snoc c front 42, take-snoc c front 42) refl

-- What a pattern stands for: every text that begins with what is before a final star, else itself.
abbrev pub Covers : List ℕ → List ℕ → Type 0
Covers pat url =
    ((front : List ℕ) × (rest : List ℕ) × (pat ≡ front ++ 42 ∷ []) × (url ≡ front ++ rest))
    ⊎ (((front : List ℕ) → pat ≡ front ++ 42 ∷ [] → ⊥) × (pat ≡ url))

matched-Covers :
    (pat url : List ℕ) (star : Option (List ℕ))
    → star_prefix pat ≡ star
    → matches_with star pat url ≡ true
    → Covers pat url
unfolding matches_with
matched-Covers pat url none e h = inr ((λ front q. none_some front q), same_text_eq pat url h)
  where
    none_some : (front : List ℕ) → pat ≡ front ++ 42 ∷ [] → ⊥
    none_some front q = let f : star_prefix pat ≡ some front = rw q (star_prefix-snoc front) in cc
matched-Covers pat url (some front) e h =
    let (rest, split) = starts_with_split url front h in
    inl (front, rest, star_prefix-some pat front e, split)

exact :
    (pat url : List ℕ) (star : Option (List ℕ))
    → star_prefix pat ≡ star
    → Covers pat url
    → matches_with star pat url ≡ true
unfolding matches_with
exact pat url none e (inl (front, rest, p, u)) =
    let f : star_prefix pat ≡ some front = rw p (star_prefix-snoc front) in cc
exact pat url (some front') e (inl (front, rest, p, u)) =
    let f : star_prefix pat ≡ some front = rw p (star_prefix-snoc front) in
    let same : front' ≡ front = cc in rw (same, u) (starts_with-append front rest)
exact pat url none e (inr (plain, u)) = rw u (same_text_self url)
exact pat url (some front) e (inr (plain, u)) = absurd (plain front (star_prefix-some pat front e))

pattern_matches-Covers : (pat url : List ℕ) → pattern_matches pat url ≡ true → Covers pat url
unfolding pattern_matches
pattern_matches-Covers pat url h = matched-Covers pat url (star_prefix pat) refl h

Covers-pattern_matches : (pat url : List ℕ) → Covers pat url → pattern_matches pat url ≡ true
unfolding pattern_matches
Covers-pattern_matches pat url h = exact pat url (star_prefix pat) refl h

-- A route that takes a request.
abbrev pub Takes : List ℕ → Method → Route → Type 0
Takes url method r = (r.method ≡ method) × Covers r.pattern url

abbrev pub NoneTakes : List ℕ → Method → List Route → Type 0
NoneTakes url method [] = Unit {0}
NoneTakes url method (r ∷ routes) = (Takes url method r → ⊥) × NoneTakes url method routes

-- The route that is taken is the first that takes the request, and there is none exactly if none does.
abbrev pub FirstRoute : List ℕ → Method → List Route → Option Route → Type 0
FirstRoute url method routes none = NoneTakes url method routes
FirstRoute url method routes (some r) =
    (before : List Route) × (after : List Route) × (routes ≡ before ++ r ∷ after)
    × NoneTakes url method before
    × Takes url method r

abbrev both : Route → List ℕ → Method → Bool
both r url method = same_method r.method method && pattern_matches r.pattern url

pub find_route-cons :
    (r : Route) (routes : List Route) (url : List ℕ) (method : Method)
    → find_route (r ∷ routes) url method
      ≡ (if both r url method then some r else find_route routes url method)
unfolding find_route
find_route-cons r routes url method = ground arith

refuses :
    (r : Route) (url : List ℕ) (method : Method)
    → both r url method ≡ false
    → Takes url method r
    → ⊥
refuses r url method h (m, c) =
    let yes' : pattern_matches r.pattern url ≡ true = Covers-pattern_matches r.pattern url c in
    let same : same_method r.method method ≡ true = rw m (same_method_self method) in
    ground (arith, yes', same)

shift :
    (r : Route) (routes : List Route) (url : List ℕ) (method : Method) (found : Option Route)
    → both r url method ≡ false
    → FirstRoute url method routes found
    → FirstRoute url method (r ∷ routes) found
shift r routes url method none h first = (refuses r url method h, first)
shift r routes url method (some r') h (before, after, e, others, takes) =
    (r ∷ before, after, ap (λ l. r ∷ l) e, (refuses r url method h, others), takes)

-- The route that a request gets is the first of the table with its method whose pattern covers the path: a
-- pattern with a final star covers what begins with the text before the star, any other only itself. A
-- request gets no route only if no route of the table has its method and covers its path.
pub find_route-first :
    (routes : List Route) (url : List ℕ) (method : Method)
    → FirstRoute url method routes (find_route routes url method)
unfolding find_route
find_route-first [] url method = tt
find_route-first (r ∷ routes) url method = elim (Bool-cases (both r url method)) [
  | inl h ↦
      rw (find_route-cons r routes url method, h)
        (
          [],
          routes,
          refl,
          tt,
          (same_method_eq _ _ (ground arith), pattern_matches-Covers _ _ (ground arith)),
        )
  | inr h ↦
      rw (find_route-cons r routes url method, h)
        (shift r routes url method (find_route routes url method) h
          (find_route-first routes url method))
]
