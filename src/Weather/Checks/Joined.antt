-- ===== src/Weather/Checks/Joined.antt =====
-- The reasons that `check_alerts` of src/weather/weather.c collects, and the end of their buffer.
use airies_ups_c.Base.{
  ℕ, ◌+◌, ◌-◌, ◌≤◌, ◌<◌, ◌≡◌, ◌⊎◌, refl, sym, ap, ◌∙◌, Bool, true, false, ◌||◌, ◌&&◌, Option, none,
  some, List, [], ◌∷◌, ◌++◌, length, length-append, take-all, append_assoc, Bool-cases, inl, inr,
  if◌then◌else◌, arith, ltb,
}
use mathlib.Core.Path.{subst}
use airies_ups_c.Base.Text.{bytes, starts_with, starts_with_split, strstr, strstr-none, is_some}
use airies_ups_c.Weather.Checks.{
  Reasons, print, and_print, add_reason, check_feature, check_features, no_reasons, check_alerts,
}

-- The events of the configured types, in order.
unfoldable pub matching : List ℕ → List (Option (List ℕ)) → List (List ℕ)
matching alert_types [] = []
matching alert_types (none ∷ features) = matching alert_types features
matching alert_types (some event ∷ features) =
    let later = matching alert_types features in
    if is_some (strstr alert_types event) then event ∷ later else later

unfoldable pub glue : List ℕ → List ℕ → List ℕ
glue [] piece = piece
glue (c ∷ text) piece = (c ∷ text) ++ (bytes "; " ++ piece)

-- Texts joined by "; ".
unfoldable pub join : List ℕ → List (List ℕ) → List ℕ
unfolding glue
join text [] = text
join text (e ∷ es) = join (glue text e) es

abbrev pub is_nonempty : List (List ℕ) → Bool
is_nonempty [] = false
is_nonempty (e ∷ es) = true

abbrev at_end : List ℕ → Bool → Reasons
at_end text severe = record { text = text; rpos = length text; severe = severe }

or_false : (b : Bool) → (b || false) ≡ b
or_false true = refl
or_false false = refl

length-glue : (text piece : List ℕ) → length text ≤ length (glue text piece)
unfolding glue
length-glue [] piece = omega arith
length-glue (c ∷ text) piece = omega (arith, length-append (c ∷ text) (bytes "; " ++ piece))

length-join : (text : List ℕ) (es : List (List ℕ)) → length text ≤ length (join text es)
unfolding join
length-join text [] = omega arith
length-join text (e ∷ es) = omega (arith, length-join (glue text e) es, length-glue text e)

check_features-none :
    (size : ℕ) (types : List ℕ) (features : List (Option (List ℕ)))
    → check_features size types features none ≡ none
unfolding check_features
check_features-none size types [] = refl
check_features-none size types (f ∷ features) = refl

add_reason-past :
    (size : ℕ) (piece : List ℕ) (r : Reasons) → size < r.rpos → add_reason size piece r ≡ none
unfolding add_reason and_print print
add_reason-past size piece r h = ground arith

print-fits :
    (size : ℕ) (piece text : List ℕ) (severe : Bool)
    → length (text ++ piece) < size
    → print size piece (at_end text severe) ≡ some (at_end (text ++ piece) severe)
unfolding print
print-fits size piece text severe h =
    let sum = length-append text piece in
    let room : ltb size (length text) ≡ false = ground (arith, sum) in
    rw (room, take-all (size - length text - 1) piece (omega (arith, sum)), sym sum) refl

add_reason-fits :
    (size : ℕ) (piece text : List ℕ) (severe : Bool)
    → length (glue text piece) < size
    → add_reason size piece (at_end text severe) ≡ some (at_end (glue text piece) true)
unfolding add_reason and_print glue
add_reason-fits size piece [] severe h = print-fits size piece [] true h
add_reason-fits size piece (c ∷ text) severe h =
    let sizes = length-append (c ∷ text) (bytes "; " ++ piece) in
    let test : (ltb 0 (length (c ∷ text)) && ltb (length (c ∷ text)) (size - 2)) ≡ true =
      ground (arith, sizes) in
    let sep =
      print-fits size (bytes "; ") (c ∷ text) true
        (omega (arith, sizes, length-append (c ∷ text) (bytes "; "))) in
    let same = append_assoc (c ∷ text) (bytes "; ") piece in
    rw test (
      ap (and_print size piece) sep
      ∙ print-fits size piece ((c ∷ text) ++ bytes "; ") true (
          omega (
            arith,
            sizes,
            length-append ((c ∷ text) ++ bytes "; ") piece,
            length-append (c ∷ text) (bytes "; "),
          ))
      ∙ ap (λ t. some (at_end t true)) same)

-- An event that is of the types, and one that is not.
matching-yes :
    (types event : List ℕ) (features : List (Option (List ℕ)))
    → is_some (strstr types event) ≡ true
    → matching types (some event ∷ features) ≡ event ∷ matching types features
unfolding matching
matching-yes types event features e = rw e refl

matching-no :
    (types event : List ℕ) (features : List (Option (List ℕ)))
    → is_some (strstr types event) ≡ false
    → matching types (some event ∷ features) ≡ matching types features
unfolding matching
matching-no types event features e = rw e refl

check_feature-yes :
    (size : ℕ) (types event : List ℕ) (r : Reasons)
    → is_some (strstr types event) ≡ true
    → check_feature size types (some event) r ≡ add_reason size event r
unfolding check_feature
check_feature-yes size types event r e = rw e refl

check_feature-no :
    (size : ℕ) (types event : List ℕ) (r : Reasons)
    → is_some (strstr types event) ≡ false
    → check_feature size types (some event) r ≡ some r
unfolding check_feature
check_feature-no size types event r e = rw e refl

-- What the loop gives from a text on, if the matches joined to it are the given ones.
abbrev joined : List ℕ → Bool → List (List ℕ) → Option Reasons
joined text severe es = some (at_end (join text es) (severe || is_nonempty es))

severe_now : (severe : Bool) (b : Bool) → (true || b) ≡ (severe || true)
severe_now true b = refl
severe_now false b = refl

features-joined :
    (size : ℕ) (types : List ℕ) (features : List (Option (List ℕ))) (text : List ℕ) (severe : Bool)
    → length (join text (matching types features)) < size
    → check_features size types features (some (at_end text severe))
      ≡ joined text severe (matching types features)
unfolding check_features matching check_feature join
features-joined size types [] text severe h = ap (λ s. some (at_end text s)) (sym (or_false severe))
features-joined size types (none ∷ features) text severe h =
    features-joined size types features text severe h
features-joined size types (some event ∷ features) text severe h =
    elim (Bool-cases (is_some (strstr types event))) [
      | inr e ↦
          let m = matching-no types event features e in
          let h' = subst (λ es. length (join text es) < size) m h in
          ap (check_features size types features)
            (check_feature-no size types event (at_end text severe) e)
          ∙ features-joined size types features text severe h'
          ∙ ap (joined text severe) (sym m)
      | inl e ↦
          let m = matching-yes types event features e in
          let h' : length (join (glue text event) (matching types features)) < size =
            subst (λ es. length (join text es) < size) m h in
          let fits : length (glue text event) < size =
            omega (arith, length-join (glue text event) (matching types features), h') in
          ap (check_features size types features) (
            check_feature-yes size types event (at_end text severe) e
            ∙ add_reason-fits size event text severe fits)
          ∙ features-joined size types features (glue text event) true h'
          ∙ ap (λ s. some (at_end (join (glue text event) (matching types features)) s))
              (severe_now severe (is_nonempty (matching types features)))
          ∙ ap (joined text severe) (sym m)
    ]

-- The event stands somewhere within the text.
abbrev pub IsWithin : List ℕ → List ℕ → Type 0
IsWithin text event = (front : List ℕ) × (back : List ℕ) × (text ≡ front ++ (event ++ back))

-- The events are those of the features, in order, that stand somewhere within the text of the types.
abbrev pub Chosen : List ℕ → List (Option (List ℕ)) → List (List ℕ) → Type 0
Chosen types [] events = events ≡ []
Chosen types (none ∷ features) events = Chosen types features events
Chosen types (some event ∷ features) events =
    ((later : List (List ℕ)) × (events ≡ event ∷ later)
      × IsWithin types event
      × Chosen types features later)
    ⊎ ((IsWithin types event → ⊥) × Chosen types features events)

strstr-IsWithin : (text event : List ℕ) → is_some (strstr text event) ≡ true → IsWithin text event
unfolding strstr
strstr-IsWithin [] event h = elim (Bool-cases (starts_with [] event)) [
  | inl here ↦ let (back, e) = starts_with_split [] event here in ([], back, e)
  | inr no' ↦ let stuck : false ≡ true = rw no' at h in cc
]
strstr-IsWithin (c ∷ text) event h = elim (Bool-cases (starts_with (c ∷ text) event)) [
  | inl here ↦ let (back, e) = starts_with_split (c ∷ text) event here in ([], back, e)
  | inr no' ↦
      let (front, back, e) = strstr-IsWithin text event (rw no' at h) in
      (c ∷ front, back, ap (λ l. c ∷ l) e)
]

absent : (o : Option (List ℕ)) → is_some o ≡ false → o ≡ none
absent none h = refl
absent (some a) h = cc

pub matching-Chosen :
    (types : List ℕ) (features : List (Option (List ℕ)))
    → Chosen types features (matching types features)
unfolding matching
matching-Chosen types [] = refl
matching-Chosen types (none ∷ features) = matching-Chosen types features
matching-Chosen types (some event ∷ features) = elim (Bool-cases (is_some (strstr types event))) [
  | inl yes' ↦ rw yes' (
      inl (
        matching types features,
        refl,
        strstr-IsWithin types event yes',
        matching-Chosen types features,
      ))
  | inr no' ↦ rw no' (
      inr (
        λ within.
            strstr-none types event within.0 within.1 (absent (strstr types event) no') within.2,
        matching-Chosen types features,
      ))
]

-- The features determine the events.
Chosen-one :
    (types : List ℕ) (features : List (Option (List ℕ))) (events events' : List (List ℕ))
    → Chosen types features events
    → Chosen types features events'
    → events ≡ events'
Chosen-one types [] events events' h k = h ∙ sym k
Chosen-one types (none ∷ features) events events' h k = Chosen-one types features events events' h k
Chosen-one types (some event ∷ features) events events' (inl (l, e, w, h)) (inl (l', e', w', k)) =
    e ∙ ap (λ r. event ∷ r) (Chosen-one types features l l' h k) ∙ sym e'
Chosen-one types (some event ∷ features) events events' (inl (l, e, w, h)) (inr (no', k)) =
    absurd (no' w)
Chosen-one types (some event ∷ features) events events' (inr (no', h)) (inl (l', e', w', k)) =
    absurd (no' w')
Chosen-one types (some event ∷ features) events events' (inr (no', h)) (inr (no'', k)) =
    Chosen-one types features events events' h k

Chosen-unique :
    (types : List ℕ) (features : List (Option (List ℕ))) (events : List (List ℕ))
    → Chosen types features events
    → events ≡ matching types features
Chosen-unique types features events h =
    Chosen-one types features events (matching types features) h (matching-Chosen types features)

-- If the events that stand somewhere within the text of the configured types, be it within a longer type, are, in
-- their order and joined by "; ", shorter than the buffer, the check says severe exactly if there is one, and its
-- reasons are the joined events.
pub check_alerts-joined :
    (size : ℕ) (z : ℕ) (alert_zones alert_types : List ℕ) (features : List (Option (List ℕ)))
    (events : List (List ℕ))
    → Chosen alert_types features events
    → length (join [] events) < size
    → check_alerts size (z ∷ alert_zones) alert_types (some features)
      ≡ some (record {
        text = join [] events;
        rpos = length (join [] events);
        severe = is_nonempty events;
      })
unfolding check_alerts
check_alerts-joined size z alert_zones alert_types features events chosen h =
    let e = Chosen-unique alert_types features events chosen in
    let small : length (join [] (matching alert_types features)) < size = rw e at h in
    rw e (features-joined size alert_types features [] false small)

features-append :
    (size : ℕ) (types : List ℕ) (features later : List (Option (List ℕ))) (r : Option Reasons)
    → check_features size types (features ++ later) r
      ≡ check_features size types later (check_features size types features r)
unfolding check_features
features-append size types [] later none = sym (check_features-none size types later)
features-append size types [] later (some r) = refl
features-append size types (f ∷ features) later none = sym (check_features-none size types later)
features-append size types (f ∷ features) later (some r) =
    features-append size types features later (check_feature size types f r)

overrun :
    (size : ℕ) (types event : List ℕ) (later : List (Option (List ℕ))) (r : Reasons)
    → size < r.rpos
    → is_some (strstr types event) ≡ true
    → check_features size types (some event ∷ later) (some r) ≡ none
unfolding check_features
overrun size types event later r past match' =
    ap (check_features size types later)
      (check_feature-yes size types event r match' ∙ add_reason-past size event r past)
    ∙ check_features-none size types later

-- A reason that does not fit leaves the position past the end of the buffer.
add_reason-long :
    (size : ℕ) (piece text : List ℕ) (severe : Bool)
    → length text < size
    → size < length text + length piece
    → (r : Reasons) × (add_reason size piece (at_end text severe) ≡ some r) × (size < r.rpos)
unfolding add_reason and_print print
add_reason-long size piece text severe fits long =
    let room : ltb size (length text) ≡ false = ground arith in
    elim (Bool-cases (ltb 0 (length text) && ltb (length text) (size - 2))) [
      | inl e ↦
          let room' : ltb size (length text + 2) ≡ false = ground arith in
          rw (e, room, room') (_, refl, omega (arith, long))
      | inr e ↦ rw (e, room) (_, refl, long)
    ]

-- The buffer is overrun: if the events so far fit joined by "; ", the next event of the types does not,
-- even without the separator, and a further event of the types follows it, then the latter is
-- written outside the buffer.
pub check_alerts_overrun :
    (size z : ℕ) (alert_zones alert_types event next : List ℕ)
    (features later : List (Option (List ℕ)))
    → length (join [] (matching alert_types features)) < size
    → size < length (join [] (matching alert_types features)) + length event
    → is_some (strstr alert_types event) ≡ true
    → is_some (strstr alert_types next) ≡ true
    → check_alerts size
        (z ∷ alert_zones)
        alert_types
        (some (features ++ (some event ∷ (some next ∷ later))))
      ≡ none
unfolding check_alerts check_features
check_alerts_overrun size z alert_zones alert_types event next features later fits long m m' =
    let text = join [] (matching alert_types features) in
    let severe = is_nonempty (matching alert_types features) in
    let r = add_reason-long size event text severe fits long in
    features-append size alert_types features (some event ∷ (some next ∷ later)) (some no_reasons)
    ∙ ap (check_features size alert_types (some event ∷ (some next ∷ later)))
        (features-joined size alert_types features [] false fits)
    ∙ ap (check_features size alert_types (some next ∷ later))
        (check_feature-yes size alert_types event (at_end text severe) m ∙ r.1)
    ∙ overrun size alert_types next later r.0 r.2 m'
