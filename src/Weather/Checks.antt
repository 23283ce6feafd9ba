-- ===== src/Weather/Checks.antt =====
-- The checks of alerts and forecast in src/weather/weather.c. What the weather service sends is given as
-- far as it is read; a text is the list of its bytes before the terminator.
pub mod Joined
use airies_ups_c.Base.{
  ℕ, ◌+◌, ◌-◌, ◌*◌, Bool, true, false, not, ◌&&◌, ◌||◌, Option, none, some, List, [], ◌∷◌, ◌++◌,
  ◌==◌, ltb, leb, if◌then◌else◌, length, take, drop,
}
use airies_ups_c.Base.Int.{ℤ, pos, ◌-ℤ◌, ltb_ℤ}
use airies_ups_c.Base.Text.{bytes, strstr, is_some}
use mathlib.Core.Option

-- `tolower` in the C locale.
abbrev pub tolower : ℕ → ℕ
tolower c = if leb 65 c && leb c 90 then c + 32 else c

pub lower : List ℕ → List ℕ
lower [] = []
lower (c ∷ text) = tolower c ∷ lower text

-- The inner loop of `ci_strstr`: the needle is used up.
pub ci_starts : List ℕ → List ℕ → Bool
ci_starts text [] = true
ci_starts [] (n ∷ needle) = false
ci_starts (c ∷ text) (n ∷ needle) = if tolower c == tolower n then ci_starts text needle else false

ci_from : List ℕ → List ℕ → Option (List ℕ)
unfolding ci_starts
ci_from [] needle = none
ci_from (c ∷ text) needle =
    let later = ci_from text needle in
    if ci_starts (c ∷ text) needle then some (c ∷ text) else later

pub ci_strstr : List ℕ → List ℕ → Option (List ℕ)
unfolding ci_from
ci_strstr text [] = some text
ci_strstr text (n ∷ needle) = ci_from text (n ∷ needle)

-- The buffer's text, the position `rpos`, and the flag.
pub record Reasons : Type 0 where
  pub text : List ℕ
  pub rpos : ℕ
  pub severe : Bool

-- `rpos += snprintf(reasons + rpos, size - rpos, ...)`. Past the end of the buffer the difference wraps
-- and the call writes outside: `none`.
pub print : ℕ → List ℕ → Reasons → Option Reasons
print size piece r =
    if ltb size r.rpos
    then none
    else some
        (record r { text = r.text ++ take (size - r.rpos - 1) piece; rpos = r.rpos + length piece })

and_print : ℕ → List ℕ → Option Reasons → Option Reasons
unfolding print
and_print size piece none = none
and_print size piece (some r) = print size piece r

-- A reason is found: the separator, if there is one before and room, and the text.
pub add_reason : ℕ → List ℕ → Reasons → Option Reasons
unfolding and_print print
add_reason size piece r =
    let r' = record r { severe = true } in
    and_print size piece
      (if ltb 0 r.rpos && ltb r.rpos (size - 2) then print size (bytes "; ") r' else some r')

-- The body of the loop of `check_alerts` for a feature; `none` is one without the string `event`.
pub check_feature : ℕ → List ℕ → Option (List ℕ) → Reasons → Option Reasons
unfolding add_reason strstr
check_feature size alert_types none r = some r
check_feature size alert_types (some event) r =
    if is_some (strstr alert_types event) then add_reason size event r else some r

pub check_features : ℕ → List ℕ → List (Option (List ℕ)) → Option Reasons → Option Reasons
unfolding check_feature
check_features size alert_types features none = none
check_features size alert_types [] (some r) = some r
check_features size alert_types (f ∷ features) (some r) =
    check_features size alert_types features (check_feature size alert_types f r)

abbrev pub no_reasons : Reasons
no_reasons = record { text = []; rpos = 0; severe = false }

-- `features`: the answer has an array of that name.
pub check_alerts : ℕ → List ℕ → List ℕ → Option (List (Option (List ℕ))) → Option Reasons
unfolding check_features
check_alerts size alert_zones alert_types none = some no_reasons
check_alerts size [] alert_types (some features) = some no_reasons
check_alerts size (z ∷ alert_zones) alert_types (some features) =
    check_features size alert_types features (some no_reasons)

-- `strtok(..., ",")`: the pieces between commas that are not empty; `piece` is the one begun.
abbrev token : List ℕ → List (List ℕ) → List (List ℕ)
token [] later = later
token (c ∷ piece) later = (c ∷ piece) ∷ later

pub tokens : List ℕ → List ℕ → List (List ℕ)
tokens piece [] = token piece []
tokens piece (c ∷ text) =
    let ended = tokens [] text in
    let longer = tokens (piece ++ (c ∷ [])) text in if c == b',' then token piece ended else longer

pub skip_spaces : List ℕ → List ℕ
skip_spaces [] = []
skip_spaces (c ∷ text) = let rest = skip_spaces text in if c == b' ' then rest else c ∷ text

-- Whether the forecast has one of the keywords.
pub has_keyword : List ℕ → List (List ℕ) → Bool
unfolding ci_strstr skip_spaces
has_keyword forecast [] = false
has_keyword forecast (tok ∷ toks) =
    if is_some (ci_strstr forecast (skip_spaces tok)) then true else has_keyword forecast toks

abbrev is_digit : ℕ → Bool
is_digit c = leb 48 c && leb c 57

abbrev is_space : ℕ → Bool
is_space c = c == 32 || (leb 9 c && leb c 13)

-- `atoi`: white space, a sign, digits.
pub digits : ℕ → List ℕ → ℕ
digits n [] = n
digits n (c ∷ text) = let rest = digits (10 * n + (c - 48)) text in if is_digit c then rest else n

pub atoi : List ℕ → ℤ
unfolding digits
atoi [] = pos 0
atoi (c ∷ text) =
    let rest = atoi text in
    if is_space c
    then rest
    else if c == b'-'
    then pos 0 -ℤ pos (digits 0 text)
    else if c == b'+'
    then pos (digits 0 text)
    else pos (digits 0 (c ∷ text))

-- A forecast period: `windSpeed` and `shortForecast`, where they are strings.
pub record Period : Type 0 where
  pub wind : Option (List ℕ)
  pub forecast : Option (List ℕ)

-- "10 to 15 mph" is 15, "10 mph" is 10.
pub speed_of : Option (List ℕ) → List ℕ → ℤ
unfolding atoi
speed_of (some to') ws = atoi (drop 4 to')
speed_of none ws = atoi ws

pub next_wind : Option (List ℕ) → ℤ → ℤ
unfolding speed_of strstr
next_wind none max_wind = max_wind
next_wind (some ws) max_wind =
    let speed = speed_of (strstr ws (bytes " to ")) ws in
    if ltb_ℤ max_wind speed then speed else max_wind

pub check_period : ℕ → List ℕ → Option (List ℕ) → Reasons → Option Reasons
unfolding add_reason has_keyword tokens
check_period size keywords none r = some r
check_period size keywords (some forecast) r =
    if has_keyword forecast (tokens [] keywords)
    then add_reason size (bytes "Forecast: " ++ forecast) r
    else some r

-- The loop over the periods, and the wind at its end.
pub check_periods : ℕ → List ℕ → List Period → ℤ → Option Reasons → Option (Reasons × ℤ)
unfolding check_period next_wind
check_periods size keywords periods max_wind none = none
check_periods size keywords [] max_wind (some r) = some (r, max_wind)
check_periods size keywords (p ∷ periods) max_wind (some r) =
    check_periods size keywords periods (next_wind p.wind max_wind)
      (check_period size keywords p.forecast r)

-- `mph` prints the wind.
pub check_wind : ℕ → (ℤ → List ℕ) → ℤ → Option (Reasons × ℤ) → Option Reasons
unfolding add_reason
check_wind size mph wind_speed none = none
check_wind size mph wind_speed (some (r, max_wind)) =
    if not (ltb_ℤ max_wind wind_speed)
    then add_reason size (bytes "Wind " ++ (mph max_wind ++ bytes "mph")) r
    else some r

-- `reasons` is the text that the alerts leave; `periods`: the endpoint is known and its answer has an
-- array of that name.
pub check_forecast : ℕ → List ℕ → ℤ → (ℤ → List ℕ) → Option (List Period) → List ℕ → Option Reasons
unfolding check_periods check_wind
check_forecast size keywords wind_speed mph none reasons =
    some (record { text = reasons; rpos = length reasons; severe = false })
check_forecast size keywords wind_speed mph (some periods) reasons =
    check_wind size mph wind_speed (
      check_periods size keywords (take 3 periods) (pos 0)
        (some (record { text = reasons; rpos = length reasons; severe = false })))

and_forecast :
    ℕ → List ℕ → ℤ → (ℤ → List ℕ) → Option (List Period) → Option Reasons → Option Reasons
unfolding check_forecast
and_forecast size keywords wind_speed mph periods none = none
and_forecast size keywords wind_speed mph periods (some alerts) =
    Option.map (λ (r : Reasons). record r { severe = alerts.severe || r.severe })
      (check_forecast size keywords wind_speed mph periods alerts.text)

-- Both checks, as a round of `weather_thread` makes them.
pub check_weather :
    List ℕ
    → List ℕ
    → List ℕ
    → ℤ
    → (ℤ → List ℕ)
    → Option (List (Option (List ℕ)))
    → Option (List Period)
    → Option Reasons
unfolding check_alerts and_forecast
check_weather alert_zones alert_types keywords wind_speed mph features periods =
    and_forecast 512 keywords wind_speed mph periods
      (check_alerts 512 alert_zones alert_types features)
