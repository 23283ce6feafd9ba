-- ===== src/Tests/Clouding.antt =====
-- Instances for src/weather/weather.c.
use airies_ups_c.Base.{
  ℕ, ◌≡◌, inl, refl, true, false, Option, none, some, List, [], ◌∷◌, replicate, arith, ◌++◌,
}
use airies_ups_c.Base.Text.{bytes, strstr, starts_with}
use airies_ups_c.Weather.{
  not_simulated, Weather, Device, Inhibit, not_inhibited, inhibit_by, Reading, cycle,
}
use airies_ups_c.Weather.Cycles.{IsOwned, cycle-IsOwned, run, override_restored}
use airies_ups_c.Weather.Checks.{check_alerts}
use airies_ups_c.Weather.Checks.Joined.{
  matching, matching-Chosen, join, glue, check_alerts-joined, check_alerts_overrun,
}

abbrev settings : Weather
settings = record {
  severe_raw_value = 2;
  normal_raw_value = 65535;
  saved_value = 0;
  has_saved = false;
  severe = false;
  reasons = [];
  sim_severe = not_simulated;
  sim_active = false;
  sim_reasons = [];
}

-- The register reads 8.
abbrev answering : Device
answering = record { found = true; writable = true; current = some 8 }

abbrev storm : Reading
storm = record { dev = answering; severe = true; reasons = bytes "Tornado Warning" }

abbrev calm : Reading
calm = record { dev = answering; severe = false; reasons = [] }

cycle-IsOwned_example :
    IsOwned
      (cycle storm settings not_inhibited).weather
      (cycle storm settings not_inhibited).inhibit
    × ((cycle storm settings not_inhibited).inhibit.active ≡ true)
    × ((cycle storm settings not_inhibited).weather.severe ≡ true)
    × ((cycle storm settings not_inhibited).weather.sim_severe ≡ not_simulated)
cycle-IsOwned_example = cycle-IsOwned storm settings not_inhibited (inl refl)

override_restored_example :
    ((run (storm ∷ (storm ∷ []) ++ (calm ∷ [])) settings not_inhibited).writes ≡ 2 ∷ 8 ∷ [])
    × ((run (storm ∷ (storm ∷ []) ++ (calm ∷ [])) settings not_inhibited).inhibit ≡ not_inhibited)
override_restored_example =
    override_restored storm calm (storm ∷ []) settings 8 refl refl refl (refl, refl) refl
      (omega arith) (refl, tt) refl (refl, refl)

abbrev by_hand : Inhibit
by_hand = inhibit_by "manual"

abbrev zone : List ℕ
zone = bytes "TXC113"

abbrev types : List ℕ
types = bytes "Tornado Warning,Ice Storm"

abbrev alerts : List (Option (List ℕ))
alerts = some (bytes "Ice Storm") ∷ none ∷ some (bytes "Gale") ∷ some (bytes "Tornado Warning") ∷ []

check_alerts-joined_example :
    check_alerts 512 zone types (some alerts)
    ≡ some (record { text = bytes "Ice Storm; Tornado Warning"; rpos = 26; severe = true })
unfolding join matching strstr starts_with glue
check_alerts-joined_example =
    check_alerts-joined 512 84 (bytes "XC113") types alerts
      (bytes "Ice Storm" ∷ bytes "Tornado Warning" ∷ []) (matching-Chosen types alerts)
      (omega arith)

-- An event of 300 letters, three times.
abbrev long_event : List ℕ
long_event = replicate 300 65

check_alerts_overrun_example :
    check_alerts 512 zone long_event
      (some ((some long_event ∷ []) ++ (some long_event ∷ (some long_event ∷ []))))
    ≡ none
unfolding join matching strstr starts_with glue
check_alerts_overrun_example =
    check_alerts_overrun 512 84 (bytes "XC113") long_event long_event long_event
      (some long_event ∷ []) [] (omega arith) (omega arith) refl refl
