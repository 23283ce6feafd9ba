-- ===== src/Weather/Cycles.antt =====
-- Who holds the inhibit after a poll cycle of src/weather/weather.c, and what is written to the control
-- register over a run of cycles.
use airies_ups_c.Weather.{
  override, restore, Simulation, not_simulated, inject, force_clear, Weather, Device, Inhibit,
  inhibit_by, not_inhibited, write_param, read_and_save_param, apply_severe, apply_restore, Reading,
  take_reading, Cycled, control, cycle,
}
use airies_ups_c.Base.{
  ℕ, ◌<◌, ◌≡◌, ◌⊎◌, inl, inr, refl, sym, ap, ap₂, ◌∙◌, Bool, true, false, some, List, [], ◌∷◌, ◌++◌,
  if◌then◌else◌, arith, Bool-cases,
}
use text.Mathlib.Text.{◌==◌ as str_eq}

-- The inhibit is free or the weather's, and it is up exactly if the weather is severe.
pub record IsOwned (w : Weather) (inhibit : Inhibit) : Type 0 where
  pub follows : inhibit.active ≡ w.severe
  pub own : (inhibit.active ≡ false) ⊎ (inhibit.source ≡ "weather")

override-IsOwned :
    (dev : Device) (w : Weather)
    → w.severe ≡ true
    → IsOwned (override dev w).weather (override dev w).inhibit
unfolding override apply_severe read_and_save_param
override-IsOwned dev w s = record { follows = ground arith; own = inr refl }

restore-IsOwned :
    (dev : Device) (w : Weather)
    → w.severe ≡ false
    → IsOwned (restore dev w).weather (restore dev w).inhibit
unfolding restore apply_restore
restore-IsOwned dev w s = record { follows = ground arith; own = inl refl }

-- The branches of `control`.
control-override :
    (dev : Device) (w : Weather) (inhibit : Inhibit)
    → w.severe ≡ true
    → inhibit.active ≡ false
    → control dev w inhibit ≡ override dev w
unfolding control
control-override dev w inhibit s a = rw (s, a) refl

control-restore :
    (dev : Device) (w : Weather) (inhibit : Inhibit)
    → w.severe ≡ false
    → inhibit.active ≡ true
    → inhibit.source ≡ "weather"
    → control dev w inhibit ≡ restore dev w
unfolding control
control-restore dev w inhibit s a ours = rw (s, a, ours) refl

control-held :
    (dev : Device) (w : Weather)
    → w.severe ≡ true
    → control dev w (inhibit_by "weather")
      ≡ record { weather = w; inhibit = inhibit_by "weather"; writes = []; events = [] }
unfolding control
control-held dev w s = simp s refl

control-IsOwned :
    (dev : Device) (w : Weather) (inhibit : Inhibit)
    → (inhibit.active ≡ false) ⊎ (inhibit.source ≡ "weather")
    → IsOwned (control dev w inhibit).weather (control dev w inhibit).inhibit
unfolding control
control-IsOwned dev w inhibit free = elim (Bool-cases w.severe) [
  | inl s ↦ elim (Bool-cases inhibit.active) [
    | inl a ↦ simp (a, s) (record { follows = a ∙ sym s; own = free })
    | inr a ↦ rw (control-override dev w inhibit s a) (override-IsOwned dev w s)
  ]
  | inr s ↦ elim (Bool-cases inhibit.active) [
    | inl a ↦ rw (control-restore dev w inhibit s a (ground arith)) (restore-IsOwned dev w s)
    | inr a ↦ simp (a, s) (record { follows = a ∙ sym s; own = inl a })
  ]
]

-- Whether a cycle finds the weather severe: what a simulation that was asked for says, else the checks.
abbrev pub finds_severe : Simulation → Bool → Bool
finds_severe inject checked = true
finds_severe force_clear checked = false
finds_severe not_simulated checked = checked

control-kept :
    (dev : Device) (w : Weather) (inhibit : Inhibit)
    → ((control dev w inhibit).weather.severe ≡ w.severe)
      × ((control dev w inhibit).weather.sim_severe ≡ w.sim_severe)
unfolding control override restore apply_severe apply_restore read_and_save_param
control-kept dev w inhibit = (ground arith, ground arith)

reading-finds :
    (r : Reading) (w : Weather)
    → ((take_reading r w).severe ≡ finds_severe w.sim_severe r.severe)
      × ((take_reading r w).sim_severe ≡ not_simulated)
unfolding take_reading
reading-finds r w =
    elim w.sim_severe
      as (λ sim.
        let w' = record w { sim_severe = sim } in
        ((take_reading r w').severe ≡ finds_severe sim r.severe)
        × ((take_reading r w').sim_severe ≡ not_simulated)) [
          | not_simulated ↦ (refl, refl)
          | inject ↦ (refl, refl)
          | force_clear ↦ (refl, refl)
        ]

-- The inhibit follows the weather: if it is free or the weather's own before a cycle, it is so after
-- it, and up exactly if the cycle finds the weather severe: if a simulation of severe weather was asked for, or
-- none was asked for and the checks say so, but not if a simulation of calm weather was. The weather's flag says
-- the same, and the next cycle has nothing to simulate unless it is asked for again.
pub cycle-IsOwned :
    (r : Reading) (w : Weather) (inhibit : Inhibit)
    → (inhibit.active ≡ false) ⊎ (inhibit.source ≡ "weather")
    → IsOwned (cycle r w inhibit).weather (cycle r w inhibit).inhibit
      × ((cycle r w inhibit).inhibit.active ≡ finds_severe w.sim_severe r.severe)
      × ((cycle r w inhibit).weather.severe ≡ finds_severe w.sim_severe r.severe)
      × ((cycle r w inhibit).weather.sim_severe ≡ not_simulated)
unfolding cycle
cycle-IsOwned r w inhibit own =
    let owned = control-IsOwned r.dev (take_reading r w) inhibit own in
    let (kept, spent) = control-kept r.dev (take_reading r w) inhibit in
    let (finds, none_left) = reading-finds r w in
    (owned, owned.follows ∙ kept ∙ finds, kept ∙ finds, spent ∙ none_left)

abbrev and_then : Cycled → Cycled → Cycled
and_then now later = record later {
  writes = now.writes ++ later.writes;
  events = now.events ++ later.events;
}

-- A run of cycles, with all the values written.
pub run : List Reading → Weather → Inhibit → Cycled
run [] w inhibit = record { weather = w; inhibit = inhibit; writes = []; events = [] }
run (r ∷ rs) w inhibit =
    let now = cycle r w inhibit in and_then now (run rs now.weather now.inhibit)

run-step :
    (r : Reading) (rs : List Reading) (w : Weather) (inhibit : Inhibit) (c : Cycled)
    → cycle r w inhibit ≡ c
    → run (r ∷ rs) w inhibit ≡ and_then c (run rs c.weather c.inhibit)
unfolding run
run-step r rs w inhibit c e = ap (λ now. and_then now (run rs now.weather now.inhibit)) e

-- Another holder's inhibit is left alone: nothing is written, and no event is fired.
pub foreign_untouched :
    (rs : List Reading) (w : Weather) (inhibit : Inhibit)
    → inhibit.active ≡ true
    → str_eq inhibit.source "weather" ≡ false
    → ((run rs w inhibit).inhibit ≡ inhibit)
      × ((run rs w inhibit).writes ≡ [])
      × ((run rs w inhibit).events ≡ [])
unfolding run cycle control
foreign_untouched [] w inhibit a other = (refl, refl, refl)
foreign_untouched (r ∷ rs) w inhibit a other =
    let next = foreign_untouched rs (take_reading r w) inhibit a other in
    elim (Bool-cases (take_reading r w).severe) [
      | inl s ↦ simp (s, a) next
      | inr s ↦ simp (s, a, other) next
    ]

abbrev pub AllSevere : List Reading → Type 0
AllSevere [] = Unit {0}
AllSevere (r ∷ rs) = (r.severe ≡ true) × AllSevere rs

-- The override holds the value `v` to restore.
pub record IsHeld (v : ℕ) (w : Weather) : Type 0 where
  pub quiet : w.sim_severe ≡ not_simulated
  pub kept : w.has_saved ≡ true
  pub value : w.saved_value ≡ v
  pub normal : w.normal_raw_value ≡ 65535

abbrev pub TakesWrites : Device → Type 0
TakesWrites dev = (dev.found ≡ true) × (dev.writable ≡ true)

-- The state that a reading leaves where nothing is simulated.
abbrev quiet_reading : Reading → Weather → Weather
quiet_reading r w = record w {
  severe = r.severe;
  reasons = r.reasons;
  sim_severe = not_simulated;
  sim_active = if r.severe then w.sim_active else false;
}

take_reading-quiet :
    (r : Reading) (w : Weather)
    → w.sim_severe ≡ not_simulated
    → take_reading r w ≡ quiet_reading r w
unfolding take_reading
take_reading-quiet r w q = rw q refl

restore-held :
    (dev : Device) (w : Weather) (v : ℕ)
    → IsHeld v w
    → TakesWrites dev
    → (restore dev w).writes ≡ v ∷ []
unfolding restore apply_restore write_param
restore-held dev w v held ok = ground (arith, held.normal, held.kept, held.value)

cycle-quiet :
    (r : Reading) (w : Weather) (inhibit : Inhibit)
    → w.sim_severe ≡ not_simulated
    → cycle r w inhibit ≡ control r.dev (quiet_reading r w) inhibit
unfolding cycle
cycle-quiet r w inhibit q = ap (λ w'. control r.dev w' inhibit) (take_reading-quiet r w q)

IsHeld-quiet : (r : Reading) (w : Weather) (v : ℕ) → IsHeld v w → IsHeld v (quiet_reading r w)
IsHeld-quiet r w v held = record {
  quiet = refl;
  kept = held.kept;
  value = held.value;
  normal = held.normal;
}

restored-last :
    (c : Cycled) (dev : Device) (w : Weather) (v : ℕ)
    → c ≡ restore dev w
    → IsHeld v w
    → TakesWrites dev
    → (c.writes ++ [] ≡ v ∷ []) × (c.inhibit ≡ not_inhibited)
unfolding restore
restored-last c dev w v e held ok =
    (rw (e, restore-held dev w v held ok) refl, ap (λ (x : Cycled). x.inhibit) e)

held_to_end :
    (rs : List Reading) (last : Reading) (w : Weather) (v : ℕ)
    → AllSevere rs
    → IsHeld v w
    → last.severe ≡ false
    → TakesWrites last.dev
    → let r = run (rs ++ (last ∷ [])) w (inhibit_by "weather") in
      (r.writes ≡ v ∷ []) × (r.inhibit ≡ not_inhibited)
unfolding run
held_to_end [] last w v h held calm ok =
    restored-last (cycle last w (inhibit_by "weather")) last.dev (quiet_reading last w) v
      (cycle-quiet last w (inhibit_by "weather") held.quiet
        ∙ control-restore last.dev (quiet_reading last w) (inhibit_by "weather") calm refl refl)
      (IsHeld-quiet last w v held) ok
held_to_end (r ∷ rs) last w v h held calm ok =
    let e = run-step r (rs ++ (last ∷ [])) w (inhibit_by "weather") _ (
      cycle-quiet r w (inhibit_by "weather") held.quiet
      ∙ control-held r.dev (quiet_reading r w) h.0) in
    let next = held_to_end rs last (quiet_reading r w) v h.1 (IsHeld-quiet r w v held) calm ok in
    (ap (λ (x : Cycled). x.writes) e ∙ next.0, ap (λ (x : Cycled). x.inhibit) e ∙ next.1)

-- What the first severe cycle leaves.
override-IsHeld :
    (dev : Device) (w : Weather) (v : ℕ)
    → TakesWrites dev
    → dev.current ≡ some v
    → v < 65536
    → w.sim_severe ≡ not_simulated
    → w.normal_raw_value ≡ 65535
    → IsHeld v (override dev w).weather
      × ((override dev w).writes ≡ w.severe_raw_value ∷ [])
      × ((override dev w).inhibit ≡ inhibit_by "weather")
unfolding override apply_severe read_and_save_param write_param
override-IsHeld dev w v ok read small q n =
    rw (ok.0, ok.1, read)
      (record { quiet = q; kept = refl; value = omega arith; normal = n }, refl, refl)

-- The override is undone: where nothing is simulated and the register takes writes, a spell of severe
-- weather writes the severe value once, at its start, and at its end the value that was read before,
-- and the inhibit is free again; "restore the saved value" is configured.
pub override_restored :
    (first last : Reading) (rs : List Reading) (w : Weather) (v : ℕ)
    → w.sim_severe ≡ not_simulated
    → w.normal_raw_value ≡ 65535
    → first.severe ≡ true
    → TakesWrites first.dev
    → first.dev.current ≡ some v
    → v < 65536
    → AllSevere rs
    → last.severe ≡ false
    → TakesWrites last.dev
    → let r = run (first ∷ (rs ++ (last ∷ []))) w not_inhibited in
      (r.writes ≡ w.severe_raw_value ∷ (v ∷ [])) × (r.inhibit ≡ not_inhibited)
override_restored first last rs w v q n s ok read small h calm ok' =
    let c = override first.dev (quiet_reading first w) in
    let start = override-IsHeld first.dev (quiet_reading first w) v ok read small refl n in
    let end = held_to_end rs last c.weather v h start.0 calm ok' in
    let rest = λ (inhibit : Inhibit). run (rs ++ (last ∷ [])) c.weather inhibit in
    let e = run-step first (rs ++ (last ∷ [])) w not_inhibited c (
      cycle-quiet first w not_inhibited q
      ∙ control-override first.dev (quiet_reading first w) not_inhibited s refl) in
    (
      ap (λ (x : Cycled). x.writes) e
          ∙ ap₂ (λ ws inhibit. ws ++ (rest inhibit).writes) start.1 start.2
          ∙ ap (λ ws. w.severe_raw_value ∷ ws) end.0,
      ap (λ (x : Cycled). x.inhibit) e ∙ ap (λ inhibit. (rest inhibit).inhibit) start.2 ∙ end.1,
    )
