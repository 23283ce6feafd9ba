-- ===== src/Shutdown/Targets/Waits.antt =====
-- That the waits of src/shutdown/shutdown.c end, and what they have found then.
use airies_ups_c.Base.{
  ℕ, zero, suc, ◌+◌, ◌*◌, ◌≤◌, ◌<◌, ◌≡◌, refl, ◌∙◌, ap, ap₂, Bool, false, not, Option, none, some,
  List, [], ◌∷◌, map, arith, Bool-cases, inl, inr, ◌⊎◌,
}
use airies_ups_c.Base.Int.{ℤ, pos, ltb_ℤ}
use airies_ups_c.Shutdown.Targets.{
  confirm_down, Target, Slot, new_slots, poll_slot, poll_slots, kill_slot, kill_slots,
  wait_children, past,
}

confirm_from :
    (fuel : ℕ) (up : ℕ → Bool) (elapsed : ℕ → ℕ) (timeout k : ℕ)
    → ((j : ℕ) → 5 * j ≤ elapsed j)
    → 0 < fuel
    → timeout + 5 ≤ 5 * (k + fuel)
    → (n : ℕ) × (confirm_down fuel up elapsed (pos timeout) k ≡ some (not (up n)))
      × ((up n ≡ false) ⊎ (timeout ≤ elapsed n))
unfolding confirm_down
confirm_from zero up elapsed timeout k sleeps f h = elim f [ ]
confirm_from (suc fuel) up elapsed timeout k sleeps f h = elim (Bool-cases (up k)) [
  | inr down ↦ (k, rw down refl, inl down)
  | inl alive ↦ elim (Bool-cases (ltb_ℤ (pos (elapsed k)) (pos timeout))) [
    | inr late ↦ (k, rw (alive, late) refl, inr (ground arith))
    | inl early ↦
        let r =
          confirm_from fuel up elapsed timeout (k + 1) sleeps (ground (arith, sleeps k))
            (omega arith) in
        (r.0, rw (alive, early) r.1, r.2)
  ]
]

-- The wait for a target to go down ends, given that each round sleeps its five seconds: with fuel for
-- one round more than fit into the timeout it stops at some round, says "down" exactly if the
-- probe of that round found the target down, and otherwise the timeout has passed.
pub confirm_down_ends :
    (fuel : ℕ) (up : ℕ → Bool) (elapsed : ℕ → ℕ) (timeout : ℕ)
    → ((j : ℕ) → 5 * j ≤ elapsed j)
    → timeout + 5 ≤ 5 * fuel
    → (n : ℕ) × (confirm_down fuel up elapsed (pos timeout) 0 ≡ some (not (up n)))
      × ((up n ≡ false) ⊎ (timeout ≤ elapsed n))
confirm_down_ends fuel up elapsed timeout sleeps h =
    confirm_from fuel up elapsed timeout 0 sleeps (omega arith) (omega arith)

abbrev pub targets_of : List Slot → List Target
targets_of slots = map (λ (s : Slot). s.target) slots

poll_slot-target : (exit : Option Bool) (s : Slot) → (poll_slot exit s).0.target ≡ s.target
unfolding poll_slot
poll_slot-target none s = ground arith
poll_slot-target (some ok) s = ground arith

poll_slots-targets :
    (exits : ℕ → Option Bool) (i : ℕ) (slots : List Slot)
    → targets_of (poll_slots exits i slots).0 ≡ targets_of slots
unfolding poll_slots
poll_slots-targets exits i [] = refl
poll_slots-targets exits i (s ∷ slots) =
    ap₂ (λ t ts. t ∷ ts) (poll_slot-target (exits i) s) (poll_slots-targets exits (i + 1) slots)

kill_slots-targets : (slots : List Slot) → targets_of (kill_slots slots) ≡ targets_of slots
unfolding kill_slots kill_slot
kill_slots-targets [] = refl
kill_slots-targets (s ∷ slots) = ap₂ (λ t ts. t ∷ ts) (ground arith) (kill_slots-targets slots)

pub new_slots-targets : (targets : List Target) → targets_of (new_slots targets) ≡ targets
unfolding new_slots
new_slots-targets [] = refl
new_slots-targets (t ∷ targets) = ap (λ ts. t ∷ ts) (new_slots-targets targets)

-- The wait for the children ends at the ceiling, and keeps the targets in their order.
pub wait_children_ends :
    (fuel : ℕ) (exits : ℕ → ℕ → Option Bool) (elapsed : ℕ → ℕ) (ceiling k : ℕ) (slots : List Slot)
    → ((j : ℕ) → j ≤ elapsed j)
    → 0 < ceiling
    → 0 < fuel
    → ceiling < k + fuel
    → (slots' : List Slot) × (wait_children fuel exits elapsed (pos ceiling) k slots ≡ some slots')
      × (targets_of slots' ≡ targets_of slots)
unfolding wait_children
wait_children_ends zero exits elapsed ceiling k slots sleeps c f h = elim f [ ]
wait_children_ends (suc fuel) exits elapsed ceiling k slots sleeps c f h =
    let polled = poll_slots-targets (exits k) 0 slots in
    elim (Bool-cases (poll_slots (exits k) 0 slots).1) [
      | inl over ↦ ((poll_slots (exits k) 0 slots).0, rw over refl, polled)
      | inr waiting ↦ elim (Bool-cases (past (pos ceiling) (elapsed k))) [
        | inl late ↦ (
          kill_slots (poll_slots (exits k) 0 slots).0,
          rw (waiting, late) refl,
          kill_slots-targets (poll_slots (exits k) 0 slots).0 ∙ polled,
        )
        | inr early ↦
            let r =
              wait_children_ends fuel exits elapsed ceiling (k + 1) (poll_slots (exits k) 0 slots).0
                sleeps c (ground (arith, sleeps k)) (omega arith) in
            (r.0, rw (waiting, early) r.1, r.2 ∙ polled)
      ]
    ]

pub wait_children-targets :
    (fuel : ℕ) (exits : ℕ → ℕ → Option Bool) (elapsed : ℕ → ℕ) (max_timeout : ℤ) (k : ℕ)
    (slots slots' : List Slot)
    → wait_children fuel exits elapsed max_timeout k slots ≡ some slots'
    → targets_of slots' ≡ targets_of slots
unfolding wait_children
wait_children-targets zero exits elapsed max_timeout k slots slots' h = cc
wait_children-targets (suc fuel) exits elapsed max_timeout k slots slots' h =
    let polled = poll_slots-targets (exits k) 0 slots in
    let now' = (poll_slots (exits k) 0 slots).0 in
    ground (
      arith,
      kill_slots-targets now',
      wait_children-targets fuel exits elapsed max_timeout (k + 1) now' slots',
    )
