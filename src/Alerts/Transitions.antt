-- ===== src/Alerts/Transitions.antt =====
-- What the alert engine of src/alerts/alerts.c notifies when the error registers and the status bits
-- change or stay.
use airies_ups_c.Base.{
  append-nil, ℕ, ◌^◌, ◌≡◌, refl, sym, ap, ap₂, ◌∙◌, bit_or, bit_xor, String, true, not, ◌&&◌,
  Option, List, [], ◌∷◌, ◌++◌, map, ◌==◌, ==_iff, Bool-cases, if◌then◌else◌, arith, inl, inr,
}
use airies_ups_c.Ups.Flags.{ups_st_fault, ups_st_overload}
use airies_ups_c.Alerts.{
  without, check_register, register_notices, bit_notices, level_notices, check_threshold_alert,
  check_bit_alert, Notice, alerts_check, alerts_init, alerts_seed_from_snapshot, AlertState,
  AlertThresholds, AlertConfig, general_on, general_off, power_on, power_off, battery_on,
  battery_off,
}
use airies_ups_c.Base.Bits.{has, has-bit_and, has-bit_xor, has-zero}
use airies_ups_c.Base.Double.{Double}
use airies_ups_c.Ups.Data.{UpsData}
use airies_ups_c.Ups.Format.{
  BitLabel, general_error_flags, power_error_flags, battery_error_flags, ups_decode_general_errors,
  ups_decode_power_errors, ups_decode_battery_errors,
}
use airies_ups_c.Ups.Format.Decode.{set_names, decode_errors_complete}
use airies_ups_c.Monitor.SlowPoll.{snapshot_of}
use mathlib.Core.Bool.{xor}

-- The names of a table's bits that are set in `now` and were clear in `prev`, in table order.
unfoldable pub rose_names : ℕ → ℕ → List BitLabel → List String
rose_names prev now [] = []
rose_names prev now ((bit, name) ∷ table) =
    let rest = rose_names prev now table in
    if has now bit && not (has prev bit) then name ∷ rest else rest

-- The mask arithmetic reads the bit right.
abbrev Masks : ℕ → ℕ → Type 0
Masks ones bit = (p q : ℕ) → has (without ones p q) bit ≡ (has p bit && not (has q bit))

abbrev AllMasks : ℕ → List BitLabel → Type 0
AllMasks ones [] = Unit {0}
AllMasks ones ((bit, name) ∷ table) = Masks ones bit × AllMasks ones table

Masks-pow : (ones k : ℕ) → has ones (2 ^ k) ≡ true → Masks ones (2 ^ k)
unfolding xor
Masks-pow ones k h p q = ground (arith, has-bit_and k p (bit_xor q ones), has-bit_xor k q ones)

set_names-without :
    (ones : ℕ) (table : List BitLabel)
    → AllMasks ones table
    → (p q : ℕ) → set_names (without ones p q) table ≡ rose_names q p table
unfolding set_names rose_names
set_names-without ones [] h p q = refl
set_names-without ones ((bit, name) ∷ table) h p q =
    rw (h.0 p q, set_names-without ones table h.1 p q) refl

set_names-zero : (table : List BitLabel) → set_names 0 table ≡ []
unfolding set_names
set_names-zero [] = refl
set_names-zero ((bit, name) ∷ table) = rw (has-zero bit) (set_names-zero table)

-- The guard before a decoder changes nothing.
guarded :
    (ones : ℕ) (table : List BitLabel) (decode : ℕ → ℕ → List String) (f : String → Notice)
    → ((raw : ℕ) → decode raw 16 ≡ set_names raw table)
    → AllMasks ones table
    → (p q : ℕ)
    → (if without ones p q == 0 then [] else map f (decode (without ones p q) 16))
      ≡ map f (rose_names q p table)
guarded ones table decode f complete h p q =
    let named = complete (without ones p q) ∙ set_names-without ones table h p q in
    elim (Bool-cases (without ones p q == 0)) [
      | inl e ↦ rw e (
          ap (map f) (
            sym (set_names-zero table)
            ∙ ap (λ w. set_names w table) (sym ((==_iff (without ones p q) 0).0 e))
            ∙ set_names-without ones table h p q))
      | inr e ↦ rw e (ap (map f) named)
    ]

rose_names-same : (w : ℕ) (table : List BitLabel) → rose_names w w table ≡ []
unfolding rose_names
rose_names-same w [] = refl
rose_names-same w ((bit, name) ∷ table) = ground (arith, rose_names-same w table)

general_masks : AllMasks 0xffff general_error_flags
unfolding has
general_masks = (
  Masks-pow 0xffff 0 refl,
  (
    Masks-pow 0xffff 1 refl,
    (
      Masks-pow 0xffff 2 refl,
      (
        Masks-pow 0xffff 3 refl,
        (
          Masks-pow 0xffff 4 refl,
          (Masks-pow 0xffff 5 refl, (Masks-pow 0xffff 7 refl, (Masks-pow 0xffff 8 refl, tt))),
        ),
      ),
    ),
  ),
)

power_masks : AllMasks 0xffffffff power_error_flags
unfolding has
power_masks = (
  Masks-pow 0xffffffff 0 refl,
  (
    Masks-pow 0xffffffff 1 refl,
    (
      Masks-pow 0xffffffff 2 refl,
      (
        Masks-pow 0xffffffff 4 refl,
        (Masks-pow 0xffffffff 10 refl, (Masks-pow 0xffffffff 13 refl, tt)),
      ),
    ),
  ),
)

battery_masks : AllMasks 0xffff battery_error_flags
unfolding has
battery_masks = (
  Masks-pow 0xffff 0 refl,
  (
    Masks-pow 0xffff 1 refl,
    (
      Masks-pow 0xffff 2 refl,
      (
        Masks-pow 0xffff 3 refl,
        (
          Masks-pow 0xffff 4 refl,
          (
            Masks-pow 0xffff 5 refl,
            (Masks-pow 0xffff 7 refl, (Masks-pow 0xffff 8 refl, (Masks-pow 0xffff 9 refl, tt))),
          ),
        ),
      ),
    ),
  ),
)

register-rose :
    (ones : ℕ) (table : List BitLabel) (decode : ℕ → ℕ → List String) (on off : String → Notice)
    → ((raw : ℕ) → decode raw 16 ≡ set_names raw table)
    → AllMasks ones table
    → (prev now : ℕ)
    → check_register ones decode on off prev now
      ≡ map on (rose_names prev now table) ++ map off (rose_names now prev table)
unfolding check_register
register-rose ones table decode on off complete h prev now =
    ap₂ (λ a b. a ++ b) (guarded ones table decode on complete h now prev)
      (guarded ones table decode off complete h prev now)

module _ (d : Double) where
  open d use {Real}

  -- Each error register is reported by one notice for every declared bit that rose since the last
  -- check and then one for every declared bit that fell, in table order, with the bit's name; the
  -- registers come in the order general, power, battery, and this part of the check notifies nothing else.
  pub register_notices-rose :
      (s : AlertState Real) (now : UpsData Real)
      → register_notices d s now ≡ (
          (map general_on (rose_names s.prev_general_error now.general_error general_error_flags)
            ++ map general_off
                (rose_names now.general_error s.prev_general_error general_error_flags))
          ++ ((map power_on (rose_names s.prev_power_error now.power_system_error power_error_flags)
                ++ map power_off
                    (rose_names now.power_system_error s.prev_power_error power_error_flags))
              ++ (map battery_on
                    (rose_names s.prev_battery_error now.bat_system_error battery_error_flags)
                  ++ map battery_off
                      (rose_names now.bat_system_error s.prev_battery_error battery_error_flags))))
  unfolding register_notices
  register_notices-rose s now =
      ap₂ (λ a b. a ++ b)
        (register-rose 0xffff general_error_flags ups_decode_general_errors general_on general_off
          (λ raw. (decode_errors_complete raw).0) general_masks s.prev_general_error
          now.general_error)
        (ap₂ (λ a b. a ++ b)
          (register-rose 0xffffffff power_error_flags ups_decode_power_errors power_on power_off
            (λ raw. (decode_errors_complete raw).1) power_masks s.prev_power_error
            now.power_system_error)
          (register-rose 0xffff battery_error_flags ups_decode_battery_errors battery_on battery_off
            (λ raw. (decode_errors_complete raw).2) battery_masks s.prev_battery_error
            now.bat_system_error))

  abbrev seeded : UpsData Real → AlertState Real
  seeded now = alerts_seed_from_snapshot d (alerts_init d) (snapshot_of now)

  registers_seeded : (now : UpsData Real) → register_notices d (seeded now) now ≡ []
  unfolding alerts_seed_from_snapshot
  registers_seeded now =
      register_notices-rose (seeded now) now
      ∙ rw
          (
            rose_names-same now.general_error general_error_flags,
            rose_names-same now.power_system_error power_error_flags,
            rose_names-same now.bat_system_error battery_error_flags,
          )
          refl

  bits_seeded : (now : UpsData Real) → bit_notices d (seeded now) now ≡ []
  unfolding alerts_seed_from_snapshot bit_notices check_threshold_alert
  bits_seeded now = ground arith

  alerted_seeded :
      (now : UpsData Real)
      → bit_or
          (check_bit_alert (seeded now).overload (has now.status ups_st_overload) ups_st_overload)
          (check_bit_alert (seeded now).fault (has now.status ups_st_fault) ups_st_fault)
        ≡ 0
  unfolding alerts_seed_from_snapshot check_bit_alert
  alerted_seeded now = elim (Bool-cases (has now.status ups_st_overload)) [
    | inl e ↦ elim (Bool-cases (has now.status ups_st_fault)) [
      | inl f ↦ rw (e, f) refl
      | inr f ↦ rw (e, f) refl
    ]
    | inr e ↦ elim (Bool-cases (has now.status ups_st_fault)) [
      | inl f ↦ rw (e, f) refl
      | inr f ↦ rw (e, f) refl
    ]
  ]

  -- After a restart the first check stays quiet on everything that the snapshot carries: with the
  -- state seeded from the snapshot of the present reading, the only notices are those of the levels
  -- (input voltage, load, charge), and no status bit is reported as alerted.
  pub seeded_quiet :
      (now : UpsData Real) (thresh : Option AlertThresholds) (cfg : AlertConfig)
      → let c =
          alerts_check d
            (alerts_seed_from_snapshot d (alerts_init d) (snapshot_of now))
            now
            thresh
            cfg in
        (c.notices
          ≡ level_notices d cfg thresh
              (alerts_seed_from_snapshot d (alerts_init d) (snapshot_of now))
              now)
        × (c.alerted ≡ 0)
  unfolding alerts_check
  seeded_quiet now thresh cfg = (
    rw (bits_seeded now, registers_seeded now)
        (append-nil (level_notices d cfg thresh (seeded now) now)),
    alerted_seeded now,
  )
