-- ===== src/Ups/Pdc/Status.antt =====
-- What `hid_pdc_read_status_standard` and `detect_topology` of src/ups/hid_pdc_core.c report.
use airies_ups_c.Base.{
  ℕ, ◌^◌, Bool, true, false, not, ap₂, ◌&&◌, ◌||◌, Option, none, some, List, [], ◌∷◌, bit_or, ◌≡◌,
  refl, ◌∙◌, ap, arith, if◌then◌else◌,
}
use airies_ups_c.Base.Bits.{has, has_pow, test_bit, test_bit-bit_or, has-zero}
use airies_ups_c.Base.Int.{ℤ}
use airies_ups_c.Ups.Flags.{
  ups_st_online, ups_st_on_battery, ups_st_fault, ups_st_input_bad, ups_st_test,
  ups_st_shut_pending, ups_st_overload, ups_sig_shutdown_imminent, ups_baterr_disconnected,
  ups_baterr_replace,
}
use airies_ups_c.Ups.Hid.{Field}
use airies_ups_c.Ups.Pdc.{
  hid_page_power, hid_page_battery, ups_st_avr_boost, ups_st_avr_trim, set_if, standard_status,
  standard_sig, standard_battery, outlet, fill_test, Report, got, PresentStatus, StatusRead, filled,
  hid_pdc_read_status_standard, fill_status, status_report, no_report, io_error, undefined, is_five,
  to_u16, read_status_bit, has_status_bit, test_value,
}
use airies_ups_c.Ups.Pdc.Usages.{
  BitSays, IsDeclared, IsStatusReport, read_status_bit-BitSays, has_status_bit-IsDeclared,
  status_report-IsStatusReport,
}

or_false : (x : Bool) → (x || false) ≡ x
or_false true = refl
or_false false = refl

swapped : (x y : Bool) → (x || y) ≡ ((y && true) || x)
swapped true true = refl
swapped true false = refl
swapped false true = refl
swapped false false = refl

has-set_if :
    (k mask word : ℕ) (test : Bool)
    → has (set_if test mask word) (2 ^ k) ≡ ((has mask (2 ^ k) && test) || has word (2 ^ k))
unfolding set_if
has-set_if k mask word true =
    has_pow k (bit_or word mask)
    ∙ test_bit-bit_or k word mask
    ∙ rw (has_pow k mask, has_pow k word) (swapped (test_bit k word) (test_bit k mask))
has-set_if k mask word false = ground arith

-- The word with the masks of the tests that hold, the first one set last.
abbrev word_of : List (Bool × ℕ) → ℕ
word_of [] = 0
word_of ((test, mask) ∷ rest) = set_if test mask (word_of rest)

abbrev has_of : ℕ → List (Bool × ℕ) → Bool
has_of k [] = false
has_of k ((test, mask) ∷ rest) = (has mask (2 ^ k) && test) || has_of k rest

has-word_of : (k : ℕ) (l : List (Bool × ℕ)) → has (word_of l) (2 ^ k) ≡ has_of k l
has-word_of k [] = has-zero (2 ^ k)
has-word_of k ((test, mask) ∷ rest) =
    has-set_if k mask (word_of rest) test
    ∙ ap (λ t. (has mask (2 ^ k) && test) || t) (has-word_of k rest)

pick : (a b : Bool) → has (if a then 2 ^ 0 else if b then 2 ^ 0 else 2 ^ 1) (2 ^ 0) ≡ (a || b)
unfolding has
pick true b = refl
pick false true = refl
pick false false = refl

outlet_bit : (w : ℕ) → has (outlet w) (2 ^ 0) ≡ (has w ups_st_online || has w ups_st_on_battery)
unfolding outlet
outlet_bit w = pick (has w ups_st_online) (has w ups_st_on_battery)

module _ (bit : ℕ → ℕ → Bool) (declared : ℕ → ℕ → Bool) (skip : Bool) where
  abbrev status_tests : List (Bool × ℕ)
  status_tests =
      (not skip && bit hid_page_power 0x6F, ups_st_avr_trim)
      ∷ (not skip && bit hid_page_power 0x6E, ups_st_avr_boost)
      ∷ (bit hid_page_battery 0xDB, ups_st_fault)
      ∷ (bit hid_page_battery 0x42, ups_st_input_bad)
      ∷ (bit hid_page_power 0x68, ups_st_shut_pending)
      ∷ (bit hid_page_power 0x65, ups_st_overload)
      ∷ (bit hid_page_battery 0x45, ups_st_on_battery)
      ∷ (bit hid_page_battery 0xD0, ups_st_online)
      ∷ []

  status-has : (k : ℕ) → has (standard_status bit declared skip) (2 ^ k) ≡ has_of k status_tests
  unfolding standard_status
  status-has k = has-word_of k status_tests

  sig-has :
      has (standard_sig bit declared) ups_sig_shutdown_imminent
      ≡ (bit hid_page_battery 0x43 || bit hid_page_power 0x69)
  unfolding standard_sig has
  sig-has =
      has-word_of 1 (
        (bit hid_page_battery 0x43, ups_sig_shutdown_imminent)
        ∷ (bit hid_page_power 0x69, ups_sig_shutdown_imminent)
        ∷ [])
      ∙ ap (λ t. bit hid_page_battery 0x43 || t) (or_false (bit hid_page_power 0x69))

  abbrev absent : Bool
  absent = declared hid_page_battery 0xD1 && not (bit hid_page_battery 0xD1)

  battery-has : has (standard_battery bit declared) ups_baterr_disconnected ≡ absent
  unfolding standard_battery has
  battery-has =
      has-word_of 0
        ((absent, ups_baterr_disconnected) ∷ (bit hid_page_battery 0x4B, ups_baterr_replace) ∷ [])
      ∙ or_false absent

  -- What the words of a snapshot say of the bits, the state of the battery test being known.
  abbrev pub BitsMean : Bool → PresentStatus → Type 0
  BitsMean testing s =
      (has s.status ups_st_online ≡ bit hid_page_battery 0xD0)
      × (has s.status ups_st_on_battery ≡ bit hid_page_battery 0x45)
      × (has s.status ups_st_avr_boost ≡ (not skip && bit hid_page_power 0x6E))
      × (has s.status ups_st_avr_trim ≡ (not skip && bit hid_page_power 0x6F))
      × (has s.status ups_st_test ≡ testing)
      × (has s.sig_status ups_sig_shutdown_imminent
          ≡ (bit hid_page_battery 0x43 || bit hid_page_power 0x69))
      × (has s.bat_system_error ups_baterr_disconnected ≡ absent)
      × (has s.outlet_mog (2 ^ 0) ≡ (bit hid_page_battery 0xD0 || bit hid_page_battery 0x45))

  abbrev pub ReadMeans : Report → Option (Option ℤ) → StatusRead → Type 0
  ReadMeans rep test io_error = rep ≡ no_report
  ReadMeans rep test undefined = test ≡ some none
  ReadMeans rep none (filled s) = BitsMean false s
  ReadMeans rep (some none) (filled s) = ⊥
  ReadMeans rep (some (some test_val)) (filled s) = BitsMean (is_five test_val) s

  abbrev final : Bool → ℕ
  final testing = set_if testing ups_st_test (standard_status bit declared skip)

  final-has :
      (k : ℕ) (testing : Bool)
      → has (final testing) (2 ^ k) ≡ has_of k ((testing, ups_st_test) ∷ status_tests)
  unfolding standard_status
  final-has k testing = has-word_of k ((testing, ups_st_test) ∷ status_tests)

  final-online : (testing : Bool) → has (final testing) ups_st_online ≡ bit hid_page_battery 0xD0
  unfolding has
  final-online testing = final-has 1 testing ∙ or_false (bit hid_page_battery 0xD0)

  final-on_battery :
      (testing : Bool) → has (final testing) ups_st_on_battery ≡ bit hid_page_battery 0x45
  unfolding has
  final-on_battery testing = final-has 2 testing ∙ or_false (bit hid_page_battery 0x45)

  final-outlet :
      (testing : Bool)
      → has (outlet (final testing)) (2 ^ 0)
        ≡ (bit hid_page_battery 0xD0 || bit hid_page_battery 0x45)
  final-outlet testing =
      outlet_bit (final testing)
      ∙ ap₂ (λ x y. x || y) (final-online testing) (final-on_battery testing)

  -- The words that the function sets, for any state of the test and any of the other fields.
  words_mean :
      (testing : Bool) (error reason result : ℕ)
      → BitsMean testing (record {
        status = final testing;
        sig_status = standard_sig bit declared;
        general_error = error;
        bat_system_error = standard_battery bit declared;
        transfer_reason = reason;
        bat_test_status = result;
        outlet_mog = outlet (final testing);
      })
  unfolding has
  words_mean testing error reason result = (
    final-online testing,
    final-on_battery testing,
    final-has 16 testing ∙ or_false (not skip && bit hid_page_power 0x6E),
    final-has 17 testing ∙ or_false (not skip && bit hid_page_power 0x6F),
    final-has 7 testing ∙ or_false testing,
    sig-has,
    battery-has,
    final-outlet testing,
  )

  fill-means :
      (rep : Report) (test : Option (Option ℤ)) (error reason result mog : ℕ)
      → ReadMeans rep test (
          fill_test test (record {
            status = standard_status bit declared skip;
            sig_status = standard_sig bit declared;
            general_error = error;
            bat_system_error = standard_battery bit declared;
            transfer_reason = reason;
            bat_test_status = result;
            outlet_mog = mog;
          }))
  unfolding fill_test set_if
  fill-means rep none error reason result mog = words_mean false error reason result
  fill-means rep (some none) error reason result mog = refl
  fill-means rep (some (some test_val)) error reason result mog =
      words_mean (is_five test_val) error reason (to_u16 test_val)

-- The bit that a report has for a usage, false without a report.
abbrev pub report_bit : List Field → Report → ℕ → ℕ → Bool
report_bit fields no_report page usage = false
report_bit fields (got buf rc) page usage = read_status_bit fields page usage buf rc

fill_status-means :
    (fields : List Field) (skip : Bool) (test : Option Field) (rep : Report) (test_ok : Bool)
    (test_report : List ℕ) (before : PresentStatus)
    → ReadMeans
        (report_bit fields rep)
        (has_status_bit fields)
        skip
        rep
        (test_value test test_ok test_report)
        (fill_status fields skip test rep test_ok test_report before)
unfolding fill_status
fill_status-means fields skip test no_report test_ok test_report before = refl
fill_status-means fields skip test (got buf rc) test_ok test_report before =
    fill-means (report_bit fields (got buf rc)) (has_status_bit fields) skip (got buf rc)
      (test_value test test_ok test_report) _ _ _ _

-- The bits that a report has are those of its fields.
report-BitSays :
    (fields : List Field) (rep : Report) (page usage : ℕ)
    → BitSays fields rep page usage (report_bit fields rep page usage)
report-BitSays fields no_report page usage = refl
report-BitSays fields (got buf rc) page usage = read_status_bit-BitSays fields buf rc page usage

-- A read of the status asks for the report of the first bit ACPresent (report 0 if there is none). It fails
-- only if that ioctl fails, and is undefined only if the read of the test field is. Else its words say what
-- the report's bits say, a bit being that of the first feature of one bit with its page and usage whose byte, behind
-- the report's id, is within the report's length, and false without one: online (page 0x85, usage 0xD0) and on
-- battery (0x85, 0x45) are theirs; the two AVR bits (0x84, 0x6E and 0x6F) are theirs unless the vendor skips
-- them; the test bit is set just when there is a test field and it reads 5; the flag of an imminent shutdown
-- is set just when one of its two bits (0x85, 0x43 and 0x84, 0x69) is; the battery counts as disconnected just
-- when the descriptor has the field BatteryPresent (0x85, 0xD1) and its bit is 0; and the outlet is on just when
-- the device is online or on battery.
pub read_status-bits :
    (fields : List Field) (skip : Bool) (test : Option Field) (ioctl : ℕ → Report) (test_ok : Bool)
    (test_report : List ℕ) (before : PresentStatus)
    → (id : ℕ) × (bit : ℕ → ℕ → Bool) × (declared : ℕ → ℕ → Bool) × IsStatusReport fields id
      × ((page usage : ℕ) → BitSays fields (ioctl id) page usage (bit page usage))
      × ((page usage : ℕ) → IsDeclared fields page usage (declared page usage))
      × ReadMeans bit declared skip
          (ioctl id)
          (test_value test test_ok test_report)
          (hid_pdc_read_status_standard fields skip test ioctl test_ok test_report before)
unfolding hid_pdc_read_status_standard
read_status-bits fields skip test ioctl test_ok test_report before = (
  status_report fields,
  report_bit fields (ioctl (status_report fields)),
  has_status_bit fields,
  status_report-IsStatusReport fields,
  report-BitSays fields (ioctl (status_report fields)),
  has_status_bit-IsDeclared fields,
  fill_status-means fields skip test (ioctl (status_report fields)) test_ok test_report before,
)
