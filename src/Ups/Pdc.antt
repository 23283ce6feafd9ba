-- ===== src/Ups/Pdc.antt =====
-- The status bits and the topology of a HID power device, src/ups/hid_pdc_core.c. `fields` is the
-- device's `map.fields`. A report is the bytes that the ioctl filled in, with its result.
pub mod Usages
pub mod Status
pub mod Settings
use airies_ups_c.Base.{
  ℕ, ◌+◌, ◌-◌, ◌/◌, ◌%◌, ◌^◌, Bool, false, not, ◌&&◌, ◌||◌, Option, none, some, List, [], ◌∷◌, ◌==◌,
  ltb, if◌then◌else◌, get_or, bit_or,
}
use airies_ups_c.Base.Bits.{has}
use airies_ups_c.Base.Int.{ℤ, pos, negsuc}
use airies_ups_c.Ups.Flags.{
  ups_st_online, ups_st_on_battery, ups_st_fault, ups_st_input_bad, ups_st_test,
  ups_st_shut_pending, ups_st_overload, ups_sig_shutdown_imminent, ups_generr_internal_comm,
  ups_baterr_disconnected, ups_baterr_replace, ups_transfer_reason_unknown,
}
use airies_ups_c.Ups.Hid.{Field, hid_feature, same_type, hid_up}
use airies_ups_c.Ups.Hid.Value.{hid_field_read_raw}

-- UPS_ST_AVR_BOOST and UPS_ST_AVR_TRIM of src/ups/ups.h
abbrev pub ups_st_avr_boost : ℕ
ups_st_avr_boost = 2 ^ 16

abbrev pub ups_st_avr_trim : ℕ
ups_st_avr_trim = 2 ^ 17

abbrev pub hid_page_power : ℕ
hid_page_power = 0x84

abbrev pub hid_page_battery : ℕ
hid_page_battery = 0x85

-- ups_topology_t, the two that this file sets
pub data Topology : Type 0 where
  ups_topo_standby : Topology
  ups_topo_line_interactive : Topology

in_path : ℕ → List ℕ → Bool
in_path up [] = false
in_path up (u ∷ path) = u == up || in_path up path

pub detect_topology : List Field → Topology
unfolding in_path
detect_topology [] = ups_topo_standby
detect_topology (f ∷ fields) =
    if in_path (hid_up hid_page_power 0x16) f.usage_path
    then ups_topo_line_interactive
    else detect_topology fields

-- The test that the three loops share: a feature of one bit with this usage.
abbrev pub status_field : Field → ℕ → ℕ → Bool
status_field f page usage =
    same_type f.type hid_feature && f.bit_size == 1 && f.usage_page == page && f.usage_id == usage

-- `rc` is the length that the ioctl returned.
pub read_status_bit : List Field → ℕ → ℕ → List ℕ → ℕ → Bool
read_status_bit [] page usage report rc = false
read_status_bit (f ∷ fields) page usage report rc =
    let later = read_status_bit fields page usage report rc in
    if status_field f page usage && ltb ((1 + f.bit_offset / 8) % 65536) (rc % 65536)
    then has (get_or report ((1 + f.bit_offset / 8) % 65536) 0) (2 ^ (f.bit_offset % 8))
    else later

pub has_status_bit : List Field → ℕ → ℕ → Bool
has_status_bit [] page usage = false
has_status_bit (f ∷ fields) page usage =
    status_field f page usage || has_status_bit fields page usage

-- The report that holds the ACPresent bit, 0 if there is none.
pub status_report : List Field → ℕ
status_report [] = 0
status_report (f ∷ fields) =
    if status_field f hid_page_battery 0xD0 then f.report_id else status_report fields

-- The fields of `ups_data_t` that the function writes.
pub record PresentStatus : Type 0 where
  pub status : ℕ
  pub sig_status : ℕ
  pub general_error : ℕ
  pub bat_system_error : ℕ
  pub transfer_reason : ℕ
  pub bat_test_status : ℕ
  pub outlet_mog : ℕ

-- What a read ends with: UPS_ERR_IO, an index or a shift outside C's rules, or the fields.
pub data StatusRead : Type 0 where
  io_error : StatusRead
  undefined : StatusRead
  filled : PresentStatus → StatusRead

-- `if (test) word |= mask;`
unfoldable pub set_if : Bool → ℕ → ℕ → ℕ
set_if test mask word = if test then bit_or word mask else word

-- `(uint16_t)v` of an int32_t.
abbrev pub to_u16 : ℤ → ℕ
to_u16 (pos n) = n % 65536
to_u16 (negsuc n) = 65535 - n % 65536

abbrev pub is_five : ℤ → Bool
is_five (pos n) = n == 5
is_five (negsuc n) = false

-- The tests of the standard bits, `bit page usage` being the bit that the report has.
module _ (bit : ℕ → ℕ → Bool) (declared : ℕ → ℕ → Bool) where
  pub standard_status : Bool → ℕ
  unfolding set_if
  standard_status skip_avr_bits =
      set_if (not skip_avr_bits && bit hid_page_power 0x6F) ups_st_avr_trim (
        set_if (not skip_avr_bits && bit hid_page_power 0x6E) ups_st_avr_boost (
          set_if (bit hid_page_battery 0xDB) ups_st_fault (
            set_if (bit hid_page_battery 0x42) ups_st_input_bad (
              set_if (bit hid_page_power 0x68) ups_st_shut_pending (
                set_if (bit hid_page_power 0x65) ups_st_overload (
                  set_if (bit hid_page_battery 0x45) ups_st_on_battery
                    (set_if (bit hid_page_battery 0xD0) ups_st_online 0)))))))

  pub standard_sig : ℕ
  unfolding set_if
  standard_sig =
      set_if (bit hid_page_battery 0x43) ups_sig_shutdown_imminent
        (set_if (bit hid_page_power 0x69) ups_sig_shutdown_imminent 0)

  pub standard_battery : ℕ
  unfolding set_if
  standard_battery =
      set_if (declared hid_page_battery 0xD1 && not (bit hid_page_battery 0xD1))
        ups_baterr_disconnected (set_if (bit hid_page_battery 0x4B) ups_baterr_replace 0)

-- The outlet bit, from the status word.
pub outlet : ℕ → ℕ
outlet status =
    if has status ups_st_online
    then 2 ^ 0
    else if has status ups_st_on_battery
    then 2 ^ 0
    else 2 ^ 1

-- The state of the battery test: none without a test field, else the value that was read.
pub fill_test : Option (Option ℤ) → PresentStatus → StatusRead
unfolding outlet set_if
fill_test none s = filled (record s { outlet_mog = outlet s.status })
fill_test (some none) s = undefined
fill_test (some (some test_val)) s =
    let status = set_if (is_five test_val) ups_st_test s.status in
    filled
      (record s { status = status; bat_test_status = to_u16 test_val; outlet_mog = outlet status })

pub test_value : Option Field → Bool → List ℕ → Option (Option ℤ)
test_value none ok buf = none
test_value (some test) ok buf = some (hid_field_read_raw (some test) ok buf)

-- What an ioctl answers: nothing, or the buffer and its result. `test_ok` and `test_report`
-- are the ioctl of the test field; `before` is the snapshot that comes in.
pub data Report : Type 0 where
  no_report : Report
  got : List ℕ → ℕ → Report

pub fill_status :
    List Field
    → Bool
    → Option Field
    → (report : Report) → (test_ok : Bool) → (test_report : List ℕ) → (before : PresentStatus)
    → StatusRead
unfolding read_status_bit has_status_bit set_if standard_status standard_sig standard_battery
    fill_test
fill_status fields skip_avr_bits test no_report test_ok test_report before = io_error
fill_status fields skip_avr_bits test (got buf rc) test_ok test_report before =
    let bit = (λ (page : ℕ) (usage : ℕ). read_status_bit fields page usage buf rc) in
    fill_test (test_value test test_ok test_report) (record before {
      status = standard_status bit (has_status_bit fields) skip_avr_bits;
      sig_status = standard_sig bit (has_status_bit fields);
      general_error = set_if (bit hid_page_power 0x73) ups_generr_internal_comm 0;
      bat_system_error = standard_battery bit (has_status_bit fields);
      transfer_reason = ups_transfer_reason_unknown;
    })

-- `ioctl` is the answer to a request for a feature report.
pub hid_pdc_read_status_standard :
    List Field
    → Bool
    → Option Field
    → (ioctl : ℕ → Report) → (test_ok : Bool) → (test_report : List ℕ) → (before : PresentStatus)
    → StatusRead
unfolding status_report fill_status
hid_pdc_read_status_standard fields skip_avr_bits test ioctl test_ok test_report before =
    fill_status fields skip_avr_bits test (ioctl (status_report fields)) test_ok test_report before
