-- ===== src/Tests/Powering.antt =====
-- Instances for src/ups/hid_pdc_core.c.
use airies_ups_c.Base.{
  ℕ, ◌==◌, if◌then◌else◌, ◌*◌, ◌+◌, Bool, true, false, none, some, List, [], ◌∷◌, ◌≡◌, refl, arith,
}
use airies_ups_c.Base.Int.{pos}
use airies_ups_c.Ups.Hid.{Field, hid_feature}
use airies_ups_c.Ups.Pdc.{
  got, no_report, PresentStatus, Report, hid_pdc_read_status_standard, test_value,
}
use airies_ups_c.Ups.Pdc.Status.{read_status-bits, ReadMeans}
use airies_ups_c.Ups.Pdc.Usages.{BitSays, IsDeclared, IsStatusReport}
use airies_ups_c.Ups.Pdc.Settings.{hid_pdc_config_write_field, ups_ok}
use airies_ups_c.Ups.Pdc.Settings.Verified.{write_comes_back}

abbrev feature : ℕ → ℕ → ℕ → ℕ → ℕ → Field
feature page usage id offset size = record {
  usage_path = (page * 65536 + usage) ∷ [];
  usage_page = page;
  usage_id = usage;
  report_id = id;
  bit_offset = offset;
  bit_size = size;
  type = hid_feature;
  logical_min = pos 0;
  logical_max = pos 0;
  physical_min = pos 0;
  physical_max = pos 0;
  unit_exponent = pos 0;
  unit = 0;
}

-- ACPresent, Discharging and BatteryPresent, in report 7.
abbrev status_fields : List Field
status_fields = feature 0x85 0xD0 7 0 1 ∷ feature 0x85 0x45 7 1 1 ∷ feature 0x85 0xD1 7 2 1 ∷ []

abbrev blank : PresentStatus
blank = record {
  status = 0;
  sig_status = 0;
  general_error = 0;
  bat_system_error = 0;
  transfer_reason = 0;
  bat_test_status = 9;
  outlet_mog = 0;
}

-- On battery: the bits of report 7 are 0, 1 and 1.
abbrev ioctl : ℕ → Report
ioctl id = if id == 7 then got (7 ∷ 6 ∷ []) 2 else no_report

read_status-bits_example :
    (id : ℕ) × (bit : ℕ → ℕ → Bool) × (declared : ℕ → ℕ → Bool) × IsStatusReport status_fields id
    × ((page usage : ℕ) → BitSays status_fields (ioctl id) page usage (bit page usage))
    × ((page usage : ℕ) → IsDeclared status_fields page usage (declared page usage))
    × ReadMeans bit declared false
        (ioctl id)
        (test_value none true [])
        (hid_pdc_read_status_standard status_fields false none ioctl true [] blank)
read_status-bits_example = read_status-bits status_fields false none ioctl true [] blank

-- A bitfield of two bytes: 3 is written over 1, and the byte 0x80 stays.
write_comes_back_example :
    hid_pdc_config_write_field
      (some (feature 0x84 0x61 5 0 16))
      true
      (some (5 ∷ 1 ∷ 0x80 ∷ []))
      3
      true
      true
      (5 ∷ 3 ∷ 0x80 ∷ 0 ∷ [])
    ≡ record { sent = some (5 ∷ 3 ∷ 0x80 ∷ []); outcome = ups_ok }
write_comes_back_example =
    write_comes_back (feature 0x84 0x61 5 0 16) true 5 1 0x80 3 [] (0 ∷ []) refl refl (omega arith)
      (omega arith)
