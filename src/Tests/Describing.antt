-- ===== src/Tests/Describing.antt =====
-- Instances for src/ups/hid_parser.c.
use airies_ups_c.Base.{
  ℕ, ◌+◌, ◌≤◌, ◌≡◌, ◌≢◌, refl, none, some, List, [], ◌∷◌, arith, replicate, zero, suc, ◌*◌, ◌↔◌,
  inl,
}
use airies_ups_c.Base.Int.{pos, negsuc}
use airies_ups_c.Ups.Hid.{Field, hid_feature, Parser, hid_parse_descriptor}
use airies_ups_c.Ups.Hid.Packing.{Packed, hid_parse_descriptor-Packed}
use airies_ups_c.Ups.Hid.Total.{IsBounded, descriptor_bounds}
use airies_ups_c.Ups.Hid.Find.{hid_find_field}
use airies_ups_c.Ups.Hid.Find.Suffix.{FindResult, find_field-first}
use airies_ups_c.Ups.Hid.Value.{read_buf}
use airies_ups_c.Ups.Hid.Value.Aligned.{AllBytes, fast_in_bounds}

-- Usage page Power, a UPS collection with two features of 16 bits in report 7, end of the collection.
abbrev desc : List ℕ
desc =
    0x05 ∷ 0x84 ∷ 0x09 ∷ 0x04 ∷ 0xA1 ∷ 0x01 ∷ 0x85 ∷ 0x07 ∷ 0x75 ∷ 0x10 ∷ 0x95 ∷ 0x01 ∷ 0x09 ∷ 0x30
    ∷ 0xB1 ∷ 0x02 ∷ 0x09 ∷ 0x31 ∷ 0xB1 ∷ 0x02 ∷ 0xC0 ∷ []

abbrev parsed : (p : Parser) × (hid_parse_descriptor desc ≡ some p) × IsBounded p
parsed = descriptor_bounds desc

descriptor_bounds_example : (p : Parser) × (hid_parse_descriptor desc ≡ some p) × IsBounded p
descriptor_bounds_example = descriptor_bounds desc

hid_parse_descriptor-Packed_example : Packed [] parsed.0.fields
hid_parse_descriptor-Packed_example = hid_parse_descriptor-Packed desc parsed.0 parsed.1

abbrev voltage : Field
voltage = record {
  usage_path = 0x840004 ∷ 0x84001A ∷ 0x840030 ∷ [];
  usage_page = 0x84;
  usage_id = 0x30;
  report_id = 7;
  bit_offset = 8;
  bit_size = 8;
  type = hid_feature;
  logical_min = pos 0;
  logical_max = pos 255;
  physical_min = pos 0;
  physical_max = pos 0;
  unit_exponent = pos 0;
  unit = 0;
}

find_field-first_example :
    FindResult hid_feature
      (0x84001A ∷ 0x840030 ∷ [])
      (voltage ∷ [])
      (hid_find_field (voltage ∷ []) hid_feature (0x84001A ∷ 0x840030 ∷ []))
find_field-first_example = find_field-first (voltage ∷ []) hid_feature (0x84001A ∷ 0x840030 ∷ [])

-- Report 7 with the bytes 1 and 230, and zeros.
abbrev report : List ℕ
report = 7 ∷ 1 ∷ 230 ∷ replicate 61 0

zeros-AllBytes : (n : ℕ) → AllBytes (replicate n 0)
zeros-AllBytes zero = tt
zeros-AllBytes (suc n) = (omega arith, zeros-AllBytes n)

abbrev report-AllBytes : AllBytes report
report-AllBytes = (omega arith, (omega arith, (omega arith, zeros-AllBytes 61)))

fast_in_bounds_example : (read_buf voltage report ≢ none) ↔ (8 + 8 ≤ 8 * 63)
fast_in_bounds_example = fast_in_bounds voltage report (refl, inl refl) refl

abbrev signed : Field
signed = record voltage { logical_min = negsuc 127 }
