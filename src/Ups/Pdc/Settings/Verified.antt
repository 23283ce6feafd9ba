-- ===== src/Ups/Pdc/Settings/Verified.antt =====
-- What `hid_pdc_config_write_field` of src/ups/hid_pdc_core.c sends and checks.
use airies_ups_c.Base.{
  ℕ, ◌+◌, ◌*◌, ◌/◌, ◌%◌, ◌<◌, Bool, true, false, some, List, [], ◌∷◌, ◌++◌, if◌then◌else◌, ltb, ◌≡◌,
  refl, ap, arith,
}
use airies_ups_c.Base.Int.{pos}
use airies_ups_c.Ups.Hid.{Field}
use airies_ups_c.Ups.Hid.Value.{hid_field_read_raw}
use airies_ups_c.Ups.Hid.Value.Words.{read_word}
use airies_ups_c.Ups.Pdc.Settings.{
  ups_ok, hid_pdc_config_write_field, hid_pdc_config_read_field, masked, read_back, send, reading,
  value_report, data_bytes,
}

-- The report for a field of two bytes: a bitfield keeps the other bytes of the current report.
abbrev pub new_report : Field → Bool → ℕ → ℕ → ℕ → List ℕ
new_report f true id next value = id ∷ value ∷ next ∷ []
new_report f false id next value = f.report_id ∷ value % 256 ∷ value / 256 ∷ []

read_through :
    (f : Field) (bitfield : Bool) (buf : List ℕ) (v value : ℕ)
    → hid_field_read_raw (some f) true buf ≡ some (pos v)
    → masked bitfield f.bit_size (pos v) ≡ value
    → hid_pdc_config_read_field (some f) bitfield true buf ≡ reading value
unfolding hid_pdc_config_read_field
read_through f bitfield buf v value raw kept = rw (raw, hid_pdc_config_read_field) (ap reading kept)

read_masked :
    (f : Field) (bitfield : Bool) (id next value : ℕ) (rest : List ℕ)
    → f.bit_offset ≡ 0
    → f.bit_size ≡ 16
    → value < (if bitfield then 256 else 65536)
    → next < 256
    → hid_pdc_config_read_field (some f) bitfield true (new_report f bitfield id next value ++ rest)
      ≡ reading value
unfolding masked
read_masked f true id next value rest at' size small h =
    read_through f true _ (value + 256 * next) value
      (read_word f id value next rest at' size small h) (rw size (omega arith))
read_masked f false id next value rest at' size small h =
    read_through f false _ (value % 256 + 256 * (value / 256)) value
      (read_word f f.report_id (value % 256) (value / 256) rest at' size (omega arith)
        (omega arith))
      (omega arith)

-- The report that is sent, once the sizes are known.
sends :
    (f : Field) (bitfield : Bool) (id old next value : ℕ) (rest : List ℕ)
    → f.bit_size ≡ 16
    → value < (if bitfield then 256 else 65536)
    → value_report f bitfield (some (id ∷ old ∷ next ∷ rest)) value
      ≡ some (new_report f bitfield id next value)
unfolding value_report
sends f true id old next value rest size small =
    rw size (ap (λ (v : ℕ). some (id ∷ v ∷ next ∷ [])) (omega arith))
sends f false id old next value rest size small =
    rw size (ap (λ (v : ℕ). some (f.report_id ∷ value % 256 ∷ v ∷ [])) (omega arith))

in_array : (f : Field) → f.bit_size ≡ 16 → ltb 7 (data_bytes f) ≡ false
in_array f size = rw size refl

checked :
    (f : Field) (bitfield : Bool) (report buf : List ℕ) (value : ℕ)
    → hid_pdc_config_read_field (some f) bitfield true buf ≡ reading value
    → send f bitfield (some report) value true true buf
      ≡ record { sent = some report; outcome = ups_ok }
unfolding send read_back
checked f bitfield report buf value e = rw e (ground arith)

-- A setting in two bytes at the start of its report, whose value fits (below 256 for a bitfield, else below
-- 65536): the report that is written holds the value and, for a bitfield, leaves the other byte as the device
-- had it; and if the device then answers with the bytes it was sent, the write ends with UPS_OK.
pub write_comes_back :
    (f : Field) (bitfield : Bool) (id old next value : ℕ) (rest tail : List ℕ)
    → f.bit_offset ≡ 0
    → f.bit_size ≡ 16
    → value < (if bitfield then 256 else 65536)
    → next < 256
    → hid_pdc_config_write_field
        (some f)
        bitfield
        (some (id ∷ old ∷ next ∷ rest))
        value
        true
        true
        (new_report f bitfield id next value ++ tail)
      ≡ record { sent = some (new_report f bitfield id next value); outcome = ups_ok }
unfolding hid_pdc_config_write_field
write_comes_back f bitfield id old next value rest tail at' size small h =
    rw (in_array f size, sends f bitfield id old next value rest size small)
      (checked f bitfield (new_report f bitfield id next value)
        (new_report f bitfield id next value ++ tail) value
        (read_masked f bitfield id next value tail at' size small h))
