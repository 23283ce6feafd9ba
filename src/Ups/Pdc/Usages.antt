-- ===== src/Ups/Pdc/Usages.antt =====
-- The searches for a status bit in src/ups/hid_pdc_core.c: each finds the first field of its kind.
use airies_ups_c.Base.{
  ℕ, ◌+◌, ◌/◌, ◌%◌, ◌^◌, ◌<◌, ◌≡◌, ◌⊎◌, inl, inr, refl, ap, Bool, true, false, ◌&&◌, List, [], ◌∷◌,
  ◌++◌, ltb, get_or, arith, Bool-cases, if◌then◌else◌,
}
use airies_ups_c.Base.Bits.{has}
use airies_ups_c.Ups.Hid.{Field, FieldType, hid_input, hid_output, hid_feature, same_type}
use airies_ups_c.Ups.Pdc.{
  status_field, read_status_bit, has_status_bit, status_report, hid_page_battery, Report, no_report,
  got,
}

-- A feature of one bit with this usage.
abbrev pub IsUsage : ℕ → ℕ → Field → Type 0
IsUsage page usage f =
    (f.type ≡ hid_feature) × (f.bit_size ≡ 1) × (f.usage_page ≡ page) × (f.usage_id ≡ usage)

abbrev pub NoneOf : (Field → Type 0) → List Field → Type 0
NoneOf P [] = Unit {0}
NoneOf P (f ∷ fields) = (P f → ⊥) × NoneOf P fields

-- The field is the first one of which `P` holds.
abbrev pub IsFirst : (Field → Type 0) → List Field → Field → Type 0
IsFirst P fields f =
    (before : List Field) × (after : List Field) × (fields ≡ before ++ f ∷ after)
    × NoneOf P before
    × P f

-- A result is what the first field of the kind gives, or else what holds without such a field.
abbrev pub Picked : {A : Type 0} → (Field → Type 0) → (Field → A) → A → List Field → A → Type 0
Picked P out without fields r =
    ((f : Field) × IsFirst P fields f × (r ≡ out f)) ⊎ (NoneOf P fields × (r ≡ without))

-- The byte of a report that holds a field's bit, behind the report's id, as a number of 16 bits.
abbrev pub byte_of : Field → ℕ
byte_of f = (f.bit_offset / 8 + 1) % 2 ^ 16

-- What the report says of a usage: the bit of the first such field within the report's length, the lowest bit of a
-- byte first; false without such a field, or without a report.
abbrev pub BitSays : List Field → Report → ℕ → ℕ → Bool → Type 0
BitSays fields no_report page usage bit = bit ≡ false
BitSays fields (got buf rc) page usage bit =
    Picked (λ f. IsUsage page usage f × (byte_of f < rc % 2 ^ 16))
      (λ f. has (get_or buf (byte_of f) 0) (2 ^ (f.bit_offset % 8))) false fields bit

abbrev pub IsDeclared : List Field → ℕ → ℕ → Bool → Type 0
IsDeclared fields page usage is_there =
    Picked (λ f. IsUsage page usage f) (λ f. true) false fields is_there

-- The report asked for: the one of the first field ACPresent (page 0x85, usage 0xD0), 0 without one.
abbrev pub IsStatusReport : List Field → ℕ → Type 0
IsStatusReport fields id = Picked (λ f. IsUsage 0x85 0xD0 f) (λ f. f.report_id) 0 fields id

same_type_eq : (t : FieldType) → same_type t hid_feature ≡ true → t ≡ hid_feature
same_type_eq hid_input h = cc
same_type_eq hid_output h = cc
same_type_eq hid_feature h = refl

same_type_refl : (t : FieldType) → t ≡ hid_feature → same_type t hid_feature ≡ true
same_type_refl t h = ap (λ x. same_type x hid_feature) h

field-IsUsage :
    (f : Field) (page usage : ℕ) → status_field f page usage ≡ true → IsUsage page usage f
field-IsUsage f page usage h =
    (same_type_eq f.type (ground arith), ground arith, ground arith, ground arith)

IsUsage-field :
    (f : Field) (page usage : ℕ) → IsUsage page usage f → status_field f page usage ≡ true
IsUsage-field f page usage (t, s, p, u) = rw (same_type_refl f.type t, s, p, u) (ground arith)

module _ {A : Type 0} (P : Field → Type 0) (out : Field → A) (without : A) where
  Picked-here : (f : Field) (fields : List Field) → P f → Picked P out without (f ∷ fields) (out f)
  Picked-here f fields p = inl (f, ([], fields, refl, tt, p), refl)

  Picked-later :
      (f : Field) (fields : List Field) (r : A)
      → (P f → ⊥)
      → Picked P out without fields r
      → Picked P out without (f ∷ fields) r
  Picked-later f fields r other (inl (g, (before, after, e, free, p), same)) =
      inl (g, (f ∷ before, after, ap (λ l. f ∷ l) e, (other, free), p), same)
  Picked-later f fields r other (inr (free, same)) = inr ((other, free), same)

  -- One round of a search.
  Picked-step :
      (b : Bool) (f : Field) (fields : List Field) (a r : A)
      → (b ≡ true → P f)
      → (b ≡ false → P f → ⊥)
      → a ≡ out f
      → Picked P out without fields r
      → Picked P out without (f ∷ fields) (if b then a else r)
  Picked-step true f fields a r is is_not here later = rw here (Picked-here f fields (is refl))
  Picked-step false f fields a r is is_not here later = Picked-later f fields r (is_not refl) later

pub read_status_bit-BitSays :
    (fields : List Field) (buf : List ℕ) (rc page usage : ℕ)
    → BitSays fields (got buf rc) page usage (read_status_bit fields page usage buf rc)
unfolding read_status_bit
read_status_bit-BitSays [] buf rc page usage = inr (tt, refl)
read_status_bit-BitSays (f ∷ fields) buf rc page usage =
    Picked-step (λ g. IsUsage page usage g × (byte_of g < rc % 2 ^ 16))
      (λ g. has (get_or buf (byte_of g) 0) (2 ^ (g.bit_offset % 8))) false
      (status_field f page usage && ltb ((1 + f.bit_offset / 8) % 65536) (rc % 65536)) f fields
      (has (get_or buf ((1 + f.bit_offset / 8) % 65536) 0) (2 ^ (f.bit_offset % 8)))
      (read_status_bit fields page usage buf rc)
      (λ h. (field-IsUsage f page usage (ground arith), ground arith))
      (λ h held.
        let is : status_field f page usage ≡ true = IsUsage-field f page usage held.0 in
        ground (arith, held.1))
      (ap (λ i. has (get_or buf i 0) (2 ^ (f.bit_offset % 8))) (omega arith))
      (read_status_bit-BitSays fields buf rc page usage)

pub has_status_bit-IsDeclared :
    (fields : List Field) (page usage : ℕ)
    → IsDeclared fields page usage (has_status_bit fields page usage)
unfolding has_status_bit
has_status_bit-IsDeclared [] page usage = inr (tt, refl)
has_status_bit-IsDeclared (f ∷ fields) page usage = elim (Bool-cases (status_field f page usage)) [
  | inl this ↦ rw this (Picked-here _ _ _ f fields (field-IsUsage f page usage this))
  | inr other ↦ rw other (
      Picked-later _ _ _ f fields _
        (λ is. let no : status_field f page usage ≡ true = IsUsage-field f page usage is in cc)
        (has_status_bit-IsDeclared fields page usage))
]

pub status_report-IsStatusReport :
    (fields : List Field) → IsStatusReport fields (status_report fields)
unfolding status_report
status_report-IsStatusReport [] = inr (tt, refl)
status_report-IsStatusReport (f ∷ fields) =
    Picked-step (λ g. IsUsage 0x85 0xD0 g) (λ g. g.report_id) 0
      (status_field f hid_page_battery 0xD0) f fields f.report_id (status_report fields)
      (field-IsUsage f 0x85 0xD0)
      (λ h is. let found : status_field f 0x85 0xD0 ≡ true = IsUsage-field f 0x85 0xD0 is in cc)
      refl (status_report-IsStatusReport fields)
