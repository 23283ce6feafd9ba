-- ===== src/Ups/Hid/Packing.antt =====
-- Where the fields of a report lie, and the bounds of the parser's arrays (src/ups/hid_parser.c).
use airies_ups_c.Base.{
  drop, append-nil, ℕ, zero, suc, ◌+◌, ◌-◌, ◌%◌, ◌≡◌, refl, ◌∙◌, ap, sym, Bool, true, false, ◌&&◌,
  some, List, [], ◌∷◌, ◌++◌, ◌==◌, ltb, if◌then◌else◌, length, append_assoc, arith, Bool-cases, inl,
  inr,
}
use mathlib.Core.Path.{subst}
use airies_ups_c.Ups.Hid.{
  Field, FieldType, hid_input, hid_output, hid_feature, same_type, Parser, new_field, advance,
  add_field, add_fields, fields_item, main_item, step, parse, hid_parse_descriptor, initial,
  item_type, item_tag, item_size, item_val,
}

-- The bits that some fields take in a report of the given number and type.
unfoldable pub total : ℕ → FieldType → List Field → ℕ
total id ty [] = 0
total id ty (f ∷ fields) =
    (if id == f.report_id && same_type ty f.type then f.bit_size else 0) + total id ty fields

total-snoc :
    (id : ℕ) (ty : FieldType) (fields : List Field) (f : Field)
    → total id ty (fields ++ (f ∷ []))
      ≡ total id ty fields + (if id == f.report_id && same_type ty f.type then f.bit_size else 0)
unfolding total
total-snoc id ty [] f = omega arith
total-snoc id ty (g ∷ fields) f = omega (arith, total-snoc id ty fields f)

-- Each field begins where those before it in its report end, in uint16_t; `before` are the fields
-- that stand before the list.
abbrev pub Packed : List Field → List Field → Type 0
Packed before [] = Unit {0}
Packed before (f ∷ fields) =
    (f.bit_offset ≡ total f.report_id f.type before % 65536) × Packed (before ++ (f ∷ [])) fields

Packed-snoc :
    (before fields : List Field) (f : Field)
    → Packed before fields
    → f.bit_offset ≡ total f.report_id f.type (before ++ fields) % 65536
    → Packed before (fields ++ (f ∷ []))
Packed-snoc before [] f h e =
    (e ∙ ap (λ fs. total f.report_id f.type fs % 65536) (append-nil before), tt)
Packed-snoc before (g ∷ fields) f h e = (
  h.0,
  Packed-snoc (before ++ (g ∷ [])) fields f h.1 (
      e
      ∙ ap (λ fs. total f.report_id f.type fs % 65536) (sym (append_assoc before (g ∷ []) fields))),
)

pub record IsPacked (p : Parser) : Type 0 where
  pub offsets : (id : ℕ) (ty : FieldType) → p.bit_offsets id ty ≡ total id ty p.fields % 65536
  pub packed : Packed [] p.fields

same_type_comm : (a b : FieldType) → same_type a b ≡ same_type b a
same_type_comm hid_input hid_input = refl
same_type_comm hid_input hid_output = refl
same_type_comm hid_input hid_feature = refl
same_type_comm hid_output hid_input = refl
same_type_comm hid_output hid_output = refl
same_type_comm hid_output hid_feature = refl
same_type_comm hid_feature hid_input = refl
same_type_comm hid_feature hid_output = refl
same_type_comm hid_feature hid_feature = refl

advance-total :
    (p : Parser) (f : Field) (id : ℕ) (ty : FieldType)
    → p.bit_offsets id ty ≡ total id ty p.fields % 65536
    → advance p.bit_offsets f.report_id f.type f.bit_size id ty
      ≡ total id ty (p.fields ++ (f ∷ [])) % 65536
unfolding advance
advance-total p f id ty h = ground (arith, total-snoc id ty p.fields f, same_type_comm f.type ty)

add_field-IsPacked :
    (p : Parser) (ty : FieldType) (fi : ℕ) → IsPacked p → IsPacked (add_field p ty fi)
unfolding add_field new_field
add_field-IsPacked p ty fi v = record {
  offsets = λ id ty'. advance-total p (new_field p ty fi) id ty' (v.offsets id ty');
  packed = Packed-snoc [] p.fields (new_field p ty fi) v.packed (v.offsets p.globals.report_id ty);
}

add_fields-IsPacked :
    (room : ℕ) (ty : FieldType) (fi : ℕ) (p : Parser)
    → IsPacked p
    → IsPacked (add_fields room ty fi p)
unfolding add_fields
add_fields-IsPacked zero ty fi p v = v
add_fields-IsPacked (suc room) ty fi p v = elim (Bool-cases (ltb fi p.globals.report_count)) [
  | inl more ↦
      rw more
        (add_fields-IsPacked room ty (fi + 1) (add_field p ty fi) (add_field-IsPacked p ty fi v))
  | inr done ↦ rw done v
]

-- A change of the other variables keeps the fields packed.
kept :
    (p q : Parser) → q.bit_offsets ≡ p.bit_offsets → q.fields ≡ p.fields → IsPacked p → IsPacked q
kept p q e f v = record {
  offsets = λ id ty.
      ap (λ (o : ℕ → FieldType → ℕ). o id ty) e
      ∙ v.offsets id ty
      ∙ ap (λ fs. total id ty fs % 65536) (sym f);
  packed = subst (Packed []) (sym f) v.packed;
}

-- What holds on both branches holds of a conditional.
pub if_intro {ℓ κ} :
    {A : Type ℓ} (P : A → Type κ) (b : Bool) (x y : A) → P x → P y → P (if b then x else y)
if_intro P true x y h k = h
if_intro P false x y h k = k

fields_item-IsPacked : (ty : FieldType) (p : Parser) → IsPacked p → IsPacked (fields_item ty p)
unfolding fields_item
fields_item-IsPacked ty p v =
    kept (add_fields (256 - length p.fields) ty 0 p) _ refl refl
      (add_fields-IsPacked (256 - length p.fields) ty 0 p v)

main_item-IsPacked : (tag : ℕ) (p : Parser) → IsPacked p → IsPacked (main_item tag p)
unfolding main_item
main_item-IsPacked tag p v = if_intro IsPacked (tag == 0x0A) _ _ (kept p _ refl refl v) (
    if_intro IsPacked (tag == 0x0C) _ _ (kept p _ refl refl v) (
      if_intro IsPacked (tag == 0x08) _ _ (fields_item-IsPacked hid_input p v) (
        if_intro IsPacked (tag == 0x09) _ _ (fields_item-IsPacked hid_output p v)
          (if_intro IsPacked (tag == 0x0B) _ _ (fields_item-IsPacked hid_feature p v) v))))

step-IsPacked : (b val : ℕ) (p : Parser) → IsPacked p → IsPacked (step b val p)
unfolding step
step-IsPacked b val p v = if_intro IsPacked (item_type b == 1) _ _ (kept p _ refl refl v) (
    if_intro IsPacked (item_type b == 2) _ _ (kept p _ refl refl v)
      (if_intro IsPacked (item_type b == 0) _ _ (main_item-IsPacked (item_tag b) p v) v))

parse-IsPacked :
    (fuel : ℕ) (bytes : List ℕ) (p q : Parser)
    → IsPacked p
    → parse fuel bytes p ≡ some q
    → IsPacked q
unfolding parse
parse-IsPacked zero bytes p q v h = cc
parse-IsPacked (suc fuel) [] p q v h = let e : p ≡ q = ground arith in subst IsPacked e v
parse-IsPacked (suc fuel) (b ∷ rest) p q v h = elim (Bool-cases (ltb (length rest) (item_size b))) [
  | inl short ↦ let e : p ≡ q = ground arith in subst IsPacked e v
  | inr whole ↦
      let val = item_val (item_size b) rest in
      parse-IsPacked fuel (drop (item_size b) rest) (step b val p) q (step-IsPacked b val p v)
        (rw whole at h)
]

zero_total : (id : ℕ) (ty : FieldType) → ◌≡◌ {A = ℕ} 0 (total id ty [] % 65536)
unfolding total
zero_total id ty = refl

-- In a parsed descriptor each field begins, modulo 2 ^ 16, at the sum of the sizes of the fields
-- before it with the same report number and the same type, and of no others.
pub hid_parse_descriptor-Packed :
    (desc : List ℕ) (p : Parser) → hid_parse_descriptor desc ≡ some p → Packed [] p.fields
unfolding hid_parse_descriptor
hid_parse_descriptor-Packed desc p h =
    (parse-IsPacked (length desc + 1) desc initial p start h).packed
  where
    start : IsPacked initial
    start = record { offsets = λ id ty. zero_total id ty; packed = tt }
