-- ===== src/Ups/Hid/Find/Suffix.antt =====
-- Which field `hid_find_field` of src/ups/hid_parser.c finds.
use airies_ups_c.Base.{
  length-append, ℕ, zero, suc, ◌+◌, ◌-◌, ◌≤◌, ◌≡◌, ◌⊎◌, refl, ◌∙◌, ap, sym, Bool, true, false,
  Option, none, some, List, [], ◌∷◌, ◌++◌, ltb, length, drop, take, take-append-drop, arith,
  Bool-cases, inl, inr,
}
use airies_ups_c.Ups.Hid.{hid_input, hid_output, hid_feature, Field, FieldType, same_type}
use airies_ups_c.Ups.Hid.Find.{matches_from, field_matches, hid_find_field}

matches_from-shift :
    (u : ℕ) (usage_path : List ℕ) (k : ℕ) (path : List ℕ)
    → matches_from (u ∷ usage_path) (suc k) path ≡ matches_from usage_path k path
unfolding matches_from
matches_from-shift u usage_path k [] = refl
matches_from-shift u usage_path k (up ∷ path) =
    let e : suc k + 1 ≡ suc (k + 1) = omega arith in
    rw e (ground (arith, matches_from-shift u usage_path (k + 1) path))

-- The loop compares the path with what begins at its place, as far as the path goes.
matches_from-drop :
    (usage_path : List ℕ) (k : ℕ) (path : List ℕ)
    → k + length path ≡ length usage_path
    → matches_from usage_path k path ≡ true
    → drop k usage_path ≡ path
unfolding matches_from
matches_from-drop [] zero [] e h = refl
matches_from-drop [] zero (up ∷ path) e h = absurd (omega arith)
matches_from-drop [] (suc k) path e h = absurd (omega arith)
matches_from-drop (u ∷ usage_path) zero [] e h = absurd (omega arith)
matches_from-drop (u ∷ usage_path) zero (up ∷ path) e h =
    ground (arith, matches_from-shift u usage_path 0 path, matches_from-drop usage_path 0 path)
matches_from-drop (u ∷ usage_path) (suc k) path e h =
    matches_from-drop usage_path k path (omega arith)
      (sym (matches_from-shift u usage_path k path) ∙ h)

-- And it accepts where the path ends the list.
drop-matches_from :
    (usage_path : List ℕ) (k : ℕ) (path : List ℕ)
    → drop k usage_path ≡ path
    → matches_from usage_path k path ≡ true
unfolding matches_from
drop-matches_from usage_path k [] e = refl
drop-matches_from [] zero (up ∷ path) e = cc
drop-matches_from [] (suc k) (up ∷ path) e = cc
drop-matches_from (u ∷ usage_path) zero (up ∷ path) e =
    ground (arith, matches_from-shift u usage_path 0 path, drop-matches_from usage_path 0 path)
drop-matches_from (u ∷ usage_path) (suc k) (up ∷ path) e =
    matches_from-shift u usage_path k (up ∷ path) ∙ drop-matches_from usage_path k (up ∷ path) e

-- The path is the end of the field's usage path.
abbrev pub EndsWith : Field → List ℕ → Type 0
EndsWith f path = (front : List ℕ) × (f.usage_path ≡ front ++ path)

same_type-eq : (a b : FieldType) → same_type a b ≡ true → a ≡ b
same_type-eq hid_input hid_input h = refl
same_type-eq hid_output hid_output h = refl
same_type-eq hid_feature hid_feature h = refl
same_type-eq hid_input hid_output h = cc
same_type-eq hid_input hid_feature h = cc
same_type-eq hid_output hid_input h = cc
same_type-eq hid_output hid_feature h = cc
same_type-eq hid_feature hid_input h = cc
same_type-eq hid_feature hid_output h = cc

same_type_refl : (a : FieldType) → same_type a a ≡ true
same_type_refl hid_input = refl
same_type_refl hid_output = refl
same_type_refl hid_feature = refl

-- What a search asks of a field: its type, and a usage path that ends with the path searched for.
abbrev pub Suits : FieldType → List ℕ → Field → Type 0
Suits type path f = (f.type ≡ type) × EndsWith f path

field_matches-Suits :
    (f : Field) (type : FieldType) (path : List ℕ)
    → field_matches f type path ≡ true
    → Suits type path f
unfolding field_matches
field_matches-Suits f type path h =
    let at' = length f.usage_path - length path in
    let fits : length path ≤ length f.usage_path = ground arith in
    let ends : matches_from f.usage_path at' path ≡ true = ground arith in
    (
      same_type-eq f.type type (ground arith),
      (
        take at' f.usage_path,
        sym (take-append-drop at' f.usage_path)
            ∙ ap (λ rest. take at' f.usage_path ++ rest)
                (matches_from-drop f.usage_path at' path (omega arith) ends),
      ),
    )

clash : {b : Bool} → b ≡ true → b ≡ false → ⊥
clash p q = cc

drop-append_self : (front path : List ℕ) → drop (length front) (front ++ path) ≡ path
drop-append_self [] path = refl
drop-append_self (u ∷ front) path = drop-append_self front path

drop-front :
    (front path : List ℕ) → drop (length (front ++ path) - length path) (front ++ path) ≡ path
drop-front front path =
    let size : length (front ++ path) - length path ≡ length front =
      omega (arith, length-append front path) in
    rw size (drop-append_self front path)

Suits-field_matches :
    (f : Field) (type : FieldType) (path : List ℕ)
    → Suits type path f
    → field_matches f type path ≡ true
unfolding field_matches
Suits-field_matches f type path (e, (front, ends)) =
    let room : ltb (length f.usage_path) (length path) ≡ false =
      ground (arith, ap length ends, length-append front path) in
    let found : drop (length f.usage_path - length path) f.usage_path ≡ path =
      rw ends (drop-front front path) in
    rw (e, same_type_refl type, room) (drop-matches_from f.usage_path _ path found)

-- The first field of the list that suits, if the search gives one, and otherwise none suits.
abbrev pub FindResult : FieldType → List ℕ → List Field → Option Field → Type 0
FindResult type path [] none = Unit {0}
FindResult type path [] (some f) = ⊥
FindResult type path (g ∷ fields) none = (¬ Suits type path g) × FindResult type path fields none
FindResult type path (g ∷ fields) (some f) =
    (Suits type path g × (g ≡ f)) ⊎ ((¬ Suits type path g) × FindResult type path fields (some f))

skip-FindResult :
    (type : FieldType) (path : List ℕ) (g : Field) (fields : List Field) (found : Option Field)
    → ¬ Suits type path g
    → FindResult type path fields found
    → FindResult type path (g ∷ fields) found
skip-FindResult type path g fields none n r = (n, r)
skip-FindResult type path g fields (some f) n r = inr (n, r)

-- The search finds the first field of the type whose usage path ends with the path searched for, and
-- finds none only if there is no such field.
pub find_field-first :
    (fields : List Field) (type : FieldType) (path : List ℕ)
    → FindResult type path fields (hid_find_field fields type path)
unfolding hid_find_field
find_field-first [] type path = tt
find_field-first (g ∷ fields) type path = elim (Bool-cases (field_matches g type path)) [
  | inl e ↦ rw e (inl (field_matches-Suits g type path e, refl))
  | inr e ↦ rw e (
      skip-FindResult type path g fields (hid_find_field fields type path)
        (λ s. clash (Suits-field_matches g type path s) e) (find_field-first fields type path))
]
