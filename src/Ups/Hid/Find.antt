-- ===== src/Ups/Hid/Find.antt =====
-- `hid_find_field` of src/ups/hid_parser.c.
pub mod Suffix
use airies_ups_c.Base.{
  ℕ, ◌+◌, ◌-◌, Bool, true, false, not, Option, none, some, List, [], ◌∷◌, ◌==◌, ltb, if◌then◌else◌,
  length, get_or,
}
use airies_ups_c.Ups.Hid.{Field, FieldType, same_type}

-- The inner loop from place `j` on: the rest of the searched path against `usage_path[offset + j]`.
pub matches_from : List ℕ → ℕ → List ℕ → Bool
matches_from usage_path at' [] = true
matches_from usage_path at' (up ∷ path) =
    if not (get_or usage_path at' 0 == up) then false else matches_from usage_path (at' + 1) path

pub field_matches : Field → FieldType → List ℕ → Bool
unfolding matches_from
field_matches f type path =
    if not (same_type f.type type)
    then false
    else if ltb (length f.usage_path) (length path)
    then false
    else matches_from f.usage_path (length f.usage_path - length path) path

pub hid_find_field : List Field → FieldType → List ℕ → Option Field
unfolding field_matches
hid_find_field [] type path = none
hid_find_field (f ∷ fields) type path =
    if field_matches f type path then some f else hid_find_field fields type path
