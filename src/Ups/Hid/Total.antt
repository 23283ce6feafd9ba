-- ===== src/Ups/Hid/Total.antt =====
-- The descriptor parser of src/ups/hid_parser.c ends on every input and stays inside its arrays.
use airies_ups_c.Base.{
  ℕ, zero, suc, ◌+◌, ◌-◌, ◌%◌, ◌≤◌, ◌<◌, ◌≡◌, refl, some, List, [], ◌∷◌, ◌++◌, ◌==◌, ltb, length,
  take, drop, length-append, length-take, length-drop, arith, Bool-cases, inl, inr, get_or,
}
use airies_ups_c.Ups.Hid.{
  Field, FieldType, hid_input, hid_output, hid_feature, Parser, Globals, new_field, add_field,
  add_fields, fields_item, main_item, step, parse, hid_parse_descriptor, initial, local_item,
  push_collection, pop_collection, field_path, hid_up, field_usage, item_type, item_tag, item_size,
  item_val,
}
use airies_ups_c.Ups.Hid.Packing.{if_intro}

abbrev pub ShortPaths : List Field → Type 0
ShortPaths [] = Unit {0}
ShortPaths (f ∷ fields) = (length f.usage_path ≤ 8) × ShortPaths fields

-- The counters stay within the arrays.
pub record IsBounded (p : Parser) : Type 0 where
  pub stack : length p.coll_stack ≤ 8
  pub queue : length p.usage_queue ≤ 64
  pub count : length p.fields ≤ 256
  pub paths : ShortPaths p.fields

ShortPaths-snoc :
    (fields : List Field) (f : Field)
    → ShortPaths fields
    → length f.usage_path ≤ 8
    → ShortPaths (fields ++ (f ∷ []))
ShortPaths-snoc [] f h k = (k, tt)
ShortPaths-snoc (g ∷ fields) f h k = (h.0, ShortPaths-snoc fields f h.1 k)

length-field_path : (stack : List ℕ) (own : ℕ) → length (field_path stack own) ≤ 8
unfolding field_path
length-field_path stack own =
    ground (arith, length-take 8 stack, length-append (take 8 stack) (own ∷ []))

length-push :
    (g : Globals) (queue stack : List ℕ)
    → length stack ≤ 8
    → length (push_collection g queue stack) ≤ 8
unfolding push_collection
length-push g queue stack h =
    ground (arith, length-append stack (hid_up g.current_page (get_or queue 0 0) ∷ []))

length-pop : (stack : List ℕ) → length stack ≤ 8 → length (pop_collection stack) ≤ 8
unfolding pop_collection
length-pop stack h = ground (arith, length-take (length stack - 1) stack)

length-local :
    (tag val : ℕ) (queue : List ℕ) → length queue ≤ 64 → length (local_item tag val queue) ≤ 64
unfolding local_item
length-local tag val queue h = ground (arith, length-append queue (val % 65536 ∷ []))

add_field-IsBounded :
    (p : Parser) (ty : FieldType) (fi : ℕ)
    → IsBounded p
    → length p.fields < 256
    → IsBounded (add_field p ty fi)
unfolding add_field new_field
add_field-IsBounded p ty fi v h = record {
  stack = v.stack;
  queue = v.queue;
  count = omega (arith, length-append p.fields (new_field p ty fi ∷ []));
  paths = ShortPaths-snoc p.fields (new_field p ty fi) v.paths (
      length-field_path p.coll_stack
        (hid_up p.globals.current_page (field_usage p.usage_queue fi)));
}

add_field-room :
    (p : Parser) (ty : FieldType) (fi room : ℕ)
    → length p.fields + suc room ≤ 256
    → length (add_field p ty fi).fields + room ≤ 256
unfolding add_field
add_field-room p ty fi room h = omega (arith, length-append p.fields (new_field p ty fi ∷ []))

add_fields-IsBounded :
    (room : ℕ) (ty : FieldType) (fi : ℕ) (p : Parser)
    → IsBounded p
    → length p.fields + room ≤ 256
    → IsBounded (add_fields room ty fi p)
unfolding add_fields
add_fields-IsBounded zero ty fi p v h = v
add_fields-IsBounded (suc room) ty fi p v h = elim (Bool-cases (ltb fi p.globals.report_count)) [
  | inl more ↦ rw more (
      add_fields-IsBounded room ty (fi + 1) (add_field p ty fi)
        (add_field-IsBounded p ty fi v (omega arith)) (add_field-room p ty fi room h))
  | inr done ↦ rw done v
]

fields_item-IsBounded : (ty : FieldType) (p : Parser) → IsBounded p → IsBounded (fields_item ty p)
unfolding fields_item
fields_item-IsBounded ty p v =
    let w = add_fields-IsBounded (256 - length p.fields) ty 0 p v (ground (arith, v.count)) in
    record { stack = w.stack; queue = omega arith; count = w.count; paths = w.paths }

main_item-IsBounded : (tag : ℕ) (p : Parser) → IsBounded p → IsBounded (main_item tag p)
unfolding main_item
main_item-IsBounded tag p v =
    if_intro IsBounded (tag == 0x0A) _ _
      (record {
        stack = length-push p.globals p.usage_queue p.coll_stack v.stack;
        queue = omega arith;
        count = v.count;
        paths = v.paths;
      })
      (if_intro IsBounded (tag == 0x0C) _ _
        (record {
          stack = length-pop p.coll_stack v.stack;
          queue = v.queue;
          count = v.count;
          paths = v.paths;
        })
        (if_intro IsBounded (tag == 0x08) _ _ (fields_item-IsBounded hid_input p v) (
          if_intro IsBounded (tag == 0x09) _ _ (fields_item-IsBounded hid_output p v)
            (if_intro IsBounded (tag == 0x0B) _ _ (fields_item-IsBounded hid_feature p v) v))))

step-IsBounded : (b val : ℕ) (p : Parser) → IsBounded p → IsBounded (step b val p)
unfolding step
step-IsBounded b val p v =
    if_intro IsBounded (item_type b == 1) _ _
      (record { stack = v.stack; queue = v.queue; count = v.count; paths = v.paths })
      (if_intro IsBounded (item_type b == 2) _ _
        (record {
          stack = v.stack;
          queue = length-local (item_tag b) val p.usage_queue v.queue;
          count = v.count;
          paths = v.paths;
        })
        (if_intro IsBounded (item_type b == 0) _ _ (main_item-IsBounded (item_tag b) p v) v))

parse_total :
    (fuel : ℕ) (bytes : List ℕ) (p : Parser)
    → length bytes < fuel
    → IsBounded p
    → (q : Parser) × (parse fuel bytes p ≡ some q) × IsBounded q
unfolding parse
parse_total zero bytes p h v = elim h [ ]
parse_total (suc fuel) [] p h v = (p, refl, v)
parse_total (suc fuel) (b ∷ rest) p h v = elim (Bool-cases (ltb (length rest) (item_size b))) [
  | inl short ↦ (p, rw short refl, v)
  | inr fits ↦
      let val = item_val (item_size b) rest in
      let r =
        parse_total fuel (drop (item_size b) rest) (step b val p)
          (omega (arith, length-drop (item_size b) rest)) (step-IsBounded b val p v) in
      (r.0, rw fits r.1, r.2)
]

-- The parser gives a result for every sequence of bytes, and its counters never pass the capacities:
-- eight collections, 64 usages, 256 fields, and eight elements in each field's path.
pub descriptor_bounds :
    (desc : List ℕ) → (p : Parser) × (hid_parse_descriptor desc ≡ some p) × IsBounded p
unfolding hid_parse_descriptor
descriptor_bounds desc =
    parse_total (length desc + 1) desc initial (omega arith)
      (record { stack = omega arith; queue = omega arith; count = omega arith; paths = tt })
