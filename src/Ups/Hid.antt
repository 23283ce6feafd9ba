-- ===== src/Ups/Hid.antt =====
-- The report descriptor parser of src/ups/hid_parser.c. A descriptor is a list of bytes; an array with
-- a counter is a list of at most its capacity; `bit_offsets` is a function of the report and type.
pub mod Packing
pub mod Total
pub mod Find
pub mod Value
use airies_ups_c.Base.{
  ℕ, zero, suc, ◌+◌, ◌-◌, ◌*◌, ◌/◌, ◌%◌, ◌^◌, Bool, true, false, ◌&&◌, Option, none, some, List, [],
  ◌∷◌, ◌++◌, ◌==◌, ltb, if◌then◌else◌, take, drop, length, get_or, bit_or,
}
use airies_ups_c.Base.Bits.{has}
use airies_ups_c.Base.Int.{ℤ, pos, negsuc, ◌-ℤ◌}

abbrev pub hid_max_path : ℕ
hid_max_path = 8

abbrev pub hid_max_fields : ℕ
hid_max_fields = 256

-- hid_field_type_t
pub data FieldType : Type 0 where
  hid_input : FieldType
  hid_output : FieldType
  hid_feature : FieldType

abbrev pub same_type : FieldType → FieldType → Bool
same_type hid_input hid_input = true
same_type hid_output hid_output = true
same_type hid_feature hid_feature = true
same_type _ _ = false

-- hid_field_t; `path_depth` is the length of the path.
pub record Field : Type 0 where
  pub usage_path : List ℕ
  pub usage_page : ℕ
  pub usage_id : ℕ
  pub report_id : ℕ
  pub bit_offset : ℕ  -- uint16_t
  pub bit_size : ℕ  -- uint16_t
  pub type : FieldType
  pub logical_min : ℤ
  pub logical_max : ℤ
  pub physical_min : ℤ
  pub physical_max : ℤ
  pub unit_exponent : ℤ
  pub unit : ℕ

-- The global items.
pub record Globals : Type 0 where
  pub current_page : ℕ
  pub logical_min : ℤ
  pub logical_max : ℤ
  pub physical_min : ℤ
  pub physical_max : ℤ
  pub unit_exp_raw : ℤ
  pub unit : ℕ
  pub report_size : ℕ
  pub report_count : ℕ
  pub report_id : ℕ

-- The parser's variables; `coll_stack` has its top last.
pub record Parser : Type 0 where
  pub globals : Globals
  pub coll_stack : List ℕ
  pub usage_queue : List ℕ
  pub bit_offsets : ℕ → FieldType → ℕ
  pub fields : List Field

-- `(int32_t)val` of a uint32_t.
abbrev pub to_i32 : ℕ → ℤ
to_i32 val = if ltb val (2 ^ 31) then pos val else pos val -ℤ pos (2 ^ 32)

pub signed_val : ℕ → ℕ → ℤ
signed_val val size =
    if size == 1
    then (if has val 0x80 then pos val -ℤ pos 256 else pos val)
    else if size == 2
    then (if has val 0x8000 then pos val -ℤ pos 65536 else pos val)
    else to_i32 val

-- `raw & 0x0F` of a two's complement int32_t.
abbrev pub low_nibble : ℤ → ℕ
low_nibble (pos n) = n % 16
low_nibble (negsuc n) = 15 - n % 16

pub decode_unit_exponent : ℤ → ℤ
decode_unit_exponent raw =
    if ltb 7 (low_nibble raw) then pos (low_nibble raw) -ℤ pos 16 else pos (low_nibble raw)

-- HID_UP
abbrev pub hid_up : ℕ → ℕ → ℕ
hid_up page usage = bit_or (page * 65536) usage

pub global_item : ℕ → ℕ → ℕ → Globals → Globals
unfolding signed_val
global_item tag size val g =
    if tag == 0
    then record g { current_page = val % 65536 }
    else if tag == 1
    then record g { logical_min = signed_val val size }
    else if tag == 2
    then record g { logical_max = signed_val val size }
    else if tag == 3
    then record g { physical_min = signed_val val size }
    else if tag == 4
    then record g { physical_max = signed_val val size }
    else if tag == 5
    then record g { unit_exp_raw = signed_val val size }
    else if tag == 6
    then record g { unit = val }
    else if tag == 7
    then record g { report_size = val }
    else if tag == 8
    then record g { report_id = val % 256 }
    else if tag == 9
    then record g { report_count = val }
    else g

pub local_item : ℕ → ℕ → List ℕ → List ℕ
local_item tag val queue =
    if tag == 0 && ltb (length queue) 64 then queue ++ (val % 65536 ∷ []) else queue

pub push_collection : Globals → List ℕ → List ℕ → List ℕ
push_collection g queue stack =
    if ltb (length stack) hid_max_path
    then stack ++ (hid_up g.current_page (get_or queue 0 0) ∷ [])
    else stack

pub pop_collection : List ℕ → List ℕ
pop_collection stack = take (length stack - 1) stack

-- The usage of the field number `fi`: its own, or the last of the queue, or 0.
pub field_usage : List ℕ → ℕ → ℕ
field_usage queue fi =
    if ltb fi (length queue) then get_or queue fi 0 else get_or queue (length queue - 1) 0

-- The collections, and the field's own usage if there is room.
pub field_path : List ℕ → ℕ → List ℕ
field_path stack own =
    let base = take hid_max_path stack in
    if ltb (length base) hid_max_path then base ++ (own ∷ []) else base

pub new_field : Parser → FieldType → ℕ → Field
unfolding field_usage field_path decode_unit_exponent
new_field p ty fi =
    let g = p.globals in
    let u = field_usage p.usage_queue fi in
    record {
      usage_path = field_path p.coll_stack (hid_up g.current_page u);
      usage_page = g.current_page;
      usage_id = u;
      report_id = g.report_id;
      bit_offset = p.bit_offsets g.report_id ty;
      bit_size = g.report_size % 65536;
      type = ty;
      logical_min = g.logical_min;
      logical_max = g.logical_max;
      physical_min = g.physical_min;
      physical_max = g.physical_max;
      unit_exponent = decode_unit_exponent g.unit_exp_raw;
      unit = g.unit;
    }

-- `bit_offsets[id][ty] += size`, in uint16_t.
pub advance : (ℕ → FieldType → ℕ) → ℕ → FieldType → ℕ → ℕ → FieldType → ℕ
advance offsets id ty size id' ty' =
    if id == id' && same_type ty ty' then (offsets id' ty' + size) % 65536 else offsets id' ty'

pub add_field : Parser → FieldType → ℕ → Parser
unfolding new_field advance
add_field p ty fi =
    let f = new_field p ty fi in
    record p {
      bit_offsets = advance p.bit_offsets f.report_id ty f.bit_size;
      fields = p.fields ++ (f ∷ []);
    }

-- The loop over the fields of a main item from number `fi` on; the first argument is the room left.
pub add_fields : ℕ → FieldType → ℕ → Parser → Parser
unfolding add_field
add_fields zero ty fi p = p
add_fields (suc room) ty fi p =
    let rest = add_fields room ty (fi + 1) (add_field p ty fi) in
    if ltb fi p.globals.report_count then rest else p

fields_item : FieldType → Parser → Parser
unfolding add_fields
fields_item ty p = record (add_fields (hid_max_fields - length p.fields) ty 0 p) {
  usage_queue = [];
}

pub main_item : ℕ → Parser → Parser
unfolding push_collection pop_collection fields_item
main_item tag p =
    if tag == 0x0A
    then record p {
      coll_stack = push_collection p.globals p.usage_queue p.coll_stack;
      usage_queue = [];
    }
    else if tag == 0x0C
    then record p { coll_stack = pop_collection p.coll_stack }
    else if tag == 0x08
    then fields_item hid_input p
    else if tag == 0x09
    then fields_item hid_output p
    else if tag == 0x0B
    then fields_item hid_feature p
    else p

-- The three parts of an item's first byte: `b & 0x03`, `(b >> 2) & 0x03` and `(b >> 4) & 0x0F`.
abbrev pub item_size : ℕ → ℕ
item_size b = if b % 4 == 3 then 4 else b % 4

abbrev pub item_type : ℕ → ℕ
item_type b = b / 4 % 4

abbrev pub item_tag : ℕ → ℕ
item_tag b = b / 16 % 16

-- The little-endian value of an item of the given size; `|` of bytes at their places is their sum.
pub item_val : ℕ → List ℕ → ℕ
item_val size rest =
    let byte = λ (k : ℕ). get_or rest k 0 in
    if size == 1
    then byte 0
    else if size == 2
    then byte 0 + byte 1 * 2 ^ 8
    else if size == 4
    then byte 0 + byte 1 * 2 ^ 8 + byte 2 * 2 ^ 16 + byte 3 * 2 ^ 24
    else 0

pub step : ℕ → ℕ → Parser → Parser
unfolding global_item local_item main_item
step b val p =
    if item_type b == 1
    then record p { globals = global_item (item_tag b) (item_size b) val p.globals }
    else if item_type b == 2
    then record p { usage_queue = local_item (item_tag b) val p.usage_queue }
    else if item_type b == 0
    then main_item (item_tag b) p
    else p

-- The loop over the bytes that are left; `none`: the fuel has run out.
pub parse : ℕ → List ℕ → Parser → Option Parser
unfolding step item_val
parse zero bytes p = none
parse (suc fuel) [] p = some p
parse (suc fuel) (b ∷ rest) p =
    let size = item_size b in
    let next = parse fuel (drop size rest) (step b (item_val size rest) p) in
    if ltb (length rest) size then some p else next

abbrev pub initial : Parser
initial = record {
  globals = record {
    current_page = 0;
    logical_min = pos 0;
    logical_max = pos 0;
    physical_min = pos 0;
    physical_max = pos 0;
    unit_exp_raw = pos 0;
    unit = 0;
    report_size = 0;
    report_count = 0;
    report_id = 0;
  };
  coll_stack = [];
  usage_queue = [];
  bit_offsets = λ id ty. 0;
  fields = [];
}

-- An item takes a byte at least, so a round more than there are bytes is enough (`Total`).
pub hid_parse_descriptor : List ℕ → Option Parser
unfolding parse
hid_parse_descriptor desc = parse (length desc + 1) desc initial
