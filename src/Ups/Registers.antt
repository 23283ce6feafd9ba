-- ===== src/Ups/Registers.antt =====
-- The register descriptors of src/ups/ups_driver.h, and the search by name of src/ups/ups.c.
pub mod Checked
use airies_ups_c.Base.{ℕ, Bool, Option, none, some, List, [], ◌∷◌, map, String}
use airies_ups_c.Base.Int.{pos}
use airies_ups_c.Base.Text.{bytes}
use airies_ups_c.Auth.{same_text}
use airies_ups_c.Ups.Connection.Write.{RegMeta, scalar, bitfield, text_reg, flags_reg, ConfigReg}
use airies_ups_c.Base.{if◌then◌else◌}

-- ups_bitfield_opt_t
pub record BitOption : Type 0 where
  pub value : ℕ
  pub name : String
  pub label : String

abbrev pub opt : ℕ → String → String → BitOption
opt value name label = record { value = value; name = name; label = label }

-- The type of a register with its limits, less the scalar's step, a hint that is 0 in these tables.
pub data Kind : Type 0 where
  cfg_scalar : ℕ → ℕ → Kind
  cfg_bitfield : (strict : Bool) → List BitOption → Kind
  cfg_flags : List BitOption → Kind
  cfg_string : (max_chars : ℕ) → Kind

pub data Category : Type 0 where
  config : Category
  measurement : Category
  identity : Category
  diagnostic : Category

-- ups_config_reg_t; `sentinel` has a value if `has_sentinel` is set.
pub record Descriptor : Type 0 where
  pub name : String
  pub display_name : String
  pub unit : Option String
  pub group : String
  pub reg_addr : ℕ
  pub reg_count : ℕ
  pub kind : Kind
  pub scale : ℕ
  pub writable : Bool
  pub category : Category
  pub sentinel : Option ℕ

-- A positional initialiser, the type with its limits last.
abbrev pub reg :
    String
    → String
    → Option String
    → String
    → (addr count scale : ℕ) → Bool
    → Category
    → Option ℕ
    → Kind
    → Descriptor
reg name display_name unit group addr count scale writable category sentinel kind = record {
  name = name;
  display_name = display_name;
  unit = unit;
  group = group;
  reg_addr = addr;
  reg_count = count;
  kind = kind;
  scale = scale;
  writable = writable;
  category = category;
  sentinel = sentinel;
}

-- What the validation of a write reads.
abbrev pub meta_of : Kind → RegMeta
meta_of (cfg_scalar lo hi) = scalar (pos lo) (pos hi)
meta_of (cfg_bitfield strict opts) = bitfield strict (map (λ o. o.value) opts)
meta_of (cfg_flags opts) = flags_reg
meta_of (cfg_string max_chars) = text_reg

abbrev pub config_reg : Bool → Descriptor → ConfigReg
config_reg copied d = record { meta = meta_of d.kind; writable = d.writable; copied = copied }

-- `ups_find_config_reg` in the resolved registers.
unfoldable pub ups_find_config_reg : List Descriptor → List ℕ → Option Descriptor
unfolding same_text
ups_find_config_reg [] name = none
ups_find_config_reg (d ∷ regs) name =
    let rest = ups_find_config_reg regs name in
    if same_text (bytes d.name) name then some d else rest
