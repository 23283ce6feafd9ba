-- ===== src/Ups/Connection/Write.antt =====
-- Validation of a write to a config register, and the write itself (src/ups/ups.c).
use airies_ups_c.Base.{
  arith, ℕ, ◌≡◌, ◌⊎◌, Bool, true, false, not, ◌&&◌, ◌||◌, Option, none, some, List, [], ◌∷◌, ◌==◌,
  if◌then◌else◌,
}
use airies_ups_c.Base.Int.{◌≤ℤ◌, ltb_ℤ, ℤ, pos}
use airies_ups_c.Ups.Connection.{
  ups_ok, ups_err_io, ups_err_not_supported, ups_err_invalid_value, is_ok, ups_ensure_transport,
  Connection, Driver, Answers,
}

-- The part of `ups_config_reg_t` that validation reads, by register type. `options` are the values
-- of a bit field's declared options.
pub data RegMeta : Type 0 where
  scalar : ℤ → ℤ → RegMeta
  bitfield : Bool → List ℕ → RegMeta
  text_reg : RegMeta
  flags_reg : RegMeta

-- `copied`: the descriptor stands in `resolved_regs`, which a reconnection frees and makes anew.
pub record ConfigReg : Type 0 where
  pub meta : RegMeta
  pub writable : Bool
  pub copied : Bool

-- The loop over the options.
pub is_option : List ℕ → ℕ → Bool
is_option [] value = false
is_option (o ∷ options) value = if o == value then true else is_option options value

unfoldable pub validate : RegMeta → ℕ → ℤ
unfolding is_option
validate (scalar lo hi) value =
    if is_ok lo && is_ok hi
    then ups_ok
    else if ltb_ℤ (pos value) lo || ltb_ℤ hi (pos value)
    then ups_err_invalid_value
    else ups_ok
validate (bitfield strict options) value =
    if not strict then ups_ok else if is_option options value then ups_ok else ups_err_invalid_value
validate text_reg value = ups_ok
validate flags_reg value = ups_ok

-- The result, and the value handed to the driver's `config_write` if it is called, with whether the descriptor
-- handed over was freed before by a reconnection; what the driver does then is undefined.
unfoldable pub ups_config_write :
    Driver → Answers → ℕ → Connection → Bool → ConfigReg → ℕ → Connection × ℤ × Option (ℕ × Bool)
unfolding validate
ups_config_write drv ans now c has_config_write reg value =
    if not reg.writable
    then (c, ups_err_not_supported, none)
    else if not has_config_write
    then (c, ups_err_not_supported, none)
    else let vrc = validate reg.meta value in
      if not (is_ok vrc)
      then (c, vrc, none)
      else let c' = ups_ensure_transport drv ans now c in
        if not c'.transport
        then (c', ups_err_io, none)
        else (c', ans.read_rc, some (value, reg.copied && not c.transport))

abbrev pub OneOf : List ℕ → ℕ → Type 0
OneOf [] v = ⊥
OneOf (o ∷ os) v = (o ≡ v) ⊎ OneOf os v

-- The values that a descriptor allows.
abbrev pub Allows : RegMeta → ℕ → Type 0
Allows (scalar lo hi) v = ((lo ≡ pos 0) × (hi ≡ pos 0)) ⊎ ((lo ≤ℤ pos v) × (pos v ≤ℤ hi))
Allows (bitfield strict options) v = (strict ≡ false) ⊎ OneOf options v
Allows text_reg v = Unit {0}
Allows flags_reg v = Unit {0}

is_option-OneOf : (options : List ℕ) (v : ℕ) → is_option options v ≡ true → OneOf options v
unfolding is_option
is_option-OneOf [] v h = cc
is_option-OneOf (o ∷ os) v h = ground (arith, is_option-OneOf os v)

validate-Allows : (m : RegMeta) (v : ℕ) → is_ok (validate m v) ≡ true → Allows m v
unfolding validate
validate-Allows (scalar lo hi) v h = ground arith
validate-Allows (bitfield strict options) v h = ground (arith, is_option-OneOf options v)
validate-Allows text_reg v h = tt
validate-Allows flags_reg v h = tt

-- A value reaches the driver with its descriptor alive only through a writable register, unchanged, only if the
-- register's descriptor allows it, and only if the descriptor is the driver's own or the port was open.
pub write_allowed :
    (drv : Driver) (ans : Answers) (now : ℕ) (c : Connection) (has_config_write : Bool)
    (reg : ConfigReg) (value : ℕ) (written : ℕ)
    → (ups_config_write drv ans now c has_config_write reg value).2 ≡ some (written, false)
    → (written ≡ value)
      × (reg.writable ≡ true)
      × Allows reg.meta value
      × ((reg.copied && not c.transport) ≡ false)
unfolding ups_config_write
write_allowed drv ans now c has_config_write reg value written h =
    (ground arith, ground arith, validate-Allows reg.meta value (ground arith), ground arith)
