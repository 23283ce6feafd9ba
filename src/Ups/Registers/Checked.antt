-- ===== src/Ups/Registers/Checked.antt =====
-- What holds of a table of descriptors that passes a check, for the tables of src/ups/ups_smt.c and
-- src/ups/ups_srt.c.
use airies_ups_c.Base.{
  ℕ, ◌≤◌, ◌<◌, ◌≡◌, ◌⊎◌, inl, inr, refl, Bool, true, false, not, ◌&&◌, ◌||◌, some, List, [], ◌∷◌,
  map, ltb, leb, arith, Bool-cases,
}
use airies_ups_c.Base.Text.{bytes}
use airies_ups_c.Auth.{same_text}
use airies_ups_c.Auth.Access.{same_text_self}
use airies_ups_c.Ups.Connection.{Connection, Driver, Answers}
use airies_ups_c.Ups.Connection.Write.{ups_config_write, Allows, OneOf, write_allowed}
use airies_ups_c.Ups.Registers.{
  Kind, cfg_scalar, cfg_bitfield, cfg_flags, cfg_string, Descriptor, meta_of, config_reg,
  ups_find_config_reg,
}

abbrev pub In : Descriptor → List Descriptor → Type 0
In d [] = ⊥
In d (e ∷ regs) = (d ≡ e) ⊎ In d regs

-- No register of the table has the name.
unfoldable pub is_fresh : List ℕ → List Descriptor → Bool
unfolding same_text
is_fresh name [] = true
is_fresh name (d ∷ regs) = not (same_text name (bytes d.name)) && is_fresh name regs

unfoldable pub has_distinct_names : List Descriptor → Bool
unfolding is_fresh
has_distinct_names [] = true
has_distinct_names (d ∷ regs) = is_fresh (bytes d.name) regs && has_distinct_names regs

fresh-differs :
    (name : List ℕ) (regs : List Descriptor) (d : Descriptor)
    → is_fresh name regs ≡ true
    → In d regs
    → same_text name (bytes d.name) ≡ false
unfolding is_fresh
fresh-differs name [] d h i = elim i [ ]
fresh-differs name (e ∷ regs) d h (inl same) = rw same (ground arith)
fresh-differs name (e ∷ regs) d h (inr i) = fresh-differs name regs d (ground arith) i

pub found_by_name :
    (regs : List Descriptor) (d : Descriptor)
    → has_distinct_names regs ≡ true
    → In d regs
    → ups_find_config_reg regs (bytes d.name) ≡ some d
unfolding has_distinct_names ups_find_config_reg
found_by_name [] d h i = elim i [ ]
found_by_name (e ∷ regs) d h (inl same) = rw (same, same_text_self (bytes e.name)) refl
found_by_name (e ∷ regs) d h (inr i) =
    let differs : same_text (bytes e.name) (bytes d.name) ≡ false =
      fresh-differs (bytes e.name) regs d (ground arith) i in
    rw differs (found_by_name regs d (ground arith) i)

-- The test that a descriptor must pass: if it can be written, it lies in the block of settings or that of dates
-- and names, and its type has limits; a text lies in the block of the names.
unfoldable pub is_guarded : Kind → ℕ → Bool
is_guarded (cfg_scalar lo hi) addr = ltb 0 hi
is_guarded (cfg_bitfield strict opts) addr = strict
is_guarded (cfg_flags opts) addr = false
is_guarded (cfg_string max_chars) addr = leb 596 addr && ltb addr 636

unfoldable pub is_safe : Descriptor → Bool
unfolding is_guarded
is_safe d =
    not d.writable
    || ((leb 591 d.reg_addr && ltb d.reg_addr 636) || (leb 1024 d.reg_addr && ltb d.reg_addr 1074))
      && is_guarded d.kind d.reg_addr

unfoldable pub are_safe : List Descriptor → Bool
unfolding is_safe
are_safe [] = true
are_safe (d ∷ regs) = is_safe d && are_safe regs

each_safe :
    (regs : List Descriptor) (d : Descriptor) → are_safe regs ≡ true → In d regs → is_safe d ≡ true
unfolding are_safe
each_safe [] d h i = elim i [ ]
each_safe (e ∷ regs) d h (inl same) = rw same (ground arith)
each_safe (e ∷ regs) d h (inr i) = each_safe regs d (ground arith) i

-- What a value within the limits is: in the range, one of the options, or any for a name.
abbrev pub Within : Kind → ℕ → ℕ → Type 0
Within (cfg_scalar lo hi) addr value = (lo ≤ value) × (value ≤ hi)
Within (cfg_bitfield strict opts) addr value = OneOf (map (λ o. o.value) opts) value
Within (cfg_flags opts) addr value = ⊥
Within (cfg_string max_chars) addr value = (596 ≤ addr) × (addr < 636)

abbrev pub InBlocks : ℕ → Type 0
InBlocks addr = ((591 ≤ addr) × (addr < 636)) ⊎ ((1024 ≤ addr) × (addr < 1074))

allowed-Within :
    (kind : Kind) (addr value : ℕ)
    → is_guarded kind addr ≡ true
    → Allows (meta_of kind) value
    → Within kind addr value
unfolding is_guarded
allowed-Within (cfg_scalar lo hi) addr value g (inl (a, b)) =
    let zero' : hi ≡ 0 = cc in absurd (ground arith)
allowed-Within (cfg_scalar lo hi) addr value g (inr (a, b)) = (omega arith, omega arith)
allowed-Within (cfg_bitfield strict opts) addr value g (inl off) = absurd (ground arith)
allowed-Within (cfg_bitfield strict opts) addr value g (inr one) = one
allowed-Within (cfg_flags opts) addr value g a = cc
allowed-Within (cfg_string max_chars) addr value g a = (ground arith, ground arith)

abbrev in_blocks : ℕ → Bool
in_blocks addr = (leb 591 addr && ltb addr 636) || (leb 1024 addr && ltb addr 1074)

blocks-InBlocks : (addr : ℕ) → in_blocks addr ≡ true → InBlocks addr
blocks-InBlocks addr h = elim (Bool-cases (leb 591 addr && ltb addr 636)) [
  | inl dates ↦ inl (ground arith)
  | inr other ↦ inr (ground arith)
]

both : (w b g : Bool) → (not w || (b && g)) ≡ true → w ≡ true → (b ≡ true) × (g ≡ true)
both w b g h k = (ground arith, ground arith)

safe-InBlocks :
    (d : Descriptor)
    → is_safe d ≡ true
    → d.writable ≡ true
    → InBlocks d.reg_addr × (is_guarded d.kind d.reg_addr ≡ true)
unfolding is_safe
safe-InBlocks d h w =
    let (inside, guarded) =
      both d.writable (in_blocks d.reg_addr) (is_guarded d.kind d.reg_addr) h w in
    (blocks-InBlocks d.reg_addr inside, guarded)

module _ (regs : List Descriptor) (safe : are_safe regs ≡ true) (drv : Driver) (ans : Answers)
    (now : ℕ) (c : Connection) (has_config_write copied : Bool) where
  pub written-Within :
      (d : Descriptor) (value written : ℕ)
      → In d regs
      → (ups_config_write drv ans now c has_config_write (config_reg copied d) value).2
        ≡ some (written, false)
      → (written ≡ value)
        × InBlocks d.reg_addr
        × Within d.kind d.reg_addr value
        × ((copied && not c.transport) ≡ false)
  written-Within d value written i h =
      let (same, writable, allowed, alive) =
        write_allowed drv ans now c has_config_write (config_reg copied d) value written h in
      let (blocks, guarded) = safe-InBlocks d (each_safe regs d safe i) writable in
      (same, blocks, allowed-Within d.kind d.reg_addr value guarded allowed, alive)
