-- ===== src/Http/Settings/Written.antt =====
-- What setting a register over the API (src/api/routes/config.c) does to the device, and what it answers.
use airies_ups_c.Base.{
  ℕ, ◌≡◌, ◌⊎◌, inl, inr, refl, sym, ap, ◌∙◌, Bool, true, false, not, ◌&&◌, Option, none, some, List,
  [], ◌∷◌, arith, Bool-cases, if◌then◌else◌,
}
use airies_ups_c.Base.Text.{bytes}
use airies_ups_c.Auth.{same_text}
use airies_ups_c.Auth.Access.{same_text_eq}
use airies_ups_c.Ups.Connection.{is_ok, ups_ensure_transport}
use airies_ups_c.Ups.Connection.Write.{ups_config_write, validate}
use airies_ups_c.Ups.Registers.{Descriptor, config_reg, meta_of, ups_find_config_reg}
use airies_ups_c.Ups.Registers.Checked.{In, InBlocks, Within, are_safe, written-Within}
use airies_ups_c.Ups.Smt.Table.{smt_config_regs}
use airies_ups_c.Ups.Smt.Written.{smt_safe}
use airies_ups_c.Ups.Srt.Table.{srt_config_regs}
use airies_ups_c.Ups.Srt.Written.{srt_safe}
use airies_ups_c.Http.Settings.{
  Target, SetBody, no_body, invalid_json, missing_fields, set_to, SetAnswer, failed, answered,
  is_threshold, after_write, write_register, set_found, handle_config_ups_set,
}

-- The register that a name finds is in the table and has the name.
found-In :
    (regs : List Descriptor) (name : List ℕ) (d : Descriptor)
    → ups_find_config_reg regs name ≡ some d
    → In d regs × (bytes d.name ≡ name)
unfolding ups_find_config_reg
found-In [] name d h = cc
found-In (e ∷ regs) name d h = elim (Bool-cases (same_text (bytes e.name) name)) [
  | inl same ↦
      let this : e ≡ d = ground arith in
      (
        inl (sym this),
        ap (λ (x : Descriptor). bytes x.name) (sym this) ∙ same_text_eq (bytes e.name) name same,
      )
  | inr other ↦ let (i, n) = found-In regs name d (ground arith) in (inr i, n)
]

-- A value reached the driver through a register that was found and can be written.
abbrev pub Reached : Target → List ℕ → ℕ → ℕ → Type 0
Reached t name value written =
    (d : Descriptor) × In d t.regs
    × (bytes d.name ≡ name)
    × (written ≡ value)
    × InBlocks d.reg_addr
    × Within d.kind d.reg_addr value
    × ((t.resolved && not t.connection.transport) ≡ false)

-- Every register of the first table is in the second one.
abbrev pub Part : List Descriptor → List Descriptor → Type 0
Part regs table = (d : Descriptor) → In d regs → In d table

picks :
    (b : Bool) (written : ℕ × Bool) (a : SetAnswer) (w : Option (ℕ × Bool))
    → (let r : SetAnswer × Option (ℕ × Bool) = if not b then (failed 400, none) else (a, w) in r.1)
      ≡ some written
    → w ≡ some written
picks true written a w h = h
picks false written a w h = cc

found-Reached :
    (t : Target) (table : List Descriptor) (name : List ℕ) (value written : ℕ)
    (found : Option Descriptor)
    → are_safe table ≡ true
    → Part t.regs table
    → ups_find_config_reg t.regs name ≡ found
    → (set_found t found value).1 ≡ some (written, false)
    → Reached t name value written
unfolding set_found write_register
found-Reached t table name value written none safe part e h = cc
found-Reached t table name value written (some d) safe part e h =
    let (i, n) = found-In t.regs name d e in
    let wrote : (ups_config_write t.driver t.answers t.now t.connection t.has_config_write
          (config_reg t.resolved d) value).2
        ≡ some (written, false) =
      picks d.writable (written, false) _ _ h in
    let (same, blocks, within, alive) =
      written-Within table safe t.driver t.answers t.now t.connection t.has_config_write t.resolved
        d value written (part d i) wrote in
    (d, i, n, same, blocks, within, alive)

-- A value that a request to set a register hands to the driver with a descriptor that is not freed, on a UPS whose
-- registers are those of a Modbus driver or some of them, is the request's, for the writable register of that name; it goes to the block of dates
-- and names or that of settings, and is within the register's range, one of its options, or for the names' block
-- any value. The registers are then the driver's own table, or the connection was open when the write began.
pub set-Reached :
    (t : Target) (body : SetBody) (written : ℕ)
    → Part t.regs smt_config_regs ⊎ Part t.regs srt_config_regs
    → (handle_config_ups_set (some t) body).1 ≡ some (written, false)
    → (name : List ℕ) × (value : ℕ) × (body ≡ set_to name value) × Reached t name value written
unfolding handle_config_ups_set
set-Reached t no_body written part h = cc
set-Reached t invalid_json written part h = cc
set-Reached t missing_fields written part h = cc
set-Reached t (set_to name value) written (inl part) h = (
  name,
  value,
  refl,
  found-Reached t smt_config_regs name value written (ups_find_config_reg t.regs name) smt_safe part
      refl h,
)
set-Reached t (set_to name value) written (inr part) h = (
  name,
  value,
  refl,
  found-Reached t srt_config_regs name value written (ups_find_config_reg t.regs name) srt_safe part
      refl h,
)

-- With no connection, a request that sets a writable register to 0, which the register allows, is answered with 200
-- and "written", and nothing was written: the read after it fails too, and counts as 0.
pub offline_reported :
    (t : Target) (name : List ℕ) (d : Descriptor)
    → ups_find_config_reg t.regs name ≡ some d
    → d.writable ≡ true
    → t.has_config_write ≡ true
    → is_ok (validate (meta_of d.kind) 0) ≡ true
    → (ups_ensure_transport t.driver t.answers t.now t.connection).transport ≡ false
    → t.readback ≡ none
    → handle_config_ups_set (some t) (set_to name 0) ≡ (answered true d 0 (is_threshold d), none)
unfolding handle_config_ups_set set_found write_register after_write ups_config_write
offline_reported t name d found writable has_write valid offline unread =
    rw found (simp (writable, has_write, valid, offline, unread) refl)
