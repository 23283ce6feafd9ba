-- ===== src/Ups/Connect/Search.antt =====
-- What `ups_connect` of src/ups/ups.c returns, and which transports it leaves open.
use airies_ups_c.Base.{
  ℕ, ◌+◌, ◌≡◌, refl, ap₂, ◌∙◌, inl, inr, Bool-cases, Bool, true, false, not, ◌&&◌, ◌||◌, Option,
  none, some, List, [], ◌∷◌, ◌==◌, if◌then◌else◌, arith,
}
use airies_ups_c.Base.Int.{ℤ}
use airies_ups_c.Ups.Connection.{ups_ok, ups_err_io}
use airies_ups_c.Ups.Connect.{
  connect_from, ups_connect, ups_err_no_driver, DriverEntry, Call, opened, shut,
}

-- The driver is of the type; it can be asked and gives a transport; it claims the device.
abbrev pub of_type : ℕ → DriverEntry → Bool
of_type type drv = drv.conn_type == type

abbrev pub opens : ℕ → DriverEntry → Bool
opens type drv = of_type type drv && drv.has_connect && drv.has_detect && drv.connects

abbrev pub claims : ℕ → DriverEntry → Bool
claims type drv = opens type drv && drv.detects

unfoldable pub some_driver : (DriverEntry → Bool) → List DriverEntry → Bool
some_driver p [] = false
some_driver p (drv ∷ drivers) = p drv || some_driver p drivers

-- The place of the first driver that passes, counted from `i`.
unfoldable pub first_driver : (DriverEntry → Bool) → ℕ → List DriverEntry → Option ℕ
first_driver p i [] = none
first_driver p i (drv ∷ drivers) = if p drv then some i else first_driver p (i + 1) drivers

-- The specification of the result code.
abbrev pub verdict : Bool → Bool → Bool → Bool → ℤ
verdict got claimed matched connected =
    if claimed
    then (if got then ups_ok else ups_err_io)
    else if matched && not connected
    then ups_err_io
    else ups_err_no_driver

or_true : (b : Bool) → true ≡ (b || true)
or_true true = refl
or_true false = refl

connect_from-verdict :
    (type : ℕ) (got m c : Bool) (i : ℕ) (drivers : List DriverEntry)
    → (connect_from type got m c i drivers).result
      ≡ verdict got
          (some_driver (claims type) drivers)
          (m || some_driver (of_type type) drivers)
          (c || some_driver (opens type) drivers)
unfolding connect_from some_driver
connect_from-verdict type got m c i [] = ground arith
connect_from-verdict type got m c i (drv ∷ drivers) = elim (Bool-cases (of_type type drv)) [
  | inr e ↦ rw e (connect_from-verdict type got m c (i + 1) drivers)
  | inl e ↦ elim (Bool-cases drv.has_connect) [
    | inr no_connect ↦
        rw (e, no_connect) (connect_from-verdict type got true c (i + 1) drivers ∙ widen m)
    | inl f ↦ elim (Bool-cases drv.has_detect) [
      | inr no_detect ↦
          rw (e, f, no_detect) (connect_from-verdict type got true c (i + 1) drivers ∙ widen m)
      | inl g ↦ elim (Bool-cases drv.connects) [
        | inr silent ↦
            rw (e, f, g, silent) (connect_from-verdict type got true c (i + 1) drivers ∙ widen m)
        | inl k ↦ elim (Bool-cases drv.detects) [
          | inr refuses ↦
              rw (e, f, g, k, refuses)
                (connect_from-verdict type got true true (i + 1) drivers ∙ widen_both)
          | inl claimed ↦ rw (e, f, g, k, claimed) (ground arith)
        ]
      ]
    ]
  ]
]
  where
    widen :
        (m : Bool)
        → verdict got
            (some_driver (claims type) drivers)
            true
            (c || some_driver (opens type) drivers)
          ≡ verdict got
              (some_driver (claims type) drivers)
              (m || true)
              (c || some_driver (opens type) drivers)
    widen true = refl
    widen false = refl

    widen_both :
        verdict got (some_driver (claims type) drivers) true true
        ≡ verdict got (some_driver (claims type) drivers) (m || true) (c || true)
    widen_both = ap₂ (verdict got (some_driver (claims type) drivers)) (or_true m) (or_true c)

connect_from-first :
    (type : ℕ) (m c : Bool) (i : ℕ) (drivers : List DriverEntry)
    → (connect_from type true m c i drivers).chosen ≡ first_driver (claims type) i drivers
unfolding connect_from first_driver
connect_from-first type m c i [] = refl
connect_from-first type m c i (drv ∷ drivers) = ground (
  arith,
  connect_from-first type m c (i + 1) drivers,
  connect_from-first type true c (i + 1) drivers,
  connect_from-first type true true (i + 1) drivers,
)

-- The result tells the failures apart: success if a driver of the type opens a transport and claims
-- the device, an I/O error if none claims it and drivers of the type are there but none opens a
-- transport, and "no driver" if none is of the type or all that opened a transport refuse it;
-- without memory for the context a claim ends in an I/O error. With memory, the driver chosen is
-- the first that claims the device.
pub ups_connect-verdict :
    (type : ℕ) (got : Bool) (drivers : List DriverEntry)
    → ((ups_connect type got drivers).result
        ≡ verdict got
            (some_driver (claims type) drivers)
            (some_driver (of_type type) drivers)
            (some_driver (opens type) drivers))
      × ((ups_connect type true drivers).chosen ≡ first_driver (claims type) 0 drivers)
unfolding ups_connect
ups_connect-verdict type got drivers = (
  connect_from-verdict type got false false 0 drivers,
  connect_from-first type false false 0 drivers,
)

-- The transports that are open after some calls, the open ones before given.
unfoldable pub left_open : List ℕ → List Call → List ℕ
left_open open' [] = open'
left_open open' (opened i ∷ calls) = left_open (i ∷ open') calls
left_open [] (shut i ∷ calls) = left_open [] calls
left_open (j ∷ open') (shut i ∷ calls) = left_open (if i == j then open' else j ∷ open') calls

abbrev pub AllDisconnect : List DriverEntry → Type 0
AllDisconnect [] = Unit {0}
AllDisconnect (drv ∷ drivers) = (drv.has_disconnect ≡ true) × AllDisconnect drivers

abbrev pub held : Option ℕ → List ℕ
held none = []
held (some i) = i ∷ []

connect_from-left_open :
    (type : ℕ) (got m c : Bool) (i : ℕ) (drivers : List DriverEntry)
    → AllDisconnect drivers
    → left_open [] (connect_from type got m c i drivers).calls
      ≡ held (connect_from type got m c i drivers).chosen
unfolding connect_from left_open
connect_from-left_open type got m c i [] h = refl
connect_from-left_open type got m c i (drv ∷ drivers) h = ground (
  arith,
  connect_from-left_open type got m c (i + 1) drivers h.1,
  connect_from-left_open type got true c (i + 1) drivers h.1,
  connect_from-left_open type got true true (i + 1) drivers h.1,
)

-- No transport leaks: if every driver can disconnect, the transport that the new context holds is the
-- only one left open, and none is left open where there is no context.
pub ups_connect-left_open :
    (type : ℕ) (got : Bool) (drivers : List DriverEntry)
    → AllDisconnect drivers
    → left_open [] (ups_connect type got drivers).calls ≡ held (ups_connect type got drivers).chosen
unfolding ups_connect
ups_connect-left_open type got drivers h = connect_from-left_open type got false false 0 drivers h
