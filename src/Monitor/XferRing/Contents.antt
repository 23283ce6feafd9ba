-- ===== src/Monitor/XferRing/Contents.antt =====
-- What the ring of src/monitor/xfer_ring.c holds: the last 16 changes among the readings pushed.
use airies_ups_c.Base.{
  ℕ, zero, suc, ◌+◌, ◌%◌, ◌≤◌, ◌<◌, ◌≡◌, refl, ap, List, [], ◌∷◌, ◌++◌, true, false, Option, none,
  some, ltb, ◌==◌, if◌then◌else◌, length, set, take, drop, last, length-set, length-take,
  length-drop, length-append, drop-append, drop-all, take-all, last-append, last-le, last-suc,
  dec_lt, ◌∙◌, sym, Bool-cases, inl, inr, append-nil, arith, append_assoc,
}
use airies_ups_c.Monitor.XferRing.{XferEvent, XferRing, init, push}

-- The representation invariant: the indices are in range, and the ring fills from index 0.
pub record IsValid (r : XferRing) : Type 0 where
  pub storage : length r.entries ≡ 16
  pub head_in : r.head < 16
  pub count_in : r.count ≤ 16
  pub filling : r.count < 16 → r.head ≡ r.count
  pub unseen : r.last_seen_valid ≡ false → r.count ≡ 0

-- The ring is valid from the start, and every push keeps it so.
pub init-IsValid : IsValid init
unfolding init
init-IsValid = record {
  storage = refl;
  head_in = omega arith;
  count_in = omega arith;
  filling = λ _. refl;
  unseen = λ _. refl;
}

pub push-IsValid : (r : XferRing) (now reason : ℕ) → IsValid r → IsValid (push r now reason).0
unfolding push
push-IsValid r now reason v =
    ground (arith, length-set r.entries r.head (record { timestamp_ms = now; reason = reason }))

-- The events below the head are the newest; when the ring is full those from the head on are older.
unfoldable pub window : List XferEvent → ℕ → ℕ → List XferEvent
window entries head count = (if count == 16 then drop head entries else []) ++ take head entries

-- The valid events, oldest first.
abbrev pub contents : XferRing → List XferEvent
contents r = window r.entries r.head r.count

-- A reading, at a time.
abbrev pub Reading : Type 0
Reading = ℕ × ℕ

-- The readings that differ from the one before, as events. `prev` is the reading before the first.
unfoldable pub transitions : Option ℕ → List Reading → List XferEvent
transitions prev [] = []
transitions none ((now, reason) ∷ rs) =
    record { timestamp_ms = now; reason = reason } ∷ transitions (some reason) rs
transitions (some p) ((now, reason) ∷ rs) =
    let rest = transitions (some reason) rs in
    if reason == p then rest else record { timestamp_ms = now; reason = reason } ∷ rest

unfoldable pub push_all : XferRing → List Reading → XferRing
push_all r [] = r
push_all r ((now, reason) ∷ rs) = push_all (push r now reason).0 rs

abbrev seen : XferRing → Option ℕ
seen r = if r.last_seen_valid then some r.last_seen else none

-- Writing at the index just past a prefix extends the prefix and leaves the rest.
take-set {ℓ} :
    {A : Type ℓ} (xs : List A) (i : ℕ) (v : A)
    → i < length xs
    → take (suc i) (set xs i v) ≡ take i xs ++ v ∷ []
take-set [] i v h = absurd (omega arith)
take-set (x ∷ xs) zero v h = refl
take-set (x ∷ xs) (suc i) v h = ap (λ t. x ∷ t) (take-set xs i v (omega arith))

drop-set {ℓ} :
    {A : Type ℓ} (xs : List A) (i : ℕ) (v : A) → drop (suc i) (set xs i v) ≡ drop (suc i) xs
drop-set [] i v = refl
drop-set (x ∷ xs) zero v = refl
drop-set (x ∷ xs) (suc i) v = drop-set xs i v

drop-cons {ℓ} :
    {A : Type ℓ} (xs : List A) (i : ℕ) → i < length xs → drop 1 (drop i xs) ≡ drop (suc i) xs
drop-cons [] i h = absurd (omega arith)
drop-cons (x ∷ xs) zero h = refl
drop-cons (x ∷ xs) (suc i) h = drop-cons xs i (omega arith)

-- Going round at 16 does not change a full window.
window-wrap :
    (es : List XferEvent) (h c : ℕ)
    → length es ≡ 16
    → h ≤ 16
    → (h ≡ 16 → c ≡ 16)
    → window es (h % 16) c ≡ window es h c
unfolding window
window-wrap es h c storage le full = elim (dec_lt h 16) [
  | yes p ↦ ap (λ k. window es k c) {x = h % 16} {y = h} (omega arith)
  | no p ↦
      let e : h ≡ 16 = omega arith in
      rw (e, full e, drop-all 16 es (omega arith), take-all 16 es (omega arith)) (append-nil es)
]

module _ (es : List XferEvent) (storage : length es ≡ 16) where
  window-set :
      (h : ℕ) (e : XferEvent)
      → h < 16
      → window (set es h e) (suc h) (suc h) ≡ window es h h ++ e ∷ []
  unfolding window
  window-set h e lt = ground (arith, take-set es h e, drop-set es h e, drop-all (suc h) es)

  window-set_full :
      (h : ℕ) (e : XferEvent)
      → h < 16
      → window (set es h e) (suc h) 16 ≡ drop 1 (window es h 16 ++ e ∷ [])
  unfolding window
  window-set_full h e lt = ground (
    arith,
    drop-set es h e,
    take-set es h e,
    drop-cons es h,
    drop-append 1 (drop h es) (take h es),
    drop-append 1 (drop h es ++ take h es) (e ∷ []),
    append_assoc (drop (suc h) es) (take h es) (e ∷ []),
    length-append (drop h es) (take h es),
    length-drop h es,
    length-take h es,
  )

  length-window : (h c : ℕ) → h < 16 → c ≤ 16 → (c < 16 → h ≡ c) → length (window es h c) ≡ c
  unfolding window
  length-window h c lt le fill =
      ground (arith, length-append (drop h es) (take h es), length-drop h es, length-take h es)

  record_filling :
      (c : ℕ) (e : XferEvent)
      → c < 16
      → window (set es c e) ((c + 1) % 16) (c + 1) ≡ last 16 (window es c c ++ e ∷ [])
  record_filling c e p = ground (
    arith,
    window-wrap (set es c e) (suc c) (suc c),
    window-set c e,
    length-set es c e,
    last-le 16 (window es c c ++ e ∷ []),
    length-append (window es c c) (e ∷ []),
    length-window c c,
  )

  record_full :
      (h : ℕ) (e : XferEvent)
      → h < 16
      → window (set es h e) ((h + 1) % 16) 16 ≡ last 16 (window es h 16 ++ e ∷ [])
  record_full h e p = ground (
    arith,
    window-wrap (set es h e) (suc h) 16,
    window-set_full h e,
    length-set es h e,
    last-suc 16 (window es h 16 ++ e ∷ []),
    length-append (window es h 16) (e ∷ []),
    length-window h 16,
  )

  -- What a recorded event makes of the window.
  window-record :
      (h c : ℕ) (e : XferEvent)
      → h < 16
      → c ≤ 16
      → (c < 16 → h ≡ c)
      → window (set es h e) ((h + 1) % 16) (if ltb c 16 then c + 1 else c)
        ≡ last 16 (window es h c ++ e ∷ [])
  window-record h c e lt le fill = ground (arith, record_filling c e, record_full h e)

-- A push that records appends the event, and drops the oldest if the ring was full.
contents-push :
    (r : XferRing) (now reason : ℕ)
    → IsValid r
    → (push r now reason).1 ≡ true
    → contents (push r now reason).0
      ≡ last 16 (contents r ++ record { timestamp_ms = now; reason = reason } ∷ [])
unfolding push
contents-push r now reason v h = ground (
  arith,
  window-record r.entries v.storage r.head r.count (record { timestamp_ms = now; reason = reason }),
)

-- A push that records nothing leaves the ring alone.
push-same :
    (r : XferRing) (now reason : ℕ) → (push r now reason).1 ≡ false → (push r now reason).0 ≡ r
unfolding push
push-same r now reason h = ground arith

seen-push : (r : XferRing) (now reason : ℕ) → seen (push r now reason).0 ≡ some reason
unfolding push
seen-push r now reason = ground arith

transitions-push :
    (r : XferRing) (now reason : ℕ) (rs : List Reading)
    → transitions (seen r) ((now, reason) ∷ rs) ≡ (
        if (push r now reason).1
        then record { timestamp_ms = now; reason = reason } ∷ transitions (some reason) rs
        else transitions (some reason) rs)
unfolding push transitions
transitions-push r now reason rs = ground arith

contents-push_all :
    (r : XferRing) (rs : List Reading)
    → IsValid r
    → contents (push_all r rs) ≡ last 16 (contents r ++ transitions (seen r) rs)
unfolding push_all transitions
contents-push_all r [] v =
    rw (append-nil (contents r)) (sym (last-le 16 (contents r) (omega (arith, sizes))))
  where
    sizes : length (contents r) ≡ r.count
    sizes = length-window r.entries v.storage r.head r.count v.head_in v.count_in v.filling
contents-push_all r ((now, reason) ∷ rs) v =
    let ih = contents-push_all (push r now reason).0 rs (push-IsValid r now reason v) in
    elim (Bool-cases (push r now reason).1) [
      | inl new ↦
          ih
          ∙ ap (λ t. last 16 (t ++ transitions (seen r') rs)) (contents-push r now reason v new)
          ∙ last-append 16 (contents r ++ e ∷ []) (transitions (seen r') rs)
          ∙ rw (seen-push r now reason, transitions-push r now reason rs, new)
              (ap (last 16) (append_assoc (contents r) (e ∷ []) (transitions (some reason) rs)))
      | inr old ↦
          ih
          ∙ rw (seen-push r now reason, transitions-push r now reason rs, old)
              (ap (λ (t : XferRing). last 16 (contents t ++ transitions (some reason) rs))
                (push-same r now reason old))
    ]
  where
    r' : XferRing
    r' = (push r now reason).0

    e : XferEvent
    e = record { timestamp_ms = now; reason = reason }

-- The ring holds exactly the last 16 changes among the readings pushed since `xfer_ring_init`.
pub contents-init :
    (rs : List Reading) → contents (push_all init rs) ≡ last 16 (transitions none rs)
unfolding init window
contents-init rs = contents-push_all init rs init-IsValid
