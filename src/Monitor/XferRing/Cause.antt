-- ===== src/Monitor/XferRing/Cause.antt =====
-- What `xfer_ring_recent_cause` of src/monitor/xfer_ring.c answers: the reason of the most recent
-- eligible event of the ring.
use airies_ups_c.Base.{
  ℕ, zero, suc, ◌+◌, ◌≤◌, ◌<◌, ◌≡◌, refl, ap, ◌∙◌, List, [], ◌∷◌, ◌++◌, Bool, ◌&&◌, not, Option,
  none, some, leb, ◌==◌, if◌then◌else◌, length, take, drop, get_or, arith, append-nil,
  take-append-drop, take-all,
}
use native.Mathlib.Numerals.{add-one}
use airies_ups_c.Ups.Flags.{ups_transfer_reason_unknown}
use airies_ups_c.Monitor.XferRing.{
  XferEvent, XferRing, Best, look, scan, zero_event, xfer_reason_acceptable_input, cutoff_of,
  recent_cause,
}
use airies_ups_c.Monitor.XferRing.Contents.{IsValid, contents, window}

-- The loop over a list of events, by recursion on the list.
look_all : ℕ → List XferEvent → Best → Best
look_all cutoff [] b = b
look_all cutoff (e ∷ es) b = look_all cutoff es (look cutoff e b)

look_all-append :
    (cutoff : ℕ) (xs ys : List XferEvent) (b : Best)
    → look_all cutoff (xs ++ ys) b ≡ look_all cutoff ys (look_all cutoff xs b)
unfolding look_all
look_all-append cutoff [] ys b = refl
look_all-append cutoff (x ∷ xs) ys b = look_all-append cutoff xs ys (look cutoff x b)

drop-cons_get {ℓ} :
    {A : Type ℓ} (xs : List A) (i : ℕ) (d : A)
    → i < length xs
    → drop i xs ≡ get_or xs i d ∷ drop (suc i) xs
drop-cons_get [] i d h = absurd (omega arith)
drop-cons_get (x ∷ xs) zero d h = refl
drop-cons_get (x ∷ xs) (suc i) d h = drop-cons_get xs i d (omega arith)

-- The indexed loop goes over the events from `i` on.
scan-look_all :
    (entries : List XferEvent) (cutoff left i : ℕ) (b : Best)
    → i + left ≤ length entries
    → scan entries cutoff left i b ≡ look_all cutoff (take left (drop i entries)) b
unfolding scan look_all
scan-look_all entries cutoff zero i b h = refl
scan-look_all entries cutoff (suc left) i b h =
    rw (drop-cons_get entries i zero_event (omega arith))
      (rw add-one (scan-look_all entries cutoff left (suc i) _ (omega arith)))

-- Within the lookback, and not the steady-state reading.
abbrev pub is_eligible : ℕ → XferEvent → Bool
is_eligible cutoff e = leb cutoff e.timestamp_ms && not (e.reason == xfer_reason_acceptable_input)

-- The specification: the last eligible event of a list.
unfoldable pub latest : ℕ → List XferEvent → Option XferEvent
latest cutoff [] = none
latest cutoff (e ∷ es) = elim (latest cutoff es) [
  | some f ↦ some f
  | none ↦ if is_eligible cutoff e then some e else none
]

-- The times rise along the list, the first above `lo`.
abbrev pub Rising : ℕ → List XferEvent → Type 0
Rising lo [] = Unit {0}
Rising lo (e ∷ es) = (lo < e.timestamp_ms) × Rising e.timestamp_ms es

-- The time of the last event, or `lo`.
abbrev top : ℕ → List XferEvent → ℕ
top lo [] = lo
top lo (e ∷ es) = top e.timestamp_ms es

Rising-append :
    (lo : ℕ) (xs ys : List XferEvent) → Rising lo (xs ++ ys) → Rising lo xs × Rising (top lo xs) ys
Rising-append lo [] ys h = (tt, h)
Rising-append lo (x ∷ xs) ys h =
    let (a, b) = Rising-append x.timestamp_ms xs ys h.1 in ((h.0, a), b)

lo-le-top : (lo : ℕ) (xs : List XferEvent) → Rising lo xs → lo ≤ top lo xs
lo-le-top lo [] h = omega arith
lo-le-top lo (x ∷ xs) h = omega (arith, lo-le-top x.timestamp_ms xs h.1)

best_of : Option XferEvent → Best → Best
best_of none b = b
best_of (some e) b = record { best = e.reason; best_ts = e.timestamp_ms }

Rising-mono : (lo hi : ℕ) (es : List XferEvent) → lo ≤ hi → Rising hi es → Rising lo es
Rising-mono lo hi [] le h = tt
Rising-mono lo hi (e ∷ es) le h = (omega arith, h.1)

look-le :
    (cutoff : ℕ) (e : XferEvent) (b : Best)
    → b.best_ts < e.timestamp_ms
    → (look cutoff e b).best_ts ≤ e.timestamp_ms
unfolding look
look-le cutoff e b h = ground arith

best_of-look :
    (cutoff : ℕ) (e : XferEvent) (b : Best) (later : Option XferEvent)
    → b.best_ts < e.timestamp_ms
    → best_of later (look cutoff e b)
      ≡ best_of
          (elim later [ some f ↦ some f | none ↦ if is_eligible cutoff e then some e else none ])
          b
unfolding look best_of
best_of-look cutoff e b later h = ground arith

-- Along rising times the loop ends at the last eligible event.
look_all-latest :
    (cutoff : ℕ) (es : List XferEvent) (b : Best)
    → Rising b.best_ts es
    → look_all cutoff es b ≡ best_of (latest cutoff es) b
unfolding look_all latest best_of
look_all-latest cutoff [] b h = refl
look_all-latest cutoff (e ∷ es) b h =
    look_all-latest cutoff es (look cutoff e b)
      (Rising-mono _ e.timestamp_ms es (look-le cutoff e b h.0) h.1)
    ∙ best_of-look cutoff e b (latest cutoff es) h.0

-- Events no later than the best change nothing.
look_all-old :
    (cutoff lo : ℕ) (es : List XferEvent) (b : Best)
    → Rising lo es
    → top lo es ≤ b.best_ts
    → look_all cutoff es b ≡ b
unfolding look_all look
look_all-old cutoff lo [] b h le = refl
look_all-old cutoff lo (e ∷ es) b h le =
    ground (arith, lo-le-top e.timestamp_ms es h.1, look_all-old cutoff e.timestamp_ms es b h.1)

latest-append :
    (cutoff : ℕ) (xs ys : List XferEvent)
    → latest cutoff (xs ++ ys)
      ≡ elim (latest cutoff ys) [ some f ↦ some f | none ↦ latest cutoff xs ]
unfolding latest
latest-append cutoff [] ys = ground arith
latest-append cutoff (x ∷ xs) ys = ground (arith, latest-append cutoff xs ys)

lo-lt-latest :
    (cutoff lo : ℕ) (es : List XferEvent) (e : XferEvent)
    → Rising lo es
    → latest cutoff es ≡ some e
    → lo < e.timestamp_ms
unfolding latest
lo-lt-latest cutoff lo [] e h q = cc
lo-lt-latest cutoff lo (x ∷ xs) e h q = ground (arith, lo-lt-latest cutoff x.timestamp_ms xs e h.1)

-- The older events are looked at last; they count only if none of the newer was eligible.
after_new :
    (cutoff : ℕ) (old : List XferEvent) (found : Option XferEvent) (b : Best)
    → Rising b.best_ts old
    → ((e : XferEvent) → found ≡ some e → top b.best_ts old < e.timestamp_ms)
    → look_all cutoff old (best_of found b)
      ≡ best_of (elim found [ some f ↦ some f | none ↦ latest cutoff old ]) b
unfolding best_of
after_new cutoff old none b h newer = look_all-latest cutoff old b h
after_new cutoff old (some e) b h newer =
    look_all-old cutoff b.best_ts old _ h (omega (arith, newer e refl))

-- What the loop finds when the older events stand behind the newer in the array.
look_all-rotated :
    (cutoff : ℕ) (old new : List XferEvent) (b : Best)
    → Rising b.best_ts (old ++ new)
    → look_all cutoff (new ++ old) b ≡ best_of (latest cutoff (old ++ new)) b
look_all-rotated cutoff old new b h =
    let (ho, hn) = Rising-append b.best_ts old new h in
    let hn' : Rising b.best_ts new =
      Rising-mono b.best_ts (top b.best_ts old) new (lo-le-top b.best_ts old ho) hn in
    look_all-append cutoff new old b
    ∙ rw (look_all-latest cutoff new b hn', latest-append cutoff old new)
        (after_new cutoff old (latest cutoff new) b ho
          (λ e q. lo-lt-latest cutoff (top b.best_ts old) new e hn q))

-- The valid entries are those of the contents, the newer part first.
entries-window :
    (es : List XferEvent) (h c : ℕ)
    → length es ≡ 16
    → h < 16
    → c ≤ 16
    → (c < 16 → h ≡ c)
    → take c es ≡ take h es ++ (if c == 16 then drop h es else [])
entries-window es h c len lt le fill =
    ground (arith, append-nil (take h es), take-append-drop h es, take-all 16 es)

best-best_of :
    (o : Option XferEvent) (b : Best)
    → (best_of o b).best ≡ elim o [ some e ↦ e.reason | none ↦ b.best ]
unfolding best_of
best-best_of none b = refl
best-best_of (some e) b = refl

-- If the recorded times rise, the answer is the reason of the last event of the ring that lies
-- within the lookback and is not AcceptableInput, and the unknown reason if there is none.
pub recent_cause-latest :
    (r : XferRing) (now_ms lookback_ms : ℕ)
    → IsValid r
    → Rising 0 (contents r)
    → recent_cause r now_ms lookback_ms
      ≡ elim (latest (cutoff_of now_ms lookback_ms) (contents r)) [
        | some e ↦ e.reason
        | none ↦ ups_transfer_reason_unknown
      ]
unfolding recent_cause window
recent_cause-latest r now lookback v h =
    scan_all
    ∙ rw (entries-window r.entries r.head r.count v.storage v.head_in v.count_in v.filling) (
        ap (λ (t : Best). t.best)
          (look_all-rotated cutoff (if r.count == 16 then drop r.head r.entries else [])
            (take r.head r.entries) b h)
        ∙ best-best_of (latest cutoff (contents r)) b)
  where
    cutoff : ℕ
    cutoff = cutoff_of now lookback

    b : Best
    b = record { best = ups_transfer_reason_unknown; best_ts = 0 }

    scan_all :
        (scan r.entries cutoff r.count 0 b).best ≡ (look_all cutoff (take r.count r.entries) b).best
    scan_all = ap (λ (t : Best). t.best) (scan-look_all r.entries cutoff r.count 0 b (omega arith))
