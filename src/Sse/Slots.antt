-- ===== src/Sse/Slots.antt =====
-- The slots of the broadcaster of src/api/sse.c.
use airies_ups_c.Base.{
  ℕ, zero, suc, ◌+◌, ◌≤◌, ◌<◌, ◌≡◌, ◌⊎◌, refl, ap, Bool, true, false, ◌||◌, Option, none, some,
  List, [], ◌∷◌, leb, if◌then◌else◌, length, arith, Bool-cases, inl, inr, replicate,
}
use airies_ups_c.Sse.{
  Subscriber, Broadcaster, push_all, broadcast_frame, sse_broadcaster_emit,
  sse_broadcaster_emit_cached, close_all, sse_broadcaster_shutdown, take_slot, primed,
  sse_broadcaster_subscribe, clear_slot, sse_subscriber_close, format_frame, sse_max_subscribers,
}

unfoldable pub occupied : List (Option Subscriber) → ℕ
occupied [] = 0
occupied (none ∷ subs) = occupied subs
occupied (some s ∷ subs) = occupied subs + 1

-- The counter counts the slots in use, of which there are eight.
pub record IsCounted (b : Broadcaster) : Type 0 where
  pub size : length b.subs ≡ 8
  pub counted : b.n_subs ≡ occupied b.subs

occupied_le : (subs : List (Option Subscriber)) → occupied subs ≤ length subs
unfolding occupied
occupied_le [] = omega arith
occupied_le (none ∷ subs) = omega (arith, occupied_le subs)
occupied_le (some s ∷ subs) = omega (arith, occupied_le subs)

length-push_all :
    (got : ℕ → Bool) (i : ℕ) (frame : List ℕ) (subs : List (Option Subscriber))
    → length (push_all got i frame subs) ≡ length subs
unfolding push_all
length-push_all got i frame [] = refl
length-push_all got i frame (none ∷ subs) = ap suc (length-push_all got (i + 1) frame subs)
length-push_all got i frame (some s ∷ subs) = ap suc (length-push_all got (i + 1) frame subs)

occupied-push_all :
    (got : ℕ → Bool) (i : ℕ) (frame : List ℕ) (subs : List (Option Subscriber))
    → occupied (push_all got i frame subs) ≡ occupied subs
unfolding push_all occupied
occupied-push_all got i frame [] = refl
occupied-push_all got i frame (none ∷ subs) = occupied-push_all got (i + 1) frame subs
occupied-push_all got i frame (some s ∷ subs) =
    ap (λ n. n + 1) (occupied-push_all got (i + 1) frame subs)

length-close_all : (subs : List (Option Subscriber)) → length (close_all subs) ≡ length subs
unfolding close_all
length-close_all [] = refl
length-close_all (none ∷ subs) = ap suc (length-close_all subs)
length-close_all (some s ∷ subs) = ap suc (length-close_all subs)

occupied-close_all : (subs : List (Option Subscriber)) → occupied (close_all subs) ≡ occupied subs
unfolding close_all occupied
occupied-close_all [] = refl
occupied-close_all (none ∷ subs) = occupied-close_all subs
occupied-close_all (some s ∷ subs) = ap (λ n. n + 1) (occupied-close_all subs)

-- A free slot is found, if there is one.
take_slot-found :
    (s : Subscriber) (i : ℕ) (subs : List (Option Subscriber))
    → occupied subs < length subs
    → (length (take_slot s i subs).0 ≡ length subs)
      × (occupied (take_slot s i subs).0 ≡ occupied subs + 1)
      × ((k : ℕ) × ((take_slot s i subs).1 ≡ some k))
unfolding take_slot occupied
take_slot-found s i [] h = absurd (omega arith)
take_slot-found s i (none ∷ subs) h = (refl, refl, (i, refl))
take_slot-found s i (some other ∷ subs) h =
    let r = take_slot-found s (i + 1) subs (omega arith) in (ap suc r.0, ap (λ n. n + 1) r.1, r.2)

clear_slot-counted :
    (i : ℕ) (subs : List (Option Subscriber))
    → (length (clear_slot i subs).0 ≡ length subs)
      × (occupied (clear_slot i subs).0 + (if (clear_slot i subs).1 then 1 else 0) ≡ occupied subs)
unfolding clear_slot occupied
clear_slot-counted i [] = (refl, refl)
clear_slot-counted zero (none ∷ subs) = (refl, omega arith)
clear_slot-counted zero (some s ∷ subs) = (refl, refl)
clear_slot-counted (suc i) (none ∷ subs) = let r = clear_slot-counted i subs in (ap suc r.0, r.1)
clear_slot-counted (suc i) (some s ∷ subs) =
    let r = clear_slot-counted i subs in (ap suc r.0, omega (arith, r.1))

broadcast-IsCounted :
    (got : ℕ → Bool) (frame : List ℕ) (b : Broadcaster)
    → IsCounted b
    → IsCounted (broadcast_frame got frame b)
unfolding broadcast_frame
broadcast-IsCounted got frame b v = record {
  size = omega (arith, v.size, length-push_all got 0 frame b.subs);
  counted = omega (arith, v.counted, occupied-push_all got 0 frame b.subs);
}

-- What is done to a broadcaster, with the answers of the allocations.
pub data Act : Type 0 where
  emit : Bool → (ℕ → Bool) → List ℕ → List ℕ → Act
  emit_cached : Bool → (ℕ → Bool) → List ℕ → List ℕ → Act
  subscribe : Bool → Bool → Act
  close : ℕ → Act
  shutdown : Act

pub act : Act → Broadcaster → Broadcaster
act (emit formatted got event_type payload) b =
    sse_broadcaster_emit formatted got event_type payload b
act (emit_cached formatted got event_type payload) b =
    sse_broadcaster_emit_cached formatted got event_type payload b
act (subscribe created got) b = (sse_broadcaster_subscribe created got b).0
act (close slot) b = sse_subscriber_close slot b
act shutdown b = sse_broadcaster_shutdown b

pub acts : List Act → Broadcaster → Broadcaster
unfolding act
acts [] b = b
acts (a ∷ ms) b = acts ms (act a b)

subscribe-IsCounted :
    (created got : Bool) (b : Broadcaster)
    → IsCounted b
    → IsCounted (sse_broadcaster_subscribe created got b).0
unfolding sse_broadcaster_subscribe
subscribe-IsCounted false got b v = v
subscribe-IsCounted true got b v =
    elim (Bool-cases (b.shutting_down || leb sse_max_subscribers b.n_subs)) [
      | inl e ↦ simp e v
      | inr e ↦
          let free : occupied b.subs < length b.subs = ground (arith, v.size, v.counted) in
          let r = take_slot-found (primed got b.cached_frame) 0 b.subs free in
          simp e
            (record { size = omega (arith, v.size, r.0); counted = omega (arith, v.counted, r.1) })
    ]

close-IsCounted :
    (slot : ℕ) (b : Broadcaster) → IsCounted b → IsCounted (sse_subscriber_close slot b)
unfolding sse_subscriber_close
close-IsCounted slot b v =
    let r = clear_slot-counted slot b.subs in
    elim (Bool-cases (clear_slot slot b.subs).1) [
      | inl e ↦
          let one : occupied (clear_slot slot b.subs).0 + 1 ≡ occupied b.subs =
            ground (arith, r.1) in
          simp e
            (record { size = omega (arith, v.size, r.0); counted = omega (arith, v.counted, one) })
      | inr e ↦ simp e v
    ]

act-IsCounted : (a : Act) (b : Broadcaster) → IsCounted b → IsCounted (act a b)
unfolding act sse_broadcaster_emit sse_broadcaster_emit_cached sse_broadcaster_shutdown
act-IsCounted (emit true got event_type payload) b v =
    broadcast-IsCounted got (format_frame event_type payload) b v
act-IsCounted (emit false got event_type payload) b v = v
act-IsCounted (emit_cached true got event_type payload) b v =
    let r = broadcast-IsCounted got (format_frame event_type payload) b v in
    record { size = r.size; counted = r.counted }
act-IsCounted (emit_cached false got event_type payload) b v = v
act-IsCounted (subscribe created got) b v = subscribe-IsCounted created got b v
act-IsCounted (close slot) b v = close-IsCounted slot b v
act-IsCounted shutdown b v = record {
  size = omega (arith, v.size, length-close_all b.subs);
  counted = omega (arith, v.counted, occupied-close_all b.subs);
}

-- sse_broadcaster_create
abbrev pub new_broadcaster : Broadcaster
new_broadcaster = record {
  subs = replicate 8 none;
  n_subs = 0;
  cached_frame = [];
  shutting_down = false;
}

acts-IsCounted : (ms : List Act) (b : Broadcaster) → IsCounted b → IsCounted (acts ms b)
unfolding acts
acts-IsCounted [] b v = v
acts-IsCounted (a ∷ ms) b v = acts-IsCounted ms (act a b) (act-IsCounted a b v)

-- Whatever is done to a new broadcaster, in any order, its counter counts the slots in use; so a
-- subscriber is accepted exactly if a slot is free, the broadcaster is not shutting down and there
-- is memory, and then it has got a slot.
pub accepted_has_slot :
    (ms : List Act) (created got : Bool)
    → let b = acts ms new_broadcaster in
      (b.n_subs ≡ occupied b.subs)
      × (((created ≡ true)
            × (b.shutting_down ≡ false)
            × (occupied b.subs < 8)
            × ((k : ℕ) × ((sse_broadcaster_subscribe created got b).1 ≡ some (some k))))
          ⊎ (((created ≡ false) ⊎ ((b.shutting_down ≡ true) ⊎ (occupied b.subs ≡ 8)))
              × ((sse_broadcaster_subscribe created got b).1 ≡ none)))
unfolding sse_broadcaster_subscribe
accepted_has_slot ms created got =
    let b = acts ms new_broadcaster in
    let v =
      acts-IsCounted ms new_broadcaster
        (record { size = refl; counted = unfold occupied in refl }) in
    (v.counted, answer b v created got)
  where
    answer :
        (b : Broadcaster)
        → IsCounted b
        → (created got : Bool)
        → ((created ≡ true)
            × (b.shutting_down ≡ false)
            × (occupied b.subs < 8)
            × ((k : ℕ) × ((sse_broadcaster_subscribe created got b).1 ≡ some (some k))))
          ⊎ (((created ≡ false) ⊎ ((b.shutting_down ≡ true) ⊎ (occupied b.subs ≡ 8)))
              × ((sse_broadcaster_subscribe created got b).1 ≡ none))
    answer b v false got = inr (inl refl, refl)
    answer b v true got = elim (Bool-cases b.shutting_down) [
      | inl e ↦ inr (inr (inl e), simp e refl)
      | inr e ↦ elim (Bool-cases (leb sse_max_subscribers b.n_subs)) [
        | inl f ↦
            let full : occupied b.subs ≡ 8 =
              ground (arith, v.size, v.counted, occupied_le b.subs) in
            inr (inr (inr full), simp (e, f) refl)
        | inr f ↦
            let free : occupied b.subs < 8 = ground (arith, v.counted) in
            let r = take_slot-found (primed got b.cached_frame) 0 b.subs (omega (arith, v.size)) in
            inl (refl, e, free, (r.2.0, simp (e, f) (ap some r.2.1)))
      ]
    ]
