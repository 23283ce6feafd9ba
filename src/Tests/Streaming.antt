-- ===== src/Tests/Streaming.antt =====
-- Instances for src/api/sse.c.
use airies_ups_c.Base.{
  ℕ, ◌<◌, ◌≡◌, ◌⊎◌, refl, true, false, none, some, List, [], ◌∷◌, ◌++◌, arith, if◌then◌else◌, ◌==◌,
}
use airies_ups_c.Base.Text.{bytes}
use airies_ups_c.Sse.{
  Subscriber, new_subscriber, set_slot, free_head, advance_head, drain, place,
  subscriber_enqueue_locked, sse_subscriber_read, sse_broadcaster_subscribe,
}
use airies_ups_c.Sse.Stream.{pending, IsValid}
use airies_ups_c.Sse.Stream.Intact.{Use, push, read, delivered, after_uses, stream_intact}
use airies_ups_c.Sse.Slots.{
  occupied, Act, emit_cached, subscribe, close, acts, new_broadcaster, accepted_has_slot,
}

-- The first frame is read in two parts, and another is pushed between them.
abbrev uses : List Use
uses = push (bytes "abc") ∷ read 2 false ∷ push (bytes "de") ∷ read 8 false ∷ []

abbrev new-IsValid : IsValid new_subscriber
new-IsValid = record { at = omega arith; room = omega arith }

stream_intact_example :
    delivered uses new_subscriber ++ pending (after_uses uses new_subscriber)
    ≡ pending new_subscriber ++ bytes "abcde"
unfolding subscriber_enqueue_locked place drain free_head advance_head set_slot sse_subscriber_read
stream_intact_example =
    stream_intact uses new_subscriber new-IsValid refl (omega arith, (omega arith, tt))

-- A full ring whose oldest frame has been read in part.
abbrev full : Subscriber
full = record {
  ring = λ i. record { data' = bytes "abc"; pos = if i == 3 then 1 else 0 };
  head = 3;
  count = 256;
  closed = false;
}

abbrev full-IsValid : IsValid full
full-IsValid = record { at = omega arith; room = omega arith }

abbrev Dropped : Type 0
Dropped =
    (rest : List ℕ) × (pending full ≡ bytes "bc" ++ rest)
    × (pending (subscriber_enqueue_locked (bytes "new") full) ≡ rest ++ bytes "new")

abbrev moves : List Act
moves =
    subscribe true true
    ∷ emit_cached true (λ i. true) (bytes "state") (bytes "{}")
    ∷ subscribe true true
    ∷ close 0
    ∷ []

abbrev Accepted : Type 0
Accepted =
    let b = acts moves new_broadcaster in
    (b.n_subs ≡ occupied b.subs)
    × (((true ≡ true)
          × (b.shutting_down ≡ false)
          × (occupied b.subs < 8)
          × ((k : ℕ) × ((sse_broadcaster_subscribe true true b).1 ≡ some (some k))))
        ⊎ (((true ≡ false) ⊎ ((b.shutting_down ≡ true) ⊎ (occupied b.subs ≡ 8)))
            × ((sse_broadcaster_subscribe true true b).1 ≡ none)))

accepted_has_slot_example : Accepted
accepted_has_slot_example = accepted_has_slot moves true true
