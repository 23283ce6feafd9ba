-- ===== src/Sse/Stream/Intact.antt =====
-- A subscriber gets the frames whole and in order, while its queue has room (src/api/sse.c).
use airies_ups_c.Base.{
  ℕ, zero, suc, ◌+◌, ◌<◌, ◌≡◌, refl, sym, ap, ◌∙◌, Bool, true, false, List, [], ◌∷◌, ◌++◌, ◌==◌,
  drop, append_assoc, append-nil, arith, Bool-cases, inl, inr,
}
use airies_ups_c.Sse.{
  Subscriber, free_head, advance_head, subscriber_drop_oldest, place, subscriber_enqueue_locked,
  drain, sse_subscriber_read, Read, bytes_read, too_small, ended, woken, sse_queue_depth,
}
use airies_ups_c.Sse.Stream.{
  frames_from, pending, IsValid, drain-pending, enqueue-pending, head-pending, free-pending,
  place-pending,
}

enqueue-IsValid :
    (frame : List ℕ) (s : Subscriber) → IsValid s → IsValid (subscriber_enqueue_locked frame s)
unfolding subscriber_enqueue_locked place subscriber_drop_oldest free_head
enqueue-IsValid frame s v = record {
  at = ground (arith, v.at, v.room);
  room = ground (arith, v.at, v.room);
}

read-IsValid :
    (max : ℕ) (timed_out : Bool) (s : Subscriber)
    → IsValid s
    → IsValid (sse_subscriber_read max timed_out s).0
unfolding sse_subscriber_read drain free_head advance_head
read-IsValid max timed_out s v = record {
  at = ground (arith, v.at, v.room);
  room = ground (arith, v.at, v.room);
}

enqueue-closed :
    (frame : List ℕ) (s : Subscriber) → (subscriber_enqueue_locked frame s).closed ≡ s.closed
unfolding subscriber_enqueue_locked place subscriber_drop_oldest free_head
enqueue-closed frame s = ground arith

read-closed :
    (max : ℕ) (timed_out : Bool) (s : Subscriber)
    → (sse_subscriber_read max timed_out s).0.closed ≡ s.closed
unfolding sse_subscriber_read drain free_head advance_head
read-closed max timed_out s = ground arith

-- The bytes of frames that a read gives; one that finds the queue empty gives none, but may give a
-- heartbeat.
abbrev pub frame_bytes : ℕ → Read → List ℕ
frame_bytes zero r = []
frame_bytes (suc n) (bytes_read out) = out
frame_bytes (suc n) too_small = []
frame_bytes (suc n) ended = []
frame_bytes (suc n) woken = []

read_empty :
    (max : ℕ) (timed_out : Bool) (s : Subscriber)
    → s.count ≡ 0
    → (sse_subscriber_read max timed_out s).0 ≡ s
unfolding sse_subscriber_read
read_empty max timed_out s c =
    let empty : (s.count == 0) ≡ true = ground arith in
    elim (Bool-cases (max == 0)) [
      | inl e ↦ simp e refl
      | inr e ↦ elim (Bool-cases s.closed) [
        | inl x ↦ simp (e, empty, x) refl
        | inr x ↦ elim (Bool-cases timed_out) [
          | inl y ↦ simp (e, empty, x, y) refl
          | inr y ↦ simp (e, empty, x, y) refl
        ]
      ]
    ]

read-pending :
    (max : ℕ) (timed_out : Bool) (s : Subscriber) (n : ℕ)
    → IsValid s
    → s.count ≡ n
    → frame_bytes n (sse_subscriber_read max timed_out s).1
        ++ pending (sse_subscriber_read max timed_out s).0
      ≡ pending s
read-pending max timed_out s zero v c = ap pending (read_empty max timed_out s c)
read-pending max timed_out s (suc n) v c =
    unfold sse_subscriber_read in
    let full : (s.count == 0) ≡ false = ground arith in
    elim (Bool-cases (max == 0)) [
      | inl e ↦ simp e refl
      | inr e ↦ simp (e, full) (drain-pending max s n v c)
    ]

pub data Use : Type 0 where
  push : List ℕ → Use
  read : ℕ → Bool → Use

unfoldable pub apply_use : Use → Subscriber → Subscriber
apply_use (push frame) s = subscriber_enqueue_locked frame s
apply_use (read max timed_out) s = (sse_subscriber_read max timed_out s).0

unfoldable pub delivered_by : Use → Subscriber → List ℕ
delivered_by (push frame) s = []
delivered_by (read max timed_out) s = frame_bytes s.count (sse_subscriber_read max timed_out s).1

unfoldable pub after_uses : List Use → Subscriber → Subscriber
unfolding apply_use
after_uses [] s = s
after_uses (u ∷ us) s = after_uses us (apply_use u s)

unfoldable pub delivered : List Use → Subscriber → List ℕ
unfolding apply_use delivered_by
delivered [] s = []
delivered (u ∷ us) s = delivered_by u s ++ delivered us (apply_use u s)

abbrev pub pushed : List Use → List ℕ
pushed [] = []
pushed (push frame ∷ us) = frame ++ pushed us
pushed (read max timed_out ∷ us) = pushed us

-- There is room at every push.
abbrev pub HasRoom : List Use → Subscriber → Type 0
HasRoom [] s = Unit {0}
HasRoom (push frame ∷ us) s = (s.count < 256) × HasRoom us (subscriber_enqueue_locked frame s)
HasRoom (read max timed_out ∷ us) s = HasRoom us (sse_subscriber_read max timed_out s).0

-- No byte is lost, doubled or out of order: while the subscriber is open and there is room at every push,
-- the bytes of frames that the reads have given, whatever their buffers, followed by those that are
-- not yet read, are those that were there at first followed by the frames pushed, in order.
pub stream_intact :
    (us : List Use) (s : Subscriber)
    → IsValid s
    → s.closed ≡ false
    → HasRoom us s
    → delivered us s ++ pending (after_uses us s) ≡ pending s ++ pushed us
unfolding delivered delivered_by after_uses apply_use
stream_intact [] s v open' room = sym (append-nil (pending s))
stream_intact (push frame ∷ us) s v open' room =
    let s' = subscriber_enqueue_locked frame s in
    stream_intact us s' (enqueue-IsValid frame s v) (enqueue-closed frame s ∙ open') room.1
    ∙ ap (λ xs. xs ++ pushed us) (enqueue-pending frame s v open' room.0)
    ∙ append_assoc (pending s) frame (pushed us)
stream_intact (read max timed_out ∷ us) s v open' room =
    let r = sse_subscriber_read max timed_out s in
    let out = frame_bytes s.count r.1 in
    append_assoc out (delivered us r.0) (pending (after_uses us r.0))
    ∙ ap (λ xs. out ++ xs)
        (stream_intact us r.0 (read-IsValid max timed_out s v) (read-closed max timed_out s ∙ open')
          room)
    ∙ sym (append_assoc out (pending r.0) (pushed us))
    ∙ ap (λ xs. xs ++ pushed us) (read-pending max timed_out s s.count v refl)

-- A full queue drops what is not read of its oldest frame, also where a part of it has been read: the
-- subscriber then gets the next frame in the middle of that one.
pub full_drops :
    (frame : List ℕ) (s : Subscriber)
    → IsValid s
    → s.closed ≡ false
    → s.count ≡ 256
    → (rest : List ℕ) × (pending s ≡ drop (s.ring s.head).pos (s.ring s.head).data' ++ rest)
      × (pending (subscriber_enqueue_locked frame s) ≡ rest ++ frame)
unfolding subscriber_enqueue_locked subscriber_drop_oldest
full_drops frame s v open' c =
    let full : (s.count == sse_queue_depth) ≡ true = ground arith in
    let some' : (s.count == 0) ≡ false = ground arith in
    let valid : IsValid (free_head s) =
      unfold free_head in record { at = ground arith; room = omega (arith, c) } in
    let room : (free_head s).count < 256 = unfold free_head in omega (arith, c) in
    (
      frames_from 255 (s.head + 1) s.ring,
      head-pending s 255 v c,
      simp (open', full, some')
          (place-pending frame (free_head s) valid room
            ∙ ap (λ xs. xs ++ frame) (free-pending s 255 v c)),
    )
