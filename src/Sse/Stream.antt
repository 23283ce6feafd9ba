-- ===== src/Sse/Stream.antt =====
-- The bytes that wait in a subscriber's ring (src/api/sse.c).
pub mod Intact
use airies_ups_c.Base.{
  ℕ, zero, suc, ◌+◌, ◌-◌, ◌%◌, ◌≤◌, ◌<◌, ◌≡◌, ◌≢◌, refl, sym, ap, ap₂, ◌∙◌, false, List, [], ◌++◌,
  ◌==◌, take, drop, length, min, append_assoc, append-nil, take-append-drop, drop-drop, drop-all,
  arith, Bool-cases, inl, inr, length-drop,
}
use airies_ups_c.Sse.{
  Frame, Subscriber, no_frame, set_slot, free_head, advance_head, place, subscriber_enqueue_locked,
  drain, sse_queue_depth,
}

abbrev pub unread : Frame → List ℕ
unread f = drop f.pos f.data'

-- The bytes of `n` frames from an index on that are not read.
pub frames_from : ℕ → ℕ → (ℕ → Frame) → List ℕ
frames_from zero i ring = []
frames_from (suc n) i ring = unread (ring (i % 256)) ++ frames_from n (i + 1) ring

abbrev pub pending : Subscriber → List ℕ
pending s = frames_from s.count s.head s.ring

pub record IsValid (s : Subscriber) : Type 0 where
  pub at : s.head < 256
  pub room : s.count ≤ 256

frames-same :
    (n i j : ℕ) (ring : ℕ → Frame) → i % 256 ≡ j % 256 → frames_from n i ring ≡ frames_from n j ring
unfolding frames_from
frames-same zero i j ring h = refl
frames-same (suc n) i j ring h =
    ap₂ (λ k rest. unread (ring k) ++ rest) h (frames-same n (i + 1) (j + 1) ring (omega arith))

set_slot-same : (i : ℕ) (f : Frame) (ring : ℕ → Frame) → set_slot i f ring i ≡ f
unfolding set_slot
set_slot-same i f ring = ground arith

frames-set :
    (n i j : ℕ) (f : Frame) (ring : ℕ → Frame)
    → ((k : ℕ) → k < n → (i + k) % 256 ≢ j)
    → frames_from n i (set_slot j f ring) ≡ frames_from n i ring
unfolding frames_from set_slot
frames-set zero i j f ring h = refl
frames-set (suc n) i j f ring h =
    let here = h 0 (omega arith) in
    let first : (j == i % 256) ≡ false = ground (arith, here) in
    rw first (
      ap (λ rest. unread (ring (i % 256)) ++ rest)
        (frames-set n (i + 1) j f ring
          (λ k lt e. h (k + 1) (omega arith) (ap (λ m. m % 256) (omega arith) ∙ e))))

frames-snoc :
    (n i : ℕ) (ring : ℕ → Frame)
    → frames_from (suc n) i ring ≡ frames_from n i ring ++ unread (ring ((i + n) % 256))
unfolding frames_from
frames-snoc zero i ring =
    let same : i + 0 ≡ i = omega arith in
    append-nil (unread (ring (i % 256))) ∙ ap (λ k. unread (ring (k % 256))) (sym same)
frames-snoc (suc n) i ring =
    let same : i + 1 + n ≡ i + suc n = omega arith in
    ap (λ rest. unread (ring (i % 256)) ++ rest) (frames-snoc n (i + 1) ring)
    ∙ sym (
        append_assoc (unread (ring (i % 256))) (frames_from n (i + 1) ring)
          (unread (ring ((i + 1 + n) % 256))))
    ∙ ap (λ k. (unread (ring (i % 256)) ++ frames_from n (i + 1) ring) ++ unread (ring (k % 256)))
        same

-- A frame that is placed comes last.
pub place-pending :
    (frame : List ℕ) (s : Subscriber)
    → IsValid s
    → s.count < 256
    → pending (place frame s) ≡ pending s ++ frame
unfolding place
place-pending frame s v room =
    let f : Frame = record { data' = frame; pos = 0 } in
    let tail = (s.head + s.count) % 256 in
    let next : s.count + 1 ≡ suc s.count = omega arith in
    ap (λ n. frames_from n s.head (set_slot tail f s.ring)) next
    ∙ frames-snoc s.count s.head (set_slot tail f s.ring)
    ∙ ap₂ (λ xs ys. xs ++ ys)
        (frames-set s.count s.head tail f s.ring (λ k lt e. omega (arith, v.at, room, lt, e)))
        (ap unread (set_slot-same tail f s.ring))

-- The first frame is taken away.
tail-pending :
    (s : Subscriber) (n : ℕ)
    → IsValid s
    → s.count ≡ suc n
    → frames_from n ((s.head + 1) % 256) (set_slot s.head no_frame s.ring)
      ≡ frames_from n (s.head + 1) s.ring
tail-pending s n v c =
    frames-same n ((s.head + 1) % 256) (s.head + 1) (set_slot s.head no_frame s.ring) (omega arith)
    ∙ frames-set n (s.head + 1) s.head no_frame s.ring
        (λ k lt e. omega (arith, v.at, v.room, c, lt, e))

pub head-pending :
    (s : Subscriber) (n : ℕ)
    → IsValid s
    → s.count ≡ suc n
    → pending s ≡ unread (s.ring s.head) ++ frames_from n (s.head + 1) s.ring
unfolding frames_from
head-pending s n v c = let same : s.head % 256 ≡ s.head = omega (arith, v.at) in rw (c, same) refl

pub free-pending :
    (s : Subscriber) (n : ℕ)
    → IsValid s
    → s.count ≡ suc n
    → pending (free_head s) ≡ frames_from n (s.head + 1) s.ring
unfolding free_head
free-pending s n v c =
    let less : s.count - 1 ≡ n = omega (arith, c) in
    ap (λ m. frames_from m ((s.head + 1) % 256) (set_slot s.head no_frame s.ring)) less
    ∙ tail-pending s n v c

advance-pending :
    (m : ℕ) (s : Subscriber) (n : ℕ)
    → IsValid s
    → s.count ≡ suc n
    → pending (advance_head m s)
      ≡ drop m (unread (s.ring s.head)) ++ frames_from n (s.head + 1) s.ring
unfolding advance_head
advance-pending m s n v c =
    let f : Frame = record (s.ring s.head) { pos = (s.ring s.head).pos + m } in
    head-pending (advance_head m s) n (record { at = v.at; room = v.room }) c
    ∙ ap₂ (λ xs ys. xs ++ ys)
        (ap unread (set_slot-same s.head f s.ring)
          ∙ sym (drop-drop m (s.ring s.head).pos (s.ring s.head).data'))
        (frames-set n (s.head + 1) s.head f s.ring
          (λ k lt e. omega (arith, v.at, v.room, c, lt, e)))

-- Draining gives the next bytes.
pub drain-pending :
    (max : ℕ) (s : Subscriber) (n : ℕ)
    → IsValid s
    → s.count ≡ suc n
    → (drain max s).1 ++ pending (drain max s).0 ≡ pending s
unfolding drain
drain-pending max s n v c =
    let f = s.ring s.head in
    let m = min (length f.data' - f.pos) max in
    let tail = frames_from n (s.head + 1) s.ring in
    let whole =
      ap (λ xs. xs ++ tail) (take-append-drop m (unread f)) ∙ sym (head-pending s n v c) in
    elim (Bool-cases (f.pos + m == length f.data')) [
      | inl e ↦
          let ends : f.pos + m ≡ length f.data' = ground arith in
          let done : drop m (unread f) ≡ [] =
            drop-all m (unread f) (omega (arith, length-drop f.pos f.data', ends)) in
          simp e (
            ap (λ rest. take m (unread f) ++ rest)
              (free-pending s n v c ∙ ap (λ xs. xs ++ tail) (sym done))
            ∙ sym (append_assoc (take m (unread f)) (drop m (unread f)) tail)
            ∙ whole)
      | inr e ↦ simp e (
          ap (λ rest. take m (unread f) ++ rest) (advance-pending m s n v c)
          ∙ sym (append_assoc (take m (unread f)) (drop m (unread f)) tail)
          ∙ whole)
    ]

-- Enqueuing, with room.
pub enqueue-pending :
    (frame : List ℕ) (s : Subscriber)
    → IsValid s
    → s.closed ≡ false
    → s.count < 256
    → pending (subscriber_enqueue_locked frame s) ≡ pending s ++ frame
unfolding subscriber_enqueue_locked
enqueue-pending frame s v open' room =
    let free : (s.count == sse_queue_depth) ≡ false = ground arith in
    simp (open', free) (place-pending frame s v room)
