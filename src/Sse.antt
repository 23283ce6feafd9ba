-- ===== src/Sse.antt =====
-- The subscribers' queues and the broadcaster of src/api/sse.c. An array is a function of the index, or
-- a list of its slots; `malloc` and `calloc` succeed or not by an argument.
pub mod Stream
pub mod Slots
use airies_ups_c.Base.{
  ℕ, zero, suc, ◌+◌, ◌-◌, ◌%◌, Bool, true, false, not, ◌||◌, Option, none, some, List, [], ◌∷◌,
  ◌++◌, ◌==◌, ltb, leb, if◌then◌else◌, take, drop, length, min,
}
use airies_ups_c.Base.Text.{bytes}

abbrev pub sse_queue_depth : ℕ
sse_queue_depth = 256

abbrev pub sse_max_subscribers : ℕ
sse_max_subscribers = 8

-- A queued frame; `len` is the length of the data.
pub record Frame : Type 0 where
  pub data' : List ℕ
  pub pos : ℕ

abbrev pub no_frame : Frame
no_frame = record { data' = []; pos = 0 }

-- A subscriber.
pub record Subscriber : Type 0 where
  pub ring : ℕ → Frame
  pub head : ℕ
  pub count : ℕ
  pub closed : Bool

abbrev pub new_subscriber : Subscriber
new_subscriber = record { ring = λ i. no_frame; head = 0; count = 0; closed = false }

-- "event: <type>\ndata: <payload>\n\n"
pub format_frame : List ℕ → List ℕ → List ℕ
format_frame event_type payload =
    bytes "event: " ++ (event_type ++ (10 ∷ (bytes "data: " ++ (payload ++ (10 ∷ 10 ∷ [])))))

unfoldable pub set_slot : ℕ → Frame → (ℕ → Frame) → ℕ → Frame
set_slot i f ring j = if i == j then f else ring j

-- The head frame is freed and its slot cleared.
unfoldable pub free_head : Subscriber → Subscriber
unfolding set_slot
free_head s = record s {
  ring = set_slot s.head no_frame s.ring;
  head = (s.head + 1) % sse_queue_depth;
  count = s.count - 1;
}

unfoldable pub subscriber_drop_oldest : Subscriber → Subscriber
unfolding free_head
subscriber_drop_oldest s = if s.count == 0 then s else free_head s

unfoldable pub place : List ℕ → Subscriber → Subscriber
unfolding set_slot
place frame s = record s {
  ring = set_slot ((s.head + s.count) % sse_queue_depth) (record { data' = frame; pos = 0 }) s.ring;
  count = s.count + 1;
}

unfoldable pub subscriber_enqueue_locked : List ℕ → Subscriber → Subscriber
unfolding subscriber_drop_oldest place
subscriber_enqueue_locked frame s =
    if s.closed
    then s
    else place frame (if s.count == sse_queue_depth then subscriber_drop_oldest s else s)

-- `got`: there is memory for the copy.
pub subscriber_push_copy : Bool → List ℕ → Subscriber → Subscriber
unfolding subscriber_enqueue_locked
subscriber_push_copy got frame s = if got then subscriber_enqueue_locked frame s else s

-- What a read gives: bytes, 0 for a buffer that is too small, or -1. `woken` is a wait that ended by a
-- signal, after which the loop looks at the queue again.
pub data Read : Type 0 where
  bytes_read : List ℕ → Read
  too_small : Read
  ended : Read
  woken : Read

-- `f->pos += n`
unfoldable pub advance_head : ℕ → Subscriber → Subscriber
unfolding set_slot
advance_head n s =
    let f = s.ring s.head in
    record s { ring = set_slot s.head (record f { pos = f.pos + n }) s.ring }

-- The head frame is drained, as far as the buffer goes.
unfoldable pub drain : ℕ → Subscriber → Subscriber × List ℕ
unfolding free_head advance_head
drain max s =
    let f = s.ring s.head in
    let n = min (length f.data' - f.pos) max in
    (
      if f.pos + n == length f.data' then free_head s else advance_head n s,
      take n (drop f.pos f.data'),
    )

abbrev pub heartbeat_frame : List ℕ
heartbeat_frame = bytes ":heartbeat" ++ (10 ∷ 10 ∷ [])

-- `timed_out` is how a wait ends, if there is one.
unfoldable pub sse_subscriber_read : ℕ → Bool → Subscriber → Subscriber × Read
unfolding drain
sse_subscriber_read max timed_out s =
    if max == 0
    then (s, too_small)
    else if s.count == 0
    then (if s.closed
        then (s, ended)
        else if timed_out
        then (s, if ltb max (length heartbeat_frame) then too_small else bytes_read heartbeat_frame)
        else (s, woken))
    else let (s', out) = drain max s in (s', bytes_read out)

-- The broadcaster, with its subscribers in their slots.
pub record Broadcaster : Type 0 where
  pub subs : List (Option Subscriber)
  pub n_subs : ℕ
  pub cached_frame : List ℕ  -- empty if there is none
  pub shutting_down : Bool

pub push_all : (ℕ → Bool) → ℕ → List ℕ → List (Option Subscriber) → List (Option Subscriber)
unfolding subscriber_push_copy
push_all got i frame [] = []
push_all got i frame (none ∷ subs) = none ∷ push_all got (i + 1) frame subs
push_all got i frame (some s ∷ subs) =
    some (subscriber_push_copy (got i) frame s) ∷ push_all got (i + 1) frame subs

-- `broadcast_frame`; `got` tells for each slot whether its copy has memory.
pub broadcast_frame : (ℕ → Bool) → List ℕ → Broadcaster → Broadcaster
unfolding push_all
broadcast_frame got frame b = record b { subs = push_all got 0 frame b.subs }

pub sse_broadcaster_emit_cached : Bool → (ℕ → Bool) → List ℕ → List ℕ → Broadcaster → Broadcaster
unfolding format_frame broadcast_frame
sse_broadcaster_emit_cached formatted got event_type payload b =
    if formatted
    then record (broadcast_frame got (format_frame event_type payload) b) {
      cached_frame = format_frame event_type payload;
    }
    else b

pub sse_broadcaster_emit : Bool → (ℕ → Bool) → List ℕ → List ℕ → Broadcaster → Broadcaster
unfolding format_frame broadcast_frame
sse_broadcaster_emit formatted got event_type payload b =
    if formatted then broadcast_frame got (format_frame event_type payload) b else b

pub close_all : List (Option Subscriber) → List (Option Subscriber)
close_all [] = []
close_all (none ∷ subs) = none ∷ close_all subs
close_all (some s ∷ subs) = some (record s { closed = true }) ∷ close_all subs

pub sse_broadcaster_shutdown : Broadcaster → Broadcaster
unfolding close_all
sse_broadcaster_shutdown b = record b { subs = close_all b.subs; shutting_down = true }

-- The first free slot takes the subscriber; with its place.
pub take_slot : Subscriber → ℕ → List (Option Subscriber) → List (Option Subscriber) × Option ℕ
take_slot s i [] = ([], none)
take_slot s i (none ∷ subs) = (some s ∷ subs, some i)
take_slot s i (some other ∷ subs) =
    let (subs', slot) = take_slot s (i + 1) subs in (some other ∷ subs', slot)

-- A new subscriber has the cached frame, if there is one and memory for its copy.
abbrev pub primed : Bool → List ℕ → Subscriber
primed got [] = new_subscriber
primed got (c ∷ frame) = subscriber_push_copy got (c ∷ frame) new_subscriber

-- With the slot of the new subscriber; `none` is the refusal.
pub sse_broadcaster_subscribe : Bool → Bool → Broadcaster → Broadcaster × Option (Option ℕ)
unfolding take_slot subscriber_push_copy
sse_broadcaster_subscribe created got b =
    if not created
    then (b, none)
    else if b.shutting_down || leb sse_max_subscribers b.n_subs
    then (b, none)
    else let (subs', slot) = take_slot (primed got b.cached_frame) 0 b.subs in
      (record b { subs = subs'; n_subs = b.n_subs + 1 }, some slot)

pub clear_slot : ℕ → List (Option Subscriber) → List (Option Subscriber) × Bool
clear_slot i [] = ([], false)
clear_slot zero (none ∷ subs) = (none ∷ subs, false)
clear_slot zero (some s ∷ subs) = (none ∷ subs, true)
clear_slot (suc i) (sub ∷ subs) = let (subs', held) = clear_slot i subs in (sub ∷ subs', held)

-- The subscriber in a slot is closed; none can be closed twice, since it is freed.
pub sse_subscriber_close : ℕ → Broadcaster → Broadcaster
unfolding clear_slot
sse_subscriber_close slot b =
    let (subs', held) = clear_slot slot b.subs in
    if held then record b { subs = subs'; n_subs = b.n_subs - 1 } else b
