-- ===== src/Monitor/XferRing.antt =====
-- The transfer-reason ring of src/monitor/xfer_ring.c: a fixed array of 16 events, the index of
-- the next write, the number of valid events, and the last reading for change detection.
pub mod Contents
pub mod Cause
use airies_ups_c.Base.{
  ℕ, zero, suc, ◌+◌, ◌-◌, ◌%◌, List, Bool, true, false, ◌&&◌, ltb, ◌==◌, if◌then◌else◌, get_or, set,
  replicate,
}
use airies_ups_c.Ups.Flags.{ups_transfer_reason_unknown}

abbrev pub xfer_ring_size : ℕ
xfer_ring_size = 16

abbrev pub xfer_reason_acceptable_input : ℕ
xfer_reason_acceptable_input = 8

pub record XferEvent : Type 0 where
  pub timestamp_ms : ℕ  -- uint64_t
  pub reason : ℕ  -- uint16_t

pub record XferRing : Type 0 where
  pub entries : List XferEvent
  pub head : ℕ  -- size_t
  pub count : ℕ  -- size_t
  pub last_seen : ℕ  -- uint16_t
  pub last_seen_valid : Bool

abbrev pub zero_event : XferEvent
zero_event = record { timestamp_ms = 0; reason = 0 }

-- `memset` to zero
unfoldable pub init : XferRing
init = record {
  entries = replicate xfer_ring_size zero_event;
  head = 0;
  count = 0;
  last_seen = 0;
  last_seen_valid = false;
}

-- The result beside the ring is the function's 1 or 0.
unfoldable pub push : XferRing → ℕ → ℕ → XferRing × Bool
push ring now_ms reason =
    if ring.last_seen_valid && reason == ring.last_seen then (ring, false) else (
      record {
        entries = set ring.entries ring.head (record { timestamp_ms = now_ms; reason = reason });
        head = (ring.head + 1) % xfer_ring_size;
        count = if ltb ring.count xfer_ring_size then ring.count + 1 else ring.count;
        last_seen = reason;
        last_seen_valid = true;
      },
      true,
    )

-- The loop's `best` and `best_ts`.
pub record Best : Type 0 where
  pub best : ℕ
  pub best_ts : ℕ

-- The body of the loop, its two `continue`s first.
pub look : ℕ → XferEvent → Best → Best
look cutoff e b =
    if ltb e.timestamp_ms cutoff
    then b
    else if e.reason == xfer_reason_acceptable_input
    then b
    else if ltb b.best_ts e.timestamp_ms
    then record { best = e.reason; best_ts = e.timestamp_ms }
    else b

-- The loop from index `i`, with `left` rounds to go.
pub scan : List XferEvent → ℕ → ℕ → ℕ → Best → Best
scan entries cutoff zero i b = b
scan entries cutoff (suc left) i b =
    scan entries cutoff left (i + 1) (look cutoff (get_or entries i zero_event) b)

pub cutoff_of : ℕ → ℕ → ℕ
cutoff_of now_ms lookback_ms = if ltb lookback_ms now_ms then now_ms - lookback_ms else 0

unfoldable pub recent_cause : XferRing → ℕ → ℕ → ℕ
unfolding look scan cutoff_of
recent_cause ring now_ms lookback_ms =
    (scan ring.entries (cutoff_of now_ms lookback_ms) ring.count 0
      (record { best = ups_transfer_reason_unknown; best_ts = 0 })).best
