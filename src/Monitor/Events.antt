-- ===== src/Monitor/Events.antt =====
-- The events that src/monitor/monitor.c and src/monitor/fast_loop.c fire, and the reason that
-- `monitor_fire_event_with_reason` adds to the message.
use airies_ups_c.Base.{
  ℕ, String, Bool, true, false, not, ◌||◌, Option, none, some, List, ◌∷◌, ◌==◌, if◌then◌else◌,
}
use airies_ups_c.Monitor.XferRing.{xfer_reason_acceptable_input}
use airies_ups_c.Ups.Format.{ups_transfer_reason_str, ups_transfer_reason_known}

-- `message` is kept as its text; the reason is the suffix "(reason: ...)", or none.
pub record Event : Type 0 where
  pub severity : String
  pub category : String
  pub title : String
  pub reason_suffix : Option String

unfoldable pub fire_with_reason : String → String → String → ℕ → Event
unfolding ups_transfer_reason_str ups_transfer_reason_known
fire_with_reason severity category title reason = record {
  severity = severity;
  category = category;
  title = title;
  reason_suffix =
      if not (ups_transfer_reason_known reason) || reason == xfer_reason_acceptable_input
      then none
      else some (ups_transfer_reason_str reason);
}

-- `if (word & mask) fire(...)`, before the later statements.
abbrev pub fire_if : Bool → Event → List Event → List Event
fire_if true e later = e ∷ later
fire_if false e later = later
