-- ===== src/Ups/Connection.antt =====
-- The error recovery and the read dispatch of src/ups/ups.c. A transport is open or not; the driver's
-- answers and the clock are arguments. Return codes are C's: 0, or a negative number.
pub mod Recovery
pub mod Write
use airies_ups_c.Base.{ℕ, ◌+◌, Bool, true, false, not, ◌&&◌, leb, ◌==◌, if◌then◌else◌}
use airies_ups_c.Base.Int.{pos_part, neg_part, ◌-ℤ◌, ltb_ℤ, ℤ, pos, negsuc}

abbrev pub ups_ok : ℤ
ups_ok = pos 0

-- -1, -3 and -4
abbrev pub ups_err_io : ℤ
ups_err_io = negsuc 0

abbrev pub ups_err_not_supported : ℤ
ups_err_not_supported = negsuc 2

abbrev pub ups_err_invalid_value : ℤ
ups_err_invalid_value = negsuc 3

abbrev pub max_consecutive_errors : ℕ
max_consecutive_errors = 5

abbrev pub reconnect_interval_sec : ℕ
reconnect_interval_sec = 2

-- The fields of `ups_t` that recovery reads or changes.
pub record Connection : Type 0 where
  pub transport : Bool
  pub consecutive_errors : ℕ
  pub last_reconnect_attempt : ℕ  -- time_t

-- What the driver implements.
pub record Driver : Type 0 where
  pub has_connect : Bool
  pub has_detect : Bool
  pub has_read : Bool

-- What the driver answers if it is called: `connect` gave a transport, `detect` claimed the device,
-- and the code of the read.
pub record Answers : Type 0 where
  pub connects : Bool
  pub detects : Bool
  pub read_rc : ℤ

abbrev pub is_ok : ℤ → Bool
is_ok z = pos_part z == 0 && neg_part z == 0

pub ups_clear_errors : Connection → Connection
ups_clear_errors c = record c { consecutive_errors = 0 }

-- With the connection: whether the driver's `connect` was called.
unfoldable pub ups_try_reconnect : Driver → Answers → ℕ → Connection → Connection × Bool
ups_try_reconnect drv ans now c =
    if c.transport
    then (c, false)
    else if not drv.has_connect
    then (c, false)
    else if ltb_ℤ (pos now -ℤ pos c.last_reconnect_attempt) (pos reconnect_interval_sec)
    then (c, false)
    else if not ans.connects
    then (record c { last_reconnect_attempt = now }, true)
    else if drv.has_detect && not ans.detects
    then (record c { last_reconnect_attempt = now }, true)
    else (record { transport = true; consecutive_errors = 0; last_reconnect_attempt = now }, true)

pub ups_handle_error : Connection → Connection
ups_handle_error c =
    if leb max_consecutive_errors (c.consecutive_errors + 1)
    then record {
      transport = false;
      consecutive_errors = c.consecutive_errors + 1;
      last_reconnect_attempt = 0;
    }
    else record c { consecutive_errors = c.consecutive_errors + 1 }

unfoldable pub ups_ensure_transport : Driver → Answers → ℕ → Connection → Connection
unfolding ups_try_reconnect
ups_ensure_transport drv ans now c = if c.transport then c else (ups_try_reconnect drv ans now c).0

-- `ups_read_status`, and with it `ups_read_transfer_reason` and the locked part of
-- `ups_read_dynamic`, which differ in the driver's function alone.
pub ups_read : Driver → Answers → ℕ → Connection → Connection × ℤ
unfolding ups_ensure_transport ups_handle_error ups_clear_errors
ups_read drv ans now c =
    if not drv.has_read
    then (c, ups_err_not_supported)
    else let c' = ups_ensure_transport drv ans now c in
      if not c'.transport
      then (c', ups_err_io)
      else if is_ok ans.read_rc
      then (ups_clear_errors c', ans.read_rc)
      else (ups_handle_error c', ans.read_rc)
