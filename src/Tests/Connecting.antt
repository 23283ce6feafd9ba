-- ===== src/Tests/Connecting.antt =====
-- Instances for the modules about src/ups.
use airies_ups_c.Base.{◌≡◌, true, false, [], ◌∷◌}
use airies_ups_c.Base.Int.{pos}
use airies_ups_c.Ups.Connection.{ups_err_io, Connection, Driver, Answers}
use airies_ups_c.Ups.Connection.Write.{ConfigReg, scalar}
use airies_ups_c.Base.{some, List}
use airies_ups_c.Ups.Connection.{ups_ok}
use airies_ups_c.Ups.Connect.{ups_connect, DriverEntry, CmdDesc}
use airies_ups_c.Ups.Connect.Search.{some_driver, first_driver, ups_connect-verdict}

abbrev full_driver : Driver
full_driver = record { has_connect = true; has_detect = true; has_read = true }

-- The device is there, and every read fails.
abbrev failing : Answers
failing = record { connects = true; detects = true; read_rc = ups_err_io }

abbrev fresh : Connection
fresh = record { transport = true; consecutive_errors = 0; last_reconnect_attempt = 0 }

abbrev closed : Connection
closed = record { transport = false; consecutive_errors = 5; last_reconnect_attempt = 0 }

abbrev absent : Answers
absent = record { connects = false; detects = false; read_rc = ups_err_io }

abbrev delay_reg : ConfigReg
delay_reg = record { meta = scalar (pos 0) (pos 600); writable = true; copied = false }

-- The first driver opens the device and refuses it, the second claims it.
abbrev hid : DriverEntry
hid = record {
  conn_type = 1;
  has_connect = true;
  has_detect = true;
  has_disconnect = true;
  connects = true;
  detects = false;
}

abbrev claimed : List DriverEntry
claimed = hid ∷ record hid { detects = true } ∷ []

ups_connect-verdict_example :
    ((ups_connect 1 true claimed).result ≡ ups_ok) × ((ups_connect 1 true claimed).chosen ≡ some 1)
unfolding some_driver first_driver
ups_connect-verdict_example = ups_connect-verdict 1 true claimed

abbrev mute : CmdDesc
mute = record {
  name = "mute";
  flags = 2;
  is_toggle = false;
  has_execute = true;
  has_execute_off = true;
}

abbrev answering : Answers
answering = record { connects = true; detects = true; read_rc = ups_ok }
