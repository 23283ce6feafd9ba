-- ===== src/Tests/Commanding.antt =====
-- Instances for src/api/routes/routes.c.
use airies_ups_c.Base.{◌+◌, ◌≡◌, refl, true, false, none, some, [], ◌∷◌, map}
use airies_ups_c.Base.Int.{pos}
use airies_ups_c.Base.Text.{bytes}
use airies_ups_c.Http.Commands.{Device, StartOutcome, action, started, run_command, handle_cmd}
use airies_ups_c.Http.Commands.Run.{AnswerMeans, handle_cmd_means}
use airies_ups_c.Http.StatusPage.{Extra, Inputs}
use airies_ups_c.Shutdown.Async.Steps.{created}
use airies_ups_c.Tests.Stopping.{whole, on_battery}
use airies_ups_c.Ups.Connect.{ups_find_command, ups_cmd_execute}
use airies_ups_c.Ups.Connection.{ups_ensure_transport}
use airies_ups_c.Ups.Exchange.{srt_commands, cmd_desc}

abbrev srt : Device
srt = record {
  driver = record { has_connect = true; has_detect = true; has_read = true };
  answers = record { connects = true; detects = true; read_rc = pos 0 };
  now = 1000;
  connection = record { transport = true; consecutive_errors = 0; last_reconnect_attempt = 0 };
  commands = map cmd_desc srt_commands;
}

abbrev outcome : StartOutcome
outcome = record { got = true; spawned = true; at_start = 1000; at_failure = 1000 }

-- The bypass is switched off.
handle_cmd_means_example :
    AnswerMeans srt
      (some created.mgr)
      (action "bypass" none (some true))
      (handle_cmd outcome (some srt) (some created.mgr) (action "bypass" none (some true)))
      (handle_cmd outcome (some srt) (some created.mgr) (action "bypass" none (some true))).answer
handle_cmd_means_example =
    handle_cmd_means outcome srt (some created.mgr) (action "bypass" none (some true))

bypass_off :
    (handle_cmd outcome (some srt) (some created.mgr) (action "bypass" none (some true))).called
    ≡ some (
      cmd_desc (record {
        name = "bypass";
        flags = 0;
        is_toggle = true;
        execute = (1536, 0x0000 ∷ 0x0010 ∷ []);
        execute_off = some (1536, 0x0000 ∷ 0x0020 ∷ []);
      }),
      true,
    )
unfolding handle_cmd run_command ups_find_command ups_cmd_execute ups_ensure_transport
bypass_off = refl

dry_start :
    (handle_cmd outcome
      (some srt)
      (some created.mgr)
      (action "shutdown_workflow" (some true) none)).answer
    ≡ started true 1
unfolding handle_cmd
dry_start = refl

abbrev page_extra : Extra
page_extra = record {
  outlet_mog = 1;
  outlet_sog0 = 1;
  outlet_sog1 = 0;
  output_energy_wh = 70000;
  bypass_status = 0;
  input_status = 2;
  rt_cal_status = 0;
  timer_shutdown = pos 0;
  timer_start = pos 0;
  timer_reboot = pos 0;
}

abbrev page : Inputs whole
page = record {
  ups_name = some (bytes "rack");
  has_ups = true;
  driver_name = bytes "srt";
  connected = true;
  topology = 0;
  inventory = record {
    model = bytes "SRT1500";
    sku = [];
    serial = [];
    firmware = [];
    nominal_va = 1500;
    nominal_watts = 1350;
    sog_config = 0;
  };
  status = some (on_battery 300, page_extra);
  voltage_high = pos 140;
  voltage_low = pos 90;
  transfer_high = 127;
  transfer_low = 106;
  warn_offset = pos 5;
  inhibited = false;
  inhibit_source = [];
  caps = 1 + 256;
}
