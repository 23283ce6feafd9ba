-- ===== src/Tests/Registering.antt =====
-- Instances for the registers and src/api/routes/config.c and auth_routes.c.
use airies_ups_c.Base.{
  ℕ, ◌+◌, ◌≡◌, ◌++◌, refl, Bool, true, false, Option, none, some, List, [], ◌∷◌, arith, inl, inr,
  replicate, length, if◌then◌else◌,
}
use airies_ups_c.Base.Int.{pos, negsuc}
use airies_ups_c.Base.Text.{bytes}
use airies_ups_c.Auth.{same_text, is_public, Request, auth_check, strip_bearer, public_endpoints}
use airies_ups_c.Auth.Access.{Listed, Listed-is_public}
use airies_ups_c.Auth.Revocation.{apply_all, create}
use airies_ups_c.Http.Cookies.{api_cookie_set}
use airies_ups_c.Http.Login.{AuthDb, Outside, fields, handle_auth_login, handle_auth_logout}
use airies_ups_c.Http.Login.Access.{login_lets_in, logout_shuts_out}
use airies_ups_c.Http.Settings.{Target, set_to, answered, is_threshold, handle_config_ups_set}
use airies_ups_c.Http.Settings.Written.{Reached, set-Reached, offline_reported}
use airies_ups_c.Ups.Blocks.{StatusBlock, smt_read_status, srt_read_status}
use airies_ups_c.Ups.Blocks.Snapshot.{status_registers, status_comes_back}
use airies_ups_c.Ups.Connection.{ups_ensure_transport}
use airies_ups_c.Ups.Connection.Write.{ups_config_write, validate}
use airies_ups_c.Ups.Registers.{Descriptor, reg, config, cfg_scalar, ups_find_config_reg}
use airies_ups_c.Ups.Smt.Table.{smt_config_regs}

abbrev target : Bool → Target
target open_port = record {
  regs = smt_config_regs;
  resolved = true;
  driver = record { has_connect = true; has_detect = true; has_read = true };
  answers = record { connects = false; detects = false; read_rc = pos 0 };
  now = 1000;
  connection = record {
    transport = open_port;
    consecutive_errors = 0;
    last_reconnect_attempt = 990;
  };
  has_config_write = true;
  readback = if open_port then some 127 else none;
}

set-Reached_example :
    (name : List ℕ) × (value : ℕ) × (set_to (bytes "transfer_high") 127 ≡ set_to name value)
    × Reached (target true) name value 127
set-Reached_example =
    set-Reached (target true) (set_to (bytes "transfer_high") 127) 127 (inl (λ d i. i)) (
      unfold handle_config_ups_set ups_find_config_reg ups_config_write ups_ensure_transport in
      refl)

-- The delay is set to 0 while the port is closed and the next try of it is not due.
abbrev delay : Descriptor
delay =
    reg "mog_turn_on_delay" "MOG Turn On Countdown" (some "s") "outlet_delays" 1030 1 1 true config
      none (cfg_scalar 0 32767)

offline_reported_example :
    handle_config_ups_set (some (target false)) (set_to (bytes "mog_turn_on_delay") 0)
    ≡ (answered true delay 0 (is_threshold delay), none)
offline_reported_example =
    offline_reported (target false) (bytes "mog_turn_on_delay") delay
      (unfold ups_find_config_reg in refl) refl refl (unfold validate in refl)
      (unfold ups_ensure_transport airies_ups_c.Base.Int.◌-ℤ◌ in refl) refl

abbrev cut : List ℕ
cut = replicate 26 0

abbrev status : StatusBlock
status = record {
  status = 139266;
  transfer_reason = 1;
  outlet_mog = 65537;
  outlet_sog0 = 2;
  outlet_sog1 = 0;
  sig_status = 4;
  general_error = 0;
  power_system_error = 4294967295;
  bat_system_error = 0;
  bat_test_status = 5;
  rt_cal_status = 0;
  bat_lifetime_status = 2;
  ui_status = 1;
}

abbrev spares : ℕ → ℕ
spares i = 7 + i

status_comes_back_example :
    (smt_read_status (some (status_registers spares status)) ≡ some status)
    × (srt_read_status (some (status_registers spares status)) ≡ some status)
    × (smt_read_status (some cut) ≡ none)
    × (srt_read_status (some cut) ≡ none)
status_comes_back_example = status_comes_back spares status cut (λ whole. omega (arith, whole))

abbrev outside : Outside
outside = record {
  db_ok = true;
  write_ok = true;
  verify = λ given hash. same_text given hash;
  hashed = none;
  token = bytes "5f3a";
  now = 100;
  cookie_secure = true;
}

abbrev db : AuthDb
db = record { stored = some (bytes "secret"); sessions = [] }

-- A request with the token of the login in the header.
abbrev bearer : Request
bearer = record {
  url = bytes "/api/config/ups";
  is_local = false;
  auth_token = bytes "Bearer 5f3a";
  cookie = [];
}

login_lets_in_example :
    ((auth_check true true true 200 bearer
        (handle_auth_login outside (fields (bytes "secret")) db).1.stored
        (handle_auth_login outside (fields (bytes "secret")) db).1.sessions).1
      ≡ true)
    × ((handle_auth_login outside (fields (bytes "secret")) db).0.set_cookie
        ≡ api_cookie_set (some (bytes "auth")) (some (bytes "5f3a")) 7776000 true)
login_lets_in_example =
    login_lets_in outside (bytes "secret") db true true 200 bearer
      (unfold handle_auth_login same_text in refl) (unfold strip_bearer in refl) (omega arith)
      (omega arith)

other_url : ¬ Listed (bytes "/api/config/ups") public_endpoints
unfolding is_public
other_url h = let public = Listed-is_public (bytes "/api/config/ups") public_endpoints h in cc

-- The session of the header is logged out, another one is made, and the first is tried as a cookie.
logout_shuts_out_example :
    (auth_check true true true 200
      (record bearer { auth_token = []; cookie = bytes "Bearer 5f3a" })
      (some (bytes "secret"))
      (apply_all
        ((150, create true (bytes "77aa") 1) ∷ [])
        (handle_auth_logout outside
          (bytes "Bearer 5f3a")
          []
          (handle_auth_login outside (fields (bytes "secret")) db).1).1.sessions)).1
    ≡ false
logout_shuts_out_example =
    logout_shuts_out outside (bytes "Bearer 5f3a") []
      (handle_auth_login outside (fields (bytes "secret")) db).1
      ((150, create true (bytes "77aa") 1) ∷ []) true true true 200
      (record bearer { auth_token = []; cookie = bytes "Bearer 5f3a" }) (bytes "secret") refl refl
      (unfold strip_bearer same_text in (omega arith, refl, tt)) refl other_url
