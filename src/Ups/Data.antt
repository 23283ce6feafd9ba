-- ===== src/Ups/Data.antt =====
-- `ups_data_t` of src/ups/ups.h, the snapshot that a poll fills in. `R` is the type of doubles.
use airies_ups_c.Base.{ℕ}

pub record UpsData (R : Type 0) : Type 0 where
  pub status : ℕ  -- uint32_t
  pub transfer_reason : ℕ  -- uint16_t
  pub sig_status : ℕ  -- uint16_t
  pub general_error : ℕ  -- uint16_t
  pub power_system_error : ℕ  -- uint32_t
  pub bat_system_error : ℕ  -- uint16_t
  pub bat_test_status : ℕ  -- uint16_t
  pub bat_lifetime_status : ℕ  -- uint16_t
  pub runtime_sec : ℕ  -- uint32_t
  pub charge_pct : R
  pub battery_voltage : R
  pub load_pct : R
  pub output_current : R
  pub output_voltage : R
  pub output_frequency : R
  pub bypass_voltage : R
  pub bypass_frequency : R
  pub input_voltage : R
  pub efficiency : R
  pub efficiency_reason : ℕ  -- ups_eff_reason_t; 0 is UPS_EFF_OK
