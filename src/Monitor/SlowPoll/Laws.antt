-- ===== src/Monitor/SlowPoll/Laws.antt =====
-- What a round of the poll loop of src/monitor/monitor.c does to its state and which events it fires.
use airies_ups_c.Base.{
  ◌∷◌, if◌then◌else◌, bit_xor, false, [], ℕ, ◌≡◌, ◌↔◌, Bool, true, not, ◌&&◌, none, some, arith,
}
use airies_ups_c.Monitor.Events.{fire_with_reason}
use airies_ups_c.Base.Bits.{has-bit_and, has-bit_xor, has}
use airies_ups_c.Ups.Flags.{
  ups_st_test, ups_st_he_mode, ups_st_on_battery, ups_sig_shutdown_imminent,
}
use airies_ups_c.Ups.Data.{UpsData}
use airies_ups_c.Monitor.SlowPoll.{transitions, store, snapshot_of, poll, Monitor}
use mathlib.Core.Bool.{xor}

module _ {R : Type 0} where
  -- After a good reading the monitor holds that reading, is connected, has the status as the base of
  -- the next transitions, and its snapshot agrees with the reading; the snapshot is written
  -- exactly if it differed before.
  pub poll_stores :
      (mon : Monitor R) (data' : UpsData R) (up : Bool) (now : ℕ) (cap : Bool) (cause : ℕ)
      → let p = poll mon (some data') up now cap cause in
        (p.monitor.latest_data ≡ some data')
        × (p.monitor.connected ≡ true)
        × (p.monitor.was_connected ≡ true)
        × (p.monitor.prev_status ≡ data'.status)
        × (p.monitor.snapshot ≡ snapshot_of data')
        × ((p.saved ≡ none) ↔ (mon.snapshot ≡ snapshot_of data'))
  unfolding poll
  poll_stores mon data' up now cap cause = ground arith

  -- While the HE-mode and self-test bits stay as they were, the transition events of a poll are the
  -- "Shutdown Triggered" event alone, or nothing; and it fires exactly if the poll finds the UPS on
  -- battery with the shutdown-imminent flag and the poll before did not find it on battery. So it
  -- does not fire if the flag comes up at a later poll than the battery bit.
  pub shutdown_event :
      (mon : Monitor R) (data' : UpsData R) (cause : ℕ)
      → has mon.prev_status ups_st_he_mode ≡ has data'.status ups_st_he_mode
      → has mon.prev_status ups_st_test ≡ has data'.status ups_st_test
      → transitions (store mon data') data' cause ≡ (
          if has data'.status ups_st_on_battery
            && has data'.sig_status ups_sig_shutdown_imminent
            && not (has mon.prev_status ups_st_on_battery)
          then fire_with_reason "critical" "shutdown" "Shutdown Triggered" cause ∷ []
          else [])
  unfolding transitions xor store
  shutdown_event mon data' cause he test = ground (
    arith,
    has-bit_and 13 (bit_xor mon.prev_status data'.status) data'.status,
    has-bit_and 13 (bit_xor mon.prev_status data'.status) mon.prev_status,
    has-bit_xor 13 mon.prev_status data'.status,
    has-bit_and 7 (bit_xor mon.prev_status data'.status) data'.status,
    has-bit_and 7 (bit_xor mon.prev_status data'.status) mon.prev_status,
    has-bit_xor 7 mon.prev_status data'.status,
  )

  -- The slow loop is blind to the bits of the fast loop: if the HE-mode and self-test bits are as
  -- before and the shutdown-imminent flag is clear, it fires no transition event, whatever happened to
  -- the on-battery, output, bypass, fault and overload bits.
  pub transitions_blind :
      (mon : Monitor R) (data' : UpsData R) (cause : ℕ)
      → has mon.prev_status ups_st_he_mode ≡ has data'.status ups_st_he_mode
      → has mon.prev_status ups_st_test ≡ has data'.status ups_st_test
      → has data'.sig_status ups_sig_shutdown_imminent ≡ false
      → transitions mon data' cause ≡ []
  unfolding transitions xor
  transitions_blind mon data' cause he test sig = ground (
    arith,
    has-bit_and 13 (bit_xor mon.prev_status data'.status) data'.status,
    has-bit_and 13 (bit_xor mon.prev_status data'.status) mon.prev_status,
    has-bit_xor 13 mon.prev_status data'.status,
    has-bit_and 7 (bit_xor mon.prev_status data'.status) data'.status,
    has-bit_and 7 (bit_xor mon.prev_status data'.status) mon.prev_status,
    has-bit_xor 7 mon.prev_status data'.status,
  )
