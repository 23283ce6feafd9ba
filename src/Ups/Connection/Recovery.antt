-- ===== src/Ups/Connection/Recovery.antt =====
-- The recovery layer of src/ups/ups.c over sequences of reads.
use airies_ups_c.Base.{
  refl, dec_lt, ltb, ℕ, ◌+◌, ◌≤◌, ◌<◌, ◌≡◌, true, false, List, [], ◌∷◌, arith, length,
}
use airies_ups_c.Base.Int.{◌-ℤ◌}
use airies_ups_c.Ups.Connection.{is_ok, ups_try_reconnect, ups_read, Connection, Driver, Answers}

-- An open transport has seen fewer failures in a row than close it.
abbrev pub IsHealthy : Connection → Type 0
IsHealthy c = c.transport ≡ true → c.consecutive_errors < 5

-- A read keeps a connection healthy, whatever the driver answers.
pub ups_read-IsHealthy :
    (drv : Driver) (ans : Answers) (now : ℕ) (c : Connection)
    → IsHealthy c
    → IsHealthy (ups_read drv ans now c).0
unfolding ups_read ups_try_reconnect ◌-ℤ◌
ups_read-IsHealthy drv ans now c h = ground arith

-- The failing reads at the given times, the driver's `read` failing at each.
unfoldable pub fail_all : Driver → Answers → List ℕ → Connection → Connection
fail_all drv ans [] c = c
fail_all drv ans (now ∷ times) c = fail_all drv ans times (ups_read drv ans now c).0

fail_once :
    (drv : Driver) (ans : Answers) (now : ℕ) (c : Connection)
    → drv.has_read ≡ true
    → is_ok ans.read_rc ≡ false
    → c.transport ≡ true
    → c.consecutive_errors + 1 < 5
    → ((ups_read drv ans now c).0.transport ≡ true)
      × ((ups_read drv ans now c).0.consecutive_errors ≡ c.consecutive_errors + 1)
unfolding ups_read
fail_once drv ans now c r f t lt = ground arith

fail_last :
    (drv : Driver) (ans : Answers) (now : ℕ) (c : Connection)
    → drv.has_read ≡ true
    → is_ok ans.read_rc ≡ false
    → c.transport ≡ true
    → 5 ≤ c.consecutive_errors + 1
    → ((ups_read drv ans now c).0.transport ≡ false)
      × ((ups_read drv ans now c).0.last_reconnect_attempt ≡ 0)
unfolding ups_read
fail_last drv ans now c r f t le = ground arith

fail_all_none :
    (drv : Driver) (ans : Answers) (times : List ℕ) (c : Connection)
    → length times ≡ 0
    → fail_all drv ans times c ≡ c
unfolding fail_all
fail_all_none drv ans [] c e = refl
fail_all_none drv ans (now ∷ times) c e = absurd (omega arith)

-- Failures in a row leave an open transport open as long as there are fewer than five of them in
-- all, and the one that makes five closes it.
pub fail_all_closes :
    (drv : Driver) (ans : Answers) (times : List ℕ) (c : Connection)
    → drv.has_read ≡ true
    → is_ok ans.read_rc ≡ false
    → c.transport ≡ true
    → c.consecutive_errors < 5
    → c.consecutive_errors + length times ≤ 5
    → (fail_all drv ans times c).transport ≡ ltb (c.consecutive_errors + length times) 5
unfolding fail_all
fail_all_closes drv ans [] c r f t lt le = ground arith
fail_all_closes drv ans (now ∷ times) c r f t lt le = elim (dec_lt (c.consecutive_errors + 1) 5) [
  | yes p ↦ ground (
    arith,
    fail_once drv ans now c r f t p,
    fail_all_closes drv ans times (ups_read drv ans now c).0 r f,
  )
  | no p ↦ ground (
    arith,
    fail_last drv ans now c r f t (omega arith),
    fail_all_none drv ans times (ups_read drv ans now c).0,
  )
]

-- An attempt to reconnect is made only with the transport closed, and leaves its time behind, so that
-- no other is made before two seconds have passed.
pub reconnect_rate :
    (drv : Driver) (ans later : Answers) (now soon : ℕ) (c : Connection)
    → (ups_try_reconnect drv ans now c).1 ≡ true
    → soon < now + 2
    → (c.transport ≡ false)
      × ((ups_try_reconnect drv later soon (ups_try_reconnect drv ans now c).0).1 ≡ false)
unfolding ups_try_reconnect ◌-ℤ◌
reconnect_rate drv ans later now soon c made h = ground arith
