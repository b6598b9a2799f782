-- ===== src/E2e/Profile/Freshness.antt =====
-- The freshness value: elapsed milliseconds modulo 2 ^ 16 against the timeout.
use opensomeip.Base.{ℕ, ◌-◌, ◌%◌, ◌^◌, ◌≤◌, ◌<◌, ◌≡◌, ◌↔◌, true, false, arith}
use opensomeip.Types.Laws.{mask16}
use opensomeip.E2e.Profile.{freshness_of, freshness_diff, is_stale}

freshness_of_lem : (ms : ℕ) → freshness_of ms ≡ ms % 2 ^ 16
unfolding freshness_of
freshness_of_lem ms = mask16 ms

-- The difference of two readings is the time between them, modulo 2 ^ 16.
pub freshness_diff_lem :
    (sent now : ℕ)
    → sent ≤ now
    → freshness_diff (freshness_of now) (freshness_of sent) ≡ (now - sent) % 2 ^ 16
unfolding freshness_diff
freshness_diff_lem sent now h = ground (arith, freshness_of_lem now, freshness_of_lem sent)

-- For a timeout below 2 ^ 16, a value that is checked `age` milliseconds after it was made is stale
-- exactly if the age, modulo 2 ^ 16, lies between the timeout and 65535 less the timeout.
pub is_stale_iff :
    (timeout_ms sent now : ℕ)
    → sent ≤ now
    → timeout_ms < 2 ^ 16
    → (is_stale timeout_ms (freshness_of now) (freshness_of sent) ≡ true)
      ↔ ((timeout_ms < (now - sent) % 2 ^ 16) × ((now - sent) % 2 ^ 16 < 65535 - timeout_ms))
unfolding is_stale
is_stale_iff timeout_ms sent now h fits = (
  λ e. ground (arith, freshness_diff_lem sent now h),
  λ e. ground (arith, freshness_diff_lem sent now h),
)

pub is_stale_fresh :
    (timeout_ms sent now : ℕ)
    → sent ≤ now
    → now - sent ≤ timeout_ms
    → timeout_ms < 2 ^ 16
    → is_stale timeout_ms (freshness_of now) (freshness_of sent) ≡ false
unfolding is_stale
is_stale_fresh timeout_ms sent now h young fits = ground (arith, freshness_diff_lem sent now h)

-- With a timeout from 32767 to 65535 milliseconds no value is ever found stale, however old.
pub is_stale_never :
    (timeout_ms current value : ℕ)
    → 32767 ≤ timeout_ms
    → timeout_ms < 2 ^ 16
    → is_stale timeout_ms current value ≡ false
unfolding is_stale
is_stale_never timeout_ms current value low high = ground arith
