-- ===== src/E2e/Profile/Counter.antt =====
-- The sequence counter of a sender, and what a receiver makes of it.
use opensomeip.Base.{ℕ, ◌-◌, ◌^◌, ◌≤◌, ◌<◌, ◌≡◌, refl, true, false, arith}
use opensomeip.E2e.Profile.{next_counter, counter_valid, updated_counter}

-- A sender's counter stays from 1 to the maximum, if that is below 2 ^ 32 - 1.
pub next_counter_range :
    (max last : ℕ)
    → 1 ≤ max
    → max < 2 ^ 32 - 1
    → last ≤ max
    → (1 ≤ next_counter max last) × (next_counter max last ≤ max)
unfolding next_counter
next_counter_range max last pos fits h = ground arith

-- At the default maximum the counter does not roll over to 1 but to 0, which stands for no message.
pub next_counter_wraps : next_counter 0xffffffff 0xffffffff ≡ 0
unfolding next_counter
next_counter_wraps = refl

pub next_counter-pos : (max last : ℕ) → last < 2 ^ 32 - 1 → 1 ≤ next_counter max last
unfolding next_counter
next_counter-pos max last h = ground arith

-- A lower counter is refused while the last one is not within ten of the maximum.
pub counter_valid_replay :
    (max last counter : ℕ)
    → 10 ≤ max
    → max < 2 ^ 32
    → last ≤ max - 10
    → counter < last
    → counter_valid max last counter ≡ false
unfolding counter_valid
counter_valid_replay max last counter ten fits far low = ground arith

pub counter_valid_self : (max last : ℕ) → 1 ≤ last → counter_valid max last last ≡ true
unfolding counter_valid
counter_valid_self max last pos = ground arith

-- An accepted counter becomes the last one.
pub updated_counter-valid :
    (max last counter : ℕ)
    → 10 ≤ max
    → max < 2 ^ 32
    → counter_valid max last counter ≡ true
    → updated_counter max last counter ≡ counter
unfolding counter_valid updated_counter
updated_counter-valid max last counter ten fits ok = ground arith
