-- ===== src/E2e/Crc/Rounds.antt =====
-- One round of the shift register, at every width and for every odd polynomial of that width.
use opensomeip.Base.{
  ℕ, zero, suc, ◌+◌, ◌-◌, ◌*◌, ◌/◌, ◌%◌, ◌^◌, ◌<◌, bit_xor, ◌≡◌, sym, ap, ◌∙◌, ne→==, Bool-cases,
  ltb, ltb→lt, ◌⊎◌, inl, inr, arith,
}
use mathlib.Core.Path.{ap₂}
use opensomeip.Base.Bits.{bit_and_top}
use opensomeip.Base.Xor.{xor_parity, xor_fields, xor-lt, xor-zero, xor_right_injective}
use opensomeip.E2e.Crc.{shift_round, shift_rounds}
use native.Mathlib.Nat.{pow-suc, one-le-pow, mod-eq_of_lt}

mod_wrap : (x n : ℕ) → x < n → (x + n) % n ≡ x
mod_wrap x n h = grind arith

-- `k + 1` is the width, so `2 ^ k` is the top bit.
module _ (k poly : ℕ) (fits : poly < 2 ^ suc k) (odd : poly % 2 ≡ 1) where
  abbrev round : ℕ → ℕ
  round = shift_round (2 ^ suc k) poly

  top_half : 2 ^ suc k / 2 ≡ 2 ^ k
  top_half = omega (arith, pow-suc 2 k)

  two_tops : 2 ^ suc k ≡ 2 ^ k + 2 ^ k
  two_tops = omega (arith, pow-suc 2 k)

  pub round_low : (x : ℕ) → x < 2 ^ k → round x ≡ x * 2
  unfolding shift_round
  round_low x low =
      rw (top_half, (bit_and_top k x (omega (arith, two_tops))).0 low)
        (mod-eq_of_lt (omega (arith, two_tops)))

  -- The top bit leaves the register.
  carried : (x : ℕ) → x < 2 ^ k → bit_xor ((2 ^ k + x) * 2) poly % 2 ^ suc k ≡ bit_xor (x * 2) poly
  carried x low = ap (λ t. t % 2 ^ suc k) split ∙ mod_wrap _ _ narrow
    where
      narrow : bit_xor (x * 2) poly < 2 ^ suc k
      narrow = xor-lt (suc k) (x * 2) poly (omega (arith, two_tops)) fits

      shifted : (2 ^ k + x) * 2 ≡ 1 * 2 ^ suc k + x * 2
      shifted = omega (arith, two_tops)

      kept : poly ≡ 0 * 2 ^ suc k + poly
      kept = omega arith

      split : bit_xor ((2 ^ k + x) * 2) poly ≡ bit_xor (x * 2) poly + 2 ^ suc k
      split =
          ap₂ bit_xor shifted kept
          ∙ xor_fields (suc k) 1 (x * 2) 0 poly (omega (arith, two_tops)) fits
          ∙ omega (arith, xor-zero 1, ap (λ (t : ℕ). t * 2 ^ suc k) (xor-zero 1))

  pub round_high : (x : ℕ) → x < 2 ^ k → round (2 ^ k + x) ≡ bit_xor (x * 2) poly
  unfolding shift_round
  round_high x low =
      rw
        (
          top_half,
          (bit_and_top k (2 ^ k + x) (omega (arith, two_tops))).1 (omega arith),
          ne→== (2 ^ k) 0 (λ e. absurd (omega (arith, one-le-pow k 2))),
        )
        (carried x low)

  -- A register is a low one, or a low one with the top bit set.
  pub register_cases :
      (x : ℕ) → x < 2 ^ suc k → (x < 2 ^ k) ⊎ ((y : ℕ) × (y < 2 ^ k) × (x ≡ 2 ^ k + y))
  register_cases x h = elim (Bool-cases (ltb x (2 ^ k))) [
    | inl low ↦ inl (ltb→lt _ _ low)
    | inr high ↦ inr (x - 2 ^ k, ground (arith, two_tops), ground (arith, two_tops))
  ]

  pub round-lt : (x : ℕ) → x < 2 ^ suc k → round x < 2 ^ suc k
  round-lt x h = elim (register_cases x h) [
    | inl low ↦ omega (arith, round_low x low, two_tops)
    | inr (y, low, e) ↦ omega (
      arith,
      ap round e,
      round_high y low,
      xor-lt (suc k) (y * 2) poly (omega (arith, two_tops)) fits,
    )
  ]

  odd_high : (y : ℕ) → y < 2 ^ k → round (2 ^ k + y) % 2 ≡ 1
  odd_high y low = omega (arith, round_high y low, xor_parity (y * 2) poly)

  -- The lowest bit of the result tells the top bit of the register, so nothing is lost.
  round-injective : (x y : ℕ) → x < 2 ^ suc k → y < 2 ^ suc k → round x ≡ round y → x ≡ y
  round-injective x y hx hy e = elim (register_cases x hx) [
    | inl low ↦ elim (register_cases y hy) [
      | inl low' ↦ omega (arith, round_low x low, round_low y low')
      | inr (y', low', ey) ↦ absurd (omega (arith, round_low x low, odd_high y' low', ap round ey))
    ]
    | inr (x', low, ex) ↦ elim (register_cases y hy) [
      | inl low' ↦ absurd (omega (arith, round_low y low', odd_high x' low, ap round ex))
      | inr (y', low', ey) ↦ omega (
        arith,
        xor_right_injective (x' * 2) (y' * 2) poly
            (sym (round_high x' low) ∙ sym (ap round ex) ∙ e ∙ ap round ey ∙ round_high y' low'),
      )
    ]
  ]

  pub rounds-lt : (n x : ℕ) → x < 2 ^ suc k → shift_rounds (2 ^ suc k) poly n x < 2 ^ suc k
  unfolding shift_rounds
  rounds-lt zero x h = h
  rounds-lt (suc n) x h = rounds-lt n (round x) (round-lt x h)

  pub rounds-injective :
      (n x y : ℕ)
      → x < 2 ^ suc k
      → y < 2 ^ suc k
      → shift_rounds (2 ^ suc k) poly n x ≡ shift_rounds (2 ^ suc k) poly n y
      → x ≡ y
  unfolding shift_rounds
  rounds-injective zero x y hx hy e = e
  rounds-injective (suc n) x y hx hy e =
      round-injective x y hx hy
        (rounds-injective n (round x) (round y) (round-lt x hx) (round-lt y hy) e)
