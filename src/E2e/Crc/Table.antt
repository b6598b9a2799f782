-- ===== src/E2e/Crc/Table.antt =====
-- The table-driven CRC-32 against the bit-by-bit register.
use opensomeip.Base.{
  ℕ, zero, suc, ◌+◌, ◌*◌, ◌/◌, ◌%◌, ◌^◌, ◌<◌, bit_and, bit_xor, ◌≡◌, refl, sym, ap, ◌∙◌, inl, inr,
  arith, List, [], ◌∷◌, get_or, All,
}
use mathlib.Core.Path.{ap₂}
use opensomeip.Base.Bytes.{IsByte}
use opensomeip.Base.Bits.{bit_and_mask}
use opensomeip.Base.Xor.{xor_fields, xor_double, xor-lt, xor_assoc, xor_comm, xor_self, xor-zero}
use opensomeip.E2e.Crc.{
  shift_round, shift_rounds, crc32_poly, crc32_entry, crc32_table, crc32_table_from, crc32_loop,
}
use opensomeip.E2e.Crc.Rounds.{round_low, round_high, round-lt, register_cases, rounds-lt}
use native.Mathlib.Nat.{pow-suc, one-le-pow, mod-eq_of_lt}

swap_middle :
    (a b c d : ℕ) → bit_xor (bit_xor a b) (bit_xor c d) ≡ bit_xor (bit_xor a c) (bit_xor b d)
swap_middle a b c d =
    xor_assoc a b (bit_xor c d)
    ∙ ap (bit_xor a)
        (sym (xor_assoc b c d) ∙ ap (λ t. bit_xor t d) (xor_comm b c) ∙ xor_assoc c b d)
    ∙ sym (xor_assoc a c (bit_xor b d))

module _ (k poly : ℕ) (fits : poly < 2 ^ suc k) (odd : poly % 2 ≡ 1) where
  abbrev round : ℕ → ℕ
  round = shift_round (2 ^ suc k) poly

  high_low : (x y : ℕ) → x < 2 ^ k → y < 2 ^ k → bit_xor (2 ^ k + x) y ≡ 2 ^ k + bit_xor x y
  high_low x y hx hy =
      ap₂ bit_xor one none'
      ∙ xor_fields k 1 x 0 y hx hy
      ∙ omega (arith, ap (λ (t : ℕ). t * 2 ^ k) (xor-zero 1))
    where
      one : 2 ^ k + x ≡ 1 * 2 ^ k + x
      one = omega arith

      none' : y ≡ 0 * 2 ^ k + y
      none' = omega arith

  high_high : (x y : ℕ) → x < 2 ^ k → y < 2 ^ k → bit_xor (2 ^ k + x) (2 ^ k + y) ≡ bit_xor x y
  high_high x y hx hy =
      ap₂ bit_xor (one x) (one y)
      ∙ xor_fields k 1 x 1 y hx hy
      ∙ omega (arith, ap (λ (t : ℕ). t * 2 ^ k) (xor_self 1))
    where
      one : (t : ℕ) → 2 ^ k + t ≡ 1 * 2 ^ k + t
      one t = omega arith

  round-high_low :
      (x y : ℕ)
      → x < 2 ^ k
      → y < 2 ^ k
      → round (bit_xor (2 ^ k + x) y) ≡ bit_xor (round (2 ^ k + x)) (round y)
  round-high_low x y hx hy =
      ap round (high_low x y hx hy)
      ∙ round_high k poly fits odd (bit_xor x y) (xor-lt k x y hx hy)
      ∙ ap (λ t. bit_xor t poly) (sym (xor_double x y))
      ∙ xor_assoc (x * 2) (y * 2) poly
      ∙ ap (bit_xor (x * 2)) (xor_comm (y * 2) poly)
      ∙ sym (xor_assoc (x * 2) poly (y * 2))
      ∙ ap₂ bit_xor (sym (round_high k poly fits odd x hx)) (sym (round_low k poly fits odd y hy))

  round-xor :
      (x y : ℕ) → x < 2 ^ suc k → y < 2 ^ suc k → round (bit_xor x y) ≡ bit_xor (round x) (round y)
  round-xor x y hx hy = elim (register_cases k poly fits odd x hx) [
    | inl low ↦ elim (register_cases k poly fits odd y hy) [
      | inl low' ↦
          round_low k poly fits odd (bit_xor x y) (xor-lt k x y low low')
          ∙ sym (xor_double x y)
          ∙ ap₂ bit_xor (sym (round_low k poly fits odd x low))
              (sym (round_low k poly fits odd y low'))
      | inr (y', low', ey) ↦
          ap round (xor_comm x y)
          ∙ ap (λ t. round (bit_xor t x)) ey
          ∙ round-high_low y' x low' low
          ∙ ap (λ t. bit_xor (round t) (round x)) (sym ey)
          ∙ xor_comm (round y) (round x)
    ]
    | inr (x', low, ex) ↦ elim (register_cases k poly fits odd y hy) [
      | inl low' ↦
          ap (λ t. round (bit_xor t y)) ex
          ∙ round-high_low x' y low low'
          ∙ ap (λ t. bit_xor (round t) (round y)) (sym ex)
      | inr (y', low', ey) ↦
          ap round (ap₂ bit_xor ex ey ∙ high_high x' y' low low')
          ∙ round_low k poly fits odd (bit_xor x' y') (xor-lt k x' y' low low')
          ∙ sym (xor_double x' y')
          ∙ sym (cancel_poly (x' * 2) (y' * 2))
          ∙ ap₂ bit_xor (sym (round_high k poly fits odd x' low))
              (sym (round_high k poly fits odd y' low'))
          ∙ ap₂ bit_xor (ap round (sym ex)) (ap round (sym ey))
    ]
  ]
    where
      cancel_poly : (a b : ℕ) → bit_xor (bit_xor a poly) (bit_xor b poly) ≡ bit_xor a b
      cancel_poly a b =
          swap_middle a poly b poly ∙ ap (bit_xor (bit_xor a b)) (xor_self poly) ∙ xor-zero _

  pub rounds-xor :
      (n x y : ℕ)
      → x < 2 ^ suc k
      → y < 2 ^ suc k
      → shift_rounds (2 ^ suc k) poly n (bit_xor x y)
        ≡ bit_xor (shift_rounds (2 ^ suc k) poly n x) (shift_rounds (2 ^ suc k) poly n y)
  unfolding shift_rounds
  rounds-xor zero x y hx hy = refl
  rounds-xor (suc n) x y hx hy =
      ap (shift_rounds (2 ^ suc k) poly n) (round-xor x y hx hy)
      ∙ rounds-xor n (round x) (round y) (round-lt k poly fits odd x hx)
          (round-lt k poly fits odd y hy)

-- `get_or crc32_table i 0` is the entry of `i`.
table_from-entry : (n i j : ℕ) → j < n → get_or (crc32_table_from n i) j 0 ≡ crc32_entry (i + j)
unfolding crc32_table_from
table_from-entry zero i j h = absurd (omega arith)
table_from-entry (suc n) i zero h = ap crc32_entry (omega arith)
table_from-entry (suc n) i (suc j) h =
    table_from-entry n (i + 1) j (omega arith) ∙ ap crc32_entry (omega arith)

crc32_table_lem : crc32_table ≡ crc32_table_from 256 0
unfolding crc32_table
crc32_table_lem = refl

table-entry : (i : ℕ) → i < 256 → get_or crc32_table i 0 ≡ crc32_entry i
table-entry i h =
    ap (λ t. get_or t i 0) crc32_table_lem
    ∙ table_from-entry 256 0 i h
    ∙ ap crc32_entry (omega arith)

-- Rounds that meet no top bit only shift.
rounds_low :
    (k poly : ℕ)
    → poly < 2 ^ suc k
    → poly % 2 ≡ 1
    → (n x : ℕ) → x * 2 ^ n < 2 ^ suc k
    → shift_rounds (2 ^ suc k) poly n x ≡ x * 2 ^ n
unfolding shift_rounds
rounds_low k poly fits odd zero x h = omega arith
rounds_low k poly fits odd (suc n) x h =
    ap (shift_rounds (2 ^ suc k) poly n)
      (round_low k poly fits odd x (grind (arith, shifted, pow-suc 2 k, one-le-pow n 2)))
    ∙ rounds_low k poly fits odd n (x * 2) (omega (arith, shifted))
    ∙ sym shifted
  where
    shifted : x * 2 ^ suc n ≡ x * 2 * 2 ^ n
    shifted = omega (arith, ap (λ (p : ℕ). x * p) (pow-suc 2 n))

-- The bit-by-bit register: the byte is added at the top, and eight rounds follow.
unfoldable pub register : ℕ → List ℕ → ℕ
register crc [] = crc
register crc (byte ∷ rest) =
    register (shift_rounds (2 ^ 32) crc32_poly 8 (bit_xor crc (byte * 2 ^ 24))) rest

split_register :
    (crc byte : ℕ)
    → bit_xor crc (byte * 2 ^ 24) ≡ bit_xor (bit_xor (crc / 2 ^ 24) byte * 2 ^ 24) (crc % 2 ^ 24)
split_register crc byte =
    ap₂ bit_xor parts bare
    ∙ xor_fields 24 (crc / 2 ^ 24) (crc % 2 ^ 24) byte 0 (omega arith) (omega arith)
    ∙ omega (arith, xor-zero (crc % 2 ^ 24))
    ∙ sym (
        xor_fields 24 (bit_xor (crc / 2 ^ 24) byte) 0 0 (crc % 2 ^ 24) (omega arith) (omega arith)
        ∙ ends)
    ∙ ap₂ bit_xor whole low
  where
    parts : crc ≡ crc / 2 ^ 24 * 2 ^ 24 + crc % 2 ^ 24
    parts = omega arith

    bare : byte * 2 ^ 24 ≡ byte * 2 ^ 24 + 0
    bare = omega arith

    ends :
        bit_xor (bit_xor (crc / 2 ^ 24) byte) 0 * 2 ^ 24 + bit_xor 0 (crc % 2 ^ 24)
        ≡ bit_xor (crc / 2 ^ 24) byte * 2 ^ 24 + crc % 2 ^ 24
    ends = omega (
      arith,
      xor-zero (bit_xor (crc / 2 ^ 24) byte),
      xor_comm 0 (crc % 2 ^ 24),
      xor-zero (crc % 2 ^ 24),
    )

    whole : bit_xor (crc / 2 ^ 24) byte * 2 ^ 24 + 0 ≡ bit_xor (crc / 2 ^ 24) byte * 2 ^ 24
    whole = omega arith

    low : 0 * 2 ^ 24 + crc % 2 ^ 24 ≡ crc % 2 ^ 24
    low = omega arith

entry_rounds : (i : ℕ) → i < 256 → crc32_entry i ≡ shift_rounds (2 ^ 32) crc32_poly 8 (i * 2 ^ 24)
unfolding crc32_entry
entry_rounds i h = ap (shift_rounds (2 ^ 32) crc32_poly 8) (mod-eq_of_lt (omega arith))

table_step :
    (crc byte : ℕ)
    → crc < 2 ^ 32
    → byte < 256
    → bit_xor
        (crc * 2 ^ 8 % 2 ^ 32)
        (get_or crc32_table (bit_and (bit_xor (crc / 2 ^ 24) byte) 0xff) 0)
      ≡ shift_rounds (2 ^ 32) crc32_poly 8 (bit_xor crc (byte * 2 ^ 24))
table_step crc byte hc hb =
    ap₂ bit_xor shifted looked_up
    ∙ xor_comm (shift_rounds (2 ^ 32) crc32_poly 8 (crc % 2 ^ 24))
        (shift_rounds (2 ^ 32) crc32_poly 8 (index * 2 ^ 24))
    ∙ sym (
        rounds-xor 31 crc32_poly (omega arith) refl 8 (index * 2 ^ 24) (crc % 2 ^ 24)
          (omega (arith, narrow)) (omega arith))
    ∙ ap (shift_rounds (2 ^ 32) crc32_poly 8) (sym (split_register crc byte))
  where
    index : ℕ
    index = bit_xor (crc / 2 ^ 24) byte

    narrow : index < 256
    narrow = xor-lt 8 (crc / 2 ^ 24) byte (omega arith) hb

    shifted : crc * 2 ^ 8 % 2 ^ 32 ≡ shift_rounds (2 ^ 32) crc32_poly 8 (crc % 2 ^ 24)
    shifted =
        omega (arith, rounds_low 31 crc32_poly (omega arith) refl 8 (crc % 2 ^ 24) (omega arith))

    looked_up :
        get_or crc32_table (bit_and index 0xff) 0
        ≡ shift_rounds (2 ^ 32) crc32_poly 8 (index * 2 ^ 24)
    looked_up =
        ap (λ i. get_or crc32_table i 0) (bit_and_mask 8 index ∙ mod-eq_of_lt narrow)
        ∙ table-entry index narrow
        ∙ entry_rounds index narrow

-- The look-up in the table computes the bit-by-bit register, from any start and on any bytes.
pub crc32_loop-register :
    (crc : ℕ) (bytes : List ℕ)
    → crc < 2 ^ 32
    → All IsByte bytes
    → crc32_loop crc bytes ≡ register crc bytes
unfolding crc32_loop register
crc32_loop-register crc [] hc h = refl
crc32_loop-register crc (byte ∷ rest) hc h =
    ap (λ c. crc32_loop c rest) (table_step crc byte hc h.0)
    ∙ crc32_loop-register (shift_rounds (2 ^ 32) crc32_poly 8 (bit_xor crc (byte * 2 ^ 24))) rest
        (rounds-lt 31 crc32_poly (omega arith) refl 8 (bit_xor crc (byte * 2 ^ 24))
          (xor-lt 32 crc (byte * 2 ^ 24) hc (omega (arith, h.0))))
        h.1
