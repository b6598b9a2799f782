-- ===== src/Base/Bits.antt =====
-- `|` of disjoint fields and `&` with a mask, as arithmetic, at every width.
-- The native operations stand for a recursion on binary digits with fuel; more fuel than the first
-- number changes nothing, which gives one equation for the lowest digit of each.
use Prim.Native.Nat.{
  ℕ, zero, suc, ◌+◌, ◌-◌, ◌*◌, ◌/◌, ◌%◌, ◌^◌, ◌≤◌, ◌<◌, min, max, digits, bit_and, bit_or,
  bit_and-bitwise, bit_or-bitwise,
}
use mathlib.Core.Path.{◌≡◌, refl, ap, ◌∙◌}
use native.Mathlib.Nat.{pow-suc, one-le-pow}
use native.Mathlib.Omega.{arith}

-- Induction from half of a number.
pub halving : (P : ℕ → Type 0) → P 0 → ((n : ℕ) → P (suc n / 2) → P (suc n)) → (n : ℕ) → P n
halving P base half n = below n n (omega arith)
  where
    below : (bound k : ℕ) → k ≤ bound → P k
    below bound zero h = base
    below zero (suc k) h = absurd (omega arith)
    below (suc bound) (suc k) h = half k (below bound (suc k / 2) (omega arith))

module _ (rest : ℕ → ℕ) (digit : ℕ → ℕ → ℕ) where
  one_more :
      (fuel x y : ℕ) → x ≤ fuel → digits rest digit (suc fuel) x y ≡ digits rest digit fuel x y
  one_more zero zero y enough = refl
  one_more (suc fuel) zero y enough = refl
  one_more zero (suc x) y enough = absurd (omega arith)
  one_more (suc fuel) (suc x) y enough =
      ap (λ t. t * 2 + digit (suc x % 2) (y % 2)) (one_more fuel (suc x / 2) (y / 2) (omega arith))

  spare_fuel :
      (spare fuel x y : ℕ) → fuel ≡ spare + x → digits rest digit fuel x y ≡ digits rest digit x x y
  spare_fuel zero fuel x y e = ap (λ n. digits rest digit n x y) (omega arith)
  spare_fuel (suc spare) zero x y e = absurd (omega arith)
  spare_fuel (suc spare) (suc fuel) x y e =
      one_more fuel x y (omega arith) ∙ spare_fuel spare fuel x y (omega arith)

  pub lowest_digit :
      (x y : ℕ)
      → digits rest digit (suc x) (suc x) y
        ≡ digits rest digit (suc x / 2) (suc x / 2) (y / 2) * 2 + digit (suc x % 2) (y % 2)
  lowest_digit x y =
      ap (λ t. t * 2 + digit (suc x % 2) (y % 2))
        (spare_fuel (x - suc x / 2) x (suc x / 2) (y / 2) (omega arith))

or_digit : (x y : ℕ) → bit_or x y ≡ bit_or (x / 2) (y / 2) * 2 + max (x % 2) (y % 2)
or_digit zero y = simp bit_or-bitwise (omega arith)
or_digit (suc x) y = simp bit_or-bitwise (lowest_digit (λ t. t) max x y)

and_digit : (x y : ℕ) → bit_and x y ≡ bit_and (x / 2) (y / 2) * 2 + min (x % 2) (y % 2)
and_digit zero y = simp bit_and-bitwise (omega arith)
and_digit (suc x) y = simp bit_and-bitwise (lowest_digit (λ t. 0) min x y)

pub bit_or-zero : (x : ℕ) → bit_or x 0 ≡ x
bit_or-zero = halving (λ x. bit_or x 0 ≡ x) refl (λ n ih. omega (arith, or_digit (suc n) 0, ih))

pub bit_and-zero : (x : ℕ) → bit_and x 0 ≡ 0
bit_and-zero = halving (λ x. bit_and x 0 ≡ 0) refl (λ n ih. omega (arith, and_digit (suc n) 0, ih))

double_shift : (x k : ℕ) → x * 2 ^ suc k ≡ 2 * (x * 2 ^ k)
double_shift x k = omega (arith, ap (λ (p : ℕ). x * p) (pow-suc 2 k))

-- `(hi << k) | lo` is a sum when `lo` has `k` bits.
pub bit_or_fields : (k hi lo : ℕ) → lo < 2 ^ k → bit_or (hi * 2 ^ k) lo ≡ hi * 2 ^ k + lo
bit_or_fields zero hi lo narrow = ground (arith, bit_or-zero hi)
bit_or_fields (suc k) hi lo narrow =
    let ih : bit_or (hi * 2 ^ k) (lo / 2) ≡ hi * 2 ^ k + lo / 2 =
      bit_or_fields k hi (lo / 2) (omega arith) in
    ground (arith, ih, double_shift hi k, or_digit (hi * 2 ^ suc k) lo)

mask_low : (k hi lo : ℕ) → lo < 2 ^ k → bit_and (hi * 2 ^ k + lo) (2 ^ k - 1) ≡ lo
mask_low zero hi lo narrow = rw bit_and-zero (omega arith)
mask_low (suc k) hi lo narrow =
    let ih : bit_and (hi * 2 ^ k + lo / 2) (2 ^ k - 1) ≡ lo / 2 =
      mask_low k hi (lo / 2) (omega arith) in
    ground
      (arith, ih, pow-suc 2 k, double_shift hi k, and_digit (hi * 2 ^ suc k + lo) (2 ^ suc k - 1))

-- A mask of the `k` low bits takes the remainder by `2 ^ k`.
pub bit_and_mask : (k x : ℕ) → bit_and x (2 ^ k - 1) ≡ x % 2 ^ k
bit_and_mask k x = ground (arith, mask_low k (x / 2 ^ k) (x % 2 ^ k), one-le-pow k 2)

-- The top bit of a number of `k + 1` bits.
pub bit_and_top :
    (k x : ℕ)
    → x < 2 ^ suc k
    → (x < 2 ^ k → bit_and x (2 ^ k) ≡ 0) × (2 ^ k ≤ x → bit_and x (2 ^ k) ≡ 2 ^ k)
bit_and_top zero x h = (
  λ low. omega (arith, and_digit x 1, bit_and-zero (x / 2)),
  λ high. omega (arith, and_digit x 1, bit_and-zero (x / 2)),
)
bit_and_top (suc k) x h =
    let ih = bit_and_top k (x / 2) (omega (arith, pow-suc 2 (suc k))) in
    (
      λ low.
          omega (
            arith,
            and_digit x (2 ^ suc k),
            pow-suc 2 k,
            halved,
            ih.0 (omega (arith, pow-suc 2 k)),
          ),
      λ high.
          omega (
            arith,
            and_digit x (2 ^ suc k),
            pow-suc 2 k,
            halved,
            ih.1 (omega (arith, pow-suc 2 k)),
          ),
    )
  where
    halved : bit_and (x / 2) (2 ^ suc k / 2) ≡ bit_and (x / 2) (2 ^ k)
    halved = ap (bit_and (x / 2)) (omega (arith, pow-suc 2 k))
