-- ===== src/Base/Xor.antt =====
-- The laws of `^`, from its digits.
use Prim.Native.Nat.{
  ℕ, zero, suc, ◌+◌, ◌*◌, ◌/◌, ◌%◌, ◌^◌, ◌≤◌, ◌<◌, bit_xor, bit_xor-bitwise, differ,
}
use mathlib.Core.Path.{◌≡◌, refl, ap, ap₂, sym, ◌∙◌}
use native.Mathlib.Nat.{pow-suc}
use native.Mathlib.Omega.{arith}
use opensomeip.Base.Bits.{halving, lowest_digit}

differ_sum : (a b : ℕ) → a < 2 → b < 2 → differ a b ≡ (a + b) % 2
differ_sum zero zero h k = refl
differ_sum zero (suc zero) h k = refl
differ_sum (suc zero) zero h k = refl
differ_sum (suc zero) (suc zero) h k = refl
differ_sum zero (suc (suc b)) h k = absurd (omega arith)
differ_sum (suc zero) (suc (suc b)) h k = absurd (omega arith)
differ_sum (suc (suc a)) b h k = absurd (omega arith)

zero-xor : (y : ℕ) → bit_xor 0 y ≡ y
zero-xor y = bit_xor-bitwise 0 y

pub xor_digit : (x y : ℕ) → bit_xor x y ≡ bit_xor (x / 2) (y / 2) * 2 + (x % 2 + y % 2) % 2
xor_digit zero y = omega (arith, zero-xor y, zero-xor (y / 2))
xor_digit (suc x) y =
    (bit_xor-bitwise (suc x) y ∙ lowest_digit (λ t. t) differ x y)
    ∙ omega (
      arith,
      differ_sum (suc x % 2) (y % 2) (omega arith) (omega arith),
      bit_xor-bitwise (suc x / 2) (y / 2),
    )

pub xor-zero : (x : ℕ) → bit_xor x 0 ≡ x
xor-zero = halving (λ x. bit_xor x 0 ≡ x) refl (λ n ih. omega (arith, xor_digit (suc n) 0, ih))

pub xor_self : (x : ℕ) → bit_xor x x ≡ 0
xor_self =
    halving (λ x. bit_xor x x ≡ 0) refl (λ n ih. omega (arith, xor_digit (suc n) (suc n), ih))

-- `n` bounds the numbers; halving them is one digit.
comm_below : (n x y : ℕ) → x ≤ n → y ≤ n → bit_xor x y ≡ bit_xor y x
comm_below zero zero zero h k = refl
comm_below zero (suc x) y h k = absurd (omega arith)
comm_below zero zero (suc y) h k = absurd (omega arith)
comm_below (suc n) x y h k =
    omega (
      arith,
      xor_digit x y,
      xor_digit y x,
      comm_below n (x / 2) (y / 2) (omega arith) (omega arith),
    )

pub xor_comm : (x y : ℕ) → bit_xor x y ≡ bit_xor y x
xor_comm x y = comm_below (x + y) x y (omega arith) (omega arith)

half_xor : (x y : ℕ) → bit_xor x y / 2 ≡ bit_xor (x / 2) (y / 2)
half_xor x y = omega (arith, xor_digit x y)

-- The lowest digit of an exclusive or.
pub xor_parity : (x y : ℕ) → bit_xor x y % 2 ≡ (x + y) % 2
xor_parity x y = omega (arith, xor_digit x y)

assoc_below :
    (n x y z : ℕ) → x ≤ n → y ≤ n → z ≤ n → bit_xor (bit_xor x y) z ≡ bit_xor x (bit_xor y z)
assoc_below zero zero y z h k l = rw (zero-xor y, zero-xor (bit_xor y z))
assoc_below zero (suc x) y z h k l = absurd (omega arith)
assoc_below (suc n) x y z h k l = omega (
  arith,
  xor_digit (bit_xor x y) z,
  xor_digit x (bit_xor y z),
  xor_parity x y,
  xor_parity y z,
  ap (λ t. bit_xor t (z / 2)) (half_xor x y),
  ap (bit_xor (x / 2)) (half_xor y z),
  assoc_below n (x / 2) (y / 2) (z / 2) (omega arith) (omega arith) (omega arith),
)

pub xor_assoc : (x y z : ℕ) → bit_xor (bit_xor x y) z ≡ bit_xor x (bit_xor y z)
xor_assoc x y z = assoc_below (x + y + z) x y z (omega arith) (omega arith) (omega arith)

pub xor_cancel : (x y : ℕ) → bit_xor (bit_xor x y) y ≡ x
xor_cancel x y = xor_assoc x y y ∙ ap (bit_xor x) (xor_self y) ∙ xor-zero x

pub xor_right_injective : (x y z : ℕ) → bit_xor x z ≡ bit_xor y z → x ≡ y
xor_right_injective x y z e = sym (xor_cancel x z) ∙ ap (λ t. bit_xor t z) e ∙ xor_cancel y z

pub xor_left_injective : (x y z : ℕ) → bit_xor z x ≡ bit_xor z y → x ≡ y
xor_left_injective x y z e = xor_right_injective x y z (xor_comm x z ∙ e ∙ xor_comm z y)

pub xor-lt : (k x y : ℕ) → x < 2 ^ k → y < 2 ^ k → bit_xor x y < 2 ^ k
xor-lt zero zero zero h l = omega arith
xor-lt zero (suc x) y h l = absurd (omega arith)
xor-lt zero zero (suc y) h l = absurd (omega arith)
xor-lt (suc k) x y h l = omega (
  arith,
  pow-suc 2 k,
  xor_digit x y,
  xor-lt k (x / 2) (y / 2) (omega (arith, pow-suc 2 k)) (omega (arith, pow-suc 2 k)),
)

pub xor_double : (x y : ℕ) → bit_xor (x * 2) (y * 2) ≡ bit_xor x y * 2
xor_double x y = omega (arith, xor_digit (x * 2) (y * 2), ap₂ bit_xor (halved x) (halved y))
  where
    halved : (n : ℕ) → n * 2 / 2 ≡ n
    halved n = omega arith

shift_double : (x k : ℕ) → x * 2 ^ suc k ≡ 2 * (x * 2 ^ k)
shift_double x k = omega (arith, ap (λ (p : ℕ). x * p) (pow-suc 2 k))

half_field : (k q r : ℕ) → (q * 2 ^ suc k + r) / 2 ≡ q * 2 ^ k + r / 2
half_field k q r = omega (arith, shift_double q k)

parity_field : (k q r : ℕ) → (q * 2 ^ suc k + r) % 2 ≡ r % 2
parity_field k q r = omega (arith, shift_double q k)

-- An exclusive or works on high and low fields apart.
pub xor_fields :
    (k q r s u : ℕ)
    → r < 2 ^ k
    → u < 2 ^ k
    → bit_xor (q * 2 ^ k + r) (s * 2 ^ k + u) ≡ bit_xor q s * 2 ^ k + bit_xor r u
xor_fields zero q r s u hr hu =
    let r0 : r ≡ 0 = omega arith in
    let u0 : u ≡ 0 = omega arith in
    omega (arith, ap₂ bit_xor r0 u0, xor_self 0, ap₂ bit_xor (add_right q r r0) (add_right s u u0))
  where
    add_right : (n e : ℕ) → e ≡ 0 → n * 2 ^ 0 + e ≡ n
    add_right n e h = omega arith
xor_fields (suc k) q r s u hr hu = omega (
  arith,
  xor_digit (q * 2 ^ suc k + r) (s * 2 ^ suc k + u),
  ap₂ bit_xor (half_field k q r) (half_field k s u),
  parity_field k q r,
  parity_field k s u,
  xor_digit r u,
  xor_fields k q (r / 2) s (u / 2) (omega (arith, pow-suc 2 k)) (omega (arith, pow-suc 2 k)),
  shift_double (bit_xor q s) k,
)
