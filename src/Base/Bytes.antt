-- ===== src/Base/Bytes.antt =====
-- Big-endian byte images of unsigned words, as `htons` and `htonl` lay them out.
use opensomeip.Base.Lists.{length, get_or, drop, All}
use Prim.Native.Nat.{ℕ, zero, suc, ◌+◌, ◌*◌, ◌/◌, ◌%◌, ◌^◌, ◌<◌, ◌≤◌}
use mathlib.Core.Path.{◌≡◌, refl, sym, ap, ◌∙◌}
use mathlib.Core.List.{List, [], ◌∷◌, ◌++◌}
use native.Mathlib.Numerals.{towards_suc}
use native.Mathlib.Omega.{arith}

abbrev pub IsByte : ℕ → Type 0
IsByte b = b < 256

abbrev pub be16 : ℕ → List ℕ
be16 v = (v / 256 % 256) ∷ (v % 256) ∷ []

abbrev pub be32 : ℕ → List ℕ
be32 v = (v / 2 ^ 24 % 256) ∷ (v / 2 ^ 16 % 256) ∷ (v / 2 ^ 8 % 256) ∷ (v % 256) ∷ []

-- A read of a vector; every caller checks the size first.
abbrev pub byte_at : List ℕ → ℕ → ℕ
byte_at d i = get_or d i 0

abbrev pub read16 : List ℕ → ℕ → ℕ
read16 d i = byte_at d i * 256 + byte_at d (i + 1)

abbrev pub read32 : List ℕ → ℕ → ℕ
read32 d i =
    byte_at d i * 2 ^ 24
    + byte_at d (i + 1) * 2 ^ 16
    + byte_at d (i + 2) * 2 ^ 8
    + byte_at d (i + 3)

pub be16_sum : (v : ℕ) → v < 2 ^ 16 → v / 256 % 256 * 256 + v % 256 ≡ v
be16_sum v h = omega arith

pub be32_sum :
    (v : ℕ)
    → v < 2 ^ 32
    → v / 2 ^ 24 % 256 * 2 ^ 24 + v / 2 ^ 16 % 256 * 2 ^ 16 + v / 2 ^ 8 % 256 * 2 ^ 8 + v % 256 ≡ v
be32_sum v h = omega arith

pub byte_at-lt : (d : List ℕ) (i : ℕ) → All IsByte d → byte_at d i < 256
byte_at-lt [] i h = omega arith
byte_at-lt (x ∷ d) zero h = h.0
byte_at-lt (x ∷ d) (suc i) h = byte_at-lt d i h.1

pub read32-lt : (d : List ℕ) (i : ℕ) → All IsByte d → read32 d i < 2 ^ 32
read32-lt d i h = omega (
  arith,
  byte_at-lt d i h,
  byte_at-lt d (i + 1) h,
  byte_at-lt d (i + 2) h,
  byte_at-lt d (i + 3) h,
)

pub read16-lt : (d : List ℕ) (i : ℕ) → All IsByte d → read16 d i < 2 ^ 16
read16-lt d i h = omega (arith, byte_at-lt d i h, byte_at-lt d (i + 1) h)

-- What stands from offset `i` on, as the word that is read there and the rest.
pub drop-byte : (d : List ℕ) (i : ℕ) → i < length d → drop i d ≡ byte_at d i ∷ drop (suc i) d
drop-byte [] i h = elim h [ ]
drop-byte (x ∷ d) zero h = refl
drop-byte (x ∷ d) (suc i) h = drop-byte d i (omega arith)

pub be32_digits :
    (a b c d : ℕ)
    → a < 256
    → b < 256
    → c < 256
    → d < 256
    → be32 (a * 2 ^ 24 + b * 2 ^ 16 + c * 2 ^ 8 + d) ≡ a ∷ b ∷ c ∷ d ∷ []
be32_digits a b c d ha hb hc hd = ground arith

pub be16_digits : (a b : ℕ) → a < 256 → b < 256 → be16 (a * 256 + b) ≡ a ∷ b ∷ []
be16_digits a b ha hb = ground arith

pub drop_four :
    (d : List ℕ) (i : ℕ)
    → i + 4 ≤ length d
    → drop i d
      ≡ byte_at d i ∷ byte_at d (i + 1) ∷ byte_at d (i + 2) ∷ byte_at d (i + 3) ∷ drop (i + 4) d
drop_four d i h = simp towards_suc (
    ground (
      arith,
      drop-byte d i,
      drop-byte d (suc i),
      drop-byte d (suc (suc i)),
      drop-byte d (suc (suc (suc i))),
    ))

drop_two :
    (d : List ℕ) (i : ℕ)
    → i + 2 ≤ length d
    → drop i d ≡ byte_at d i ∷ byte_at d (i + 1) ∷ drop (i + 2) d
drop_two d i h = simp towards_suc (ground (arith, drop-byte d i, drop-byte d (suc i)))

pub drop-word32 :
    (d : List ℕ) (i : ℕ)
    → i + 4 ≤ length d
    → All IsByte d
    → drop i d ≡ be32 (read32 d i) ++ drop (i + 4) d
drop-word32 d i h bytes =
    drop_four d i h
    ∙ ap (λ w. w ++ drop (i + 4) d)
        (sym (
          be32_digits _ _ _ _ (byte_at-lt d i bytes) (byte_at-lt d (i + 1) bytes)
            (byte_at-lt d (i + 2) bytes) (byte_at-lt d (i + 3) bytes)))

pub drop-word16 :
    (d : List ℕ) (i : ℕ)
    → i + 2 ≤ length d
    → All IsByte d
    → drop i d ≡ be16 (read16 d i) ++ drop (i + 2) d
drop-word16 d i h bytes =
    drop_two d i h
    ∙ ap (λ w. w ++ drop (i + 2) d)
        (sym (be16_digits _ _ (byte_at-lt d i bytes) (byte_at-lt d (i + 1) bytes)))

-- A read behind the first part of a vector.
pub byte_at-behind :
    (front back : List ℕ) (i : ℕ) → byte_at (front ++ back) (length front + i) ≡ byte_at back i
byte_at-behind [] back i = ap (byte_at back) (omega arith)
byte_at-behind (x ∷ front) back i =
    ap (byte_at (x ∷ (front ++ back))) (shift (length front) i) ∙ byte_at-behind front back i
  where
    shift : (a b : ℕ) → suc a + b ≡ suc (a + b)
    shift a b = omega arith

pub byte_at-end : (front back : List ℕ) → byte_at (front ++ back) (length front) ≡ byte_at back 0
byte_at-end [] back = refl
byte_at-end (x ∷ front) back = byte_at-end front back

pub read16-behind :
    (front back : List ℕ) (v : ℕ)
    → v < 2 ^ 16
    → read16 (front ++ (be16 v ++ back)) (length front) ≡ v
read16-behind front back v h =
    rw (byte_at-end front (be16 v ++ back), byte_at-behind front (be16 v ++ back) 1) (be16_sum v h)

pub read32-behind :
    (front back : List ℕ) (v : ℕ)
    → v < 2 ^ 32
    → read32 (front ++ (be32 v ++ back)) (length front) ≡ v
read32-behind front back v h =
    rw
      (
        byte_at-end front (be32 v ++ back),
        byte_at-behind front (be32 v ++ back) 1,
        byte_at-behind front (be32 v ++ back) 2,
        byte_at-behind front (be32 v ++ back) 3,
      )
      (be32_sum v h)

byte_at-append :
    (front back : List ℕ) (i : ℕ) → i < length front → byte_at (front ++ back) i ≡ byte_at front i
byte_at-append [] back i h = elim h [ ]
byte_at-append (x ∷ front) back zero h = refl
byte_at-append (x ∷ front) back (suc i) h = byte_at-append front back i (omega arith)

pub read32-append :
    (front back : List ℕ) (i : ℕ) → i + 3 < length front → read32 (front ++ back) i ≡ read32 front i
read32-append front back i h = rw (
  byte_at-append front back i (omega arith),
  byte_at-append front back (i + 1) (omega arith),
  byte_at-append front back (i + 2) (omega arith),
  byte_at-append front back (i + 3) (omega arith),
)

-- A read at an offset that is counted from the end of the first part.
pub byte_at-shift :
    (front back : List ℕ) (i j : ℕ)
    → i ≡ length front + j
    → byte_at (front ++ back) i ≡ byte_at back j
byte_at-shift front back i j e = ap (byte_at (front ++ back)) e ∙ byte_at-behind front back j

pub read16-shift :
    (front back : List ℕ) (i j : ℕ)
    → i ≡ length front + j
    → read16 (front ++ back) i ≡ read16 back j
read16-shift front back i j e =
    rw (byte_at-shift front back i j e, byte_at-shift front back (i + 1) (j + 1) (omega arith)) refl

pub read32-shift :
    (front back : List ℕ) (i j : ℕ)
    → i ≡ length front + j
    → read32 (front ++ back) i ≡ read32 back j
read32-shift front back i j e =
    rw
      (
        byte_at-shift front back i j e,
        byte_at-shift front back (i + 1) (j + 1) (omega arith),
        byte_at-shift front back (i + 2) (j + 2) (omega arith),
        byte_at-shift front back (i + 3) (j + 3) (omega arith),
      )
      refl
