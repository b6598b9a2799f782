-- ===== src/E2e/Crc/Detect.antt =====
-- A change of one byte changes each of the three checksums.
use opensomeip.Base.{
  ℕ, zero, suc, ◌+◌, ◌*◌, ◌%◌, ◌^◌, ◌≤◌, ◌<◌, bit_xor, ◌≡◌, ◌≢◌, refl, sym, ◌∙◌, arith, List, [],
  ◌∷◌, ◌++◌, All, All-append, All-take, All-drop, length, take, take-length, ◌==◌, if◌then◌else◌,
  drop, ge→ltb,
}
use opensomeip.Base.Bytes.{IsByte}
use opensomeip.Base.Xor.{xor-lt, xor_left_injective, xor_right_injective}
use opensomeip.E2e.Crc.{
  shift_rounds, sae_j1850_poly, itu_x25_poly, crc32_poly, crc8_loop, crc16_loop, crc32_loop,
  calculate_crc8_sae_j1850, calculate_crc16_itu_x25, calculate_crc32, calculate_crc,
}
use opensomeip.E2e.Crc.Rounds.{rounds-lt, rounds-injective}
use opensomeip.E2e.Crc.Table.{register, crc32_loop-register}

-- The loop that the three checksums have in common.
checksum : ℕ → ℕ → (ℕ → ℕ) → ℕ → List ℕ → ℕ
checksum k poly place crc [] = crc
checksum k poly place crc (byte ∷ rest) =
    checksum k poly place (shift_rounds (2 ^ suc k) poly 8 (bit_xor crc (place byte))) rest

-- A checksum of width `k + 1` that adds `place byte` to the register and makes eight rounds.
module _ (k poly : ℕ) (fits : poly < 2 ^ suc k) (odd : poly % 2 ≡ 1) (place : ℕ → ℕ)
    (place-lt : (b : ℕ) → b < 256 → place b < 2 ^ suc k)
    (place-injective : (a b : ℕ) → a < 256 → b < 256 → place a ≡ place b → a ≡ b) where
  abbrev run : ℕ → List ℕ → ℕ
  run = checksum k poly place

  step-lt :
      (crc b : ℕ)
      → crc < 2 ^ suc k
      → b < 256
      → shift_rounds (2 ^ suc k) poly 8 (bit_xor crc (place b)) < 2 ^ suc k
  step-lt crc b hc hb =
      rounds-lt k poly fits odd 8 (bit_xor crc (place b))
        (xor-lt (suc k) crc (place b) hc (place-lt b hb))

  run-lt : (crc : ℕ) (d : List ℕ) → crc < 2 ^ suc k → All IsByte d → run crc d < 2 ^ suc k
  unfolding checksum
  run-lt crc [] hc h = hc
  run-lt crc (b ∷ d) hc h =
      run-lt (shift_rounds (2 ^ suc k) poly 8 (bit_xor crc (place b))) d (step-lt crc b hc h.0) h.1

  run-injective :
      (x y : ℕ) (d : List ℕ)
      → x < 2 ^ suc k
      → y < 2 ^ suc k
      → All IsByte d
      → run x d ≡ run y d
      → x ≡ y
  unfolding checksum
  run-injective x y [] hx hy h e = e
  run-injective x y (b ∷ d) hx hy h e = xor_right_injective x y (place b) (
      rounds-injective k poly fits odd 8 (bit_xor x (place b)) (bit_xor y (place b))
        (xor-lt (suc k) x (place b) hx (place-lt b h.0))
        (xor-lt (suc k) y (place b) hy (place-lt b h.0))
        (run-injective (shift_rounds (2 ^ suc k) poly 8 (bit_xor x (place b)))
          (shift_rounds (2 ^ suc k) poly 8 (bit_xor y (place b))) d (step-lt x b hx h.0)
          (step-lt y b hy h.0) h.1 e))

  -- After a common beginning the registers are equal, after the changed byte they differ, and no
  -- later byte makes them equal again.
  run-detects :
      (crc : ℕ) (front back : List ℕ) (a b : ℕ)
      → crc < 2 ^ suc k
      → All IsByte front
      → All IsByte back
      → a < 256
      → b < 256
      → run crc (front ++ (a ∷ back)) ≡ run crc (front ++ (b ∷ back))
      → a ≡ b
  unfolding checksum
  run-detects crc [] back a b hc hf hk ha hb e = place-injective a b ha hb (
      xor_left_injective (place a) (place b) crc (
        rounds-injective k poly fits odd 8 (bit_xor crc (place a)) (bit_xor crc (place b))
          (xor-lt (suc k) crc (place a) hc (place-lt a ha))
          (xor-lt (suc k) crc (place b) hc (place-lt b hb))
          (run-injective (shift_rounds (2 ^ suc k) poly 8 (bit_xor crc (place a)))
            (shift_rounds (2 ^ suc k) poly 8 (bit_xor crc (place b))) back (step-lt crc a hc ha)
            (step-lt crc b hc hb) hk e)))
  run-detects crc (x ∷ front) back a b hc hf hk ha hb e =
      run-detects (shift_rounds (2 ^ suc k) poly 8 (bit_xor crc (place x))) front back a b
        (step-lt crc x hc hf.0) hf.1 hk ha hb e

place16 : ℕ → ℕ
place16 b = b * 2 ^ 8 % 2 ^ 16

crc8_loop-checksum :
    (crc : ℕ) (d : List ℕ) → crc8_loop crc d ≡ checksum 7 sae_j1850_poly (λ b. b) crc d
unfolding crc8_loop checksum
crc8_loop-checksum crc [] = refl
crc8_loop-checksum crc (b ∷ d) =
    crc8_loop-checksum (shift_rounds (2 ^ 8) sae_j1850_poly 8 (bit_xor crc b)) d

crc16_loop-checksum :
    (crc : ℕ) (d : List ℕ) → crc16_loop crc d ≡ checksum 15 itu_x25_poly place16 crc d
unfolding crc16_loop checksum place16
crc16_loop-checksum crc [] = refl
crc16_loop-checksum crc (b ∷ d) =
    crc16_loop-checksum (shift_rounds (2 ^ 16) itu_x25_poly 8 (bit_xor crc (b * 2 ^ 8 % 2 ^ 16))) d

register-checksum :
    (crc : ℕ) (d : List ℕ) → register crc d ≡ checksum 31 crc32_poly (λ b. b * 2 ^ 24) crc d
unfolding register checksum
register-checksum crc [] = refl
register-checksum crc (b ∷ d) =
    register-checksum (shift_rounds (2 ^ 32) crc32_poly 8 (bit_xor crc (b * 2 ^ 24))) d

crc32_loop-checksum :
    (d : List ℕ)
    → All IsByte d
    → crc32_loop 0xffffffff d ≡ checksum 31 crc32_poly (λ b. b * 2 ^ 24) 0xffffffff d
crc32_loop-checksum d h =
    crc32_loop-register 0xffffffff d (omega arith) h ∙ register-checksum 0xffffffff d

calculate_crc_whole :
    (d : List ℕ) (t : ℕ)
    → calculate_crc d 0 (length d) t ≡ (
        if t == 0
        then crc8_loop 0xff d
        else if t == 1
        then crc16_loop 0xffff d
        else if t == 2
        then crc32_loop 0xffffffff d
        else 0)
unfolding calculate_crc calculate_crc8_sae_j1850 calculate_crc16_itu_x25 calculate_crc32
calculate_crc_whole d t = rw (ge→ltb (length d) (0 + length d) (omega arith), take-length d)

width8 : (d : List ℕ) → All IsByte d → crc8_loop 0xff d < 2 ^ 8
width8 d h = rw (crc8_loop-checksum 0xff d) (
    run-lt 7 sae_j1850_poly (omega arith) refl (λ b. b) (λ b h. h) (λ a b h k p. p) 0xff d
      (omega arith) h)

width16 : (d : List ℕ) → All IsByte d → crc16_loop 0xffff d < 2 ^ 16
unfolding place16
width16 d h = rw (crc16_loop-checksum 0xffff d) (
    run-lt 15 itu_x25_poly (omega arith) refl place16 (λ b h. omega arith)
      (λ a b h k p. omega arith) 0xffff d (omega arith) h)

width32 : (d : List ℕ) → All IsByte d → crc32_loop 0xffffffff d < 2 ^ 32
width32 d h = rw (crc32_loop-checksum d h) (
    run-lt 31 crc32_poly (omega arith) refl (λ b. b * 2 ^ 24) (λ b h. omega arith)
      (λ a b h k p. omega arith) 0xffffffff d (omega arith) h)

module _ (front back : List ℕ) (a b : ℕ) (hf : All IsByte front) (hk : All IsByte back)
    (ha : a < 256) (hb : b < 256) where
  detects8 : crc8_loop 0xff (front ++ (a ∷ back)) ≡ crc8_loop 0xff (front ++ (b ∷ back)) → a ≡ b
  detects8 e =
      run-detects 7 sae_j1850_poly (omega arith) refl (λ b. b) (λ b h. h) (λ a b h k p. p) 0xff
        front back a b (omega arith) hf hk ha hb
        (sym (crc8_loop-checksum 0xff (front ++ (a ∷ back)))
          ∙ e
          ∙ crc8_loop-checksum 0xff (front ++ (b ∷ back)))

  detects16 :
      crc16_loop 0xffff (front ++ (a ∷ back)) ≡ crc16_loop 0xffff (front ++ (b ∷ back)) → a ≡ b
  unfolding place16
  detects16 e =
      run-detects 15 itu_x25_poly (omega arith) refl place16 (λ b h. omega arith)
        (λ a b h k p. omega arith) 0xffff front back a b (omega arith) hf hk ha hb
        (sym (crc16_loop-checksum 0xffff (front ++ (a ∷ back)))
          ∙ e
          ∙ crc16_loop-checksum 0xffff (front ++ (b ∷ back)))

  detects32 :
      crc32_loop 0xffffffff (front ++ (a ∷ back)) ≡ crc32_loop 0xffffffff (front ++ (b ∷ back))
      → a ≡ b
  detects32 e =
      run-detects 31 crc32_poly (omega arith) refl (λ b. b * 2 ^ 24) (λ b h. omega arith)
        (λ a b h k p. omega arith) 0xffffffff front back a b (omega arith) hf hk ha hb
        (sym (
            crc32_loop-checksum (front ++ (a ∷ back))
              (All-append IsByte front (a ∷ back) hf (ha, hk)))
          ∙ e
          ∙ crc32_loop-checksum (front ++ (b ∷ back))
              (All-append IsByte front (b ∷ back) hf (hb, hk)))

-- Two byte strings that differ in one byte have different checksums, by each of the three types.
pub calculate_crc_detects :
    (front back : List ℕ) (a b t : ℕ)
    → All IsByte front
    → All IsByte back
    → a < 256
    → b < 256
    → t ≤ 2
    → a ≢ b
    → calculate_crc (front ++ (a ∷ back)) 0 (length (front ++ (a ∷ back))) t
      ≢ calculate_crc (front ++ (b ∷ back)) 0 (length (front ++ (b ∷ back))) t
calculate_crc_detects front back a b t hf hk ha hb ht n e = n (
    by_type t ht (
      sym (calculate_crc_whole (front ++ (a ∷ back)) t)
      ∙ e
      ∙ calculate_crc_whole (front ++ (b ∷ back)) t))
  where
    by_type :
        (t : ℕ)
        → t ≤ 2
        → (if t == 0
            then crc8_loop 0xff (front ++ (a ∷ back))
            else if t == 1
            then crc16_loop 0xffff (front ++ (a ∷ back))
            else if t == 2
            then crc32_loop 0xffffffff (front ++ (a ∷ back))
            else 0)
          ≡ (if t == 0
              then crc8_loop 0xff (front ++ (b ∷ back))
              else if t == 1
              then crc16_loop 0xffff (front ++ (b ∷ back))
              else if t == 2
              then crc32_loop 0xffffffff (front ++ (b ∷ back))
              else 0)
        → a ≡ b
    by_type zero h p = detects8 front back a b hf hk ha hb p
    by_type (suc zero) h p = detects16 front back a b hf hk ha hb p
    by_type (suc (suc zero)) h p = detects32 front back a b hf hk ha hb p
    by_type (suc (suc (suc t))) h p = absurd (omega arith)

-- The checksum of any slice of bytes fits the width of its type: 8, 16 or 32 bits.
pub calculate_crc_width :
    (d : List ℕ) (offset len t : ℕ)
    → All IsByte d
    → calculate_crc d offset len t < (if t == 0 then 2 ^ 8 else if t == 1 then 2 ^ 16 else 2 ^ 32)
unfolding calculate_crc calculate_crc8_sae_j1850 calculate_crc16_itu_x25 calculate_crc32
calculate_crc_width d offset len t h = ground (
  arith,
  width8 (take len (drop offset d)) bytes,
  width16 (take len (drop offset d)) bytes,
  width32 (take len (drop offset d)) bytes,
)
  where
    bytes : All IsByte (take len (drop offset d))
    bytes = All-take IsByte len (drop offset d) (All-drop IsByte offset d h)
