-- ===== src/E2e/Crc.antt =====
-- src/e2e/e2e_crc.cpp. A `uint8_t`, `uint16_t` or `uint32_t` is a number, with its wrap written out.
pub mod Rounds
pub mod Table
pub mod Detect
use opensomeip.Base.{
  ℕ, zero, suc, ◌+◌, ◌*◌, ◌/◌, ◌%◌, ◌^◌, ◌<◌, bit_and, bit_xor, Bool, ltb, ◌==◌, if◌then◌else◌,
  List, [], ◌∷◌, length, take, drop, get_or,
}

abbrev pub sae_j1850_poly : ℕ
sae_j1850_poly = 0x1d

abbrev pub itu_x25_poly : ℕ
itu_x25_poly = 0x1021

abbrev pub crc32_poly : ℕ
crc32_poly = 0x04c11db7

-- One round of the inner loop: `crc & top` chooses between `(crc << 1) ^ poly` and `crc << 1`, cut
-- off at the width, whose modulus is twice `top`.
unfoldable pub shift_round : ℕ → ℕ → ℕ → ℕ
shift_round modulus poly crc =
    if bit_and crc (modulus / 2) == 0 then crc * 2 % modulus else bit_xor (crc * 2) poly % modulus

-- The inner loop, with the rounds left.
unfoldable pub shift_rounds : ℕ → ℕ → ℕ → ℕ → ℕ
shift_rounds modulus poly zero crc = crc
shift_rounds modulus poly (suc n) crc = shift_rounds modulus poly n (shift_round modulus poly crc)

unfoldable pub crc8_loop : ℕ → List ℕ → ℕ
crc8_loop crc [] = crc
crc8_loop crc (byte ∷ data') =
    crc8_loop (shift_rounds (2 ^ 8) sae_j1850_poly 8 (bit_xor crc byte)) data'

unfoldable pub calculate_crc8_sae_j1850 : List ℕ → ℕ
calculate_crc8_sae_j1850 bytes = crc8_loop 0xff bytes

unfoldable pub crc16_loop : ℕ → List ℕ → ℕ
crc16_loop crc [] = crc
crc16_loop crc (byte ∷ data') =
    crc16_loop (shift_rounds (2 ^ 16) itu_x25_poly 8 (bit_xor crc (byte * 2 ^ 8 % 2 ^ 16))) data'

unfoldable pub calculate_crc16_itu_x25 : List ℕ → ℕ
calculate_crc16_itu_x25 bytes = crc16_loop 0xffff bytes

-- `crc32_table[i]`, as `init_crc32_table` computes it.
unfoldable pub crc32_entry : ℕ → ℕ
crc32_entry i = shift_rounds (2 ^ 32) crc32_poly 8 (i * 2 ^ 24 % 2 ^ 32)

-- The table from the index `i` on, with the entries left.
unfoldable pub crc32_table_from : ℕ → ℕ → List ℕ
crc32_table_from zero i = []
crc32_table_from (suc n) i = crc32_entry i ∷ crc32_table_from n (i + 1)

unfoldable pub crc32_table : List ℕ
crc32_table = crc32_table_from 256 0

unfoldable pub crc32_loop : ℕ → List ℕ → ℕ
crc32_loop crc [] = crc
crc32_loop crc (byte ∷ data') =
    let index = bit_and (bit_xor (crc / 2 ^ 24) byte) 0xff in
    crc32_loop (bit_xor (crc * 2 ^ 8 % 2 ^ 32) (get_or crc32_table index 0)) data'

unfoldable pub calculate_crc32 : List ℕ → ℕ
calculate_crc32 bytes = crc32_loop 0xffffffff bytes

unfoldable pub calculate_crc : List ℕ → ℕ → ℕ → ℕ → ℕ
calculate_crc bytes offset len crc_type =
    if ltb (length bytes) (offset + len)
    then 0
    else (let slice = take len (drop offset bytes) in
        if crc_type == 0
        then calculate_crc8_sae_j1850 slice
        else if crc_type == 1
        then calculate_crc16_itu_x25 slice
        else if crc_type == 2
        then calculate_crc32 slice
        else 0)
