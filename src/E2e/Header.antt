-- ===== src/E2e/Header.antt =====
-- src/e2e/e2e_header.cpp and include/e2e/e2e_header.h: the twelve bytes after the return code.
use opensomeip.Base.{
  ℕ, ◌+◌, ◌<◌, ◌^◌, ◌≡◌, refl, Bool, true, ltb, if◌then◌else◌, List, ◌++◌, Option, none, some,
  length,
}
use opensomeip.Base.Bytes.{be16, be32, read16, read32}

pub record E2eHeader : Type 0 where
  pub crc : ℕ
  pub counter : ℕ
  pub data_id : ℕ
  pub freshness_value : ℕ

abbrev pub header_size : ℕ
header_size = 12

-- The fields are two `uint32_t` and two `uint16_t`.
abbrev pub IsE2eHeader : E2eHeader → Type 0
IsE2eHeader h =
    (h.crc < 2 ^ 32) × (h.counter < 2 ^ 32) × (h.data_id < 2 ^ 16) × (h.freshness_value < 2 ^ 16)

unfoldable pub serialize : E2eHeader → List ℕ
serialize h = be32 h.crc ++ (be32 h.counter ++ (be16 h.data_id ++ be16 h.freshness_value))

-- `none` is a return of `false`, which leaves the header as it was.
unfoldable pub deserialize : List ℕ → ℕ → Option E2eHeader
deserialize d offset =
    if ltb (length d) (offset + header_size)
    then none
    else some (record {
      crc = read32 d offset;
      counter = read32 d (offset + 4);
      data_id = read16 d (offset + 8);
      freshness_value = read16 d (offset + 10);
    })

unfoldable pub is_valid : E2eHeader → Bool
is_valid h = true

pub length-serialize : (h : E2eHeader) → length (serialize h) ≡ 12
unfolding serialize
length-serialize h = refl
