-- ===== src/Message/Plausible.antt =====
-- The header test of `Message::deserialize` in plain arithmetic.
use opensomeip.Base.{ℕ, ◌*◌, ◌/◌, ◌%◌, ◌^◌, ◌<◌, ◌≡◌, ◌≢◌, ◌↔◌, true, arith}
use opensomeip.Base.Bits.{bit_and_mask}
use opensomeip.E2e.Header.{E2eHeader, IsE2eHeader}
use opensomeip.Message.{repeats32, repeats16, looks_like_payload_data, is_plausible}

-- One byte, repeated over the word.
abbrev pub IsRepeated32 : ℕ → Type 0
IsRepeated32 v = v ≡ v % 256 * 0x01010101

abbrev pub IsRepeated16 : ℕ → Type 0
IsRepeated16 v = v ≡ v % 256 * 0x0101

-- The headers that `deserialize` can tell from a payload.
pub record IsDetectable (h : E2eHeader) : Type 0 where
  pub has_data_id : h.data_id ≢ 0
  pub mixed_crc : ¬ IsRepeated32 h.crc
  pub mixed_counter : ¬ IsRepeated32 h.counter
  pub mixed_freshness : ¬ IsRepeated16 h.freshness_value

repeats32_iff : (v : ℕ) → v < 2 ^ 32 → (repeats32 v ≡ true) ↔ IsRepeated32 v
unfolding repeats32
repeats32_iff v h =
    rw
      (
        bit_and_mask 8 (v / 2 ^ 0),
        bit_and_mask 8 (v / 2 ^ 8),
        bit_and_mask 8 (v / 2 ^ 16),
        bit_and_mask 8 (v / 2 ^ 24),
      )
      (λ e. ground arith, λ e. ground arith)

repeats16_iff : (v : ℕ) → v < 2 ^ 16 → (repeats16 v ≡ true) ↔ IsRepeated16 v
unfolding repeats16
repeats16_iff v h =
    rw (bit_and_mask 8 (v / 2 ^ 0), bit_and_mask 8 (v / 2 ^ 8))
      (λ e. ground arith, λ e. ground arith)

pub is_plausible_sound : (h : E2eHeader) → IsE2eHeader h → is_plausible h ≡ true → IsDetectable h
unfolding is_plausible looks_like_payload_data
is_plausible_sound h (c, n, i, f) p =
    ground
      (arith, repeats32_iff h.crc c, repeats32_iff h.counter n, repeats16_iff h.freshness_value f)

pub is_plausible_complete : (h : E2eHeader) → IsE2eHeader h → IsDetectable h → is_plausible h ≡ true
unfolding is_plausible looks_like_payload_data
is_plausible_complete h (c, n, i, f) p =
    ground
      (arith, repeats32_iff h.crc c, repeats32_iff h.counter n, repeats16_iff h.freshness_value f)
