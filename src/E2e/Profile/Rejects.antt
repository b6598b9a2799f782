-- ===== src/E2e/Profile/Rejects.antt =====
-- What `validate` refuses: a changed payload, a replayed counter, another data id.
use opensomeip.Base.{
  ℕ, ◌+◌, ◌-◌, ◌%◌, ◌^◌, ◌≤◌, ◌<◌, ◌≡◌, ◌≢◌, refl, sym, ◌∙◌, true, false, arith, bit_and, List, [],
  ◌∷◌, ◌++◌, All, All-append, length, some, if◌then◌else◌, ◌==◌,
}
use opensomeip.Base.Bytes.{IsByte, be32}
use opensomeip.Base.Bits.{bit_and_mask}
use opensomeip.Result.{invalid_argument}
use opensomeip.Types.{message_id_to_uint32, request_id_to_uint32}
use opensomeip.Message.{Message, IsTyped, set_e2e_header}
use opensomeip.E2e.Header.{E2eHeader}
use opensomeip.E2e.Crc.Detect.{calculate_crc_detects, calculate_crc_width}
use opensomeip.E2e.Profile.{
  E2eConfig, BasicE2eProfile, protect, protect_crc, validate, check_header, check_counter, crc_over,
  crc_data, crc_matches, counter_of,
}
use opensomeip.E2e.Profile.Counter.{counter_valid_replay}
use opensomeip.E2e.Profile.Protects.{protected, header_of}

-- The sixteen bytes of the fixed header that the checksum covers.
abbrev covered_header : ℕ → Message → List ℕ
covered_header len m =
    be32 (message_id_to_uint32 m.message_id)
    ++ (be32 len
        ++ (be32 (request_id_to_uint32 m.request_id)
            ++ (m.protocol_version ∷ m.interface_version ∷ m.message_type ∷ m.return_code ∷ [])))

covered_header-bytes : (len : ℕ) (m : Message) → IsTyped m → All IsByte (covered_header len m)
covered_header-bytes len m t = omega arith

module _ (m : Message) (t : IsTyped m) (front back : List ℕ) (a b : ℕ) (hf : All IsByte front)
    (hk : All IsByte back) (ha : a < 256) (hb : b < 256) (n : a ≢ b) where
  abbrev with_byte : ℕ → Message
  with_byte x = record m { payload = front ++ (x ∷ back) }

  crc_over-changed :
      (len type : ℕ) → type ≤ 2 → crc_over len (with_byte a) type ≢ crc_over len (with_byte b) type
  unfolding crc_over crc_data
  crc_over-changed len type h =
      calculate_crc_detects (covered_header len m ++ front) back a b type
        (All-append IsByte (covered_header len m) front (covered_header-bytes len m t) hf) hk ha hb
        h n

  crc_over-width :
      (len type x : ℕ)
      → x < 256
      → crc_over len (with_byte x) type
        < (if type == 0 then 2 ^ 8 else if type == 1 then 2 ^ 16 else 2 ^ 32)
  unfolding crc_over crc_data
  crc_over-width len type x hx =
      calculate_crc_width (covered_header len m ++ (front ++ (x ∷ back))) 0 _ type (
        All-append IsByte (covered_header len m) (front ++ (x ∷ back))
          (covered_header-bytes len m t) (All-append IsByte front (x ∷ back) hf (hx, hk)))

-- The comparison with the masks, for a stored and an expected checksum of the width of the type.
masked_differ :
    (type stored expected : ℕ)
    → stored < (if type == 0 then 2 ^ 8 else if type == 1 then 2 ^ 16 else 2 ^ 32)
    → expected < (if type == 0 then 2 ^ 8 else if type == 1 then 2 ^ 16 else 2 ^ 32)
    → stored ≢ expected
    → (if type == 0
        then bit_and stored 0xff == bit_and expected 0xff
        else if type == 1
        then bit_and stored 0xffff == bit_and expected 0xffff
        else stored == expected)
      ≡ false
masked_differ type stored expected hs he n = ground (
  arith,
  bit_and_mask 8 stored,
  bit_and_mask 8 expected,
  bit_and_mask 16 stored,
  bit_and_mask 16 expected,
)

crc_mismatch :
    (now later : ℕ) (m : Message) (h : E2eHeader) (c : E2eConfig) (q : BasicE2eProfile)
    → c.enable_crc ≡ true
    → crc_matches m h c.crc_type ≡ false
    → check_header later m h c q ≡ (invalid_argument, q)
unfolding check_header
crc_mismatch now later m h c q on bad = ground arith

-- `protect` stores the checksum over the payload as it was.
protect_crc-payload :
    (m : Message) (c : E2eConfig) (payload : List ℕ)
    → m.payload ≡ payload
    → c.enable_crc ≡ true
    → protect_crc m c
      ≡ crc_over ((20 + length m.payload) % 2 ^ 32) (record m { payload = payload }) c.crc_type
unfolding protect_crc crc_over crc_data
protect_crc-payload m c payload e on = ground arith

crc_matches_of :
    (m : Message) (h : E2eHeader) (type : ℕ)
    → h.crc < (if type == 0 then 2 ^ 8 else if type == 1 then 2 ^ 16 else 2 ^ 32)
    → crc_over m.length m type < (if type == 0 then 2 ^ 8 else if type == 1 then 2 ^ 16 else 2 ^ 32)
    → h.crc ≢ crc_over m.length m type
    → crc_matches m h type ≡ false
unfolding crc_matches
crc_matches_of m h type hs he n = masked_differ type h.crc (crc_over m.length m type) hs he n

-- A header that is not covered and the length that `protect` stores.
crc_over-protected :
    (now : ℕ) (m : Message) (c : E2eConfig) (p : BasicE2eProfile) (payload : List ℕ) (type : ℕ)
    → crc_over
        (protected now m c p).length
        (record (protected now m c p) { payload = payload })
        type
      ≡ crc_over ((20 + length m.payload) % 2 ^ 32) (record m { payload = payload }) type
unfolding protect set_e2e_header crc_over crc_data
crc_over-protected now m c p payload type = refl

header_of-crc :
    (now : ℕ) (m : Message) (c : E2eConfig) (p : BasicE2eProfile)
    → (header_of now m c p).crc ≡ protect_crc m c
unfolding header_of
header_of-crc now m c p = refl

crc_matches-tampered :
    (now : ℕ) (m : Message) (c : E2eConfig) (p : BasicE2eProfile) (front back : List ℕ) (a b : ℕ)
    → IsTyped m
    → m.payload ≡ front ++ (a ∷ back)
    → All IsByte front
    → All IsByte back
    → a < 256
    → b < 256
    → a ≢ b
    → c.enable_crc ≡ true
    → c.crc_type ≤ 2
    → crc_matches
        (record (protected now m c p) { payload = front ++ (b ∷ back) })
        (header_of now m c p)
        c.crc_type
      ≡ false
crc_matches-tampered now m c p front back a b t e hf hk ha hb n on ht =
    crc_matches_of (record (protected now m c p) { payload = front ++ (b ∷ back) })
      (header_of now m c p) c.crc_type
      (rw stored (crc_over-width m t front back a b hf hk ha hb n len c.crc_type a ha))
      (rw (crc_over-protected now m c p (front ++ (b ∷ back)) c.crc_type)
        (crc_over-width m t front back a b hf hk ha hb n len c.crc_type b hb))
      (λ same.
        crc_over-changed m t front back a b hf hk ha hb n len c.crc_type ht
          (sym stored ∙ same ∙ crc_over-protected now m c p (front ++ (b ∷ back)) c.crc_type))
  where
    len : ℕ
    len = (20 + length m.payload) % 2 ^ 32

    stored :
        (header_of now m c p).crc
        ≡ crc_over len (record m { payload = front ++ (a ∷ back) }) c.crc_type
    stored = header_of-crc now m c p ∙ protect_crc-payload m c (front ++ (a ∷ back)) e on

-- With the checksum enabled and one of the three types of checksum, a message with fields in range that
-- was protected, and in whose payload one byte is changed, is refused by every receiver that uses the
-- configuration of the sender, and the receiver's state does not change.
pub validate_tampered :
    (now later : ℕ) (m : Message) (c : E2eConfig) (p q : BasicE2eProfile) (front back : List ℕ)
    (a b : ℕ)
    → IsTyped m
    → m.payload ≡ front ++ (a ∷ back)
    → All IsByte front
    → All IsByte back
    → a < 256
    → b < 256
    → a ≢ b
    → c.enable_crc ≡ true
    → c.crc_type ≤ 2
    → validate later (record (protected now m c p) { payload = front ++ (b ∷ back) }) c q
      ≡ (invalid_argument, q)
unfolding validate protect set_e2e_header
validate_tampered now later m c p q front back a b t e hf hk ha hb n on ht =
    unfold header_of in
    crc_mismatch now later (record (protected now m c p) { payload = front ++ (b ∷ back) })
      (header_of now m c p) c q on
      (crc_matches-tampered now m c p front back a b t e hf hk ha hb n on ht)

-- With the counter enabled, a header whose counter is below the last one of its data id is refused,
-- as long as that is not within ten of the maximum, and the receiver's state does not change.
pub validate_replayed :
    (now : ℕ) (m : Message) (h : E2eHeader) (c : E2eConfig) (q : BasicE2eProfile)
    → m.e2e_header ≡ some h
    → c.enable_counter ≡ true
    → 10 ≤ c.max_counter_value
    → c.max_counter_value < 2 ^ 32
    → counter_of c.data_id q ≤ c.max_counter_value - 10
    → h.counter < counter_of c.data_id q
    → validate now m c q ≡ (invalid_argument, q)
unfolding validate check_header check_counter
validate_replayed now m h c q e on ten fits far low =
    rw e
      (ground (arith, counter_valid_replay c.max_counter_value (counter_of c.data_id q) h.counter))
