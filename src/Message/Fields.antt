-- ===== src/Message/Fields.antt =====
-- The fixed header of a byte image, read back field by field.
use opensomeip.Base.{
  ℕ, ◌+◌, ◌<◌, ◌≡◌, List, ◌∷◌, ◌++◌, Option, none, some, arith, All, length, ltb, ltb→lt,
  Bool-cases, inl, inr,
}
use opensomeip.Base.Bytes.{IsByte, be16_sum, be32_sum, read32-lt, read16-lt}
use opensomeip.Types.{message_id_to_uint32, request_id_to_uint32}
use opensomeip.Types.Laws.{
  message_id_from_uint32-to_uint32, request_id_from_uint32-to_uint32, message_id_to_uint32-lt,
  request_id_to_uint32-lt,
}
use opensomeip.E2e.Header.{E2eHeader, IsE2eHeader}
use opensomeip.E2e.Header as Header
use opensomeip.Message.{
  Message, IsTyped, serialize, e2e_bytes, read_header, detect_e2e_header, keep_plausible,
}

-- What stands behind the return code.
abbrev pub body : Message → List ℕ
body m = e2e_bytes m.e2e_header ++ m.payload

abbrev pub detect_in : List ℕ → Option E2eHeader
detect_in b = keep_plausible (Header.deserialize b 0)

abbrev framed : (b0 b1 b2 b3 b4 b5 b6 b7 b8 b9 b10 b11 b12 b13 b14 b15 : ℕ) → List ℕ → List ℕ
framed b0 b1 b2 b3 b4 b5 b6 b7 b8 b9 b10 b11 b12 b13 b14 b15 b =
    b0 ∷ b1 ∷ b2 ∷ b3 ∷ b4 ∷ b5 ∷ b6 ∷ b7 ∷ b8 ∷ b9 ∷ b10 ∷ b11 ∷ b12 ∷ b13 ∷ b14 ∷ b15 ∷ b

module _ (b0 b1 b2 b3 b4 b5 b6 b7 b8 b9 b10 b11 b12 b13 b14 b15 : ℕ) (b : List ℕ) where
  Header-deserialize-framed :
      Header.deserialize (framed b0 b1 b2 b3 b4 b5 b6 b7 b8 b9 b10 b11 b12 b13 b14 b15 b) 16
      ≡ Header.deserialize b 0
  unfolding Header.deserialize
  Header-deserialize-framed = ground arith

  Header-deserialize_short : length b < 12 → Header.deserialize b 0 ≡ none
  unfolding Header.deserialize
  Header-deserialize_short h = ground arith

  detect_e2e_header-framed :
      (len : ℕ)
      → len ≡ 8 + length b
      → detect_e2e_header len (framed b0 b1 b2 b3 b4 b5 b6 b7 b8 b9 b10 b11 b12 b13 b14 b15 b)
        ≡ detect_in b
  unfolding detect_e2e_header
  detect_e2e_header-framed len e = elim (Bool-cases (ltb (length b) 12)) [
    | inl short ↦ rw (Header-deserialize_short (ltb→lt _ _ short)) (ground arith)
    | inr long ↦ rw (← Header-deserialize-framed) (ground arith)
  ]

pub detect_e2e_header-serialize :
    (m : Message)
    → m.length ≡ 8 + length (body m)
    → detect_e2e_header m.length (serialize m) ≡ detect_in (body m)
unfolding serialize
detect_e2e_header-serialize m e =
    detect_e2e_header-framed _ _ _ _ _ _ _ _ _ _ _ _ _ _ _ _ (body m) m.length e

pub read_header-serialize :
    (m0 m : Message)
    → IsTyped m
    → read_header m0 (serialize m)
      ≡ record m { payload = m0.payload; e2e_header = m0.e2e_header; timestamp = m0.timestamp }
unfolding read_header serialize
read_header-serialize m0 m t = rw (
  be32_sum (message_id_to_uint32 m.message_id) (message_id_to_uint32-lt _ t.id_fits),
  be32_sum m.length t.length_fits,
  be32_sum (request_id_to_uint32 m.request_id) (request_id_to_uint32-lt _ t.request_fits),
  message_id_from_uint32-to_uint32 _ t.id_fits,
  request_id_from_uint32-to_uint32 _ t.request_fits,
)

pub Header-deserialize-serialize :
    (h : E2eHeader) (rest : List ℕ)
    → IsE2eHeader h
    → Header.deserialize (Header.serialize h ++ rest) 0 ≡ some h
unfolding Header.deserialize Header.serialize
Header-deserialize-serialize h rest (c, n, i, f) =
    rw (be32_sum h.crc c, be32_sum h.counter n, be16_sum h.data_id i, be16_sum h.freshness_value f)
      (ground arith)

pub Header-deserialize-IsE2eHeader :
    (d : List ℕ) (i : ℕ) (h : E2eHeader)
    → All IsByte d
    → Header.deserialize d i ≡ some h
    → IsE2eHeader h
unfolding Header.deserialize
Header-deserialize-IsE2eHeader d i h bytes e = ground (
  arith,
  read32-lt d i bytes,
  read32-lt d (i + 4) bytes,
  read16-lt d (i + 8) bytes,
  read16-lt d (i + 10) bytes,
)
