-- ===== src/Message/Accepts.antt =====
-- What `deserialize` accepts, and what it answers to anything else.
use opensomeip.Base.{
  ℕ, ◌+◌, ◌≤◌, ◌≡◌, refl, ap, sym, ◌∙◌, true, false, List, ◌∷◌, ◌++◌, Option, none, some, arith,
  length, length-append, ltb, All, drop, inl, inr, Bool, Bool-cases,
}
use opensomeip.Base.Bytes.{
  IsByte, read32, be32, read32-lt, read32-append, be32_sum, drop-word32, drop-word16, drop_four,
  be16, read16,
}
use opensomeip.Types.Laws.{message_id_to_uint32-from_uint32, request_id_to_uint32-from_uint32}
use opensomeip.E2e.Header.{E2eHeader, IsE2eHeader}
use opensomeip.E2e.Header as Header
use opensomeip.Message.{
  Message, IsTyped, serialize, e2e_size, e2e_bytes, read_header, read_payload, detect_e2e_header,
  is_valid, deserialize,
}
use opensomeip.Message.Length.{length-serialize}
use opensomeip.Message.Validity.{IsValid, is_valid_sound}

Header-bytes :
    (d : List ℕ)
    → All IsByte d
    → 28 ≤ length d
    → be32 (read32 d 16)
        ++ (be32 (read32 d 20) ++ (be16 (read16 d 24) ++ (be16 (read16 d 26) ++ drop 28 d)))
      ≡ drop 16 d
Header-bytes d bytes h = sym (
    drop-word32 d 16 (omega arith) bytes
    ∙ ap (λ t. be32 (read32 d 16) ++ t)
        (drop-word32 d 20 (omega arith) bytes
          ∙ ap (λ t. be32 (read32 d 20) ++ t)
              (drop-word16 d 24 (omega arith) bytes
                ∙ ap (λ t. be16 (read16 d 24) ++ t) (drop-word16 d 26 (omega arith) bytes))))

Header-deserialize-bytes :
    (d : List ℕ) (h : E2eHeader)
    → All IsByte d
    → Header.deserialize d 16 ≡ some h
    → Header.serialize h ++ drop 28 d ≡ drop 16 d
unfolding Header.deserialize Header.serialize
Header-deserialize-bytes d h bytes e = ground (arith, Header-bytes d bytes)

detect_e2e_header-found :
    (d : List ℕ) (len : ℕ) (h : E2eHeader)
    → detect_e2e_header len d ≡ some h
    → Header.deserialize d 16 ≡ some h
unfolding detect_e2e_header
detect_e2e_header-found d len h e = ground arith

-- A header that is found stands in the bytes behind the return code.
detect_e2e_header-bytes :
    (d : List ℕ) (len : ℕ) (e : Option E2eHeader)
    → All IsByte d
    → detect_e2e_header len d ≡ e
    → e2e_bytes e ++ drop (16 + e2e_size e) d ≡ drop 16 d
detect_e2e_header-bytes d len none bytes p = refl
detect_e2e_header-bytes d len (some h) bytes p =
    Header-deserialize-bytes d h bytes (detect_e2e_header-found d len h p)

read_header-bytes :
    (m0 : Message) (d : List ℕ) (e : Option E2eHeader) (now : ℕ)
    → All IsByte d
    → 16 ≤ length d
    → e2e_bytes e ++ drop (16 + e2e_size e) d ≡ drop 16 d
    → serialize (record (read_header m0 d) {
      e2e_header = e;
      payload = drop (16 + e2e_size e) d;
      timestamp = now;
    })
      ≡ d
unfolding serialize read_header
read_header-bytes m0 d e now bytes h p =
    rw
      (
        message_id_to_uint32-from_uint32 (read32 d 0) (read32-lt d 0 bytes),
        request_id_to_uint32-from_uint32 (read32 d 8) (read32-lt d 8 bytes),
        p,
      )
      (sym (
        drop-word32 d 0 (omega arith) bytes
        ∙ ap (λ t. be32 (read32 d 0) ++ t)
            (drop-word32 d 4 (omega arith) bytes
              ∙ ap (λ t. be32 (read32 d 4) ++ t)
                  (drop-word32 d 8 (omega arith) bytes
                    ∙ ap (λ t. be32 (read32 d 8) ++ t) (drop_four d 12 (omega arith))))))

-- The two guards of `read_payload` on its success.
read_payload-accepts :
    (m m' : Message) (d : List ℕ) (now : ℕ)
    → read_payload m d now ≡ (m', true)
    → (is_valid m' ≡ true)
      × (m' ≡ record m { payload = drop (16 + e2e_size m.e2e_header) d; timestamp = now })
unfolding read_payload
read_payload-accepts m m' d now e = ground arith

-- A call that returns `true` had 16 bytes, and its two guards were passed.
deserialize-accepts :
    (m0 m : Message) (d : List ℕ) (now : ℕ)
    → deserialize m0 d now ≡ (m, true)
    → (16 ≤ length d)
      × (is_valid m ≡ true)
      × (m ≡ (
          let header = read_header m0 d in
          let e = detect_e2e_header header.length d in
          record header { e2e_header = e; payload = drop (16 + e2e_size e) d; timestamp = now }))
unfolding deserialize
deserialize-accepts m0 m d now e = elim (Bool-cases (ltb (length d) 16)) [
  | inl short ↦ absurd (ground arith)
  | inr long ↦
      let header = read_header m0 d in
      let (valid, same) =
        read_payload-accepts (record header { e2e_header = detect_e2e_header header.length d }) m d
          now (rw long at e) in
      (ground arith, valid, same)
]

pub deserialize-valid :
    (m : Message) (d : List ℕ) (now : ℕ)
    → (deserialize m d now).1 ≡ true
    → is_valid (deserialize m d now).0 ≡ true
deserialize-valid m d now s =
    let left = (deserialize m d now).0 in
    (deserialize-accepts m left d now (ap (λ (b : Bool). (left, b)) s)).1

-- What `deserialize` accepts is the byte image of the message that it stores, and that message is
-- valid and carries the time of the call.
pub serialize-deserialize :
    (m0 m : Message) (d : List ℕ) (now : ℕ)
    → All IsByte d
    → deserialize m0 d now ≡ (m, true)
    → (serialize m ≡ d) × IsValid m × (m.timestamp ≡ now)
serialize-deserialize m0 m d now bytes e =
    let (long, valid, same) = deserialize-accepts m0 m d now e in
    let found = detect_e2e_header (read_header m0 d).length d in
    (
      ap serialize same
          ∙ read_header-bytes m0 d found now bytes long
              (detect_e2e_header-bytes d (read_header m0 d).length found bytes refl),
      is_valid_sound m valid,
      ap (λ (r : Message). r.timestamp) same,
    )

-- The length field of accepted data counts all bytes behind it.
accepted-length :
    (m0 m : Message) (d : List ℕ) (now : ℕ)
    → All IsByte d
    → deserialize m0 d now ≡ (m, true)
    → (16 ≤ length d) × (length d ≡ 8 + read32 d 4)
accepted-length m0 m d now bytes e =
    let (long, valid, same) = deserialize-accepts m0 m d now e in
    let (image, _, _) = serialize-deserialize m0 m d now bytes e in
    (
      long,
      sym (ap length image)
          ∙ (length-serialize m).1 valid
          ∙ ap (λ (r : Message). 8 + r.length) same
          ∙ unfold read_header in refl,
    )

pub serialize-length_field : (m : Message) → IsTyped m → read32 (serialize m) 4 ≡ m.length
unfolding serialize
serialize-length_field m t = be32_sum m.length t.length_fits

-- No proper beginning of the byte image of a valid message is accepted.
pub deserialize_truncated :
    (m0 m : Message) (front back : List ℕ) (x now : ℕ)
    → IsTyped m
    → is_valid m ≡ true
    → All IsByte front
    → serialize m ≡ front ++ (x ∷ back)
    → (deserialize m0 front now).1 ≡ false
deserialize_truncated m0 m front back x now t v bytes e =
    elim (Bool-cases (deserialize m0 front now).1) [
      | inr rejected ↦ rejected
      | inl accepted ↦
          let (long, counted) =
            accepted-length m0 (deserialize m0 front now).0 front now bytes
              (ground (arith, accepted)) in
          absurd (
            omega (
              arith,
              counted,
              ap length e,
              length-append front (x ∷ back),
              (length-serialize m).1 v,
              sym (serialize-length_field m t)
                  ∙ ap (λ d. read32 d 4) e
                  ∙ read32-append front (x ∷ back) 4 (omega arith),
            ))
    ]
