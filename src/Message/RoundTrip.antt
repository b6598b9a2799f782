-- ===== src/Message/RoundTrip.antt =====
-- `deserialize` behind `serialize`.
use opensomeip.Base.{
  ℕ, ◌+◌, ◌≤◌, ◌≡◌, refl, ◌∙◌, true, List, ◌++◌, Option, none, some, arith, length, ge→ltb,
  Bool-cases, All, drop, Option-cases, inl, inr,
}
use opensomeip.Base.Bytes.{IsByte}
use opensomeip.E2e.Header.{E2eHeader, IsE2eHeader}
use opensomeip.E2e.Header as Header
use opensomeip.Message.{
  Message, IsTyped, serialize, e2e_size, e2e_bytes, read_payload, is_valid, has_valid_message_type,
  deserialize, is_plausible,
}
use opensomeip.Message.Fields.{
  body, detect_in, detect_e2e_header-serialize, read_header-serialize, Header-deserialize-serialize,
  Header-deserialize-IsE2eHeader,
}
use opensomeip.Message.Plausible.{IsDetectable, is_plausible_sound, is_plausible_complete}
use opensomeip.Message.Length.{length-serialize}

-- The message whose end-to-end header and payload are a given cut of the bytes of `m`.
abbrev pub recut : Message → Option E2eHeader → ℕ → Message
recut m e now = record m { e2e_header = e; payload = drop (e2e_size e) (body m); timestamp = now }

length-body : (m : Message) → is_valid m ≡ true → m.length ≡ 8 + length (body m)
unfolding serialize
length-body m v = omega (arith, (length-serialize m).1 v)

read_payload-serialize :
    (m0 m : Message) (e : Option E2eHeader) (now : ℕ)
    → is_valid m ≡ true
    → e2e_size e ≤ length (body m)
    → read_payload
        (record m { payload = m0.payload; e2e_header = e; timestamp = m0.timestamp })
        (serialize m)
        now
      ≡ (recut m e now, is_valid (recut m e now))
unfolding read_payload serialize
read_payload-serialize m0 m none now v fits = ground (arith, length-body m v)
read_payload-serialize m0 m (some h) now v fits = ground (arith, length-body m v)

detect_in_fits : (b : List ℕ) → e2e_size (detect_in b) ≤ length b
unfolding Header.deserialize
detect_in_fits b = ground arith

pub deserialize-serialize_cut :
    (m0 m : Message) (now : ℕ)
    → IsTyped m
    → is_valid m ≡ true
    → let cut = recut m (detect_in (body m)) now in
      deserialize m0 (serialize m) now ≡ (cut, is_valid cut)
unfolding deserialize
deserialize-serialize_cut m0 m now t v =
    rw
      (
        ge→ltb (length (serialize m)) 16 (omega (arith, (length-serialize m).1 v, length-body m v)),
        read_header-serialize m0 m t,
        detect_e2e_header-serialize m (length-body m v),
      )
      (read_payload-serialize m0 m (detect_in (body m)) now v (detect_in_fits (body m)))

-- The bytes behind the return code say whether there is an end-to-end header: a header is
-- detectable, and a message without one has no payload that begins like a detectable header.
abbrev pub IsUnambiguous : Option E2eHeader → List ℕ → Type 0
IsUnambiguous none payload =
    (h : E2eHeader) → Header.deserialize payload 0 ≡ some h → ¬ IsDetectable h
IsUnambiguous (some h) payload = IsDetectable h

detect_in-unambiguous :
    (e : Option E2eHeader) (payload : List ℕ)
    → ((h : E2eHeader) → e ≡ some h → IsE2eHeader h)
    → All IsByte payload
    → IsUnambiguous e payload
    → detect_in (e2e_bytes e ++ payload) ≡ e
detect_in-unambiguous none payload typed bytes u =
    elim (Option-cases (Header.deserialize payload 0)) [
      | inl e ↦ rw e
      | inr (h, e) ↦ elim (Bool-cases (is_plausible h)) [
        | inl p ↦
            absurd
              (u h e (is_plausible_sound h (Header-deserialize-IsE2eHeader payload 0 h bytes e) p))
        | inr p ↦ rw (e, p)
      ]
    ]
detect_in-unambiguous (some h) payload typed bytes u = rw (
  Header-deserialize-serialize h payload (typed h refl),
  is_plausible_complete h (typed h refl) u,
)

recut_same :
    (m : Message) (e : Option E2eHeader) (now : ℕ)
    → m.e2e_header ≡ e
    → recut m e now ≡ record m { timestamp = now }
unfolding Header.serialize
recut_same m none now e = ground arith
recut_same m (some h) now e = ground arith

is_valid_timestamp : (m : Message) (now : ℕ) → is_valid (record m { timestamp = now }) ≡ is_valid m
unfolding is_valid has_valid_message_type
is_valid_timestamp m now = refl

-- A valid message whose end-to-end header is unambiguous comes back from its byte image unchanged
-- but for the time stamp, whatever the object held before.
pub deserialize-serialize :
    (m0 m : Message) (now : ℕ)
    → IsTyped m
    → is_valid m ≡ true
    → IsUnambiguous m.e2e_header m.payload
    → deserialize m0 (serialize m) now ≡ (record m { timestamp = now }, true)
deserialize-serialize m0 m now t v u =
    deserialize-serialize_cut m0 m now t v
    ∙ rw (
      detect_in-unambiguous m.e2e_header m.payload t.e2e_fits t.payload_fits u,
      recut_same m m.e2e_header now refl,
      is_valid_timestamp m now,
      v,
    )
