-- ===== src/Message/Confusion.antt =====
-- Where the header test of `deserialize` is wrong: a header that it takes for a payload, and a
-- payload that it takes for a header.
use opensomeip.Base.{
  ℕ, ◌+◌, ◌≤◌, ◌≡◌, ap, ◌∙◌, true, false, List, ◌++◌, none, some, arith, length, Bool-cases, inl,
  inr,
}
use opensomeip.E2e.Header.{E2eHeader, IsE2eHeader}
use opensomeip.E2e.Header as Header
use opensomeip.Message.{Message, IsTyped, serialize, is_valid, deserialize, is_plausible}
use opensomeip.Message.Fields.{body, detect_in, Header-deserialize-serialize}
use opensomeip.Message.Plausible.{IsDetectable, is_plausible_sound, is_plausible_complete}
use opensomeip.Message.RoundTrip.{recut, deserialize-serialize_cut}
use opensomeip.Message.Validity.{IsValid, is_valid_sound, is_valid_complete}

implausible : (h : E2eHeader) → IsE2eHeader h → ¬ IsDetectable h → is_plausible h ≡ false
implausible h typed n = elim (Bool-cases (is_plausible h)) [
  | inl p ↦ absurd (n (is_plausible_sound h typed p))
  | inr p ↦ p
]

detect_in-lost :
    (m : Message) (h : E2eHeader)
    → m.e2e_header ≡ some h
    → IsE2eHeader h
    → ¬ IsDetectable h
    → detect_in (body m) ≡ none
detect_in-lost m h e typed n =
    rw (e, Header-deserialize-serialize h m.payload typed, implausible h typed n)

detect_in-forged :
    (m : Message) (h : E2eHeader) (rest : List ℕ)
    → m.e2e_header ≡ none
    → m.payload ≡ Header.serialize h ++ rest
    → IsE2eHeader h
    → IsDetectable h
    → detect_in (body m) ≡ some h
detect_in-forged m h rest e p typed u =
    rw (e, p, Header-deserialize-serialize h rest typed, is_plausible_complete h typed u)

absorbed-IsValid :
    (m : Message) (h : E2eHeader) (now : ℕ)
    → IsValid m
    → m.e2e_header ≡ some h
    → 12 + length m.payload ≤ 65535
    → IsValid
        (record m { e2e_header = none; payload = Header.serialize h ++ m.payload; timestamp = now })
unfolding Header.serialize
absorbed-IsValid m h now v e fits = ground arith

split-IsValid :
    (m : Message) (h : E2eHeader) (rest : List ℕ) (now : ℕ)
    → IsValid m
    → m.e2e_header ≡ none
    → m.payload ≡ Header.serialize h ++ rest
    → IsValid (record m { e2e_header = some h; payload = rest; timestamp = now })
unfolding Header.serialize
split-IsValid m h rest now v e p = ground (arith, ap length p)

recut-absorbed :
    (m : Message) (h : E2eHeader) (now : ℕ)
    → m.e2e_header ≡ some h
    → recut m none now
      ≡ record m { e2e_header = none; payload = Header.serialize h ++ m.payload; timestamp = now }
recut-absorbed m h now e = rw e

recut-split :
    (m : Message) (h : E2eHeader) (rest : List ℕ) (now : ℕ)
    → m.e2e_header ≡ none
    → m.payload ≡ Header.serialize h ++ rest
    → recut m (some h) now ≡ record m { e2e_header = some h; payload = rest; timestamp = now }
unfolding Header.serialize
recut-split m h rest now e p = rw (e, p)

-- A valid message whose header is not detectable comes back with no end-to-end header, the twelve
-- header bytes standing in front of its payload, and the call still returns `true`, as long as the
-- two together fit the payload limit.
pub header_lost :
    (m0 m : Message) (h : E2eHeader) (now : ℕ)
    → IsTyped m
    → is_valid m ≡ true
    → m.e2e_header ≡ some h
    → ¬ IsDetectable h
    → 12 + length m.payload ≤ 65535
    → deserialize m0 (serialize m) now ≡ (
      record m { e2e_header = none; payload = Header.serialize h ++ m.payload; timestamp = now },
      true,
    )
header_lost m0 m h now t v e n fits =
    deserialize-serialize_cut m0 m now t v
    ∙ rw (
      detect_in-lost m h e (t.e2e_fits h e) n,
      recut-absorbed m h now e,
      is_valid_complete _ (absorbed-IsValid m h now (is_valid_sound m v) e fits),
    )

-- A valid message with no header, whose payload begins with the bytes of a detectable header, comes
-- back with that header and a payload that is twelve bytes shorter.
pub header_forged :
    (m0 m : Message) (h : E2eHeader) (rest : List ℕ) (now : ℕ)
    → IsTyped m
    → is_valid m ≡ true
    → m.e2e_header ≡ none
    → m.payload ≡ Header.serialize h ++ rest
    → IsE2eHeader h
    → IsDetectable h
    → deserialize m0 (serialize m) now
      ≡ (record m { e2e_header = some h; payload = rest; timestamp = now }, true)
header_forged m0 m h rest now t v e p typed u =
    deserialize-serialize_cut m0 m now t v
    ∙ rw (
      detect_in-forged m h rest e p typed u,
      recut-split m h rest now e p,
      is_valid_complete _ (split-IsValid m h rest now (is_valid_sound m v) e p),
    )
