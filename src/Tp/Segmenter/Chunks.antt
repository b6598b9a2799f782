-- ===== src/Tp/Segmenter/Chunks.antt =====
-- What each segment of a message carries.
use opensomeip.Base.{
  ℕ, ◌-◌, ◌^◌, ◌≤◌, ◌<◌, ◌≡◌, refl, arith, min, true, leb, length, drop, length-take, length-drop,
  Bool-cases, inl, inr,
}
use opensomeip.Message.{Message, serialize}
use opensomeip.Tp.{TpConfig}
use opensomeip.Tp.Segmenter.{
  first_of, next_of, first_payload_size, next_payload_size, serialize_tp_header,
}
use opensomeip.Tp.Reassembler.{validate_segment}
use opensomeip.Tp.Reassembler.Buffer.{Carries}

module _ (c : TpConfig) (low : 20 < c.max_segment_size) (high : c.max_segment_size < 2 ^ 16) where
  pub first_payload_size_lem :
      (total : ℕ)
      → total < 2 ^ 16
      → first_payload_size c total ≡ min (c.max_segment_size - 20) total
  unfolding first_payload_size
  first_payload_size_lem total small = omega arith

  pub next_payload_size_lem :
      (remaining : ℕ)
      → remaining < 2 ^ 16
      → next_payload_size c remaining ≡ min (c.max_segment_size - 4) remaining
  unfolding next_payload_size
  next_payload_size_lem remaining small = omega arith

  module _ (m : Message) (sequence : ℕ) (small : length m.payload < 2 ^ 16) where
    pub first_of-Carries :
        Carries m.payload sequence 0
          (first_payload_size c (length m.payload))
          (first_of c m (length m.payload) sequence)
    unfolding first_of serialize_tp_header serialize
    first_of-Carries = record { offset = refl; position = refl; bytes = refl; number = refl }

    pub next_of-Carries :
        (o : ℕ)
        → Carries m.payload sequence o
            (next_payload_size c (length m.payload - o))
            (next_of c m.payload (length m.payload) sequence o)
    unfolding next_of
    next_of-Carries o = elim (Bool-cases (leb (length m.payload - o) c.max_segment_size)) [
      | inl last ↦ record {
        offset = refl;
        position = rw last refl;
        bytes = rw last refl;
        number = refl;
      }
      | inr more ↦ record {
        offset = refl;
        position = rw more refl;
        bytes = rw more refl;
        number = refl;
      }
    ]

    pub first_of-valid :
        (r : TpConfig)
        → length m.payload ≤ r.max_message_size
        → validate_segment r (first_of c m (length m.payload) sequence) ≡ true
    unfolding validate_segment first_of serialize_tp_header serialize
    first_of-valid r fits = ground (
      arith,
      first_payload_size_lem (length m.payload) small,
      length-take (first_payload_size c (length m.payload)) m.payload,
    )

    pub next_of-valid :
        (r : TpConfig) (o : ℕ)
        → o < length m.payload
        → length m.payload ≤ r.max_message_size
        → validate_segment r (next_of c m.payload (length m.payload) sequence o) ≡ true
    unfolding validate_segment next_of
    next_of-valid r o inside fits = ground (
      arith,
      next_payload_size_lem (length m.payload - o) (omega arith),
      length-take (next_payload_size c (length m.payload - o)) (drop o m.payload),
      length-drop o m.payload,
    )
