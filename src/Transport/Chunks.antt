-- ===== src/Transport/Chunks.antt =====
-- When a message that is sent over TCP arrives.
use opensomeip.Base.{
  ℕ, zero, suc, ◌+◌, ◌≤◌, ◌<◌, ◌≡◌, ◌⊎◌, inl, inr, refl, sym, ap, ◌∙◌, arith, min, Bool, Bool-cases,
  true, false, ◌==◌, ge→ltb, ne→==, List, [], ◌∷◌, ◌++◌, length, length-take, take, take-length,
  drop, take-append-drop, Option, some, some_inj,
}
use mathlib.Core.Path.{subst}
use opensomeip.Base.Bytes.{read32, read32-append}
use opensomeip.Result.{success, not_connected}
use opensomeip.Message.{Message, get_total_size, IsTyped, is_valid, default_message, serialize}
use opensomeip.Message.RoundTrip.{IsUnambiguous, deserialize-serialize}
use opensomeip.Message.Length.{length-serialize}
use opensomeip.Message.Accepts.{serialize-length_field}
use opensomeip.Transport.Tcp.{
  TcpTransport, SendOutcome, got, received, is_connected, chunk_size, send_message, receive_data,
  receive_round, parse_message_from_buffer, heard, queued,
}
use opensomeip.Transport.Sending.{send_data-success}

read32-take : (k : ℕ) (d : List ℕ) → 8 ≤ k → 8 ≤ length d → read32 (take k d) 4 ≡ read32 d 4
read32-take k d h j =
    sym (read32-append (take k d) (drop k d) 4 (omega (arith, length-take k d)))
    ∙ ap (λ x. read32 x 4) (take-append-drop k d)

-- A buffer that is shorter than its length field says.
parse-incomplete :
    (limit now : ℕ) (d : List ℕ)
    → (length d < 16) ⊎ (length d < 8 + read32 d 4)
    → (parse_message_from_buffer limit now d).0 ≡ false
unfolding parse_message_from_buffer
parse-incomplete limit now d h = ground arith

queued_nothing :
    (now : ℕ) (t : TcpTransport) (p : Bool × List ℕ × Option Message)
    → p.0 ≡ false
    → queued now t p ≡ (t, [])
queued_nothing now t (false, rest, m) e = refl
queued_nothing now t (true, rest, m) e = absurd (true_differs e)
  where
    true_differs : true ≡ false → ⊥
    true_differs h = cc

heard-incomplete :
    (now : ℕ) (t : TcpTransport) (d : List ℕ)
    → (length d < 16) ⊎ (length d < 8 + read32 d 4)
    → heard now t (success, d) ≡ (t, [])
heard-incomplete now t [] h = refl
heard-incomplete now t (x ∷ xs) h =
    queued_nothing now t _ (parse-incomplete t.max_receive_buffer now (x ∷ xs) h)

heard-parsed :
    (now : ℕ) (t : TcpTransport) (d : List ℕ)
    → 1 ≤ length d
    → heard now t (success, d) ≡ queued now t (parse_message_from_buffer t.max_receive_buffer now d)
heard-parsed now t [] h = absurd (omega (arith, h))
heard-parsed now t (x ∷ xs) h = refl

receive_round-heard :
    (now : ℕ) (t : TcpTransport) (d : List ℕ)
    → is_connected t ≡ true
    → 1 ≤ t.max_receive_buffer
    → receive_round now (got d) t ≡ heard now t (success, take (chunk_size t) d)
unfolding receive_round receive_data
receive_round-heard now t d on room =
    let some_bytes : (chunk_size t == 0) ≡ false =
      ne→== (chunk_size t) 0 (λ e. omega (arith, e, room)) in
    rw (receive_round, on, receive_data, some_bytes) refl

take-all : (n : ℕ) (d : List ℕ) → length d ≤ n → take n d ≡ d
take-all zero [] h = refl
take-all zero (x ∷ d) h = absurd (omega (arith, h))
take-all (suc n) [] h = refl
take-all (suc n) (x ∷ d) h = ap (◌∷◌ x) (take-all n d (omega (arith, h)))

short_or_long : (n : ℕ) → (n < 16) ⊎ (16 ≤ n)
short_or_long n = ground arith

length-serialize_min : (m : Message) → 16 ≤ length (serialize m)
unfolding get_total_size
length-serialize_min m = omega (arith, (length-serialize m).0)

module _ (now : ℕ) (m : Message) (t : TcpTransport) (typed : IsTyped m) (v : is_valid m ≡ true)
    (u : IsUnambiguous m.e2e_header m.payload) (on : is_connected t ≡ true)
    (room : 1 ≤ t.max_receive_buffer) where
  size : length (serialize m) ≡ 8 + m.length
  size = (length-serialize m).1 v

  parse-whole :
      length (serialize m) ≤ chunk_size t
      → parse_message_from_buffer t.max_receive_buffer now (serialize m)
        ≡ (true, drop (8 + m.length) (serialize m), some (record m { timestamp = now }))
  unfolding parse_message_from_buffer
  parse-whole fits =
      let all : take (8 + m.length) (serialize m) ≡ serialize m =
        ap (λ n. take n (serialize m)) (sym size) ∙ take-length (serialize m) in
      rw
        (
          serialize-length_field m typed,
          all,
          deserialize-serialize (default_message now) m now typed v u,
          ge→ltb t.max_receive_buffer (length (serialize m)) (omega (arith, fits)),
          ge→ltb (length (serialize m)) 16 (length-serialize_min m),
          ge→ltb m.length 8 (omega (arith, size, length-serialize_min m)),
          ge→ltb 65535 m.length (omega (arith, size, fits)),
          ge→ltb (length (serialize m)) (8 + m.length) (omega (arith, size)),
        )
        refl

  arrives :
      length (serialize m) ≤ chunk_size t
      → receive_round now (got (serialize m)) t ≡ (
        record t {
          message_queue = t.message_queue ++ record m { timestamp = now } ∷ [];
          last_activity = now;
        },
        received (record m { timestamp = now }) ∷ [],
      )
  arrives fits =
      receive_round-heard now t (serialize m) on room
      ∙ ap (λ d. heard now t (success, d)) (take-all (chunk_size t) (serialize m) fits)
      ∙ heard-parsed now t (serialize m) (omega (arith, length-serialize_min m))
      ∙ ap (queued now t) (parse-whole fits)

  is_lost :
      (k : ℕ)
      → min k (chunk_size t) < length (serialize m)
      → receive_round now (got (take k (serialize m))) t ≡ (t, [])
  is_lost k short =
      receive_round-heard now t (take k (serialize m)) on room
      ∙ heard-incomplete now t chunk (elim (short_or_long (length chunk)) [
        | inl few ↦ inl few
        | inr many ↦ inr (
            omega (
              arith,
              many,
              count,
              short,
              size,
              read32-take n front (omega (arith, many, count))
                  (omega (arith, many, count, length-take k (serialize m))),
              read32-take k (serialize m) (omega (arith, many, count, length-take k (serialize m)))
                  (omega (arith, length-serialize_min m)),
              serialize-length_field m typed,
            ))
      ])
    where
      n : ℕ
      n = chunk_size t

      front : List ℕ
      front = take k (serialize m)

      chunk : List ℕ
      chunk = take n front

      count : length chunk ≡ min n (min k (length (serialize m)))
      count = length-take n front ∙ ap (min n) (length-take k (serialize m))

unconnected : not_connected ≡ success → ⊥
unconnected e = cc

sent_bytes :
    (outcomes : List SendOutcome) (now : ℕ) (m : Message) (a : TcpTransport)
    → (send_message outcomes now m a).0 ≡ some success
    → (send_message outcomes now m a).2 ≡ serialize m
unfolding send_message
sent_bytes outcomes now m a e = elim (Bool-cases (is_connected a)) [
  | inr off ↦ absurd (unconnected (some_inj (rw off at e)))
  | inl on ↦ rw on (send_data-success outcomes (serialize m) (rw on at e))
]

-- A valid message, whose end-to-end header is unambiguous, is sent with success, in however many
-- pieces. If a connected receiver finds all its bytes, and no more than a chunk holds, in one round
-- of its receive loop, the message is queued and handed to the listener. If it finds only some of
-- them, or they are more than a chunk holds, the round leaves the receiver as it was, with no event:
-- the bytes are lost.
pub send_message-receive_round :
    (outcomes : List SendOutcome) (sent_at now : ℕ) (m : Message) (a t : TcpTransport)
    → IsTyped m
    → is_valid m ≡ true
    → IsUnambiguous m.e2e_header m.payload
    → (send_message outcomes sent_at m a).0 ≡ some success
    → is_connected t ≡ true
    → 1 ≤ t.max_receive_buffer
    → let bytes = (send_message outcomes sent_at m a).2 in
      (length bytes ≤ chunk_size t
        → receive_round now (got bytes) t ≡ (
          record t {
            message_queue = t.message_queue ++ record m { timestamp = now } ∷ [];
            last_activity = now;
          },
          received (record m { timestamp = now }) ∷ [],
        ))
      × ((k : ℕ)
          → min k (chunk_size t) < length bytes
          → receive_round now (got (take k bytes)) t ≡ (t, []))
send_message-receive_round outcomes sent_at now m a t typed v u ok on room =
    subst
      (λ bytes.
        (length bytes ≤ chunk_size t
          → receive_round now (got bytes) t ≡ (
            record t {
              message_queue = t.message_queue ++ record m { timestamp = now } ∷ [];
              last_activity = now;
            },
            received (record m { timestamp = now }) ∷ [],
          ))
        × ((k : ℕ)
            → min k (chunk_size t) < length bytes
            → receive_round now (got (take k bytes)) t ≡ (t, [])))
      (sym (sent_bytes outcomes sent_at m a ok))
      (arrives now m t typed v u on room, is_lost now m t typed v u on room)
