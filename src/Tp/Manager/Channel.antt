-- ===== src/Tp/Manager/Channel.antt =====
-- Two managers as a channel: one cuts a message up and hands its segments out, the other takes them.
use opensomeip.Base.{
  ℕ, zero, suc, ◌+◌, ◌-◌, ◌%◌, ◌^◌, ◌≤◌, ◌<◌, ◌≡◌, refl, sym, ap, ◌∙◌, arith, Bool, true, false,
  ◌&&◌, ltb, leb, Bool-cases, inl, inr, List, [], ◌∷◌, ◌++◌, length, length-append, append_assoc,
  append_nil, get_elem?, get_elem?-append, get_elem?-length, All, Option, none, some, some_inj,
  Option-cases,
}
use mathlib.Core.Path.{subst}
use opensomeip.Base.Map.{find, insert, find-insert_self, none-ne-some}
use opensomeip.Message.{Message}
use opensomeip.Tp.{TpConfig, TpResult, TpSegment, success}
use opensomeip.Tp.Segmenter.{
  TpSegmenter, segment_rest, cons_segment, next_of, first_of, next_payload_size, first_payload_size,
  create_multi_segments, after_multi,
}
use opensomeip.Tp.Segmenter as Segmenter
use opensomeip.Tp.Reassembler.{TpReassembler, process_segment}
use opensomeip.Tp.Reassembler.Delivery.{process_all}
use opensomeip.Tp.InOrder.{segment_message-in_order}
use opensomeip.Tp.Manager.{
  TpManager, TpTransfer, segment_message, new_transfer, message_number, get_next_segment,
  next_of_transfer, get_transfer_status, complete, handle_received_segment, is_single,
  empty_segment,
}

-- `n` calls of `get_next_segment`, and what they return.
unfoldable pub fetch_all : ℕ → ℕ → ℕ → TpManager → List TpSegment × TpManager
fetch_all zero now id m = ([], m)
fetch_all (suc n) now id m =
    let (result, m', s) = get_next_segment now id empty_segment m in
    let (ss, m'') = fetch_all n now id m' in (s ∷ ss, m'')

-- The calls of `handle_received_segment` for a sequence of segments, each at its own time.
unfoldable pub handle_all :
    (TpSegment → ℕ) → List TpSegment → TpManager → List ℕ → Bool × TpManager × List ℕ
handle_all at [] m out = (true, m, out)
handle_all at (s ∷ ss) m out =
    let (ok, m', out') = handle_received_segment (at s) s m out in
    let (oks, m'', out'') = handle_all at ss m' out' in (ok && oks, m'', out'')

get_next_segment-fetched :
    (now id : ℕ) (t : TpTransfer) (s : TpSegment) (m : TpManager) (b : TpSegment)
    → find id m.active_transfers ≡ some t
    → get_elem? t.segments t.next_segment_to_send ≡ some s
    → (m' : TpManager) × (t' : TpTransfer) × (get_next_segment now id b m ≡ (success, m', s))
      × (find id m'.active_transfers ≡ some t')
      × (t'.segments ≡ t.segments)
      × (t'.next_segment_to_send ≡ t.next_segment_to_send + 1)
unfolding get_next_segment next_of_transfer
get_next_segment-fetched now id t s m b held at = (
  m',
  t',
  rw (get_next_segment, held, next_of_transfer, at) refl,
  find-insert_self id t' m.active_transfers,
  refl,
  refl,
)
  where
    t' : TpTransfer
    t' = record t { next_segment_to_send = t.next_segment_to_send + 1; last_activity = now }

    m' : TpManager
    m' = record m {
      active_transfers = insert id t' m.active_transfers;
      statistics = record m.statistics {
        segments_sent = (m.statistics.segments_sent + 1) % 2 ^ 32;
      };
    }

fetch_rest :
    (now id : ℕ) (rest front : List TpSegment) (t : TpTransfer) (m : TpManager)
    → find id m.active_transfers ≡ some t
    → t.segments ≡ front ++ rest
    → t.next_segment_to_send ≡ length front
    → (m' : TpManager) × (t' : TpTransfer) × (fetch_all (length rest) now id m ≡ (rest, m'))
      × (find id m'.active_transfers ≡ some t')
      × (get_elem? t'.segments t'.next_segment_to_send ≡ none)
unfolding fetch_all
fetch_rest now id [] front t m held e c =
    (m, t, refl, held, rw (e, c, append_nil front) (get_elem?-length front))
fetch_rest now id (s ∷ rest) front t m held e c =
    let (m', t', one, held', same, moved) =
      get_next_segment-fetched now id t s m empty_segment held
        (rw (e, c) (get_elem?-append front s rest)) in
    let (m'', t'', others, held'', ended) =
      fetch_rest now id rest (front ++ (s ∷ [])) t' m' held'
        (same ∙ e ∙ sym (append_assoc front (s ∷ []) rest))
        (omega (arith, moved, c, length-append front (s ∷ []))) in
    (m'', t'', rw (one, others) refl, held'', ended)

status_complete :
    (now id : ℕ) (t : TpTransfer) (m : TpManager)
    → find id m.active_transfers ≡ some t
    → get_elem? t.segments t.next_segment_to_send ≡ none
    → get_transfer_status id (get_next_segment now id empty_segment m).1 ≡ complete
unfolding get_transfer_status get_next_segment next_of_transfer
status_complete now id t m held ended =
    rw (get_next_segment, held, next_of_transfer, ended)
      (rw
        (
          get_transfer_status,
          find-insert_self id (record t { state = complete }) m.active_transfers,
        )
        refl)

-- A segment of a cut-up message.
abbrev IsPart : TpSegment → Type 0
IsPart s = is_single s.header.message_type ≡ false

next_of-IsPart :
    (c : TpConfig) (p : List ℕ) (total sequence o : ℕ) → IsPart (next_of c p total sequence o)
unfolding next_of
next_of-IsPart c p total sequence o = elim (Bool-cases (leb (total - o) c.max_segment_size)) [
  | inl last ↦ rw last refl
  | inr more ↦ rw more refl
]

-- A part goes to the reassembler.
handle_received_segment-part :
    (now : ℕ) (s : TpSegment) (m : TpManager) (out : List ℕ)
    → IsPart s
    → ((handle_received_segment now s m out).0 ≡ (process_segment now s m.reassembler out).0)
      × ((handle_received_segment now s m out).1.reassembler
          ≡ (process_segment now s m.reassembler out).1)
      × ((handle_received_segment now s m out).2 ≡ (process_segment now s m.reassembler out).2)
unfolding handle_received_segment
handle_received_segment-part now s m out part = (rw part refl, rw part refl, rw part refl)

handle_all-process_all :
    (at : TpSegment → ℕ) (ss : List TpSegment) (m : TpManager) (r : TpReassembler) (out : List ℕ)
    → m.reassembler ≡ r
    → All IsPart ss
    → ((handle_all at ss m out).0 ≡ (process_all at ss r out).0)
      × ((handle_all at ss m out).1.reassembler ≡ (process_all at ss r out).1)
      × ((handle_all at ss m out).2 ≡ (process_all at ss r out).2)
unfolding handle_all process_all
handle_all-process_all at [] m r out e parts = (refl, e, refl)
handle_all-process_all at (s ∷ ss) m r out e (part, parts) =
    let (ok, same, sent) = handle_received_segment-part (at s) s m out part in
    let (oks, ends, given) =
      handle_all-process_all at ss (handle_received_segment (at s) s m out).1
        (process_segment (at s) s m.reassembler out).1
        (process_segment (at s) s m.reassembler out).2 same parts in
    rw (← e, ok, sent) (rw oks refl, ends, given)

cons_segment-IsPart :
    (s : TpSegment) (o : Option (List TpSegment)) (ss : List TpSegment)
    → IsPart s
    → ((rest : List TpSegment) → o ≡ some rest → All IsPart rest)
    → cons_segment s o ≡ some ss
    → All IsPart ss
cons_segment-IsPart s none ss part parts e = absurd (none-ne-some e)
cons_segment-IsPart s (some rest) ss part parts e =
    subst (All IsPart) (some_inj e) (part, parts rest refl)

segment_rest-IsPart :
    (fuel : ℕ) (c : TpConfig) (p : List ℕ) (total sequence o : ℕ) (ss : List TpSegment)
    → segment_rest fuel c p total sequence o ≡ some ss
    → All IsPart ss
unfolding segment_rest
segment_rest-IsPart zero c p total sequence o ss e = elim (Bool-cases (ltb o total)) [
  | inl more ↦ absurd (none-ne-some (rw more at e))
  | inr done ↦ subst (All IsPart) (some_inj (rw done at e)) tt
]
segment_rest-IsPart (suc fuel) c p total sequence o ss e = elim (Bool-cases (ltb o total)) [
  | inl more ↦
      cons_segment-IsPart (next_of c p total sequence o) _ ss (next_of-IsPart c p total sequence o)
        (segment_rest-IsPart fuel c p total sequence
          ((o + next_payload_size c (total - o)) % 2 ^ 16))
        (rw more at e)
  | inr done ↦ subst (All IsPart) (some_inj (rw done at e)) tt
]

cut-IsPart :
    (fuel : ℕ) (s s' : TpSegmenter) (m : Message) (ss : List TpSegment)
    → s.config.max_segment_size < length m.payload
    → length m.payload ≤ s.config.max_message_size
    → Segmenter.segment_message fuel s m [] ≡ some (success, s', ss)
    → All IsPart ss
unfolding Segmenter.segment_message create_multi_segments
cut-IsPart fuel s s' m ss several allowed e = elim (Option-cases (cons_segment first rest)) [
  | inl stuck ↦ absurd (none-ne-some (rw stuck at cut))
  | inr (all, made) ↦
      subst (All IsPart)
        (ap (λ (x : TpResult × TpSegmenter × List TpSegment). x.2) (some_inj (rw made at cut)))
        (cons_segment-IsPart first rest all (unfold first_of in refl)
          (segment_rest-IsPart fuel s.config m.payload total s.next_sequence_number offset) made)
]
  where
    total : ℕ
    total = length m.payload % 2 ^ 32

    offset : ℕ
    offset = first_payload_size s.config total % 2 ^ 16

    first : TpSegment
    first = first_of s.config m total s.next_sequence_number

    rest : Option (List TpSegment)
    rest = segment_rest fuel s.config m.payload total s.next_sequence_number offset

    within : ltb s.config.max_message_size (length m.payload) ≡ false
    within = ground arith

    apart : leb (length m.payload) s.config.max_segment_size ≡ false
    apart = ground arith

    cut : after_multi s [] (cons_segment first rest) ≡ some (success, s', ss)
    cut = rw (within, apart) at e

-- A payload of more than one segment, and of fewer than 2 ^ 16 bytes, for which the sending manager
-- has room: it starts a transfer, as many calls of `get_next_segment` as there are segments hand these
-- out, the next call says that the transfer is complete, and a receiving manager that has nothing
-- under their number takes all of them and delivers the payload.
pub channel_delivers :
    (a b : TpManager) (m : Message) (now id : ℕ) (at : TpSegment → ℕ) (out : List ℕ)
    → 20 < a.segmenter.config.max_segment_size
    → a.segmenter.config.max_segment_size < 2 ^ 16
    → a.segmenter.config.max_segment_size < length m.payload
    → length m.payload < 2 ^ 16
    → length m.payload ≤ a.segmenter.config.max_message_size
    → length a.active_transfers < a.config.max_concurrent_transfers
    → length m.payload ≤ b.reassembler.config.max_message_size
    → find a.segmenter.next_sequence_number b.reassembler.reassembly_buffers ≡ none
    → (ss : List TpSegment) × (a' : TpManager) × (a'' : TpManager) × (segment_message
          (length m.payload)
          now
          m
          id
          a
        ≡ some (success, a.next_transfer_id, a'))
      × (fetch_all (length ss) now a.next_transfer_id a' ≡ (ss, a''))
      × (get_transfer_status a.next_transfer_id
            (get_next_segment now a.next_transfer_id empty_segment a'').1
          ≡ complete)
      × ((handle_all at ss b out).0 ≡ true)
      × ((handle_all at ss b out).2 ≡ m.payload)
      × ((handle_all at ss b out).1.reassembler ≡ b.reassembler)
unfolding segment_message
channel_delivers a b m now id at out low high large small allowed room takes free =
    let (ss, s', cut, given) =
      segment_message-in_order at a.segmenter low high m small large b.reassembler out takes free []
        allowed in
    let (a'', t'', fetched, held, ended) =
      fetch_rest now a.next_transfer_id ss []
        (new_transfer now a.next_transfer_id (message_number m) ss) (after s' ss)
        (find-insert_self a.next_transfer_id _ a.active_transfers) refl refl in
    let (oks, ends, sent) =
      handle_all-process_all at ss b b.reassembler out refl
        (cut-IsPart (length m.payload) a.segmenter s' m ss large allowed cut) in
    (
      ss,
      after s' ss,
      a'',
      rw (some_room, cut) refl,
      fetched,
      status_complete now a.next_transfer_id t'' a'' held ended,
      oks ∙ ap (λ (x : Bool × TpReassembler × List ℕ). x.0) given,
      sent ∙ ap (λ (x : Bool × TpReassembler × List ℕ). x.2) given,
      ends ∙ ap (λ (x : Bool × TpReassembler × List ℕ). x.1) given,
    )
  where
    some_room : leb a.config.max_concurrent_transfers (length a.active_transfers) ≡ false
    some_room = ground arith

    after : TpSegmenter → List TpSegment → TpManager
    after s' ss = record a {
      segmenter = s';
      next_transfer_id = (a.next_transfer_id + 1) % 2 ^ 32;
      active_transfers =
          insert a.next_transfer_id (new_transfer now a.next_transfer_id (message_number m) ss)
            a.active_transfers;
      statistics = record a.statistics {
        messages_segmented = (a.statistics.messages_segmented + 1) % 2 ^ 32;
      };
    }
