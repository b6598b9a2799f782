-- ===== src/Tp/Manager/Transfers.antt =====
-- What holds of the transfers of a manager, whatever calls are made.
use opensomeip.Base.{
  ℕ, ◌+◌, ◌≤◌, ◌<◌, ◌≡◌, ◌⊎◌, inl, inr, refl, ap, arith, Bool, max, leb, List, [], ◌∷◌, length,
  get_elem?, get_elem?-lt, Option, Option-cases, Bool-cases, some_inj, none, some,
}
use mathlib.Core.Path.{subst}
use opensomeip.Base.Map.{
  find, insert, length-erase, Entries, Entries-insert, Entries-erase, Entries-find,
  length-insert_present, length-insert, none-ne-some,
}
use opensomeip.Message.{Message}
use opensomeip.Tp.{TpResult, TpSegment, TpConfig, success}
use opensomeip.Tp.Segmenter as Segmenter
use opensomeip.Tp.Manager.{
  TpTransfer, TpManager, complete, sending, segment_message, started, new_transfer, message_number,
  get_next_segment, next_of_transfer, acknowledge_segments, cancel_transfer, process_timeouts,
  expire, cleanup_completed_transfers, shutdown, handle_received_segment, is_single, new_manager,
  update_config, set_completion_callback,
}

-- A transfer under its own id is being sent or complete, and its cursor stays in its segments.
pub record IsTransfer (id : ℕ) (t : TpTransfer) : Type 0 where
  pub own_id : t.transfer_id ≡ id
  pub stage : (t.state ≡ sending) ⊎ (t.state ≡ complete)
  pub cursor : t.next_segment_to_send ≤ length t.segments

pub record IsWellFormed (limit : ℕ) (m : TpManager) : Type 0 where
  pub transfers : Entries IsTransfer m.active_transfers
  pub few : length m.active_transfers ≤ limit
  pub allowed : m.config.max_concurrent_transfers ≤ limit

-- One call of the manager, at any time and with any arguments.
pub data Step (m : TpManager) : TpManager → Type 0 where
  cuts :
      {m' : TpManager} (fuel now id id' : ℕ) (message : Message) (result : TpResult)
      → segment_message fuel now message id m ≡ some (result, id', m')
      → Step m m'
  fetches : (now id : ℕ) (s : TpSegment) → Step m (get_next_segment now id s m).1
  receives :
      (now : ℕ) (s : TpSegment) (out : List ℕ) → Step m (handle_received_segment now s m out).1
  acknowledges : (now id : ℕ) → Step m (acknowledge_segments now id m).1
  cancels : (id : ℕ) → Step m (cancel_transfer id m).1
  expires : (now : ℕ) → Step m (process_timeouts now m).0
  shuts : Step m (shutdown m)
  hears : (callback : Bool) → Step m (set_completion_callback callback m)

-- With the largest number of transfers that a configuration has allowed so far.
pub data Reach (m : TpManager) : ℕ → TpManager → Type 0 where
  here : Reach m m.config.max_concurrent_transfers m
  next : {limit : ℕ} {m' m'' : TpManager} → Reach m limit m' → Step m' m'' → Reach m limit m''
  configures :
      {limit : ℕ} {m' : TpManager} (c : TpConfig)
      → Reach m limit m'
      → Reach m (max limit c.max_concurrent_transfers) (update_config c m')

expire-Entries :
    (now limit : ℕ) (ts : List (ℕ × TpTransfer))
    → Entries IsTransfer ts
    → Entries IsTransfer (expire now limit ts).0
      × (length (expire now limit ts).0 + length (expire now limit ts).1 ≡ length ts)
unfolding expire
expire-Entries now limit [] es = (tt, refl)
expire-Entries now limit ((id, t) ∷ ts) es = ground (arith, expire-Entries now limit ts es.1)

cleanup-Entries :
    (ts : List (ℕ × TpTransfer))
    → Entries IsTransfer ts
    → Entries IsTransfer (cleanup_completed_transfers ts)
      × (length (cleanup_completed_transfers ts) ≤ length ts)
unfolding cleanup_completed_transfers
cleanup-Entries [] es = (tt, omega arith)
cleanup-Entries ((id, t) ∷ ts) es = ground (arith, cleanup-Entries ts es.1)

module _ {limit : ℕ} where
  started-IsWellFormed :
      (now : ℕ) (message : Message) (m m' : TpManager) (id' : ℕ) (result : TpResult)
      (cut : Option (TpResult × Segmenter.TpSegmenter × List TpSegment))
      → IsWellFormed limit m
      → length m.active_transfers < m.config.max_concurrent_transfers
      → started now message m.next_transfer_id m cut ≡ some (result, id', m')
      → IsWellFormed limit m'
  started-IsWellFormed now message m m' id' result none w room e = absurd (none-ne-some e)
  started-IsWellFormed now message m m' id' result (some (success, s, segments)) w room e =
      subst (IsWellFormed limit) (ap (λ (x : TpResult × ℕ × TpManager). x.2) (some_inj e)) (record {
        transfers =
            Entries-insert IsTransfer m.next_transfer_id
              (new_transfer now m.next_transfer_id (message_number message) segments)
              m.active_transfers (record { own_id = refl; stage = inl refl; cursor = omega arith })
              w.transfers;
        few = omega (
          arith,
          length-insert m.next_transfer_id
              (new_transfer now m.next_transfer_id (message_number message) segments)
              m.active_transfers,
          w.allowed,
        );
        allowed = w.allowed;
      })
  started-IsWellFormed now message m m' id' result (some (_, s, segments)) w room e =
      subst (IsWellFormed limit) (ap (λ (x : TpResult × ℕ × TpManager). x.2) (some_inj e))
        (record { transfers = w.transfers; few = w.few; allowed = w.allowed })

  segment_message-IsWellFormed :
      (fuel now id id' : ℕ) (message : Message) (m m' : TpManager) (result : TpResult)
      → IsWellFormed limit m
      → segment_message fuel now message id m ≡ some (result, id', m')
      → IsWellFormed limit m'
  unfolding segment_message
  segment_message-IsWellFormed fuel now id id' message m m' result w e =
      elim (Bool-cases (leb m.config.max_concurrent_transfers (length m.active_transfers))) [
        | inl full ↦
            subst (IsWellFormed limit)
              (ap (λ (x : TpResult × ℕ × TpManager). x.2) (some_inj (rw full at e))) w
        | inr room ↦
            started-IsWellFormed now message m m' id' result
              (Segmenter.segment_message fuel m.segmenter message []) w (ground arith)
              (rw room at e)
      ]

  updated-IsWellFormed :
      (id : ℕ) (t : TpTransfer) (m : TpManager)
      → IsTransfer id t
      → IsWellFormed limit m
      → (w : TpTransfer) → find id m.active_transfers ≡ some w
      → IsWellFormed limit (record m { active_transfers = insert id t m.active_transfers })
  updated-IsWellFormed id t m h f w held = record {
    transfers = Entries-insert IsTransfer id t m.active_transfers h f.transfers;
    few = omega (arith, length-insert_present id t w m.active_transfers held, f.few);
    allowed = f.allowed;
  }

  next_of_transfer-IsWellFormed :
      (now id : ℕ) (t : TpTransfer) (m : TpManager)
      → IsTransfer id t
      → IsWellFormed limit m
      → find id m.active_transfers ≡ some t
      → IsWellFormed limit (next_of_transfer now id t m).0
  unfolding next_of_transfer
  next_of_transfer-IsWellFormed now id t m h w held =
      elim (Option-cases (get_elem? t.segments t.next_segment_to_send)) [
        | inl ended ↦
            rw (next_of_transfer, ended)
              (updated-IsWellFormed id (record t { state = complete }) m
                (record { own_id = h.own_id; stage = inr refl; cursor = h.cursor }) w t held)
        | inr (s, at) ↦
            rw (next_of_transfer, at)
              (let f =
                  updated-IsWellFormed id
                    (record t {
                      next_segment_to_send = t.next_segment_to_send + 1;
                      last_activity = now;
                    })
                    m
                    (record {
                      own_id = h.own_id;
                      stage = h.stage;
                      cursor = omega (arith, get_elem?-lt t.segments t.next_segment_to_send s at);
                    })
                    w t held in
                record { transfers = f.transfers; few = f.few; allowed = f.allowed })
      ]

  get_next_segment-IsWellFormed :
      (now id : ℕ) (s : TpSegment) (m : TpManager)
      → IsWellFormed limit m
      → IsWellFormed limit (get_next_segment now id s m).1
  unfolding get_next_segment
  get_next_segment-IsWellFormed now id s m w = elim (Option-cases (find id m.active_transfers)) [
    | inl missing ↦ rw (get_next_segment, missing) w
    | inr (t, held) ↦
        rw (get_next_segment, held)
          (next_of_transfer-IsWellFormed now id t m
            (Entries-find IsTransfer id t m.active_transfers w.transfers held) w held)
  ]

  acknowledge_segments-IsWellFormed :
      (now id : ℕ) (m : TpManager)
      → IsWellFormed limit m
      → IsWellFormed limit (acknowledge_segments now id m).1
  unfolding acknowledge_segments
  acknowledge_segments-IsWellFormed now id m w = elim (Option-cases (find id m.active_transfers)) [
    | inl missing ↦ rw (acknowledge_segments, missing) w
    | inr (t, held) ↦
        let h = Entries-find IsTransfer id t m.active_transfers w.transfers held in
        rw (acknowledge_segments, held)
          (updated-IsWellFormed id (record t { last_activity = now }) m
            (record { own_id = h.own_id; stage = h.stage; cursor = h.cursor }) w t held)
  ]

  cancel_transfer-IsWellFormed :
      (id : ℕ) (m : TpManager) → IsWellFormed limit m → IsWellFormed limit (cancel_transfer id m).1
  unfolding cancel_transfer
  cancel_transfer-IsWellFormed id m w = elim (Option-cases (find id m.active_transfers)) [
    | inl missing ↦ rw (cancel_transfer, missing) w
    | inr (t, held) ↦
        rw (cancel_transfer, held)
          (record {
            transfers = Entries-erase IsTransfer id m.active_transfers w.transfers;
            few = omega (arith, length-erase id m.active_transfers, w.few);
            allowed = w.allowed;
          })
  ]

  Step-IsWellFormed : {m m' : TpManager} → Step m m' → IsWellFormed limit m → IsWellFormed limit m'
  unfolding handle_received_segment process_timeouts shutdown set_completion_callback
  Step-IsWellFormed {m} (cuts fuel now id id' message result e) w =
      segment_message-IsWellFormed fuel now id id' message m _ result w e
  Step-IsWellFormed {m} (fetches now id s) w = get_next_segment-IsWellFormed now id s m w
  Step-IsWellFormed {m} (receives now s out) w =
      elim (Bool-cases (is_single s.header.message_type)) [
        | inl single ↦
            rw single (record { transfers = w.transfers; few = w.few; allowed = w.allowed })
        | inr several ↦
            rw several (record { transfers = w.transfers; few = w.few; allowed = w.allowed })
      ]
  Step-IsWellFormed {m} (acknowledges now id) w = acknowledge_segments-IsWellFormed now id m w
  Step-IsWellFormed {m} (cancels id) w = cancel_transfer-IsWellFormed id m w
  Step-IsWellFormed {m} (expires now) w =
      let kept = expire-Entries now m.config.reassembly_timeout m.active_transfers w.transfers in
      let cleaned =
        cleanup-Entries (expire now m.config.reassembly_timeout m.active_transfers).0 kept.0 in
      record {
        transfers = cleaned.0;
        few = omega (arith, kept.1, cleaned.1, w.few);
        allowed = w.allowed;
      }
  Step-IsWellFormed shuts w = record { transfers = tt; few = omega arith; allowed = w.allowed }
  Step-IsWellFormed {m} (hears callback) w = record {
    transfers = w.transfers;
    few = w.few;
    allowed = w.allowed;
  }

update_config-IsWellFormed :
    (c : TpConfig) (limit : ℕ) (m : TpManager)
    → IsWellFormed limit m
    → IsWellFormed (max limit c.max_concurrent_transfers) (update_config c m)
unfolding update_config
update_config-IsWellFormed c limit m w = record {
  transfers = w.transfers;
  few = omega (arith, w.few);
  allowed = omega arith;
}

-- Whatever calls are made of a new manager, there are never more transfers than the largest number that
-- a configuration has allowed so far, and each of them stands under its own id, is being sent or
-- complete, and has its cursor in its segments.
pub Reach-new_manager-IsWellFormed :
    (c : TpConfig) (limit : ℕ) (m : TpManager)
    → Reach (new_manager c) limit m
    → IsWellFormed limit m
Reach-new_manager-IsWellFormed c _ _ here = record {
  transfers = tt;
  few = omega arith;
  allowed = omega arith;
}
Reach-new_manager-IsWellFormed c _ _ (next r s) =
    Step-IsWellFormed s (Reach-new_manager-IsWellFormed c _ _ r)
Reach-new_manager-IsWellFormed c _ _ (configures {limit} {m'} d r) =
    update_config-IsWellFormed d limit m' (Reach-new_manager-IsWellFormed c limit m' r)
