-- ===== src/Rpc/Calls.antt =====
-- The sessions and the pending calls of a client, whatever is called.
use opensomeip.Base.{
  ℕ, zero, suc, ◌+◌, ◌≤◌, ◌<◌, ◌≡◌, ◌⊎◌, refl, sym, ap, ◌∙◌, arith, Bool, true, false, not,
  if◌then◌else◌, Bool-cases, inl, inr, List, [], ◌∷◌, Option, Option-cases, none, some, some_inj,
}
use mathlib.Core.Path.{subst}
use opensomeip.Base.Map.{find, insert, Entries, Entries-insert, Entries-erase, none-ne-some}
use opensomeip.Types.MessageType.{is_response}
use opensomeip.Message.{Message}
use opensomeip.Session.{SessionManager, create_session}
use opensomeip.Rpc.Sessions.{
  IsFilled, create_session_filled, extended, create_session_next, extended-IsFilled, room_or_full,
  create_session_zero,
}
use opensomeip.Rpc.Client.{
  RpcClient, PendingCall, new_client, initialize, shutdown, call_method_async, started, cancel_call,
  on_message_received, request_of, pending_call, find_match,
}

-- One call of the client by one of its threads, with the number of sessions that it takes.
pub data Step (c : RpcClient) : ℕ → RpcClient → Type 0 where
  initializes : (starts : Bool) → Step c 0 (initialize starts c).1
  shuts : Step c 0 (shutdown c).0
  idles :
      {c' : RpcClient} {handle : ℕ} {sent : Option Message} (rounds : ℕ) (sends : Message → Bool)
      (now service_id method_id : ℕ) (parameters : List ℕ) (callback : Option ℕ)
      → c.running ≡ false
      → call_method_async rounds sends now service_id method_id parameters callback c
        ≡ some (handle, c', sent)
      → Step c 0 c'
  calls :
      {c' : RpcClient} {handle : ℕ} {sent : Option Message} (rounds : ℕ) (sends : Message → Bool)
      (now service_id method_id : ℕ) (parameters : List ℕ) (callback : Option ℕ)
      → c.running ≡ true
      → call_method_async rounds sends now service_id method_id parameters callback c
        ≡ some (handle, c', sent)
      → Step c 1 c'
  cancels : (handle : ℕ) → Step c 0 (cancel_call handle c).1
  receives : (message : Message) → Step c 0 (on_message_received message c).0

pub data Reach (c : RpcClient) : ℕ → RpcClient → Type 0 where
  here : Reach c 0 c
  next : {n k : ℕ} {c' c'' : RpcClient} → Reach c n c' → Step c' k c'' → Reach c (n + k) c''

abbrev pub IsPast : ℕ → ℕ → PendingCall → Type 0
IsPast n handle call = (1 ≤ call.session_id) × (call.session_id ≤ n)

pub record IsCounted (n : ℕ) (c : RpcClient) : Type 0 where
  pub filled : IsFilled n c.session_manager
  pub pending : Entries (IsPast n) c.pending_calls

Entries-later :
    (n : ℕ) (old : List (ℕ × PendingCall)) → Entries (IsPast n) old → Entries (IsPast (n + 1)) old
Entries-later n [] es = tt
Entries-later n ((h, call) ∷ old) es = ((es.0.0, omega (arith, es.0.1)), Entries-later n old es.1)

pub call_method_async-running :
    (rounds : ℕ) (sends : Message → Bool) (now service_id method_id : ℕ) (parameters : List ℕ)
    (callback : Option ℕ) (c : RpcClient)
    → c.running ≡ true
    → call_method_async rounds sends now service_id method_id parameters callback c
      ≡ started sends now service_id method_id parameters callback c
          (create_session rounds c.client_id now c.session_manager)
unfolding call_method_async
call_method_async-running rounds sends now service_id method_id parameters callback c r =
    rw (call_method_async, r) refl

module _ (sends : Message → Bool) (now service_id method_id : ℕ) (parameters : List ℕ)
    (callback : Option ℕ) where
  started-IsCounted :
      (n handle : ℕ) (sent : Option Message) (m : SessionManager) (c c' : RpcClient)
      → IsCounted n c
      → IsFilled (n + 1) m
      → started sends now service_id method_id parameters callback c (some (n + 1, m))
        ≡ some (handle, c', sent)
      → IsCounted (n + 1) c'
  started-IsCounted n handle sent m c c' w f e =
      elim (Bool-cases
        (sends (request_of c.client_id (n + 1) service_id method_id now parameters))) [
          | inl ok ↦
              subst (IsCounted (n + 1))
                (ap (λ (x : ℕ × RpcClient × Option Message). x.1) (some_inj (rw ok at e)))
                (record { filled = f; pending = more })
          | inr failed ↦
              subst (IsCounted (n + 1))
                (ap (λ (x : ℕ × RpcClient × Option Message). x.1) (some_inj (rw failed at e)))
                (record {
                  filled = f;
                  pending = Entries-erase (IsPast (n + 1)) c.next_call_handle _ more;
                })
        ]
    where
      more : Entries (IsPast (n + 1)) (
          insert c.next_call_handle
            (pending_call service_id method_id (n + 1) callback)
            c.pending_calls)
      more =
          Entries-insert (IsPast (n + 1)) c.next_call_handle
            (pending_call service_id method_id (n + 1) callback) c.pending_calls
            (omega arith, omega arith) (Entries-later n c.pending_calls w.pending)

  call_method_async-IsCounted :
      (rounds n handle : ℕ) (sent : Option Message) (c c' : RpcClient)
      → IsCounted n c
      → c.running ≡ true
      → call_method_async rounds sends now service_id method_id parameters callback c
        ≡ some (handle, c', sent)
      → IsCounted (n + 1) c'
  call_method_async-IsCounted rounds n handle sent c c' w r e =
      counted rounds (room_or_full n w.filled.few) (
        sym
          (call_method_async-running rounds sends now service_id method_id parameters callback c r)
        ∙ e)
    where
      counted :
          (rounds : ℕ)
          → (n < 65535) ⊎ (n ≡ 65535)
          → started sends now service_id method_id parameters callback c
              (create_session rounds c.client_id now c.session_manager)
            ≡ some (handle, c', sent)
          → IsCounted (n + 1) c'
      counted rounds (inr full) e' = absurd (
          none-ne-some (
            rw
              (create_session_filled rounds c.client_id now c.session_manager
                (subst (λ k. IsFilled k c.session_manager) full w.filled))
              at e'))
      counted zero (inl room) e' =
          absurd (none-ne-some (rw (create_session_zero c.client_id now c.session_manager) at e'))
      counted (suc rounds) (inl room) e' =
          started-IsCounted n handle sent (extended n c.client_id now c.session_manager) c c' w
            (extended-IsFilled n c.client_id now c.session_manager w.filled room)
            (rw (create_session_next rounds n c.client_id now c.session_manager w.filled room) at
              e')

call_method_async-idle :
    (rounds : ℕ) (sends : Message → Bool) (now service_id method_id : ℕ) (parameters : List ℕ)
    (callback : Option ℕ) (c c' : RpcClient) (handle : ℕ) (sent : Option Message)
    → c.running ≡ false
    → call_method_async rounds sends now service_id method_id parameters callback c
      ≡ some (handle, c', sent)
    → c ≡ c'
unfolding call_method_async
call_method_async-idle rounds sends now service_id method_id parameters callback c c' handle sent
      off e =
    ap (λ (x : ℕ × RpcClient × Option Message). x.1)
      (some_inj (
        ap
          (λ b.
            if not b
            then some (0, c, none)
            else started sends now service_id method_id parameters callback c
                (create_session rounds c.client_id now c.session_manager))
          (sym off)
        ∙ e))

initialize-IsCounted :
    (n : ℕ) (starts : Bool) (c : RpcClient) → IsCounted n c → IsCounted n (initialize starts c).1
unfolding initialize
initialize-IsCounted n starts c w = elim (Bool-cases c.running) [
  | inl on ↦ rw on (record { filled = w.filled; pending = w.pending })
  | inr off ↦ elim (Bool-cases starts) [
    | inl ok ↦ rw (off, ok) (record { filled = w.filled; pending = w.pending })
    | inr failed ↦ rw (off, failed) (record { filled = w.filled; pending = w.pending })
  ]
]

shutdown-IsCounted : (n : ℕ) (c : RpcClient) → IsCounted n c → IsCounted n (shutdown c).0
unfolding shutdown
shutdown-IsCounted n c w = elim (Bool-cases c.running) [
  | inl on ↦ rw on (record { filled = w.filled; pending = tt })
  | inr off ↦ rw off (record { filled = w.filled; pending = w.pending })
]

cancel_call-IsCounted :
    (n handle : ℕ) (c : RpcClient) → IsCounted n c → IsCounted n (cancel_call handle c).1
unfolding cancel_call
cancel_call-IsCounted n handle c w = elim (Option-cases (find handle c.pending_calls)) [
  | inl absent ↦ rw (cancel_call, absent) w
  | inr (call, held) ↦
      rw (cancel_call, held)
        (record {
          filled = w.filled;
          pending = Entries-erase (IsPast n) handle c.pending_calls w.pending;
        })
]

on_message_received-IsCounted :
    (n : ℕ) (message : Message) (c : RpcClient)
    → IsCounted n c
    → IsCounted n (on_message_received message c).0
unfolding on_message_received
on_message_received-IsCounted n message c w = elim (Bool-cases (is_response message.message_type)) [
  | inr other ↦ rw (on_message_received, other) w
  | inl answer ↦ elim (Option-cases (find_match message c.pending_calls)) [
    | inl absent ↦ rw (on_message_received, answer, absent) w
    | inr ((handle, call), held) ↦
        rw (on_message_received, answer, held)
          (record {
            filled = w.filled;
            pending = Entries-erase (IsPast n) handle c.pending_calls w.pending;
          })
  ]
]

same_count : (n : ℕ) (c : RpcClient) → IsCounted n c → IsCounted (n + 0) c
same_count n c w = subst (λ k. IsCounted k c) (omega arith) w

Step-IsCounted : (n k : ℕ) (c c' : RpcClient) → IsCounted n c → Step c k c' → IsCounted (n + k) c'
Step-IsCounted n k c c' w (initializes starts) = same_count n _ (initialize-IsCounted n starts c w)
Step-IsCounted n k c c' w shuts = same_count n _ (shutdown-IsCounted n c w)
Step-IsCounted n k c c' w (idles rounds sends now service_id method_id parameters callback off e) =
    same_count n c' (
      subst (IsCounted n)
        (call_method_async-idle rounds sends now service_id method_id parameters callback c c' _ _
          off e)
        w)
Step-IsCounted n k c c' w (calls rounds sends now service_id method_id parameters callback on e) =
    call_method_async-IsCounted sends now service_id method_id parameters callback rounds n _ _ c c'
      w on e
Step-IsCounted n k c c' w (cancels handle) = same_count n _ (cancel_call-IsCounted n handle c w)
Step-IsCounted n k c c' w (receives message) =
    same_count n _ (on_message_received-IsCounted n message c w)

pub new_client-IsCounted : (client_id : ℕ) → IsCounted 0 (new_client client_id)
unfolding find
new_client-IsCounted client_id = record {
  filled = record {
    next_id = omega arith;
    few = omega arith;
    taken = λ k low high. absurd (omega (arith, low, high));
    untaken = λ k above. refl;
  };
  pending = tt;
}

pub Reach-IsCounted :
    (client_id n : ℕ) (c : RpcClient) → Reach (new_client client_id) n c → IsCounted n c
Reach-IsCounted client_id n c here = new_client-IsCounted client_id
Reach-IsCounted client_id n c (next {n = n'} {k} {c'} r s) =
    Step-IsCounted n' k c' c (Reach-IsCounted client_id n' c' r) s
