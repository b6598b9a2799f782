-- ===== src/Rpc/Exhaustion.antt =====
-- When a call of a method comes back to its caller: no session is ever given back.
use opensomeip.Base.{
  ℕ, ◌+◌, ◌≤◌, ◌<◌, ◌≡◌, refl, ap, ◌∙◌, Bool, true, false, if◌then◌else◌, List, Option, none, some,
}
use mathlib.Core.Path.{subst}
use opensomeip.Message.{Message}
use opensomeip.Rpc.Client.{RpcClient, new_client, call_method_async, started, request_of}
use opensomeip.Rpc.Sessions.{IsFilled, create_session_next, create_session_filled}
use opensomeip.Rpc.Calls.{Reach, IsCounted, Reach-IsCounted, call_method_async-running}

either :
    (b : Bool) (h : ℕ) (x y : RpcClient) (m : Option Message)
    → (handle : ℕ) × (c' : RpcClient) × (if◌then◌else◌ {A = Option (ℕ × RpcClient × Option Message)}
          b
          (some (h, x, m))
          (some (0, y, m))
        ≡ some (handle, c', m))
either true h x y m = (h, x, refl)
either false h x y m = (0, y, refl)

-- Whatever a new client has gone through, with `n` calls made while it was running: as long as `n` is
-- below 65535, the next call returns, with the session `n + 1`, whose search takes one round, and after
-- 65535 calls no further call returns, however many rounds its search is given.
pub call_method_async_returns :
    (client_id n : ℕ) (c : RpcClient) (sends : Message → Bool) (now service_id method_id : ℕ)
    (parameters : List ℕ) (callback : Option ℕ)
    → Reach (new_client client_id) n c
    → c.running ≡ true
    → (n < 65535
        → (handle : ℕ) × (c' : RpcClient) × (call_method_async 1 sends now service_id method_id
              parameters callback c
            ≡ some (
              handle,
              c',
              some (request_of c.client_id (n + 1) service_id method_id now parameters),
            )))
      × (n ≤ 65535)
      × (n ≡ 65535
          → (rounds : ℕ)
          → call_method_async rounds sends now service_id method_id parameters callback c ≡ none)
call_method_async_returns client_id n c sends now service_id method_id parameters callback r on =
    (returns, w.filled.few, hangs)
  where
    w : IsCounted n c
    w = Reach-IsCounted client_id n c r

    message : Message
    message = request_of c.client_id (n + 1) service_id method_id now parameters

    returns :
        n < 65535
        → (handle : ℕ) × (c' : RpcClient) × (call_method_async 1 sends now service_id method_id
              parameters callback c
            ≡ some (handle, c', some message))
    returns room =
        let (handle, c', e) = either (sends message) c.next_call_handle _ _ (some message) in
        (
          handle,
          c',
          call_method_async-running 1 sends now service_id method_id parameters callback c on
              ∙ ap (started sends now service_id method_id parameters callback c)
                  (create_session_next 0 n c.client_id now c.session_manager w.filled room)
              ∙ e,
        )

    hangs :
        n ≡ 65535
        → (rounds : ℕ)
        → call_method_async rounds sends now service_id method_id parameters callback c ≡ none
    hangs full rounds =
        call_method_async-running rounds sends now service_id method_id parameters callback c on
        ∙ ap (started sends now service_id method_id parameters callback c) (
            create_session_filled rounds c.client_id now c.session_manager
              (subst (λ k. IsFilled k c.session_manager) full w.filled))
