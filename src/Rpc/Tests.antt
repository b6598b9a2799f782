-- ===== src/Rpc/Tests.antt =====
-- A client and a server of one method, and instances of the theorems.
use opensomeip.Base.{ℕ, ◌+◌, ◌<◌, ◌≤◌, ◌≡◌, refl, arith, Bool, true, List, [], ◌∷◌, none, some}
use opensomeip.Base.Map.{find, insert}
use opensomeip.Message.{Message}
use opensomeip.Rpc.{RpcResult, success}
use opensomeip.Rpc.Client.{
  RpcClient, new_client, initialize, call_method_async, on_message_received, request_of, answer_to,
}
use opensomeip.Rpc.Server.{RpcServer, new_server, register_method}
use opensomeip.Rpc.Server as Server
use opensomeip.Rpc.Calls.{Reach, here, next, initializes}
use opensomeip.Rpc.Answers.{expected, call_method_async-answered}
use opensomeip.Rpc.Exhaustion.{call_method_async_returns}

abbrev client : RpcClient
client = record (new_client 0x10) { running = true }

initialize-new_client : (initialize true (new_client 0x10)).1 ≡ client
unfolding initialize
initialize-new_client = refl

client-Reach : Reach (new_client 0x10) 0 client
unfolding initialize
client-Reach = next here (initializes true)

abbrev doubled : ℕ → ℕ → List ℕ → RpcResult × List ℕ
doubled client_id session_id [] = (success, [])
doubled client_id session_id (x ∷ xs) = (success, (x + x) ∷ [])

abbrev server : RpcServer
server = record { service_id = 0x1234; method_handlers = (7, doubled) ∷ []; running = true }

register-new_server :
    (register_method 7 doubled (record (new_server 0x1234) { running = true })).1 ≡ server
unfolding register_method find insert
register-new_server = refl

abbrev sends : Message → Bool
sends message = true

call_method_async_returns_example :
    (0 < 65535
      → (handle : ℕ) × (c' : RpcClient) × (call_method_async 1 sends 5 0x1234 7
            (21 ∷ [])
            (some 3)
            client
          ≡ some (handle, c', some (request_of 0x10 1 0x1234 7 5 (21 ∷ [])))))
    × (0 ≤ 65535)
    × (◌≡◌ {A = ℕ} 0 65535
        → (rounds : ℕ) → call_method_async rounds sends 5 0x1234 7 (21 ∷ []) (some 3) client ≡ none)
call_method_async_returns_example =
    call_method_async_returns 0x10 0 client sends 5 0x1234 7 (21 ∷ []) (some 3) client-Reach refl

call_method_async-answered_example :
    (c' : RpcClient) × (answer : Message) × (call_method_async 1 sends 5 0x1234 7
        (21 ∷ [])
        (some 3)
        client
      ≡ some (1, c', some (request_of 0x10 1 0x1234 7 5 (21 ∷ []))))
    × (Server.on_message_received 6 (request_of 0x10 1 0x1234 7 5 (21 ∷ [])) server ≡ some answer)
    × (on_message_received answer c' ≡ (
      record c' { pending_calls = [] },
      answer_to (some 3) (expected 0x1234 7 0x10 1 (success, 42 ∷ [])),
    ))
unfolding find
call_method_async-answered_example =
    call_method_async-answered 0x10 0 client client-Reach refl (omega arith) refl sends 5 6 server 7
      (21 ∷ []) (some 3) refl
