-- ===== src/Rpc/Client.antt =====
-- `RpcClientImpl` of src/rpc/rpc_client.cpp. A callback is a number, the identity of the function
-- object, or `none` where it is empty; a call of it is listed with the response that it gets. Sending
-- a request and starting the transport are the transport's: whether they succeed is an argument. A
-- session that is looked for without end is a `none`. What a pending call keeps but nothing reads, its
-- start time and its timeout, is left out.
use opensomeip.Base.{
  ℕ, ◌+◌, ◌%◌, ◌^◌, Bool, true, false, ◌&&◌, not, ◌==◌, if◌then◌else◌, List, [], ◌∷◌, ◌++◌, Option,
  none, some,
}
use opensomeip.Base.Map.{find, insert, erase}
use opensomeip.Types.MessageType.{request, is_response}
use opensomeip.Types.ReturnCode.{e_ok, is_success}
use opensomeip.Message.{Message, new_message, set_payload}
use opensomeip.Session.{SessionManager, create_session}
use opensomeip.Session as Session
use opensomeip.Rpc.{RpcResult, RpcResponse, success, timeout, internal_error}

pub record PendingCall : Type 0 where
  pub service_id : ℕ
  pub method_id : ℕ
  pub session_id : ℕ
  pub callback : Option ℕ

pub record RpcClient : Type 0 where
  pub client_id : ℕ
  pub session_manager : SessionManager
  pub pending_calls : List (ℕ × PendingCall)
  pub next_call_handle : ℕ
  pub running : Bool

abbrev pub new_client : ℕ → RpcClient
new_client client_id = record {
  client_id = client_id;
  session_manager = Session.new_manager;
  pending_calls = [];
  next_call_handle = 1;
  running = false;
}

unfoldable pub initialize : Bool → RpcClient → Bool × RpcClient
initialize starts c =
    if c.running
    then (true, c)
    else if not starts
    then (false, c)
    else (true, record c { running = true })

-- The calls of callbacks so far, in their order.
abbrev pub Answers : Type 0
Answers = List (ℕ × RpcResponse)

abbrev pub answer_to : Option ℕ → RpcResponse → Answers
answer_to none response = []
answer_to (some callback) response = (callback, response) ∷ []

abbrev pub given_up : ℕ → PendingCall → RpcResponse
given_up client_id call = record {
  service_id = call.service_id;
  method_id = call.method_id;
  client_id = client_id;
  session_id = call.session_id;
  result = internal_error;
  return_values = [];
}

unfoldable pub give_up_all : ℕ → List (ℕ × PendingCall) → Answers
give_up_all client_id [] = []
give_up_all client_id ((handle, call) ∷ rest) =
    answer_to call.callback (given_up client_id call) ++ give_up_all client_id rest

unfoldable pub shutdown : RpcClient → RpcClient × Answers
shutdown c =
    if not c.running
    then (c, [])
    else (record c { running = false; pending_calls = [] }, give_up_all c.client_id c.pending_calls)

-- The request that a call sends.
abbrev pub request_of : ℕ → ℕ → ℕ → ℕ → ℕ → List ℕ → Message
request_of client_id session_id service_id method_id now parameters = set_payload parameters (
    new_message (record { service_id = service_id; method_id = method_id })
      (record { client_id = client_id; session_id = session_id }) request e_ok now)

abbrev pub pending_call : ℕ → ℕ → ℕ → Option ℕ → PendingCall
pending_call service_id method_id session_id callback = record {
  service_id = service_id;
  method_id = method_id;
  session_id = session_id;
  callback = callback;
}

-- What `call_method_async` does with the id of its session: the handle, the client, and the request
-- that it has given to the transport.
abbrev pub started :
    (Message → Bool)
    → ℕ
    → ℕ
    → ℕ
    → List ℕ
    → Option ℕ
    → RpcClient
    → Option (ℕ × SessionManager)
    → Option (ℕ × RpcClient × Option Message)
started sends now service_id method_id parameters callback c none = none
started sends now service_id method_id parameters callback c (some (session_id, sessions)) =
    let message = request_of c.client_id session_id service_id method_id now parameters in
    let handle = c.next_call_handle in
    let calls =
      insert handle (pending_call service_id method_id session_id callback) c.pending_calls in
    let c' = record c { session_manager = sessions; next_call_handle = (handle + 1) % 2 ^ 32 } in
    if sends message
    then some (handle, record c' { pending_calls = calls }, some message)
    else some (0, record c' { pending_calls = erase handle calls }, some message)

unfoldable pub call_method_async :
    ℕ
    → (Message → Bool)
    → ℕ
    → ℕ
    → ℕ
    → List ℕ
    → Option ℕ
    → RpcClient
    → Option (ℕ × RpcClient × Option Message)
call_method_async rounds sends now service_id method_id parameters callback c =
    if not c.running
    then some (0, c, none)
    else started sends now service_id method_id parameters callback c
        (create_session rounds c.client_id now c.session_manager)

unfoldable pub cancel_call : ℕ → RpcClient → Bool × RpcClient × Answers
cancel_call handle c = elim (find handle c.pending_calls) [
  | none ↦ (false, c, [])
  | some call ↦ (
    true,
    record c { pending_calls = erase handle c.pending_calls },
    answer_to call.callback (given_up c.client_id call),
  )
]

unfoldable pub matches : Message → PendingCall → Bool
matches message call =
    call.session_id == message.request_id.session_id
    && (call.service_id == message.message_id.service_id
        && call.method_id == message.message_id.method_id)

-- The first pending call that matches, with its handle.
unfoldable pub find_match : Message → List (ℕ × PendingCall) → Option (ℕ × PendingCall)
find_match message [] = none
find_match message ((handle, call) ∷ rest) =
    if matches message call then some (handle, call) else find_match message rest

abbrev pub response_of : Message → RpcResponse
response_of message = record {
  service_id = message.message_id.service_id;
  method_id = message.message_id.method_id;
  client_id = message.request_id.client_id;
  session_id = message.request_id.session_id;
  result = if is_success message.return_code then success else internal_error;
  return_values = message.payload;
}

unfoldable pub on_message_received : Message → RpcClient → RpcClient × Answers
on_message_received message c =
    if not (is_response message.message_type)
    then (c, [])
    else elim (find_match message c.pending_calls) [
      | none ↦ (c, [])
      | some (handle, call) ↦ (
        record c { pending_calls = erase handle c.pending_calls },
        answer_to call.callback (response_of message),
      )
    ]

unfoldable pub is_ready : Bool → RpcClient → Bool
is_ready connected c = c.running && connected

pub record RpcSyncResult : Type 0 where
  pub result : RpcResult
  pub return_values : List ℕ

-- The wait of `call_method_sync` on a call that has a handle, once `meanwhile` has said what the other
-- threads have done to the client, and which callbacks they have called, before the timeout.
abbrev pub await : ℕ → ℕ → (RpcClient → RpcClient × Answers) → RpcClient → RpcSyncResult × RpcClient
await handle callback meanwhile c =
    let (c', answers) = meanwhile c in
    elim (find callback answers) [
      | some response ↦
          (record { result = response.result; return_values = response.return_values }, c')
      | none ↦
          let (found, c'', given) = cancel_call handle c' in
          (record { result = timeout; return_values = [] }, c'')
    ]

abbrev awaited :
    ℕ
    → (RpcClient → RpcClient × Answers)
    → Option (ℕ × RpcClient × Option Message)
    → Option (RpcSyncResult × RpcClient)
awaited callback meanwhile none = none
awaited callback meanwhile (some (handle, c, message)) =
    if handle == 0
    then some (record { result = internal_error; return_values = [] }, c)
    else some (await handle callback meanwhile c)

-- `callback` is the function that sets the promise.
unfoldable pub call_method_sync :
    ℕ
    → (Message → Bool)
    → ℕ
    → ℕ
    → ℕ
    → List ℕ
    → ℕ
    → (RpcClient → RpcClient × Answers)
    → RpcClient
    → Option (RpcSyncResult × RpcClient)
unfolding cancel_call
call_method_sync rounds sends now service_id method_id parameters callback meanwhile c =
    awaited callback meanwhile
      (call_method_async rounds sends now service_id method_id parameters (some callback) c)
