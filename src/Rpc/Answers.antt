-- ===== src/Rpc/Answers.antt =====
-- A call of a method, from the client to the server and back.
use opensomeip.Base.{
  ℕ, ◌+◌, ◌%◌, ◌^◌, ◌<◌, ◌≡◌, refl, sym, ap, ◌∙◌, arith, Bool, Option-cases, inl, inr, true, false,
  ◌==◌, ◌!=◌, ne→==, List, [], ◌∷◌, Option, none, some,
}
use mathlib.Core.Path.{ap₂}
use opensomeip.Base.Map.{find, insert, erase, erase-insert, Entries}
use opensomeip.Types.MessageType.{is_request, is_response}
use opensomeip.Types.ReturnCode.{is_success}
use opensomeip.Message.{Message, new_message, set_payload, update_length}
use opensomeip.Rpc.{
  RpcResult, RpcResponse, success, timeout, network_error, invalid_parameters, method_not_found,
  service_not_available, internal_error,
}
use opensomeip.Rpc.Client.{
  RpcClient, PendingCall, new_client, call_method_async, started, pending_call, request_of,
  find_match, matches, answer_to, response_of, on_message_received,
}
use opensomeip.Rpc.Server.{RpcServer, MethodHandler, responded, map_rpc_result_to_return_code}
use opensomeip.Rpc.Server as Server
use opensomeip.Rpc.Sessions.{extended, create_session_next}
use opensomeip.Rpc.Calls.{Reach, IsPast, Reach-IsCounted, call_method_async-running}

-- What a caller is to get for what the handler of its method says.
abbrev pub expected : ℕ → ℕ → ℕ → ℕ → RpcResult × List ℕ → RpcResponse
expected service_id method_id client_id session_id (success, output) = record {
  service_id = service_id;
  method_id = method_id;
  client_id = client_id;
  session_id = session_id;
  result = success;
  return_values = output;
}
expected service_id method_id client_id session_id (failure, output) = record {
  service_id = service_id;
  method_id = method_id;
  client_id = client_id;
  session_id = session_id;
  result = internal_error;
  return_values = [];
}

-- What the server says to a call: its handler's result, or that there is no such method.
abbrev pub said_by : Option MethodHandler → ℕ → ℕ → List ℕ → RpcResult × List ℕ
said_by none client_id session_id parameters = (method_not_found, [])
said_by (some handler) client_id session_id parameters = handler client_id session_id parameters

-- No call of an earlier session matches.
find_match-past :
    (n : ℕ) (message : Message) (old : List (ℕ × PendingCall))
    → Entries (IsPast n) old
    → message.request_id.session_id ≡ n + 1
    → find_match message old ≡ none
unfolding find_match matches
find_match-past n message [] es e = refl
find_match-past n message ((h, call) ∷ old) es e =
    let other : (call.session_id == message.request_id.session_id) ≡ false =
      ne→== call.session_id message.request_id.session_id
        (λ same. omega (arith, same, e, es.0.1)) in
    rw other (find_match-past n message old es.1 e)

find_match-insert :
    (handle : ℕ) (call : PendingCall) (message : Message) (old : List (ℕ × PendingCall))
    → find_match message old ≡ none
    → matches message call ≡ true
    → find_match message (insert handle call old) ≡ some (handle, call)
unfolding find_match insert
find_match-insert handle call message [] e m = rw m refl
find_match-insert handle call message ((h, c) ∷ old) e m =
    ground (arith, e, m, find_match-insert handle call message old)

responded_request :
    (now n service_id method_id sent client_id : ℕ) (parameters : List ℕ)
    (said : RpcResult × List ℕ)
    → let answer =
        responded now (request_of client_id n service_id method_id sent parameters) said in
      (is_response answer.message_type ≡ true)
      × (response_of answer ≡ expected service_id method_id client_id n said)
      × (answer.request_id.session_id ≡ n)
      × (answer.message_id.service_id ≡ service_id)
      × (answer.message_id.method_id ≡ method_id)
unfolding is_response is_success new_message set_payload update_length map_rpc_result_to_return_code
responded_request now n service_id method_id sent client_id parameters (success, output) =
    (refl, refl, refl, refl, refl)
responded_request now n service_id method_id sent client_id parameters (timeout, output) =
    (refl, refl, refl, refl, refl)
responded_request now n service_id method_id sent client_id parameters (network_error, output) =
    (refl, refl, refl, refl, refl)
responded_request now n service_id method_id sent client_id parameters
      (invalid_parameters, output) =
    (refl, refl, refl, refl, refl)
responded_request now n service_id method_id sent client_id parameters (method_not_found, output) =
    (refl, refl, refl, refl, refl)
responded_request now n service_id method_id sent client_id parameters
      (service_not_available, output) =
    (refl, refl, refl, refl, refl)
responded_request now n service_id method_id sent client_id parameters (internal_error, output) =
    (refl, refl, refl, refl, refl)

differs_self : (a : ℕ) → (a != a) ≡ false
differs_self a = ground arith

served :
    (now : ℕ) (message : Message) (s : RpcServer)
    → (message.message_id.service_id != s.service_id) ≡ false
    → is_request message.message_type ≡ true
    → Server.on_message_received now message s
      ≡ some (
          responded now message (
            said_by
              (find message.message_id.method_id s.method_handlers)
              message.request_id.client_id
              message.request_id.session_id
              message.payload))
unfolding Server.on_message_received map_rpc_result_to_return_code
served now message s ours asks =
    elim (Option-cases (find message.message_id.method_id s.method_handlers)) [
      | inl absent ↦ rw (Server.on_message_received, ours, asks, absent) refl
      | inr (handler, held) ↦ rw (Server.on_message_received, ours, asks, held) refl
    ]

taken_back :
    (message : Message) (c : RpcClient) (handle : ℕ) (call : PendingCall)
    → is_response message.message_type ≡ true
    → find_match message c.pending_calls ≡ some (handle, call)
    → on_message_received message c ≡ (
      record c { pending_calls = erase handle c.pending_calls },
      answer_to call.callback (response_of message),
    )
unfolding on_message_received
taken_back message c handle call answers held = rw (on_message_received, answers, held) refl

matches_answer :
    (message : Message) (call : PendingCall)
    → call.session_id ≡ message.request_id.session_id
    → call.service_id ≡ message.message_id.service_id
    → call.method_id ≡ message.message_id.method_id
    → matches message call ≡ true
unfolding matches
matches_answer message call a b d = ground arith

module _ (client_id n : ℕ) (c : RpcClient) (r : Reach (new_client client_id) n c)
    (on : c.running ≡ true) (room : n < 65535)
    (free : find c.next_call_handle c.pending_calls ≡ none) (sends : Message → Bool) (now later : ℕ)
    (s : RpcServer) (method_id : ℕ) (parameters : List ℕ) (callback : Option ℕ) where
  abbrev asked : Message
  asked = request_of c.client_id (n + 1) s.service_id method_id now parameters

  abbrev said : RpcResult × List ℕ
  said = said_by (find method_id s.method_handlers) c.client_id (n + 1) parameters

  abbrev call : PendingCall
  call = pending_call s.service_id method_id (n + 1) callback

  -- The client that waits for the answer.
  abbrev waiting : RpcClient
  waiting = record c {
    session_manager = extended n c.client_id now c.session_manager;
    pending_calls = insert c.next_call_handle call c.pending_calls;
    next_call_handle = (c.next_call_handle + 1) % 2 ^ 32;
  }

  calls_out :
      sends asked ≡ true
      → call_method_async 1 sends now s.service_id method_id parameters callback c
        ≡ some (c.next_call_handle, waiting, some asked)
  calls_out ok =
      call_method_async-running 1 sends now s.service_id method_id parameters callback c on
      ∙ ap (started sends now s.service_id method_id parameters callback c) (
          create_session_next 0 n c.client_id now c.session_manager
            (Reach-IsCounted client_id n c r).filled room)
      ∙ rw ok refl

  serves : Server.on_message_received later asked s ≡ some (responded later asked said)
  unfolding is_request new_message set_payload update_length
  serves = served later asked s (differs_self s.service_id) refl

  takes_back : on_message_received (responded later asked said) waiting ≡ (
    record waiting { pending_calls = c.pending_calls },
    answer_to callback (expected s.service_id method_id c.client_id (n + 1) said),
  )
  takes_back =
      let (answers, is_expected, of_session, of_service, of_method) =
        responded_request later (n + 1) s.service_id method_id now c.client_id parameters said in
      let answer = responded later asked said in
      let past =
        find_match-past n answer c.pending_calls (Reach-IsCounted client_id n c r).pending
          of_session in
      let found =
        find_match-insert c.next_call_handle call answer c.pending_calls past
          (matches_answer answer call (sym of_session) (sym of_service) (sym of_method)) in
      taken_back answer waiting c.next_call_handle call answers found
      ∙ ap₂ (λ old response. (record waiting { pending_calls = old }, answer_to callback response))
          (erase-insert c.next_call_handle call c.pending_calls free) is_expected

  -- A client that has made fewer than 65535 calls, is running and has nothing under its next handle
  -- makes a call, which the transport takes; a server of that service answers it, and the client
  -- gives the callback exactly one answer, the expected one: success with the output of the handler,
  -- or an internal error with nothing if the handler fails or there is none. The call is then no
  -- longer pending, and all others are as before.
  pub call_method_async-answered :
      sends asked ≡ true
      → (c' : RpcClient) × (answer : Message) × (call_method_async 1 sends now s.service_id
            method_id parameters callback c
          ≡ some (c.next_call_handle, c', some asked))
        × (Server.on_message_received later asked s ≡ some answer)
        × (on_message_received answer c' ≡ (
          record c' { pending_calls = c.pending_calls },
          answer_to callback (expected s.service_id method_id c.client_id (n + 1) said),
        ))
  call_method_async-answered ok =
      (waiting, responded later asked said, calls_out ok, serves, takes_back)
