-- ===== src/Rpc/Server.antt =====
-- `RpcServerImpl` of src/rpc/rpc_server.cpp. A handler is a function of the client, the session and the
-- parameters, to a result and the output parameters. The transport is given each response to send; what
-- comes of it is not looked at.
use opensomeip.Base.{
  ℕ, Bool, true, false, not, ◌||◌, ◌!=◌, if◌then◌else◌, List, [], ◌∷◌, Option, none, some,
}
use opensomeip.Base.Map.{find, insert, erase}
use opensomeip.Types.MessageType.{is_request, response, error}
use opensomeip.Types.ReturnCode.{e_ok}
use opensomeip.Message.{Message, new_message, set_payload}
use opensomeip.Rpc.{
  RpcResult, success, timeout, network_error, invalid_parameters, method_not_found,
  service_not_available, internal_error,
}

abbrev pub MethodHandler : Type 0
MethodHandler = ℕ → ℕ → List ℕ → RpcResult × List ℕ

pub record RpcServer : Type 0 where
  pub service_id : ℕ
  pub method_handlers : List (ℕ × MethodHandler)
  pub running : Bool

abbrev pub new_server : ℕ → RpcServer
new_server service_id = record { service_id = service_id; method_handlers = []; running = false }

unfoldable pub initialize : Bool → RpcServer → Bool × RpcServer
initialize starts s =
    if s.running
    then (true, s)
    else if not starts
    then (false, s)
    else (true, record s { running = true })

unfoldable pub shutdown : RpcServer → RpcServer
shutdown s = if not s.running then s else record s { running = false; method_handlers = [] }

unfoldable pub register_method : ℕ → MethodHandler → RpcServer → Bool × RpcServer
register_method method_id handler s = elim (find method_id s.method_handlers) [
  | some h ↦ (false, s)
  | none ↦ (true, record s { method_handlers = insert method_id handler s.method_handlers })
]

unfoldable pub unregister_method : ℕ → RpcServer → Bool × RpcServer
unregister_method method_id s = elim (find method_id s.method_handlers) [
  | some h ↦ (true, record s { method_handlers = erase method_id s.method_handlers })
  | none ↦ (false, s)
]

unfoldable pub is_method_registered : ℕ → RpcServer → Bool
is_method_registered method_id s = elim (find method_id s.method_handlers) [
  | some h ↦ true
  | none ↦ false
]

abbrev keys : List (ℕ × MethodHandler) → List ℕ
keys [] = []
keys ((method_id, h) ∷ rest) = method_id ∷ keys rest

unfoldable pub get_registered_methods : RpcServer → List ℕ
get_registered_methods s = keys s.method_handlers

unfoldable pub map_rpc_result_to_return_code : RpcResult → ℕ
map_rpc_result_to_return_code success = e_ok
map_rpc_result_to_return_code invalid_parameters = 0x09
map_rpc_result_to_return_code method_not_found = 0x03
map_rpc_result_to_return_code service_not_available = 0x05
map_rpc_result_to_return_code timeout = 0x06
map_rpc_result_to_return_code network_error = 0x01
map_rpc_result_to_return_code internal_error = 0x01

abbrev pub success_response : ℕ → Message → List ℕ → Message
success_response now request return_values =
    set_payload return_values (new_message request.message_id request.request_id response e_ok now)

abbrev pub error_response : ℕ → Message → ℕ → Message
error_response now request error_code =
    new_message request.message_id request.request_id error error_code now

abbrev pub responded : ℕ → Message → RpcResult × List ℕ → Message
responded now request (success, output_params) = success_response now request output_params
responded now request (result, output_params) =
    error_response now request (map_rpc_result_to_return_code result)

-- The response that is sent, if one is.
unfoldable pub on_message_received : ℕ → Message → RpcServer → Option Message
on_message_received now message s =
    if message.message_id.service_id != s.service_id || not (is_request message.message_type)
    then none
    else elim (find message.message_id.method_id s.method_handlers) [
      | none ↦ some (error_response now message 0x03)
      | some handler ↦ some (
          responded now message
            (handler message.request_id.client_id message.request_id.session_id message.payload))
    ]
