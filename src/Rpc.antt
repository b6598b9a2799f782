-- ===== src/Rpc.antt =====
-- src/rpc and include/rpc: remote calls. Milliseconds are numbers.
pub mod Client
pub mod Server
pub mod Sessions
pub mod Calls
pub mod Answers
pub mod Exhaustion
mod Tests
use opensomeip.Base.{ℕ, List}

pub data RpcResult : Type 0 where
  success timeout network_error invalid_parameters method_not_found service_not_available
        internal_error :
      RpcResult

pub record RpcTimeout : Type 0 where
  pub request_timeout : ℕ
  pub response_timeout : ℕ

pub record RpcResponse : Type 0 where
  pub service_id : ℕ
  pub method_id : ℕ
  pub client_id : ℕ
  pub session_id : ℕ
  pub result : RpcResult
  pub return_values : List ℕ
