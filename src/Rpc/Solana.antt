-- ===== src/Rpc/Solana.antt =====
-- app/services/solana_collector.py: `_rpc_call` and `_retry_after_seconds`.
use py_wallet_snapshot_servi.Prelude.{
  ℕ, max, Option, none, some, ◌==◌, if◌then◌else◌, Text, codes, ◌++◌, is_empty, contains, lower,
  read_int, show_ℕ, ℤ, pos_part,
}
use py_wallet_snapshot_servi.Enums.{ErrorType}
use py_wallet_snapshot_servi.Json.{Json, get_field, not_null}
use py_wallet_snapshot_servi.Failover.{RpcAttemptError}
use py_wallet_snapshot_servi.Rpc.{
  Body, json, invalid, Posted, timed_out, connect_failed, post_failed, replied, Rpc, Call,
  rpc_failure, request, error_type_of_text, pure, reject, ◌>>=◌,
}

abbrev at_least_one : Option ℤ → Option ℕ
at_least_one none = none
at_least_one (some n) = some (max 1 (pos_part n))

unfoldable pub retry_after_seconds : Option Text → Option ℕ
unfolding read_int
retry_after_seconds none = none
retry_after_seconds (some value) = if is_empty value then none else at_least_one (read_int value)

module _ {S : Type 0} (rpc : Rpc S) where
  abbrev payload_of : Body → Call S Json
  payload_of (json payload) = pure payload
  payload_of (invalid message) =
      reject (rpc_failure ErrorType.rpc_error (codes "Solana RPC returned an invalid response"))

  abbrev pub checked_reply : ℕ → Option Text → Body → Call S Json
  checked_reply status_code none body = payload_of body
  checked_reply status_code (some message) body =
      reject
        (rpc_failure ErrorType.rpc_error (codes "Solana RPC returned HTTP " ++ show_ℕ status_code))

  -- The body of the `try`: the payload of a request that was answered.
  abbrev pub payload_of_posted : Posted → Call S Json
  payload_of_posted timed_out =
      reject (rpc_failure ErrorType.timeout (codes "Solana RPC request timed out"))
  payload_of_posted connect_failed =
      reject (rpc_failure ErrorType.connection_error (codes "Solana RPC connection failed"))
  payload_of_posted (post_failed message) =
      reject (rpc_failure ErrorType.rpc_error (codes "Solana RPC returned an invalid response"))
  payload_of_posted (replied reply) =
      if reply.status_code == 429
      then reject
          (record (rpc_failure ErrorType.rate_limit (codes "Solana RPC rate limit exceeded")) {
            retry_after_seconds = retry_after_seconds reply.retry_after;
          })
      else checked_reply reply.status_code reply.status_error reply.body

  abbrev json_result : Text → Option Json → Call S Json
  json_result method (some result) = pure result
  json_result method none = reject (
      rpc_failure ErrorType.rpc_error
        (codes "RPC response for " ++ method ++ codes " has no result"))

  abbrev error_of_type : Text → ErrorType → RpcAttemptError
  error_of_type method ErrorType.rate_limit =
      rpc_failure ErrorType.rate_limit (codes "Solana RPC rate limit exceeded")
  error_of_type method error_type =
      rpc_failure error_type (codes "Solana RPC error during " ++ method)

  abbrev pub result_or_error : Text → Option Json → Option Json → Call S Json
  result_or_error method none result = json_result method result
  result_or_error method (some error) result =
      reject (error_of_type method (error_type_of_text (rpc.show_json error)))

  -- What follows the `try`.
  abbrev pub result_of_payload : Text → Json → Call S Json
  result_of_payload method (Json.object fields) =
      result_or_error method (not_null (get_field (codes "error") fields))
        (get_field (codes "result") fields)
  result_of_payload method _ = reject (
      rpc_failure ErrorType.rpc_error
        (codes "RPC response for " ++ method ++ codes " is not an object"))

  abbrev pub send : Text → ℕ → Text → Json → Call S Json
  send url timeout method params s =
      let (s', posted) = rpc.post url timeout (request method params) s in
      payload_of_posted posted s'

  unfoldable pub rpc_call : Text → ℕ → Text → Json → Call S Json
  unfolding retry_after_seconds contains lower show_ℕ
  rpc_call url timeout method params = do
    payload ← send url timeout method params
    result_of_payload method payload
