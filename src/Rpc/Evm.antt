-- ===== src/Rpc/Evm.antt =====
-- app/services/evm_collector.py: `_rpc_call`, `_rpc_int` and `_retry_after_seconds`.
use py_wallet_snapshot_servi.Prelude.{
  ℕ, ◌-◌, ◌/◌, max, Option, none, some, ◌==◌, if◌then◌else◌, Text, codes, ◌++◌, take_text, is_empty,
  contains, lower, read_int, read_int_16, ℤ, pos_part,
}
use py_wallet_snapshot_servi.Enums.{ErrorType}
use py_wallet_snapshot_servi.Json.{Json, get_field, not_null}
use py_wallet_snapshot_servi.Failover.{Attempt, rejected, second}
use py_wallet_snapshot_servi.Rpc.{
  Body, json, invalid, Posted, timed_out, connect_failed, post_failed, replied, Rpc, Call,
  rpc_failure, request, error_type_of_text, pure, reject, crash, ◌>>=◌,
}

-- `[:250]`
abbrev pub message_limit : ℕ
message_limit = 250

module _ {S : Type 0} (rpc : Rpc S) where
  -- The seconds until the date of the header, one at least.
  abbrev seconds_until : Option ℕ → S → S × Option ℕ
  seconds_until none s = (s, none)
  seconds_until (some at) s =
      let (s', now) = rpc.utc_now s in (s', some (max 1 ((at - now) / second)))

  abbrev retry_after_number : Text → Option ℤ → S → S × Option ℕ
  retry_after_number value none s = seconds_until (rpc.parse_date value) s
  retry_after_number value (some n) s = (s, some (max 1 (pos_part n)))

  unfoldable pub retry_after_seconds : Option Text → S → S × Option ℕ
  unfolding read_int
  retry_after_seconds none s = (s, none)
  retry_after_seconds (some value) s =
      if is_empty value then (s, none) else retry_after_number value (read_int value) s

  abbrev payload_of : Body → Call S Json
  payload_of (json payload) = pure payload
  payload_of (invalid message) =
      reject (rpc_failure ErrorType.rpc_error (take_text message_limit message))

  abbrev pub checked_reply : Option Text → Body → Call S Json
  checked_reply none body = payload_of body
  checked_reply (some message) body =
      reject (rpc_failure ErrorType.rpc_error (take_text message_limit message))

  abbrev pub rate_limited : S × Option ℕ → S × Attempt Json
  rate_limited (s, after) = (
    s,
    rejected (record (rpc_failure ErrorType.rate_limit (codes "RPC rate limit exceeded")) {
      retry_after_seconds = after;
    }),
  )

  -- The body of the `try`: the payload of a request that was answered.
  abbrev pub payload_of_posted : Posted → Call S Json
  payload_of_posted timed_out s =
      reject (rpc_failure ErrorType.timeout (codes "RPC request timed out")) s
  payload_of_posted connect_failed s =
      reject (rpc_failure ErrorType.connection_error (codes "RPC connection failed")) s
  payload_of_posted (post_failed message) s =
      reject (rpc_failure ErrorType.rpc_error (take_text message_limit message)) s
  payload_of_posted (replied reply) s =
      if reply.status_code == 429
      then rate_limited (retry_after_seconds reply.retry_after s)
      else checked_reply reply.status_error reply.body s

  abbrev text_result : Text → Option Json → Call S Text
  text_result method (some (Json.string s)) = pure s
  text_result method _ = reject (
      rpc_failure ErrorType.rpc_error
        (codes "RPC response for " ++ method ++ codes " has no result"))

  abbrev pub result_or_error : Text → Option Json → Option Json → Call S Text
  result_or_error method none result = text_result method result
  result_or_error method (some error) result =
      let text = rpc.show_json error in
      reject (rpc_failure (error_type_of_text text) (take_text message_limit text))

  -- What follows the `try`. A payload that is no dictionary has no method `get`.
  abbrev pub result_of_payload : Text → Json → Call S Text
  result_of_payload method (Json.object fields) =
      result_or_error method (not_null (get_field (codes "error") fields))
        (get_field (codes "result") fields)
  result_of_payload method _ = crash (codes "AttributeError")

  abbrev pub send : Text → ℕ → Text → Json → Call S Json
  send url timeout method params s =
      let (s', posted) = rpc.post url timeout (request method params) s in
      payload_of_posted posted s'

  unfoldable pub rpc_call : Text → ℕ → Text → Json → Call S Text
  unfolding retry_after_seconds contains lower take_text
  rpc_call url timeout method params = do
    payload ← send url timeout method params
    result_of_payload method payload

  abbrev int_result : Text → Option ℤ → Call S ℤ
  int_result method none =
      reject (rpc_failure ErrorType.rpc_error (codes "invalid " ++ method ++ codes " result"))
  int_result method (some n) = pure n

  unfoldable pub rpc_int : Text → ℕ → Text → Json → Call S ℤ
  unfolding rpc_call read_int_16
  rpc_int url timeout method params = do
    result ← rpc_call url timeout method params
    int_result method (read_int_16 result)
