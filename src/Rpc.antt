-- ===== src/Rpc.antt =====
-- The calls of an RPC endpoint in app/services/evm_collector.py and solana_collector.py: what the HTTP
-- library hands back, and calls that may raise. A client is known by its timeout; which connections it
-- keeps open is left out.
pub mod Evm
pub mod Solana
pub mod Returned
pub mod Errors
use py_wallet_snapshot_servi.Prelude.{
  ℕ, Bool, true, false, ◌||◌, Option, none, some, Text, codes, lower, contains, if◌then◌else◌, ℤ,
  pos,
}
use py_wallet_snapshot_servi.Enums.{ErrorType, error_type_value}
use py_wallet_snapshot_servi.Json.{Json, Fields}
use py_wallet_snapshot_servi.Failover.{RpcAttemptError, Attempt, returned, rejected, broke, Clocks}
use py_wallet_snapshot_servi.Result.{Error}

-- The body of a response: `response.json()`, or the message of what it raises.
pub data Body : Type 0 where
  json : Json → Body
  invalid : Text → Body

-- A response; `status_error` is the message of what `raise_for_status` raises.
pub record Reply : Type 0 where
  pub status_code : ℕ
  pub retry_after : Option Text
  pub status_error : Option Text
  pub body : Body

-- `client.post`: a response or an exception.
pub data Posted : Type 0 where
  timed_out connect_failed : Posted
  post_failed : Text → Posted
  replied : Reply → Posted

-- What lies outside: the clocks, the requests (an address, a timeout and a body), `str` of a JSON value
-- and the instant that a date names, in nanoseconds and in UTC where it names no zone.
pub record Rpc (S : Type 0) : Type 0 where
  pub clocks : Clocks S
  pub utc_now : S → S × ℕ
  pub post : Text → ℕ → Json → S → S × Posted
  pub show_json : Json → Text
  pub parse_date : Text → Option ℕ

abbrev pub Call : Type 0 → Type 0 → Type 0
Call S A = S → S × Attempt A

abbrev pub rpc_failure : ErrorType → Text → RpcAttemptError
rpc_failure error_type message = record {
  error_type = error_type_value error_type;
  message = message;
  retry_after_seconds = none;
}

abbrev pub request : Text → Json → Json
request method params = Json.object (
    Fields.field (codes "jsonrpc") (Json.string (codes "2.0")) (
      Fields.field (codes "method") (Json.string method) (
        Fields.field (codes "params") params
          (Fields.field (codes "id") (Json.int (pos 1)) Fields.end))))

-- The error type of the text of an RPC error.
abbrev pub error_type_of_text : Text → ErrorType
error_type_of_text text =
    if contains (lower text) (codes "rate") || contains (lower text) (codes "too many")
    then ErrorType.rate_limit
    else ErrorType.rpc_error

abbrev pub continue_attempt : {S A B : Type 0} → (A → Call S B) → S × Attempt A → S × Attempt B
continue_attempt f (s, returned a) = f a s
continue_attempt f (s, rejected e) = (s, rejected e)
continue_attempt f (s, broke e) = (s, broke e)

module _ {S : Type 0} where
  abbrev pub pure : {A : Type 0} → A → Call S A
  pure a s = (s, returned a)

  abbrev pub reject : {A : Type 0} → RpcAttemptError → Call S A
  reject e s = (s, rejected e)

  abbrev pub crash : {A : Type 0} → Text → Call S A
  crash message s = (s, broke (Error.unexpected message))

  infixl 5 ◌>>=◌ ◌>>◌
  abbrev pub ◌>>=◌ : {A B : Type 0} → Call S A → (A → Call S B) → Call S B
  ◌>>=◌ m f s = continue_attempt f (m s)

  abbrev pub ◌>>◌ : {A B : Type 0} → Call S A → Call S B → Call S B
  m >> k = m >>= λ _. k

  abbrev pub gets : {A : Type 0} → (S → A) → Call S A
  gets f s = (s, returned (f s))

  abbrev pub modify : (S → S) → Call S (Unit {0})
  modify f s = (f s, returned tt)
