-- ===== src/Rpc/Errors.antt =====
-- Which exceptions the calls of an endpoint raise in app/services/evm_collector.py.
use py_wallet_snapshot_servi.Prelude.{
  ℕ, Bool, true, false, ◌≡◌, refl, ap, Option, none, some, is_some, not, codes, if◌then◌else◌, ◌==◌,
  arith, Text,
}
use py_wallet_snapshot_servi.Json.{Json, is_object, get_field, not_null}
use py_wallet_snapshot_servi.Result.{Error}
use py_wallet_snapshot_servi.Failover.{Attempt, returned, rejected, broke}
use py_wallet_snapshot_servi.Rpc.{
  Rpc, Body, json, invalid, Posted, timed_out, connect_failed, post_failed, replied,
  continue_attempt, request,
}
use py_wallet_snapshot_servi.Rpc.Evm

-- The exception, where the call raises one besides RpcAttemptError.
abbrev pub broke_with : {A : Type 0} → Attempt A → Option Error
broke_with (returned a) = none
broke_with (rejected e) = none
broke_with (broke e) = some e

abbrev pub value_of : {A : Type 0} → Attempt A → Option A
value_of (returned a) = some a
value_of (rejected e) = none
value_of (broke e) = none

module _ {S : Type 0} (rpc : Rpc S) where
  checked-broke_with :
      (status_error : Option Text) (body : Body) (s : S)
      → broke_with (Evm.checked_reply rpc status_error body s).1 ≡ none
  checked-broke_with none (json payload) s = refl
  checked-broke_with none (invalid message) s = refl
  checked-broke_with (some message) body s = refl

  -- The reading of a response raises nothing but RpcAttemptError.
  payload-broke_with :
      (posted : Posted) (s : S) → broke_with (Evm.payload_of_posted rpc posted s).1 ≡ none
  payload-broke_with timed_out s = refl
  payload-broke_with connect_failed s = refl
  payload-broke_with (post_failed message) s = refl
  payload-broke_with (replied reply) s =
      split (reply.status_code == 429) (checked-broke_with reply.status_error reply.body s)
    where
      limited : S × Attempt Json
      limited = Evm.rate_limited rpc (Evm.retry_after_seconds rpc reply.retry_after s)

      split :
          (b : Bool)
          → broke_with (Evm.checked_reply rpc reply.status_error reply.body s).1 ≡ none
          → broke_with
              (if b then limited else Evm.checked_reply rpc reply.status_error reply.body s).1
            ≡ none
      split true h = refl
      split false h = h

  error-broke_with :
      (method : Text) (error result : Option Json) (s : S)
      → broke_with (Evm.result_or_error rpc method error result s).1 ≡ none
  error-broke_with method (some error) result s = refl
  error-broke_with method none none s = refl
  error-broke_with method none (some Json.null) s = refl
  error-broke_with method none (some (Json.boolean b)) s = refl
  error-broke_with method none (some (Json.int n)) s = refl
  error-broke_with method none (some (Json.float t)) s = refl
  error-broke_with method none (some (Json.string t)) s = refl
  error-broke_with method none (some (Json.array a)) s = refl
  error-broke_with method none (some (Json.object o)) s = refl

  -- A payload breaks the call exactly where it is no object.
  result-broke_with :
      (method : Text) (payload : Json) (s : S)
      → is_some (broke_with (Evm.result_of_payload rpc method payload s).1)
        ≡ not (is_object payload)
  result-broke_with method Json.null s = refl
  result-broke_with method (Json.boolean b) s = refl
  result-broke_with method (Json.int n) s = refl
  result-broke_with method (Json.float t) s = refl
  result-broke_with method (Json.string t) s = refl
  result-broke_with method (Json.array a) s = refl
  result-broke_with method (Json.object fields) s = ap is_some (
      error-broke_with method (not_null (get_field (codes "error") fields))
        (get_field (codes "result") fields) s)

  abbrev pub no_object : Option Json → Bool
  no_object none = false
  no_object (some payload) = not (is_object payload)

  continue-broke_with :
      (method : Text) (x : S × Attempt Json)
      → broke_with x.1 ≡ none
      → is_some (broke_with (continue_attempt (Evm.result_of_payload rpc method) x).1)
        ≡ no_object (value_of x.1)
  continue-broke_with method (s, returned payload) h = result-broke_with method payload s
  continue-broke_with method (s, rejected e) h = refl
  continue-broke_with method (s, broke e) h = absurd (ground arith)

  -- A call of the EVM collector raises another exception than RpcAttemptError exactly where the
  -- endpoint answers, with a good status, JSON that is not an object; every other answer or failure of
  -- the request gives a result or RpcAttemptError.
  pub rpc_call-broke_with :
      (url : Text) (timeout : ℕ) (method : Text) (params : Json) (s : S)
      → is_some (broke_with (Evm.rpc_call rpc url timeout method params s).1)
        ≡ no_object (value_of (Evm.send rpc url timeout method params s).1)
  unfolding Evm.rpc_call
  rpc_call-broke_with url timeout method params s =
      let (s', posted) = rpc.post url timeout (request method params) s in
      continue-broke_with method (Evm.payload_of_posted rpc posted s')
        (payload-broke_with posted s')
