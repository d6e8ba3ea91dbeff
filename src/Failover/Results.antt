-- ===== src/Failover/Results.antt =====
-- What the rotation returns, of whatever its endpoints return.
use py_wallet_snapshot_servi.Prelude.{
  ℕ, ◌-◌, ◌*◌, ◌/◌, Option, none, some, List, [], ◌∷◌, Text, take_text,
}
use py_wallet_snapshot_servi.Enums.{ErrorType, error_type_value}
use py_wallet_snapshot_servi.Result.{Result, ok, raise}
use py_wallet_snapshot_servi.Collection.{ChainCollectionResult}
use py_wallet_snapshot_servi.Failover.{
  RpcAttemptError, Attempt, returned, rejected, broke, Clocks, second, blocked, failed, Rotation,
  Ended, available, try_endpoints, rotate, counted, succeeded, failure_metrics, cooling, retry_in,
}
use py_wallet_snapshot_servi.Rpc.Returned.{Returned}

-- `P` holds of a result that is no exception.
abbrev pub Answers :
    {S : Type 0} → (ChainCollectionResult → Type 0) → S × Result ChainCollectionResult → Type 0
Answers P (s, ok result) = P result
Answers P (s, raise e) = Unit

module _ {S : Type 0} (clocks : Clocks S) (chain : Text) (cooldown_seconds : ℕ)
    (collect : Text → S → S × Attempt ChainCollectionResult) (P : ChainCollectionResult → Type 0)
    (of_failed : (error_type message : Text) → P (failed chain error_type message))
    (of_collected : (url : Text) (s : S)
      → Returned
          (λ result. (latency : ℕ) → P (record result { rpc_latency_ms = some latency }))
          (collect url s)) where
  abbrev Good : Ended clocks chain cooldown_seconds → Type 0
  Good (r, result, metrics) = Answers P (r, result)

  try_endpoints-Answers :
      (free : List (ℕ × Text)) (last_error : Option RpcAttemptError) (r : Rotation S)
      → Good (try_endpoints clocks chain cooldown_seconds collect free last_error r)
  unfolding try_endpoints Returned
  try_endpoints-Answers [] none r = tt
  try_endpoints-Answers [] (some e) r = of_failed e.error_type (take_text 250 e.message)
  try_endpoints-Answers ((index, url) ∷ later) last_error r =
      settle (collect url (clocks.perf_counter r.inner).0)
        (of_collected url (clocks.perf_counter r.inner).0) λ e. try_endpoints-Answers later (some e)
    where
      settle :
          (a : S × Attempt ChainCollectionResult)
          → Returned
              (λ result. (latency : ℕ) → P (record result { rpc_latency_ms = some latency }))
              a
          → ((e : RpcAttemptError) (q : Rotation S)
              → Good (try_endpoints clocks chain cooldown_seconds collect later (some e) q))
          → Good (elim a.1 as (λ _. Ended clocks chain cooldown_seconds) [
            | returned result ↦
                succeeded clocks chain cooldown_seconds index url
                  (clocks.perf_counter r.inner).1
                  result
                  r.blocks
                  a.0
            | rejected e ↦
                counted clocks chain cooldown_seconds (failure_metrics chain index e later) (
                  try_endpoints clocks chain cooldown_seconds collect later
                    (some e)
                    (blocked clocks chain cooldown_seconds url e r.blocks a.0))
            | broke e ↦ (record { blocks = r.blocks; inner = a.0 }, raise e, [])
          ])
      settle (s, returned result) h rest =
          h (((clocks.perf_counter s).1 - (clocks.perf_counter r.inner).1) * 1000 / second)
      settle (s, rejected e) h rest =
          rest e (blocked clocks chain cooldown_seconds url e r.blocks s)
      settle (s, broke e) h rest = tt

  pub rotate-Answers :
      (missing : Text) (message : ℕ → Text) (urls : List Text) (r : Rotation S)
      → Good (rotate clocks chain cooldown_seconds missing message collect urls r)
  unfolding rotate
  rotate-Answers missing message [] r =
      of_failed (error_type_value ErrorType.missing_rpc_url) missing
  rotate-Answers missing message (url ∷ urls) r = split free
    where
      s : S
      s = (available clocks chain cooldown_seconds r.blocks 0 (url ∷ urls) r.inner).0

      free : List (ℕ × Text)
      free = (available clocks chain cooldown_seconds r.blocks 0 (url ∷ urls) r.inner).1

      split :
          (fs : List (ℕ × Text))
          → Good (elim fs as (λ _. Ended clocks chain cooldown_seconds) [
            | [] ↦ cooling clocks chain cooldown_seconds message url urls r.blocks s
            | f ∷ fs ↦
                try_endpoints clocks chain cooldown_seconds collect
                  (f ∷ fs)
                  none
                  (record r { inner = s })
          ])
      split [] =
          of_failed (error_type_value ErrorType.circuit_open)
            (message (retry_in r.blocks url urls (clocks.monotonic s).1))
      split (f ∷ fs) = try_endpoints-Answers (f ∷ fs) none (record r { inner = s })
