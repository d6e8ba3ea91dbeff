-- ===== src/Failover.antt =====
-- The rotation of RPC endpoints, which collect_chain of app/services/evm_collector.py and
-- collect_wallet of app/services/solana_collector.py share: endpoints that failed are left out for a
-- while, and the others are tried in order. Times are in nanoseconds.
pub mod Bounds
pub mod Endings
pub mod Results
use py_wallet_snapshot_servi.Prelude.{
  ℕ, suc, ◌+◌, ◌-◌, ◌*◌, ◌/◌, ◌^◌, min, max, Bool, true, false, Option, none, some, List, [], ◌∷◌,
  ◌++◌, leb, if◌then◌else◌, Text, codes, text_eq, take_text, show_ℕ, is_empty, Dict, lookup, pop,
}
use py_wallet_snapshot_servi.Enums.{ChainStatus, ErrorType, error_type_value}
use py_wallet_snapshot_servi.Decimal.{zero_usd}
use py_wallet_snapshot_servi.Metrics.{Metric, rpc_attempts, rpc_circuit_open, rpc_failovers}
use py_wallet_snapshot_servi.Result.{Error, Result, ok, raise}
use py_wallet_snapshot_servi.Collection.{ChainCollectionResult}

-- `RpcAttemptError`
pub record RpcAttemptError : Type 0 where
  pub error_type : Text
  pub message : Text
  pub retry_after_seconds : Option ℕ

-- A call to an endpoint: it returns, raises RpcAttemptError, or another exception.
pub data Attempt (A : Type 0) : Type 0 where
  returned : A → Attempt A
  rejected : RpcAttemptError → Attempt A
  broke : Error → Attempt A

-- `time.monotonic` and `time.perf_counter`
pub record Clocks (S : Type 0) : Type 0 where
  pub monotonic : S → S × ℕ
  pub perf_counter : S → S × ℕ

abbrev pub second : ℕ
second = 10 ^ 9

-- `_unavailable_until`
abbrev pub Blocks : Type 0
Blocks = Dict Text ℕ

-- `_failed`
abbrev pub failed : Text → Text → Text → ChainCollectionResult
failed chain error_type error_message = record {
  chain = chain;
  status = ChainStatus.failed;
  native_balance = none;
  total_usd = zero_usd;
  rpc_latency_ms = none;
  balances = [];
  error_type = some error_type;
  error_message = some error_message;
}

abbrev pub or_zero : Option ℕ → ℕ
or_zero none = 0
or_zero (some t) = t

-- `self._unavailable_until.get(url, 0)`
unfoldable pub blocked_until : Blocks → Text → ℕ
unfolding lookup
blocked_until blocks url = or_zero (lookup text_eq url blocks)

-- `exc.retry_after_seconds or self.cooldown_seconds`
abbrev wanted : Option ℕ → ℕ → ℕ
wanted none cooldown_seconds = cooldown_seconds
wanted (some n) cooldown_seconds = if leb n 0 then cooldown_seconds else n

abbrev pub cooldown : ℕ → RpcAttemptError → ℕ
cooldown cooldown_seconds e = min 3600 (max 1 (wanted e.retry_after_seconds cooldown_seconds))

-- The next_release of the times at which endpoints are free again.
unfoldable pub next_release : Blocks → Text → List Text → ℕ
unfolding blocked_until
next_release blocks url [] = blocked_until blocks url
next_release blocks url (v ∷ vs) = min (blocked_until blocks url) (next_release blocks v vs)

-- `max(1, int(... - monotonic()))`
abbrev pub retry_in : Blocks → Text → List Text → ℕ → ℕ
retry_in blocks url urls now = max 1 ((next_release blocks url urls - now) / second)

abbrev failover_metric : Text → List (ℕ × Text) → List Metric
failover_metric chain [] = []
failover_metric chain (_ ∷ _) = rpc_failovers chain ∷ []

abbrev pub failure_metrics : Text → ℕ → RpcAttemptError → List (ℕ × Text) → List Metric
failure_metrics chain index e later =
    rpc_attempts chain index (some e.error_type)
    ∷ rpc_circuit_open chain index
    ∷ failover_metric chain later

-- The state of a collector that the rotation uses.
pub record Rotation (S : Type 0) : Type 0 where
  pub blocks : Blocks
  pub inner : S

module _ {S : Type 0} (clocks : Clocks S) (chain : Text) (cooldown_seconds : ℕ) where
  open clocks use {monotonic, perf_counter}

  -- The endpoints that are free, with their positions; the clock is read for each.
  unfoldable pub available : Blocks → ℕ → List Text → S → S × List (ℕ × Text)
  unfolding blocked_until
  available blocks index [] s = (s, [])
  available blocks index (url ∷ urls) s =
      let (s1, now) = monotonic s in
      let (s2, rest) = available blocks (suc index) urls s1 in
      (s2, if leb (blocked_until blocks url) now then (index, url) ∷ rest else rest)

  -- What a rotation ends with.
  abbrev pub Ended : Type 0
  Ended = Rotation S × Result ChainCollectionResult × List Metric

  abbrev pub counted : List Metric → Ended → Ended
  counted ms (r, result, more) = (r, result, ms ++ more)

  -- The end of the loop without a result.
  abbrev pub give_up : Option RpcAttemptError → Rotation S → Ended
  give_up none r = (r, raise (Error.unexpected (codes "AssertionError")), [])
  give_up (some e) r = (r, ok (failed chain e.error_type (take_text 250 e.message)), [])

  abbrev pub blocked : Text → RpcAttemptError → Blocks → S → Rotation S
  blocked url e blocks s =
      let (s', now) = monotonic s in
      record { blocks = (url, now + cooldown cooldown_seconds e * second) ∷ blocks; inner = s' }

  abbrev pub succeeded : ℕ → Text → ℕ → ChainCollectionResult → Blocks → S → Ended
  succeeded index url started result blocks s =
      let (s', ended) = perf_counter s in
      (
        record { blocks = pop text_eq url blocks; inner = s' },
        ok (record result { rpc_latency_ms = some ((ended - started) * 1000 / second) }),
        rpc_attempts chain index none ∷ [],
      )

  -- The loop over the available endpoints, each tried by `collect`.
  unfoldable pub try_endpoints :
      (Text → S → S × Attempt ChainCollectionResult)
      → List (ℕ × Text)
      → Option RpcAttemptError
      → Rotation S
      → Ended
  unfolding pop
  try_endpoints collect [] last_error r = give_up last_error r
  try_endpoints collect ((index, url) ∷ later) last_error r =
      let (s0, started) = perf_counter r.inner in
      let (s1, attempt) = collect url s0 in
      elim attempt [
        | returned result ↦ succeeded index url started result r.blocks s1
        | rejected e ↦
            counted (failure_metrics chain index e later)
              (try_endpoints collect later (some e) (blocked url e r.blocks s1))
        | broke e ↦ (record { blocks = r.blocks; inner = s1 }, raise e, [])
      ]

  -- All endpoints are cooling down.
  abbrev pub cooling : (ℕ → Text) → Text → List Text → Blocks → S → Ended
  cooling message url urls blocks s =
      let (s', now) = monotonic s in
      (
        record { blocks = blocks; inner = s' },
        ok (
            failed chain (error_type_value ErrorType.circuit_open)
              (message (retry_in blocks url urls now))),
        [],
      )

  -- From the test of the configured endpoints on: no endpoint, all blocked, or the loop.
  unfoldable pub rotate :
      Text
      → (ℕ → Text)
      → (Text → S → S × Attempt ChainCollectionResult)
      → List Text
      → Rotation S
      → Ended
  unfolding available try_endpoints next_release
  rotate missing message collect [] r =
      (r, ok (failed chain (error_type_value ErrorType.missing_rpc_url) missing), [])
  rotate missing message collect (url ∷ urls) r =
      let (s, free) = available r.blocks 0 (url ∷ urls) r.inner in
      elim free [
        | [] ↦ cooling message url urls r.blocks s
        | f ∷ fs ↦ try_endpoints collect (f ∷ fs) none (record r { inner = s })
      ]
