-- ===== src/Metrics.antt =====
-- app/metrics.py: the counters, as the events that a call adds to them. Histograms and the gauges that
-- hold clock readings are left out; the gauges of the queue are in Worker.antt.
use py_wallet_snapshot_servi.Prelude.{
  ℕ, ◌||◌, Option, none, some, List, [], ◌∷◌, Text, codes, text_eq, if◌then◌else◌,
}
use py_wallet_snapshot_servi.Enums.{
  TriggerType, ScopeType, JobStatus, WalletSnapshotStatus, ChainStatus,
}

pub data LeaseState : Type 0 where
  expired_lease legacy_no_lease : LeaseState

pub data Outcome : Type 0 where
  success partial failed : Outcome

-- The `source` of a job: `Literal["api", "scheduler"]`.
pub data Source : Type 0 where
  api scheduler : Source

pub data Metric : Type 0 where
  stale_jobs_recovered : LeaseState → Metric
  first_snapshot_outcome : Text → Outcome → Metric
  jobs_enqueued : Source → TriggerType → ScopeType → Metric
  jobs_skipped : Metric
  scheduler_jobs_created : Metric
  scheduler_jobs_skipped : Metric
  jobs_total : JobStatus → TriggerType → ScopeType → Metric
  wallets_processed : WalletSnapshotStatus → Metric
  chain_requests : Text → ChainStatus → Text → Metric
  balance_snapshots_written : Metric
  rpc_attempts : Text → ℕ → Option Text → Metric
  rpc_circuit_open : Text → ℕ → Metric
  rpc_failovers : Text → Metric

-- The dictionary of `observe_first_snapshot_outcome`.
abbrev pub outcome_of : JobStatus → Option Outcome
outcome_of JobStatus.success = some success
outcome_of JobStatus.partial_success = some partial
outcome_of JobStatus.failed = some failed
outcome_of _ = none

abbrev observe_channel : Text → Option Outcome → List Metric
observe_channel channel none = []
observe_channel channel (some outcome) =
    if text_eq channel (codes "web") || text_eq channel (codes "telegram")
    then first_snapshot_outcome channel outcome ∷ []
    else []

unfoldable pub observe_first_snapshot_outcome : Option Text → JobStatus → List Metric
observe_first_snapshot_outcome none status = []
observe_first_snapshot_outcome (some channel) status = observe_channel channel (outcome_of status)
