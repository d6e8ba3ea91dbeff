-- ===== src/Jobs.antt =====
-- app/services/job_service.py and app/schemas/jobs.py: how a job gets into the queue. The advisory
-- locks make each call one step; what they lock is a hash of the scope and is left out.
pub mod Create
pub mod Retry
pub mod Keeps
use py_wallet_snapshot_servi.Prelude.{
  ℕ, suc, Bool, true, false, not, ◌&&◌, Option, none, some, List, [], ◌∷◌, ◌++◌, ltb, ◌==◌,
  if◌then◌else◌, same_id, is_some, any, filter, Text, codes,
}
use py_wallet_snapshot_servi.Enums.{
  TriggerType, ScopeType, JobStatus, same_trigger, same_scope, is_active, chain_failed,
}
use py_wallet_snapshot_servi.Models.{SnapshotRun, WalletSnapshot, ChainSnapshot}
use py_wallet_snapshot_servi.Metrics.{Metric, Source, api, jobs_enqueued}
use py_wallet_snapshot_servi.Session.{Tables, Session, commit, get_run}
use py_wallet_snapshot_servi.Result.{Result, ok, raise, http_exception, value_error}

pub record SnapshotJobCreate : Type 0 where
  pub user_id : ℕ
  pub trigger_type : TriggerType
  pub scope_type : ScopeType
  pub group_id : Option ℕ
  pub wallet_id : Option ℕ
  pub activation_channel : Option Text

-- `SnapshotJobCreate.validate_scope`
unfoldable pub validate_scope : SnapshotJobCreate → Result SnapshotJobCreate
validate_scope p =
    if same_scope p.scope_type ScopeType.group && not (is_some p.group_id)
    then raise (value_error (codes "group_id is required for scope_type=group"))
    else if same_scope p.scope_type ScopeType.wallet && not (is_some p.wallet_id)
    then raise (value_error (codes "wallet_id is required for scope_type=wallet"))
    else if is_some p.activation_channel
        && not (
            same_trigger p.trigger_type TriggerType.auto
            && same_scope p.scope_type ScopeType.wallet)
    then raise
        (value_error (codes "activation_channel is only valid for auto wallet snapshot jobs"))
    else ok p

pub record JobCreationResult : Type 0 where
  pub job : SnapshotRun
  pub reused : Bool

-- `ORDER BY id DESC LIMIT 1`
abbrev later_of_two : SnapshotRun → Option SnapshotRun → Option SnapshotRun
later_of_two job none = some job
later_of_two job (some other) = some (if ltb job.id other.id then other else job)

unfoldable pub latest : List SnapshotRun → Option SnapshotRun
latest [] = none
latest (job ∷ jobs) = later_of_two job (latest jobs)

-- The `where` of `_get_active_scope_job`.
abbrev pub in_active_scope : SnapshotJobCreate → SnapshotRun → Bool
in_active_scope p job =
    (job.user_id == p.user_id)
    && same_scope job.scope_type p.scope_type
    && is_active job.status
    && same_id job.group_id p.group_id
    && same_id job.wallet_id p.wallet_id

unfoldable pub get_active_scope_job : SnapshotJobCreate → List SnapshotRun → Option SnapshotRun
unfolding latest
get_active_scope_job p runs = latest (filter (in_active_scope p) runs)

-- `db.add(job)` and the flush that gives it its id.
abbrev pub add_run : SnapshotRun → Session → Session
add_run job db = record db {
  current = record db.current {
    runs = db.current.runs ++ job ∷ [];
    next_run = suc db.current.next_run;
  };
}

-- The row that `create_job` adds.
abbrev pub new_job : SnapshotJobCreate → ℕ → ℕ → SnapshotRun
new_job p id now = record {
  id = id;
  user_id = p.user_id;
  trigger_type = p.trigger_type;
  scope_type = p.scope_type;
  group_id = p.group_id;
  wallet_id = p.wallet_id;
  parent_run_id = none;
  activation_channel = p.activation_channel;
  status = JobStatus.pending;
  created_at = now;
  started_at = none;
  finished_at = none;
  error_message = none;
  worker_id = none;
  lease_expires_at = none;
}

-- Both services end so: the active job is returned, or a new one is added.
abbrev pub reuse_or_add :
    Source → SnapshotRun → Option SnapshotRun → Session → Session × JobCreationResult × List Metric
reuse_or_add source job (some active) db = (commit db, record { job = active; reused = true }, [])
reuse_or_add source job none db = (
  commit (add_run job db),
  record { job = job; reused = false },
  jobs_enqueued source job.trigger_type job.scope_type ∷ [],
)

unfoldable pub create_job :
    SnapshotJobCreate → Source → ℕ → Session → Session × JobCreationResult × List Metric
create_job p source now db =
    reuse_or_add source (new_job p db.current.next_run now) (get_active_scope_job p db.current.runs)
      db

unfoldable pub get_job : ℕ → Session → Result SnapshotRun
get_job job_id db = elim (get_run job_id db.current.runs) [
  | none ↦ raise (http_exception 404 (codes "job not found"))
  | some job ↦ ok job
]

-- `parent.status not in (PARTIAL_SUCCESS, FAILED)`
abbrev pub is_retryable : JobStatus → Bool
is_retryable JobStatus.partial_success = true
is_retryable JobStatus.failed = true
is_retryable _ = false

-- `ChainSnapshot.wallet_snapshot.has(snapshot_run_id=...)`
abbrev pub chain_of_run : Tables → ℕ → ChainSnapshot → Bool
chain_of_run t run_id chain =
    any (λ w. (w.id == chain.wallet_snapshot_id) && (w.snapshot_run_id == run_id))
      t.wallet_snapshots

unfoldable pub failed_chain_exists : Tables → ℕ → Bool
failed_chain_exists t run_id =
    any (λ c. chain_failed c.status && chain_of_run t run_id c) t.chain_snapshots

-- The `where` of `active_retry`.
abbrev pub is_active_retry : ℕ → SnapshotRun → Bool
is_active_retry parent_id job =
    same_id job.parent_run_id (some parent_id)
    && same_trigger job.trigger_type TriggerType.retry
    && same_scope job.scope_type ScopeType.failed_chains
    && is_active job.status

-- The row that `create_retry_failed_job` adds.
abbrev pub retry_job : SnapshotRun → ℕ → ℕ → SnapshotRun
retry_job parent id now = record {
  id = id;
  user_id = parent.user_id;
  trigger_type = TriggerType.retry;
  scope_type = ScopeType.failed_chains;
  group_id = parent.group_id;
  wallet_id = parent.wallet_id;
  parent_run_id = some parent.id;
  activation_channel = none;
  status = JobStatus.pending;
  created_at = now;
  started_at = none;
  finished_at = none;
  error_message = none;
  worker_id = none;
  lease_expires_at = none;
}

abbrev returned :
    Session × JobCreationResult × List Metric → Session × Result JobCreationResult × List Metric
returned (db, r, ms) = (db, ok r, ms)

-- `create_retry_failed_job` from the parent on.
abbrev pub retry_of :
    Option SnapshotRun → ℕ → Session → Session × Result JobCreationResult × List Metric
retry_of none now db = (db, raise (http_exception 404 (codes "parent job not found")), [])
retry_of (some parent) now db =
    if not (is_retryable parent.status)
    then (
      db,
      raise (http_exception 409 (codes "parent job is not ready for failed-chain retry")),
      [],
    )
    else if not (failed_chain_exists db.current parent.id)
    then (db, raise (http_exception 400 (codes "parent job has no failed chains")), [])
    else returned (
        reuse_or_add api (retry_job parent db.current.next_run now)
          (latest (filter (is_active_retry parent.id) db.current.runs)) db)

unfoldable pub create_retry_failed_job :
    ℕ → ℕ → Session → Session × Result JobCreationResult × List Metric
unfolding failed_chain_exists latest
create_retry_failed_job parent_job_id now db =
    retry_of (get_run parent_job_id db.current.runs) now db
