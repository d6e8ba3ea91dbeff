-- ===== src/Api.antt =====
-- app/api/internal_jobs.py: the requests of the internal API, each behind the check of the token. What
-- the web framework does (routing, the reading of a request) is left out; a payload is validated after
-- the token is checked, as its dependencies come first.
pub mod Served
pub mod Debug
use py_wallet_snapshot_servi.Prelude.{ℕ, Bool, Option, List, [], Text}
use py_wallet_snapshot_servi.Enums.{TriggerType, ScopeType, JobStatus}
use py_wallet_snapshot_servi.Models.{SnapshotRun}
use py_wallet_snapshot_servi.Metrics.{Metric, api}
use py_wallet_snapshot_servi.Result.{Error, Result, ok, raise}
use py_wallet_snapshot_servi.Session.{Session}
use py_wallet_snapshot_servi.Access.{AccessSettings, require_internal_token}
use py_wallet_snapshot_servi.Jobs.{
  SnapshotJobCreate, JobCreationResult, validate_scope, create_job, create_retry_failed_job,
  get_job,
}

pub record SnapshotJobCreateResponse : Type 0 where
  pub job_id : ℕ
  pub status : JobStatus
  pub reused : Bool

pub record SnapshotJobStatusResponse : Type 0 where
  pub job_id : ℕ
  pub user_id : ℕ
  pub trigger_type : TriggerType
  pub scope_type : ScopeType
  pub status : JobStatus
  pub group_id : Option ℕ
  pub wallet_id : Option ℕ
  pub parent_run_id : Option ℕ
  pub created_at : ℕ
  pub started_at : Option ℕ
  pub finished_at : Option ℕ
  pub error_message : Option Text

-- What a request gives: the session, an answer or an exception, and what was counted.
abbrev pub Served : Type 0 → Type 0
Served A = Session × Result A × List Metric

-- A handler behind a check.
abbrev pub after_check : {A B : Type 0} → Result B → (B → Session → Served A) → Session → Served A
after_check (ok b) handler db = handler b db
after_check (raise e) handler db = (db, raise e, [])

abbrev pub create_response : JobCreationResult → SnapshotJobCreateResponse
create_response result = record {
  job_id = result.job.id;
  status = result.job.status;
  reused = result.reused;
}

abbrev pub created_response :
    Session × JobCreationResult × List Metric → Served SnapshotJobCreateResponse
created_response (db, result, metrics) = (db, ok (create_response result), metrics)

abbrev pub retried_response :
    Session × Result JobCreationResult × List Metric → Served SnapshotJobCreateResponse
retried_response (db, ok result, metrics) = (db, ok (create_response result), metrics)
retried_response (db, raise e, metrics) = (db, raise e, metrics)

abbrev pub status_response : SnapshotRun → SnapshotJobStatusResponse
status_response job = record {
  job_id = job.id;
  user_id = job.user_id;
  trigger_type = job.trigger_type;
  scope_type = job.scope_type;
  status = job.status;
  group_id = job.group_id;
  wallet_id = job.wallet_id;
  parent_run_id = job.parent_run_id;
  created_at = job.created_at;
  started_at = job.started_at;
  finished_at = job.finished_at;
  error_message = job.error_message;
}

abbrev pub found_response : Result SnapshotRun → Session → Served SnapshotJobStatusResponse
found_response (ok job) db = (db, ok (status_response job), [])
found_response (raise e) db = (db, raise e, [])

module _ (settings : AccessSettings) (header : Option Text) where
  unfoldable pub create_snapshot_job :
      SnapshotJobCreate → ℕ → Session → Served SnapshotJobCreateResponse
  unfolding require_internal_token validate_scope create_job
  create_snapshot_job payload now db =
      after_check (require_internal_token settings header)
        (λ _. after_check (validate_scope payload) λ p d. created_response (create_job p api now d))
        db

  unfoldable pub retry_failed_chains : ℕ → ℕ → Session → Served SnapshotJobCreateResponse
  unfolding require_internal_token create_retry_failed_job
  retry_failed_chains job_id now db =
      after_check (require_internal_token settings header)
        (λ _ d. retried_response (create_retry_failed_job job_id now d)) db

  unfoldable pub get_snapshot_job : ℕ → Session → Served SnapshotJobStatusResponse
  unfolding require_internal_token get_job
  get_snapshot_job job_id db =
      after_check (require_internal_token settings header)
        (λ _ d. found_response (get_job job_id d) d) db
