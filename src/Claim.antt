-- ===== src/Claim.antt =====
-- app/worker/claim.py: leases on snapshot jobs. `now` is the reading of the clock, and `locked` tells
-- which rows another transaction holds, so that `FOR UPDATE SKIP LOCKED` passes over them; where the
-- database has no row locks (SQLite), it is constantly false.
pub mod Recover
pub mod Renew
pub mod Take
pub mod Keeps
use py_wallet_snapshot_servi.Prelude.{
  ℕ, ◌+◌, Bool, false, not, ◌&&◌, ◌||◌, Option, none, some, List, [], ◌∷◌, ◌++◌, ltb, leb, ◌==◌,
  if◌then◌else◌, is_some, length, filter, Text, codes, same_text,
}
use py_wallet_snapshot_servi.Enums.{JobStatus, is_pending, is_running}
use py_wallet_snapshot_servi.Models.{SnapshotRun}
use py_wallet_snapshot_servi.Metrics.{
  Metric, stale_jobs_recovered, LeaseState, expired_lease, legacy_no_lease,
  observe_first_snapshot_outcome,
}
use py_wallet_snapshot_servi.Session.{Session, commit, rollback, update_run, with_runs}
use py_wallet_snapshot_servi.Result.{Result, ok, raise, job_lease_lost}

-- `column <= now`: a NULL is not.
abbrev pub at_most : Option ℕ → ℕ → Bool
at_most none now = false
at_most (some t) now = leb t now

-- `column <= now - lease_seconds`
abbrev pub at_most_cutoff : Option ℕ → ℕ → ℕ → Bool
at_most_cutoff none lease_seconds now = false
at_most_cutoff (some t) lease_seconds now = leb (t + lease_seconds) now

-- The `where` of `recover_stale_running_jobs`.
unfoldable pub is_stale : ℕ → ℕ → SnapshotRun → Bool
is_stale lease_seconds now job =
    is_running job.status
    && (at_most job.lease_expires_at now
        || (not (is_some job.lease_expires_at)
            && (at_most_cutoff job.started_at lease_seconds now
                || (not (is_some job.started_at)
                    && at_most_cutoff (some job.created_at) lease_seconds now))))

abbrev pub lease_state : SnapshotRun → LeaseState
lease_state job = if is_some job.lease_expires_at then expired_lease else legacy_no_lease

-- The body of its loop: the row, and the counters.
abbrev pub fail_stale : ℕ → SnapshotRun → SnapshotRun
fail_stale now job = record job {
  status = JobStatus.failed;
  finished_at = some now;
  error_message = some (codes "worker lease expired before job completion");
  worker_id = none;
  lease_expires_at = none;
}

abbrev stale_metrics : SnapshotRun → List Metric
stale_metrics job =
    stale_jobs_recovered (lease_state job)
    ∷ observe_first_snapshot_outcome job.activation_channel JobStatus.failed

pub record Recovery : Type 0 where
  pub runs : List SnapshotRun
  pub recovered : ℕ
  pub metrics : List Metric

-- The rows that the query selects and locks.
abbrev pub takes_over : (ℕ → Bool) → ℕ → ℕ → SnapshotRun → Bool
takes_over locked lease_seconds now job = is_stale lease_seconds now job && not (locked job.id)

recover_rows : (SnapshotRun → Bool) → ℕ → List SnapshotRun → List SnapshotRun
recover_rows stale now [] = []
recover_rows stale now (job ∷ jobs) =
    (if stale job then fail_stale now job else job) ∷ recover_rows stale now jobs

recovery_metrics : List SnapshotRun → List Metric
recovery_metrics [] = []
recovery_metrics (job ∷ jobs) = stale_metrics job ++ recovery_metrics jobs

unfoldable pub recover_stale_running_jobs : (ℕ → Bool) → ℕ → ℕ → List SnapshotRun → Recovery
unfolding recover_rows recovery_metrics
recover_stale_running_jobs locked lease_seconds now runs =
    let stale_jobs = filter (takes_over locked lease_seconds now) runs in
    record {
      runs = recover_rows (takes_over locked lease_seconds now) now runs;
      recovered = length stale_jobs;
      metrics = recovery_metrics stale_jobs;
    }

-- The `where` of `renew_job_lease`.
abbrev pub is_owned : ℕ → Text → SnapshotRun → Bool
is_owned job_id worker_id job =
    (job.id == job_id) && is_running job.status && same_text job.worker_id (some worker_id)

renew_rows : (SnapshotRun → Bool) → ℕ → List SnapshotRun → List SnapshotRun
renew_rows owned expires [] = []
renew_rows owned expires (job ∷ jobs) =
    (if owned job then record job { lease_expires_at = some expires } else job)
    ∷ renew_rows owned expires jobs

unfoldable pub renew_job_lease : ℕ → Text → ℕ → ℕ → Session → Session × Result ℕ
unfolding renew_rows
renew_job_lease job_id worker_id lease_seconds now db =
    let owned = is_owned job_id worker_id in
    if length (filter owned db.current.runs) == 1
    then (
      commit (with_runs (renew_rows owned (now + lease_seconds) db.current.runs) db),
      ok (now + lease_seconds),
    )
    else (rollback db, raise (job_lease_lost job_id))

-- `ORDER BY created_at, id`
abbrev pub before : SnapshotRun → SnapshotRun → Bool
before j k = ltb j.created_at k.created_at || ((j.created_at == k.created_at) && leb j.id k.id)

abbrev first_of_two : SnapshotRun → Option SnapshotRun → Option SnapshotRun
first_of_two job none = some job
first_of_two job (some other) = some (if before job other then job else other)

-- `ORDER BY created_at, id LIMIT 1`
unfoldable pub earliest : List SnapshotRun → Option SnapshotRun
earliest [] = none
earliest (job ∷ jobs) = first_of_two job (earliest jobs)

abbrev pub is_claimable : (ℕ → Bool) → SnapshotRun → Bool
is_claimable locked job = is_pending job.status && not (locked job.id)

-- The job as its new owner holds it.
abbrev pub claimed : Text → ℕ → ℕ → SnapshotRun → SnapshotRun
claimed worker_id lease_seconds now job = record job {
  status = JobStatus.running;
  started_at = some now;
  worker_id = some worker_id;
  lease_expires_at = some (now + lease_seconds);
}

abbrev pub claim_found : Text → ℕ → ℕ → Session → Option SnapshotRun → Session × Option SnapshotRun
claim_found worker_id lease_seconds now db none = (commit db, none)
claim_found worker_id lease_seconds now db (some job) =
    let own = claimed worker_id lease_seconds now in
    (commit (with_runs (update_run job.id own db.current.runs) db), some (own job))

unfoldable pub claim_next_pending_job :
    (ℕ → Bool) → Text → ℕ → ℕ → Session → Session × Option SnapshotRun × List Metric
unfolding recover_stale_running_jobs is_stale earliest
claim_next_pending_job locked worker_id lease_seconds now db =
    let recovery = recover_stale_running_jobs locked lease_seconds now db.current.runs in
    let (db', job) =
      claim_found worker_id lease_seconds now (with_runs recovery.runs db)
        (earliest (filter (is_claimable locked) recovery.runs)) in
    (db', job, recovery.metrics)
