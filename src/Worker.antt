-- ===== src/Worker.antt =====
-- app/worker/loop.py: one round of the worker's loop, from the gauges to the end of a job. Closing the
-- session drops what is not committed. The heartbeat, the logs and the sleeping are left out, and so
-- are errors of the database.
pub mod Tick
use py_wallet_snapshot_servi.Prelude.{
  ℕ, zero, suc, ◌-◌, min, Bool, Option, none, some, List, [], ◌∷◌, ◌++◌, filter, length, Text,
  take_text, map,
}
use py_wallet_snapshot_servi.Enums.{JobStatus, is_pending, is_running}
use py_wallet_snapshot_servi.Models.{SnapshotRun}
use py_wallet_snapshot_servi.Metrics.{observe_first_snapshot_outcome}
use py_wallet_snapshot_servi.Session.{Tables, Session, rollback, commit, update_run, with_runs}
use py_wallet_snapshot_servi.Result.{Error, Result, ok, raise, job_lease_lost}
use py_wallet_snapshot_servi.Collection.{Collectors}
use py_wallet_snapshot_servi.PriceHistory.{Identity}
use py_wallet_snapshot_servi.Claim.{claim_next_pending_job}
use py_wallet_snapshot_servi.Processor.{Settings}
use py_wallet_snapshot_servi.Processor.Monad.{World}
use py_wallet_snapshot_servi.Processor.Jobs.{process}

pub record Gauges : Type 0 where
  pub pending_jobs : ℕ
  pub running_jobs : ℕ
  pub oldest_pending_job_age_seconds : ℕ

-- `SELECT min(created_at)`
unfoldable pub oldest : List SnapshotRun → Option ℕ
oldest [] = none
oldest (j ∷ js) = elim (oldest js) [ none ↦ some j.created_at | some t ↦ some (min j.created_at t) ]

abbrev age : Option ℕ → ℕ → ℕ
age none now = 0
age (some created_at) now = now - created_at

-- `_refresh_job_gauges`; `now` is read where there is a pending job.
unfoldable pub refresh_job_gauges : ℕ → List SnapshotRun → Gauges
unfolding oldest
refresh_job_gauges now runs =
    let pending = filter (λ (j : SnapshotRun). is_pending j.status) runs in
    record {
      pending_jobs = length pending;
      running_jobs = length (filter (λ (j : SnapshotRun). is_running j.status) runs);
      oldest_pending_job_age_seconds = age (oldest pending) now;
    }

abbrev pub gauge_reads : ℕ → ℕ → ℕ
gauge_reads zero k = k
gauge_reads (suc pending) k = suc k

-- The worker's settings.
pub record WorkerSettings : Type 0 where
  pub worker_id : Text
  pub snapshot_job_lease_seconds : ℕ
  pub enabled_chains : List Text

-- How a round ends: without a job, with a processed one, with a lease lost to another worker, or with
-- an exception.
pub data Round : Type 0 where
  idle : Round
  processed : SnapshotRun → JobStatus → Round
  lease_lost : SnapshotRun → Round
  crashed : SnapshotRun → Error → Round

-- The row after an exception.
abbrev pub failed_job : Text → ℕ → SnapshotRun → SnapshotRun
failed_job message at job = record job {
  status = JobStatus.failed;
  finished_at = some at;
  error_message = some (take_text 500 message);
  worker_id = none;
  lease_expires_at = none;
}

abbrev pub processor_settings : WorkerSettings → Settings
processor_settings settings = record {
  worker_id = some settings.worker_id;
  lease_seconds = some settings.snapshot_job_lease_seconds;
  enabled_chains = settings.enabled_chains;
}

module _ (c : Collectors) (time : ℕ → ℕ) (rejects : Identity → Bool) (settings : WorkerSettings)
    (locked : ℕ → Bool) (show_error : Error → Text) where
  open c use {State}

  -- `except Exception`
  abbrev pub crash : SnapshotRun → Error → World State → World State
  crash job e w =
      let at = time w.clock_reads in
      record w {
        db =
            commit
              (with_runs (update_run job.id (failed_job (show_error e) at) w.db.current.runs) w.db);
        clock_reads = suc w.clock_reads;
        metrics =
            w.metrics ++ observe_first_snapshot_outcome job.activation_channel JobStatus.failed;
      }

  abbrev pub settle : SnapshotRun → Result JobStatus × World State → World State × Round
  settle job (ok status, w) = (w, processed job status)
  settle job (raise (job_lease_lost id), w) = (record w { db = rollback w.db }, lease_lost job)
  settle job (raise e, w) = (crash job e w, crashed job e)

  unfoldable pub run_job : Option SnapshotRun → World State → World State × Round
  unfolding process
  run_job none w = (record w { db = rollback w.db }, idle)
  run_job (some job) w = settle job (process c time rejects (processor_settings settings) job w)

  -- The session of a round, when its gauges are set and its claim is done.
  unfoldable pub claim_job : World State → World State × Option SnapshotRun
  unfolding claim_next_pending_job refresh_job_gauges
  claim_job w =
      let t = w.db.committed in
      let pending = (refresh_job_gauges (time w.clock_reads) t.runs).pending_jobs in
      let reads = gauge_reads pending w.clock_reads in
      let (db, job, metrics) =
        claim_next_pending_job locked settings.worker_id settings.snapshot_job_lease_seconds
          (time reads) (record { committed = t; current = t }) in
      (record w { db = db; clock_reads = suc reads; metrics = w.metrics ++ metrics }, job)

  -- One round of `run`.
  unfoldable pub tick : World State → World State × Round
  unfolding claim_job run_job
  tick w = let (w', job) = claim_job w in run_job job w'
