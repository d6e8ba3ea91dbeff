-- ===== src/Worker/Tick.antt =====
-- What a round of app/worker/loop.py leaves in the database.
use py_wallet_snapshot_servi.Prelude.{
  ℕ, ◌==◌, ◌≡◌, ◌≢◌, refl, Bool, Option, none, some, List, [], ◌∷◌, Text, take_text, arith,
  Bool-cases, inl, inr, filter,
}
use py_wallet_snapshot_servi.Enums.{JobStatus}
use py_wallet_snapshot_servi.Models.{SnapshotRun}
use py_wallet_snapshot_servi.Session.{Tables, Session, rollback, update_run, with_runs}
use py_wallet_snapshot_servi.Queue.{RowByRow}
use py_wallet_snapshot_servi.Result.{Error, Result, ok, raise, job_lease_lost}
use py_wallet_snapshot_servi.Collection.{Collectors}
use py_wallet_snapshot_servi.PriceHistory.{Identity}
use py_wallet_snapshot_servi.Claim.{
  claim_next_pending_job, claim_found, earliest, is_claimable, recover_stale_running_jobs,
}
use py_wallet_snapshot_servi.Processor.Monad.{World}
use py_wallet_snapshot_servi.Processor.After.{After}
use py_wallet_snapshot_servi.Processor.Summed.{IsFresh}
use py_wallet_snapshot_servi.Processor.Ending.{Ended, IsFinal, process-Ended}
use py_wallet_snapshot_servi.Processor.Jobs.{process}
use py_wallet_snapshot_servi.Worker.{
  WorkerSettings, Round, idle, processed, lease_lost, crashed, failed_job, processor_settings,
  crash, settle, gauge_reads, refresh_job_gauges, run_job, claim_job, tick,
}

-- A row before and after an exception in the job: the job's row has failed with the message, and any
-- other row is as it was.
abbrev pub IsFailedRow : ℕ → Text → SnapshotRun → SnapshotRun → Type 0
IsFailedRow id message j k =
    (j.id ≡ id → IsFinal JobStatus.failed k × (k.error_message ≡ some (take_text 500 message)))
    × (j.id ≢ id → k ≡ j)

failed_job-IsFailedRow :
    (id : ℕ) (message : Text) (at : ℕ) (js : List SnapshotRun)
    → RowByRow (IsFailedRow id message) js (update_run id (failed_job message at) js)
failed_job-IsFailedRow id m at [] = tt
failed_job-IsFailedRow id m at (j ∷ js) = (
  elim (Bool-cases (j.id == id)) [
    | inl e ↦ rw e ((λ same. ((refl, refl, refl, refl), refl)), λ other. absurd (ground arith))
    | inr e ↦ rw e ((λ same. absurd (ground arith)), λ other. refl)
  ],
  failed_job-IsFailedRow id m at js,
)

module _ (c : Collectors) (time : ℕ → ℕ) (rejects : Identity → Bool) (settings : WorkerSettings)
    (locked : ℕ → Bool) (show_error : Error → Text) where
  open c use {State}

  -- How a round ends where `process` raised the exception, in the state `p`: what the session had
  -- written is committed, with the job failed.
  abbrev pub IsCrashed : SnapshotRun → Error → World State → World State × Round → Type 0
  IsCrashed job e p (w, round) =
      (round ≡ crashed job e)
      × RowByRow (IsFailedRow job.id (show_error e)) p.db.current.runs w.db.committed.runs
      × (w.db.committed ≡ record p.db.current { runs = w.db.committed.runs })

  -- How a round ends, given what `process` made of its job, which started on the tables `t`: where it
  -- returned, the job is finished and committed; where the lease was lost, nothing is committed beyond
  -- what `process` had committed; after any other exception, the job has failed.
  abbrev pub Closes :
      Tables → SnapshotRun → Result JobStatus × World State → World State × Round → Type 0
  Closes t job (ok status, p) (w, round) = (round ≡ processed job status) × Ended t job status w
  Closes t job (raise (job_lease_lost id), p) (w, round) =
      (round ≡ lease_lost job) × (w.db ≡ rollback p.db)
  Closes t job (raise (Error.http_exception n m), p) x =
      IsCrashed job (Error.http_exception n m) p x
  Closes t job (raise (Error.value_error m), p) x = IsCrashed job (Error.value_error m) p x
  Closes t job (raise (Error.unexpected m), p) x = IsCrashed job (Error.unexpected m) p x

  -- How a round ends, given its claim: without a job, nothing is committed beyond the claim.
  abbrev pub Settled : World State × Option SnapshotRun → World State × Round → Type 0
  Settled (p, none) (w, round) = (round ≡ idle) × (w.db ≡ rollback p.db)
  Settled (p, some job) x =
      Closes p.db.current job (process c time rejects (processor_settings settings) job p) x

  crash-IsCrashed :
      (job : SnapshotRun) (e : Error) (p : World State)
      → IsCrashed job e p (crash c time rejects settings locked show_error job e p, crashed job e)
  crash-IsCrashed job e p = (
    refl,
    failed_job-IsFailedRow job.id (show_error e) (time p.clock_reads) p.db.current.runs,
    refl,
  )

  settle-Closes :
      (t : Tables) (job : SnapshotRun) (x : Result JobStatus × World State)
      → After (Ended t job) x
      → Closes t job x (settle c time rejects settings locked show_error job x)
  settle-Closes t job (ok status, w) a = (refl, a)
  settle-Closes t job (raise (job_lease_lost id), w) a = (refl, refl)
  settle-Closes t job (raise (Error.http_exception n m), w) a = crash-IsCrashed job _ w
  settle-Closes t job (raise (Error.value_error m), w) a = crash-IsCrashed job _ w
  settle-Closes t job (raise (Error.unexpected m), w) a = crash-IsCrashed job _ w

  run_job-Settled :
      (job : Option SnapshotRun) (w : World State)
      → IsFresh w.db.current
      → Settled (w, job) (run_job c time rejects settings locked show_error job w)
  unfolding run_job
  run_job-Settled none w fresh = (refl, refl)
  run_job-Settled (some job) w fresh =
      settle-Closes w.db.current job (process c time rejects (processor_settings settings) job w)
        (process-Ended c time rejects (processor_settings settings) job w fresh)

  claim_found-IsFresh :
      (worker_id : Text) (l now : ℕ) (db : Session) (o : Option SnapshotRun)
      → IsFresh db.current
      → IsFresh (claim_found worker_id l now db o).0.current
  claim_found-IsFresh worker_id l now db none fresh = fresh
  claim_found-IsFresh worker_id l now db (some job) fresh = fresh

  claim_next-IsFresh :
      (worker_id : Text) (l now : ℕ) (db : Session)
      → IsFresh db.current
      → IsFresh (claim_next_pending_job locked worker_id l now db).0.current
  unfolding claim_next_pending_job
  claim_next-IsFresh worker_id l now db fresh =
      let runs = (recover_stale_running_jobs locked l now db.current.runs).runs in
      claim_found-IsFresh worker_id l now (with_runs runs db)
        (earliest (filter (is_claimable locked) runs)) fresh

  claim_job-IsFresh :
      (w : World State)
      → IsFresh w.db.committed
      → IsFresh (claim_job c time rejects settings locked show_error w).0.db.current
  unfolding claim_job
  claim_job-IsFresh w fresh =
      let t = w.db.committed in
      let pending = (refresh_job_gauges (time w.clock_reads) t.runs).pending_jobs in
      claim_next-IsFresh settings.worker_id settings.snapshot_job_lease_seconds
        (time (gauge_reads pending w.clock_reads)) (record { committed = t; current = t }) fresh

  -- Where the stored wallet snapshots have older ids than the next one, a round of the worker ends as
  -- its claim and `process` say. Without a claimed job, nothing is committed after the claim. Where
  -- `process` returns, the job is finished in the committed tables without a lease and a worker, with
  -- one wallet snapshot for each of its wallets. Where it raises that the lease is lost, what it had not
  -- committed is dropped. Where it raises anything else, what it had written is committed, the job has
  -- failed, without a lease and a worker and with the first 500 characters of the error, and no other
  -- job changes.
  pub tick-Settled :
      (w : World State)
      → IsFresh w.db.committed
      → Settled
          (claim_job c time rejects settings locked show_error w)
          (tick c time rejects settings locked show_error w)
  unfolding tick
  tick-Settled w fresh =
      let (w', job) = claim_job c time rejects settings locked show_error w in
      run_job-Settled job w' (claim_job-IsFresh w fresh)
