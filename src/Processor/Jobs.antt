-- ===== src/Processor/Jobs.antt =====
-- `SnapshotProcessor.process`: a job, from the lease to its final status.
use py_wallet_snapshot_servi.Prelude.{ℕ, Bool, Option, none, some, List, [], ◌∷◌, Text, codes}
use py_wallet_snapshot_servi.Enums.{JobStatus, WalletSnapshotStatus}
use py_wallet_snapshot_servi.Models.{SnapshotRun, Wallet}
use py_wallet_snapshot_servi.Metrics.{jobs_total, observe_first_snapshot_outcome}
use py_wallet_snapshot_servi.Session.{Session, update_run}
use py_wallet_snapshot_servi.Result.{Result, ok, raise}
use py_wallet_snapshot_servi.Collection.{Collectors}
use py_wallet_snapshot_servi.PriceHistory.{Identity}
use py_wallet_snapshot_servi.Claim.{renew_job_lease}
use py_wallet_snapshot_servi.WalletLoader.{load_for_job}
use py_wallet_snapshot_servi.Processor.{Settings, job_status}
use py_wallet_snapshot_servi.Processor.Monad.{
  World, M, pure, ◌>>=◌, ◌>>◌, now, count, gets_tables, modify_tables, commit_session,
}
use py_wallet_snapshot_servi.Processor.Wallets.{process_wallet}

-- The row at the end of `process`, with `_release_lease`; its message stays where none is given.
abbrev pub finished : JobStatus → Option Text → ℕ → SnapshotRun → SnapshotRun
finished status error_message at job = record job {
  status = status;
  finished_at = some at;
  error_message = elim error_message [ none ↦ job.error_message | some m ↦ some m ];
  worker_id = none;
  lease_expires_at = none;
}

module _ (c : Collectors) (time : ℕ → ℕ) (rejects : Identity → Bool) (settings : Settings) where
  open c use {State}

  abbrev pub after_renewal : World State → Session × Result ℕ → Result (Unit {0}) × World State
  after_renewal w (db, ok _) = (ok tt, record w { db = db })
  after_renewal w (db, raise e) = (raise e, record w { db = db })

  abbrev pub renew_with : Option Text → Option ℕ → SnapshotRun → M State (Unit {0})
  renew_with (some worker_id) (some lease_seconds) job = do
    at ← now time
    λ w. after_renewal w (renew_job_lease job.id worker_id lease_seconds at w.db)
  renew_with _ _ job = pure tt

  -- `_renew_lease`
  unfoldable pub renew_lease : SnapshotRun → M State (Unit {0})
  renew_lease job = renew_with settings.worker_id settings.lease_seconds job

  unfoldable pub process_wallets : SnapshotRun → List Wallet → M State (List WalletSnapshotStatus)
  unfolding renew_lease
  process_wallets job [] = pure []
  process_wallets job (wallet ∷ wallets) = do
    renew_lease job
    status ← process_wallet c time rejects settings job wallet
    renew_lease job
    statuses ← process_wallets job wallets
    pure (status ∷ statuses)

  -- The writes and counters with which a job ends.
  unfoldable pub finish_job : SnapshotRun → JobStatus → Option Text → M State JobStatus
  finish_job job status error_message = do
    at ← now time
    modify_tables
        (λ t. record t { runs = update_run job.id (finished status error_message at) t.runs })
    commit_session
    count (
        jobs_total status job.trigger_type job.scope_type
        ∷ observe_first_snapshot_outcome job.activation_channel status)
    pure status

  unfoldable pub process_loaded : SnapshotRun → List Wallet → M State JobStatus
  unfolding process_wallets finish_job
  process_loaded job [] =
      finish_job job JobStatus.failed (some (codes "no active wallets found for job scope"))
  process_loaded job (wallet ∷ wallets) = do
    statuses ← process_wallets job (wallet ∷ wallets)
    finish_job job (job_status statuses) none

  -- `self.price_history.begin_job()`
  abbrev begin_job : M State (Unit {0})
  begin_job w = (ok tt, record w { recorded_assets = [] })

  unfoldable pub process : SnapshotRun → M State JobStatus
  unfolding process_loaded renew_lease
  process job = do
    begin_job
    renew_lease job
    wallets ← gets_tables (λ t. load_for_job t job)
    process_loaded job wallets
