-- ===== src/Tests/Workers.antt =====
-- A round of the worker and a sequence of transactions on the small database.
use py_wallet_snapshot_servi.Prelude.{ℕ, refl, Bool, false, none, [], ◌∷◌, Text, codes}
use py_wallet_snapshot_servi.Enums.{JobStatus}
use py_wallet_snapshot_servi.Result.{Error}
use py_wallet_snapshot_servi.Queue.{IsValid}
use py_wallet_snapshot_servi.Processor.Monad.{World}
use py_wallet_snapshot_servi.Processor.Jobs.{finished}
use py_wallet_snapshot_servi.Session.{update_run}
use py_wallet_snapshot_servi.Worker.{WorkerSettings, claim_job, tick}
use py_wallet_snapshot_servi.Worker.Tick.{Settled, tick-Settled}
use py_wallet_snapshot_servi.Lifecycle.{ended, Reach, start, next, Reach-IsValid}
use py_wallet_snapshot_servi.Lifecycle.History.{Continues, Reach-Continues}
use py_wallet_snapshot_servi.Tests.Fixtures.{worker, tables}
use py_wallet_snapshot_servi.Tests.Queues.{session-IsValid}
use py_wallet_snapshot_servi.Tests.Processing.{collectors, clock, accepts}

abbrev worker_settings : WorkerSettings
worker_settings = record {
  worker_id = worker;
  snapshot_job_lease_seconds = 60;
  enabled_chains = codes "base" ∷ [];
}

abbrev no_locks : ℕ → Bool
no_locks _ = false

abbrev show_error : Error → Text
show_error _ = codes "error"

abbrev before : World ℕ
before = record {
  db = record { committed = tables; current = tables };
  collectors = 0;
  recorded_assets = [];
  clock_reads = 0;
  metrics = [];
}

tick-Settled_example :
    Settled collectors clock accepts worker_settings no_locks show_error
      (claim_job collectors clock accepts worker_settings no_locks show_error before)
      (tick collectors clock accepts worker_settings no_locks show_error before)
tick-Settled_example =
    tick-Settled collectors clock accepts worker_settings no_locks show_error before tt

-- The running job ends.
one_step :
    Reach tables
      (record tables { runs = update_run 2 (finished JobStatus.success none 300) tables.runs })
one_step = next start (ended 2 JobStatus.success none 300 tables refl)

Reach-IsValid_example :
    IsValid
      (record tables { runs = update_run 2 (finished JobStatus.success none 300) tables.runs })
Reach-IsValid_example =
    Reach-IsValid tables
      (record tables { runs = update_run 2 (finished JobStatus.success none 300) tables.runs })
      one_step session-IsValid

Reach-Continues_example :
    Continues tables.runs (update_run 2 (finished JobStatus.success none 300) tables.runs)
Reach-Continues_example =
    Reach-Continues tables
      (record tables { runs = update_run 2 (finished JobStatus.success none 300) tables.runs })
      one_step session-IsValid
