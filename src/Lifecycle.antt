-- ===== src/Lifecycle.antt =====
-- The table `snapshot_runs` under all that writes it: the API (app/services/job_service.py), the
-- scheduler (app/scheduler/loop.py) and any number of workers (app/worker/claim.py,
-- app/services/snapshot_processor.py, app/worker/loop.py). Each step is one transaction on the committed
-- tables, so a sequence of steps is one order in which these processes commit.
pub mod History
use py_wallet_snapshot_servi.Prelude.{
  ℕ, ◌≡◌, refl, sym, subst, Bool, true, false, Option, none, some, List, [], ◌∷◌, All, ◌==◌, arith,
  Text, Bool-cases, inl, inr, filter, length,
}
use py_wallet_snapshot_servi.Enums.{JobStatus, is_running}
use py_wallet_snapshot_servi.Models.{SnapshotRun}
use py_wallet_snapshot_servi.Metrics.{Source}
use py_wallet_snapshot_servi.Session.{Tables, Session, update_run, with_runs}
use py_wallet_snapshot_servi.Claim.{
  claim_next_pending_job, claim_found, recover_stale_running_jobs, earliest, is_claimable,
  renew_job_lease, is_owned,
}
use py_wallet_snapshot_servi.Claim.Keeps.{claim-Evolves, renew-Evolves}
use py_wallet_snapshot_servi.Jobs.{SnapshotJobCreate, create_job, create_retry_failed_job}
use py_wallet_snapshot_servi.Jobs.Keeps.{create_job-IsValid, create_retry-IsValid}
use py_wallet_snapshot_servi.Scheduler.{create_scheduled_jobs}
use py_wallet_snapshot_servi.Scheduler.Covers.{create_scheduled_jobs-Scheduled}
use py_wallet_snapshot_servi.Processor.Jobs.{finished}
use py_wallet_snapshot_servi.Queue.{IsValid, RowByRow, Evolves, Later}
use py_wallet_snapshot_servi.Queue.Evolve.{
  Evolves-IsValid, Later-IsValid, Evolves-refl, Later-refl, update_run-RowByRow,
}
use py_wallet_snapshot_servi.Worker.{failed_job}

-- A new session on the committed tables.
abbrev pub opened : Tables → Session
opened t = record { committed = t; current = t }

-- The statuses with which a job ends.
abbrev pub is_end : JobStatus → Bool
is_end JobStatus.success = true
is_end JobStatus.partial_success = true
is_end JobStatus.failed = true
is_end _ = false

-- One transaction. A worker ends a job by its id, whatever the row says by then.
pub data Step : Tables → Tables → Type 0 where
  created :
      (payload : SnapshotJobCreate) (source : Source) (now : ℕ) (t : Tables)
      → Step t (create_job payload source now (opened t)).0.committed
  retried :
      (parent_job_id now : ℕ) (t : Tables)
      → Step t (create_retry_failed_job parent_job_id now (opened t)).0.committed
  scheduled :
      (time : ℕ → ℕ) (t : Tables) → Step t (create_scheduled_jobs time (opened t)).0.committed
  claimed :
      (locked : ℕ → Bool) (worker_id : Text) (lease_seconds now : ℕ) (t : Tables)
      → Step t (claim_next_pending_job locked worker_id lease_seconds now (opened t)).0.committed
  renewed :
      (job_id : ℕ) (worker_id : Text) (lease_seconds now : ℕ) (t : Tables)
      → Step t (renew_job_lease job_id worker_id lease_seconds now (opened t)).0.committed
  ended :
      (id : ℕ) (status : JobStatus) (message : Option Text) (at : ℕ) (t : Tables)
      → is_end status ≡ true
      → Step t (record t { runs = update_run id (finished status message at) t.runs })
  broken :
      (id : ℕ) (message : Text) (at : ℕ) (t : Tables)
      → Step t (record t { runs = update_run id (failed_job message at) t.runs })

-- Any number of transactions, the last one outermost.
pub data Reach (t : Tables) : Tables → Type 0 where
  start : Reach t t
  next : {u v : Tables} → Reach t u → Step u v → Reach t v

pub finished-Later :
    (status : JobStatus) (message : Option Text) (at : ℕ) (j : SnapshotRun)
    → is_end status ≡ true
    → Later j (finished status message at j)
finished-Later JobStatus.success m at j e = ground arith
finished-Later JobStatus.partial_success m at j e = ground arith
finished-Later JobStatus.failed m at j e = ground arith
finished-Later JobStatus.pending m at j e = absurd (ground arith)
finished-Later JobStatus.running m at j e = absurd (ground arith)
finished-Later JobStatus.cancelled m at j e = absurd (ground arith)

pub failed_job-Later :
    (message : Text) (at : ℕ) (j : SnapshotRun) → Later j (failed_job message at j)
failed_job-Later m at j = ground arith

-- A write of an end by id, whatever the rows are.
pub update_run-Later :
    (id : ℕ) (f : SnapshotRun → SnapshotRun) (js : List SnapshotRun)
    → ((j : SnapshotRun) → Later j (f j))
    → RowByRow Later js (update_run id f js)
update_run-Later id f js h = update_run-RowByRow Later Later-refl id f js (everywhere js)
  where
    everywhere : (ks : List SnapshotRun) → All (λ j. j.id ≡ id → Later j (f j)) ks
    everywhere [] = tt
    everywhere (j ∷ ks) = ((λ same. h j), everywhere ks)

-- Rows that evolved, in tables that count new rows on from the same id.
moved-IsValid :
    (t u : Tables) → u.next_run ≡ t.next_run → Evolves t.runs u.runs → IsValid t → IsValid u
moved-IsValid t u n e v =
    let w = Evolves-IsValid t u.runs e v in
    record {
      distinct = w.distinct;
      fresh = rw n w.fresh;
      well_formed = w.well_formed;
      no_rivals = w.no_rivals;
    }

claim_found-next_run :
    (worker_id : Text) (l now : ℕ) (db : Session) (o : Option SnapshotRun)
    → (claim_found worker_id l now db o).0.committed.next_run ≡ db.current.next_run
claim_found-next_run worker_id l now db none = refl
claim_found-next_run worker_id l now db (some j) = refl

claim-next_run :
    (locked : ℕ → Bool) (worker_id : Text) (l now : ℕ) (db : Session)
    → (claim_next_pending_job locked worker_id l now db).0.committed.next_run ≡ db.current.next_run
unfolding claim_next_pending_job
claim-next_run locked worker_id l now db =
    let runs = (recover_stale_running_jobs locked l now db.current.runs).runs in
    claim_found-next_run worker_id l now (with_runs runs db)
      (earliest (filter (is_claimable locked) runs))

renew-next_run :
    (id : ℕ) (worker_id : Text) (l now : ℕ) (t : Tables)
    → (renew_job_lease id worker_id l now (opened t)).0.committed.next_run ≡ t.next_run
unfolding renew_job_lease
renew-next_run id worker_id l now t =
    elim (Bool-cases (length (filter (is_owned id worker_id) t.runs) == 1)) [
      | inl one ↦ rw one refl
      | inr lost ↦ rw lost refl
    ]

pub Step-IsValid : (t u : Tables) → Step t u → IsValid t → IsValid u
Step-IsValid _ _ (created p source now t) v = create_job-IsValid p source now (opened t) v
Step-IsValid _ _ (retried id now t) v = create_retry-IsValid id now (opened t) v v
Step-IsValid _ _ (scheduled time t) v =
    let (after, all) = create_scheduled_jobs-Scheduled time (opened t) v in
    subst IsValid (sym (after.saved refl)) after.valid
Step-IsValid _ _ (claimed locked w l now t) v =
    moved-IsValid t _ (claim-next_run locked w l now (opened t))
      (claim-Evolves locked w l now (opened t) v.distinct) v
Step-IsValid _ _ (renewed id w l now t) v =
    moved-IsValid t _ (renew-next_run id w l now t)
      (renew-Evolves id w l now (opened t) (Evolves-refl t.runs)) v
Step-IsValid _ _ (ended id status m at t e) v =
    Later-IsValid t _
      (update_run-Later id (finished status m at) t.runs (λ j. finished-Later status m at j e)) v
Step-IsValid _ _ (broken id m at t) v =
    Later-IsValid t _ (update_run-Later id (failed_job m at) t.runs (failed_job-Later m at)) v

-- From a valid queue, every order of any number of transactions of the API, the scheduler and the
-- workers leads to a valid queue: the ids differ and are older than the next one, every row has the
-- columns that its status goes with, and no two active jobs ask for the same. A worker may end a job
-- that is no longer its own, since it writes the end by the job's id.
pub Reach-IsValid : (t u : Tables) → Reach t u → IsValid t → IsValid u
Reach-IsValid t _ start v = v
Reach-IsValid t u (next {u = s} r step) v = Step-IsValid s u step (Reach-IsValid t s r v)
