-- ===== src/Jobs/Keeps.antt =====
-- New jobs keep the queue valid: no two active jobs ask for the same.
use py_wallet_snapshot_servi.Prelude.{
  ℕ, suc, ◌<◌, ◌≡◌, refl, ◌≢◌, inl, inr, Bool, false, Option, none, some, Bool-cases, List, [], ◌∷◌,
  All, All-mono, All-append, any-false, filter-nil, Pairwise-snoc, arith, filter,
}
use py_wallet_snapshot_servi.Models.{SnapshotRun}
use py_wallet_snapshot_servi.Metrics.{Source, api}
use py_wallet_snapshot_servi.Session.{Session, get_run}
use py_wallet_snapshot_servi.Queue.{IsWellFormed, is_duplicate, NotRivals, IsValid}
use py_wallet_snapshot_servi.Jobs.{
  SnapshotJobCreate, latest, in_active_scope, add_run, new_job, is_active_retry, retry_job,
  create_job, retry_of, create_retry_failed_job, failed_chain_exists, is_retryable, reuse_or_add,
  get_active_scope_job,
}
use py_wallet_snapshot_servi.Jobs.Create.{latest-cons}

add_run-IsValid :
    (new : SnapshotRun) (db : Session)
    → new.id ≡ db.current.next_run
    → IsWellFormed new
    → All (λ k. NotRivals k new) db.current.runs
    → IsValid db.current
    → IsValid (add_run new db).current
add_run-IsValid new db e w n v = record {
  distinct =
      Pairwise-snoc (λ j k. j.id ≢ k.id) runs new v.distinct
        (All-mono (λ k h. omega arith) runs v.fresh);
  fresh =
      All-append (λ j. j.id < suc db.current.next_run) runs (new ∷ [])
        (All-mono (λ k h. omega arith) runs v.fresh) (omega arith, tt);
  well_formed = All-append IsWellFormed runs (new ∷ []) v.well_formed (w, tt);
  no_rivals = Pairwise-snoc NotRivals runs new v.no_rivals n;
}
  where
    open db.current use {runs}

module _ (p : SnapshotRun → Bool) (new : SnapshotRun) (source : Source) (db : Session) where
  -- What a service adds is no duplicate of an active job that its query would have found.
  reuse_or_add-IsValid :
      (js : List SnapshotRun)
      → filter p db.current.runs ≡ js
      → new.id ≡ db.current.next_run
      → IsWellFormed new
      → ((k : SnapshotRun) → p k ≡ false → NotRivals k new)
      → IsValid db.current
      → IsValid (reuse_or_add source new (latest js) db).0.committed
  unfolding latest
  reuse_or_add-IsValid [] empty e w n v =
      add_run-IsValid new db e w
        (All-mono n db.current.runs
          (any-false p db.current.runs (filter-nil p db.current.runs empty)))
        v
  reuse_or_add-IsValid (j ∷ js) found e w n v = let (k, q, _) = latest-cons j js in rw q v

new_job-NotRivals :
    (p : SnapshotJobCreate) (id now : ℕ) (k : SnapshotRun)
    → in_active_scope p k ≡ false
    → NotRivals k (new_job p id now)
unfolding is_duplicate
new_job-NotRivals p id now k h ak an = ground arith

retry_job-NotRivals :
    (parent : SnapshotRun) (id now : ℕ) (k : SnapshotRun)
    → is_active_retry parent.id k ≡ false
    → NotRivals k (retry_job parent id now)
unfolding is_duplicate
retry_job-NotRivals parent id now k h ak an = ground arith

-- `create_job` keeps the queue valid, with any payload.
pub create_job-IsValid :
    (p : SnapshotJobCreate) (source : Source) (now : ℕ) (db : Session)
    → IsValid db.current
    → IsValid (create_job p source now db).0.committed
unfolding create_job get_active_scope_job
create_job-IsValid p source now db v =
    reuse_or_add-IsValid (in_active_scope p) (new_job p db.current.next_run now) source db
      (filter (in_active_scope p) db.current.runs) refl refl (refl, refl, refl, refl)
      (new_job-NotRivals p db.current.next_run now) v

retry_of-IsValid :
    (found : Option SnapshotRun) (now : ℕ) (db : Session)
    → IsValid db.committed
    → IsValid db.current
    → IsValid (retry_of found now db).0.committed
unfolding failed_chain_exists
retry_of-IsValid none now db c v = c
retry_of-IsValid (some parent) now db c v = elim (Bool-cases (is_retryable parent.status)) [
  | inr no_retry ↦ rw no_retry c
  | inl may_retry ↦ elim (Bool-cases (failed_chain_exists db.current parent.id)) [
    | inr clean ↦ rw (may_retry, clean) c
    | inl dirty ↦
        rw (may_retry, dirty)
          (reuse_or_add-IsValid (is_active_retry parent.id)
            (retry_job parent db.current.next_run now) api db
            (filter (is_active_retry parent.id) db.current.runs) refl refl (refl, refl, refl, refl)
            (retry_job-NotRivals parent db.current.next_run now) v)
  ]
]

-- `create_retry_failed_job` keeps the queue valid, whatever it answers.
pub create_retry-IsValid :
    (parent_job_id now : ℕ) (db : Session)
    → IsValid db.committed
    → IsValid db.current
    → IsValid (create_retry_failed_job parent_job_id now db).0.committed
unfolding create_retry_failed_job
create_retry-IsValid parent_job_id now db c v =
    retry_of-IsValid (get_run parent_job_id db.current.runs) now db c v
