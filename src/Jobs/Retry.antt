-- ===== src/Jobs/Retry.antt =====
-- `create_retry_failed_job`: what it refuses, and what it answers.
use mathlib.Core.List.{Mem}
use py_wallet_snapshot_servi.Prelude.{
  ℕ, ◌≡◌, ◌≢◌, refl, ◌⊎◌, inl, inr, true, false, none, some, List, [], ◌&&◌, ◌==◌, any-of_mem,
  any-true, filter, arith, Bool-cases, codes,
}
use py_wallet_snapshot_servi.Enums.{JobStatus, ChainStatus, chain_failed}
use py_wallet_snapshot_servi.Models.{SnapshotRun, WalletSnapshot, ChainSnapshot}
use py_wallet_snapshot_servi.Metrics.{Metric, api}
use py_wallet_snapshot_servi.Session.{Tables, Session, get_run}
use py_wallet_snapshot_servi.Result.{Result, ok, raise, http_exception}
use py_wallet_snapshot_servi.Jobs.{
  JobCreationResult, latest, is_retryable, chain_of_run, failed_chain_exists, is_active_retry,
  retry_job, reuse_or_add, create_retry_failed_job,
}
use py_wallet_snapshot_servi.Jobs.Create.{Answers, reuse_or_add-Answers}

-- A chain snapshot of the run, through one of its wallet snapshots, has failed.
abbrev pub HasFailedChain : Tables → ℕ → Type 0
HasFailedChain t run_id =
    (c : ChainSnapshot) × (w : WalletSnapshot) × Mem c t.chain_snapshots
    × Mem w t.wallet_snapshots
    × (c.status ≡ ChainStatus.failed)
    × (w.id ≡ c.wallet_snapshot_id)
    × (w.snapshot_run_id ≡ run_id)

failed_chain_exists-HasFailedChain :
    (t : Tables) (run_id : ℕ) → HasFailedChain t run_id → failed_chain_exists t run_id ≡ true
unfolding failed_chain_exists
failed_chain_exists-HasFailedChain t run_id (c, w, mc, mw, failed, of, run) =
    any-of_mem (λ x. chain_failed x.status && chain_of_run t run_id x) c t.chain_snapshots mc
      (rw failed (
        any-of_mem (λ x. (x.id == c.wallet_snapshot_id) && (x.snapshot_run_id == run_id)) w
          t.wallet_snapshots mw (ground arith)))

HasFailedChain-failed_chain_exists :
    (t : Tables) (run_id : ℕ) → failed_chain_exists t run_id ≡ true → HasFailedChain t run_id
unfolding failed_chain_exists
HasFailedChain-failed_chain_exists t run_id h =
    chain (any-true (λ x. chain_failed x.status && chain_of_run t run_id x) t.chain_snapshots h)
  where
    chain :
        ((c : ChainSnapshot) × Mem c t.chain_snapshots
          × ((chain_failed c.status && chain_of_run t run_id c) ≡ true))
        → HasFailedChain t run_id
    chain (c, mc, q) =
        let (w, mw, r) =
          any-true (λ x. (x.id == c.wallet_snapshot_id) && (x.snapshot_run_id == run_id))
            t.wallet_snapshots (ground arith) in
        (c, w, mc, mw, ground arith, ground arith, ground arith)

-- What a retry of the job `id` comes to, by the state of that job.
abbrev pub RetryOutcome :
    ℕ → ℕ → Session → Session × Result JobCreationResult × List Metric → Type 0
RetryOutcome id now db out =
    (get_run id db.current.runs ≡ none
      → out ≡ (db, raise (http_exception 404 (codes "parent job not found")), []))
    × ((parent : SnapshotRun)
        → get_run id db.current.runs ≡ some parent
        → (parent.status ≢ JobStatus.partial_success
            → parent.status ≢ JobStatus.failed
            → out ≡ (
              db,
              raise (http_exception 409 (codes "parent job is not ready for failed-chain retry")),
              [],
            ))
          × ((parent.status ≡ JobStatus.partial_success) ⊎ (parent.status ≡ JobStatus.failed)
              → (¬ HasFailedChain db.current parent.id
                  → out ≡ (
                    db,
                    raise (http_exception 400 (codes "parent job has no failed chains")),
                    [],
                  ))
                × (HasFailedChain db.current parent.id
                    → (r : JobCreationResult) × (out.1 ≡ ok r)
                      × Answers (is_active_retry parent.id)
                          (retry_job parent db.current.next_run now) api db (out.0, r, out.2))))

not_retryable :
    (s : JobStatus) → s ≢ JobStatus.partial_success → s ≢ JobStatus.failed → is_retryable s ≡ false
not_retryable JobStatus.pending p f = refl
not_retryable JobStatus.running p f = refl
not_retryable JobStatus.success p f = refl
not_retryable JobStatus.cancelled p f = refl
not_retryable JobStatus.partial_success p f = absurd (p refl)
not_retryable JobStatus.failed p f = absurd (f refl)

retryable :
    (s : JobStatus)
    → (s ≡ JobStatus.partial_success) ⊎ (s ≡ JobStatus.failed)
    → is_retryable s ≡ true
retryable s (inl e) = rw e
retryable s (inr e) = rw e

no_failed_chain :
    (t : Tables) (run_id : ℕ) → ¬ HasFailedChain t run_id → failed_chain_exists t run_id ≡ false
no_failed_chain t run_id h = elim (Bool-cases (failed_chain_exists t run_id)) [
  | inl e ↦ absurd (h (HasFailedChain-failed_chain_exists t run_id e))
  | inr e ↦ e
]

-- A retry is refused with 404 where the parent does not exist, with 409 where the parent is neither
-- partly successful nor failed, and with 400 where the parent has no failed chain, each time with
-- nothing written. In all other cases it returns the latest active retry of that parent, marked as
-- reused and with nothing written, or, where there is none, adds, commits and returns a new pending
-- retry of the parent.
pub create_retry-RetryOutcome :
    (id now : ℕ) (db : Session) → RetryOutcome id now db (create_retry_failed_job id now db)
unfolding create_retry_failed_job
create_retry-RetryOutcome id now db = (
  λ missing. rw missing,
  λ parent found. rw found (
    λ partial failed. rw (not_retryable parent.status partial failed),
    λ finished. (
      λ clean. rw (retryable parent.status finished, no_failed_chain db.current parent.id clean),
      λ dirty.
          rw
            (
              retryable parent.status finished,
              failed_chain_exists-HasFailedChain db.current parent.id dirty,
            )
            (answer parent),
    ),
  ),
)
  where
    answer :
        (parent : SnapshotRun)
        → let (db', r, ms) =
            reuse_or_add api
              (retry_job parent db.current.next_run now)
              (latest (filter (is_active_retry parent.id) db.current.runs))
              db in
          (q : JobCreationResult) × (ok r ≡ ok q)
          × Answers
              (is_active_retry parent.id)
              (retry_job parent db.current.next_run now)
              api
              db
              (db', q, ms)
    answer parent = (
      _,
      refl,
      reuse_or_add-Answers (is_active_retry parent.id) (retry_job parent db.current.next_run now)
          api db (filter (is_active_retry parent.id) db.current.runs) refl,
    )
