-- ===== src/Processor/Ending.antt =====
-- What `process` leaves behind: one wallet snapshot per wallet, and a finished job.
use py_wallet_snapshot_servi.Prelude.{
  ℕ, codes, filter, ◌==◌, ◌≡◌, refl, sym, ◌∙◌, ◌&&◌, ap, fun_ext, Bool, true, Option, none, some,
  is_some, List, [], ◌∷◌, ◌++◌, All, Text, if◌then◌else◌, arith, subst, Bool-cases, inl, inr,
}
use py_wallet_snapshot_servi.Enums.{ScopeType, JobStatus, WalletSnapshotStatus}
use py_wallet_snapshot_servi.Models.{SnapshotRun, WalletSnapshot, Wallet}
use py_wallet_snapshot_servi.Session.{Tables, update_run}
use py_wallet_snapshot_servi.Collection.{Collectors}
use py_wallet_snapshot_servi.PriceHistory.{Identity}
use py_wallet_snapshot_servi.WalletLoader.{
  meets_scope, order_by_id, deduplicates, deduplicate_onchain_addresses, load_for_job,
}
use py_wallet_snapshot_servi.Processor.{Settings, job_status}
use py_wallet_snapshot_servi.Processor.Monad.{World}
use py_wallet_snapshot_servi.Processor.After.{After, continue-After}
use py_wallet_snapshot_servi.Processor.Jobs.{
  finished, renew_lease, process_wallets, finish_job, process_loaded, process,
}
use py_wallet_snapshot_servi.Processor.Summed.{
  IsFresh, wallet_ids, ids, row_statuses, Summed, OnlyRuns, renew_lease-OnlyRuns,
  process_wallets-Summed,
}

-- The status of a job with wallets of these statuses.
abbrev pub expected_status : List WalletSnapshotStatus → JobStatus
expected_status [] = JobStatus.failed
expected_status (s ∷ ss) = job_status (s ∷ ss)

-- The job's row at the end.
abbrev pub IsFinal : JobStatus → SnapshotRun → Type 0
IsFinal s j =
    (j.status ≡ s)
    × (j.worker_id ≡ none)
    × (j.lease_expires_at ≡ none)
    × (is_some j.finished_at ≡ true)

-- The same with the job finished and all of it saved.
pub record Ended {S : Type 0} (t : Tables) (job : SnapshotRun) (s : JobStatus) (w : World S)
    : Type 0 where
  pub rows : List WalletSnapshot
  pub added : w.db.current.wallet_snapshots ≡ t.wallet_snapshots ++ rows
  pub of_job : All (λ (r : WalletSnapshot). r.snapshot_run_id ≡ job.id) rows
  pub of_wallets : wallet_ids rows ≡ ids (load_for_job t job)
  pub returned : s ≡ expected_status (row_statuses rows)
  pub final : All (λ (j : SnapshotRun). j.id ≡ job.id → IsFinal s j) w.db.current.runs
  pub saved : w.db.committed ≡ w.db.current

meets_scope-runs :
    (s : ScopeType) (t : Tables) (runs : List SnapshotRun) (job : SnapshotRun) (wallet : Wallet)
    → meets_scope s (record t { runs = runs }) job wallet ≡ meets_scope s t job wallet
meets_scope-runs ScopeType.all t runs job wallet = refl
meets_scope-runs ScopeType.group t runs job wallet = refl
meets_scope-runs ScopeType.wallet t runs job wallet = refl
meets_scope-runs ScopeType.failed_chains t runs job wallet = refl

-- Which wallets a job has depends on no job but this one.
load_for_job-runs :
    (t : Tables) (runs : List SnapshotRun) (job : SnapshotRun)
    → load_for_job (record t { runs = runs }) job ≡ load_for_job t job
unfolding load_for_job
load_for_job-runs t runs job =
    ap
      (λ (p : Wallet → Bool).
        let wallets = order_by_id (filter p t.wallets) in
        if deduplicates job.scope_type then deduplicate_onchain_addresses wallets else wallets)
      (fun_ext λ w.
        ap (λ b. (w.user_id == job.user_id) && w.is_active && b)
          (meets_scope-runs job.scope_type t runs job w))

-- Where there are wallets, there are statuses.
status_of_some :
    (rows : List WalletSnapshot) (ss : List WalletSnapshotStatus) {i : ℕ} {is : List ℕ}
    → wallet_ids rows ≡ i ∷ is
    → row_statuses rows ≡ ss
    → job_status ss ≡ expected_status ss
status_of_some [] ss h e = ground arith
status_of_some (r ∷ rs) [] h e = ground arith
status_of_some (r ∷ rs) (s ∷ ss) h e = refl

update_run-IsFinal :
    (id : ℕ) (s : JobStatus) (m : Option Text) (at : ℕ) (js : List SnapshotRun)
    → All (λ (j : SnapshotRun). j.id ≡ id → IsFinal s j) (update_run id (finished s m at) js)
update_run-IsFinal id s m at [] = tt
update_run-IsFinal id s m at (j ∷ js) = (head j, update_run-IsFinal id s m at js)
  where
    head :
        (j : SnapshotRun)
        → (if j.id == id then finished s m at j else j).id ≡ id
        → IsFinal s (if j.id == id then finished s m at j else j)
    head j h = elim (Bool-cases (j.id == id)) [
      | inl e ↦ rw e (refl, refl, refl, refl)
      | inr e ↦ absurd (ground arith)
    ]

module _ (c : Collectors) (time : ℕ → ℕ) (rejects : Identity → Bool) (settings : Settings) where
  open c use {State}

  finish_job-Ended :
      (t u : Tables) (job : SnapshotRun) (ws : List Wallet) (ss : List WalletSnapshotStatus)
      (s : JobStatus) (m : Option Text) (w : World State)
      → u ≡ record t { runs = u.runs }
      → ws ≡ load_for_job t job
      → s ≡ expected_status ss
      → Summed u job ws ss w
      → After (Ended t job) (finish_job c time rejects settings job s m w)
  unfolding finish_job
  finish_job-Ended t u job ws ss s m w e l v a = record {
    rows = a.rows;
    added = a.added ∙ ap (λ (x : Tables). x.wallet_snapshots ++ a.rows) e;
    of_job = a.of_job;
    of_wallets = a.of_wallets ∙ ap ids l;
    returned = v ∙ ap expected_status (sym a.of_statuses);
    final = update_run-IsFinal job.id s m (time w.clock_reads) w.db.current.runs;
    saved = refl;
  }

  process_loaded-Ended :
      (t : Tables) (job : SnapshotRun) (ws : List Wallet) (w : World State)
      → IsFresh w.db.current
      → w.db.current ≡ record t { runs = w.db.current.runs }
      → ws ≡ load_for_job t job
      → After (Ended t job) (process_loaded c time rejects settings job ws w)
  unfolding process_loaded process_wallets
  process_loaded-Ended t job [] w fresh e l =
      finish_job-Ended t w.db.current job [] [] JobStatus.failed
        (some (codes "no active wallets found for job scope")) w e l refl
        (process_wallets-Summed c time rejects settings job [] w fresh)
  process_loaded-Ended t job (wallet ∷ ws) w fresh e l =
      continue-After _ (λ ss w'. Summed w.db.current job (wallet ∷ ws) ss w') (Ended t job)
        (process_wallets c time rejects settings job (wallet ∷ ws) w)
        (process_wallets-Summed c time rejects settings job (wallet ∷ ws) w fresh)
        (λ ss w' a.
          finish_job-Ended t w.db.current job (wallet ∷ ws) ss (job_status ss) none w' e l
            (status_of_some a.rows ss a.of_wallets a.of_statuses) a)

  -- Where `process` returns and the stored wallet snapshots have older ids than the next one, then
  -- it has added one wallet snapshot of the job for each wallet that `load_for_job` selects from
  -- the tables at the start, in that order, and the status that it returns is `failed` where there are none,
  -- and otherwise that of the stored statuses; the job's row has this status and a finish time and no
  -- lease and no worker, and everything is committed.
  pub process-Ended :
      (job : SnapshotRun) (w : World State)
      → IsFresh w.db.current
      → After (Ended w.db.current job) (process c time rejects settings job w)
  unfolding process
  process-Ended job w fresh =
      let t = w.db.current in
      let begun : World State = record w { recorded_assets = [] } in
      continue-After _ (OnlyRuns begun) (Ended t job)
        (renew_lease c time rejects settings job begun)
        (renew_lease-OnlyRuns c time rejects settings job begun)
        (λ _ w' e.
          process_loaded-Ended t job (load_for_job w'.db.current job) w'
            (subst IsFresh (sym e) fresh) e
            (ap (λ (x : Tables). load_for_job x job) e
              ∙ load_for_job-runs t w'.db.current.runs job))
