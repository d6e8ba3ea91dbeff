-- ===== src/Processor/Summed.antt =====
-- What `process` stores for its wallets: one wallet snapshot each, in order.
use mathlib.Core.List.{append-nil, append_assoc, map-append}
use py_wallet_snapshot_servi.Prelude.{
  ℕ, suc, length, filter, ◌<◌, ◌==◌, ◌≡◌, refl, sym, ◌∙◌, ap, Bool, Option, none, some, List, [],
  ◌∷◌, ◌++◌, map, All, All-append, All-mono, Text, arith, subst, Bool-cases, inl, inr,
}
use py_wallet_snapshot_servi.Enums.{WalletSnapshotStatus}
use py_wallet_snapshot_servi.Models.{SnapshotRun, WalletSnapshot, Wallet}
use py_wallet_snapshot_servi.Session.{Tables, Session}
use py_wallet_snapshot_servi.Result.{Result, ok, raise}
use py_wallet_snapshot_servi.Collection.{Collectors}
use py_wallet_snapshot_servi.Claim.{is_owned, renew_job_lease}
use py_wallet_snapshot_servi.PriceHistory.{Identity}
use py_wallet_snapshot_servi.Processor.{Settings}
use py_wallet_snapshot_servi.Processor.Monad.{World}
use py_wallet_snapshot_servi.Processor.After.{After, continue-After}
use py_wallet_snapshot_servi.Processor.Wallets.{Gathered, process_wallet}
use py_wallet_snapshot_servi.Processor.Accounts.{Accounts, Stored, process_wallet-Accounts}
use py_wallet_snapshot_servi.Processor.Jobs.{
  after_renewal, renew_with, renew_lease, process_wallets,
}

-- The stored wallet snapshots have older ids than the next one.
abbrev pub IsFresh : Tables → Type 0
IsFresh t = All (λ (s : WalletSnapshot). s.id < t.next_wallet_snapshot) t.wallet_snapshots

abbrev pub wallet_ids : List WalletSnapshot → List ℕ
wallet_ids = map λ s. s.wallet_id

abbrev pub ids : List Wallet → List ℕ
ids = map λ w. w.id

abbrev pub row_statuses : List WalletSnapshot → List WalletSnapshotStatus
row_statuses = map λ s. s.status

-- From the tables `t` to those of `w`: one wallet snapshot of `job` is added for each wallet, in
-- order, and `ss` are their statuses.
pub record Summed {S : Type 0} (t : Tables) (job : SnapshotRun) (ws : List Wallet)
    (ss : List WalletSnapshotStatus) (w : World S) : Type 0 where
  pub rows : List WalletSnapshot
  pub added : w.db.current.wallet_snapshots ≡ t.wallet_snapshots ++ rows
  pub of_job : All (λ (s : WalletSnapshot). s.snapshot_run_id ≡ job.id) rows
  pub of_wallets : wallet_ids rows ≡ ids ws
  pub of_statuses : row_statuses rows ≡ ss
  pub fresh : IsFresh w.db.current

-- Only jobs change.
abbrev pub OnlyRuns : {S A : Type 0} → World S → A → World S → Type 0
OnlyRuns w _ w' = w'.db.current ≡ record w.db.current { runs = w'.db.current.runs }

abbrev Renewed : Session → Session × Result ℕ → Type 0
Renewed db (db', ok _) = db'.current ≡ record db.current { runs = db'.current.runs }
Renewed db (db', raise _) = Unit

renew_job_lease-Renewed :
    (job_id : ℕ) (worker_id : Text) (lease_seconds at : ℕ) (db : Session)
    → Renewed db (renew_job_lease job_id worker_id lease_seconds at db)
unfolding renew_job_lease
renew_job_lease-Renewed job_id worker_id lease_seconds at db =
    elim (Bool-cases (length (filter (is_owned job_id worker_id) db.current.runs) == 1)) [
      | inl e ↦ rw e refl
      | inr e ↦ rw e tt
    ]

module _ (c : Collectors) (time : ℕ → ℕ) (rejects : Identity → Bool) (settings : Settings) where
  open c use {State}

  after_renewal-OnlyRuns :
      (w : World State) (k : ℕ) (r : Session × Result ℕ)
      → Renewed w.db r
      → After (OnlyRuns w) (after_renewal c time rejects settings (record w { clock_reads = k }) r)
  after_renewal-OnlyRuns w k (db, ok _) e = e
  after_renewal-OnlyRuns w k (db, raise _) e = tt

  renew_with-OnlyRuns :
      (worker_id : Option Text) (lease_seconds : Option ℕ) (job : SnapshotRun) (w : World State)
      → After (OnlyRuns w) (renew_with c time rejects settings worker_id lease_seconds job w)
  renew_with-OnlyRuns none l job w = refl
  renew_with-OnlyRuns (some i) none job w = refl
  renew_with-OnlyRuns (some i) (some l) job w =
      let at = time w.clock_reads in
      after_renewal-OnlyRuns w (suc w.clock_reads) (renew_job_lease job.id i l at w.db)
        (renew_job_lease-Renewed job.id i l at w.db)

  pub renew_lease-OnlyRuns :
      (job : SnapshotRun) (w : World State)
      → After (OnlyRuns w) (renew_lease c time rejects settings job w)
  unfolding renew_lease
  renew_lease-OnlyRuns job w = renew_with-OnlyRuns settings.worker_id settings.lease_seconds job w

  -- A wallet more.
  Summed-cons :
      (t : Tables) (job : SnapshotRun) (wallet : Wallet) (ws : List Wallet)
      (s : WalletSnapshotStatus) (ss : List WalletSnapshotStatus) (v w : World State)
      → Summed t job (wallet ∷ []) (s ∷ []) v
      → Summed v.db.current job ws ss w
      → Summed t job (wallet ∷ ws) (s ∷ ss) w
  Summed-cons t job wallet ws s ss v w a b = record {
    rows = a.rows ++ b.rows;
    added =
        b.added
        ∙ ap (λ (l : List WalletSnapshot). l ++ b.rows) a.added
        ∙ append_assoc t.wallet_snapshots a.rows b.rows;
    of_job =
        All-append (λ (r : WalletSnapshot). r.snapshot_run_id ≡ job.id) a.rows b.rows a.of_job
          b.of_job;
    of_wallets =
        map-append (λ (r : WalletSnapshot). r.wallet_id) a.rows b.rows
        ∙ rw (a.of_wallets, b.of_wallets);
    of_statuses =
        map-append (λ (r : WalletSnapshot). r.status) a.rows b.rows
        ∙ rw (a.of_statuses, b.of_statuses);
    fresh = b.fresh;
  }

  -- One wallet.
  Accounts-Summed :
      (u : Tables) (job : SnapshotRun) (wallet : Wallet) (G : Gathered → Type 0)
      (s : WalletSnapshotStatus) (w : World State)
      → IsFresh u
      → Accounts u job wallet G s w
      → Summed u job (wallet ∷ []) (s ∷ []) w
  Accounts-Summed u job wallet G s w fresh a = record {
    rows = a.row ∷ [];
    added = a.row_added;
    of_job = (a.of_job, tt);
    of_wallets = ap (λ (i : ℕ). i ∷ []) a.of_owner;
    of_statuses = ap (λ (i : WalletSnapshotStatus). i ∷ []) (sym a.returned);
    fresh =
        subst (All λ (r : WalletSnapshot). r.id < w.db.current.next_wallet_snapshot)
          (sym a.row_added)
          (All-append (λ r. r.id < w.db.current.next_wallet_snapshot) u.wallet_snapshots
            (a.row ∷ [])
            (All-mono (λ r h. (let n = a.next in omega arith)) u.wallet_snapshots fresh)
            (let n = a.next in let i = a.of_id in omega arith, tt));
  }

  -- A renewal before and after changes none of it.
  Summed-OnlyRuns :
      (t u : Tables) (job : SnapshotRun) (ws : List Wallet) (ss : List WalletSnapshotStatus)
      (v w : World State)
      → u ≡ record t { runs = u.runs }
      → Summed u job ws ss v
      → OnlyRuns v tt w
      → Summed t job ws ss w
  Summed-OnlyRuns t u job ws ss v w e a f = record {
    rows = a.rows;
    added =
        ap (λ (x : Tables). x.wallet_snapshots) f
        ∙ a.added
        ∙ ap (λ (x : Tables). x.wallet_snapshots ++ a.rows) e;
    of_job = a.of_job;
    of_wallets = a.of_wallets;
    of_statuses = a.of_statuses;
    fresh = subst IsFresh (sym f) a.fresh;
  }

  pub process_wallets-Summed :
      (job : SnapshotRun) (ws : List Wallet) (w : World State)
      → IsFresh w.db.current
      → After
          (λ ss w'. Summed w.db.current job ws ss w')
          (process_wallets c time rejects settings job ws w)
  unfolding process_wallets
  process_wallets-Summed job [] w fresh = record {
    rows = [];
    added = sym (append-nil w.db.current.wallet_snapshots);
    of_job = tt;
    of_wallets = refl;
    of_statuses = refl;
    fresh = fresh;
  }
  process_wallets-Summed job (wallet ∷ ws) w fresh =
      let t = w.db.current in
      let goal : List WalletSnapshotStatus → World State → Type 0 =
        λ ss w'. Summed t job (wallet ∷ ws) ss w' in
      continue-After _ (OnlyRuns w) goal (renew_lease c time rejects settings job w)
        (renew_lease-OnlyRuns job w)
        (λ _ w1 e1.
          let u = w1.db.current in
          let fresh1 : IsFresh u = subst IsFresh (sym e1) fresh in
          let G = Stored c time rejects settings job wallet w1 in
          continue-After _ (Accounts u job wallet G) goal
            (process_wallet c time rejects settings job wallet w1)
            (process_wallet-Accounts c time rejects settings job wallet w1 fresh1)
            (λ s w2 a.
              continue-After _ (OnlyRuns w2) goal (renew_lease c time rejects settings job w2)
                (renew_lease-OnlyRuns job w2)
                (λ _ w3 e3.
                  let one =
                    Summed-OnlyRuns t u job (wallet ∷ []) (s ∷ []) w2 w3 e1
                      (Accounts-Summed u job wallet G s w2 fresh1 a) e3 in
                  continue-After _ (λ ss w'. Summed w3.db.current job ws ss w') goal
                    (process_wallets c time rejects settings job ws w3)
                    (process_wallets-Summed job ws w3 one.fresh)
                    (λ ss w4 b. Summed-cons t job wallet ws s ss w3 w4 one b))))
