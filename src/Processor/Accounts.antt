-- ===== src/Processor/Accounts.antt =====
-- What `_process_wallet` stores.
use mathlib.Core.List.{map-append}
use py_wallet_snapshot_servi.Prelude.{
  ℕ, suc, ◌<◌, ◌≡◌, refl, sym, ◌∙◌, ap, Bool, List, [], ◌∷◌, ◌++◌, map, All, All-append, Text,
  arith,
}
use py_wallet_snapshot_servi.Enums.{WalletSnapshotStatus}
use py_wallet_snapshot_servi.Decimal.{Decimal, ◌⊞◌}
use py_wallet_snapshot_servi.Models.{SnapshotRun, WalletSnapshot, ChainSnapshot, Wallet}
use py_wallet_snapshot_servi.Session.{Tables}
use py_wallet_snapshot_servi.Collection.{Collectors}
use py_wallet_snapshot_servi.PriceHistory.{Identity}
use py_wallet_snapshot_servi.Processor.{Settings, sum_usd, wallet_status, wallet_error}
use py_wallet_snapshot_servi.Processor.Monad.{World}
use py_wallet_snapshot_servi.Processor.After.{After, After-both, continue-After}
use py_wallet_snapshot_servi.Processor.Gathering.{IsGathered, gather-IsGathered}
use py_wallet_snapshot_servi.Processor.Chains.{write_chain_results}
use py_wallet_snapshot_servi.Processor.Rows.{
  chain_states, chain_usds, chain_totals, chain_usds-totals, result_states, result_usds,
  result_totals, result_usds-totals, Written, write_chain_results-Adds,
}
use py_wallet_snapshot_servi.Processor.Wallets.{
  Gathered, new_wallet_snapshot, add_wallet_snapshot, statuses, closed, update_wallet_snapshot,
  gather, close_wallet, process_wallet,
}
use py_wallet_snapshot_servi.Processor.Copied.{Copied, gather-Copied}

-- From the tables `t`: the rows of `wallet` in `job` are stored, with the chains that were carried
-- over and those that were written, from what was gathered, of which `G` holds; and the row of the
-- wallet sums them up.
pub record Accounts {S : Type 0} (t : Tables) (job : SnapshotRun) (wallet : Wallet)
    (G : Gathered → Type 0) (s : WalletSnapshotStatus) (w : World S) : Type 0 where
  pub gathered : Gathered
  pub gathering : G gathered
  pub carried : List ChainSnapshot
  pub written : List ChainSnapshot
  pub row : WalletSnapshot
  pub chains_added : w.db.current.chain_snapshots ≡ t.chain_snapshots ++ carried ++ written
  pub carried_states : chain_states carried ≡ chain_states gathered.carried
  pub carried_totals : chain_totals carried ≡ chain_totals gathered.carried
  pub written_states : chain_states written ≡ result_states gathered.results
  pub written_totals : chain_totals written ≡ result_totals gathered.results
  pub of_row : All (λ c. c.wallet_snapshot_id ≡ row.id) (carried ++ written)
  pub row_added : w.db.current.wallet_snapshots ≡ t.wallet_snapshots ++ row ∷ []
  pub of_id : row.id ≡ t.next_wallet_snapshot
  pub of_job : row.snapshot_run_id ≡ job.id
  pub of_owner : row.wallet_id ≡ wallet.id
  pub status_of : row.status ≡ wallet_status (chain_states (carried ++ written))
  pub message_of : row.error_message ≡ wallet_error (chain_states (carried ++ written))
  pub total_of : row.total_usd ≡ sum_usd (chain_usds carried) ⊞ sum_usd (chain_usds written)
  pub returned : s ≡ row.status
  pub same_runs : w.db.current.runs ≡ t.runs
  pub next : w.db.current.next_wallet_snapshot ≡ suc t.next_wallet_snapshot
  pub saved : w.db.committed ≡ w.db.current

-- A row at the end is the one that is updated.
update_last :
    (id : ℕ) (f : WalletSnapshot → WalletSnapshot) (x : WalletSnapshot) (ws : List WalletSnapshot)
    → x.id ≡ id
    → All (λ (w : WalletSnapshot). w.id < id) ws
    → update_wallet_snapshot id f (ws ++ x ∷ []) ≡ ws ++ f x ∷ []
update_last id f x [] e _ = grind arith
update_last id f x (w ∷ ws) e (l, ls) = let h = update_last id f x ws e ls in grind arith

module _ (c : Collectors) (time : ℕ → ℕ) (rejects : Identity → Bool) (settings : Settings) where
  open c use {State}

  -- What is gathered for the wallet, when its snapshot has been added to the tables of `w`.
  abbrev pub Stored : SnapshotRun → Wallet → World State → Gathered → Type 0
  Stored job wallet w =
      let t = w.db.current in
      IsGathered c settings job wallet
        (add_wallet_snapshot
          (new_wallet_snapshot job wallet (time w.clock_reads) t.next_wallet_snapshot) t)
        w.collectors

  close_wallet-Accounts :
      (job : SnapshotRun) (wallet : Wallet) (t : Tables) (at : ℕ) (g : Gathered)
      (w w' w'' : World State) (G : Gathered → Type 0)
      → G g
      → All (λ (s : WalletSnapshot). s.id < t.next_wallet_snapshot) t.wallet_snapshots
      → w.db.current
        ≡ add_wallet_snapshot (new_wallet_snapshot job wallet at t.next_wallet_snapshot) t
      → Copied t.next_wallet_snapshot w g w'
      → Written t.next_wallet_snapshot g.results w' tt w''
      → After
          (Accounts t job wallet G)
          (close_wallet c time rejects settings t.next_wallet_snapshot g w'')
  unfolding close_wallet
  close_wallet-Accounts job wallet t at g w w' w'' G gathering fresh e a b =
      let id = t.next_wallet_snapshot in
      let row0 = new_wallet_snapshot job wallet at id in
      let f = closed g (time w''.clock_reads) in
      let states : chain_states (a.rows ++ b.rows) ≡ statuses g =
        map-append (λ (r : ChainSnapshot). r.status) a.rows b.rows
        ∙ rw (a.of_states, b.of_states) in
      record {
        gathered = g;
        gathering = gathering;
        carried_states = a.of_states;
        carried_totals = a.of_totals;
        written_states = b.of_states;
        written_totals = b.of_totals;
        carried = a.rows;
        written = b.rows;
        row = f row0;
        chains_added =
            b.appended
            ∙ ap (λ (l : List ChainSnapshot). l ++ b.rows) a.appended
            ∙ ap (λ (u : Tables). u.chain_snapshots ++ a.rows ++ b.rows) e;
        of_row = All-append (λ r. r.wallet_snapshot_id ≡ id) a.rows b.rows a.of_wallet b.of_wallet;
        row_added =
            ap (update_wallet_snapshot id f) (
              b.same_wallet_snapshots
              ∙ a.same_wallet_snapshots
              ∙ ap (λ (u : Tables). u.wallet_snapshots) e)
            ∙ update_last id f row0 t.wallet_snapshots refl fresh;
        of_id = refl;
        of_job = refl;
        of_owner = refl;
        status_of = ap wallet_status (sym states);
        message_of = ap wallet_error (sym states);
        total_of =
            let carried : chain_usds g.carried ≡ chain_usds a.rows =
              sym (chain_usds-totals g.carried)
              ∙ ap (map (λ (p : Text × Decimal). p.1)) (sym a.of_totals)
              ∙ chain_usds-totals a.rows in
            let written : result_usds g.results ≡ chain_usds b.rows =
              sym (result_usds-totals g.results)
              ∙ ap (map (λ (p : Text × Decimal). p.1)) (sym b.of_totals)
              ∙ chain_usds-totals b.rows in
            λ i. sum_usd (carried i) ⊞ sum_usd (written i);
        returned = refl;
        same_runs = b.same_runs ∙ a.same_runs ∙ ap (λ (u : Tables). u.runs) e;
        next = b.same_next ∙ a.same_next ∙ ap (λ (u : Tables). u.next_wallet_snapshot) e;
        saved = refl;
      }

  -- Where `process_wallet` returns and the stored wallet snapshots have older ids than the next one,
  -- then it has added exactly one wallet snapshot, of this job and wallet, and chain snapshots of
  -- that one only, after the old rows: first one for each chain that the retry plan carries over, if
  -- the job retries failed chains, with its name, status and total; then one for each result of the
  -- collectors, in their order, for the chains of the plan, for the enabled ones in a job that is no
  -- retry, or for the one account of a manual or a Solana wallet; a wallet of another type gets one
  -- failed chain. The status it returns and stores, and the message, are those of the statuses of all
  -- the added chains, the total is the sum over the carried ones plus the sum over the collected ones,
  -- no job changed, and the rows are committed.
  pub process_wallet-Accounts :
      (job : SnapshotRun) (wallet : Wallet) (w : World State)
      → All
          (λ (s : WalletSnapshot). s.id < w.db.current.next_wallet_snapshot)
          w.db.current.wallet_snapshots
      → After
          (Accounts w.db.current job wallet (Stored job wallet w))
          (process_wallet c time rejects settings job wallet w)
  unfolding process_wallet
  process_wallet-Accounts job wallet w fresh =
      let t = w.db.current in
      let id = t.next_wallet_snapshot in
      let at = time w.clock_reads in
      let G = Stored job wallet w in
      let opened : World State = record w {
        clock_reads = suc w.clock_reads;
        db = record w.db { current = add_wallet_snapshot (new_wallet_snapshot job wallet at id) t };
      } in
      continue-After _ (λ g w'. Copied id opened g w' × G g) (Accounts t job wallet G)
        (gather c time rejects settings job wallet id opened)
        (After-both (Copied id opened) (λ g _. G g)
          (gather c time rejects settings job wallet id opened)
          (gather-Copied c time rejects settings job wallet id opened)
          (gather-IsGathered c time rejects settings job wallet id opened))
        (λ g w' a.
          continue-After _ (Written id g.results w') (Accounts t job wallet G)
            (write_chain_results time rejects id g.results w')
            (write_chain_results-Adds time rejects id g.results w')
            (λ _ w'' b.
              close_wallet-Accounts job wallet t at g opened w' w'' G a.1 fresh refl a.0 b))
