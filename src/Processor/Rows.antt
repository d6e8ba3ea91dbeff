-- ===== src/Processor/Rows.antt =====
-- The chain rows that copying and writing add.
use mathlib.Core.List.{append-nil, append_assoc, map-append}
use py_wallet_snapshot_servi.Prelude.{
  ℕ, suc, ◌≡◌, refl, sym, ◌∙◌, ap, Bool, List, [], ◌∷◌, ◌++◌, map, All, All-append, Text,
}
use py_wallet_snapshot_servi.Enums.{ChainStatus}
use py_wallet_snapshot_servi.Decimal.{Decimal}
use py_wallet_snapshot_servi.Models.{ChainSnapshot, BalanceSnapshot}
use py_wallet_snapshot_servi.Session.{Tables}
use py_wallet_snapshot_servi.Collection.{AssetBalance, ChainCollectionResult}
use py_wallet_snapshot_servi.PriceHistory.{Identity, Recorder}
use py_wallet_snapshot_servi.PriceHistory.Frame.{SameElsewhere, record_price-SameElsewhere}
use py_wallet_snapshot_servi.Processor.Monad.{World}
use py_wallet_snapshot_servi.Processor.After.{After, After-of, After-map, continue-After}
use py_wallet_snapshot_servi.Metrics.{chain_requests}
use py_wallet_snapshot_servi.Processor.Chains.{
  copy_balances, copy_chain_snapshot, copy_chain_snapshots, record_observation, write_balances,
  write_chain_result, write_chain_results, balances_of, add_chain, copied_chain, add_balance,
  written_balance, written_chain, error_label,
}

abbrev pub chain_states : List ChainSnapshot → List ChainStatus
chain_states = map λ c. c.status

abbrev pub chain_usds : List ChainSnapshot → List Decimal
chain_usds = map λ c. c.total_usd

-- The names of the chains with their totals.
abbrev pub chain_totals : List ChainSnapshot → List (Text × Decimal)
chain_totals = map λ c. (c.chain, c.total_usd)

abbrev pub result_states : List ChainCollectionResult → List ChainStatus
result_states = map λ r. r.status

abbrev pub result_usds : List ChainCollectionResult → List Decimal
result_usds = map λ r. r.total_usd

abbrev pub result_totals : List ChainCollectionResult → List (Text × Decimal)
result_totals = map λ r. (r.chain, r.total_usd)

pub chain_usds-totals :
    (cs : List ChainSnapshot) → map (λ (p : Text × Decimal). p.1) (chain_totals cs) ≡ chain_usds cs
chain_usds-totals [] = refl
chain_usds-totals (c ∷ cs) = ap (λ xs. c.total_usd ∷ xs) (chain_usds-totals cs)

pub result_usds-totals :
    (rs : List ChainCollectionResult)
    → map (λ (p : Text × Decimal). p.1) (result_totals rs) ≡ result_usds rs
result_usds-totals [] = refl
result_usds-totals (r ∷ rs) = ap (λ xs. r.total_usd ∷ xs) (result_usds-totals rs)

-- From `t` to `u`: chain rows of the wallet snapshot `id` are added at the end, of the given names,
-- statuses and totals; jobs and wallet snapshots stay.
pub record Adds (id : ℕ) (states : List ChainStatus) (totals : List (Text × Decimal)) (t u : Tables)
    : Type 0 where
  pub rows : List ChainSnapshot
  pub appended : u.chain_snapshots ≡ t.chain_snapshots ++ rows
  pub of_wallet : All (λ c. c.wallet_snapshot_id ≡ id) rows
  pub of_states : chain_states rows ≡ states
  pub of_totals : chain_totals rows ≡ totals
  pub same_wallet_snapshots : u.wallet_snapshots ≡ t.wallet_snapshots
  pub same_runs : u.runs ≡ t.runs
  pub same_next : u.next_wallet_snapshot ≡ t.next_wallet_snapshot

-- From `t` to `u` no row of a job, a wallet or a chain changes.
pub record Frames (t u : Tables) : Type 0 where
  pub same_chain_snapshots : u.chain_snapshots ≡ t.chain_snapshots
  pub same_wallet_snapshots : u.wallet_snapshots ≡ t.wallet_snapshots
  pub same_runs : u.runs ≡ t.runs
  pub same_next : u.next_wallet_snapshot ≡ t.next_wallet_snapshot

pub Frames-refl : (t : Tables) → Frames t t
Frames-refl t = record {
  same_chain_snapshots = refl;
  same_wallet_snapshots = refl;
  same_runs = refl;
  same_next = refl;
}

pub Frames-trans : (t u v : Tables) → Frames t u → Frames u v → Frames t v
Frames-trans t u v a b = record {
  same_chain_snapshots = b.same_chain_snapshots ∙ a.same_chain_snapshots;
  same_wallet_snapshots = b.same_wallet_snapshots ∙ a.same_wallet_snapshots;
  same_runs = b.same_runs ∙ a.same_runs;
  same_next = b.same_next ∙ a.same_next;
}

pub Adds-nil : (id : ℕ) (t u : Tables) → Frames t u → Adds id [] [] t u
Adds-nil id t u f = record {
  rows = [];
  appended = f.same_chain_snapshots ∙ sym (append-nil t.chain_snapshots);
  of_wallet = tt;
  of_states = refl;
  of_totals = refl;
  same_wallet_snapshots = f.same_wallet_snapshots;
  same_runs = f.same_runs;
  same_next = f.same_next;
}

pub Adds-trans :
    (id : ℕ) (s r : List ChainStatus) (d e : List (Text × Decimal)) (t u v : Tables)
    → Adds id s d t u
    → Adds id r e u v
    → Adds id (s ++ r) (d ++ e) t v
Adds-trans id s r d e t u v a b = record {
  rows = a.rows ++ b.rows;
  appended =
      b.appended
      ∙ ap (λ (l : List ChainSnapshot). l ++ b.rows) a.appended
      ∙ append_assoc t.chain_snapshots a.rows b.rows;
  of_wallet = All-append (λ c. c.wallet_snapshot_id ≡ id) a.rows b.rows a.of_wallet b.of_wallet;
  of_states =
      map-append (λ (c : ChainSnapshot). c.status) a.rows b.rows ∙ rw (a.of_states, b.of_states);
  of_totals =
      map-append (λ (c : ChainSnapshot). (c.chain, c.total_usd)) a.rows b.rows
      ∙ rw (a.of_totals, b.of_totals);
  same_wallet_snapshots = b.same_wallet_snapshots ∙ a.same_wallet_snapshots;
  same_runs = b.same_runs ∙ a.same_runs;
  same_next = b.same_next ∙ a.same_next;
}

pub Adds-framed :
    (id : ℕ) (s : List ChainStatus) (d : List (Text × Decimal)) (t u v : Tables)
    → Adds id s d t u
    → Frames u v
    → Adds id s d t v
Adds-framed id s d t u v a f = record {
  rows = a.rows;
  appended = f.same_chain_snapshots ∙ a.appended;
  of_wallet = a.of_wallet;
  of_states = a.of_states;
  of_totals = a.of_totals;
  same_wallet_snapshots = f.same_wallet_snapshots ∙ a.same_wallet_snapshots;
  same_runs = f.same_runs ∙ a.same_runs;
  same_next = f.same_next ∙ a.same_next;
}

Frames-SameElsewhere : (t u v : Tables) → Frames t u → SameElsewhere u v → Frames t v
Frames-SameElsewhere t u v f e = record {
  same_chain_snapshots = e.same_chain_snapshots ∙ f.same_chain_snapshots;
  same_wallet_snapshots = e.same_wallet_snapshots ∙ f.same_wallet_snapshots;
  same_runs = e.same_runs ∙ f.same_runs;
  same_next = e.same_next_wallet_snapshot ∙ f.same_next;
}

copy_balances-Frames :
    (id : ℕ) (bs : List BalanceSnapshot) (t u : Tables)
    → Frames t u
    → Frames t (copy_balances id bs u)
unfolding copy_balances
copy_balances-Frames id [] t u f = f
copy_balances-Frames id (b ∷ bs) t u f = copy_balances-Frames id bs t _ (record {
  same_chain_snapshots = f.same_chain_snapshots;
  same_wallet_snapshots = f.same_wallet_snapshots;
  same_runs = f.same_runs;
  same_next = f.same_next;
})

-- One row and a frame.
Adds-add_chain :
    (id : ℕ) (c : ChainSnapshot) (t v : Tables)
    → c.wallet_snapshot_id ≡ id
    → Frames (add_chain c t) v
    → Adds id (c.status ∷ []) ((c.chain, c.total_usd) ∷ []) t v
Adds-add_chain id c t v e f = record {
  rows = c ∷ [];
  appended = f.same_chain_snapshots;
  of_wallet = (e, tt);
  of_states = refl;
  of_totals = refl;
  same_wallet_snapshots = f.same_wallet_snapshots;
  same_runs = f.same_runs;
  same_next = f.same_next;
}

module _ {S : Type 0} where
  copy_chain_snapshot-Adds :
      (id : ℕ) (c : ChainSnapshot) (w : World S)
      → Adds id
          (c.status ∷ [])
          ((c.chain, c.total_usd) ∷ [])
          w.db.current
          (copy_chain_snapshot id c w).1.db.current
  unfolding copy_chain_snapshot
  copy_chain_snapshot-Adds id c w =
      let t = w.db.current in
      let row = copied_chain id c t.next_chain_snapshot in
      Adds-add_chain id row t _ refl (
        copy_balances-Frames t.next_chain_snapshot (balances_of c.id t.balance_snapshots)
          (add_chain row t) (add_chain row t) (Frames-refl (add_chain row t)))

  pub copy_chain_snapshots-Adds :
      (id : ℕ) (cs : List ChainSnapshot) (w : World S)
      → Adds id
          (chain_states cs)
          (chain_totals cs)
          w.db.current
          (copy_chain_snapshots id cs w).1.db.current
  unfolding copy_chain_snapshots copy_chain_snapshot
  copy_chain_snapshots-Adds id [] w =
      Adds-nil id w.db.current w.db.current (Frames-refl w.db.current)
  copy_chain_snapshots-Adds id (c ∷ cs) w =
      let w' = (copy_chain_snapshot id c w).1 in
      Adds-trans id (c.status ∷ []) (chain_states cs) ((c.chain, c.total_usd) ∷ [])
        (chain_totals cs) w.db.current w'.db.current (copy_chain_snapshots id cs w').1.db.current
        (copy_chain_snapshot-Adds id c w) (copy_chain_snapshots-Adds id cs w')

  write_balances-Frames :
      (rejects : Identity → Bool) (id : ℕ) (chain : Text) (at : ℕ) (bs : List AssetBalance)
      (w : World S)
      → Frames w.db.current (write_balances rejects id chain at bs w).1.db.current
  unfolding write_balances record_observation
  write_balances-Frames rejects id chain at [] w = Frames-refl w.db.current
  write_balances-Frames rejects id chain at (b ∷ bs) w =
      let w' = (write_balances rejects id chain at (b ∷ []) w).1 in
      let t = w.db.current in
      let r : Recorder = record {
        recorded_assets = w.recorded_assets;
        tables = add_balance (written_balance id b t.next_balance_snapshot) t;
      } in
      Frames-trans t w'.db.current (write_balances rejects id chain at bs w').1.db.current
        (Frames-SameElsewhere t r.tables w'.db.current
          (record {
            same_chain_snapshots = refl;
            same_wallet_snapshots = refl;
            same_runs = refl;
            same_next = refl;
          })
          (record_price-SameElsewhere rejects chain b at r))
        (write_balances-Frames rejects id chain at bs w')

  -- The rows of `rs` are added.
  abbrev pub Written : ℕ → List ChainCollectionResult → World S → Unit {0} → World S → Type 0
  Written id rs w _ w' = Adds id (result_states rs) (result_totals rs) w.db.current w'.db.current

  module _ (time : ℕ → ℕ) (rejects : Identity → Bool) where
    write_chain_result-Adds :
        (id : ℕ) (r : ChainCollectionResult) (w : World S)
        → Adds id
            (r.status ∷ [])
            ((r.chain, r.total_usd) ∷ [])
            w.db.current
            (write_chain_result time rejects id r w).1.db.current
    unfolding write_chain_result
    write_chain_result-Adds id r w =
        let t = w.db.current in
        let at = time w.clock_reads in
        let row = written_chain id r at t.next_chain_snapshot in
        let w' : World S = record w {
          clock_reads = suc w.clock_reads;
          db = record w.db { current = add_chain row t };
          metrics = w.metrics ++ chain_requests r.chain r.status (error_label r.error_type) ∷ [];
        } in
        Adds-add_chain id row t _ refl
          (write_balances-Frames rejects t.next_chain_snapshot r.chain at r.balances w')

    pub write_chain_results-Adds :
        (id : ℕ) (rs : List ChainCollectionResult) (w : World S)
        → After (Written id rs w) (write_chain_results time rejects id rs w)
    unfolding write_chain_results
    write_chain_results-Adds id [] w = Adds-nil id _ _ (Frames-refl w.db.current)
    write_chain_results-Adds id (r ∷ rs) w =
        continue-After (λ _. write_chain_results time rejects id rs) (Written id (r ∷ []) w)
          (Written id (r ∷ rs) w) (write_chain_result time rejects id r w)
          (After-of (Written id (r ∷ []) w tt) (write_chain_result time rejects id r w)
            (write_chain_result-Adds id r w))
          (λ _ w' a.
            After-map (Written id rs w') (Written id (r ∷ rs) w)
              (write_chain_results time rejects id rs w')
              (λ _ w'' b.
                Adds-trans id (r.status ∷ []) (result_states rs) ((r.chain, r.total_usd) ∷ [])
                  (result_totals rs) w.db.current w'.db.current w''.db.current a b)
              (write_chain_results-Adds id rs w'))
