-- ===== src/Processor/Chains.antt =====
-- The rows of one chain: `_copy_chain_snapshot`, `_write_chain_result` and the calls of the collectors.
use py_wallet_snapshot_servi.Prelude.{
  ℕ, suc, Bool, Option, none, some, List, [], ◌∷◌, ◌++◌, filter, ◌==◌, is_empty, if◌then◌else◌,
  Text, codes,
}
use py_wallet_snapshot_servi.Models.{ChainSnapshot, BalanceSnapshot, Wallet}
use py_wallet_snapshot_servi.Metrics.{Metric, chain_requests, balance_snapshots_written}
use py_wallet_snapshot_servi.Session.{Tables}
use py_wallet_snapshot_servi.Result.{Result, ok}
use py_wallet_snapshot_servi.Collection.{AssetBalance, ChainCollectionResult, Collectors}
use py_wallet_snapshot_servi.PriceHistory.{Identity, Recorder, record_price}
use py_wallet_snapshot_servi.Processor.Monad.{
  World, M, pure, ◌>>=◌, ◌>>◌, now, count, gets_tables, modify_tables,
}

-- `db.add(chain_snapshot)` and the flush.
abbrev pub add_chain : ChainSnapshot → Tables → Tables
add_chain c t = record t {
  chain_snapshots = t.chain_snapshots ++ c ∷ [];
  next_chain_snapshot = suc t.next_chain_snapshot;
}

abbrev pub add_balance : BalanceSnapshot → Tables → Tables
add_balance b t = record t {
  balance_snapshots = t.balance_snapshots ++ b ∷ [];
  next_balance_snapshot = suc t.next_balance_snapshot;
}

-- The row that `_copy_chain_snapshot` adds.
abbrev pub copied_chain : ℕ → ChainSnapshot → ℕ → ChainSnapshot
copied_chain wallet_snapshot_id chain id = record chain {
  id = id;
  wallet_snapshot_id = wallet_snapshot_id;
}

-- The row that `_write_chain_result` adds.
abbrev pub written_chain : ℕ → ChainCollectionResult → ℕ → ℕ → ChainSnapshot
written_chain wallet_snapshot_id result at id = record {
  id = id;
  wallet_snapshot_id = wallet_snapshot_id;
  chain = result.chain;
  status = result.status;
  native_balance = result.native_balance;
  total_usd = result.total_usd;
  rpc_latency_ms = result.rpc_latency_ms;
  error_type = result.error_type;
  error_message = result.error_message;
  started_at = some at;
  finished_at = some at;
}

abbrev pub copied_balance : ℕ → BalanceSnapshot → ℕ → BalanceSnapshot
copied_balance chain_snapshot_id balance id = record balance {
  id = id;
  chain_snapshot_id = chain_snapshot_id;
}

abbrev pub written_balance : ℕ → AssetBalance → ℕ → BalanceSnapshot
written_balance chain_snapshot_id balance id = record {
  id = id;
  chain_snapshot_id = chain_snapshot_id;
  asset_symbol = balance.symbol;
  asset_address = balance.asset_address;
  asset_type = balance.asset_type;
  amount = balance.amount;
  price_usd = balance.price_usd;
  value_usd = balance.value_usd;
  price_source = balance.price_source;
}

-- `chain.balance_snapshots`
abbrev pub balances_of : ℕ → List BalanceSnapshot → List BalanceSnapshot
balances_of id = filter λ b. b.chain_snapshot_id == id

unfoldable pub copy_balances : ℕ → List BalanceSnapshot → Tables → Tables
copy_balances chain_snapshot_id [] t = t
copy_balances chain_snapshot_id (b ∷ bs) t =
    copy_balances chain_snapshot_id bs
      (add_balance (copied_balance chain_snapshot_id b t.next_balance_snapshot) t)

abbrev pub one_for_each {ℓ} : {A : Type ℓ} → Metric → List A → List Metric
one_for_each m [] = []
one_for_each m (x ∷ xs) = m ∷ one_for_each m xs

-- `result.error_type or "none"`
abbrev pub error_label : Option Text → Text
error_label none = codes "none"
error_label (some e) = if is_empty e then codes "none" else e

module _ {S : Type 0} where
  unfoldable pub copy_chain_snapshot : ℕ → ChainSnapshot → M S (Unit {0})
  unfolding copy_balances
  copy_chain_snapshot wallet_snapshot_id chain = do
    balances ← gets_tables (λ t. balances_of chain.id t.balance_snapshots)
    id ← gets_tables (λ t. t.next_chain_snapshot)
    modify_tables (add_chain (copied_chain wallet_snapshot_id chain id))
    modify_tables (copy_balances id balances)
    count (one_for_each balance_snapshots_written balances)

  unfoldable pub copy_chain_snapshots : ℕ → List ChainSnapshot → M S (Unit {0})
  copy_chain_snapshots wallet_snapshot_id [] = pure tt
  copy_chain_snapshots wallet_snapshot_id (chain ∷ chains) = do
    copy_chain_snapshot wallet_snapshot_id chain
    copy_chain_snapshots wallet_snapshot_id chains

  -- `self.price_history.record(...)`
  unfoldable pub record_observation : (Identity → Bool) → Text → AssetBalance → ℕ → M S (Unit {0})
  record_observation rejects chain balance at w =
      let r : Recorder = record { recorded_assets = w.recorded_assets; tables = w.db.current } in
      let (r', _) = record_price rejects chain balance at r in
      (
        ok tt,
        record w { recorded_assets = r'.recorded_assets; db = record w.db { current = r'.tables } },
      )

  unfoldable pub write_balances :
      (Identity → Bool) → ℕ → Text → ℕ → List AssetBalance → M S (Unit {0})
  write_balances rejects chain_snapshot_id chain at [] = pure tt
  write_balances rejects chain_snapshot_id chain at (balance ∷ balances) = do
    id ← gets_tables (λ t. t.next_balance_snapshot)
    modify_tables (add_balance (written_balance chain_snapshot_id balance id))
    record_observation rejects chain balance at
    count (balance_snapshots_written ∷ [])
    write_balances rejects chain_snapshot_id chain at balances

  unfoldable pub write_chain_result :
      (ℕ → ℕ) → (Identity → Bool) → ℕ → ChainCollectionResult → M S (Unit {0})
  unfolding write_balances record_observation
  write_chain_result time rejects wallet_snapshot_id result = do
    at ← now time
    id ← gets_tables (λ t. t.next_chain_snapshot)
    modify_tables (add_chain (written_chain wallet_snapshot_id result at id))
    count (chain_requests result.chain result.status (error_label result.error_type) ∷ [])
    write_balances rejects id result.chain at result.balances

  unfoldable pub write_chain_results :
      (ℕ → ℕ) → (Identity → Bool) → ℕ → List ChainCollectionResult → M S (Unit {0})
  write_chain_results time rejects wallet_snapshot_id [] = pure tt
  write_chain_results time rejects wallet_snapshot_id (result ∷ results) = do
    write_chain_result time rejects wallet_snapshot_id result
    write_chain_results time rejects wallet_snapshot_id results

module _ (c : Collectors) where
  open c use {State}

  -- A call of a collector: its state and its counters stay also where it raises.
  abbrev pub called :
      World State
      → State × Result ChainCollectionResult × List Metric
      → Result ChainCollectionResult × World State
  called w (s, r, ms) = (r, record w { collectors = s; metrics = w.metrics ++ ms })

  -- `wallet.address or ""`
  abbrev pub address_or_empty : Wallet → Text
  address_or_empty wallet = elim wallet.address [ none ↦ [] | some address ↦ address ]

  unfoldable pub collect_manual_wallet : Wallet → M State ChainCollectionResult
  collect_manual_wallet wallet w =
      called w (c.collect_manual_wallet wallet.id w.db.current w.collectors)

  unfoldable pub collect_evm_chain : Wallet → Text → M State ChainCollectionResult
  collect_evm_chain wallet chain w =
      called w (c.collect_chain (address_or_empty wallet) chain w.collectors)

  unfoldable pub collect_solana_wallet : Wallet → M State ChainCollectionResult
  collect_solana_wallet wallet w =
      called w (c.collect_solana_wallet (address_or_empty wallet) w.collectors)

  unfoldable pub collect_evm_chains : Wallet → List Text → M State (List ChainCollectionResult)
  unfolding collect_evm_chain
  collect_evm_chains wallet [] = pure []
  collect_evm_chains wallet (chain ∷ chains) = do
    result ← collect_evm_chain wallet chain
    results ← collect_evm_chains wallet chains
    pure (result ∷ results)
