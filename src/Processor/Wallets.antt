-- ===== src/Processor/Wallets.antt =====
-- `_process_wallet`: the snapshot of one wallet.
use py_wallet_snapshot_servi.Prelude.{
  ℕ, suc, Bool, ◌&&◌, none, some, List, [], ◌∷◌, ◌++◌, map, foldl, ◌==◌, if◌then◌else◌, is_some,
  is_empty, min, Text, codes, text_eq, text_in,
}
use py_wallet_snapshot_servi.Enums.{
  ScopeType, WalletSnapshotStatus, ChainStatus, WalletType, wallet_type_value, same_scope,
}
use py_wallet_snapshot_servi.Decimal.{zero_usd, ◌⊞◌, Decimal}
use py_wallet_snapshot_servi.Models.{SnapshotRun, WalletSnapshot, ChainSnapshot, Wallet}
use py_wallet_snapshot_servi.Metrics.{wallets_processed}
use py_wallet_snapshot_servi.Session.{Tables}
use py_wallet_snapshot_servi.Collection.{ChainCollectionResult, Collectors}
use py_wallet_snapshot_servi.PriceHistory.{Identity}
use py_wallet_snapshot_servi.Processor.{
  Settings, solana_chain, sum_usd, wallet_status, wallet_error, retry_plan,
}
use py_wallet_snapshot_servi.Processor.Monad.{
  M, pure, ◌>>=◌, ◌>>◌, now, count, gets_tables, modify_tables, commit_session,
}
use py_wallet_snapshot_servi.Processor.Chains.{
  copy_chain_snapshots, write_chain_results, collect_manual_wallet, collect_evm_chains,
  collect_solana_wallet,
}

-- What a wallet snapshot is made of: the chains carried over from the parent, and the new results.
pub record Gathered : Type 0 where
  pub carried : List ChainSnapshot
  pub results : List ChainCollectionResult

-- The row as it is first written.
abbrev pub new_wallet_snapshot : SnapshotRun → Wallet → ℕ → ℕ → WalletSnapshot
new_wallet_snapshot job wallet started_at id = record {
  id = id;
  snapshot_run_id = job.id;
  wallet_id = wallet.id;
  group_id = wallet.group_id;
  wallet_type = wallet.wallet_type;
  status = WalletSnapshotStatus.running;
  total_usd = zero_usd;
  started_at = some started_at;
  finished_at = none;
  error_message = none;
}

abbrev pub add_wallet_snapshot : WalletSnapshot → Tables → Tables
add_wallet_snapshot w t = record t {
  wallet_snapshots = t.wallet_snapshots ++ w ∷ [];
  next_wallet_snapshot = suc t.next_wallet_snapshot;
}

-- The result of a wallet of an unknown type.
abbrev pub unsupported : Wallet → ChainCollectionResult
unsupported wallet = record {
  chain = elim wallet.chain_type [
    | none ↦ codes "unknown"
    | some chain ↦ if is_empty chain then codes "unknown" else chain
  ];
  status = ChainStatus.failed;
  native_balance = none;
  total_usd = zero_usd;
  rpc_latency_ms = none;
  balances = [];
  error_type = some (codes "unsupported_wallet_type");
  error_message = some (codes "unsupported wallet_type=" ++ wallet.wallet_type);
}

-- `job.scope_type == FAILED_CHAINS and job.parent_run_id is not None`
abbrev pub is_chain_retry : SnapshotRun → Bool
is_chain_retry job = same_scope job.scope_type ScopeType.failed_chains && is_some job.parent_run_id

abbrev pub statuses : Gathered → List ChainStatus
statuses g =
    map (λ (c : ChainSnapshot). c.status) g.carried
    ++ map (λ (r : ChainCollectionResult). r.status) g.results

abbrev pub total : Gathered → Decimal
total g =
    sum_usd (map (λ (c : ChainSnapshot). c.total_usd) g.carried)
    ⊞ sum_usd (map (λ (r : ChainCollectionResult). r.total_usd) g.results)

-- `min([completed_at, *(chain.finished_at ...)])`
abbrev pub earlier : ℕ → ChainSnapshot → ℕ
earlier t c = elim c.finished_at [ none ↦ t | some u ↦ min t u ]

-- The row as it is last written.
abbrev pub closed : Gathered → ℕ → WalletSnapshot → WalletSnapshot
closed g completed_at w = record w {
  status = wallet_status (statuses g);
  total_usd = total g;
  finished_at = some (foldl earlier completed_at g.carried);
  error_message = wallet_error (statuses g);
}

abbrev pub update_wallet_snapshot :
    ℕ → (WalletSnapshot → WalletSnapshot) → List WalletSnapshot → List WalletSnapshot
update_wallet_snapshot id f [] = []
update_wallet_snapshot id f (w ∷ ws) =
    (if w.id == id then f w else w) ∷ update_wallet_snapshot id f ws

module _ (c : Collectors) (time : ℕ → ℕ) (rejects : Identity → Bool) (settings : Settings) where
  open c use {State}

  -- The retry of an EVM or a Solana wallet: copies first, then new collections.
  unfoldable pub gather_retry :
      SnapshotRun
      → Wallet
      → ℕ
      → List Text
      → (List Text → M State (List ChainCollectionResult))
      → M State Gathered
  gather_retry job wallet wallet_snapshot_id allowed collect = do
    (carried, retry_chains) ← gets_tables (λ t. retry_plan t job wallet allowed)
    copy_chain_snapshots wallet_snapshot_id carried
    results ← collect retry_chains
    pure (record { carried = carried; results = results })

  unfoldable pub gather_new : M State (List ChainCollectionResult) → M State Gathered
  gather_new collect = do results ← collect; pure (record { carried = []; results = results })

  unfoldable pub collect_solana : Wallet → M State (List ChainCollectionResult)
  collect_solana wallet = do result ← collect_solana_wallet c wallet; pure (result ∷ [])

  -- The branches on the wallet's type.
  unfoldable pub gather : SnapshotRun → Wallet → ℕ → M State Gathered
  unfolding gather_retry gather_new collect_solana
  gather job wallet wallet_snapshot_id =
      if text_eq wallet.wallet_type (wallet_type_value WalletType.manual)
      then gather_new (do result ← collect_manual_wallet c wallet; pure (result ∷ []))
      else if text_eq wallet.wallet_type (wallet_type_value WalletType.evm)
      then (if is_chain_retry job
          then gather_retry job wallet wallet_snapshot_id settings.enabled_chains
              (collect_evm_chains c wallet)
          else gather_new (collect_evm_chains c wallet settings.enabled_chains))
      else if text_eq wallet.wallet_type (wallet_type_value WalletType.solana)
      then (if is_chain_retry job
          then gather_retry job wallet wallet_snapshot_id (solana_chain ∷ [])
              (λ chains. if text_in solana_chain chains then collect_solana wallet else pure [])
          else gather_new (collect_solana wallet))
      else pure (record { carried = []; results = unsupported wallet ∷ [] })

  -- The end: the totals, the status and the commit.
  unfoldable pub close_wallet : ℕ → Gathered → M State WalletSnapshotStatus
  close_wallet wallet_snapshot_id g = do
    completed_at ← now time
    modify_tables (λ t. record t {
      wallet_snapshots =
          update_wallet_snapshot wallet_snapshot_id (closed g completed_at) t.wallet_snapshots;
    })
    commit_session
    count (wallets_processed (wallet_status (statuses g)) ∷ [])
    pure (wallet_status (statuses g))

  unfoldable pub process_wallet : SnapshotRun → Wallet → M State WalletSnapshotStatus
  unfolding gather close_wallet
  process_wallet job wallet = do
    started_at ← now time
    id ← gets_tables (λ t. t.next_wallet_snapshot)
    modify_tables (add_wallet_snapshot (new_wallet_snapshot job wallet started_at id))
    g ← gather job wallet id
    write_chain_results time rejects id g.results
    close_wallet id g
