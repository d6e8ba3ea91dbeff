-- ===== src/Processor.antt =====
-- app/services/snapshot_processor.py: one job, wallet by wallet and chain by chain.
pub mod Monad
pub mod Plan
pub mod Gathering
pub mod Copied
pub mod Summed
pub mod Ending
pub mod Chains
pub mod Wallets
pub mod Jobs
pub mod After
pub mod Rows
pub mod Accounts
use py_wallet_snapshot_servi.Prelude.{
  ℕ, suc, ltb, Bool, true, false, not, ◌&&◌, ◌||◌, Option, none, some, List, [], ◌∷◌, ◌++◌, map,
  foldl, ◌==◌, if◌then◌else◌, same_id, is_some, all, any, filter, min, Text, codes, text_eq,
  text_in, text_le,
}
use py_wallet_snapshot_servi.Enums.{
  ScopeType, JobStatus, WalletSnapshotStatus, ChainStatus, WalletType, wallet_type_value,
  same_scope, chain_succeeded, chain_failed,
}
use py_wallet_snapshot_servi.Decimal.{Decimal, zero_usd, ◌⊞◌}
use py_wallet_snapshot_servi.Models.{
  SnapshotRun, WalletSnapshot, ChainSnapshot, BalanceSnapshot, Wallet,
}
use py_wallet_snapshot_servi.Metrics.{
  Metric, chain_requests, balance_snapshots_written, wallets_processed, jobs_total,
  observe_first_snapshot_outcome,
}
use py_wallet_snapshot_servi.Session.{Tables, Session, update_run}
use py_wallet_snapshot_servi.Result.{Result, ok, raise}
use py_wallet_snapshot_servi.Collection.{AssetBalance, ChainCollectionResult, Collectors}
use py_wallet_snapshot_servi.PriceHistory.{Identity, Recorder, record_price}
use py_wallet_snapshot_servi.Claim.{renew_job_lease}
use py_wallet_snapshot_servi.WalletLoader.{load_for_job}

abbrev pub solana_chain : Text
solana_chain = codes "solana"

pub record Settings : Type 0 where
  pub worker_id : Option Text
  pub lease_seconds : Option ℕ
  pub enabled_chains : List Text

-- `sum(..., Decimal("0"))`
abbrev pub sum_usd : List Decimal → Decimal
sum_usd = foldl ◌⊞◌ zero_usd

-- The end of `_process_wallet`: the status and the message of a wallet snapshot.
abbrev pub wallet_status : List ChainStatus → WalletSnapshotStatus
wallet_status statuses =
    if all chain_succeeded statuses
    then WalletSnapshotStatus.success
    else if any chain_succeeded statuses
    then WalletSnapshotStatus.partial_success
    else WalletSnapshotStatus.failed

abbrev pub wallet_error : List ChainStatus → Option Text
wallet_error statuses =
    if any chain_succeeded statuses || all chain_succeeded statuses
    then none
    else some (codes "all chains failed")

abbrev wallet_succeeded : WalletSnapshotStatus → Bool
wallet_succeeded WalletSnapshotStatus.success = true
wallet_succeeded _ = false

abbrev wallet_has_success : WalletSnapshotStatus → Bool
wallet_has_success WalletSnapshotStatus.success = true
wallet_has_success WalletSnapshotStatus.partial_success = true
wallet_has_success _ = false

-- The status of the job, from those of its wallets.
abbrev pub job_status : List WalletSnapshotStatus → JobStatus
job_status statuses =
    if all wallet_succeeded statuses
    then JobStatus.success
    else if any wallet_has_success statuses
    then JobStatus.partial_success
    else JobStatus.failed

-- `ORDER BY chain`
insert_by_chain : ChainSnapshot → List ChainSnapshot → List ChainSnapshot
unfolding text_le
insert_by_chain c [] = c ∷ []
insert_by_chain c (d ∷ ds) =
    if text_le c.chain d.chain then c ∷ d ∷ ds else d ∷ insert_by_chain c ds

order_by_chain : List ChainSnapshot → List ChainSnapshot
unfolding insert_by_chain
order_by_chain [] = []
order_by_chain (c ∷ cs) = insert_by_chain c (order_by_chain cs)

-- The query of `_retry_plan`.
abbrev pub is_parent_chain : Tables → SnapshotRun → Wallet → ChainSnapshot → Bool
is_parent_chain t job wallet chain =
    any
      (λ (w : WalletSnapshot).
        (w.id == chain.wallet_snapshot_id)
        && same_id (some w.snapshot_run_id) job.parent_run_id
        && (w.wallet_id == wallet.id))
      t.wallet_snapshots

pub parent_chains : Tables → SnapshotRun → Wallet → List ChainSnapshot
unfolding order_by_chain
parent_chains t job wallet =
    order_by_chain (filter (is_parent_chain t job wallet) t.chain_snapshots)

abbrev pub is_retried : List Text → ChainSnapshot → Bool
is_retried allowed_chains chain = chain_failed chain.status && text_in chain.chain allowed_chains

-- `_retry_plan`: the chains to carry over, and the names of those to collect again.
abbrev pub plan : List Text → List ChainSnapshot → List ChainSnapshot × List Text
plan allowed_chains parents =
    let retry_chains =
      map (λ (c : ChainSnapshot). c.chain) (filter (is_retried allowed_chains) parents) in
    (filter (λ c. not (text_in c.chain retry_chains)) parents, retry_chains)

unfoldable pub retry_plan :
    Tables → SnapshotRun → Wallet → List Text → List ChainSnapshot × List Text
unfolding parent_chains
retry_plan t job wallet allowed_chains = plan allowed_chains (parent_chains t job wallet)
