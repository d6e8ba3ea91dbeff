-- ===== src/WalletLoader.antt =====
-- app/services/wallet_loader.py: the wallets of a job.
pub mod Dedup
pub mod Scope
use py_wallet_snapshot_servi.Prelude.{
  ℕ, Bool, true, false, not, ◌&&◌, ◌||◌, Option, none, some, List, [], ◌∷◌, leb, ◌==◌,
  if◌then◌else◌, same_id, any, filter, Text, codes, text_eq, strip, lower, is_empty,
}
use py_wallet_snapshot_servi.Enums.{ScopeType, chain_failed}
use py_wallet_snapshot_servi.Models.{SnapshotRun, Wallet, WalletSnapshot, ChainSnapshot}
use py_wallet_snapshot_servi.Session.{Tables}

-- The joins on `wallet_snapshots` and `chain_snapshots`, whose repetitions DISTINCT drops.
abbrev pub failed_chain_of : WalletSnapshot → ChainSnapshot → Bool
failed_chain_of w c = (c.wallet_snapshot_id == w.id) && chain_failed c.status

abbrev pub failed_snapshot_of : Tables → Option ℕ → Wallet → WalletSnapshot → Bool
failed_snapshot_of t parent_run_id wallet w =
    (w.wallet_id == wallet.id)
    && same_id (some w.snapshot_run_id) parent_run_id
    && any (failed_chain_of w) t.chain_snapshots

abbrev pub has_failed_chain : Tables → Option ℕ → Wallet → Bool
has_failed_chain t parent_run_id wallet =
    any (failed_snapshot_of t parent_run_id wallet) t.wallet_snapshots

abbrev pub meets_scope : ScopeType → Tables → SnapshotRun → Wallet → Bool
meets_scope ScopeType.all t job wallet = true
meets_scope ScopeType.group t job wallet = same_id wallet.group_id job.group_id
meets_scope ScopeType.wallet t job wallet = same_id (some wallet.id) job.wallet_id
meets_scope ScopeType.failed_chains t job wallet = has_failed_chain t job.parent_run_id wallet

-- The `where` of `load_for_job`.
abbrev pub is_selected : Tables → SnapshotRun → Wallet → Bool
is_selected t job wallet =
    (wallet.user_id == job.user_id) && wallet.is_active && meets_scope job.scope_type t job wallet

-- `ORDER BY id`
insert_by_id : Wallet → List Wallet → List Wallet
insert_by_id w [] = w ∷ []
insert_by_id w (v ∷ vs) = if leb w.id v.id then w ∷ v ∷ vs else v ∷ insert_by_id w vs

pub order_by_id : List Wallet → List Wallet
unfolding insert_by_id
order_by_id [] = []
order_by_id (w ∷ ws) = insert_by_id w (order_by_id ws)

abbrev pub Key : Type 0
Key = Text × Text

-- The `address_key` of a wallet; none where the wallet is kept whatever its address.
abbrev key_of : Text → Option Text → Option Key
key_of wallet_type none = none
key_of wallet_type (some address) =
    if is_empty address
      || not (text_eq wallet_type (codes "evm") || text_eq wallet_type (codes "solana"))
    then none
    else if text_eq wallet_type (codes "evm")
    then some (wallet_type, lower (strip address))
    else some (wallet_type, strip address)

unfoldable pub address_key : Wallet → Option Key
address_key wallet = key_of wallet.wallet_type wallet.address

abbrev pub same_key : Key → Key → Bool
same_key (s, a) (t, b) = text_eq s t && text_eq a b

-- `address_key in seen_addresses`
abbrev pub key_in : Key → List Key → Bool
key_in k = any λ j. same_key k j

abbrev pub is_seen : List Key → Option Key → Bool
is_seen seen none = false
is_seen seen (some k) = key_in k seen

abbrev pub see : List Key → Option Key → List Key
see seen none = seen
see seen (some k) = if key_in k seen then seen else k ∷ seen

-- The loop of `_deduplicate_onchain_addresses`.
pub deduplicate_from : List Key → List Wallet → List Wallet
deduplicate_from seen [] = []
deduplicate_from seen (wallet ∷ wallets) =
    let rest = deduplicate_from (see seen (address_key wallet)) wallets in
    if is_seen seen (address_key wallet) then rest else wallet ∷ rest

pub deduplicate_onchain_addresses : List Wallet → List Wallet
unfolding deduplicate_from
deduplicate_onchain_addresses = deduplicate_from []

-- `job.scope_type in (ALL, GROUP, FAILED_CHAINS)`
abbrev pub deduplicates : ScopeType → Bool
deduplicates ScopeType.wallet = false
deduplicates _ = true

unfoldable pub load_for_job : Tables → SnapshotRun → List Wallet
unfolding order_by_id deduplicate_onchain_addresses address_key
load_for_job t job =
    let wallets = order_by_id (filter (is_selected t job) t.wallets) in
    if deduplicates job.scope_type then deduplicate_onchain_addresses wallets else wallets
