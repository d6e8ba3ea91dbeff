-- ===== src/Models.antt =====
-- app/models: the rows of the tables, and the tables together. Timestamps are whole numbers of one
-- unit, the second; a foreign key is the id that it names; relationships are looked up by it.
use py_wallet_snapshot_servi.Prelude.{ℤ, ℕ, Bool, Option, Text}
use py_wallet_snapshot_servi.Enums.{
  TriggerType, ScopeType, JobStatus, WalletSnapshotStatus, ChainStatus, AssetType,
}
use py_wallet_snapshot_servi.Decimal.{Decimal}

pub record SnapshotRun : Type 0 where
  pub id : ℕ
  pub user_id : ℕ
  pub trigger_type : TriggerType
  pub scope_type : ScopeType
  pub group_id : Option ℕ
  pub wallet_id : Option ℕ
  pub parent_run_id : Option ℕ
  pub activation_channel : Option Text
  pub status : JobStatus
  pub created_at : ℕ
  pub started_at : Option ℕ
  pub finished_at : Option ℕ
  pub error_message : Option Text
  pub worker_id : Option Text
  pub lease_expires_at : Option ℕ

pub record WalletSnapshot : Type 0 where
  pub id : ℕ
  pub snapshot_run_id : ℕ
  pub wallet_id : ℕ
  pub group_id : Option ℕ
  pub wallet_type : Text
  pub status : WalletSnapshotStatus
  pub total_usd : Decimal
  pub started_at : Option ℕ
  pub finished_at : Option ℕ
  pub error_message : Option Text

pub record ChainSnapshot : Type 0 where
  pub id : ℕ
  pub wallet_snapshot_id : ℕ
  pub chain : Text
  pub status : ChainStatus
  pub native_balance : Option Decimal
  pub total_usd : Decimal
  pub rpc_latency_ms : Option ℕ
  pub error_type : Option Text
  pub error_message : Option Text
  pub started_at : Option ℕ
  pub finished_at : Option ℕ

pub record BalanceSnapshot : Type 0 where
  pub id : ℕ
  pub chain_snapshot_id : ℕ
  pub asset_symbol : Text
  pub asset_address : Option Text
  pub asset_type : AssetType
  pub amount : Decimal
  pub price_usd : Option Decimal
  pub value_usd : Decimal
  pub price_source : Option Text

pub record User : Type 0 where
  pub id : ℕ
  pub email : Text

pub record Wallet : Type 0 where
  pub id : ℕ
  pub user_id : ℕ
  pub group_id : Option ℕ
  pub label : Text
  pub address : Option Text
  pub chain_type : Option Text
  pub wallet_type : Text
  pub is_active : Bool

pub record Asset : Type 0 where
  pub id : ℕ
  pub symbol : Text
  pub name : Option Text
  pub contract_address : Option Text
  pub chain : Text
  pub decimals : ℤ

pub record ManualBalance : Type 0 where
  pub wallet_id : ℕ
  pub asset_id : ℕ
  pub amount : Decimal
  pub price_usd : Option Decimal

pub record PriceHistory : Type 0 where
  pub id : ℕ
  pub asset_id : ℕ
  pub price_at : ℕ
  pub price_usd : Decimal
  pub source : Text
