-- ===== src/Collection.antt =====
-- What a collector reports of one chain: the dataclasses of app/services/evm_collector.py.
use py_wallet_snapshot_servi.Prelude.{ℤ, ℕ, Option, List, Text}
use py_wallet_snapshot_servi.Enums.{ChainStatus, AssetType}
use py_wallet_snapshot_servi.Decimal.{Decimal}
use py_wallet_snapshot_servi.Metrics.{Metric}
use py_wallet_snapshot_servi.Result.{Result}
use py_wallet_snapshot_servi.Session.{Tables}

pub record AssetBalance : Type 0 where
  pub symbol : Text
  pub asset_address : Option Text
  pub asset_type : AssetType
  pub amount : Decimal
  pub price_usd : Option Decimal
  pub value_usd : Decimal
  pub price_source : Option Text
  pub decimals : ℤ

pub record ChainCollectionResult : Type 0 where
  pub chain : Text
  pub status : ChainStatus
  pub native_balance : Option Decimal
  pub total_usd : Decimal
  pub rpc_latency_ms : Option ℕ
  pub balances : List AssetBalance
  pub error_type : Option Text
  pub error_message : Option Text

-- The collectors as the processor calls them: their own state, a result or an exception, and what
-- they count. The manual collector reads the tables.
pub record Collectors : Type 1 where
  pub State : Type 0
  pub collect_chain : Text → Text → State → State × Result ChainCollectionResult × List Metric
  pub collect_solana_wallet : Text → State → State × Result ChainCollectionResult × List Metric
  pub collect_manual_wallet :
      ℕ → Tables → State → State × Result ChainCollectionResult × List Metric
