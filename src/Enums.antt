-- ===== src/Enums.antt =====
-- app/enums.py. The columns that hold a member of a closed enumeration hold a value of its type;
-- the free-text columns (`wallet_type`, `error_type`) hold the text that `*_value` gives.
use py_wallet_snapshot_servi.Prelude.{Bool, true, false, Text, codes}

pub data TriggerType : Type 0 where
  auto scheduled manual retry : TriggerType

pub data ScopeType : Type 0 where
  all group wallet failed_chains : ScopeType

pub data JobStatus : Type 0 where
  pending running success partial_success failed cancelled : JobStatus

pub data WalletSnapshotStatus : Type 0 where
  pending running success partial_success failed : WalletSnapshotStatus

pub data ChainStatus : Type 0 where
  success failed skipped : ChainStatus

pub data WalletType : Type 0 where
  evm solana manual : WalletType

pub data AssetType : Type 0 where
  native erc20 spl manual : AssetType

pub data ErrorType : Type 0 where
  timeout rate_limit circuit_open rpc_error connection_error : ErrorType
  invalid_address unsupported_chain missing_rpc_url : ErrorType
  price_unavailable bad_config unknown : ErrorType

abbrev pub wallet_type_value : WalletType → Text
wallet_type_value WalletType.evm = codes "evm"
wallet_type_value WalletType.solana = codes "solana"
wallet_type_value WalletType.manual = codes "manual"

abbrev pub error_type_value : ErrorType → Text
error_type_value ErrorType.timeout = codes "timeout"
error_type_value ErrorType.rate_limit = codes "rate_limit"
error_type_value ErrorType.circuit_open = codes "circuit_open"
error_type_value ErrorType.rpc_error = codes "rpc_error"
error_type_value ErrorType.connection_error = codes "connection_error"
error_type_value ErrorType.invalid_address = codes "invalid_address"
error_type_value ErrorType.unsupported_chain = codes "unsupported_chain"
error_type_value ErrorType.missing_rpc_url = codes "missing_rpc_url"
error_type_value ErrorType.price_unavailable = codes "price_unavailable"
error_type_value ErrorType.bad_config = codes "bad_config"
error_type_value ErrorType.unknown = codes "unknown"

-- `==` on members of an enumeration.
abbrev pub same_trigger : TriggerType → TriggerType → Bool
same_trigger TriggerType.auto TriggerType.auto = true
same_trigger TriggerType.scheduled TriggerType.scheduled = true
same_trigger TriggerType.manual TriggerType.manual = true
same_trigger TriggerType.retry TriggerType.retry = true
same_trigger _ _ = false

abbrev pub same_scope : ScopeType → ScopeType → Bool
same_scope ScopeType.all ScopeType.all = true
same_scope ScopeType.group ScopeType.group = true
same_scope ScopeType.wallet ScopeType.wallet = true
same_scope ScopeType.failed_chains ScopeType.failed_chains = true
same_scope _ _ = false

abbrev pub is_pending : JobStatus → Bool
is_pending JobStatus.pending = true
is_pending _ = false

abbrev pub is_running : JobStatus → Bool
is_running JobStatus.running = true
is_running _ = false

-- `status in (pending, running)`
abbrev pub is_active : JobStatus → Bool
is_active JobStatus.pending = true
is_active JobStatus.running = true
is_active _ = false

abbrev pub chain_succeeded : ChainStatus → Bool
chain_succeeded ChainStatus.success = true
chain_succeeded _ = false

abbrev pub chain_failed : ChainStatus → Bool
chain_failed ChainStatus.failed = true
chain_failed _ = false
