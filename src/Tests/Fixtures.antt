-- ===== src/Tests/Fixtures.antt =====
-- A small database: one user with two wallets of one address, jobs in three states.
use py_wallet_snapshot_servi.Prelude.{true, none, some, [], ◌∷◌, Text, codes}
use py_wallet_snapshot_servi.Enums.{
  TriggerType, ScopeType, JobStatus, WalletSnapshotStatus, ChainStatus,
}
use py_wallet_snapshot_servi.Decimal.{of_ℕ}
use py_wallet_snapshot_servi.Models.{SnapshotRun, WalletSnapshot, ChainSnapshot, Wallet}
use py_wallet_snapshot_servi.Session.{Tables, Session}
use py_wallet_snapshot_servi.Jobs.{SnapshotJobCreate}

abbrev pub worker : Text
worker = codes "w1"

abbrev pub request : SnapshotJobCreate
request = record {
  user_id = 7;
  trigger_type = TriggerType.manual;
  scope_type = ScopeType.all;
  group_id = none;
  wallet_id = none;
  activation_channel = none;
}

abbrev pub pending_job : SnapshotRun
pending_job = record {
  id = 1;
  user_id = 7;
  trigger_type = TriggerType.scheduled;
  scope_type = ScopeType.all;
  group_id = none;
  wallet_id = none;
  parent_run_id = none;
  activation_channel = none;
  status = JobStatus.pending;
  created_at = 100;
  started_at = none;
  finished_at = none;
  error_message = none;
  worker_id = none;
  lease_expires_at = none;
}

-- Another user's, running under a lease until 160.
abbrev pub running_job : SnapshotRun
running_job = record pending_job {
  id = 2;
  user_id = 8;
  status = JobStatus.running;
  started_at = some 100;
  worker_id = some worker;
  lease_expires_at = some 160;
}

abbrev pub old_wallet : Wallet
old_wallet = record {
  id = 3;
  user_id = 7;
  group_id = none;
  label = codes "main";
  address = some (codes "0xAB");
  chain_type = none;
  wallet_type = codes "evm";
  is_active = true;
}

-- The same address in other letters.
abbrev pub new_wallet : Wallet
new_wallet = record old_wallet { id = 4; address = some (codes " 0xab") }

abbrev pub tables : Tables
tables = record {
  runs = pending_job ∷ running_job ∷ [];
  wallet_snapshots = [];
  chain_snapshots = [];
  balance_snapshots = [];
  users = [];
  wallets = new_wallet ∷ old_wallet ∷ [];
  assets = [];
  manual_balances = [];
  prices_history = [];
  next_run = 3;
  next_wallet_snapshot = 1;
  next_chain_snapshot = 1;
  next_balance_snapshot = 1;
  next_asset = 1;
  next_price = 1;
}

abbrev pub session : Session
session = record { committed = tables; current = tables }

-- A job that failed on one chain of the old wallet and had another one.
abbrev pub ended_job : SnapshotRun
ended_job = record pending_job {
  id = 5;
  status = JobStatus.partial_success;
  started_at = some 110;
  finished_at = some 120;
}

abbrev pub ended_wallet : WalletSnapshot
ended_wallet = record {
  id = 1;
  snapshot_run_id = 5;
  wallet_id = 3;
  group_id = none;
  wallet_type = codes "evm";
  status = WalletSnapshotStatus.partial_success;
  total_usd = of_ℕ 40;
  started_at = some 110;
  finished_at = some 120;
  error_message = none;
}

abbrev pub good_chain : ChainSnapshot
good_chain = record {
  id = 1;
  wallet_snapshot_id = 1;
  chain = codes "base";
  status = ChainStatus.success;
  native_balance = some (of_ℕ 2);
  total_usd = of_ℕ 40;
  rpc_latency_ms = none;
  error_type = none;
  error_message = none;
  started_at = some 115;
  finished_at = some 115;
}

abbrev pub bad_chain : ChainSnapshot
bad_chain = record good_chain {
  id = 2;
  chain = codes "ethereum";
  status = ChainStatus.failed;
  native_balance = none;
  total_usd = of_ℕ 0;
  error_type = some (codes "timeout");
}

abbrev pub ended_tables : Tables
ended_tables = record tables {
  runs = ended_job ∷ [];
  wallet_snapshots = ended_wallet ∷ [];
  chain_snapshots = bad_chain ∷ good_chain ∷ [];
  next_run = 6;
  next_wallet_snapshot = 2;
  next_chain_snapshot = 3;
}

abbrev pub ended_session : Session
ended_session = record { committed = ended_tables; current = ended_tables }
