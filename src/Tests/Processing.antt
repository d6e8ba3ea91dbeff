-- ===== src/Tests/Processing.antt =====
-- A retry of the failed chain on the small database.
use py_wallet_snapshot_servi.Prelude.{
  ◌≡◌, refl, text_eq, text_in, text_le, strip, lower, ℕ, ◌+◌, false, Bool, none, some, [], ◌∷◌,
  arith, Text, codes,
}
use py_wallet_snapshot_servi.Enums.{TriggerType, ScopeType, JobStatus, ChainStatus}
use py_wallet_snapshot_servi.Decimal.{of_ℕ}
use py_wallet_snapshot_servi.Models.{SnapshotRun}
use py_wallet_snapshot_servi.Session.{Tables}
use py_wallet_snapshot_servi.Result.{ok}
use py_wallet_snapshot_servi.Collection.{ChainCollectionResult, Collectors}
use py_wallet_snapshot_servi.PriceHistory.{Identity}
use py_wallet_snapshot_servi.WalletLoader.{load_for_job}
use py_wallet_snapshot_servi.Processor.{Settings, retry_plan}
use py_wallet_snapshot_servi.Processor.Monad.{World}
use py_wallet_snapshot_servi.Processor.After.{After}
use py_wallet_snapshot_servi.Processor.Plan.{IsPlan, retry_plan-IsPlan}
use py_wallet_snapshot_servi.Processor.Wallets.{process_wallet, gather, close_wallet, gather_retry}
use py_wallet_snapshot_servi.Processor.Chains.{
  copy_chain_snapshots, copy_chain_snapshot, copy_balances, collect_evm_chains, collect_evm_chain,
  write_chain_results, write_chain_result, write_balances,
}
use py_wallet_snapshot_servi.Claim.{renew_job_lease}
use py_wallet_snapshot_servi.Processor.Accounts.{Accounts, Stored, process_wallet-Accounts}
use py_wallet_snapshot_servi.Processor.Jobs.{
  process, process_loaded, process_wallets, renew_lease, finish_job,
}
use py_wallet_snapshot_servi.Processor.Ending.{Ended, process-Ended}
use py_wallet_snapshot_servi.Tests.Fixtures.{worker, ended_job, ended_tables, old_wallet}

abbrev answer : Text → ChainCollectionResult
answer chain = record {
  chain = chain;
  status = ChainStatus.success;
  native_balance = some (of_ℕ 1);
  total_usd = of_ℕ 3;
  rpc_latency_ms = some 12;
  balances = [];
  error_type = none;
  error_message = none;
}

-- Collectors that count their calls and succeed.
abbrev pub collectors : Collectors
collectors = record {
  State = ℕ;
  collect_chain = λ address chain n. (n + 1, ok (answer chain), []);
  collect_solana_wallet = λ address n. (n + 1, ok (answer (codes "solana")), []);
  collect_manual_wallet = λ id t n. (n + 1, ok (answer (codes "manual")), []);
}

abbrev settings : Settings
settings = record {
  worker_id = some worker;
  lease_seconds = some 60;
  enabled_chains = codes "base" ∷ codes "ethereum" ∷ [];
}

abbrev retry : SnapshotRun
retry = record ended_job {
  id = 6;
  trigger_type = TriggerType.retry;
  scope_type = ScopeType.failed_chains;
  parent_run_id = some 5;
  status = JobStatus.running;
  finished_at = none;
  worker_id = some worker;
  lease_expires_at = some 300;
}

abbrev retry_tables : Tables
retry_tables = record ended_tables { runs = ended_job ∷ retry ∷ []; next_run = 7 }

abbrev pub clock : ℕ → ℕ
clock k = 200 + k

abbrev pub accepts : Identity → Bool
accepts _ = false

abbrev world : World ℕ
world = record {
  db = record { committed = retry_tables; current = retry_tables };
  collectors = 0;
  recorded_assets = [];
  clock_reads = 0;
  metrics = [];
}

process-Ended_example :
    After (Ended retry_tables retry) (process collectors clock accepts settings retry world)
process-Ended_example =
    process-Ended collectors clock accepts settings retry world (omega arith, tt)

process_wallet-Accounts_example :
    After
      (Accounts retry_tables retry old_wallet
        (Stored collectors clock accepts settings retry old_wallet world))
      (process_wallet collectors clock accepts settings retry old_wallet world)
process_wallet-Accounts_example =
    process_wallet-Accounts collectors clock accepts settings retry old_wallet world
      (omega arith, tt)

retry_plan-IsPlan_example :
    IsPlan retry_tables retry old_wallet settings.enabled_chains
      (retry_plan retry_tables retry old_wallet settings.enabled_chains)
retry_plan-IsPlan_example = retry_plan-IsPlan retry_tables retry old_wallet settings.enabled_chains

-- The retry copies one chain, collects the other one, and succeeds.
retry_succeeds : (process collectors clock accepts settings retry world).0 ≡ ok JobStatus.success
unfolding process process_loaded process_wallets renew_lease finish_job process_wallet gather
    close_wallet gather_retry copy_chain_snapshots copy_chain_snapshot copy_balances
    collect_evm_chains collect_evm_chain write_chain_results write_chain_result write_balances
    renew_job_lease load_for_job retry_plan text_eq text_in text_le strip lower
retry_succeeds = refl
