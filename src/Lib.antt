-- ===== src/Lib.antt =====
-- The snapshot service (app/): jobs wait in the table `snapshot_runs`, a worker claims one under a
-- lease, collects the balances of its wallets chain by chain, and stores what it found.
--
-- Parts, and where they stand:
--   Enums, Models        app/enums.py, app/models/snapshots.py, app/models/external.py: the
--                        enumerations as data types and the tables' rows as records. A wallet type is
--                        text, as in the table, for a row may hold any.
--   Decimal              Python's decimal arithmetic in the default context (28 digits, half to even)
--                        as app/services/snapshot_processor.py and the collectors use it: sums, products,
--                        and quotients by powers of ten.
--   Session              app/db.py: a session is the tables as committed and as the transaction sees
--                        them; `commit` and `rollback` are the session's. A sequence of identifiers is
--                        a counter beside its table.
--   Metrics              app/metrics.py: the counters, as a list of the increments in order.
--   Result               exceptions that cross a component's boundary.
--   Claim                app/worker/claim.py: `recover_stale_running_jobs`, `renew_job_lease`,
--                        `claim_next_pending_job`. `locked` says which rows SKIP LOCKED passes over,
--                        since other transactions hold them.
--   Queue                the queue as a whole: what a row may become and which rows may stand together.
--   Jobs                 app/services/job_service.py and the payload of app/schemas/jobs.py. The
--                        advisory locks are why a call is one step here.
--   WalletLoader         app/services/wallet_loader.py.
--   PriceHistory         app/services/price_history.py. `rejects` says for which asset the
--                        database refuses the write, in which case the savepoint is undone.
--   Collection           the results of the collectors, and the collectors as the processor calls them.
--   Processor            app/services/snapshot_processor.py. Its modules: Monad (a call as a step from a
--                        world, that is session, collectors, clock and counters, to a result or an
--                        exception and a world), Chains (`_copy_chain_snapshot`,
--                        `_write_chain_result`, the calls of the collectors), Wallets
--                        (`_process_wallet`), Jobs (`process` and the lease); After, Rows, Copied,
--                        Gathering, Accounts, Plan, Summed and Ending hold the proofs.
--   ChainConfig          app/services/chain_config.py, with the settings of app/config.py that it reads.
--   Scheduler            app/scheduler/loop.py: `create_scheduled_jobs`.
--   ManualCollector      app/services/manual_collector.py, with the price service as an interface.
--   RetryPolicy          app/services/retry_policy.py.
--   Prices               the price service as its clients call it.
--   PriceService         app/services/price_service.py; Sources (where prices come from) and Repeats (the
--                        cache) hold its theorems.
--   Json                 the JSON values of responses.
--   Failover             the loop over the RPC endpoints that `collect_chain` of
--                        app/services/evm_collector.py and `collect_wallet` of
--                        app/services/solana_collector.py share: which endpoints are free, how long one
--                        that failed is left out, what is counted.
--   Rpc                  the HTTP library as an interface and calls that may raise; Evm and Solana are the
--                        `_rpc_call` of the two collectors.
--   EvmCollector         app/services/evm_collector.py: the balances of a chain, and the health check.
--   SolanaAccounts       app/services/solana_collector.py: the token accounts of a response.
--   SolanaCollector      app/services/solana_collector.py: addresses and the balances of a wallet.
--   Worker               app/worker/loop.py: one round of the worker, and the gauges of the queue.
--   Fleet                the three collectors of a worker with one price service, as the interface that the
--                        processor calls.
--   Api                  app/api/internal_jobs.py and the debug requests of app/api/debug.py for jobs.
--   Lifecycle            the transactions of the API, the scheduler and the workers in any order. A
--                        worker's write of a job's end is a step whatever the row says by then.
--   Access               app/config.py (`validate_internal_api_token`) and app/api/auth.py.
--   Tests                the theorems at concrete inputs, and runs.
--
-- Times are natural numbers, readings of the clock are a parameter: seconds in the tables, nanoseconds
-- in the price cache and the rotation of endpoints. Loops of the modelled code run over a list that is
-- at hand, so the definitions recurse on lists; counts and prints of digits and the count of bytes
-- have the number itself as fuel, which is enough as each step divides it by ten or by 256.
--
-- Not modelled: log lines, heartbeats and durations; the routing and the serialisation of the HTTP
-- interface (app/api, app/main.py), its health and metrics requests, and the requests that only call
-- the EVM collector; the migrations (alembic); the tables' column widths and the rounding of stored
-- numbers to a column's scale; errors of the database besides the refused writes of prices; the HTTP
-- library, which is a parameter of the collectors and of the price service; the loops around a round of
-- the worker and of the scheduler, which sleep, count errors and log.
pub mod Prelude
pub mod Enums
pub mod Failover
pub mod SolanaAccounts
pub mod SolanaCollector
pub mod EvmCollector
pub mod Decimal
pub mod Models
pub mod Json
pub mod Result
pub mod Rpc
pub mod Metrics
pub mod Session
pub mod Claim
pub mod Jobs
pub mod Queue
pub mod RetryPolicy
pub mod Api
pub mod Fleet
pub mod Lifecycle
pub mod Worker
pub mod WalletLoader
pub mod Tests
pub mod Collection
pub mod PriceHistory
pub mod PriceService
pub mod Prices
pub mod Processor
pub mod ChainConfig
pub mod Scheduler
pub mod Access
pub mod ManualCollector
