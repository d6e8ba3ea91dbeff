-- ===== src/Fleet.antt =====
-- The collectors of a worker, as app/worker/loop.py and app/services/snapshot_processor.py build them:
-- the EVM, the Solana and the manual collector share one price service.
use py_wallet_snapshot_servi.Prelude.{ℕ, List, [], Text, ℤ, Dict}
use py_wallet_snapshot_servi.Result.{Result, ok}
use py_wallet_snapshot_servi.Metrics.{Metric}
use py_wallet_snapshot_servi.Session.{Tables}
use py_wallet_snapshot_servi.ChainConfig.{ChainConfig}
use py_wallet_snapshot_servi.Collection.{ChainCollectionResult, Collectors}
use py_wallet_snapshot_servi.Prices.{Prices}
use py_wallet_snapshot_servi.Failover.{Blocks}
use py_wallet_snapshot_servi.Rpc.{Rpc}
use py_wallet_snapshot_servi.EvmCollector
use py_wallet_snapshot_servi.SolanaAccounts.{SplTokenConfig}
use py_wallet_snapshot_servi.SolanaCollector
use py_wallet_snapshot_servi.ManualCollector

-- The state of the three: the manual collector has none of its own.
pub record FleetState (S : Type 0) : Type 0 where
  pub prices : S
  pub evm_blocks : Blocks
  pub validated_chain_ids : List (Text × ℕ)
  pub token_decimals : Dict (Text × Text) ℤ
  pub solana_blocks : Blocks

pub record FleetSettings : Type 0 where
  pub chain_configs : List ChainConfig
  pub solana_rpc_urls : List Text
  pub chain_timeout_seconds : ℕ
  pub rpc_cooldown_seconds : ℕ
  pub tokens : List SplTokenConfig

module _ (p : Prices) (rpc : Rpc p.State) (st : FleetSettings) where
  abbrev pub evm_part : FleetState p.State → EvmCollector.State p rpc
  evm_part f = record {
    blocks = f.evm_blocks;
    inner = record {
      validated_chain_ids = f.validated_chain_ids;
      token_decimals = f.token_decimals;
      outside = f.prices;
    };
  }

  abbrev pub with_evm_part : EvmCollector.State p rpc → FleetState p.State → FleetState p.State
  with_evm_part r f = record f {
    prices = r.inner.outside;
    evm_blocks = r.blocks;
    validated_chain_ids = r.inner.validated_chain_ids;
    token_decimals = r.inner.token_decimals;
  }

  -- A call's answer, with the state put back.
  abbrev pub Answer : Type 0
  Answer = FleetState p.State × Result ChainCollectionResult × List Metric

  abbrev pub collect_chain : Text → Text → FleetState p.State → Answer
  collect_chain address chain f =
      let (r, result, metrics) =
        EvmCollector.collect_chain p rpc st.chain_configs st.rpc_cooldown_seconds address chain
          (evm_part f) in
      (with_evm_part r f, result, metrics)

  abbrev pub collect_solana : Text → FleetState p.State → Answer
  collect_solana address f =
      let (r, result, metrics) =
        SolanaCollector.collect_wallet p rpc st.chain_timeout_seconds st.tokens st.solana_rpc_urls
          st.rpc_cooldown_seconds address (record { blocks = f.solana_blocks; inner = f.prices }) in
      (record f { prices = r.inner; solana_blocks = r.blocks }, result, metrics)

  abbrev pub collect_manual : ℕ → Tables → FleetState p.State → Answer
  collect_manual wallet_id t f =
      let (s, result) = ManualCollector.collect_wallet p wallet_id t f.prices in
      (record f { prices = s }, ok result, [])

  abbrev pub collectors_of : Collectors
  collectors_of = record {
    State = FleetState p.State;
    collect_chain = collect_chain;
    collect_solana_wallet = collect_solana;
    collect_manual_wallet = collect_manual;
  }
