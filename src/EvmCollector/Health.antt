-- ===== src/EvmCollector/Health.antt =====
-- `health_check` of app/services/evm_collector.py: every endpoint is asked for its chain id.
use py_wallet_snapshot_servi.Prelude.{ℕ, suc, ◌≡◌, ◌⊎◌, Option, none, some, List, [], ◌∷◌, Text}
use py_wallet_snapshot_servi.Enums.{ChainStatus}
use py_wallet_snapshot_servi.ChainConfig.{ChainConfig}
use py_wallet_snapshot_servi.Prices.{Prices}
use py_wallet_snapshot_servi.Failover.{Attempt, RpcAttemptError, returned, rejected, broke}
use py_wallet_snapshot_servi.Rpc.{Rpc, pure, ◌>>=◌}
use py_wallet_snapshot_servi.EvmCollector.{EvmState, EvmCall, verify_chain_id}

pub record Health : Type 0 where
  pub provider : ℕ
  pub status : ChainStatus
  pub error_type : Option Text

module _ {S : Type 0} where
  -- The entry of one endpoint: a rejection is an entry too.
  abbrev pub entry_of : ℕ → S × Attempt (Unit {0}) → S × Attempt Health
  entry_of provider (s, returned _) = (
    s,
    returned (record { provider = provider; status = ChainStatus.success; error_type = none }),
  )
  entry_of provider (s, rejected e) = (
    s,
    returned (record {
      provider = provider;
      status = ChainStatus.failed;
      error_type = some e.error_type;
    }),
  )
  entry_of provider (s, broke e) = (s, broke e)

module _ (prices : Prices) (rpc : Rpc prices.State) where
  abbrev pub check_endpoint : ChainConfig → ℕ → Text → EvmCall prices rpc Health
  check_endpoint config provider url s = entry_of provider (verify_chain_id prices rpc url config s)

  unfoldable pub check_endpoints : ChainConfig → ℕ → List Text → EvmCall prices rpc (List Health)
  unfolding verify_chain_id
  check_endpoints config provider [] = pure []
  check_endpoints config provider (url ∷ urls) = do
    entry ← check_endpoint config provider url
    entries ← check_endpoints config (suc provider) urls
    pure (entry ∷ entries)

  unfoldable pub health_check : List ChainConfig → EvmCall prices rpc (List (Text × List Health))
  unfolding check_endpoints
  health_check [] = pure []
  health_check (config ∷ configs) = do
    entries ← check_endpoints config 0 config.rpc_urls
    results ← health_check configs
    pure ((config.name, entries) ∷ results)

  -- The entry of the endpoint `url`: that it gave the expected chain id, or the type of its error.
  abbrev pub IsEntryOf : ChainConfig → ℕ → Text → Health → Type 0
  IsEntryOf config provider url h =
      (h.provider ≡ provider)
      × ((s : EvmState prices.State) × ((((verify_chain_id prices rpc url config s).1 ≡ returned tt)
              × (h.status ≡ ChainStatus.success)
              × (h.error_type ≡ none))
            ⊎ ((e : RpcAttemptError) × ((verify_chain_id prices rpc url config s).1 ≡ rejected e)
                × (h.status ≡ ChainStatus.failed)
                × (h.error_type ≡ some e.error_type))))

  -- An entry for each endpoint, in order.
  abbrev pub AreEntries : ChainConfig → ℕ → List Text → List Health → Type 0
  AreEntries config index [] [] = Unit
  AreEntries config index (url ∷ urls) (h ∷ hs) =
      IsEntryOf config index url h × AreEntries config (suc index) urls hs
  AreEntries config index _ _ = ⊥

  -- The entries of each chain, in order.
  abbrev pub AreResults : List ChainConfig → List (Text × List Health) → Type 0
  AreResults [] [] = Unit
  AreResults (config ∷ configs) ((name, entries) ∷ results) =
      (name ≡ config.name)
      × AreEntries config 0 config.rpc_urls entries
      × AreResults configs results
  AreResults _ _ = ⊥

  -- The call returns a value of which `P` holds, or another exception of an endpoint's check escapes;
  -- no RpcAttemptError does.
  unfoldable pub Checked : {A : Type 0} → (A → Type 0) → EvmState prices.State × Attempt A → Type 0
  Checked P (s, returned a) = P a
  Checked P (s, rejected e) = ⊥
  Checked P (s, broke e) =
      (config : ChainConfig) × (url : Text) × (s' : EvmState prices.State) × ((verify_chain_id
          prices rpc url config s').1
        ≡ broke e)
