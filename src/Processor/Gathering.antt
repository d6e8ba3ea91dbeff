-- ===== src/Processor/Gathering.antt =====
-- What `_process_wallet` gathers for a wallet, from the plan of a retry and from the collectors.
use mathlib.Core.Bool.{false≢true}
use py_wallet_snapshot_servi.Prelude.{
  ℕ, ◌≡◌, refl, sym, subst, Bool, true, false, List, [], ◌∷◌, Text, text_eq, text_in, if◌then◌else◌,
}
use py_wallet_snapshot_servi.Enums.{wallet_type_value, WalletType}
use py_wallet_snapshot_servi.Metrics.{Metric}
use py_wallet_snapshot_servi.Models.{SnapshotRun, ChainSnapshot, Wallet}
use py_wallet_snapshot_servi.Session.{Tables}
use py_wallet_snapshot_servi.Result.{Result, ok, raise}
use py_wallet_snapshot_servi.Collection.{ChainCollectionResult, Collectors}
use py_wallet_snapshot_servi.PriceHistory.{Identity}
use py_wallet_snapshot_servi.Processor.{Settings, solana_chain, retry_plan}
use py_wallet_snapshot_servi.Processor.Monad.{World, M, pure, ◌>>=◌}
use py_wallet_snapshot_servi.Processor.After.{After, After-of, After-map, continue-After}
use py_wallet_snapshot_servi.Processor.Chains.{
  address_or_empty, called, copy_chain_snapshot, copy_chain_snapshots, collect_manual_wallet,
  collect_evm_chain, collect_evm_chains, collect_solana_wallet,
}
use py_wallet_snapshot_servi.Processor.Wallets.{
  Gathered, unsupported, is_chain_retry, gather_retry, gather_new, collect_solana, gather,
}

-- The list has the one result that a call of a collector returned.
abbrev pub OneResult :
    {S : Type 0}
    → S × Result ChainCollectionResult × List Metric
    → List ChainCollectionResult
    → Type 0
OneResult x rs = (r : ChainCollectionResult) × (x.1 ≡ ok r) × (rs ≡ r ∷ [])

-- Copies leave the collectors as they are.
copy_chain_snapshots-collectors :
    {S : Type 0} (id : ℕ) (cs : List ChainSnapshot) (w : World S)
    → (copy_chain_snapshots id cs w).1.collectors ≡ w.collectors
unfolding copy_chain_snapshots copy_chain_snapshot
copy_chain_snapshots-collectors id [] w = refl
copy_chain_snapshots-collectors id (c ∷ cs) w =
    copy_chain_snapshots-collectors id cs (copy_chain_snapshot id c w).1

module _ (c : Collectors) where
  open c use {State}

  -- The list has the results that the EVM collector returned for the chains, one after the other from
  -- its state `s` on.
  abbrev pub EvmResults : Text → List Text → State → List ChainCollectionResult → Type 0
  EvmResults address [] s rs = rs ≡ []
  EvmResults address (chain ∷ chains) s [] = ⊥
  EvmResults address (chain ∷ chains) s (r ∷ rs) =
      ((c.collect_chain address chain s).1 ≡ ok r)
      × EvmResults address chains (c.collect_chain address chain s).0 rs

  -- A call that returns gives the collector's result and its state.
  Called :
      State × Result ChainCollectionResult × List Metric
      → ChainCollectionResult
      → World State
      → Type 0
  Called x r w = (x.1 ≡ ok r) × (w.collectors ≡ x.0)

  called-Called :
      (w : World State) (x : State × Result ChainCollectionResult × List Metric)
      → After (Called x) (called c w x)
  unfolding Called
  called-Called w (s, ok r, ms) = (refl, refl)
  called-Called w (s, raise e, ms) = tt

  -- A call whose result is put in a list.
  listed-OneResult :
      (x : State × Result ChainCollectionResult × List Metric) (m : M State ChainCollectionResult)
      (w : World State)
      → After (Called x) (m w)
      → After (λ rs _. OneResult x rs) ((do r ← m; pure (r ∷ [])) w)
  unfolding Called
  listed-OneResult x m w h =
      continue-After _ (Called x) (λ rs _. OneResult x rs) (m w) h (λ r w' e. (r, e.0, refl))

  collect_evm_chains-EvmResults :
      (wallet : Wallet) (chains : List Text) (w : World State)
      → After
          (λ rs _. EvmResults (address_or_empty c wallet) chains w.collectors rs)
          (collect_evm_chains c wallet chains w)
  unfolding collect_evm_chains collect_evm_chain Called
  collect_evm_chains-EvmResults wallet [] w = refl
  collect_evm_chains-EvmResults wallet (chain ∷ chains) w =
      let address = address_or_empty c wallet in
      let x = c.collect_chain address chain w.collectors in
      let P : List ChainCollectionResult → World State → Type 0 =
        λ rs _. EvmResults address (chain ∷ chains) w.collectors rs in
      continue-After _ (Called x) P (collect_evm_chain c wallet chain w) (called-Called w x)
        (λ r w' e.
          continue-After _ (λ rs _. EvmResults address chains w'.collectors rs) P
            (collect_evm_chains c wallet chains w') (collect_evm_chains-EvmResults wallet chains w')
            (λ rs w'' h. (e.0, subst (λ s. EvmResults address chains s rs) e.1 h)))

  module _ (settings : Settings) (job : SnapshotRun) (wallet : Wallet) (t : Tables)
      (s : State) where
    -- What was carried over and collected, given whether the wallet is a manual, an EVM or a Solana
    -- one and whether the job is a retry of failed chains.
    abbrev pub GatheredBy : Bool → Bool → Bool → Bool → Gathered → Type 0
    GatheredBy true _ _ _ g =
        (g.carried ≡ []) × OneResult (c.collect_manual_wallet wallet.id t s) g.results
    GatheredBy false true _ true g =
        let (carried, again) = retry_plan t job wallet settings.enabled_chains in
        (g.carried ≡ carried) × EvmResults (address_or_empty c wallet) again s g.results
    GatheredBy false true _ false g =
        (g.carried ≡ [])
        × EvmResults (address_or_empty c wallet) settings.enabled_chains s g.results
    GatheredBy false false true true g =
        let (carried, again) = retry_plan t job wallet (solana_chain ∷ []) in
        (g.carried ≡ carried)
        × ((text_in solana_chain again ≡ true
              → OneResult (c.collect_solana_wallet (address_or_empty c wallet) s) g.results)
            × (text_in solana_chain again ≡ false → g.results ≡ []))
    GatheredBy false false true false g =
        (g.carried ≡ [])
        × OneResult (c.collect_solana_wallet (address_or_empty c wallet) s) g.results
    GatheredBy false false false _ g = (g.carried ≡ []) × (g.results ≡ unsupported wallet ∷ [])

    abbrev pub IsGathered : Gathered → Type 0
    IsGathered =
        GatheredBy (text_eq wallet.wallet_type (wallet_type_value WalletType.manual))
          (text_eq wallet.wallet_type (wallet_type_value WalletType.evm))
          (text_eq wallet.wallet_type (wallet_type_value WalletType.solana)) (is_chain_retry job)

module _ (c : Collectors) (time : ℕ → ℕ) (rejects : Identity → Bool) (settings : Settings) where
  open c use {State}

  -- A new collection carries nothing over.
  gather_new-results :
      (R : List ChainCollectionResult → Type 0) (m : M State (List ChainCollectionResult))
      (w : World State)
      → After (λ rs _. R rs) (m w)
      → After
          (λ (g : Gathered) _. (g.carried ≡ []) × R g.results)
          (gather_new c time rejects settings m w)
  unfolding gather_new
  gather_new-results R m w h =
      continue-After _ (λ rs _. R rs) (λ (g : Gathered) _. (g.carried ≡ []) × R g.results) (m w) h
        (λ rs w' r. (refl, r))

  -- A retry carries over what the plan says and collects what it says.
  gather_retry-results :
      (R : List Text → State → List ChainCollectionResult → Type 0) (job : SnapshotRun)
      (wallet : Wallet) (id : ℕ) (allowed : List Text)
      (collect : List Text → M State (List ChainCollectionResult)) (w : World State)
      → ((chains : List Text) (w' : World State)
          → After (λ rs _. R chains w'.collectors rs) (collect chains w'))
      → let (carried, again) = retry_plan w.db.current job wallet allowed in
        After
          (λ (g : Gathered) _. (g.carried ≡ carried) × R again w.collectors g.results)
          (gather_retry c time rejects settings job wallet id allowed collect w)
  unfolding gather_retry
  gather_retry-results R job wallet id allowed collect w h =
      let (carried, again) = retry_plan w.db.current job wallet allowed in
      let P : Gathered → World State → Type 0 =
        λ g _. (g.carried ≡ carried) × R again w.collectors g.results in
      continue-After _ (λ _ (w' : World State). w'.collectors ≡ w.collectors) P
        (copy_chain_snapshots id carried w)
        (After-of (λ (w' : World State). w'.collectors ≡ w.collectors)
          (copy_chain_snapshots id carried w) (copy_chain_snapshots-collectors id carried w))
        (λ _ w' same.
          continue-After _ (λ rs _. R again w'.collectors rs) P (collect again w') (h again w')
            (λ rs w'' r. (refl, subst (λ s. R again s rs) same r)))

  collect_solana-OneResult :
      (wallet : Wallet) (w : World State)
      → After
          (λ rs _. OneResult (c.collect_solana_wallet (address_or_empty c wallet) w.collectors) rs)
          (collect_solana c time rejects settings wallet w)
  unfolding collect_solana collect_solana_wallet
  collect_solana-OneResult wallet w =
      let x = c.collect_solana_wallet (address_or_empty c wallet) w.collectors in
      listed-OneResult c x (collect_solana_wallet c wallet) w (called-Called c w x)

  -- The results of a retry of a Solana wallet.
  abbrev SolanaResults : Wallet → List Text → State → List ChainCollectionResult → Type 0
  SolanaResults wallet chains s rs =
      (text_in solana_chain chains ≡ true
        → OneResult (c.collect_solana_wallet (address_or_empty c wallet) s) rs)
      × (text_in solana_chain chains ≡ false → rs ≡ [])

  solana_again-SolanaResults :
      (wallet : Wallet) (chains : List Text) (w : World State)
      → After
          (λ rs _. SolanaResults wallet chains w.collectors rs)
          ((if text_in solana_chain chains
              then collect_solana c time rejects settings wallet
              else pure [])
            w)
  solana_again-SolanaResults wallet chains w = split (text_in solana_chain chains)
    where
      split :
          (b : Bool)
          → After
              (λ rs _.
                (b ≡ true
                  → OneResult (c.collect_solana_wallet (address_or_empty c wallet) w.collectors) rs)
                × (b ≡ false → rs ≡ []))
              ((if b then collect_solana c time rejects settings wallet else pure []) w)
      split true =
          After-map _ _ (collect_solana c time rejects settings wallet w)
            (λ rs w' r. ((λ _. r), λ e. absurd (false≢true (sym e))))
            (collect_solana-OneResult wallet w)
      split false = ((λ e. absurd (false≢true e)), λ _. refl)

  pub gather-IsGathered :
      (job : SnapshotRun) (wallet : Wallet) (id : ℕ) (w : World State)
      → After
          (λ g _. IsGathered c settings job wallet w.db.current w.collectors g)
          (gather c time rejects settings job wallet id w)
  unfolding gather collect_manual_wallet
  gather-IsGathered job wallet id w =
      split (text_eq wallet.wallet_type (wallet_type_value WalletType.manual))
        (text_eq wallet.wallet_type (wallet_type_value WalletType.evm))
        (text_eq wallet.wallet_type (wallet_type_value WalletType.solana)) (is_chain_retry job)
    where
      address : Text
      address = address_or_empty c wallet

      solana : M State (List ChainCollectionResult)
      solana = collect_solana c time rejects settings wallet

      split :
          (manual evm solana_wallet retry : Bool)
          → After
              (λ g _.
                GatheredBy c settings job wallet w.db.current w.collectors manual evm solana_wallet
                  retry g)
              ((if manual
                  then gather_new c time rejects settings
                      (do result ← collect_manual_wallet c wallet; pure (result ∷ []))
                  else if evm
                  then (if retry
                      then gather_retry c time rejects settings job wallet id
                          settings.enabled_chains
                          (collect_evm_chains c wallet)
                      else gather_new c time rejects settings
                          (collect_evm_chains c wallet settings.enabled_chains))
                  else if solana_wallet
                  then (if retry
                      then gather_retry c time rejects settings job wallet id
                          (solana_chain ∷ [])
                          (λ chains. if text_in solana_chain chains then solana else pure [])
                      else gather_new c time rejects settings solana)
                  else pure (record { carried = []; results = unsupported wallet ∷ [] }))
                w)
      split true _ _ _ =
          let x = c.collect_manual_wallet wallet.id w.db.current w.collectors in
          gather_new-results (OneResult x)
            (do result ← collect_manual_wallet c wallet; pure (result ∷ [])) w
            (listed-OneResult c x (collect_manual_wallet c wallet) w (called-Called c w x))
      split false true _ true =
          gather_retry-results (λ chains s rs. EvmResults c address chains s rs) job wallet id
            settings.enabled_chains (collect_evm_chains c wallet) w
            (collect_evm_chains-EvmResults c wallet)
      split false true _ false =
          gather_new-results (EvmResults c address settings.enabled_chains w.collectors)
            (collect_evm_chains c wallet settings.enabled_chains) w
            (collect_evm_chains-EvmResults c wallet settings.enabled_chains w)
      split false false true true =
          gather_retry-results (SolanaResults wallet) job wallet id (solana_chain ∷ [])
            (λ chains. if text_in solana_chain chains then solana else pure []) w
            (solana_again-SolanaResults wallet)
      split false false true false =
          gather_new-results (OneResult (c.collect_solana_wallet address w.collectors)) solana w
            (collect_solana-OneResult wallet w)
      split false false false _ = (refl, refl)
