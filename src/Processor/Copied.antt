-- ===== src/Processor/Copied.antt =====
-- What `_process_wallet` adds to the tables before it writes new results: the copies of a retry.
use py_wallet_snapshot_servi.Prelude.{
  ℕ, ◌≡◌, refl, ◌∙◌, ap, Bool, true, false, List, [], ◌∷◌, Text, text_eq, text_in, if◌then◌else◌,
}
use py_wallet_snapshot_servi.Enums.{wallet_type_value, WalletType}
use py_wallet_snapshot_servi.Models.{SnapshotRun, Wallet}
use py_wallet_snapshot_servi.Session.{Session}
use py_wallet_snapshot_servi.Collection.{ChainCollectionResult, Collectors}
use py_wallet_snapshot_servi.PriceHistory.{Identity}
use py_wallet_snapshot_servi.Processor.{Settings, solana_chain, retry_plan}
use py_wallet_snapshot_servi.Processor.Monad.{World, M, pure, ◌>>=◌}
use py_wallet_snapshot_servi.Processor.After.{After, After-of, continue-After}
use py_wallet_snapshot_servi.Processor.Chains.{
  copy_chain_snapshots, collect_manual_wallet, collect_evm_chains, collect_solana_wallet,
  collect_evm_chain,
}
use py_wallet_snapshot_servi.Processor.Rows.{
  Adds, Frames, Frames-refl, Adds-nil, Adds-framed, chain_states, chain_totals,
  copy_chain_snapshots-Adds,
}
use py_wallet_snapshot_servi.Processor.Wallets.{
  Gathered, is_chain_retry, gather_retry, gather_new, collect_solana, gather,
}

module _ {S : Type 0} where
  -- The database is as it was.
  abbrev SameDb : {A : Type 0} → World S → A → World S → Type 0
  SameDb w _ w' = w'.db ≡ w.db

  -- The copies of the carried chains are added.
  abbrev pub Copied : ℕ → World S → Gathered → World S → Type 0
  Copied id w g w' =
      Adds id (chain_states g.carried) (chain_totals g.carried) w.db.current w'.db.current

  SameDb-Frames : (w w' : World S) → w'.db ≡ w.db → Frames w.db.current w'.db.current
  SameDb-Frames w w' e = record {
    same_chain_snapshots = ap (λ (d : Session). d.current.chain_snapshots) e;
    same_wallet_snapshots = ap (λ (d : Session). d.current.wallet_snapshots) e;
    same_runs = ap (λ (d : Session). d.current.runs) e;
    same_next = ap (λ (d : Session). d.current.next_wallet_snapshot) e;
  }

  -- What holds on both branches.
  branch :
      {A : Type 0} (P : A → World S → Type 0) (b : Bool) (m n : M S A) (w : World S)
      → After P (m w)
      → After P (n w)
      → After P ((if b then m else n) w)
  branch P true m n w p q = p
  branch P false m n w p q = q

module _ (c : Collectors) (time : ℕ → ℕ) (rejects : Identity → Bool) (settings : Settings) where
  open c use {State}

  collect_evm_chain-SameDb :
      (wallet : Wallet) (chain : Text) (w : World State)
      → After (SameDb w) (collect_evm_chain c wallet chain w)
  unfolding collect_evm_chain
  collect_evm_chain-SameDb wallet chain w =
      After-of (SameDb w tt) (collect_evm_chain c wallet chain w) refl

  collect_solana_wallet-SameDb :
      (wallet : Wallet) (w : World State) → After (SameDb w) (collect_solana_wallet c wallet w)
  unfolding collect_solana_wallet
  collect_solana_wallet-SameDb wallet w =
      After-of (SameDb w tt) (collect_solana_wallet c wallet w) refl

  collect_manual_wallet-SameDb :
      (wallet : Wallet) (w : World State) → After (SameDb w) (collect_manual_wallet c wallet w)
  unfolding collect_manual_wallet
  collect_manual_wallet-SameDb wallet w =
      After-of (SameDb w tt) (collect_manual_wallet c wallet w) refl

  collect_evm_chains-SameDb :
      (wallet : Wallet) (chains : List Text) (w : World State)
      → After (SameDb w) (collect_evm_chains c wallet chains w)
  unfolding collect_evm_chains
  collect_evm_chains-SameDb wallet [] w = refl
  collect_evm_chains-SameDb wallet (chain ∷ chains) w =
      continue-After _ (SameDb w) (SameDb w) (collect_evm_chain c wallet chain w)
        (collect_evm_chain-SameDb wallet chain w)
        (λ r w' e.
          continue-After _ (SameDb w') (SameDb w) (collect_evm_chains c wallet chains w')
            (collect_evm_chains-SameDb wallet chains w') (λ rs w'' e'. e' ∙ e))

  -- A result as a list of one.
  listed-SameDb :
      (m : M State ChainCollectionResult) (w : World State)
      → After (SameDb w) (m w)
      → After (SameDb w) ((do r ← m; pure (r ∷ [])) w)
  listed-SameDb m w h = continue-After _ (SameDb w) (SameDb w) (m w) h (λ r w' e. e)

  gather_new-Copied :
      (id : ℕ) (m : M State (List ChainCollectionResult)) (w : World State)
      → After (SameDb w) (m w)
      → After (Copied id w) (gather_new c time rejects settings m w)
  unfolding gather_new
  gather_new-Copied id m w h =
      continue-After _ (SameDb w) (Copied id w) (m w) h
        (λ rs w' e. Adds-nil id w.db.current w'.db.current (SameDb-Frames w w' e))

  gather_retry-Copied :
      (job : SnapshotRun) (wallet : Wallet) (id : ℕ) (allowed : List Text)
      (collect : List Text → M State (List ChainCollectionResult)) (w : World State)
      → ((chains : List Text) (w' : World State) → After (SameDb w') (collect chains w'))
      → After (Copied id w) (gather_retry c time rejects settings job wallet id allowed collect w)
  unfolding gather_retry
  gather_retry-Copied job wallet id allowed collect w h =
      let (carried, chains) = retry_plan w.db.current job wallet allowed in
      continue-After _
        (λ _ w'. Adds id (chain_states carried) (chain_totals carried) w.db.current w'.db.current)
        (Copied id w) (copy_chain_snapshots id carried w)
        (After-of
          (λ w'. Adds id (chain_states carried) (chain_totals carried) w.db.current w'.db.current)
          (copy_chain_snapshots id carried w) (copy_chain_snapshots-Adds id carried w))
        (λ _ w' a.
          continue-After _ (SameDb w') (Copied id w) (collect chains w') (h chains w') (λ rs w'' e.
            Adds-framed id (chain_states carried) (chain_totals carried) w.db.current w'.db.current
              w''.db.current a (SameDb-Frames w' w'' e)))

  pub gather-Copied :
      (job : SnapshotRun) (wallet : Wallet) (id : ℕ) (w : World State)
      → After (Copied id w) (gather c time rejects settings job wallet id w)
  unfolding gather collect_solana
  gather-Copied job wallet id w =
      let copied = Copied id w in
      let is_manual = text_eq wallet.wallet_type (wallet_type_value WalletType.manual) in
      let manual = collect_manual_wallet c wallet in
      let evm = collect_evm_chains c wallet in
      let solana = collect_solana_wallet c wallet in
      branch copied is_manual _ _ w
        (gather_new-Copied id (do r ← manual; pure (r ∷ [])) w
          (listed-SameDb manual w (collect_manual_wallet-SameDb wallet w)))
        (branch copied (text_eq wallet.wallet_type (wallet_type_value WalletType.evm)) _ _ w
          (branch copied (is_chain_retry job) _ _ w
            (gather_retry-Copied job wallet id settings.enabled_chains evm w
              (collect_evm_chains-SameDb wallet))
            (gather_new-Copied id (evm settings.enabled_chains) w
              (collect_evm_chains-SameDb wallet settings.enabled_chains w)))
          (branch copied (text_eq wallet.wallet_type (wallet_type_value WalletType.solana)) _ _ w
            (branch copied (is_chain_retry job) _ _ w
              (gather_retry-Copied job wallet id (solana_chain ∷ [])
                (λ chains.
                  if text_in solana_chain chains then (do r ← solana; pure (r ∷ [])) else pure [])
                w
                (λ chains w'.
                  branch (SameDb w') (text_in solana_chain chains) _ _ w'
                    (listed-SameDb solana w' (collect_solana_wallet-SameDb wallet w')) refl))
              (gather_new-Copied id (do r ← solana; pure (r ∷ [])) w
                (listed-SameDb solana w (collect_solana_wallet-SameDb wallet w))))
            (Adds-nil id w.db.current w.db.current (Frames-refl w.db.current))))
