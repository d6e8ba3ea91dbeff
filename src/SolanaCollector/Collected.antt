-- ===== src/SolanaCollector/Collected.antt =====
-- The results of app/services/solana_collector.py: what a wallet that was read holds.
use py_wallet_snapshot_servi.Prelude.{
  ℕ, refl, Bool, true, false, Option, some, List, [], ◌∷◌, map, if◌then◌else◌, Text, codes,
}
use py_wallet_snapshot_servi.Enums.{ErrorType, error_type_value}
use py_wallet_snapshot_servi.Decimal.{of_ℕ, ten_to, ◌÷◌}
use py_wallet_snapshot_servi.Collection.{ChainCollectionResult}
use py_wallet_snapshot_servi.Metrics.{Metric}
use py_wallet_snapshot_servi.Result.{Result, ok}
use py_wallet_snapshot_servi.Prices.{Prices}
use py_wallet_snapshot_servi.Failover.{failed}
use py_wallet_snapshot_servi.Failover.Results.{Answers, rotate-Answers}
use py_wallet_snapshot_servi.Rpc.{Rpc}
use py_wallet_snapshot_servi.Rpc.Returned.{
  Returned, pure-Returned, Returned-mono, continue_attempt-Returned, continue_attempt-Returned_any,
}
use py_wallet_snapshot_servi.Rpc.Solana.{rpc_call}
use py_wallet_snapshot_servi.EvmCollector.{amount_of, or_crash, collected}
use py_wallet_snapshot_servi.EvmCollector.Collected.{
  AreBalances, IsCollected, IsFailed, failed-IsFailed, valued-worth, total_value-added,
}
use py_wallet_snapshot_servi.SolanaAccounts.{
  SplTokenConfig, Amounts, amount_at, parse_token_accounts, result_value_int,
}
use py_wallet_snapshot_servi.SolanaCollector.{
  State, solana_chain, lamports_per_sol, native_balance, token_balance, balance_params,
  accounts_params, price_of, collect_tokens, collect_from_endpoint, cooling_message, collect_wallet,
  is_valid_address,
}

abbrev pub mints_of : List SplTokenConfig → List (Option Text)
mints_of = map λ (t : SplTokenConfig). some t.mint

-- What an answer is: failed, or the wallet's balances.
pub data IsAnswer (tokens : List SplTokenConfig) (result : ChainCollectionResult) : Type 0 where
  is_error : IsFailed solana_chain result → IsAnswer tokens result
  is_read : IsCollected solana_chain (mints_of tokens) result → IsAnswer tokens result

module _ (prices : Prices) (rpc : Rpc prices.State) (timeout_seconds : ℕ)
    (tokens : List SplTokenConfig) where
  collect_tokens-Returned :
      (some_tokens : List SplTokenConfig) (amounts : Amounts) (s : prices.State)
      → Returned
          (AreBalances (mints_of some_tokens))
          (collect_tokens prices rpc timeout_seconds tokens some_tokens amounts s)
  unfolding collect_tokens
  collect_tokens-Returned [] amounts s =
      pure-Returned (AreBalances []) [] s (record { ordered = refl; valued_all = tt })
  collect_tokens-Returned (token ∷ later) amounts s =
      let P = AreBalances (mints_of (token ∷ later)) in
      continue_attempt-Returned_any _ P
        (or_crash (amount_of (amount_at token.mint amounts) (ten_to token.decimals)) s)
        λ amount s.
          continue_attempt-Returned_any _ P
            (price_of prices rpc timeout_seconds tokens token.symbol s)
            λ priced s.
              continue_attempt-Returned _ (AreBalances (mints_of later)) P
                (collect_tokens prices rpc timeout_seconds tokens later amounts s)
                (collect_tokens-Returned later amounts s)
                λ bs s' q.
                  pure-Returned P (token_balance token amount priced.0 priced.1 ∷ bs) s' (record {
                    ordered = rw q.ordered refl;
                    valued_all = (valued-worth amount priced.0, q.valued_all);
                  })

  abbrev IsReading : ChainCollectionResult → Type 0
  IsReading result =
      (latency : ℕ)
      → IsCollected solana_chain (mints_of tokens) (record result { rpc_latency_ms = some latency })

  collect_from_endpoint-Returned :
      (address url : Text) (s : prices.State)
      → Returned IsReading (collect_from_endpoint prices rpc timeout_seconds tokens address url s)
  unfolding collect_from_endpoint
  collect_from_endpoint-Returned address url s =
      continue_attempt-Returned_any _ IsReading
        (rpc_call rpc url timeout_seconds (codes "getBalance") (balance_params address) s)
        λ balance_result s.
          continue_attempt-Returned_any _ IsReading
            (result_value_int balance_result (codes "getBalance") s)
            λ lamports s.
              continue_attempt-Returned_any _ IsReading
                (rpc_call rpc url timeout_seconds (codes "getTokenAccountsByOwner")
                  (accounts_params address) s)
                λ token_result s.
                  continue_attempt-Returned_any _ IsReading
                    (parse_token_accounts tokens token_result s)
                    λ amounts s.
                      continue_attempt-Returned_any _ IsReading
                        (price_of prices rpc timeout_seconds tokens (codes "SOL") s)
                        λ priced s.
                          continue_attempt-Returned _ (AreBalances (mints_of tokens)) IsReading
                            (collect_tokens prices rpc timeout_seconds tokens tokens amounts s)
                            (collect_tokens-Returned tokens amounts s)
                            λ bs s' q.
                              pure-Returned IsReading
                                (collected solana_chain (of_ℕ lamports ÷ lamports_per_sol) (
                                  native_balance (of_ℕ lamports ÷ lamports_per_sol) priced.0
                                    priced.1
                                  ∷ bs))
                                s'
                                λ latency. record {
                                  of_chain = refl;
                                  succeeded = refl;
                                  without_error = refl;
                                  addresses = rw q.ordered refl;
                                  native = refl;
                                  values = (
                                    valued-worth (of_ℕ lamports ÷ lamports_per_sol) priced.0,
                                    q.valued_all,
                                  );
                                  total = total_value-added (
                                      native_balance (of_ℕ lamports ÷ lamports_per_sol) priced.0
                                        priced.1
                                      ∷ bs);
                                }

  -- Unless it raises, collect_wallet answers, for any address, endpoints, prices and state: a failure
  -- with an error, no balance and a total of zero; or the wallet with its SOL, one balance for each
  -- tracked token in order, each with its amount at its price as value, and the sum of these as total.
  pub collect_wallet-IsAnswer :
      (rpc_urls : List Text) (cooldown_seconds : ℕ) (address : Text)
      (r : State prices rpc timeout_seconds tokens)
      → let (r', result, metrics) =
          collect_wallet prices rpc timeout_seconds tokens rpc_urls cooldown_seconds address r in
        Answers (IsAnswer tokens) (r', result)
  unfolding collect_wallet
  collect_wallet-IsAnswer rpc_urls cooldown_seconds address r = split (is_valid_address address) _ (
      rotate-Answers rpc.clocks solana_chain cooldown_seconds
        (collect_from_endpoint prices rpc timeout_seconds tokens address) (IsAnswer tokens)
        (λ t m. is_error (failed-IsFailed solana_chain t m))
        (λ url s.
          Returned-mono IsReading
            (λ result.
              (latency : ℕ) → IsAnswer tokens (record result { rpc_latency_ms = some latency }))
            (collect_from_endpoint prices rpc timeout_seconds tokens address url s)
            (collect_from_endpoint-Returned address url s) λ result h latency. is_read (h latency))
        (codes "Solana RPC URL is not configured")
        (cooling_message prices rpc timeout_seconds tokens) rpc_urls r)
    where
      Outcome : Type 0
      Outcome = State prices rpc timeout_seconds tokens × Result ChainCollectionResult × List Metric

      Good : Outcome → Type 0
      Good (r', result, metrics) = Answers (IsAnswer tokens) (r', result)

      refused : Outcome
      refused = (
        r,
        ok (
            failed solana_chain (error_type_value ErrorType.invalid_address)
              (codes "invalid Solana address")),
        [],
      )

      split : (b : Bool) (run : Outcome) → Good run → Good (if b then run else refused)
      split true run h = h
      split false run h = is_error (failed-IsFailed solana_chain _ _)
