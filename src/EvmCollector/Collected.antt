-- ===== src/EvmCollector/Collected.antt =====
-- The results of app/services/evm_collector.py: what a chain that was read holds.
use py_wallet_snapshot_servi.Prelude.{
  ℕ, ◌^◌, ◌≡◌, refl, Bool, true, false, Option, none, some, List, [], ◌∷◌, foldl, ◌++◌, map, All,
  if◌then◌else◌, Text, codes, lower, lookup,
}
use py_wallet_snapshot_servi.Enums.{ChainStatus, ErrorType, error_type_value}
use py_wallet_snapshot_servi.Decimal.{Decimal, zero_usd, of_ℕ, of_ℤ, ten_to, ◌⊞◌, ◌⊠◌, ◌÷◌}
use py_wallet_snapshot_servi.ChainConfig.{ChainConfig, TokenConfig, get_config}
use py_wallet_snapshot_servi.Collection.{AssetBalance, ChainCollectionResult}
use py_wallet_snapshot_servi.Result.{Result, ok}
use py_wallet_snapshot_servi.Metrics.{Metric}
use py_wallet_snapshot_servi.Prices.{Prices}
use py_wallet_snapshot_servi.Failover.{failed}
use py_wallet_snapshot_servi.Failover.Results.{Answers, rotate-Answers}
use py_wallet_snapshot_servi.Rpc.{Rpc}
use py_wallet_snapshot_servi.Rpc.Returned.{
  Returned, pure-Returned, continue_attempt-Returned, continue_attempt-Returned_any, Returned-mono,
}
use py_wallet_snapshot_servi.EvmCollector.{
  EvmState, State, valued, total_value, collected, native_balance, token_balance, collect_token,
  collect_tokens, collect_from_endpoint, collect_chain, collect_configured, cooling_message,
  decimals_of, same_token, outside_call, eth_call, at_latest, padded_address, or_crash, amount_of,
  token_price, native_price, is_valid_address, clocks_of, verify_chain_id,
}
use py_wallet_snapshot_servi.Rpc.Evm.{rpc_int}
use py_wallet_snapshot_servi.Json.{Json}

-- The value of an amount at a price, and zero without one.
abbrev pub worth : Decimal → Option Decimal → Decimal
worth amount none = zero_usd
worth amount (some price) = amount ⊠ price

abbrev pub HasValue : AssetBalance → Type 0
HasValue b = b.value_usd ≡ worth b.amount b.price_usd

-- The values added one after another.
unfoldable pub added_values : Decimal → List AssetBalance → Decimal
added_values total [] = total
added_values total (b ∷ bs) = added_values (total ⊞ b.value_usd) bs

pub valued-worth :
    (amount : Decimal) (price : Option Decimal) → valued amount price ≡ worth amount price
valued-worth amount none = refl
valued-worth amount (some price) = refl

foldl-added_values :
    (total : Decimal) (bs : List AssetBalance)
    → foldl (λ t (b : AssetBalance). t ⊞ b.value_usd) total bs ≡ added_values total bs
unfolding added_values
foldl-added_values total [] = refl
foldl-added_values total (b ∷ bs) = foldl-added_values (total ⊞ b.value_usd) bs

pub total_value-added : (bs : List AssetBalance) → total_value bs ≡ added_values zero_usd bs
total_value-added bs = foldl-added_values zero_usd bs

abbrev some_amount : List AssetBalance → Option Decimal
some_amount [] = none
some_amount (b ∷ bs) = some b.amount

-- A chain that was read: the native balance first, then one balance for each address of `tokens` in
-- order, each with its value; the total is the sum of the values.
pub record IsCollected (chain : Text) (tokens : List (Option Text)) (result : ChainCollectionResult)
    : Type 0 where
  pub of_chain : result.chain ≡ chain
  pub succeeded : result.status ≡ ChainStatus.success
  pub without_error : result.error_type ≡ none
  pub addresses : map (λ (b : AssetBalance). b.asset_address) result.balances ≡ none ∷ tokens
  pub native : result.native_balance ≡ some_amount result.balances
  pub values : All HasValue result.balances
  pub total : result.total_usd ≡ added_values zero_usd result.balances

-- A chain that could not be read: nothing but the error.
pub record IsFailed (chain : Text) (result : ChainCollectionResult) : Type 0 where
  pub of_chain : result.chain ≡ chain
  pub is_failed : result.status ≡ ChainStatus.failed
  pub has_error : (error_type : Text) × (result.error_type ≡ some error_type)
  pub nothing :
      (result.balances ≡ []) × (result.total_usd ≡ zero_usd) × (result.native_balance ≡ none)

pub failed-IsFailed :
    (chain error_type message : Text) → IsFailed chain (failed chain error_type message)
failed-IsFailed chain error_type message = record {
  of_chain = refl;
  is_failed = refl;
  has_error = (error_type, refl);
  nothing = (refl, refl, refl);
}

-- The balances of the tokens, in order, each with its value.
pub record AreBalances (tokens : List (Option Text)) (balances : List AssetBalance) : Type 0 where
  pub ordered : map (λ (b : AssetBalance). b.asset_address) balances ≡ tokens
  pub valued_all : All HasValue balances

abbrev pub addresses_of : ChainConfig → List (Option Text)
addresses_of config = map (λ (t : TokenConfig). some t.address) config.tokens

-- What an answer for a chain is: failed, or the chain of the configuration under its name.
pub data IsAnswer (configs : List ChainConfig) (chain : Text) (result : ChainCollectionResult)
    : Type 0 where
  is_error : IsFailed chain result → IsAnswer configs chain result
  is_read :
      (config : ChainConfig)
      → get_config chain configs ≡ some config
      → IsCollected config.name (addresses_of config) result
      → IsAnswer configs chain result

module _ (prices : Prices) (rpc : Rpc prices.State) where
  abbrev IsBalanceOf : TokenConfig → AssetBalance → Type 0
  IsBalanceOf token b = (b.asset_address ≡ some token.address) × HasValue b

  collect_token-Returned :
      (url address : Text) (token : TokenConfig) (config : ChainConfig) (s : EvmState prices.State)
      → Returned (IsBalanceOf token) (collect_token prices rpc url address token config s)
  unfolding collect_token
  collect_token-Returned url address token config s =
      let P = IsBalanceOf token in
      let known = lookup same_token (config.name, lower token.address) s.token_decimals in
      continue_attempt-Returned_any _ P (decimals_of prices rpc url config token known s)
        λ decimals s.
          continue_attempt-Returned_any _ P
            (outside_call prices rpc
              (rpc_int rpc url config.timeout_seconds (codes "eth_call")
                (eth_call token.address (codes "0x70a08231" ++ padded_address address)))
              s)
            λ raw s.
              continue_attempt-Returned_any _ P (or_crash (amount_of raw (ten_to decimals)) s)
                λ amount s.
                  continue_attempt-Returned_any _ P (token_price prices rpc config token s)
                    λ priced s.
                      pure-Returned P (token_balance token decimals amount priced.0 priced.1) s
                        (refl, valued-worth amount priced.0)

  abbrev token_addresses : List TokenConfig → List (Option Text)
  token_addresses = map λ (t : TokenConfig). some t.address

  collect_tokens-Returned :
      (url address : Text) (tokens : List TokenConfig) (config : ChainConfig)
      (s : EvmState prices.State)
      → Returned
          (AreBalances (token_addresses tokens))
          (collect_tokens prices rpc url address tokens config s)
  unfolding collect_tokens
  collect_tokens-Returned url address [] config s =
      pure-Returned (AreBalances []) [] s (record { ordered = refl; valued_all = tt })
  collect_tokens-Returned url address (token ∷ tokens) config s =
      let P = AreBalances (token_addresses (token ∷ tokens)) in
      continue_attempt-Returned _ (IsBalanceOf token) P
        (collect_token prices rpc url address token config s)
        (collect_token-Returned url address token config s)
        λ b s' p.
          continue_attempt-Returned _ (AreBalances (token_addresses tokens)) P
            (collect_tokens prices rpc url address tokens config s')
            (collect_tokens-Returned url address tokens config s')
            λ bs s'' q.
              pure-Returned P (b ∷ bs) s''
                (record { ordered = rw (p.0, q.ordered) refl; valued_all = (p.1, q.valued_all) })

  abbrev IsReading : ChainConfig → ChainCollectionResult → Type 0
  IsReading config result =
      (latency : ℕ)
      → IsCollected config.name (addresses_of config)
          (record result { rpc_latency_ms = some latency })

  collect_from_endpoint-Returned :
      (address : Text) (config : ChainConfig) (url : Text) (s : EvmState prices.State)
      → Returned (IsReading config) (collect_from_endpoint prices rpc address config url s)
  unfolding collect_from_endpoint
  collect_from_endpoint-Returned address config url s =
      let P = IsReading config in
      continue_attempt-Returned_any _ P (verify_chain_id prices rpc url config s) λ checked s.
        continue_attempt-Returned_any _ P
          (outside_call prices rpc
            (rpc_int rpc url config.timeout_seconds (codes "eth_getBalance")
              (at_latest (Json.string address)))
            s)
          λ wei s. continue_attempt-Returned_any _ P (native_price prices rpc config s) λ priced s.
            continue_attempt-Returned _ (AreBalances (addresses_of config)) P
              (collect_tokens prices rpc url address config.tokens config s)
              (collect_tokens-Returned url address config.tokens config s)
              λ bs s' q.
                pure-Returned P
                  (collected config.name (of_ℤ wei ÷ of_ℕ (10 ^ 18))
                    (native_balance config (of_ℤ wei ÷ of_ℕ (10 ^ 18)) priced.0 priced.1 ∷ bs))
                  s'
                  λ latency. record {
                    of_chain = refl;
                    succeeded = refl;
                    without_error = refl;
                    addresses = rw q.ordered refl;
                    native = refl;
                    values = (valued-worth (of_ℤ wei ÷ of_ℕ (10 ^ 18)) priced.0, q.valued_all);
                    total =
                        total_value-added (
                          native_balance config (of_ℤ wei ÷ of_ℕ (10 ^ 18)) priced.0 priced.1 ∷ bs);
                  }

  -- Unless it raises, collect_chain answers, for any address, name of a chain, endpoints, prices and
  -- state: a failure with an error, no balance and a total of zero, under the chain's name; or the
  -- chain that the configuration has under the name, with its native balance, one balance for each of
  -- its tokens in order, each with its amount at its price as value, and the sum of these as total.
  pub collect_chain-IsAnswer :
      (configs : List ChainConfig) (cooldown_seconds : ℕ) (address chain : Text)
      (r : State prices rpc)
      → let (r', result, metrics) =
          collect_chain prices rpc configs cooldown_seconds address chain r in
        Answers (IsAnswer configs chain) (r', result)
  unfolding collect_chain
  collect_chain-IsAnswer configs cooldown_seconds address chain r =
      split (is_valid_address address) (configured (get_config chain configs) refl)
    where
      Good : State prices rpc × Result ChainCollectionResult × List Metric → Type 0
      Good (r', result, metrics) = Answers (IsAnswer configs chain) (r', result)

      configured :
          (c : Option ChainConfig)
          → get_config chain configs ≡ c
          → Good (collect_configured prices rpc cooldown_seconds address chain c r)
      configured none e = is_error (failed-IsFailed chain _ _)
      configured (some config) e =
          rotate-Answers (clocks_of prices rpc) chain cooldown_seconds
            (collect_from_endpoint prices rpc address config) (IsAnswer configs chain)
            (λ t m. is_error (failed-IsFailed chain t m)) (λ url s. read config e url s)
            (codes "RPC URL is not configured") (cooling_message prices rpc) config.rpc_urls r
        where
          read :
              (config : ChainConfig)
              → get_config chain configs ≡ some config
              → (url : Text) (s : EvmState prices.State)
              → Returned
                  (λ result.
                    (latency : ℕ)
                    → IsAnswer configs chain (record result { rpc_latency_ms = some latency }))
                  (collect_from_endpoint prices rpc address config url s)
          read config e url s =
              Returned-mono (IsReading config)
                (λ result.
                  (latency : ℕ)
                  → IsAnswer configs chain (record result { rpc_latency_ms = some latency }))
                (collect_from_endpoint prices rpc address config url s)
                (collect_from_endpoint-Returned address config url s)
                λ result h latency. is_read config e (h latency)

      split :
          (b : Bool)
          → Good (
              collect_configured prices rpc cooldown_seconds address chain
                (get_config chain configs)
                r)
          → Good (
              if b
              then collect_configured prices rpc cooldown_seconds address chain
                  (get_config chain configs)
                  r
              else (
                r,
                ok (
                    failed chain
                      (error_type_value ErrorType.invalid_address)
                      (codes "invalid EVM address")),
                [],
              ))
      split true h = h
      split false h = is_error (failed-IsFailed chain _ _)
