-- ===== src/EvmCollector.antt =====
-- app/services/evm_collector.py: the balances of one address on one chain. `_rpc_call` and the calls
-- around it are in Rpc/Evm.antt, the loop over the endpoints in Failover.antt.
pub mod Collected
pub mod Health
use py_wallet_snapshot_servi.Prelude.{
  ℕ, ◌-◌, ◌^◌, Bool, true, false, not, ◌&&◌, ◌||◌, any, Option, none, some, List, [], ◌∷◌, ◌++◌,
  map, foldl, length, ◌==◌, if◌then◌else◌, Text, codes, text_eq, lower, starts_with, remove_prefix,
  zeros, show_ℕ, show_ℤ, ℤ, pos, pos_part, neg_part, Dict, lookup,
}
use py_wallet_snapshot_servi.Enums.{AssetType, ChainStatus, ErrorType, error_type_value}
use py_wallet_snapshot_servi.Decimal.{Decimal, zero_usd, of_ℕ, of_ℤ, ten_to, ◌⊞◌, ◌⊠◌, ◌÷◌}
use py_wallet_snapshot_servi.Json.{Json, Items, Fields}
use py_wallet_snapshot_servi.Metrics.{Metric}
use py_wallet_snapshot_servi.Result.{Result, ok}
use py_wallet_snapshot_servi.ChainConfig.{ChainConfig, TokenConfig, get_config}
use py_wallet_snapshot_servi.Collection.{AssetBalance, ChainCollectionResult}
use py_wallet_snapshot_servi.Prices.{Prices}
use py_wallet_snapshot_servi.Failover.{
  Attempt, returned, rejected, broke, Clocks, Rotation, Ended, failed, rotate,
}
use py_wallet_snapshot_servi.Rpc.{
  Rpc, Call, rpc_failure, pure, reject, crash, gets, modify, ◌>>=◌, ◌>>◌,
}
use py_wallet_snapshot_servi.Rpc.Evm.{rpc_int}

-- The state of a collector besides the blocked endpoints; the price service's is a part of it.
pub record EvmState (S : Type 0) : Type 0 where
  pub validated_chain_ids : List (Text × ℕ)
  pub token_decimals : Dict (Text × Text) ℤ
  pub outside : S

abbrev pub same_endpoint : Text × ℕ → Text × ℕ → Bool
same_endpoint a b = text_eq a.0 b.0 && a.1 == b.1

abbrev pub same_token : Text × Text → Text × Text → Bool
same_token a b = text_eq a.0 b.0 && text_eq a.1 b.1

-- `[value, "latest"]`
abbrev pub at_latest : Json → Json
at_latest value =
    Json.array (Items.item value (Items.item (Json.string (codes "latest")) Items.nil))

abbrev pub eth_call : Text → Text → Json
eth_call to data_ = at_latest (
    Json.object (
      Fields.field (codes "to") (Json.string to)
        (Fields.field (codes "data") (Json.string data_) Fields.end)))

-- The address without its prefix, in 64 digits.
abbrev pub padded_address : Text → Text
padded_address address =
    let digits = remove_prefix (codes "0x") (lower address) in zeros (64 - length digits) digits

-- `amount * price if price is not None else Decimal("0")`
abbrev pub valued : Decimal → Option Decimal → Decimal
valued amount none = zero_usd
valued amount (some price) = amount ⊠ price

abbrev pub native_balance : ChainConfig → Decimal → Option Decimal → Option Text → AssetBalance
native_balance config amount price source = record {
  symbol = config.native_symbol;
  asset_address = none;
  asset_type = AssetType.native;
  amount = amount;
  price_usd = price;
  value_usd = valued amount price;
  price_source = source;
  decimals = pos 18;
}

abbrev pub token_balance : TokenConfig → ℤ → Decimal → Option Decimal → Option Text → AssetBalance
token_balance token decimals amount price source = record {
  symbol = token.symbol;
  asset_address = some token.address;
  asset_type = AssetType.erc20;
  amount = amount;
  price_usd = price;
  value_usd = valued amount price;
  price_source = source;
  decimals = decimals;
}

-- `sum(..., Decimal("0"))`
abbrev pub total_value : List AssetBalance → Decimal
total_value balances = foldl (λ total (b : AssetBalance). total ⊞ b.value_usd) zero_usd balances

abbrev pub collected : Text → Decimal → List AssetBalance → ChainCollectionResult
collected chain amount balances = record {
  chain = chain;
  status = ChainStatus.success;
  native_balance = some amount;
  total_usd = total_value balances;
  rpc_latency_ms = none;
  balances = balances;
  error_type = none;
  error_message = none;
}

-- `_is_valid_address`
unfoldable pub is_valid_address : Text → Bool
unfolding starts_with
is_valid_address address = starts_with address (codes "0x") && length address == 42

-- `Decimal(raw_amount) / (Decimal(10) ** decimals)`, none where it raises.
abbrev pub amount_of : ℤ → Option Decimal → Option Decimal
amount_of raw_amount none = none
amount_of raw_amount (some unit) = some (of_ℤ raw_amount ÷ unit)

abbrev pub or_crash : {S : Type 0} → Option Decimal → Call S Decimal
or_crash none = crash (codes "DecimalException")
or_crash (some amount) = pure amount

module _ (prices : Prices) (rpc : Rpc prices.State) where
  abbrev pub EvmCall : Type 0 → Type 0
  EvmCall A = Call (EvmState prices.State) A

  -- A call that leaves the collector's own state alone.
  abbrev pub outside_call : {A : Type 0} → Call prices.State A → EvmCall A
  outside_call m s = let (o, a) = m s.outside in (record s { outside = o }, a)

  abbrev pub clocks_of : Clocks (EvmState prices.State)
  clocks_of = record {
    monotonic = λ s. let (o, t) = rpc.clocks.monotonic s.outside in (record s { outside = o }, t);
    perf_counter =
        λ s. let (o, t) = rpc.clocks.perf_counter s.outside in (record s { outside = o }, t);
  }

  abbrev pub checked_chain_id : Text → ChainConfig → ℤ → EvmCall (Unit {0})
  checked_chain_id url config chain_id =
      if neg_part chain_id == 0 && pos_part chain_id == config.expected_chain_id
      then modify (λ s. record s {
        validated_chain_ids = (url, config.expected_chain_id) ∷ s.validated_chain_ids;
      })
      else reject (
          rpc_failure ErrorType.bad_config (
            codes "expected chain id "
            ++ show_ℕ config.expected_chain_id
            ++ codes ", got "
            ++ show_ℤ chain_id))

  abbrev pub ensure_chain_id : Text → ChainConfig → Bool → EvmCall (Unit {0})
  ensure_chain_id url config true = pure tt
  ensure_chain_id url config false = do
    chain_id ←
        outside_call
          (rpc_int rpc url config.timeout_seconds (codes "eth_chainId") (Json.array Items.nil))
    checked_chain_id url config chain_id

  unfoldable pub verify_chain_id : Text → ChainConfig → EvmCall (Unit {0})
  unfolding rpc_int
  verify_chain_id url config = do
    validated ← gets λ s. any (same_endpoint (url, config.expected_chain_id)) s.validated_chain_ids
    ensure_chain_id url config validated

  -- The decimals of a token, asked for when they are not known yet.
  abbrev pub decimals_of : Text → ChainConfig → TokenConfig → Option ℤ → EvmCall ℤ
  decimals_of url config token (some decimals) = pure decimals
  decimals_of url config token none = do
    decimals ← outside_call (
        rpc_int rpc url config.timeout_seconds (codes "eth_call")
          (eth_call token.address (codes "0x313ce567")))
    modify λ s. record s {
      token_decimals = ((config.name, lower token.address), decimals) ∷ s.token_decimals;
    }
    pure decimals

  abbrev pub or_symbol_price :
      TokenConfig
      → prices.State × Option Decimal × Option Text
      → prices.State × Option Decimal × Option Text
  or_symbol_price token (s, some price, source) = (s, some price, source)
  or_symbol_price token (s, none, source) = prices.get_usd_price token.price_symbol s

  -- The price by the contract, or else by the symbol.
  abbrev pub token_price : ChainConfig → TokenConfig → EvmCall (Option Decimal × Option Text)
  token_price config token s =
      let (o, price, source) =
        or_symbol_price token
          (prices.get_token_usd_price config.coingecko_platform token.address s.outside) in
      (record s { outside = o }, returned (price, source))

  abbrev pub native_price : ChainConfig → EvmCall (Option Decimal × Option Text)
  native_price config s =
      let (o, price, source) = prices.get_usd_price config.native_symbol s.outside in
      (record s { outside = o }, returned (price, source))

  unfoldable pub collect_token : Text → Text → TokenConfig → ChainConfig → EvmCall AssetBalance
  unfolding rpc_int lookup
  collect_token url wallet_address token config = do
    known ← gets λ s. lookup same_token (config.name, lower token.address) s.token_decimals
    decimals ← decimals_of url config token known
    raw_amount ← outside_call (
        rpc_int rpc url config.timeout_seconds (codes "eth_call")
          (eth_call token.address (codes "0x70a08231" ++ padded_address wallet_address)))
    amount ← or_crash (amount_of raw_amount (ten_to decimals))
    priced ← token_price config token
    pure (token_balance token decimals amount priced.0 priced.1)

  unfoldable pub collect_tokens :
      Text → Text → List TokenConfig → ChainConfig → EvmCall (List AssetBalance)
  unfolding collect_token
  collect_tokens url address [] config = pure []
  collect_tokens url address (token ∷ tokens) config = do
    balance ← collect_token url address token config
    balances ← collect_tokens url address tokens config
    pure (balance ∷ balances)

  unfoldable pub collect_from_endpoint : Text → ChainConfig → Text → EvmCall ChainCollectionResult
  unfolding verify_chain_id collect_tokens rpc_int
  collect_from_endpoint address config url = do
    verify_chain_id url config
    wei ← outside_call (
        rpc_int rpc url config.timeout_seconds (codes "eth_getBalance")
          (at_latest (Json.string address)))
    priced ← native_price config
    tokens ← collect_tokens url address config.tokens config
    pure (
        collected config.name (of_ℤ wei ÷ of_ℕ (10 ^ 18))
          (native_balance config (of_ℤ wei ÷ of_ℕ (10 ^ 18)) priced.0 priced.1 ∷ tokens))

  abbrev pub cooling_message : ℕ → Text
  cooling_message n = codes "all RPC endpoints are cooling down; retry in " ++ show_ℕ n ++ codes "s"

  abbrev pub State : Type 0
  State = Rotation (EvmState prices.State)

  abbrev pub collect_configured :
      ℕ
      → Text
      → Text
      → Option ChainConfig
      → State
      → State × Result ChainCollectionResult × List Metric
  collect_configured cooldown_seconds address chain none r = (
    r,
    ok (failed chain (error_type_value ErrorType.unsupported_chain) (codes "unsupported chain")),
    [],
  )
  collect_configured cooldown_seconds address chain (some config) r =
      rotate clocks_of chain cooldown_seconds (codes "RPC URL is not configured") cooling_message
        (collect_from_endpoint address config) config.rpc_urls r

  unfoldable pub collect_chain :
      List ChainConfig
      → ℕ
      → Text
      → Text
      → State
      → State × Result ChainCollectionResult × List Metric
  unfolding is_valid_address rotate collect_from_endpoint
  collect_chain configs cooldown_seconds address chain r =
      if is_valid_address address
      then collect_configured cooldown_seconds address chain (get_config chain configs) r
      else (
        r,
        ok (
            failed chain (error_type_value ErrorType.invalid_address)
              (codes "invalid EVM address")),
        [],
      )
