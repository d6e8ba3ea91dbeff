-- ===== src/SolanaCollector.antt =====
-- app/services/solana_collector.py: the balances of one Solana address. `_rpc_call` is in
-- Rpc/Solana.antt, the reading of token accounts in SolanaAccounts.antt, the loop over the endpoints
-- in Failover.antt.
pub mod Collected
pub mod Keys
use py_wallet_snapshot_servi.Prelude.{
  ℕ, zero, suc, ◌+◌, ◌-◌, ◌*◌, ◌/◌, ◌%◌, ◌^◌, Bool, true, false, not, ◌&&◌, ◌||◌, all, is_some,
  find?, Option, none, some, List, [], ◌∷◌, ◌++◌, map, foldl, length, ◌==◌, leb, if◌then◌else◌,
  Text, codes, text_eq, strip, is_empty, read_int, show_ℕ, ℤ, pos, negsuc, ◌+ℤ◌, Dict, lookup,
}
use py_wallet_snapshot_servi.Enums.{AssetType, ChainStatus, ErrorType, error_type_value}
use py_wallet_snapshot_servi.Decimal.{Decimal, of_ℕ, of_ℤ, ten_to, ◌÷◌}
use py_wallet_snapshot_servi.Json.{Json, Items, Fields}
use py_wallet_snapshot_servi.Metrics.{Metric}
use py_wallet_snapshot_servi.Result.{Result, ok}
use py_wallet_snapshot_servi.Collection.{AssetBalance, ChainCollectionResult}
use py_wallet_snapshot_servi.Prices.{Prices}
use py_wallet_snapshot_servi.EvmCollector.{valued, collected, amount_of, or_crash}
use py_wallet_snapshot_servi.Failover.{
  Attempt, returned, rejected, broke, Clocks, Rotation, Ended, failed, rotate,
}
use py_wallet_snapshot_servi.Rpc.{
  Rpc, Call, rpc_failure, pure, reject, crash, gets, modify, ◌>>=◌, ◌>>◌,
}
use py_wallet_snapshot_servi.SolanaAccounts.{
  SplTokenConfig, Amounts, amount_at, parse_token_accounts, result_value_int,
}
use py_wallet_snapshot_servi.Rpc.Solana.{rpc_call}

abbrev pub solana_chain : Text
solana_chain = codes "solana"

abbrev pub lamports_per_sol : Decimal
lamports_per_sol = of_ℕ 1000000000

abbrev pub spl_token_program_id : Text
spl_token_program_id = codes "TokenkegQfeZyiNwAJbNbGKPFXCWuBvf9Ss623VQ5DA"

abbrev pub base58_alphabet : Text
base58_alphabet = codes "123456789ABCDEFGHJKLMNPQRSTUVWXYZabcdefghijkmnopqrstuvwxyz"

abbrev pub tracked_spl_tokens : List SplTokenConfig
tracked_spl_tokens =
    (record {
      symbol = codes "USDC";
      mint = codes "EPjFWdd5AufqSSqeM2qN1xzybapC8G4wEGGkZwyTDt1v";
      decimals = pos 6;
    })
    ∷ (record {
      symbol = codes "USDT";
      mint = codes "Es9vMFrzaCERmJfrF4H2FYD4KCoNkY11McCe8BenwNYB";
      decimals = pos 6;
    })
    ∷ []

-- The position of a character in the alphabet.
index_in : ℕ → Text → Option ℕ
index_in c [] = none
index_in c (d ∷ ds) =
    let rest = index_in c ds in
    if c == d then some 0 else elim rest [ none ↦ none | some i ↦ some (suc i) ]

abbrev pub add_base58 : Option ℕ → Option ℕ → Option ℕ
add_base58 (some number) (some value) = some (number * 58 + value)
add_base58 _ _ = none

-- The number that the characters write, none where one is not in the alphabet.
unfoldable pub base58_number : Text → Option ℕ
unfolding index_in
base58_number address =
    foldl (λ number character. add_base58 number (index_in character base58_alphabet)) (some 0)
      address

-- `(number.bit_length() + 7) // 8`; the fuel is more than enough, and what is left of it is not run.
unfoldable pub byte_length_from : ℕ → ℕ → ℕ
byte_length_from zero number = 0
byte_length_from (suc f) number = elim number [
  | zero ↦ 0
  | suc m ↦ suc (byte_length_from f (suc m / 256))
]

unfoldable pub byte_length : ℕ → ℕ
unfolding byte_length_from
byte_length number = byte_length_from number number

-- `len(address) - len(address.lstrip("1"))`
unfoldable pub leading_ones : Text → ℕ
leading_ones [] = 0
leading_ones (c ∷ s) = if c == b'1' then suc (leading_ones s) else 0

abbrev pub has_32_bytes : Text → Option ℕ → Bool
has_32_bytes address none = false
has_32_bytes address (some number) = leading_ones address + byte_length number == 32

-- `_is_valid_address`
unfoldable pub is_valid_address : Text → Bool
unfolding base58_number byte_length leading_ones strip
is_valid_address address =
    not (is_empty address)
    && text_eq address (strip address)
    && has_32_bytes address (base58_number address)

abbrev pub native_balance : Decimal → Option Decimal → Option Text → AssetBalance
native_balance amount price source = record {
  symbol = codes "SOL";
  asset_address = none;
  asset_type = AssetType.native;
  amount = amount;
  price_usd = price;
  value_usd = valued amount price;
  price_source = source;
  decimals = pos 9;
}

abbrev pub token_balance : SplTokenConfig → Decimal → Option Decimal → Option Text → AssetBalance
token_balance token amount price source = record {
  symbol = token.symbol;
  asset_address = some token.mint;
  asset_type = AssetType.spl;
  amount = amount;
  price_usd = price;
  value_usd = valued amount price;
  price_source = source;
  decimals = token.decimals;
}

abbrev confirmed : Fields → Json
confirmed fields =
    Json.object (Fields.field (codes "commitment") (Json.string (codes "finalized")) fields)

abbrev pub balance_params : Text → Json
balance_params address =
    Json.array (Items.item (Json.string address) (Items.item (confirmed Fields.end) Items.nil))

abbrev pub accounts_params : Text → Json
accounts_params address = Json.array (
    Items.item (Json.string address) (
      Items.item
        (Json.object
          (Fields.field (codes "programId") (Json.string spl_token_program_id) Fields.end))
        (Items.item
          (Json.object (
            Fields.field (codes "encoding") (Json.string (codes "jsonParsed"))
              (Fields.field (codes "commitment") (Json.string (codes "finalized")) Fields.end)))
          Items.nil)))

module _ (prices : Prices) (rpc : Rpc prices.State) (timeout_seconds : ℕ)
    (tokens : List SplTokenConfig) where
  abbrev pub price_of : Text → Call prices.State (Option Decimal × Option Text)
  price_of symbol s =
      let (s', price, source) = prices.get_usd_price symbol s in (s', returned (price, source))

  unfoldable pub collect_tokens :
      List SplTokenConfig → Amounts → Call prices.State (List AssetBalance)
  unfolding lookup
  collect_tokens [] amounts = pure []
  collect_tokens (token ∷ later) amounts = do
    amount ← or_crash (amount_of (amount_at token.mint amounts) (ten_to token.decimals))
    priced ← price_of token.symbol
    balances ← collect_tokens later amounts
    pure (token_balance token amount priced.0 priced.1 ∷ balances)

  unfoldable pub collect_from_endpoint : Text → Text → Call prices.State ChainCollectionResult
  unfolding rpc_call parse_token_accounts collect_tokens
  collect_from_endpoint address url = do
    balance_result ← rpc_call rpc url timeout_seconds (codes "getBalance") (balance_params address)
    lamports ← result_value_int balance_result (codes "getBalance")
    token_result ←
        rpc_call rpc url timeout_seconds (codes "getTokenAccountsByOwner") (accounts_params address)
    amounts ← parse_token_accounts tokens token_result
    priced ← price_of (codes "SOL")
    balances ← collect_tokens tokens amounts
    pure (
        collected solana_chain (of_ℕ lamports ÷ lamports_per_sol)
          (native_balance (of_ℕ lamports ÷ lamports_per_sol) priced.0 priced.1 ∷ balances))

  abbrev pub cooling_message : ℕ → Text
  cooling_message n =
      codes "all Solana RPC endpoints are cooling down; retry in " ++ show_ℕ n ++ codes "s"

  abbrev pub State : Type 0
  State = Rotation prices.State

  unfoldable pub collect_wallet :
      List Text → ℕ → Text → State → State × Result ChainCollectionResult × List Metric
  unfolding is_valid_address rotate collect_from_endpoint
  collect_wallet rpc_urls cooldown_seconds address r =
      if is_valid_address address
      then rotate rpc.clocks solana_chain cooldown_seconds
          (codes "Solana RPC URL is not configured") cooling_message (collect_from_endpoint address)
          rpc_urls r
      else (
        r,
        ok (
            failed solana_chain (error_type_value ErrorType.invalid_address)
              (codes "invalid Solana address")),
        [],
      )
