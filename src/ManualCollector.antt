-- ===== src/ManualCollector.antt =====
-- app/services/manual_collector.py: the valuation of balances entered by hand.
pub mod Values
use py_wallet_snapshot_servi.Prelude.{
  ℤ, pos, ℕ, Bool, true, false, Option, none, some, List, [], ◌∷◌, ◌++◌, ◌==◌, find?, if◌then◌else◌,
  Text, codes, text_le, upper,
}
use py_wallet_snapshot_servi.Enums.{AssetType, ChainStatus, ErrorType, error_type_value}
use py_wallet_snapshot_servi.Decimal.{Decimal, zero_usd, ◌⊞◌, ◌⊠◌}
use py_wallet_snapshot_servi.Models.{Asset, ManualBalance}
use py_wallet_snapshot_servi.Session.{Tables}
use py_wallet_snapshot_servi.Collection.{AssetBalance, ChainCollectionResult}
use py_wallet_snapshot_servi.Prices.{Prices}

-- A balance with its asset's symbol and decimals.
pub record Row : Type 0 where
  pub balance : ManualBalance
  pub symbol : Text
  pub decimals : ℤ

-- `ORDER BY symbol`
insert_row : Row → List Row → List Row
insert_row r [] = r ∷ []
insert_row r (q ∷ qs) = if text_le r.symbol q.symbol then r ∷ q ∷ qs else q ∷ insert_row r qs

abbrev join_asset : ManualBalance → Option Asset → List Row → List Row
join_asset b none rows = rows
join_asset b (some asset) rows =
    insert_row (record { balance = b; symbol = asset.symbol; decimals = asset.decimals }) rows

-- The query: the wallet's balances, joined with their assets.
unfoldable pub manual_rows : ℕ → List Asset → List ManualBalance → List Row
unfolding insert_row
manual_rows wallet_id assets [] = []
manual_rows wallet_id assets (b ∷ bs) =
    let rest = manual_rows wallet_id assets bs in
    if b.wallet_id == wallet_id
    then join_asset b (find? (λ (a : Asset). a.id == b.asset_id) assets) rest
    else rest

abbrev pub valued : Decimal → Option Decimal → Decimal
valued amount none = zero_usd
valued amount (some price) = amount ⊠ price

abbrev source_of : Option Decimal → Option Text → Option Text
source_of none source = none
source_of (some price) source = source

abbrev pub priced_balance : Row → Option Decimal → Option Text → AssetBalance
priced_balance row price source = record {
  symbol = upper row.symbol;
  asset_address = none;
  asset_type = AssetType.manual;
  amount = row.balance.amount;
  price_usd = price;
  value_usd = valued row.balance.amount price;
  price_source = source_of price source;
  decimals = row.decimals;
}

-- The variables of the loop.
pub record Valuation : Type 0 where
  pub balances : List AssetBalance
  pub total : Decimal
  pub missing_prices : List Text

abbrev pub missing_of : Text → Option Decimal → List Text
missing_of symbol none = symbol ∷ []
missing_of symbol (some price) = []

-- One round of the loop, with the price it uses.
abbrev pub add_row : Row → Option Decimal → Option Text → Valuation → Valuation
add_row row price source v = record {
  balances = v.balances ++ priced_balance row price source ∷ [];
  total = v.total ⊞ valued row.balance.amount price;
  missing_prices = v.missing_prices ++ missing_of row.symbol price;
}

-- `', '.join(...)`
abbrev join_texts : List Text → Text
join_texts [] = []
join_texts (s ∷ []) = s
join_texts (s ∷ t ∷ ts) = s ++ codes ", " ++ join_texts (t ∷ ts)

-- The fields that say whether a price was missing.
abbrev pub status_of : List Text → ChainStatus
status_of [] = ChainStatus.success
status_of (_ ∷ _) = ChainStatus.failed

abbrev pub error_type_of : List Text → Option Text
error_type_of [] = none
error_type_of (_ ∷ _) = some (error_type_value ErrorType.price_unavailable)

abbrev pub error_message_of : List Text → Option Text
error_message_of [] = none
error_message_of (s ∷ ss) = some (codes "missing prices for: " ++ join_texts (s ∷ ss))

abbrev pub result_of : Valuation → ChainCollectionResult
result_of v = record {
  chain = codes "manual";
  status = status_of v.missing_prices;
  native_balance = none;
  total_usd = v.total;
  rpc_latency_ms = none;
  balances = v.balances;
  error_type = error_type_of v.missing_prices;
  error_message = error_message_of v.missing_prices;
}

module _ (p : Prices) where
  open p use {State, get_usd_price}

  -- The row's own price, or else the price service's.
  abbrev pub price_row : Row → Option Decimal → State → State × Option Decimal × Option Text
  price_row row (some price) s = (s, some price, some (codes "manual"))
  price_row row none s = get_usd_price row.symbol s

  unfoldable pub value_rows : List Row → Valuation → State → State × Valuation
  value_rows [] v s = (s, v)
  value_rows (row ∷ rows) v s =
      let (s', price, source) = price_row row row.balance.price_usd s in
      value_rows rows (add_row row price source v) s'

  unfoldable pub collect_wallet : ℕ → Tables → State → State × ChainCollectionResult
  unfolding value_rows manual_rows
  collect_wallet wallet_id t s =
      let start : Valuation = record { balances = []; total = zero_usd; missing_prices = [] } in
      let (s', v) = value_rows (manual_rows wallet_id t.assets t.manual_balances) start s in
      (s', result_of v)
