-- ===== src/PriceHistory.antt =====
-- app/services/price_history.py: one observed price for each asset and job. `rejects` tells which
-- inserts the database refuses, which rolls the savepoint back.
pub mod Frame
pub mod Observed
pub mod Once
use py_wallet_snapshot_servi.Prelude.{
  ℤ, pos, ℕ, suc, Bool, true, false, not, ◌&&◌, ◌||◌, Option, none, some, List, [], ◌∷◌, ◌++◌, ◌==◌,
  if◌then◌else◌, any, find?, Text, codes, text_eq, text_in, same_text, strip, lower, upper,
  starts_with,
}
use py_wallet_snapshot_servi.Decimal.{Decimal, is_positive}
use py_wallet_snapshot_servi.Models.{Asset, PriceHistory}
use py_wallet_snapshot_servi.Session.{Tables}
use py_wallet_snapshot_servi.Collection.{AssetBalance}

-- The chain, the address, and the symbol where there is no address.
abbrev pub Identity : Type 0
Identity = Text × Text × Text

abbrev pub same_identity : Identity → Identity → Bool
same_identity (a, b, c) (d, e, f) = text_eq a d && text_eq b e && text_eq c f

pub record Recorder : Type 0 where
  pub recorded_assets : List Identity
  pub tables : Tables

abbrev pub provider_price_sources : List Text
provider_price_sources = codes "coingecko" ∷ codes "frankfurter" ∷ []

abbrev lowered_if_hex : Text → Text
lowered_if_hex address = if starts_with (lower address) (codes "0x") then lower address else address

-- `_normalize_address`
abbrev pub normalize_address : Option Text → Option Text
normalize_address none = none
normalize_address (some address) = some (lowered_if_hex (strip address))

abbrev identity_of : Text → Option Text → Text → Identity
identity_of chain none symbol = (chain, [], symbol)
identity_of chain (some address) symbol = (chain, address, [])

abbrev pub balance_identity : Text → AssetBalance → Identity
balance_identity chain balance =
    identity_of (lower (strip chain)) (normalize_address balance.asset_address)
      (upper (strip balance.symbol))

-- The guard at the top of `record`.
abbrev pub from_provider : Option Text → Bool
from_provider none = false
from_provider (some source) = text_in source provider_price_sources

abbrev pub is_priced : Option Decimal → Bool
is_priced none = false
is_priced (some price) = is_positive price

abbrev pub is_recordable : AssetBalance → Bool
is_recordable balance =
    from_provider balance.price_source && is_priced balance.price_usd && is_positive balance.amount

-- The query of `_find_or_create_asset`.
abbrev pub is_asset : Text → Text → Option Text → Asset → Bool
is_asset chain symbol none asset =
    text_eq asset.chain chain
    && same_text asset.contract_address none
    && text_eq (upper asset.symbol) symbol
is_asset chain symbol (some address) asset =
    text_eq asset.chain chain && elim asset.contract_address [
      | none ↦ false
      | some known ↦
          if starts_with address (codes "0x")
          then text_eq (lower known) address
          else text_eq known address
    ]

abbrev found_or_new : Option Asset → Asset → Tables → Asset × Tables
found_or_new (some asset) new t = (asset, t)
found_or_new none new t =
    (new, record t { assets = t.assets ++ new ∷ []; next_asset = suc t.next_asset })

pub find_or_create_asset : Text → Text → Option Text → ℤ → Tables → Asset × Tables
find_or_create_asset chain symbol contract_address decimals t =
    found_or_new (find? (is_asset chain symbol contract_address) t.assets)
      (record {
        id = t.next_asset;
        symbol = symbol;
        name = some symbol;
        contract_address = contract_address;
        chain = chain;
        decimals = decimals;
      })
      t

-- The savepoint of `record`.
pub add_price : Text → AssetBalance → Decimal → Text → ℕ → Tables → Tables
unfolding find_or_create_asset
add_price chain balance price source observed_at t =
    let (asset, t') =
      find_or_create_asset (lower (strip chain)) (upper (strip balance.symbol))
        (normalize_address balance.asset_address) balance.decimals t in
    record t' {
      prices_history =
          t'.prices_history
          ++ record {
            id = t'.next_price;
            asset_id = asset.id;
            price_at = observed_at;
            price_usd = price;
            source = source;
          }
            ∷ [];
      next_price = suc t'.next_price;
    }

abbrev record_identity :
    (Identity → Bool) → Text → AssetBalance → Decimal → Text → ℕ → Recorder → Recorder × Bool
record_identity rejects chain balance price source observed_at r =
    let identity = balance_identity chain balance in
    if any (same_identity identity) r.recorded_assets || rejects identity then (r, false) else (
      record {
        recorded_assets = identity ∷ r.recorded_assets;
        tables = add_price chain balance price source observed_at r.tables;
      },
      true,
    )

abbrev record_priced :
    (Identity → Bool)
    → Text
    → AssetBalance
    → Option Decimal
    → Option Text
    → ℕ
    → Recorder
    → Recorder × Bool
record_priced rejects chain balance (some price) (some source) observed_at r =
    record_identity rejects chain balance price source observed_at r
record_priced rejects chain balance _ _ observed_at r = (r, false)

-- `PriceHistoryRecorder.record`
unfoldable pub record_price :
    (Identity → Bool) → Text → AssetBalance → ℕ → Recorder → Recorder × Bool
unfolding add_price
record_price rejects chain balance observed_at r =
    if not (is_recordable balance)
    then (r, false)
    else record_priced rejects chain balance balance.price_usd balance.price_source observed_at r

-- The calls of `record` in a job, one after the other.
unfoldable pub record_all : (Identity → Bool) → List (Text × AssetBalance × ℕ) → Recorder → Recorder
record_all rejects [] r = r
record_all rejects ((chain, balance, observed_at) ∷ os) r =
    record_all rejects os (record_price rejects chain balance observed_at r).0
