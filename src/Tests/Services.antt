-- ===== src/Tests/Services.antt =====
-- The scheduler, the manual collector and the chain configuration at concrete inputs.
use py_wallet_snapshot_servi.Prelude.{
  pos, ℕ, Text, upper, length, Bool, false, lower, starts_with, ◌+◌, ◌≡◌, refl, true, none, some,
  List, [], ◌∷◌, All, codes, split_commas, strip, text_eq, text_in, text_le,
}
use py_wallet_snapshot_servi.Enums.{ChainStatus, AssetType}
use py_wallet_snapshot_servi.Decimal.{of_ℕ}
use py_wallet_snapshot_servi.Models.{Asset, ManualBalance}
use py_wallet_snapshot_servi.Session.{Tables, Session}
use py_wallet_snapshot_servi.Queue.{IsValid}
use py_wallet_snapshot_servi.Scheduler.{active_users, has_active_wallet, create_scheduled_jobs}
use py_wallet_snapshot_servi.Scheduler.Covers.{
  Scheduled, HasActiveJob, create_scheduled_jobs-Scheduled,
}
use py_wallet_snapshot_servi.Prices.{Prices}
use py_wallet_snapshot_servi.ManualCollector.{manual_rows, collect_wallet}
use py_wallet_snapshot_servi.ManualCollector.Values.{IsValued, collect_wallet-IsValued}
use py_wallet_snapshot_servi.ChainConfig.{ChainSettings, get_enabled_chains}
use py_wallet_snapshot_servi.ChainConfig.Enabled.{IsEnabled, get_enabled_chains-IsEnabled}
use py_wallet_snapshot_servi.Collection.{AssetBalance}
use py_wallet_snapshot_servi.PriceHistory.{Identity, Recorder, record_price, record_all}
use py_wallet_snapshot_servi.PriceHistory.Observed.{Observed}
use py_wallet_snapshot_servi.PriceHistory.Once.{IsCovered, record_all-Observed}
use py_wallet_snapshot_servi.Tests.Fixtures.{tables}
use py_wallet_snapshot_servi.Tests.Queues.{session-IsValid}

-- Two assets, and a wallet with a balance in each; one has a price of its own.
abbrev gold : Asset
gold = record {
  id = 1;
  symbol = codes "gold";
  name = none;
  contract_address = none;
  chain = codes "manual";
  decimals = pos 2;
}

abbrev euro : Asset
euro = record gold { id = 2; symbol = codes "eur" }

abbrev two_balances : List ManualBalance
two_balances =
    (record { wallet_id = 9; asset_id = 1; amount = of_ℕ 2; price_usd = some (of_ℕ 50) })
    ∷ (record { wallet_id = 9; asset_id = 2; amount = of_ℕ 7; price_usd = none })
    ∷ []

abbrev busy_tables : Tables
busy_tables = record tables {
  users = (record { id = 8; email = codes "b" }) ∷ (record { id = 7; email = codes "a" }) ∷ [];
  assets = gold ∷ euro ∷ [];
  manual_balances = two_balances;
}

abbrev busy : Session
busy = record { committed = busy_tables; current = busy_tables }

abbrev ticking : ℕ → ℕ
ticking k = 500 + k

busy-IsValid : IsValid busy_tables
busy-IsValid = record {
  distinct = session-IsValid.distinct;
  fresh = session-IsValid.fresh;
  well_formed = session-IsValid.well_formed;
  no_rivals = session-IsValid.no_rivals;
}

create_scheduled_jobs-Scheduled_example :
    let (db', created, _) = create_scheduled_jobs ticking busy in
    Scheduled (active_users busy_tables) busy db' created
    × All
        (λ u. has_active_wallet busy_tables u ≡ true → HasActiveJob db'.current.runs u)
        busy_tables.users
create_scheduled_jobs-Scheduled_example = create_scheduled_jobs-Scheduled ticking busy busy-IsValid

-- A price service that counts its calls and knows no price.
abbrev no_prices : Prices
no_prices = record {
  State = ℕ;
  get_usd_price = λ symbol n. (n + 1, none, none);
  get_token_usd_price = λ platform address n. (n + 1, none, none);
}

collect_wallet-IsValued_example :
    IsValued
      (manual_rows 9 busy_tables.assets busy_tables.manual_balances)
      (collect_wallet no_prices 9 busy_tables 0).1
collect_wallet-IsValued_example = collect_wallet-IsValued no_prices 9 busy_tables 0

-- The euro is missing, and asked for once.
asks_once :
    let (calls, result) = collect_wallet no_prices 9 busy_tables 0 in
    (calls ≡ 1) × (result.status ≡ ChainStatus.failed)
unfolding collect_wallet manual_rows text_le
asks_once = (refl, refl)

abbrev chain_settings : ChainSettings
chain_settings = record {
  snapshot_enabled_chains = codes " base,solana, base ,linea";
  chain_timeout_seconds = 8;
  ethereum_timeout_seconds = 10;
  ethereum_rpc_url = codes "https://a, https://b";
  base_rpc_url = [];
  arbitrum_rpc_url = [];
  bnb_rpc_url = [];
  linea_rpc_url = [];
  solana_rpc_url = [];
}

get_enabled_chains-IsEnabled_example : IsEnabled chain_settings (get_enabled_chains chain_settings)
get_enabled_chains-IsEnabled_example = get_enabled_chains-IsEnabled chain_settings

two_enabled : get_enabled_chains chain_settings ≡ codes "base" ∷ codes "linea" ∷ []
unfolding get_enabled_chains strip split_commas text_eq text_in
two_enabled = refl

-- One asset observed twice, and a price that was entered by hand.
abbrev ether : AssetBalance
ether = record {
  symbol = codes "ETH";
  asset_address = none;
  asset_type = AssetType.native;
  amount = of_ℕ 2;
  price_usd = some (of_ℕ 3000);
  value_usd = of_ℕ 6000;
  price_source = some (codes "coingecko");
  decimals = pos 18;
}

abbrev by_hand : AssetBalance
by_hand = record ether { symbol = codes "XAU"; price_source = some (codes "manual") }

abbrev observations : List (Text × AssetBalance × ℕ)
observations =
    (codes "base", ether, 10) ∷ (codes " Base", ether, 11) ∷ (codes "manual", by_hand, 12) ∷ []

abbrev recorder : Recorder
recorder = record { recorded_assets = []; tables = busy_tables }

abbrev accepting : Identity → Bool
accepting _ = false

record_all-Observed_example :
    let r' = record_all accepting observations recorder in
    Observed observations recorder r' × All (IsCovered accepting r') observations
record_all-Observed_example = record_all-Observed accepting observations recorder

once : length (record_all accepting observations recorder).tables.prices_history ≡ 1
unfolding record_all record_price text_in text_eq strip lower upper starts_with
once = refl
