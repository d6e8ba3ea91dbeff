-- ===== src/Tests/Outside.antt =====
-- Prices, RPC endpoints and the worker at concrete inputs.
use py_wallet_snapshot_servi.Prelude.{
  ℕ, ◌+◌, ◌≡◌, refl, Option, none, some, [], Text, codes, text_eq, upper, pos, lookup,
}
use py_wallet_snapshot_servi.Access.{Environment}
use py_wallet_snapshot_servi.Decimal.{Decimal, of_ℕ, of_ℤ}
use py_wallet_snapshot_servi.Json.{Json, Fields}
use py_wallet_snapshot_servi.PriceService.{
  Web, PriceSettings, Cached, get_usd_price, get_token_usd_price,
}
use py_wallet_snapshot_servi.PriceService.Sources.{
  Sound, IsPriced, IsTokenPriced, get_usd_price-IsPriced, get_token_usd_price-IsTokenPriced,
}
use py_wallet_snapshot_servi.PriceService.Repeats.{Repeats, get_usd_price-Repeats}

-- A clock that goes on by a nanosecond at each reading, and a service with one price for everything.
abbrev usd : Json
usd = Json.object (Fields.field (codes "usd") (Json.int (pos 2000)) Fields.end)

abbrev read_decimal : Json → Option Decimal
read_decimal (Json.int n) = some (of_ℤ n)
read_decimal _ = none

abbrev contract : Text
contract = codes "0xa0b86991c6218b36c1d19d4a2e9eb0ce3606eb48"

abbrev prices_json : Json
prices_json =
    Json.object (Fields.field (codes "ethereum") usd (Fields.field contract usd Fields.end))

abbrev web : Web
web = record {
  State = ℕ;
  time = λ n. (n + 1, n);
  get_json = λ url params n. (n + 10, some prices_json);
  decimal_of = read_decimal;
}

abbrev price_settings : PriceSettings
price_settings = record {
  environment = Environment.production;
  price_cache_ttl_seconds = 60;
  coingecko_base_url = codes "https://c";
  frankfurter_base_url = codes "https://f";
}

abbrev no_cache : Cached web
no_cache = record { cache = []; outside = 100 }

get_usd_price-IsPriced_example :
    Sound web price_settings
      (IsPriced price_settings)
      (get_usd_price web price_settings (codes "eth") no_cache)
get_usd_price-IsPriced_example = get_usd_price-IsPriced web price_settings (codes "eth") no_cache tt

get_token_usd_price-IsTokenPriced_example :
    Sound web price_settings IsTokenPriced
      (get_token_usd_price web price_settings (codes "ethereum") contract no_cache)
get_token_usd_price-IsTokenPriced_example =
    get_token_usd_price-IsTokenPriced web price_settings (codes "ethereum") contract no_cache tt

get_usd_price-Repeats_example :
    Repeats web price_settings
      (upper (codes "eth"))
      no_cache
      (get_usd_price web price_settings (codes "eth") no_cache)
get_usd_price-Repeats_example = get_usd_price-Repeats web price_settings (codes "eth") no_cache

finds_price : (get_usd_price web price_settings (codes "eth") no_cache).1 ≡ some (of_ℕ 2000)
unfolding get_usd_price upper lookup text_eq
finds_price = refl
