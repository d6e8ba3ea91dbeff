-- ===== src/PriceService.antt =====
-- app/services/price_service.py: prices in dollars from a cache, two services and fixed prices. Times
-- are in nanoseconds.
pub mod Sources
pub mod Repeats
use py_wallet_snapshot_servi.Prelude.{
  ℕ, ◌+◌, ◌*◌, ◌^◌, Bool, true, false, not, ◌&&◌, ◌||◌, Option, none, some, List, [], ◌∷◌, ◌++◌,
  map, length, all, is_some, ltb, leb, ◌==◌, if◌then◌else◌, Text, codes, text_eq, strip, lower,
  upper, is_empty, starts_with, read_int_16, Dict, lookup,
}
use py_wallet_snapshot_servi.Decimal.{Decimal, of_ℕ, is_positive}
use py_wallet_snapshot_servi.Json.{Json, get, not_null}
use py_wallet_snapshot_servi.Prices.{Prices}
use py_wallet_snapshot_servi.Access.{Environment, is_secure}

-- What lies outside: the clock, GET requests and the reading of a decimal. A request gives the body
-- of a successful answer, and none where it raises.
pub record Web : Type 1 where
  pub State : Type 0
  pub time : State → State × ℕ
  pub get_json : Text → Dict Text Text → State → State × Option Json
  pub decimal_of : Json → Option Decimal

-- The settings that the service reads.
pub record PriceSettings : Type 0 where
  pub environment : Environment
  pub price_cache_ttl_seconds : ℕ
  pub coingecko_base_url : Text
  pub frankfurter_base_url : Text

pub record Quote : Type 0 where
  pub at : ℕ
  pub price : Decimal
  pub source : Text

abbrev pub symbol_to_coingecko : Dict Text Text
symbol_to_coingecko =
    (codes "ETH", codes "ethereum")
    ∷ (codes "BNB", codes "binancecoin")
    ∷ (codes "BTC", codes "bitcoin")
    ∷ (codes "SOL", codes "solana")
    ∷ (codes "USDT", codes "tether")
    ∷ (codes "USDC", codes "usd-coin")
    ∷ (codes "USDC.E", codes "usd-coin")
    ∷ (codes "USDBC", codes "usd-coin")
    ∷ (codes "BINANCE_PEG_USDC", codes "usd-coin")
    ∷ []

abbrev pub dev_prices : Dict Text Decimal
dev_prices =
    (codes "ETH", of_ℕ 3000)
    ∷ (codes "BNB", of_ℕ 600)
    ∷ (codes "BTC", of_ℕ 65000)
    ∷ (codes "SOL", of_ℕ 150)
    ∷ (codes "USDT", of_ℕ 1)
    ∷ (codes "USDC", of_ℕ 1)
    ∷ (codes "USDC.E", of_ℕ 1)
    ∷ (codes "USDBC", of_ℕ 1)
    ∷ (codes "BINANCE_PEG_USDC", of_ℕ 1)
    ∷ []

abbrev pub second : ℕ
second = 10 ^ 9

-- `now - cached[0] < price_cache_ttl_seconds`
abbrev pub is_fresh : ℕ → ℕ → Quote → Bool
is_fresh ttl now q = ltb now (q.at + ttl * second)

abbrev pub fresh : ℕ → ℕ → Option Quote → Option Quote
fresh ttl now none = none
fresh ttl now (some q) = if is_fresh ttl now q then some q else none

-- `str.isalpha`, of Latin-1 text.
abbrev is_letter : ℕ → Bool
is_letter c =
    (leb b'A' c && leb c b'Z')
    || (leb b'a' c && leb c b'z')
    || c == 170
    || c == 181
    || c == 186
    || (leb 192 c && leb c 255 && not (c == 215) && not (c == 247))

-- `_is_evm_contract`
unfoldable pub is_evm_contract : Text → Bool
unfolding read_int_16
is_evm_contract contract_address = elim contract_address as (λ _. Bool) [
  | z ∷ x ∷ s ↦ length s == 40 && z == b'0' && x == b'x' && is_some (read_int_16 s)
  | _ ↦ false
]

abbrev pub token_key : Text → Text → Text
token_key platform address = codes "token:" ++ platform ++ codes ":" ++ address

abbrev pub positive : Option Decimal → Option Decimal
positive none = none
positive (some d) = if is_positive d then some d else none

abbrev pub dev_price : PriceSettings → Text → Option Decimal
dev_price st symbol = if is_secure st.environment then none else lookup text_eq symbol dev_prices

module _ (web : Web) where
  open web use {State, time, get_json, decimal_of}

  pub record Cached : Type 0 where
    pub cache : Dict Text Quote
    pub outside : State

  -- What a call gives: a price and its source, or neither.
  abbrev pub Answer : Type 0
  Answer = Cached × Option Decimal × Option Text

  abbrev pub answer : Quote → Cached → Answer
  answer q c = (c, some q.price, some q.source)

  -- `Decimal(str(value)) if value is not None else None`
  abbrev decimal_at : Text → Option Json → Option Decimal
  decimal_at key none = none
  decimal_at key (some payload) = elim (not_null (get key payload)) [
    | none ↦ none
    | some value ↦ decimal_of value
  ]

  abbrev pub decimal_under : Text → Option Json → Option Decimal
  decimal_under key none = none
  decimal_under key (some payload) = decimal_at (codes "usd") (get key payload)

  -- A request and what is read from its answer.
  abbrev ask :
      Text → Dict Text Text → (Option Json → Option Decimal) → State → State × Option Decimal
  ask url params read s = let (s', body) = get_json url params s in (s', read body)

  abbrev pub fetch_coin : PriceSettings → Option Text → State → State × Option Decimal
  fetch_coin st none s = (s, none)
  fetch_coin st (some coin_id) s =
      ask (st.coingecko_base_url ++ codes "/simple/price")
        ((codes "ids", coin_id) ∷ (codes "vs_currencies", codes "usd") ∷ []) (decimal_under coin_id)
        s

  unfoldable pub fetch_coingecko_price : PriceSettings → Text → State → State × Option Decimal
  unfolding lookup
  fetch_coingecko_price st symbol s = fetch_coin st (lookup text_eq symbol symbol_to_coingecko) s

  unfoldable pub fetch_coingecko_token_price :
      PriceSettings → Text → Text → State → State × Option Decimal
  fetch_coingecko_token_price st platform contract_address s =
      ask (st.coingecko_base_url ++ codes "/simple/token_price/" ++ platform)
        ((codes "contract_addresses", contract_address) ∷ (codes "vs_currencies", codes "usd") ∷ [])
        (λ body. positive (decimal_under contract_address body)) s

  unfoldable pub fetch_fiat_usd_rate : PriceSettings → Text → State → State × Option Decimal
  fetch_fiat_usd_rate st symbol s =
      if not (length symbol == 3) || not (all is_letter symbol)
      then (s, none)
      else if text_eq symbol (codes "USD")
      then (s, some (of_ℕ 1))
      else ask (st.frankfurter_base_url ++ codes "/rate/" ++ symbol ++ codes "/USD") []
          (λ body. positive (decimal_at (codes "rate") body)) s

  -- A price found now, which the cache keeps.
  abbrev pub remember : Text → Quote → Cached → Answer
  remember key q c = answer q (record c { cache = (key, q) ∷ c.cache })

  abbrev pub use_fallback : Text → ℕ → Option Decimal → Cached → Answer
  use_fallback key now none c = (c, none, none)
  use_fallback key now (some price) c =
      remember key (record { at = now; price = price; source = codes "static_dev" }) c

  abbrev pub use_fiat : PriceSettings → Text → ℕ → State × Option Decimal → Cached → Answer
  use_fiat st key now (s, none) c =
      use_fallback key now (dev_price st key) (record c { outside = s })
  use_fiat st key now (s, some price) c =
      remember key (record { at = now; price = price; source = codes "frankfurter" })
        (record c { outside = s })

  abbrev pub use_coin : PriceSettings → Text → ℕ → State × Option Decimal → Cached → Answer
  use_coin st key now (s, none) c = use_fiat st key now (fetch_fiat_usd_rate st key s) c
  use_coin st key now (s, some price) c =
      remember key (record { at = now; price = price; source = codes "coingecko" })
        (record c { outside = s })

  abbrev pub use_token : Text → ℕ → State × Option Decimal → Cached → Answer
  use_token key now (s, none) c = (record c { outside = s }, none, none)
  use_token key now (s, some price) c =
      remember key (record { at = now; price = price; source = codes "coingecko" })
        (record c { outside = s })

  -- The cached quote where it is fresh; else the price is looked up with the clock's reading.
  abbrev pub use_cached : ℕ → Text → (ℕ → Cached → Answer) → Cached → Answer
  use_cached ttl key search c =
      let cached = lookup text_eq key c.cache in
      let (s, now) = time c.outside in
      elim (fresh ttl now cached) [
        | some q ↦ answer q (record c { outside = s })
        | none ↦ search now (record c { outside = s })
      ]

  unfoldable pub get_usd_price : PriceSettings → Text → Cached → Answer
  unfolding fetch_coingecko_price fetch_fiat_usd_rate
  get_usd_price st symbol =
      use_cached st.price_cache_ttl_seconds (upper symbol) λ now c.
        use_coin st (upper symbol) now (fetch_coingecko_price st (upper symbol) c.outside) c

  unfoldable pub get_token_usd_price : PriceSettings → Text → Text → Cached → Answer
  unfolding fetch_coingecko_token_price is_evm_contract
  get_token_usd_price st platform contract_address c =
      let platform = lower (strip platform) in
      let address = lower (strip contract_address) in
      if is_empty platform || not (is_evm_contract address)
      then (c, none, none)
      else use_cached st.price_cache_ttl_seconds (token_key platform address)
          (λ now d.
            use_token (token_key platform address) now
              (fetch_coingecko_token_price st platform address d.outside) d)
          c

  abbrev pub price_service : PriceSettings → Prices
  price_service st = record {
    State = Cached;
    get_usd_price = get_usd_price st;
    get_token_usd_price = get_token_usd_price st;
  }
