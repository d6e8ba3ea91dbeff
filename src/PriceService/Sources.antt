-- ===== src/PriceService/Sources.antt =====
-- What the cache of app/services/price_service.py holds, and where the prices of an answer are from.
use py_wallet_snapshot_servi.Prelude.{
  ℕ, ◌≡◌, refl, Bool, true, false, not, ◌&&◌, ◌||◌, Option, none, some, [], ◌∷◌, ◌++◌, All,
  if◌then◌else◌, arith, Text, codes, text_eq, text_eq_sound, starts_with, upper, strip, lower,
  is_empty, lookup, lookup-All,
}
use py_wallet_snapshot_servi.Decimal.{Decimal, is_positive}
use py_wallet_snapshot_servi.Access.{is_secure}
use py_wallet_snapshot_servi.PriceService.{
  Web, PriceSettings, Quote, Cached, Answer, answer, fresh, token_key, use_cached, use_coin,
  positive, use_fiat, use_fallback, use_token, decimal_under, dev_price, get_usd_price,
  get_token_usd_price, fetch_coingecko_price, fetch_coingecko_token_price, fetch_fiat_usd_rate,
  is_evm_contract,
}

-- The sources a price may have: the fixed prices only outside staging and production.
abbrev pub is_source : PriceSettings → Text → Bool
is_source st source =
    text_eq source (codes "coingecko")
    || text_eq source (codes "frankfurter")
    || (text_eq source (codes "static_dev") && not (is_secure st.environment))

abbrev pub is_token_key : Text → Bool
is_token_key key = starts_with key (codes "token:")

-- An entry of the cache: from a known source, and a positive one of CoinGecko for a token.
pub record IsEntry (st : PriceSettings) (e : Text × Quote) : Type 0 where
  pub known : is_source st e.1.source ≡ true
  pub of_token :
      is_token_key e.0 ≡ true → (e.1.source ≡ codes "coingecko") × (is_positive e.1.price ≡ true)

-- An answer of get_usd_price: a price with a known source, or neither.
abbrev pub IsPriced : PriceSettings → Option Decimal → Option Text → Type 0
IsPriced st none none = Unit
IsPriced st (some price) (some source) = is_source st source ≡ true
IsPriced st _ _ = ⊥

-- An answer of get_token_usd_price: a positive price from CoinGecko, or neither.
abbrev pub IsTokenPriced : Option Decimal → Option Text → Type 0
IsTokenPriced none none = Unit
IsTokenPriced (some price) (some source) = (is_positive price ≡ true) × (source ≡ codes "coingecko")
IsTokenPriced _ _ = ⊥

-- A symbol in upper case is never the key of a token.
upper-is_token_key : (s : Text) → is_token_key (upper s) ≡ false
unfolding upper starts_with
upper-is_token_key [] = refl
upper-is_token_key (c ∷ s) = ground arith

token_key-is_token_key : (p a : Text) → is_token_key (token_key p a) ≡ true
unfolding starts_with
token_key-is_token_key p a = refl

module _ (web : Web) (st : PriceSettings) where
  abbrev pub IsSound : Cached web → Type 0
  IsSound c = All (IsEntry st) c.cache

  abbrev pub Sound : (Option Decimal → Option Text → Type 0) → Answer web → Type 0
  Sound P (c, price, source) = IsSound c × P price source

  -- An entry from a source that is no token's.
  plain-IsEntry :
      (key : Text) (q : Quote)
      → is_token_key key ≡ false
      → is_source st q.source ≡ true
      → IsEntry st (key, q)
  plain-IsEntry key q k s = record { known = s; of_token = λ h. absurd (ground arith) }

  use_fallback-Sound :
      (key : Text) (now : ℕ) (price : Option Decimal) (c : Cached web)
      → is_token_key key ≡ false
      → ((p : Decimal) → price ≡ some p → is_secure st.environment ≡ false)
      → IsSound c
      → Sound (IsPriced st) (use_fallback web key now price c)
  unfolding text_eq
  use_fallback-Sound key now none c k h s = (s, tt)
  use_fallback-Sound key now (some p) c k h s =
      let known : is_source st (codes "static_dev") ≡ true = rw (h p refl) refl in
      (
        (
          plain-IsEntry key (record { at = now; price = p; source = codes "static_dev" }) k known,
          s,
        ),
        known,
      )

  dev_price-secure :
      (key : Text) (p : Decimal) → dev_price st key ≡ some p → is_secure st.environment ≡ false
  dev_price-secure key p h = ground arith

  use_fiat-Sound :
      (key : Text) (now : ℕ) (found : web.State × Option Decimal) (c : Cached web)
      → is_token_key key ≡ false
      → IsSound c
      → Sound (IsPriced st) (use_fiat web st key now found c)
  unfolding text_eq
  use_fiat-Sound key now (o, none) c k s =
      use_fallback-Sound key now (dev_price st key) (record c { outside = o }) k
        (dev_price-secure key) s
  use_fiat-Sound key now (o, some p) c k s = (
    (plain-IsEntry key (record { at = now; price = p; source = codes "frankfurter" }) k refl, s),
    refl,
  )

  use_coin-Sound :
      (key : Text) (now : ℕ) (found : web.State × Option Decimal) (c : Cached web)
      → is_token_key key ≡ false
      → IsSound c
      → Sound (IsPriced st) (use_coin web st key now found c)
  unfolding text_eq
  use_coin-Sound key now (o, none) c k s =
      use_fiat-Sound key now (fetch_fiat_usd_rate web st key o) c k s
  use_coin-Sound key now (o, some p) c k s = (
    (plain-IsEntry key (record { at = now; price = p; source = codes "coingecko" }) k refl, s),
    refl,
  )

  pub fresh-some :
      (ttl now : ℕ) (o : Option Quote) (q : Quote) → fresh ttl now o ≡ some q → o ≡ some q
  fresh-some ttl now none q h = h
  fresh-some ttl now (some r) q h = ground arith

  use_cached-Sound :
      (P : Option Decimal → Option Text → Type 0) (ttl : ℕ) (key : Text)
      (search : ℕ → Cached web → Answer web) (c : Cached web)
      → ((q : Quote) → IsEntry st (key, q) → P (some q.price) (some q.source))
      → ((now : ℕ) (d : Cached web) → IsSound d → Sound P (search now d))
      → IsSound c
      → Sound P (use_cached web ttl key search c)
  use_cached-Sound P ttl key search c answers searches s =
      split (fresh ttl (web.time c.outside).1 (lookup text_eq key c.cache)) λ q h.
        lookup-All (IsEntry st) text_eq text_eq_sound key c.cache s
          (fresh-some ttl (web.time c.outside).1 (lookup text_eq key c.cache) q h)
    where
      after : Cached web
      after = record c { outside = (web.time c.outside).0 }

      split :
          (o : Option Quote)
          → ((q : Quote) → o ≡ some q → IsEntry st (key, q))
          → Sound P
              (elim o [ some q ↦ answer web q after | none ↦ search (web.time c.outside).1 after ])
      split none h = searches (web.time c.outside).1 after s
      split (some q) h = (s, answers q (h q refl))

  -- Where every entry of the cache is from a known source, and a token's is positive and from
  -- CoinGecko, this holds after get_usd_price too, whatever the services answer and the clock reads;
  -- a price comes with a known source, which in staging and production is no fixed price.
  pub get_usd_price-IsPriced :
      (symbol : Text) (c : Cached web)
      → IsSound c
      → Sound (IsPriced st) (get_usd_price web st symbol c)
  unfolding get_usd_price
  get_usd_price-IsPriced symbol c s =
      use_cached-Sound (IsPriced st) st.price_cache_ttl_seconds (upper symbol)
        (λ now d.
          use_coin web st (upper symbol) now (fetch_coingecko_price web st (upper symbol) d.outside)
            d)
        c (λ q e. e.known)
        (λ now d.
          use_coin-Sound (upper symbol) now (fetch_coingecko_price web st (upper symbol) d.outside)
            d (upper-is_token_key symbol))
        s

  positive-is_positive :
      (o : Option Decimal) (p : Decimal) → positive o ≡ some p → is_positive p ≡ true
  positive-is_positive none p h = ground arith
  positive-is_positive (some d) p h = ground arith

  fetch_coingecko_token_price-is_positive :
      (platform address : Text) (s : web.State) (p : Decimal)
      → (fetch_coingecko_token_price web st platform address s).1 ≡ some p
      → is_positive p ≡ true
  unfolding fetch_coingecko_token_price
  fetch_coingecko_token_price-is_positive platform address s p h =
      positive-is_positive
        (decimal_under web address
          (web.get_json (st.coingecko_base_url ++ codes "/simple/token_price/" ++ platform)
            ((codes "contract_addresses", address) ∷ (codes "vs_currencies", codes "usd") ∷ [])
            s).1)
        p h

  use_token-Sound :
      (key : Text) (now : ℕ) (found : web.State × Option Decimal) (c : Cached web)
      → ((p : Decimal) → found.1 ≡ some p → is_positive p ≡ true)
      → IsSound c
      → Sound IsTokenPriced (use_token web key now found c)
  unfolding text_eq
  use_token-Sound key now (o, none) c h s = (s, tt)
  use_token-Sound key now (o, some p) c h s =
      let entry : IsEntry st (key, record { at = now; price = p; source = codes "coingecko" }) =
        record { known = refl; of_token = λ _. (refl, h p refl) } in
      ((entry, s), (h p refl, refl))

  -- Where every entry of the cache is from a known source, and a token's is positive and from
  -- CoinGecko, this holds after get_token_usd_price too, whatever the service answers and the clock
  -- reads; it answers a positive price from CoinGecko, or neither a price nor a source. A price kept
  -- for a symbol is never taken for a token's.
  pub get_token_usd_price-IsTokenPriced :
      (platform contract_address : Text) (c : Cached web)
      → IsSound c
      → Sound IsTokenPriced (get_token_usd_price web st platform contract_address c)
  unfolding get_token_usd_price
  get_token_usd_price-IsTokenPriced platform contract_address c s =
      split (is_empty p || not (is_evm_contract a))
    where
      p : Text
      p = lower (strip platform)

      a : Text
      a = lower (strip contract_address)

      found : ℕ → Cached web → Answer web
      found now d =
          use_token web (token_key p a) now (fetch_coingecko_token_price web st p a d.outside) d

      searched :
          Sound IsTokenPriced (use_cached web st.price_cache_ttl_seconds (token_key p a) found c)
      searched =
          use_cached-Sound IsTokenPriced st.price_cache_ttl_seconds (token_key p a) found c
            (λ q e. let (source, pos) = e.of_token (token_key-is_token_key p a) in (pos, source))
            (λ now d.
              use_token-Sound (token_key p a) now (fetch_coingecko_token_price web st p a d.outside)
                d (fetch_coingecko_token_price-is_positive p a d.outside))
            s

      split :
          (b : Bool)
          → Sound IsTokenPriced (
              if b
              then (c, none, none)
              else use_cached web st.price_cache_ttl_seconds (token_key p a) found c)
      split true = (s, tt)
      split false = searched
