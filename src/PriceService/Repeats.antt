-- ===== src/PriceService/Repeats.antt =====
-- Repeated calls of get_usd_price in app/services/price_service.py: the cache answers them.
use py_wallet_snapshot_servi.Prelude.{
  ℕ, ◌+◌, ◌*◌, ◌<◌, ◌≡◌, ◌⊎◌, inl, inr, refl, sym, ap, ◌∙◌, Option, none, some, arith, Text,
  text_eq, text_eq_refl, upper, lookup,
}
use py_wallet_snapshot_servi.Decimal.{Decimal}
use py_wallet_snapshot_servi.PriceService.{
  Web, PriceSettings, Quote, Cached, Answer, answer, fresh, remember, second, use_coin, use_fiat,
  use_fallback, dev_price, get_usd_price, fetch_coingecko_price, fetch_fiat_usd_rate,
}
use py_wallet_snapshot_servi.PriceService.Sources.{fresh-some}

module _ (web : Web) (st : PriceSettings) where
  -- When the price of a quote was found: at the clock's reading of the call that starts with `c`, or
  -- before it, so that the cache of `c` has the quote and it is not yet too old for the setting.
  abbrev pub IsTimed : Text → Cached web → Quote → Type 0
  IsTimed key c q =
      (q.at ≡ (web.time c.outside).1)
      ⊎ ((lookup text_eq key c.cache ≡ some q)
          × ((web.time c.outside).1 < q.at + st.price_cache_ttl_seconds * second))

  -- After an answer with a price, the cache has a quote that says the same.
  abbrev pub Kept : Text → Cached web → Answer web → Type 0
  Kept key before (c, none, source) = Unit
  Kept key before (c, some price, source) =
      (q : Quote) × IsTimed key before q
      × (lookup text_eq key c.cache ≡ some q)
      × (q.price ≡ price)
      × (source ≡ some q.source)

  -- Until its quote is as old as the setting allows, the cache `c` answers any symbol that is the same
  -- in upper case as the quote says, and only the clock is read.
  abbrev pub Repeats : Text → Cached web → Answer web → Type 0
  Repeats key before (c, none, source) = Unit
  Repeats key before (c, some price, source) =
      (q : Quote) × IsTimed key before q
      × ((symbol : Text) (outside : web.State)
          → upper symbol ≡ key
          → (web.time outside).1 < q.at + st.price_cache_ttl_seconds * second
          → get_usd_price web st symbol (record c { outside = outside })
            ≡ (record c { outside = (web.time outside).0 }, some price, source))

  remember-Kept :
      (key : Text) (before : Cached web) (q : Quote) (c : Cached web)
      → q.at ≡ (web.time before.outside).1
      → Kept key before (remember web key q c)
  unfolding lookup
  remember-Kept key before q c timed = (q, inl timed, rw (text_eq_refl key) refl, refl, refl)

  use_fallback-Kept :
      (key : Text) (before : Cached web) (price : Option Decimal) (c : Cached web)
      → Kept key before (use_fallback web key (web.time before.outside).1 price c)
  use_fallback-Kept key before none c = tt
  use_fallback-Kept key before (some price) c = remember-Kept key before _ c refl

  use_fiat-Kept :
      (key : Text) (before : Cached web) (found : web.State × Option Decimal) (c : Cached web)
      → Kept key before (use_fiat web st key (web.time before.outside).1 found c)
  use_fiat-Kept key before (s, none) c =
      use_fallback-Kept key before (dev_price st key) (record c { outside = s })
  use_fiat-Kept key before (s, some price) c =
      remember-Kept key before _ (record c { outside = s }) refl

  use_coin-Kept :
      (key : Text) (before : Cached web) (found : web.State × Option Decimal) (c : Cached web)
      → Kept key before (use_coin web st key (web.time before.outside).1 found c)
  use_coin-Kept key before (s, none) c =
      use_fiat-Kept key before (fetch_fiat_usd_rate web st key s) c
  use_coin-Kept key before (s, some price) c =
      remember-Kept key before _ (record c { outside = s }) refl

  -- A quote that counts as fresh is young.
  fresh-lt :
      (ttl now : ℕ) (o : Option Quote) (q : Quote)
      → fresh ttl now o ≡ some q
      → now < q.at + ttl * second
  fresh-lt ttl now none q e = absurd (ground arith)
  fresh-lt ttl now (some r) q e = ground arith

  get_usd_price-Kept :
      (symbol : Text) (c : Cached web) → Kept (upper symbol) c (get_usd_price web st symbol c)
  unfolding get_usd_price
  get_usd_price-Kept symbol c = split _ λ q e. (
    fresh-some web st st.price_cache_ttl_seconds (web.time c.outside).1
        (lookup text_eq (upper symbol) c.cache) q e,
    fresh-lt st.price_cache_ttl_seconds (web.time c.outside).1 _ q e,
  )
    where
      after : Cached web
      after = record c { outside = (web.time c.outside).0 }

      split :
          (o : Option Quote)
          → ((q : Quote)
              → o ≡ some q
              → (lookup text_eq (upper symbol) c.cache ≡ some q)
                × ((web.time c.outside).1 < q.at + st.price_cache_ttl_seconds * second))
          → Kept (upper symbol) c (elim o [
            | some q ↦ answer web q after
            | none ↦
                use_coin web st
                  (upper symbol)
                  (web.time c.outside).1
                  (fetch_coingecko_price web st (upper symbol) after.outside)
                  after
          ])
      split none h = use_coin-Kept (upper symbol) c _ after
      split (some q) h = (q, inr (h q refl), (h q refl).0, refl, refl)

  fresh-young :
      (ttl now : ℕ) (q : Quote) → now < q.at + ttl * second → fresh ttl now (some q) ≡ some q
  fresh-young ttl now q early = ground arith

  -- What a fresh quote answers.
  get_usd_price-fresh :
      (symbol : Text) (c : Cached web) (q : Quote)
      → lookup text_eq (upper symbol) c.cache ≡ some q
      → (web.time c.outside).1 < q.at + st.price_cache_ttl_seconds * second
      → get_usd_price web st symbol c ≡ answer web q (record c { outside = (web.time c.outside).0 })
  unfolding get_usd_price
  get_usd_price-fresh symbol c q found early =
      let now = (web.time c.outside).1 in
      let after : Cached web = record c { outside = (web.time c.outside).0 } in
      let e : fresh st.price_cache_ttl_seconds now (lookup text_eq (upper symbol) c.cache)
          ≡ some q =
        rw found (fresh-young st.price_cache_ttl_seconds now q early) in
      ap
        (λ o. elim o as (λ _. Answer web) [
          | some r ↦ answer web r after
          | none ↦
              use_coin web st (upper symbol) now
                (fetch_coingecko_price web st (upper symbol) after.outside) after
        ])
        e

  -- After a call with a price, there is a quote, found at the clock's reading of this call or kept from
  -- before and less than the configured seconds old, for which: a call for the same symbol, in any case
  -- of letters, and with any state of the services, answers the same price and source, asks no service
  -- and leaves the cache as it is, as long as the clock reads less than the quote's time plus the
  -- configured seconds.
  pub get_usd_price-Repeats :
      (symbol : Text) (c : Cached web) → Repeats (upper symbol) c (get_usd_price web st symbol c)
  get_usd_price-Repeats symbol c =
      of_kept (get_usd_price web st symbol c) (get_usd_price-Kept symbol c)
    where
      of_kept : (a : Answer web) → Kept (upper symbol) c a → Repeats (upper symbol) c a
      of_kept (d, none, source) k = tt
      of_kept (d, some price, source) (q, timed, found, same, named) = (
        q,
        timed,
        λ other outside e early.
            let c' : Cached web = record d { outside = outside } in
            let hit : lookup text_eq (upper other) c'.cache ≡ some q = rw e found in
            get_usd_price-fresh other c' q hit early
            ∙ ap
                (λ (z : Decimal × Option Text).
                  (record d { outside = (web.time outside).0 }, some z.0, z.1))
                (λ i. (same i, sym named i)),
      )
