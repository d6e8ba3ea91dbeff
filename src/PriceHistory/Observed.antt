-- ===== src/PriceHistory/Observed.antt =====
-- What calls of the recorder of app/services/price_history.py add: a price row for each new identity.
use mathlib.Core.List.{
  append-nil, append_assoc, map-append, reverse, reverse-append, Mem, Mem-prop, mem-cons,
  mem-cons_self, mem-cons_of_mem, mem-append_left, mem-append_right, not-mem-nil,
}
use mathlib.Core.Logic.Or
use mathlib.Core.Option.{some-injective}
use py_wallet_snapshot_servi.Prelude.{
  ℤ, ℕ, ◌≡◌, refl, sym, ap, ◌∙◌, Bool, true, false, Option, none, some, find?, List, [], ◌∷◌, ◌++◌,
  any, map, ◌⊎◌, All, All-mono, All-append, Pairwise, Bool-cases, inl, inr, arith, Text, text_in,
  lower, upper, strip,
}
use py_wallet_snapshot_servi.Decimal.{is_positive}
use py_wallet_snapshot_servi.Models.{Asset, PriceHistory}
use py_wallet_snapshot_servi.Session.{Tables}
use py_wallet_snapshot_servi.Collection.{AssetBalance}
use py_wallet_snapshot_servi.PriceHistory.{
  Identity, same_identity, Recorder, provider_price_sources, normalize_address, balance_identity,
  is_asset, found_or_new, find_or_create_asset,
}

abbrev pub Different : Identity → Identity → Type 0
Different i j = same_identity i j ≡ false

-- A row of a provider's price.
abbrev pub IsObservation : PriceHistory → Type 0
IsObservation row =
    (is_positive row.price_usd ≡ true) × (text_in row.source provider_price_sources ≡ true)

abbrev pub IsRecorded : Recorder → Identity → Type 0
IsRecorded r i = any (same_identity i) r.recorded_assets ≡ true

-- A call of `record`: the chain, the balance and the time.
abbrev pub Observation : Type 0
Observation = Text × AssetBalance × ℕ

-- The asset of a balance: the query finds it, or it has the columns with which it is created.
abbrev pub IsAssetOf : Text → AssetBalance → Asset → Type 0
IsAssetOf chain b a =
    let symbol = upper (strip b.symbol) in
    let address = normalize_address b.asset_address in
    (is_asset (lower (strip chain)) symbol address a ≡ true)
    ⊎ ((a.chain ≡ lower (strip chain)) × (a.symbol ≡ symbol) × (a.contract_address ≡ address))

-- The row `price` records the identity: it has the price, the source and the time of one of the
-- observations `os`, of a balance with that identity, and refers to an asset of that balance.
pub record IsPriceOf (os : List Observation) (assets : List Asset) (i : Identity)
    (price : PriceHistory) : Type 0 where
  pub chain : Text
  pub balance : AssetBalance
  pub observed_at : ℕ
  pub observed : Mem (chain, balance, observed_at) os
  pub of_identity : balance_identity chain balance ≡ i
  pub of_price : balance.price_usd ≡ some price.price_usd
  pub of_source : balance.price_source ≡ some price.source
  pub of_time : price.price_at ≡ observed_at
  pub asset : Asset
  pub stored : Mem asset assets
  pub of_asset : price.asset_id ≡ asset.id
  pub same_asset : IsAssetOf chain balance asset
  pub real : IsObservation price

abbrev pub identities : List (Identity × PriceHistory) → List Identity
identities = map λ n. n.0

abbrev pub price_rows : List (Identity × PriceHistory) → List PriceHistory
price_rows ns = reverse (map (λ (n : Identity × PriceHistory). n.1) ns)

-- From `r` to `r'`, with the observations `os`: identities are recorded that were not, the last one
-- first, and for each of them one price row of it is added at the end.
pub record Observed (os : List Observation) (r r' : Recorder) : Type 0 where
  pub news : List (Identity × PriceHistory)
  pub recorded : r'.recorded_assets ≡ identities news ++ r.recorded_assets
  pub added : r'.tables.prices_history ≡ r.tables.prices_history ++ price_rows news
  pub priced : All (λ n. IsPriceOf os r'.tables.assets n.0 n.1) news
  pub kept : (a : Asset) → Mem a r.tables.assets → Mem a r'.tables.assets
  pub distinct : Pairwise Different r.recorded_assets → Pairwise Different r'.recorded_assets

pub Observed-refl : (os : List Observation) (r : Recorder) → Observed os r r
Observed-refl os r = record {
  news = [];
  recorded = refl;
  added = sym (append-nil r.tables.prices_history);
  priced = tt;
  kept = λ a m. m;
  distinct = λ d. d;
}

-- The same row, with more observations and assets.
IsPriceOf-mono :
    (os ps : List Observation) (assets more : List Asset)
    → ((o : Observation) → Mem o os → Mem o ps)
    → ((a : Asset) → Mem a assets → Mem a more)
    → (i : Identity) (price : PriceHistory) → IsPriceOf os assets i price
    → IsPriceOf ps more i price
IsPriceOf-mono os ps assets more f g i price p = record {
  chain = p.chain;
  balance = p.balance;
  observed_at = p.observed_at;
  observed = f _ p.observed;
  of_identity = p.of_identity;
  of_price = p.of_price;
  of_source = p.of_source;
  of_time = p.of_time;
  asset = p.asset;
  stored = g p.asset p.stored;
  of_asset = p.of_asset;
  same_asset = p.same_asset;
  real = p.real;
}

price_rows-append :
    (ms ns : List (Identity × PriceHistory))
    → price_rows ns ++ price_rows ms ≡ price_rows (ms ++ ns)
price_rows-append ms ns = sym (
    ap reverse (map-append (λ (n : Identity × PriceHistory). n.1) ms ns)
    ∙ reverse-append (map (λ (n : Identity × PriceHistory). n.1) ms)
        (map (λ (n : Identity × PriceHistory). n.1) ns))

pub Observed-trans :
    (o : Observation) (os : List Observation) (r s t : Recorder)
    → Observed (o ∷ []) r s
    → Observed os s t
    → Observed (o ∷ os) r t
Observed-trans o os r s t a b = record {
  news = b.news ++ a.news;
  recorded =
      b.recorded
      ∙ ap (λ (l : List Identity). identities b.news ++ l) a.recorded
      ∙ sym (append_assoc (identities b.news) (identities a.news) r.recorded_assets)
      ∙ ap (λ (l : List Identity). l ++ r.recorded_assets)
          (sym (map-append (λ (n : Identity × PriceHistory). n.0) b.news a.news));
  added =
      b.added
      ∙ ap (λ (l : List PriceHistory). l ++ price_rows b.news) a.added
      ∙ append_assoc r.tables.prices_history (price_rows a.news) (price_rows b.news)
      ∙ ap (λ (l : List PriceHistory). r.tables.prices_history ++ l)
          (price_rows-append b.news a.news);
  priced =
      All-append (λ n. IsPriceOf (o ∷ os) t.tables.assets n.0 n.1) b.news a.news
        (All-mono
          (λ n.
            IsPriceOf-mono os (o ∷ os) t.tables.assets t.tables.assets (λ x m. mem-cons_of_mem o m)
              (λ x m. m) n.0 n.1)
          b.news b.priced)
        (All-mono
          (λ n.
            IsPriceOf-mono (o ∷ []) (o ∷ os) s.tables.assets t.tables.assets
              (λ x m.
                Or.elim Mem-prop (mem-cons.0 m) (λ e. rw e mem-cons_self)
                  (λ k. absurd (not-mem-nil k)))
              b.kept n.0 n.1)
          a.news a.priced);
  kept = λ x m. b.kept x (a.kept x m);
  distinct = λ d. b.distinct (a.distinct d);
}

-- What the query finds is stored and passes it.
find?-found :
    (p : Asset → Bool) (xs : List Asset) (a : Asset) → find? p xs ≡ some a → Mem a xs × (p a ≡ true)
find?-found p [] a e = absurd (ground arith)
find?-found p (x ∷ xs) a e = elim (Bool-cases (p x)) [
  | inl h ↦
      let same : x ≡ a = some-injective x a (sym (rw h refl) ∙ e) in
      (rw (← same) mem-cons_self, rw (← same) h)
  | inr h ↦
      let (m, passes) = find?-found p xs a (sym (rw h refl) ∙ e) in (mem-cons_of_mem x m, passes)
]

-- The asset that is found or created is stored, and no stored asset is lost.
pub found_or_new-stored :
    (p : Asset → Bool) (new : Asset) (t : Tables) (found : Option Asset)
    → find? p t.assets ≡ found
    → let (a, t') = found_or_new found new t in
      Mem a t'.assets
      × ((p a ≡ true) ⊎ (a ≡ new))
      × ((x : Asset) → Mem x t.assets → Mem x t'.assets)
found_or_new-stored p new t none e =
    (mem-append_right t.assets mem-cons_self, inr refl, λ x m. mem-append_left (new ∷ []) m)
found_or_new-stored p new t (some a) e =
    let (m, passes) = find?-found p t.assets a e in (m, inl passes, λ x n. n)

found_or_new-prices :
    (found : Option Asset) (new : Asset) (t : Tables)
    → (found_or_new found new t).1.prices_history ≡ t.prices_history
found_or_new-prices none new t = refl
found_or_new-prices (some a) new t = refl

pub find_or_create_asset-prices :
    (chain symbol : Text) (address : Option Text) (decimals : ℤ) (t : Tables)
    → (find_or_create_asset chain symbol address decimals t).1.prices_history ≡ t.prices_history
unfolding find_or_create_asset
find_or_create_asset-prices chain symbol address decimals t =
    found_or_new-prices (find? (is_asset chain symbol address) t.assets) _ t
