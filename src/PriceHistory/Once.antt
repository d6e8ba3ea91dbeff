-- ===== src/PriceHistory/Once.antt =====
-- One price for each asset in a job.
use mathlib.Core.Bool.{false≢true}
use mathlib.Core.List.{Mem, mem-cons_self}
use py_wallet_snapshot_servi.Prelude.{
  ℕ, ◌≡◌, refl, ap, ◌∙◌, Bool, true, false, ◌||◌, Option, none, some, find?, List, [], ◌∷◌, ◌++◌,
  any, any-false, ◌⊎◌, All, Bool-cases, inl, inr, arith, Text, text_eq_refl, text_in, lower, upper,
  strip,
}
use py_wallet_snapshot_servi.Decimal.{Decimal, is_positive}
use py_wallet_snapshot_servi.Models.{Asset, PriceHistory}
use py_wallet_snapshot_servi.Session.{Tables}
use py_wallet_snapshot_servi.Collection.{AssetBalance}
use py_wallet_snapshot_servi.PriceHistory.{
  Identity, same_identity, Recorder, provider_price_sources, normalize_address, balance_identity,
  from_provider, is_priced, is_recordable, is_asset, find_or_create_asset, add_price,
  record_identity, record_priced, record_price, record_all,
}
use py_wallet_snapshot_servi.PriceHistory.Observed.{
  IsRecorded, Observation, IsAssetOf, IsPriceOf, identities, Observed, Observed-refl,
  Observed-trans, found_or_new-stored, find_or_create_asset-prices,
}

same_identity_refl : (i : Identity) → same_identity i i ≡ true
same_identity_refl (a, b, c) = rw (text_eq_refl a, text_eq_refl b, text_eq_refl c)

-- A new asset has the columns of its balance.
IsAssetOf-stored :
    (chain : Text) (b : AssetBalance) (a : Asset) (id : ℕ)
    → (is_asset (lower (strip chain)) (upper (strip b.symbol)) (normalize_address b.asset_address) a
        ≡ true)
      ⊎ (a ≡ record {
        id = id;
        symbol = upper (strip b.symbol);
        name = some (upper (strip b.symbol));
        contract_address = normalize_address b.asset_address;
        chain = lower (strip chain);
        decimals = b.decimals;
      })
    → IsAssetOf chain b a
IsAssetOf-stored chain b a id (inl e) = inl e
IsAssetOf-stored chain b a id (inr e) = inr (
  ap (λ (x : Asset). x.chain) e,
  ap (λ (x : Asset). x.symbol) e,
  ap (λ (x : Asset). x.contract_address) e,
)

-- The added row, with its asset.
add_price-priced :
    (chain : Text) (b : AssetBalance) (p : Decimal) (source : Text) (at : ℕ) (t : Tables)
    → b.price_usd ≡ some p
    → b.price_source ≡ some source
    → is_positive p ≡ true
    → text_in source provider_price_sources ≡ true
    → let t' = add_price chain b p source at t in
      (row : PriceHistory) × IsPriceOf
        ((chain, b, at) ∷ [])
        t'.assets
        (balance_identity chain b)
        row
      × (t'.prices_history ≡ t.prices_history ++ row ∷ [])
      × ((x : Asset) → Mem x t.assets → Mem x t'.assets)
unfolding add_price find_or_create_asset
add_price-priced chain b p source at t priced sourced positive known =
    let symbol = upper (strip b.symbol) in
    let address = normalize_address b.asset_address in
    let query = is_asset (lower (strip chain)) symbol address in
    let (asset, t') = find_or_create_asset (lower (strip chain)) symbol address b.decimals t in
    let row : PriceHistory = record {
      id = t'.next_price;
      asset_id = asset.id;
      price_at = at;
      price_usd = p;
      source = source;
    } in
    let (stored, same, kept) = found_or_new-stored query _ t (find? query t.assets) refl in
    (
      row,
      record {
        chain = chain;
        balance = b;
        observed_at = at;
        observed = mem-cons_self;
        of_identity = refl;
        of_price = priced;
        of_source = sourced;
        of_time = refl;
        asset = asset;
        stored = stored;
        of_asset = refl;
        same_asset = IsAssetOf-stored chain b asset t.next_asset same;
        real = (positive, known);
      },
      ap (λ (l : List PriceHistory). l ++ row ∷ [])
          (find_or_create_asset-prices (lower (strip chain)) symbol address b.decimals t),
      kept,
    )

-- What one call does.
abbrev Answered : (Identity → Bool) → Bool → Observation → Recorder → Recorder → Type 0
Answered rejects recordable (chain, b, at) r r' =
    Observed ((chain, b, at) ∷ []) r r'
    × (recordable ≡ true
        → rejects (balance_identity chain b) ≡ false
        → IsRecorded r' (balance_identity chain b))

record_identity-Answered :
    (rejects : Identity → Bool) (recordable : Bool) (chain : Text) (b : AssetBalance) (p : Decimal)
    (s : Text) (at : ℕ) (r : Recorder)
    → b.price_usd ≡ some p
    → b.price_source ≡ some s
    → is_positive p ≡ true
    → text_in s provider_price_sources ≡ true
    → Answered rejects recordable (chain, b, at) r (record_identity rejects chain b p s at r).0
record_identity-Answered rejects recordable chain b p s at r priced sourced positive known =
    let i = balance_identity chain b in
    let (row, real, added, kept) =
      add_price-priced chain b p s at r.tables priced sourced positive known in
    elim (Bool-cases (any (same_identity i) r.recorded_assets || rejects i)) [
      | inl e ↦ rw e (Observed-refl ((chain, b, at) ∷ []) r, λ _ fine. ground arith)
      | inr e ↦ rw e (
        (record {
          news = (i, row) ∷ [];
          recorded = refl;
          added = added;
          priced = (real, tt);
          kept = kept;
          distinct = λ d. (any-false (same_identity i) r.recorded_assets (ground arith), d);
        }),
        λ _ fine. rw (same_identity_refl i),
      )
    ]

record_priced-Answered :
    (rejects : Identity → Bool) (recordable : Bool) (chain : Text) (b : AssetBalance)
    (p : Option Decimal) (s : Option Text) (at : ℕ) (r : Recorder)
    → b.price_usd ≡ p
    → b.price_source ≡ s
    → is_priced p ≡ true
    → from_provider s ≡ true
    → Answered rejects recordable (chain, b, at) r (record_priced rejects chain b p s at r).0
record_priced-Answered rejects recordable chain b (some p) (some s) at r priced sourced positive
      known =
    record_identity-Answered rejects recordable chain b p s at r priced sourced positive known
record_priced-Answered rejects recordable chain b none s at r priced sourced positive known =
    absurd (false≢true positive)
record_priced-Answered rejects recordable chain b (some p) none at r priced sourced positive known =
    absurd (false≢true known)

record_price-Answered :
    (rejects : Identity → Bool) (chain : Text) (b : AssetBalance) (at : ℕ) (r : Recorder)
    → Answered rejects (is_recordable b) (chain, b, at) r (record_price rejects chain b at r).0
unfolding record_price
record_price-Answered rejects chain b at r = elim (Bool-cases (is_recordable b)) [
  | inl e ↦ rw e (
      record_priced-Answered rejects true chain b b.price_usd b.price_source at r refl refl
        (ground arith) (ground arith))
  | inr e ↦
      rw e (Observed-refl ((chain, b, at) ∷ []) r, λ recordable. absurd (false≢true recordable))
]

any-append_right :
    (p : Identity → Bool) (xs ys : List Identity) → any p ys ≡ true → any p (xs ++ ys) ≡ true
any-append_right p [] ys h = h
any-append_right p (x ∷ xs) ys h = ground (arith, any-append_right p xs ys h)

-- What has to be recorded of an observation.
abbrev pub IsCovered : (Identity → Bool) → Recorder → Text × AssetBalance × ℕ → Type 0
IsCovered rejects r (chain, b, at) =
    is_recordable b ≡ true
    → rejects (balance_identity chain b) ≡ false
    → IsRecorded r (balance_identity chain b)

-- Any calls of `record` in a job, in any order: the identities recorded on the way were not recorded
-- before, and stay different if they were; for each of them one price row is added, in the order in
-- which they were recorded, with the positive price, the provider, and the time of an observation of
-- that identity, for an asset that is stored and has its chain and its address or symbol; and each
-- recordable balance whose insert the database accepts has its identity recorded at the end.
pub record_all-Observed :
    (rejects : Identity → Bool) (os : List (Text × AssetBalance × ℕ)) (r : Recorder)
    → let r' = record_all rejects os r in Observed os r r' × All (IsCovered rejects r') os
unfolding record_all
record_all-Observed rejects [] r = (Observed-refl [] r, tt)
record_all-Observed rejects ((chain, b, at) ∷ os) r =
    let s = (record_price rejects chain b at r).0 in
    let (first, covers) = record_price-Answered rejects chain b at r in
    let (rest, covered) = record_all-Observed rejects os s in
    let i = balance_identity chain b in
    (
      Observed-trans (chain, b, at) os r s (record_all rejects os s) first rest,
      (
        λ recordable fine.
            ap (any (same_identity i)) rest.recorded
            ∙ any-append_right (same_identity i) (identities rest.news) s.recorded_assets
                (covers recordable fine),
        covered,
      ),
    )
