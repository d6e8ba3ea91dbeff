-- ===== src/PriceHistory/Frame.antt =====
-- Recording a price touches the assets and the prices only.
use py_wallet_snapshot_servi.Prelude.{
  ℤ, ℕ, ◌≡◌, refl, Bool, ◌||◌, Option, none, some, Text, any, Bool-cases, lower, upper, strip, inl,
  inr, arith, find?,
}
use py_wallet_snapshot_servi.Decimal.{Decimal}
use py_wallet_snapshot_servi.Models.{Asset}
use py_wallet_snapshot_servi.Session.{Tables}
use py_wallet_snapshot_servi.Collection.{AssetBalance}
use py_wallet_snapshot_servi.PriceHistory.{
  Identity, Recorder, found_or_new, find_or_create_asset, is_recordable, add_price, record_identity,
  record_priced, record_price, balance_identity, same_identity, is_asset, normalize_address,
}

-- Nothing else differs.
pub record SameElsewhere (t u : Tables) : Type 0 where
  pub same_runs : u.runs ≡ t.runs
  pub same_wallet_snapshots : u.wallet_snapshots ≡ t.wallet_snapshots
  pub same_chain_snapshots : u.chain_snapshots ≡ t.chain_snapshots
  pub same_balance_snapshots : u.balance_snapshots ≡ t.balance_snapshots
  pub same_next_wallet_snapshot : u.next_wallet_snapshot ≡ t.next_wallet_snapshot
  pub same_next_chain_snapshot : u.next_chain_snapshot ≡ t.next_chain_snapshot

same : (t : Tables) → SameElsewhere t t
same t = record {
  same_runs = refl;
  same_wallet_snapshots = refl;
  same_chain_snapshots = refl;
  same_balance_snapshots = refl;
  same_next_wallet_snapshot = refl;
  same_next_chain_snapshot = refl;
}

found_or_new-SameElsewhere :
    (o : Option Asset) (new : Asset) (t : Tables) → SameElsewhere t (found_or_new o new t).1
found_or_new-SameElsewhere none new t = ground arith
found_or_new-SameElsewhere (some a) new t = same t

find_or_create_asset-SameElsewhere :
    (chain symbol : Text) (address : Option Text) (decimals : ℤ) (t : Tables)
    → SameElsewhere t (find_or_create_asset chain symbol address decimals t).1
unfolding find_or_create_asset
find_or_create_asset-SameElsewhere chain symbol address decimals t =
    found_or_new-SameElsewhere (find? (is_asset chain symbol address) t.assets) _ t

add_price-SameElsewhere :
    (chain : Text) (b : AssetBalance) (p : Decimal) (s : Text) (at : ℕ) (t : Tables)
    → SameElsewhere t (add_price chain b p s at t)
unfolding add_price
add_price-SameElsewhere chain b p s at t =
    let f =
      find_or_create_asset-SameElsewhere (lower (strip chain)) (upper (strip b.symbol))
        (normalize_address b.asset_address) b.decimals t in
    record {
      same_runs = f.same_runs;
      same_wallet_snapshots = f.same_wallet_snapshots;
      same_chain_snapshots = f.same_chain_snapshots;
      same_balance_snapshots = f.same_balance_snapshots;
      same_next_wallet_snapshot = f.same_next_wallet_snapshot;
      same_next_chain_snapshot = f.same_next_chain_snapshot;
    }

record_identity-SameElsewhere :
    (rejects : Identity → Bool) (chain : Text) (b : AssetBalance) (p : Decimal) (s : Text) (at : ℕ)
    (r : Recorder)
    → SameElsewhere r.tables (record_identity rejects chain b p s at r).0.tables
record_identity-SameElsewhere rejects chain b p s at r =
    elim (Bool-cases (
      any (same_identity (balance_identity chain b)) r.recorded_assets
      || rejects (balance_identity chain b))) [
        | inl e ↦ rw e (same r.tables)
        | inr e ↦ rw e (add_price-SameElsewhere chain b p s at r.tables)
      ]

record_priced-SameElsewhere :
    (rejects : Identity → Bool) (chain : Text) (b : AssetBalance) (p : Option Decimal)
    (s : Option Text) (at : ℕ) (r : Recorder)
    → SameElsewhere r.tables (record_priced rejects chain b p s at r).0.tables
record_priced-SameElsewhere rejects chain b (some p) (some s) at r =
    record_identity-SameElsewhere rejects chain b p s at r
record_priced-SameElsewhere rejects chain b none s at r = same r.tables
record_priced-SameElsewhere rejects chain b (some p) none at r = same r.tables

pub record_price-SameElsewhere :
    (rejects : Identity → Bool) (chain : Text) (b : AssetBalance) (at : ℕ) (r : Recorder)
    → SameElsewhere r.tables (record_price rejects chain b at r).0.tables
unfolding record_price
record_price-SameElsewhere rejects chain b at r = elim (Bool-cases (is_recordable b)) [
  | inl e ↦ rw e (record_priced-SameElsewhere rejects chain b b.price_usd b.price_source at r)
  | inr e ↦ rw e (same r.tables)
]
