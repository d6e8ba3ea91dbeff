-- ===== src/ManualCollector/Values.antt =====
-- What a collected manual wallet holds.
use mathlib.Core.List.{append_assoc, append-nil, map-append}
use py_wallet_snapshot_servi.Prelude.{
  ℕ, ◌≡◌, refl, sym, ap, subst, ◌∙◌, Bool, true, false, ◌&&◌, Option, none, some, is_some, List, [],
  ◌∷◌, ◌++◌, map, foldl, all, Text, codes, upper, if◌then◌else◌, arith,
}
use py_wallet_snapshot_servi.Enums.{ChainStatus, ErrorType, error_type_value}
use py_wallet_snapshot_servi.Decimal.{Decimal, zero_usd, ◌⊞◌}
use py_wallet_snapshot_servi.Session.{Tables}
use py_wallet_snapshot_servi.Collection.{AssetBalance, ChainCollectionResult}
use py_wallet_snapshot_servi.Prices.{Prices}
use py_wallet_snapshot_servi.ManualCollector.{
  Row, Valuation, manual_rows, valued, missing_of, priced_balance, add_row, status_of,
  error_type_of, result_of, price_row, value_rows, collect_wallet,
}

-- The balance of a row: its own price, if it has one, and the value at the price that is used.
pub record IsOf (row : Row) (b : AssetBalance) : Type 0 where
  pub of_symbol : b.symbol ≡ upper row.symbol
  pub of_amount : b.amount ≡ row.balance.amount
  pub of_decimals : b.decimals ≡ row.decimals
  pub of_value : b.value_usd ≡ valued b.amount b.price_usd
  pub own_price :
      (price : Decimal)
      → row.balance.price_usd ≡ some price
      → (b.price_usd ≡ some price) × (b.price_source ≡ some (codes "manual"))

-- A balance for each row, in order.
abbrev pub Matches : List Row → List AssetBalance → Type 0
Matches [] [] = Unit
Matches (r ∷ rs) (b ∷ bs) = IsOf r b × Matches rs bs
Matches _ _ = ⊥

abbrev pub values : List AssetBalance → List Decimal
values = map λ b. b.value_usd

abbrev pub is_valued : AssetBalance → Bool
is_valued b = is_some b.price_usd

abbrev none_missing : List Text → Bool
none_missing [] = true
none_missing (_ ∷ _) = false

-- After the rows `done`.
record Loop (done : List Row) (v : Valuation) : Type 0 where
  matched : Matches done v.balances
  summed : v.total ≡ foldl ◌⊞◌ zero_usd (values v.balances)
  noticed : none_missing v.missing_prices ≡ all is_valued v.balances

Matches-snoc :
    (rs : List Row) (bs : List AssetBalance) (r : Row) (b : AssetBalance)
    → Matches rs bs
    → IsOf r b
    → Matches (rs ++ r ∷ []) (bs ++ b ∷ [])
Matches-snoc [] [] r b m i = (i, tt)
Matches-snoc (q ∷ rs) (c ∷ bs) r b m i = (m.0, Matches-snoc rs bs r b m.1 i)
Matches-snoc [] (c ∷ bs) r b m i = absurd m
Matches-snoc (q ∷ rs) [] r b m i = absurd m

foldl-snoc :
    (z : Decimal) (ds : List Decimal) (d : Decimal)
    → foldl ◌⊞◌ z (ds ++ d ∷ []) ≡ foldl ◌⊞◌ z ds ⊞ d
foldl-snoc z [] d = refl
foldl-snoc z (e ∷ ds) d = foldl-snoc (z ⊞ e) ds d

all-snoc :
    (bs : List AssetBalance) (b : AssetBalance)
    → all is_valued (bs ++ b ∷ []) ≡ (all is_valued bs && is_valued b)
all-snoc [] b = ground arith
all-snoc (c ∷ bs) b = ground (arith, all-snoc bs b)

none_missing-append :
    (ss : List Text) (symbol : Text) (price : Option Decimal)
    → none_missing (ss ++ missing_of symbol price) ≡ (none_missing ss && is_some price)
none_missing-append [] symbol none = refl
none_missing-append [] symbol (some p) = refl
none_missing-append (s ∷ ss) symbol price = refl

add_row-Loop :
    (done : List Row) (row : Row) (price : Option Decimal) (source : Option Text) (v : Valuation)
    → ((p : Decimal)
        → row.balance.price_usd ≡ some p
        → (price ≡ some p)
          × ((priced_balance row price source).price_source ≡ some (codes "manual")))
    → Loop done v
    → Loop (done ++ row ∷ []) (add_row row price source v)
add_row-Loop done row price source v own l =
    let b = priced_balance row price source in
    record {
      matched = Matches-snoc done v.balances row b l.matched (record {
        of_symbol = refl;
        of_amount = refl;
        of_decimals = refl;
        of_value = refl;
        own_price = own;
      });
      summed = ap (λ d. d ⊞ b.value_usd) l.summed ∙ foldl-values v.balances b;
      noticed =
          none_missing-append v.missing_prices row.symbol price
          ∙ ap (λ x. x && is_some price) l.noticed
          ∙ sym (all-snoc v.balances b);
    }
  where
    foldl-values :
        (bs : List AssetBalance) (b : AssetBalance)
        → foldl ◌⊞◌ zero_usd (values bs) ⊞ b.value_usd ≡ foldl ◌⊞◌ zero_usd (values (bs ++ b ∷ []))
    foldl-values bs b =
        sym (foldl-snoc zero_usd (values bs) b.value_usd)
        ∙ ap (foldl ◌⊞◌ zero_usd) (sym (map-append (λ (c : AssetBalance). c.value_usd) bs (b ∷ [])))

-- What the result for the rows is.
pub record IsValued (rows : List Row) (r : ChainCollectionResult) : Type 0 where
  pub matched : Matches rows r.balances
  pub summed : r.total_usd ≡ foldl ◌⊞◌ zero_usd (values r.balances)
  pub status_is :
      r.status ≡ (if all is_valued r.balances then ChainStatus.success else ChainStatus.failed)
  pub error_is : r.error_type ≡ (
      if all is_valued r.balances
      then none
      else some (error_type_value ErrorType.price_unavailable))

result_of-IsValued : (rows : List Row) (v : Valuation) → Loop rows v → IsValued rows (result_of v)
result_of-IsValued rows v l = record {
  matched = l.matched;
  summed = l.summed;
  status_is =
      status_if v.missing_prices
      ∙ ap (λ b. if b then ChainStatus.success else ChainStatus.failed) l.noticed;
  error_is =
      error_if v.missing_prices
      ∙ ap (λ b. if b then none else some (error_type_value ErrorType.price_unavailable)) l.noticed;
}
  where
    status_if :
        (ss : List Text)
        → status_of ss ≡ (if none_missing ss then ChainStatus.success else ChainStatus.failed)
    status_if [] = refl
    status_if (s ∷ ss) = refl

    error_if :
        (ss : List Text)
        → error_type_of ss
          ≡ (if none_missing ss then none else some (error_type_value ErrorType.price_unavailable))
    error_if [] = refl
    error_if (s ∷ ss) = refl

module _ (p : Prices) where
  open p use {State}

  price_row-own :
      (row : Row) (own : Option Decimal) (s : State) (price : Decimal)
      → own ≡ some price
      → let (_, used, source) = price_row p row own s in
        (used ≡ some price)
        × ((priced_balance row used source).price_source ≡ some (codes "manual"))
  price_row-own row (some q) s price e = (e, refl)
  price_row-own row none s price e = absurd (ground arith)

  value_rows-Loop :
      (rows done : List Row) (v : Valuation) (s : State)
      → Loop done v
      → Loop (done ++ rows) (value_rows p rows v s).1
  unfolding value_rows
  value_rows-Loop [] done v s l = subst (λ d. Loop d v) (sym (append-nil done)) l
  value_rows-Loop (row ∷ rows) done v s l =
      let (s', price, source) = price_row p row row.balance.price_usd s in
      let v' = add_row row price source v in
      subst (λ d. Loop d (value_rows p rows v' s').1) (append_assoc done (row ∷ []) rows)
        (value_rows-Loop rows (done ++ row ∷ []) v' s'
          (add_row-Loop done row price source v (price_row-own row row.balance.price_usd s) l))

  -- The collected manual wallet, whatever the price service answers: one balance for each of its
  -- rows in the order of the query, with the amount, the row's own price and the source `manual`
  -- where it has one, and the value at the price in use, or zero without one; the total is the sum of
  -- the values; it fails, with `price_unavailable`, where a balance has no price, and succeeds otherwise.
  pub collect_wallet-IsValued :
      (wallet_id : ℕ) (t : Tables) (s : State)
      → IsValued
          (manual_rows wallet_id t.assets t.manual_balances)
          (collect_wallet p wallet_id t s).1
  unfolding collect_wallet
  collect_wallet-IsValued wallet_id t s =
      let start : Valuation = record { balances = []; total = zero_usd; missing_prices = [] } in
      let rows = manual_rows wallet_id t.assets t.manual_balances in
      result_of-IsValued rows (value_rows p rows start s).1
        (value_rows-Loop rows [] start s (record { matched = tt; summed = refl; noticed = refl }))
