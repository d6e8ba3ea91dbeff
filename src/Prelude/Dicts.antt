-- ===== src/Prelude/Dicts.antt =====
-- Python's dictionaries where the program only looks up, stores and pops: the newest entry of a key
-- comes first and hides the older ones. `same` is the equality of keys.
use mathlib.Core.Path.{◌≡◌, refl, sym, subst}
use mathlib.Core.Bool.{Bool, true, false}
use mathlib.Core.List.{List, [], ◌∷◌}
use mathlib.Core.Option.{Option, none, some}
use native.Mathlib.Omega.{arith}
use py_wallet_snapshot_servi.Prelude.Tests.{if◌then◌else◌}
use py_wallet_snapshot_servi.Prelude.Lists.{All}

abbrev pub Dict : Type 0 → Type 0 → Type 0
Dict K V = List (K × V)

module _ {K V : Type 0} where
  -- `d.get(key)`
  unfoldable pub lookup : (K → K → Bool) → K → Dict K V → Option V
  lookup same k [] = none
  lookup same k ((q, v) ∷ d) = if same k q then some v else lookup same k d

  -- `d.pop(key, None)`
  unfoldable pub pop : (K → K → Bool) → K → Dict K V → Dict K V
  pop same k [] = []
  pop same k ((q, v) ∷ d) = if same k q then pop same k d else (q, v) ∷ pop same k d

  pub All-pop {κ} :
      (P : K × V → Type κ) (same : K → K → Bool) (k : K) (d : Dict K V)
      → All P d
      → All P (pop same k d)
  unfolding pop
  All-pop P same k [] a = tt
  All-pop P same k ((q, v) ∷ d) a =
      elim (same k q) as (λ b. All P (if b then pop same k d else (q, v) ∷ pop same k d)) [
        | true ↦ All-pop P same k d a.1
        | false ↦ (a.0, All-pop P same k d a.1)
      ]

  -- What is found satisfies what every entry does.
  pub lookup-All {κ} :
      (P : K × V → Type κ) (same : K → K → Bool)
      → ((j k : K) → same j k ≡ true → j ≡ k)
      → (k : K) (d : Dict K V) {v : V} → All P d
      → lookup same k d ≡ some v
      → P (k, v)
  unfolding lookup
  lookup-All P same sound k [] a e = absurd (ground arith)
  lookup-All P same sound k ((q, w) ∷ d) {v} a e =
      split (same k q) refl e (lookup-All P same sound k d a.1)
    where
      split :
          (b : Bool)
          → same k q ≡ b
          → (if b then some w else lookup same k d) ≡ some v
          → (lookup same k d ≡ some v → P (k, v))
          → P (k, v)
      split true s f later =
          let key : q ≡ k = sym (sound k q s) in
          let value : w ≡ v = ground arith in
          subst (λ x. P (x, v)) key (subst (λ y. P (q, y)) value a.0)
      split false s f later = later f
