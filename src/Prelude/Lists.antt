-- ===== src/Prelude/Lists.antt =====
-- Lists measured by native numbers, Boolean searches, and predicates on every element.
use Prim.Native.Nat.{ℕ, suc, ◌+◌}
use mathlib.Core.Path.{◌≡◌, refl, sym, subst, ◌∙◌}
use mathlib.Core.Logic.Or
use mathlib.Core.Bool.{Bool, true, false, ◌&&◌, ◌||◌, Bool-set, false≢true}
use mathlib.Core.List.{
  List, [], ◌∷◌, ◌++◌, Mem, mem-cons, not-mem-nil, mem-cons_of_mem, mem-cons_self, Mem-prop,
}
use mathlib.Core.HLevel.{×_prop}
use mathlib.Core.Option.{Option, none, some}
use native.Mathlib.Omega.{arith}
use py_wallet_snapshot_servi.Prelude.Tests.{if◌then◌else◌}

module _ {ℓ} {A : Type ℓ} where
  abbrev pub length : List A → ℕ
  length [] = 0
  length (x ∷ xs) = suc (length xs)

  abbrev pub filter : (A → Bool) → List A → List A
  filter p [] = []
  filter p (x ∷ xs) = if p x then x ∷ filter p xs else filter p xs

  -- `all(...)`, `any(...)`
  abbrev pub all : (A → Bool) → List A → Bool
  all p [] = true
  all p (x ∷ xs) = p x && all p xs

  abbrev pub any : (A → Bool) → List A → Bool
  any p [] = false
  any p (x ∷ xs) = p x || any p xs

  -- The first element that passes.
  abbrev pub find? : (A → Bool) → List A → Option A
  find? p [] = none
  find? p (x ∷ xs) = if p x then some x else find? p xs

  abbrev pub All {κ} : (A → Type κ) → List A → Type κ
  All P [] = Unit
  All P (x ∷ xs) = P x × All P xs

  abbrev pub Pairwise {κ} : (A → A → Type κ) → List A → Type (ℓ ⊔ κ)
  Pairwise R [] = Unit
  Pairwise R (x ∷ xs) = All (R x) xs × Pairwise R xs

module _ {ℓ} {A : Type ℓ} where
  pub All-mono {κ μ} :
      {P : A → Type κ} {Q : A → Type μ}
      → ((x : A) → P x → Q x)
      → (xs : List A) → All P xs
      → All Q xs
  All-mono h [] a = tt
  All-mono h (x ∷ xs) a = (h x a.0, All-mono h xs a.1)

  pub All-append {κ} : (P : A → Type κ) (xs ys : List A) → All P xs → All P ys → All P (xs ++ ys)
  All-append P [] ys a b = b
  All-append P (x ∷ xs) ys a b = (a.0, All-append P xs ys a.1 b)

  pub All-of_mem {κ} :
      {P : A → Type κ}
      → ((x : A) → IsProp (P x))
      → {x : A} (xs : List A) → All P xs
      → Mem x xs
      → P x
  All-of_mem p [] a m = absurd (not-mem-nil m)
  All-of_mem {P} p {x} (y ∷ ys) a m =
      Or.elim (p x) (mem-cons.0 m) (λ e. subst P (sym e) a.0) (λ t. All-of_mem p ys a.1 t)

  pub length-append : (xs ys : List A) → length (xs ++ ys) ≡ length xs + length ys
  length-append [] ys = omega arith
  length-append (x ∷ xs) ys = omega (arith, length-append xs ys)

  pub mem-filter :
      (p : A → Bool) (k : A) (xs : List A) → Mem k (filter p xs) → Mem k xs × (p k ≡ true)
  mem-filter p k [] m = absurd (not-mem-nil m)
  mem-filter p k (x ∷ xs) m = split (p x) refl m (mem-filter p k xs)
    where
      later : Mem k xs × (p k ≡ true) → Mem k (x ∷ xs) × (p k ≡ true)
      later r = (mem-cons_of_mem x r.0, r.1)

      split :
          (b : Bool)
          → p x ≡ b
          → Mem k (if b then x ∷ filter p xs else filter p xs)
          → (Mem k (filter p xs) → Mem k xs × (p k ≡ true))
          → Mem k (x ∷ xs) × (p k ≡ true)
      split true e n ih =
          Or.elim (×_prop Mem-prop (Bool-set (p k) true)) (mem-cons.0 n)
            (λ q. (rw q mem-cons_self, rw q e)) (λ t. later (ih t))
      split false e n ih = later (ih n)

  pub All-of_filter {κ} :
      (p : A → Bool) (P : A → Type κ) (xs : List A)
      → All P (filter p xs)
      → All (λ x. p x ≡ true → P x) xs
  All-of_filter p P [] a = tt
  All-of_filter p P (x ∷ xs) a = split (p x) refl a (All-of_filter p P xs)
    where
      split :
          (b : Bool)
          → p x ≡ b
          → All P (if b then x ∷ filter p xs else filter p xs)
          → (All P (filter p xs) → All (λ y. p y ≡ true → P y) xs)
          → All (λ y. p y ≡ true → P y) (x ∷ xs)
      split true e c ih = (λ h. c.0, ih c.1)
      split false e c ih = (λ h. cc, ih c)

  pub Pairwise-snoc {κ} :
      (R : A → A → Type κ) (xs : List A) (y : A)
      → Pairwise R xs
      → All (λ x. R x y) xs
      → Pairwise R (xs ++ y ∷ [])
  Pairwise-snoc R [] y p a = (tt, tt)
  Pairwise-snoc R (x ∷ xs) y p a =
      (All-append (R x) xs (y ∷ []) p.0 (a.0, tt), Pairwise-snoc R xs y p.1 a.1)

  pub any-false : (p : A → Bool) (xs : List A) → any p xs ≡ false → All (λ x. p x ≡ false) xs
  any-false p [] h = tt
  any-false p (x ∷ xs) h = (ground arith, any-false p xs (ground arith))

  pub filter-nil : (p : A → Bool) (xs : List A) → filter p xs ≡ [] → any p xs ≡ false
  filter-nil p [] h = refl
  filter-nil p (x ∷ xs) h = ground (arith, filter-nil p xs)

  pub any-of_mem : (p : A → Bool) (x : A) (xs : List A) → Mem x xs → p x ≡ true → any p xs ≡ true
  any-of_mem p x [] m h = absurd (not-mem-nil m)
  any-of_mem p x (y ∷ ys) m h =
      Or.elim (Bool-set (any p (y ∷ ys)) true) (mem-cons.0 m) (λ e. rw (← e, h))
        (λ t. ground (arith, any-of_mem p x ys t h))

  pub any-true : (p : A → Bool) (xs : List A) → any p xs ≡ true → (x : A) × Mem x xs × (p x ≡ true)
  any-true p [] h = absurd (false≢true h)
  any-true p (x ∷ xs) h = split (p x) refl (any-true p xs)
    where
      split :
          (b : Bool)
          → p x ≡ b
          → (any p xs ≡ true → (y : A) × Mem y xs × (p y ≡ true))
          → (y : A) × Mem y (x ∷ xs) × (p y ≡ true)
      split true e ih = (x, mem-cons_self, e)
      split false e ih = let (y, m, q) = ih (rw e at h) in (y, mem-cons_of_mem x m, q)

  pub All-zip {κ μ} :
      (P : A → Type κ) (Q : A → Type μ) (xs : List A)
      → All P xs
      → All Q xs
      → All (λ x. P x × Q x) xs
  All-zip P Q [] a b = tt
  All-zip P Q (x ∷ xs) a b = ((a.0, b.0), All-zip P Q xs a.1 b.1)

  pub mem-filter_of :
      (p : A → Bool) (k : A) (xs : List A) → Mem k xs → p k ≡ true → Mem k (filter p xs)
  mem-filter_of p k [] m h = m
  mem-filter_of p k (x ∷ xs) m h = split (p x) refl (mem-filter_of p k xs)
    where
      split :
          (b : Bool)
          → p x ≡ b
          → (Mem k xs → p k ≡ true → Mem k (filter p xs))
          → Mem k (if b then x ∷ filter p xs else filter p xs)
      split true e ih =
          Or.elim Mem-prop (mem-cons.0 m) (λ q. rw q mem-cons_self)
            (λ t. mem-cons_of_mem x (ih t h))
      split false e ih =
          Or.elim Mem-prop (mem-cons.0 m) (λ q. absurd (false≢true (sym e ∙ rw q at h)))
            (λ t. ih t h)
