-- ===== src/Processor/After.antt =====
-- What holds after a call that does not raise.
use py_wallet_snapshot_servi.Result.{Result, ok, raise, Error}
use py_wallet_snapshot_servi.Processor.Monad.{World, continue}

module _ {S A : Type 0} where
  -- `P` holds of the value and the world that the call returns, `E` of the error and the world
  -- where it raises.
  abbrev pub Outcome :
      (A → World S → Type 0) → (Error → World S → Type 0) → Result A × World S → Type 0
  Outcome P E (ok a, w) = P a w
  Outcome P E (raise e, w) = E e w

  abbrev pub After : (A → World S → Type 0) → Result A × World S → Type 0
  After P = Outcome P (λ _ _. Unit {0})

  pub Outcome-map :
      (P Q : A → World S → Type 0) (E F : Error → World S → Type 0) (r : Result A × World S)
      → ((a : A) (w : World S) → P a w → Q a w)
      → ((e : Error) (w : World S) → E e w → F e w)
      → Outcome P E r
      → Outcome Q F r
  Outcome-map P Q E F (ok a, w) f g p = f a w p
  Outcome-map P Q E F (raise e, w) f g p = g e w p

  pub After-map :
      (P Q : A → World S → Type 0) (r : Result A × World S)
      → ((a : A) (w : World S) → P a w → Q a w)
      → After P r
      → After Q r
  After-map P Q r f = Outcome-map P Q (λ _ _. Unit {0}) (λ _ _. Unit {0}) r f (λ _ _ _. tt)

  pub After-both :
      (P Q : A → World S → Type 0) (r : Result A × World S)
      → After P r
      → After Q r
      → After (λ a w. P a w × Q a w) r
  After-both P Q (ok a, w) p q = (p, q)
  After-both P Q (raise e, w) p q = tt

  pub After-of : (P : World S → Type 0) (r : Result A × World S) → P r.1 → After (λ _. P) r
  After-of P (ok a, w) p = p
  After-of P (raise e, w) p = tt

module _ {S A B : Type 0} where
  pub continue-Outcome :
      (f : A → World S → Result B × World S) (P : A → World S → Type 0) (Q : B → World S → Type 0)
      (E : Error → World S → Type 0) (r : Result A × World S)
      → Outcome P E r
      → ((a : A) (w : World S) → P a w → Outcome Q E (f a w))
      → Outcome Q E (continue f r)
  continue-Outcome f P Q E (ok a, w) p k = k a w p
  continue-Outcome f P Q E (raise e, w) p k = p

  pub continue-After :
      (f : A → World S → Result B × World S) (P : A → World S → Type 0) (Q : B → World S → Type 0)
      (r : Result A × World S)
      → After P r
      → ((a : A) (w : World S) → P a w → After Q (f a w))
      → After Q (continue f r)
  continue-After f P Q r p k = continue-Outcome f P Q (λ _ _. Unit {0}) r p k
