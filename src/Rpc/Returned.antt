-- ===== src/Rpc/Returned.antt =====
-- What holds of a call that returns, and calls that raise nothing but RpcAttemptError.
use py_wallet_snapshot_servi.Failover.{Attempt, returned, rejected, broke}
use py_wallet_snapshot_servi.Rpc.{Call, pure, continue_attempt}

-- `P` holds of the value where the call returns.
unfoldable pub Returned : {S A : Type 0} → (A → Type 0) → S × Attempt A → Type 0
Returned P (s, returned a) = P a
Returned P (s, rejected e) = Unit
Returned P (s, broke e) = Unit

-- The call returns or raises RpcAttemptError.
unfoldable pub IsUnbroken : {S A : Type 0} → S × Attempt A → Type 0
IsUnbroken (s, broke e) = ⊥
IsUnbroken _ = Unit

pub pure-Returned : {S A : Type 0} (P : A → Type 0) (a : A) (s : S) → P a → Returned P (pure a s)
unfolding Returned
pure-Returned P a s p = p

pub Returned-mono :
    {S A : Type 0} (P Q : A → Type 0) (x : S × Attempt A)
    → Returned P x
    → ((a : A) → P a → Q a)
    → Returned Q x
unfolding Returned
Returned-mono P Q (s, returned a) p h = h a p
Returned-mono P Q (s, rejected e) p h = tt
Returned-mono P Q (s, broke e) p h = tt

module _ {S A B : Type 0} (f : A → Call S B) where
  pub continue_attempt-Returned :
      (Q : A → Type 0) (P : B → Type 0) (x : S × Attempt A)
      → Returned Q x
      → ((a : A) (s : S) → Q a → Returned P (f a s))
      → Returned P (continue_attempt f x)
  unfolding Returned
  continue_attempt-Returned Q P (s, returned a) q h = h a s q
  continue_attempt-Returned Q P (s, rejected e) q h = tt
  continue_attempt-Returned Q P (s, broke e) q h = tt

  pub continue_attempt-Returned_any :
      (P : B → Type 0) (x : S × Attempt A)
      → ((a : A) (s : S) → Returned P (f a s))
      → Returned P (continue_attempt f x)
  unfolding Returned
  continue_attempt-Returned_any P (s, returned a) h = h a s
  continue_attempt-Returned_any P (s, rejected e) h = tt
  continue_attempt-Returned_any P (s, broke e) h = tt

  pub continue_attempt-IsUnbroken :
      (x : S × Attempt A)
      → IsUnbroken x
      → ((a : A) (s : S) → IsUnbroken (f a s))
      → IsUnbroken (continue_attempt f x)
  unfolding IsUnbroken
  continue_attempt-IsUnbroken (s, returned a) u h = h a s
  continue_attempt-IsUnbroken (s, rejected e) u h = tt
  continue_attempt-IsUnbroken (s, broke e) u h = u
