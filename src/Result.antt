-- ===== src/Result.antt =====
-- The exceptions that cross a component's boundary, and results that may be one.
use py_wallet_snapshot_servi.Prelude.{ℕ, Text}

pub data Error : Type 0 where
  job_lease_lost : ℕ → Error
  http_exception : ℕ → Text → Error
  value_error : Text → Error
  unexpected : Text → Error

pub data Result {ℓ} (A : Type ℓ) : Type ℓ where
  ok : A → Result A
  raise : Error → Result A
