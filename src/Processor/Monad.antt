-- ===== src/Processor/Monad.antt =====
-- What a call of the processor reads and changes, and calls that may raise. `time k` is the reading
-- of the clock at its k-th call.
use py_wallet_snapshot_servi.Prelude.{ℕ, suc, List, ◌++◌}
use py_wallet_snapshot_servi.Metrics.{Metric}
use py_wallet_snapshot_servi.Session.{Tables, Session}
use py_wallet_snapshot_servi.Result.{Result, ok, raise}
use py_wallet_snapshot_servi.PriceHistory.{Identity}

pub record World (S : Type 0) : Type 0 where
  pub db : Session
  pub collectors : S
  pub recorded_assets : List Identity
  pub clock_reads : ℕ
  pub metrics : List Metric

abbrev pub M : Type 0 → Type 0 → Type 0
M S A = World S → Result A × World S

module _ {S : Type 0} where
  abbrev pub pure : {A : Type 0} → A → M S A
  pure a w = (ok a, w)

  -- What follows a call: nothing, if it raised.
  abbrev pub continue : {A B : Type 0} → (A → M S B) → Result A × World S → Result B × World S
  continue f (ok a, w) = f a w
  continue f (raise e, w) = (raise e, w)

  infixl 5 ◌>>=◌ ◌>>◌
  abbrev pub ◌>>=◌ : {A B : Type 0} → M S A → (A → M S B) → M S B
  ◌>>=◌ m f w = continue f (m w)

  abbrev pub ◌>>◌ : {A B : Type 0} → M S A → M S B → M S B
  m >> k = m >>= λ _. k

  -- `datetime.now(UTC)`
  abbrev pub now : (ℕ → ℕ) → M S ℕ
  now time w = (ok (time w.clock_reads), record w { clock_reads = suc w.clock_reads })

  abbrev pub count : List Metric → M S (Unit {0})
  count ms w = (ok tt, record w { metrics = w.metrics ++ ms })

  abbrev pub gets_tables : {A : Type 0} → (Tables → A) → M S A
  gets_tables f w = (ok (f w.db.current), w)

  abbrev pub modify_tables : (Tables → Tables) → M S (Unit {0})
  modify_tables f w = (ok tt, record w { db = record w.db { current = f w.db.current } })

  -- `db.commit()`
  abbrev pub commit_session : M S (Unit {0})
  commit_session w =
      (ok tt, record w { db = record { committed = w.db.current; current = w.db.current } })
