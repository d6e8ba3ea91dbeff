-- ===== src/Session/Rows.antt =====
-- Laws of the reads and writes of `snapshot_runs` by id.
use mathlib.Core.Option
use py_wallet_snapshot_servi.Prelude.{
  ℕ, ◌≡◌, ◌≢◌, some, List, [], ◌∷◌, ◌==◌, if◌then◌else◌, Pairwise, All, arith,
}
use py_wallet_snapshot_servi.Models.{SnapshotRun}
use py_wallet_snapshot_servi.Session.{get_run, update_run}

-- The primary key.
abbrev pub IsDistinct : List SnapshotRun → Type 0
IsDistinct = Pairwise λ j k. j.id ≢ k.id

-- Reading after a write that keeps the id.
pub get_run-update_run :
    (id i : ℕ) (f : SnapshotRun → SnapshotRun) (js : List SnapshotRun)
    → ((j : SnapshotRun) → j.id ≡ id → (f j).id ≡ id)
    → get_run i (update_run id f js)
      ≡ (if id == i then Option.map f (get_run i js) else get_run i js)
get_run-update_run id i f [] keeps = ground arith
get_run-update_run id i f (j ∷ js) keeps =
    ground (arith, get_run-update_run id i f js keeps, keeps j)

pub get_run-id :
    (i : ℕ) (js : List SnapshotRun) {j : SnapshotRun} → get_run i js ≡ some j → j.id ≡ i
get_run-id i [] h = ground arith
get_run-id i (k ∷ js) {j} h = ground (arith, get_run-id i js {j = j})

-- A write of a row of another id keeps the other rows' ids apart.
pub update_run-All :
    {P : SnapshotRun → Type 0} (id : ℕ) (f : SnapshotRun → SnapshotRun) (js : List SnapshotRun)
    → ((j : SnapshotRun) → j.id ≡ id → P j → P (f j))
    → All P js
    → All P (update_run id f js)
update_run-All id f [] h a = tt
update_run-All {P} id f (j ∷ js) h a = (head j a.0, update_run-All id f js h a.1)
  where
    head : (j : SnapshotRun) → P j → P (if j.id == id then f j else j)
    head j p = ground (arith, h j)
