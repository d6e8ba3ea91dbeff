-- ===== src/Claim/Take.antt =====
-- Which job a worker is given.
use mathlib.Core.List.{Mem, mem-cons_self, mem-cons_of_mem}
use py_wallet_snapshot_servi.Prelude.{
  ℕ, ◌≡◌, refl, Bool, true, false, Option, none, some, List, [], ◌∷◌, any, All, All-mono,
  All-of_filter, mem-filter, filter, arith, Text, inl, inr, Bool-cases,
}
use py_wallet_snapshot_servi.Models.{SnapshotRun}
use py_wallet_snapshot_servi.Session.{Session, commit, update_run, with_runs}
use py_wallet_snapshot_servi.Claim.{
  takes_over, claim_found, recover_rows, recover_stale_running_jobs, before, earliest, is_claimable,
  claimed, claim_next_pending_job, is_stale,
}

before_total : (j k : SnapshotRun) → before j k ≡ false → before k j ≡ true
before_total j k h = ground arith

before_trans : (j k m : SnapshotRun) → before j k ≡ true → before k m ≡ true → before j m ≡ true
before_trans j k m h g = ground arith

-- `j` comes first of `js`, and is one of them.
abbrev pub IsEarliest : SnapshotRun → List SnapshotRun → Type 0
IsEarliest k js = Mem k js × All (λ m. before k m ≡ true) js

-- The query's first row: there is none of an empty table, and otherwise one that comes first.
pub earliest-cons :
    (j : SnapshotRun) (js : List SnapshotRun)
    → (k : SnapshotRun) × (earliest (j ∷ js) ≡ some k) × IsEarliest k (j ∷ js)
unfolding earliest
earliest-cons j [] = (j, refl, (mem-cons_self, (ground arith, tt)))
earliest-cons j (i ∷ is) = later (earliest-cons i is)
  where
    later :
        ((k : SnapshotRun) × (earliest (i ∷ is) ≡ some k) × IsEarliest k (i ∷ is))
        → (k : SnapshotRun) × (earliest (j ∷ i ∷ is) ≡ some k) × IsEarliest k (j ∷ i ∷ is)
    later (k, e, (m, a)) = elim (Bool-cases (before j k)) [
      | inl first ↦ (
        j,
        rw (e, first),
        (mem-cons_self, (ground arith, All-mono (λ x h. before_trans j k x first h) (i ∷ is) a)),
      )
      | inr second ↦ (k, rw (e, second), (mem-cons_of_mem j m, (before_total j k second, a)))
    ]

-- Recovery neither adds nor removes pending jobs.
filter-recover_rows :
    (locked : ℕ → Bool) (l now : ℕ) (js : List SnapshotRun)
    → filter (is_claimable locked) (recover_rows (takes_over locked l now) now js)
      ≡ filter (is_claimable locked) js
unfolding recover_rows is_stale
filter-recover_rows locked l now [] = refl
filter-recover_rows locked l now (j ∷ js) = ground (arith, filter-recover_rows locked l now js)

any-filter : (p : SnapshotRun → Bool) (js : List SnapshotRun) → filter p js ≡ [] → any p js ≡ false
any-filter p [] h = refl
any-filter p (j ∷ js) h = ground (arith, any-filter p js)

-- What a claim found: a pending job that no transaction holds and that comes first of those, as it was
-- before the claim, and the tables with that job's row written; or that there is none.
abbrev pub Takes :
    (SnapshotRun → Bool)
    → (SnapshotRun → SnapshotRun)
    → List SnapshotRun
    → Session
    → Session × Option SnapshotRun
    → Type 0
Takes claimable own runs db (db', none) = (any claimable runs ≡ false) × (db' ≡ commit db)
Takes claimable own runs db (db', some job) =
    (k : SnapshotRun) × (job ≡ own k)
    × Mem k runs
    × (claimable k ≡ true)
    × All (λ m. claimable m ≡ true → before k m ≡ true) runs
    × (db' ≡ commit (with_runs (update_run k.id own db.current.runs) db))

claim_found-Takes :
    (p : SnapshotRun → Bool) (w : Text) (l now : ℕ) (runs js : List SnapshotRun) (db : Session)
    → filter p runs ≡ js
    → Takes p (claimed w l now) runs db (claim_found w l now db (earliest js))
unfolding earliest
claim_found-Takes p w l now runs [] db e = (any-filter p runs e, refl)
claim_found-Takes p w l now runs (j ∷ js) db e = found (earliest-cons j js)
  where
    found :
        ((k : SnapshotRun) × (earliest (j ∷ js) ≡ some k) × IsEarliest k (j ∷ js))
        → Takes p (claimed w l now) runs db (claim_found w l now db (earliest (j ∷ js)))
    found (k, q, (m, a)) =
        let inside = mem-filter p k runs (rw e m) in
        rw q (
          k,
          refl,
          inside.0,
          inside.1,
          All-of_filter p (λ x. before k x ≡ true) runs (rw e a),
          refl,
        )

-- A claim first fails the abandoned jobs, then takes a pending job that is not locked, one with the
-- least creation time and among those the least id; it marks it as running now, with its worker and
-- its lease, writes that row and commits. It returns no job exactly where no pending job is
-- unlocked, and then commits the recovery alone.
pub claim_next-Takes :
    (locked : ℕ → Bool) (worker_id : Text) (lease_seconds now : ℕ) (db : Session)
    → let (db', job, _) = claim_next_pending_job locked worker_id lease_seconds now db in
      let r = recover_stale_running_jobs locked lease_seconds now db.current.runs in
      Takes
        (is_claimable locked)
        (claimed worker_id lease_seconds now)
        db.current.runs
        (with_runs r.runs db)
        (db', job)
unfolding claim_next_pending_job recover_stale_running_jobs
claim_next-Takes locked worker_id lease_seconds now db =
    let r = recover_stale_running_jobs locked lease_seconds now db.current.runs in
    rw (filter-recover_rows locked lease_seconds now db.current.runs) (
      claim_found-Takes (is_claimable locked) worker_id lease_seconds now db.current.runs
        (filter (is_claimable locked) db.current.runs) (with_runs r.runs db) refl)
