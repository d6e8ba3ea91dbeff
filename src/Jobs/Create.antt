-- ===== src/Jobs/Create.antt =====
-- `create_job` answers with the active job of the scope, or adds one.
use mathlib.Core.List.{Mem, mem-cons_self, mem-cons_of_mem}
use py_wallet_snapshot_servi.Prelude.{
  ℕ, ◌≤◌, ◌≡◌, refl, ◌⊎◌, inl, inr, Bool, true, false, some, List, [], ◌∷◌, ltb, any, All, All-mono,
  All-of_filter, mem-filter, filter-nil, filter, arith, Bool-cases,
}
use py_wallet_snapshot_servi.Models.{SnapshotRun}
use py_wallet_snapshot_servi.Metrics.{Metric, Source, jobs_enqueued}
use py_wallet_snapshot_servi.Session.{Session, commit}
use py_wallet_snapshot_servi.Jobs.{
  SnapshotJobCreate, JobCreationResult, latest, in_active_scope, get_active_scope_job, add_run,
  new_job, reuse_or_add, create_job,
}

-- `k` is one of `js`, and none has a greater id.
abbrev pub IsLatest : SnapshotRun → List SnapshotRun → Type 0
IsLatest k js = Mem k js × All (λ m. m.id ≤ k.id) js

pub latest-cons :
    (j : SnapshotRun) (js : List SnapshotRun)
    → (k : SnapshotRun) × (latest (j ∷ js) ≡ some k) × IsLatest k (j ∷ js)
unfolding latest
latest-cons j [] = (j, refl, (mem-cons_self, (omega arith, tt)))
latest-cons j (i ∷ is) = later (latest-cons i is)
  where
    later :
        ((k : SnapshotRun) × (latest (i ∷ is) ≡ some k) × IsLatest k (i ∷ is))
        → (k : SnapshotRun) × (latest (j ∷ i ∷ is) ≡ some k) × IsLatest k (j ∷ i ∷ is)
    later (k, e, (m, a)) = elim (Bool-cases (ltb j.id k.id)) [
      | inl below ↦ (k, rw (e, below), (mem-cons_of_mem j m, (ground arith, a)))
      | inr above ↦ (
        j,
        rw (e, above),
        (mem-cons_self, (omega arith, All-mono (λ x h. ground arith) (i ∷ is) a)),
      )
    ]

-- The answer of a service that looks for an active job by `p`: the one of greatest id, with nothing
-- written, or the new job, added where there was none.
abbrev pub Answers :
    (SnapshotRun → Bool)
    → SnapshotRun
    → Source
    → Session
    → Session × JobCreationResult × List Metric
    → Type 0
Answers p new source db (db', r, ms) =
    ((r.reused ≡ true)
      × Mem r.job db.current.runs
      × (p r.job ≡ true)
      × All (λ m. p m ≡ true → m.id ≤ r.job.id) db.current.runs
      × (db' ≡ commit db)
      × (ms ≡ []))
    ⊎ ((r.reused ≡ false)
        × (any p db.current.runs ≡ false)
        × (r.job ≡ new)
        × (db' ≡ commit (add_run new db))
        × (ms ≡ jobs_enqueued source new.trigger_type new.scope_type ∷ []))

pub reuse_or_add-Answers :
    (p : SnapshotRun → Bool) (new : SnapshotRun) (source : Source) (db : Session)
    (js : List SnapshotRun)
    → filter p db.current.runs ≡ js
    → Answers p new source db (reuse_or_add source new (latest js) db)
unfolding latest
reuse_or_add-Answers p new source db [] e =
    inr (refl, filter-nil p db.current.runs e, refl, refl, refl)
reuse_or_add-Answers p new source db (j ∷ js) e = found (latest-cons j js)
  where
    found :
        ((k : SnapshotRun) × (latest (j ∷ js) ≡ some k) × IsLatest k (j ∷ js))
        → Answers p new source db (reuse_or_add source new (latest (j ∷ js)) db)
    found (k, q, (m, a)) =
        let inside = mem-filter p k db.current.runs (rw e m) in
        rw q (
          inl (
            refl,
            inside.0,
            inside.1,
            All-of_filter p (λ x. x.id ≤ k.id) db.current.runs (rw e a),
            refl,
            refl,
          ))

-- A call of `create_job` returns, marked as reused and with nothing written, the job of greatest id
-- among the pending and running ones of the same user, scope type, group and wallet; where there is
-- none, it adds, commits and returns a new pending job under the next id, and counts it.
pub create_job-Answers :
    (p : SnapshotJobCreate) (source : Source) (now : ℕ) (db : Session)
    → Answers
        (in_active_scope p)
        (new_job p db.current.next_run now)
        source
        db
        (create_job p source now db)
unfolding create_job get_active_scope_job
create_job-Answers p source now db =
    reuse_or_add-Answers (in_active_scope p) (new_job p db.current.next_run now) source db
      (filter (in_active_scope p) db.current.runs) refl
