-- ===== src/Claim/Renew.antt =====
-- Who may renew a lease: the worker that holds the running job, and nobody else.
use py_wallet_snapshot_servi.Prelude.{
  ℕ, ◌+◌, ◌≡◌, refl, ◌≢◌, Option, none, some, List, [], ◌∷◌, if◌then◌else◌, All, filter, length,
  arith, Text, text_eq_refl, text_eq_sound, same_text, true, inl, inr, Option-cases, ap,
}
use py_wallet_snapshot_servi.Enums.{JobStatus}
use py_wallet_snapshot_servi.Models.{SnapshotRun}
use py_wallet_snapshot_servi.Session.{Session, commit, rollback, get_run, update_run, with_runs}
use py_wallet_snapshot_servi.Session.Rows.{IsDistinct, get_run-id}
use py_wallet_snapshot_servi.Result.{ok, raise, job_lease_lost}
use py_wallet_snapshot_servi.Claim.{is_owned, renew_rows, renew_job_lease}

-- Where no row has the id, none is owned.
filter-is_owned_ne :
    (x id : ℕ) (w : Text) (js : List SnapshotRun)
    → x ≡ id
    → All (λ j. x ≢ j.id) js
    → filter (is_owned id w) js ≡ []
filter-is_owned_ne x id w [] e h = refl
filter-is_owned_ne x id w (j ∷ js) e h = ground (arith, filter-is_owned_ne x id w js)

-- The lease of the row `id`.
abbrev pub extend_lease : ℕ → ℕ → List SnapshotRun → List SnapshotRun
extend_lease id t = update_run id λ j. record j { lease_expires_at = some t }

renew_rows_ne :
    (x id t : ℕ) (w : Text) (js : List SnapshotRun)
    → x ≡ id
    → All (λ j. x ≢ j.id) js
    → renew_rows (is_owned id w) t js ≡ extend_lease id t js
unfolding renew_rows
renew_rows_ne x id t w [] e h = refl
renew_rows_ne x id t w (j ∷ js) e h = ground (arith, renew_rows_ne x id t w js)

-- The rows that are owned, counted by reading by id.
abbrev owned_count : Option SnapshotRun → ℕ → Text → ℕ
owned_count none id w = 0
owned_count (some j) id w = if is_owned id w j then 1 else 0

filter-is_owned :
    (id : ℕ) (w : Text) (js : List SnapshotRun)
    → IsDistinct js
    → length (filter (is_owned id w) js) ≡ owned_count (get_run id js) id w
filter-is_owned id w [] d = refl
filter-is_owned id w (j ∷ js) d =
    ground (arith, filter-is_owned_ne j.id id w js, filter-is_owned id w js d.1)

renew_rows-eq :
    (id t : ℕ) (w : Text) (js : List SnapshotRun)
    → IsDistinct js
    → owned_count (get_run id js) id w ≡ 1
    → renew_rows (is_owned id w) t js ≡ extend_lease id t js
unfolding renew_rows
renew_rows-eq id t w [] d h = refl
renew_rows-eq id t w (j ∷ js) d h =
    ground (arith, renew_rows_ne j.id id t w js, renew_rows-eq id t w js d.1)

-- The job `id` is running, and `w` is the worker that runs it.
abbrev pub Holds : ℕ → Text → List SnapshotRun → Type 0
Holds id w js =
    (j : SnapshotRun) × (get_run id js ≡ some j)
    × (j.status ≡ JobStatus.running)
    × (j.worker_id ≡ some w)

owned_count-Holds :
    (id : ℕ) (w : Text) (js : List SnapshotRun)
    → Holds id w js
    → owned_count (get_run id js) id w ≡ 1
owned_count-Holds id w js (j, e, s, o) =
    rw e (ground (arith, get_run-id id js {j = j}, text_eq_refl w))

owned_count-not_Holds :
    (id : ℕ) (w : Text) (js : List SnapshotRun)
    → ¬ Holds id w js
    → owned_count (get_run id js) id w ≢ 1
owned_count-not_Holds id w js h one = elim (Option-cases (get_run id js)) [
  | inl e ↦ ground arith
  | inr (j, e) ↦ h (j, e, ground arith, owner j.worker_id (ground arith))
]
  where
    owner : (o : Option Text) → same_text o (some w) ≡ true → o ≡ some w
    owner none q = cc
    owner (some v) q = ap some (text_eq_sound v w q)

-- A renewal by the worker that holds the running job moves the job's lease to `lease_seconds` from
-- now, commits, and changes nothing else; a renewal of any other job, or by any other worker, is
-- refused with `JobLeaseLostError`, and rolls the session back to what is committed.
pub renew_exact :
    (job_id : ℕ) (worker_id : Text) (lease_seconds now : ℕ) (db : Session)
    → IsDistinct db.current.runs
    → (Holds job_id worker_id db.current.runs
        → renew_job_lease job_id worker_id lease_seconds now db ≡ (
          commit (with_runs (extend_lease job_id (now + lease_seconds) db.current.runs) db),
          ok (now + lease_seconds),
        ))
      × (¬ Holds job_id worker_id db.current.runs
          → renew_job_lease job_id worker_id lease_seconds now db
            ≡ (rollback db, raise (job_lease_lost job_id)))
unfolding renew_job_lease
renew_exact job_id worker_id lease_seconds now db d = (
  λ h. ground (
    arith,
    filter-is_owned job_id worker_id db.current.runs d,
    owned_count-Holds job_id worker_id db.current.runs h,
    renew_rows-eq job_id (now + lease_seconds) worker_id db.current.runs d,
  ),
  λ h. ground (
    arith,
    filter-is_owned job_id worker_id db.current.runs d,
    owned_count-not_Holds job_id worker_id db.current.runs h,
  ),
)
