-- ===== src/Claim/Keeps.antt =====
-- Claims, recoveries and renewals move rows along the life cycle of a job.
use py_wallet_snapshot_servi.Prelude.{
  ℕ, ◌+◌, ◌≡◌, refl, Bool, true, false, some, List, [], ◌∷◌, if◌then◌else◌, All-mono, filter,
  mem-filter, arith, length, ◌==◌, Text, Bool-cases, inl, inr,
}
use py_wallet_snapshot_servi.Enums.{is_pending, is_running}
use py_wallet_snapshot_servi.Models.{SnapshotRun}
use py_wallet_snapshot_servi.Session.{Session, with_runs}
use py_wallet_snapshot_servi.Session.Rows.{IsDistinct}
use py_wallet_snapshot_servi.Queue.{Next, Evolves}
use py_wallet_snapshot_servi.Queue.Evolve.{
  Evolves-refl, Evolves-trans, Next-refl, update_run-Evolves, All-of_id, IsDistinct-Evolves,
}
use py_wallet_snapshot_servi.Claim.{
  is_stale, takes_over, fail_stale, recover_rows, recover_stale_running_jobs, is_owned, renew_rows,
  renew_job_lease, earliest, is_claimable, claimed, claim_found, claim_next_pending_job,
}
use py_wallet_snapshot_servi.Claim.Take.{earliest-cons, IsEarliest}

-- Failing a running job, extending its lease, and starting a pending one.
fail_stale-Next :
    (now : ℕ) (j : SnapshotRun) → is_running j.status ≡ true → Next j (fail_stale now j)
fail_stale-Next now j h = ground arith

renewed-Next :
    (t : ℕ) (j : SnapshotRun)
    → is_running j.status ≡ true
    → Next j (record j { lease_expires_at = some t })
renewed-Next t j h = ground arith

claimed-Next :
    (w : Text) (l now : ℕ) (j : SnapshotRun)
    → is_pending j.status ≡ true
    → Next j (claimed w l now j)
claimed-Next w l now j h = ground arith

recover_rows-Evolves :
    (locked : ℕ → Bool) (l now : ℕ) (js : List SnapshotRun)
    → Evolves js (recover_rows (takes_over locked l now) now js)
unfolding recover_rows is_stale
recover_rows-Evolves locked l now [] = tt
recover_rows-Evolves locked l now (j ∷ js) =
    (head (takes_over locked l now j) refl, recover_rows-Evolves locked l now js)
  where
    head : (b : Bool) → takes_over locked l now j ≡ b → Next j (if b then fail_stale now j else j)
    head true e = fail_stale-Next now j (ground arith)
    head false e = Next-refl j

renew_rows-Evolves :
    (id t : ℕ) (w : Text) (js : List SnapshotRun) → Evolves js (renew_rows (is_owned id w) t js)
unfolding renew_rows
renew_rows-Evolves id t w [] = tt
renew_rows-Evolves id t w (j ∷ js) = (head (is_owned id w j) refl, renew_rows-Evolves id t w js)
  where
    head :
        (b : Bool)
        → is_owned id w j ≡ b
        → Next j (if b then record j { lease_expires_at = some t } else j)
    head true e = renewed-Next t j (ground arith)
    head false e = Next-refl j

claim_found-Evolves :
    (locked : ℕ → Bool) (w : Text) (l now : ℕ) (db : Session) (js : List SnapshotRun)
    → IsDistinct db.current.runs
    → filter (is_claimable locked) db.current.runs ≡ js
    → Evolves db.current.runs (claim_found w l now db (earliest js)).0.committed.runs
unfolding earliest
claim_found-Evolves locked w l now db [] d e = Evolves-refl db.current.runs
claim_found-Evolves locked w l now db (j ∷ js) d e = found (earliest-cons j js)
  where
    found :
        ((k : SnapshotRun) × (earliest (j ∷ js) ≡ some k) × IsEarliest k (j ∷ js))
        → Evolves db.current.runs (claim_found w l now db (earliest (j ∷ js))).0.committed.runs
    found (k, q, (m, a)) =
        let inside = mem-filter (is_claimable locked) k db.current.runs (rw e m) in
        let pending =
          All-of_id (λ i. is_pending i.status) k db.current.runs d inside.0
            (ground (arith, inside.1)) in
        rw q (
          update_run-Evolves k.id (claimed w l now) db.current.runs
            (All-mono (λ i h same. claimed-Next w l now i (h same)) db.current.runs pending))

-- Where the ids of the jobs differ, a claim commits rows each of which has moved along the life cycle
-- of a job, and no row is lost.
pub claim-Evolves :
    (locked : ℕ → Bool) (worker_id : Text) (lease_seconds now : ℕ) (db : Session)
    → IsDistinct db.current.runs
    → Evolves db.current.runs
        (claim_next_pending_job locked worker_id lease_seconds now db).0.committed.runs
unfolding claim_next_pending_job recover_stale_running_jobs
claim-Evolves locked w l now db d =
    let rows = recover_rows (takes_over locked l now) now db.current.runs in
    let moved = recover_rows-Evolves locked l now db.current.runs in
    Evolves-trans db.current.runs rows _ moved (
      claim_found-Evolves locked w l now (with_runs rows db) (filter (is_claimable locked) rows)
        (IsDistinct-Evolves db.current.runs rows moved d) refl)

-- Where the current rows have moved along the life cycle since the last commit, a renewal, granted
-- or refused, leaves committed rows that have, too.
pub renew-Evolves :
    (job_id : ℕ) (worker_id : Text) (lease_seconds now : ℕ) (db : Session)
    → Evolves db.committed.runs db.current.runs
    → Evolves db.committed.runs
        (renew_job_lease job_id worker_id lease_seconds now db).0.committed.runs
unfolding renew_job_lease
renew-Evolves id w l now db e =
    elim (Bool-cases (length (filter (is_owned id w) db.current.runs) == 1)) [
      | inl one ↦ rw one (
          Evolves-trans db.committed.runs db.current.runs _ e
            (renew_rows-Evolves id (now + l) w db.current.runs))
      | inr lost ↦ rw lost (Evolves-refl db.committed.runs)
    ]
