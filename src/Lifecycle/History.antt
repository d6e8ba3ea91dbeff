-- ===== src/Lifecycle/History.antt =====
-- What transactions do to the rows of `snapshot_runs` over time: rows are added at the end, and rows
-- that are there go back to no earlier stage of the life cycle of a job.
use py_wallet_snapshot_servi.Prelude.{
  ℕ, ◌≡◌, refl, sym, ◌∙◌, ap, subst, Option, none, some, List, [], ◌∷◌, ◌++◌, Bool-cases, inl, inr,
  filter,
}
use mathlib.Core.List.{append_assoc, append-nil}
use py_wallet_snapshot_servi.Models.{SnapshotRun}
use py_wallet_snapshot_servi.Metrics.{Source, api}
use py_wallet_snapshot_servi.Session.{Tables, Session, get_run}
use py_wallet_snapshot_servi.Jobs.{
  create_job, create_retry_failed_job, reuse_or_add, retry_of, new_job, retry_job,
  get_active_scope_job, latest, is_active_retry, is_retryable, failed_chain_exists,
}
use py_wallet_snapshot_servi.Scheduler.Covers.{create_scheduled_jobs-Scheduled}
use py_wallet_snapshot_servi.Claim.Keeps.{claim-Evolves, renew-Evolves}
use py_wallet_snapshot_servi.Queue.{IsValid, RowByRow, Evolves, Later}
use py_wallet_snapshot_servi.Queue.Evolve.{
  Evolves-refl, Evolves-Later, RowByRow-refl, RowByRow-trans, Later-refl, Later-trans,
}
use py_wallet_snapshot_servi.Processor.Jobs.{finished}
use py_wallet_snapshot_servi.Worker.{failed_job}
use py_wallet_snapshot_servi.Lifecycle.{
  opened, Step, created, retried, scheduled, claimed, renewed, ended, broken, Reach, start, next,
  Reach-IsValid, finished-Later, failed_job-Later, update_run-Later,
}

-- The rows `js`, each at the same stage or a later one, and then new rows.
pub record Continues (js ks : List SnapshotRun) : Type 0 where
  pub moved : List SnapshotRun
  pub added : List SnapshotRun
  pub rows : ks ≡ moved ++ added
  pub evolves : RowByRow Later js moved

Continues-of_Later : (js ks : List SnapshotRun) → RowByRow Later js ks → Continues js ks
Continues-of_Later js ks e = record {
  moved = ks;
  added = [];
  rows = sym (append-nil ks);
  evolves = e;
}

Continues-of_Evolves : (js ks : List SnapshotRun) → Evolves js ks → Continues js ks
Continues-of_Evolves js ks e = Continues-of_Later js ks (Evolves-Later js ks e)

Continues-of_added : (js new : List SnapshotRun) → Continues js (js ++ new)
Continues-of_added js new = record {
  moved = js;
  added = new;
  rows = refl;
  evolves = RowByRow-refl Later Later-refl js;
}

-- The first part of rows that moved along.
RowByRow-append : (js ks ms : List SnapshotRun) → RowByRow Later (js ++ ks) ms → Continues js ms
RowByRow-append [] ks ms e = record { moved = []; added = ms; rows = refl; evolves = tt }
RowByRow-append (j ∷ js) ks [] e = absurd e
RowByRow-append (j ∷ js) ks (m ∷ ms) e =
    let rest = RowByRow-append js ks ms e.1 in
    record {
      moved = m ∷ rest.moved;
      added = rest.added;
      rows = ap (λ xs. m ∷ xs) rest.rows;
      evolves = (e.0, rest.evolves);
    }

Continues-trans :
    (js ks ms : List SnapshotRun) → Continues js ks → Continues ks ms → Continues js ms
Continues-trans js ks ms a b =
    let first =
      RowByRow-append a.moved a.added b.moved
        (subst (λ x. RowByRow Later x b.moved) a.rows b.evolves) in
    record {
      moved = first.moved;
      added = first.added ++ b.added;
      rows =
          b.rows ∙ ap (λ x. x ++ b.added) first.rows ∙ append_assoc first.moved first.added b.added;
      evolves = RowByRow-trans Later Later-trans js a.moved first.moved a.evolves first.evolves;
    }

reuse_or_add-Continues :
    (source : Source) (job : SnapshotRun) (o : Option SnapshotRun) (db : Session)
    → Continues db.current.runs (reuse_or_add source job o db).0.committed.runs
reuse_or_add-Continues source job (some active) db =
    Continues-of_Evolves db.current.runs db.current.runs (Evolves-refl db.current.runs)
reuse_or_add-Continues source job none db = Continues-of_added db.current.runs (job ∷ [])

retry_of-Continues :
    (found : Option SnapshotRun) (now : ℕ) (t : Tables)
    → Continues t.runs (retry_of found now (opened t)).0.committed.runs
unfolding failed_chain_exists latest
retry_of-Continues none now t = Continues-of_Evolves t.runs t.runs (Evolves-refl t.runs)
retry_of-Continues (some parent) now t =
    let same = Continues-of_Evolves t.runs t.runs (Evolves-refl t.runs) in
    elim (Bool-cases (is_retryable parent.status)) [
      | inr no_retry ↦ rw no_retry same
      | inl may_retry ↦ elim (Bool-cases (failed_chain_exists t parent.id)) [
        | inr clean ↦ rw (may_retry, clean) same
        | inl dirty ↦
            rw (may_retry, dirty)
              (reuse_or_add-Continues api (retry_job parent t.next_run now)
                (latest (filter (is_active_retry parent.id) t.runs)) (opened t))
      ]
    ]

Step-Continues : (t u : Tables) → Step t u → IsValid t → Continues t.runs u.runs
unfolding create_job get_active_scope_job create_retry_failed_job
Step-Continues _ _ (created p source now t) v =
    reuse_or_add-Continues source (new_job p t.next_run now) (get_active_scope_job p t.runs)
      (opened t)
Step-Continues _ _ (retried id now t) v = retry_of-Continues (get_run id t.runs) now t
Step-Continues _ _ (scheduled time t) v =
    let (after, all) = create_scheduled_jobs-Scheduled time (opened t) v in
    record {
      moved = t.runs;
      added = after.rows;
      rows = ap (λ (x : Tables). x.runs) (after.saved refl) ∙ after.appended;
      evolves = RowByRow-refl Later Later-refl t.runs;
    }
Step-Continues _ _ (claimed locked w l now t) v =
    Continues-of_Evolves t.runs _ (claim-Evolves locked w l now (opened t) v.distinct)
Step-Continues _ _ (renewed id w l now t) v =
    Continues-of_Evolves t.runs _ (renew-Evolves id w l now (opened t) (Evolves-refl t.runs))
Step-Continues _ _ (ended id status m at t e) v =
    Continues-of_Later t.runs _
      (update_run-Later id (finished status m at) t.runs (λ j. finished-Later status m at j e))
Step-Continues _ _ (broken id m at t) v =
    Continues-of_Later t.runs _
      (update_run-Later id (failed_job m at) t.runs (failed_job-Later m at))

-- From a valid queue, any number of transactions of the API, the scheduler and the workers, in any
-- order, lose no job and change no job's request: the rows of before come first, in their order, with
-- the columns of the request unchanged, and new rows come after them. No job goes back to an earlier
-- stage of pending, running and ended, and a row that has the columns of its status still has them; an
-- end may be written over another end.
pub Reach-Continues : (t u : Tables) → Reach t u → IsValid t → Continues t.runs u.runs
Reach-Continues t _ start v = Continues-of_Evolves t.runs t.runs (Evolves-refl t.runs)
Reach-Continues t u (next {u = s} r step) v =
    Continues-trans t.runs s.runs u.runs (Reach-Continues t s r v)
      (Step-Continues s u step (Reach-IsValid t s r v))
