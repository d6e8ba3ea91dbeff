-- ===== src/Tests/Queues.antt =====
-- Jobs, leases and wallets on the small database.
use mathlib.Core.List.{Sublist}
use mathlib.Core.Option
use py_wallet_snapshot_servi.Prelude.{
  ℕ, ◌≡◌, refl, false, true, some, is_some, [], ◌∷◌, arith, any, filter, length, All, Pairwise,
  if◌then◌else◌, text_eq, strip, lower,
}
use py_wallet_snapshot_servi.Metrics.{api}
use py_wallet_snapshot_servi.Result.{ok, raise, job_lease_lost}
use py_wallet_snapshot_servi.Session.{commit, rollback, get_run, with_runs}
use py_wallet_snapshot_servi.Claim.{
  is_claimable, claimed, claim_next_pending_job, recover_stale_running_jobs, renew_job_lease,
  fail_stale,
}
use py_wallet_snapshot_servi.Claim.Recover.{is_abandoned, recoveries, recover_exact}
use py_wallet_snapshot_servi.Claim.Take.{Takes, claim_next-Takes}
use py_wallet_snapshot_servi.Claim.Renew.{Holds, extend_lease, renew_exact}
use py_wallet_snapshot_servi.Claim.Keeps.{claim-Evolves, renew-Evolves}
use py_wallet_snapshot_servi.Queue.{IsValid, Evolves, is_duplicate}
use py_wallet_snapshot_servi.Queue.Evolve.{Evolves-refl}
use py_wallet_snapshot_servi.Jobs.{
  create_job, new_job, in_active_scope, create_retry_failed_job, failed_chain_exists, latest,
}
use py_wallet_snapshot_servi.Jobs.Create.{Answers, create_job-Answers}
use py_wallet_snapshot_servi.Jobs.Retry.{RetryOutcome, create_retry-RetryOutcome}
use py_wallet_snapshot_servi.Jobs.Keeps.{create_job-IsValid, create_retry-IsValid}
use py_wallet_snapshot_servi.WalletLoader.{load_for_job, deduplicate_onchain_addresses}
use py_wallet_snapshot_servi.WalletLoader.Dedup.{
  DifferentAddress, Represents, deduplicate_keeps_oldest,
}
use py_wallet_snapshot_servi.WalletLoader.Scope.{IsLoaded, load_for_job-IsLoaded}
use py_wallet_snapshot_servi.Tests.Fixtures.{
  worker, request, pending_job, old_wallet, new_wallet, tables, session, ended_tables,
  ended_session,
}

pub session-IsValid : IsValid tables
unfolding is_duplicate
session-IsValid = record {
  distinct = ((omega arith, tt), (tt, tt));
  fresh = omega arith;
  well_formed = ((refl, refl, refl, refl), ((refl, refl, refl, refl), tt));
  no_rivals = ((λ _ _. refl, tt), (tt, tt));
}

ended_session-IsValid : IsValid ended_tables
unfolding is_duplicate
ended_session-IsValid = record {
  distinct = (tt, tt);
  fresh = omega arith;
  well_formed = ((refl, refl, refl), tt);
  no_rivals = (tt, tt);
}

create_job-IsValid_example : IsValid (create_job request api 200 session).0.committed
create_job-IsValid_example = create_job-IsValid request api 200 session session-IsValid

claims_first :
    let (db', job, _) = claim_next_pending_job (λ _. false) worker 60 200 session in
    (job ≡ some (claimed worker 60 200 pending_job))
unfolding claim_next_pending_job
claims_first = refl

claim_next-Takes_example :
    let (db', job, _) = claim_next_pending_job (λ _. false) worker 60 200 session in
    let r = recover_stale_running_jobs (λ _. false) 60 200 tables.runs in
    Takes
      (is_claimable λ _. false)
      (claimed worker 60 200)
      tables.runs
      (with_runs r.runs session)
      (db', job)
claim_next-Takes_example = claim_next-Takes (λ _. false) worker 60 200 session

recover_exact_example :
    let r = recover_stale_running_jobs (λ _. false) 60 200 tables.runs in
    ((i : ℕ)
      → get_run i r.runs
        ≡ Option.map
            (λ j. if is_abandoned (λ _. false) 60 200 j then fail_stale 200 j else j)
            (get_run i tables.runs))
    × (any (is_abandoned (λ _. false) 60 200) r.runs ≡ false)
    × (r.recovered ≡ length (filter (is_abandoned (λ _. false) 60 200) tables.runs))
    × (recoveries r.metrics ≡ r.recovered)
recover_exact_example = recover_exact (λ _. false) 60 200 tables.runs

renew_exact_example :
    (Holds 2 worker tables.runs
      → renew_job_lease 2 worker 60 150 session
        ≡ (commit (with_runs (extend_lease 2 210 tables.runs) session), ok 210))
    × (¬ Holds 2 worker tables.runs
        → renew_job_lease 2 worker 60 150 session ≡ (rollback session, raise (job_lease_lost 2)))
renew_exact_example = renew_exact 2 worker 60 150 session session-IsValid.distinct

claim-Evolves_example :
    Evolves tables.runs (claim_next_pending_job (λ _. false) worker 60 200 session).0.committed.runs
claim-Evolves_example = claim-Evolves (λ _. false) worker 60 200 session session-IsValid.distinct

renew-Evolves_example :
    Evolves tables.runs (renew_job_lease 2 worker 60 150 session).0.committed.runs
renew-Evolves_example = renew-Evolves 2 worker 60 150 session (Evolves-refl tables.runs)

create_job-Answers_example :
    Answers
      (in_active_scope request)
      (new_job request 3 200)
      api
      session
      (create_job request api 200 session)
create_job-Answers_example = create_job-Answers request api 200 session

create_retry-RetryOutcome_example :
    RetryOutcome 5 200 ended_session (create_retry_failed_job 5 200 ended_session)
create_retry-RetryOutcome_example = create_retry-RetryOutcome 5 200 ended_session

create_retry-IsValid_example : IsValid (create_retry_failed_job 5 200 ended_session).0.committed
create_retry-IsValid_example =
    create_retry-IsValid 5 200 ended_session ended_session-IsValid ended_session-IsValid

-- The retry of that job is added.
retries_failed :
    is_some (get_run 6 (create_retry_failed_job 5 200 ended_session).0.committed.runs) ≡ true
unfolding create_retry_failed_job failed_chain_exists latest
retries_failed = refl

load_for_job-IsLoaded_example : IsLoaded tables pending_job (load_for_job tables pending_job)
load_for_job-IsLoaded_example = load_for_job-IsLoaded tables pending_job

deduplicate_keeps_oldest_example :
    let kept = deduplicate_onchain_addresses (old_wallet ∷ new_wallet ∷ []) in
    Sublist kept (old_wallet ∷ new_wallet ∷ [])
    × Pairwise DifferentAddress kept
    × All (Represents kept) (old_wallet ∷ new_wallet ∷ [])
deduplicate_keeps_oldest_example =
    deduplicate_keeps_oldest (old_wallet ∷ new_wallet ∷ []) ((omega arith, tt), (tt, tt))

loads_one : load_for_job tables pending_job ≡ old_wallet ∷ []
unfolding load_for_job text_eq strip lower
loads_one = refl
