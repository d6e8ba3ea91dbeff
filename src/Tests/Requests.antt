-- ===== src/Tests/Requests.antt =====
-- The requests of the API at concrete inputs.
use py_wallet_snapshot_servi.Prelude.{◌≡◌, refl, true, none, some, [], ◌∷◌, filter, All}
use py_wallet_snapshot_servi.Api.{create_snapshot_job}
use py_wallet_snapshot_servi.Api.Served.{IsServed, create_snapshot_job-IsServed}
use py_wallet_snapshot_servi.Api.Debug.{list_jobs, is_listed, IsNewest, list_jobs-sorted}
use py_wallet_snapshot_servi.Tests.Fixtures.{request, tables, session, pending_job}
use py_wallet_snapshot_servi.Tests.Queues.{session-IsValid}
use py_wallet_snapshot_servi.Tests.Tokens.{access, access_valid, token}

create_snapshot_job-IsServed_example :
    IsServed access
      (some token)
      request
      session
      (create_snapshot_job access (some token) request 200 session)
create_snapshot_job-IsServed_example =
    create_snapshot_job-IsServed access (some token) request 200 session access_valid
      session-IsValid

list_jobs-sorted_example :
    All (λ j. is_listed none (some 7) j ≡ true) (list_jobs 1 none (some 7) tables)
    × IsNewest 1 (filter (is_listed none (some 7)) tables.runs) (list_jobs 1 none (some 7) tables)
list_jobs-sorted_example = list_jobs-sorted 1 none (some 7) tables

lists_one : list_jobs 1 none (some 7) tables ≡ pending_job ∷ []
unfolding list_jobs
lists_one = refl
