-- ===== src/Api/Served.antt =====
-- What a request for a job has passed when it is served (app/api/internal_jobs.py, app/schemas/jobs.py).
use py_wallet_snapshot_servi.Prelude.{ℕ, ◌≡◌, refl, true, Option, some, is_some, [], Text, arith}
use py_wallet_snapshot_servi.Enums.{TriggerType, ScopeType, same_scope, same_trigger}
use py_wallet_snapshot_servi.Metrics.{api}
use py_wallet_snapshot_servi.Result.{Result, ok, raise}
use py_wallet_snapshot_servi.Session.{Session}
use py_wallet_snapshot_servi.Queue.{IsValid}
use py_wallet_snapshot_servi.Access.{
  AccessSettings, validate_internal_api_token, require_internal_token, IsAdmitted,
  require_internal_token-IsAdmitted,
}
use py_wallet_snapshot_servi.Jobs.{SnapshotJobCreate, validate_scope, create_job}
use py_wallet_snapshot_servi.Jobs.Keeps.{create_job-IsValid}
use py_wallet_snapshot_servi.Api.{Served, after_check, created_response, create_snapshot_job}

-- A payload that names what its scope needs.
pub record IsScoped (p : SnapshotJobCreate) : Type 0 where
  pub of_group : same_scope p.scope_type ScopeType.group ≡ true → is_some p.group_id ≡ true
  pub of_wallet : same_scope p.scope_type ScopeType.wallet ≡ true → is_some p.wallet_id ≡ true
  pub of_channel :
      is_some p.activation_channel ≡ true
      → (same_trigger p.trigger_type TriggerType.auto ≡ true)
        × (same_scope p.scope_type ScopeType.wallet ≡ true)

validate_scope-IsScoped : (p q : SnapshotJobCreate) → validate_scope p ≡ ok q → (q ≡ p) × IsScoped p
unfolding validate_scope
validate_scope-IsScoped p q h = (
  ground arith,
  record {
    of_group = λ e. ground arith;
    of_wallet = λ e. ground arith;
    of_channel = λ e. (ground arith, ground arith);
  },
)

-- What a request that is answered has passed, and what one that is not leaves as it was.
abbrev pub IsServed :
    {A : Type 0} → AccessSettings → Option Text → SnapshotJobCreate → Session → Served A → Type 0
IsServed settings header payload db (db', ok response, metrics) =
    ((token : Text) × (header ≡ some token) × IsAdmitted settings token)
    × IsScoped payload
    × IsValid db'.committed
IsServed settings header payload db (db', raise e, metrics) = (db' ≡ db) × (metrics ≡ [])

-- Under settings that the validator accepts and on a valid queue, a request for a job is answered only
-- with the configured token and a payload that names the group or wallet of its scope and an
-- activation channel only for an automatic job of a wallet, and leaves a valid queue committed; any
-- other request gets an exception, and the session and the counters stay as they are.
pub create_snapshot_job-IsServed :
    (settings : AccessSettings) (header : Option Text) (payload : SnapshotJobCreate) (now : ℕ)
    (db : Session)
    → validate_internal_api_token settings ≡ ok settings
    → IsValid db.current
    → IsServed settings header payload db (create_snapshot_job settings header payload now db)
unfolding create_snapshot_job
create_snapshot_job-IsServed settings header payload now db valid queue =
    checked (require_internal_token settings header) refl
  where
    validated :
        (v : Result SnapshotJobCreate)
        → validate_scope payload ≡ v
        → ((token : Text) × (header ≡ some token) × IsAdmitted settings token)
        → IsServed settings header payload db
            (after_check v (λ p d. created_response (create_job p api now d)) db)
    validated (ok q) e admitted =
        let scoped = (validate_scope-IsScoped payload q e).1 in
        (admitted, scoped, create_job-IsValid q api now db queue)
    validated (raise x) e admitted = (refl, refl)

    checked :
        (c : Result (Unit {0}))
        → require_internal_token settings header ≡ c
        → IsServed settings header payload db (
            after_check c
              (λ _.
                after_check
                  (validate_scope payload)
                  λ p d. created_response (create_job p api now d))
              db)
    checked (ok tt) e =
        validated (validate_scope payload) refl
          (require_internal_token-IsAdmitted settings header valid e)
    checked (raise x) e = (refl, refl)
