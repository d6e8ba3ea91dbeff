-- ===== src/Queue.antt =====
-- The table `snapshot_runs` as a queue: how a row may change, what holds of every row, and which jobs
-- may not be active together (README.md, "Job lifecycle"; app/services/job_service.py).
pub mod Evolve
use py_wallet_snapshot_servi.Prelude.{
  ℕ, ◌<◌, ◌≤◌, ◌≡◌, ◌≢◌, Bool, false, not, ◌&&◌, ◌||◌, Option, none, List, [], ◌∷◌, ◌==◌, same_id,
  is_some, All, Pairwise, true,
}
use py_wallet_snapshot_servi.Enums.{
  TriggerType, ScopeType, JobStatus, same_trigger, same_scope, is_active,
}
use py_wallet_snapshot_servi.Models.{SnapshotRun}
use py_wallet_snapshot_servi.Session.{Tables}
use py_wallet_snapshot_servi.Session.Rows.{IsDistinct}

-- pending → running → success, partial_success or failed, in any number of steps: no status is left
-- for an earlier one, and a finished job keeps its own.
abbrev pub CanBecome : JobStatus → JobStatus → Type 0
CanBecome JobStatus.pending JobStatus.pending = Unit
CanBecome JobStatus.pending JobStatus.running = Unit
CanBecome JobStatus.pending JobStatus.success = Unit
CanBecome JobStatus.pending JobStatus.partial_success = Unit
CanBecome JobStatus.pending JobStatus.failed = Unit
CanBecome JobStatus.running JobStatus.running = Unit
CanBecome JobStatus.running JobStatus.success = Unit
CanBecome JobStatus.running JobStatus.partial_success = Unit
CanBecome JobStatus.running JobStatus.failed = Unit
CanBecome JobStatus.success JobStatus.success = Unit
CanBecome JobStatus.partial_success JobStatus.partial_success = Unit
CanBecome JobStatus.failed JobStatus.failed = Unit
CanBecome JobStatus.cancelled JobStatus.cancelled = Unit
CanBecome _ _ = ⊥

-- The columns that a status goes with.
abbrev pub Shape : JobStatus → SnapshotRun → Type 0
Shape JobStatus.pending j =
    (j.started_at ≡ none)
    × (j.finished_at ≡ none)
    × (j.worker_id ≡ none)
    × (j.lease_expires_at ≡ none)
Shape JobStatus.running j =
    (is_some j.started_at ≡ true)
    × (j.finished_at ≡ none)
    × (is_some j.worker_id ≡ true)
    × (is_some j.lease_expires_at ≡ true)
Shape _ j = (is_some j.finished_at ≡ true) × (j.worker_id ≡ none) × (j.lease_expires_at ≡ none)

abbrev pub IsWellFormed : SnapshotRun → Type 0
IsWellFormed j = Shape j.status j

-- Two rows that ask for the same: the same scope of the same user, or a retry of the same job.
abbrev pub same_request : SnapshotRun → SnapshotRun → Bool
same_request j k =
    not (same_scope j.scope_type ScopeType.failed_chains)
    && (j.user_id == k.user_id)
    && same_scope j.scope_type k.scope_type
    && same_id j.group_id k.group_id
    && same_id j.wallet_id k.wallet_id

abbrev pub is_retry : SnapshotRun → Bool
is_retry j =
    same_trigger j.trigger_type TriggerType.retry
    && same_scope j.scope_type ScopeType.failed_chains
    && is_some j.parent_run_id

abbrev pub same_retry : SnapshotRun → SnapshotRun → Bool
same_retry j k = is_retry j && is_retry k && same_id j.parent_run_id k.parent_run_id

unfoldable pub is_duplicate : SnapshotRun → SnapshotRun → Bool
is_duplicate j k = same_request j k || same_retry j k

-- At most one of them is active.
abbrev pub NotRivals : SnapshotRun → SnapshotRun → Type 0
NotRivals j k = is_active j.status ≡ true → is_active k.status ≡ true → is_duplicate j k ≡ false

pub record IsValid (t : Tables) : Type 0 where
  pub distinct : IsDistinct t.runs
  pub fresh : All (λ j. j.id < t.next_run) t.runs
  pub well_formed : All IsWellFormed t.runs
  pub no_rivals : Pairwise NotRivals t.runs

-- One row, before and after: the columns that describe the request stay.
pub record Next (j k : SnapshotRun) : Type 0 where
  pub same_key : k.id ≡ j.id
  pub same_user : k.user_id ≡ j.user_id
  pub same_trigger_type : k.trigger_type ≡ j.trigger_type
  pub same_scope_type : k.scope_type ≡ j.scope_type
  pub same_group : k.group_id ≡ j.group_id
  pub same_wallet : k.wallet_id ≡ j.wallet_id
  pub same_parent : k.parent_run_id ≡ j.parent_run_id
  pub same_channel : k.activation_channel ≡ j.activation_channel
  pub same_creation : k.created_at ≡ j.created_at
  pub status_moves : CanBecome j.status k.status
  pub keeps_shape : IsWellFormed j → IsWellFormed k

-- Row by row, in the same order.
abbrev pub RowByRow :
    (SnapshotRun → SnapshotRun → Type 0) → List SnapshotRun → List SnapshotRun → Type 0
RowByRow R [] [] = Unit
RowByRow R (j ∷ js) (k ∷ ks) = R j k × RowByRow R js ks
RowByRow R _ _ = ⊥

abbrev pub Evolves : List SnapshotRun → List SnapshotRun → Type 0
Evolves = RowByRow Next

-- How far a job has come: it waits, it runs, it has ended.
abbrev pub stage : JobStatus → ℕ
stage JobStatus.pending = 0
stage JobStatus.running = 1
stage _ = 2

-- One row, before and after, when workers may also end a job that is not running: the columns that
-- describe the request stay, and the job goes back to no earlier stage.
pub record Later (j k : SnapshotRun) : Type 0 where
  pub same_key : k.id ≡ j.id
  pub same_user : k.user_id ≡ j.user_id
  pub same_trigger_type : k.trigger_type ≡ j.trigger_type
  pub same_scope_type : k.scope_type ≡ j.scope_type
  pub same_group : k.group_id ≡ j.group_id
  pub same_wallet : k.wallet_id ≡ j.wallet_id
  pub same_parent : k.parent_run_id ≡ j.parent_run_id
  pub same_channel : k.activation_channel ≡ j.activation_channel
  pub same_creation : k.created_at ≡ j.created_at
  pub not_back : stage j.status ≤ stage k.status
  pub keeps_shape : IsWellFormed j → IsWellFormed k
