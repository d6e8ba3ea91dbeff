-- ===== src/Scheduler.antt =====
-- app/scheduler/loop.py: `create_scheduled_jobs`, one tick of the scheduler.
pub mod Covers
use py_wallet_snapshot_servi.Prelude.{
  ℕ, suc, ◌+◌, Bool, true, false, ◌&&◌, none, List, [], ◌∷◌, ◌++◌, any, filter, ◌==◌, leb,
  if◌then◌else◌,
}
use py_wallet_snapshot_servi.Enums.{TriggerType, ScopeType}
use py_wallet_snapshot_servi.Models.{User, Wallet}
use py_wallet_snapshot_servi.Metrics.{
  Metric, scheduler, jobs_skipped, scheduler_jobs_created, scheduler_jobs_skipped,
}
use py_wallet_snapshot_servi.Session.{Tables, Session}
use py_wallet_snapshot_servi.Jobs.{SnapshotJobCreate, create_job}

-- The query: users with an active wallet, `ORDER BY id`.
abbrev pub has_active_wallet : Tables → User → Bool
has_active_wallet t user = any (λ (w : Wallet). (w.user_id == user.id) && w.is_active) t.wallets

insert_user : User → List User → List User
insert_user u [] = u ∷ []
insert_user u (v ∷ vs) = if leb u.id v.id then u ∷ v ∷ vs else v ∷ insert_user u vs

order_users : List User → List User
unfolding insert_user
order_users [] = []
order_users (u ∷ us) = insert_user u (order_users us)

unfoldable pub active_users : Tables → List User
unfolding order_users
active_users t = order_users (filter (has_active_wallet t) t.users)

abbrev pub scheduled : User → SnapshotJobCreate
scheduled user = record {
  user_id = user.id;
  trigger_type = TriggerType.scheduled;
  scope_type = ScopeType.all;
  group_id = none;
  wallet_id = none;
  activation_channel = none;
}

abbrev pub tick_metrics : Bool → List Metric
tick_metrics true = scheduler_jobs_skipped ∷ jobs_skipped ∷ []
tick_metrics false = scheduler_jobs_created ∷ []

-- The loop over the users; `time k` is the clock at the k-th one.
unfoldable pub schedule_users : (ℕ → ℕ) → ℕ → List User → Session → Session × ℕ × List Metric
schedule_users time k [] db = (db, 0, [])
schedule_users time k (user ∷ users) db =
    let (db', result, ms) = create_job (scheduled user) scheduler (time k) db in
    let (db'', created, ns) = schedule_users time (k + 1) users db' in
    (db'', if result.reused then created else suc created, ms ++ tick_metrics result.reused ++ ns)

unfoldable pub create_scheduled_jobs : (ℕ → ℕ) → Session → Session × ℕ × List Metric
unfolding schedule_users active_users
create_scheduled_jobs time db = schedule_users time 0 (active_users db.current) db
