-- ===== src/Claim/Recover.antt =====
-- What `recover_stale_running_jobs` does to each row, and what it leaves behind.
use mathlib.Core.Option
use py_wallet_snapshot_servi.Prelude.{
  ℕ, suc, ◌≡◌, refl, Bool, false, not, ◌&&◌, Option, none, some, leb, fun_ext, subst, List, [], ◌∷◌,
  ◌++◌, ◌+◌, if◌then◌else◌, any, filter, length, arith, Text,
}
use py_wallet_snapshot_servi.Enums.{JobStatus, is_running}
use py_wallet_snapshot_servi.Models.{SnapshotRun}
use py_wallet_snapshot_servi.Session.{get_run}
use py_wallet_snapshot_servi.Metrics.{Metric, stale_jobs_recovered, observe_first_snapshot_outcome}
use py_wallet_snapshot_servi.Claim.{
  Recovery, is_stale, takes_over, fail_stale, recover_rows, recovery_metrics,
  recover_stale_running_jobs,
}

get_run-recover_rows :
    (p : SnapshotRun → Bool) (now i : ℕ) (js : List SnapshotRun)
    → get_run i (recover_rows p now js)
      ≡ Option.map (λ j. if p j then fail_stale now j else j) (get_run i js)
unfolding recover_rows
get_run-recover_rows p now i [] = refl
get_run-recover_rows p now i (j ∷ js) = ground (arith, get_run-recover_rows p now i js)

takes_over-fail_stale :
    (locked : ℕ → Bool) (l now t : ℕ) (j : SnapshotRun)
    → takes_over locked l now (fail_stale t j) ≡ false
unfolding is_stale
takes_over-fail_stale locked l now t j = refl

any-recover_rows :
    (locked : ℕ → Bool) (l now t : ℕ) (js : List SnapshotRun)
    → any (takes_over locked l now) (recover_rows (takes_over locked l now) t js) ≡ false
unfolding recover_rows
any-recover_rows locked l now t [] = refl
any-recover_rows locked l now t (j ∷ js) =
    ground (arith, any-recover_rows locked l now t js, takes_over-fail_stale locked l now t j)

-- The `stale_jobs_recovered_total` counter.
abbrev pub recoveries : List Metric → ℕ
recoveries [] = 0
recoveries (stale_jobs_recovered s ∷ ms) = suc (recoveries ms)
recoveries (_ ∷ ms) = recoveries ms

recoveries-append : (ms ns : List Metric) → recoveries (ms ++ ns) ≡ recoveries ms + recoveries ns
recoveries-append [] ns = omega arith
recoveries-append (stale_jobs_recovered s ∷ ms) ns = omega (arith, recoveries-append ms ns)
recoveries-append (_ ∷ ms) ns = recoveries-append ms ns

recoveries-observe :
    (c : Option Text) (s : JobStatus) → recoveries (observe_first_snapshot_outcome c s) ≡ 0
unfolding observe_first_snapshot_outcome
recoveries-observe none s = refl
recoveries-observe (some c) s = ground arith

recoveries-recovery_metrics : (js : List SnapshotRun) → recoveries (recovery_metrics js) ≡ length js
unfolding recovery_metrics
recoveries-recovery_metrics [] = refl
recoveries-recovery_metrics (j ∷ js) =
    let seen = observe_first_snapshot_outcome j.activation_channel JobStatus.failed in
    omega (
      arith,
      recoveries-append seen (recovery_metrics js),
      recoveries-observe j.activation_channel JobStatus.failed,
      recoveries-recovery_metrics js,
    )

-- When the lease of a running job ends: a job from before leases has its start, or its creation, and
-- the lease time.
abbrev pub deadline : ℕ → SnapshotRun → ℕ
deadline lease_seconds job = elim job.lease_expires_at [
  | some t ↦ t
  | none ↦ elim job.started_at [
    | some t ↦ t + lease_seconds
    | none ↦ job.created_at + lease_seconds
  ]
]

is_stale-deadline :
    (lease_seconds now : ℕ) (job : SnapshotRun)
    → is_stale lease_seconds now job
      ≡ (is_running job.status && leb (deadline lease_seconds job) now)
unfolding is_stale
is_stale-deadline lease_seconds now job = ground arith

-- Running, past its deadline, and not held by another transaction.
abbrev pub is_abandoned : (ℕ → Bool) → ℕ → ℕ → SnapshotRun → Bool
is_abandoned locked lease_seconds now job =
    is_running job.status && leb (deadline lease_seconds job) now && not (locked job.id)

takes_over-is_abandoned :
    (locked : ℕ → Bool) (lease_seconds now : ℕ)
    → takes_over locked lease_seconds now ≡ is_abandoned locked lease_seconds now
takes_over-is_abandoned locked lease_seconds now =
    fun_ext (λ job. ground (arith, is_stale-deadline lease_seconds now job))

-- The outcome `r` of failing the rows of `runs` that `p` selects.
abbrev Settles : ℕ → List SnapshotRun → Recovery → (SnapshotRun → Bool) → Type 0
Settles now runs r p =
    ((i : ℕ)
      → get_run i r.runs ≡ Option.map (λ j. if p j then fail_stale now j else j) (get_run i runs))
    × (any p r.runs ≡ false)
    × (r.recovered ≡ length (filter p runs))
    × (recoveries r.metrics ≡ r.recovered)

takes_over-Settles :
    (locked : ℕ → Bool) (lease_seconds now : ℕ) (runs : List SnapshotRun)
    → Settles now runs
        (recover_stale_running_jobs locked lease_seconds now runs)
        (takes_over locked lease_seconds now)
unfolding recover_stale_running_jobs
takes_over-Settles locked lease_seconds now runs = (
  (λ i. get_run-recover_rows (takes_over locked lease_seconds now) now i runs),
  any-recover_rows locked lease_seconds now now runs,
  refl,
  recoveries-recovery_metrics (filter (takes_over locked lease_seconds now) runs),
)

-- Recovery turns every running job that has reached its deadline and is not locked into a failed one
-- without worker or lease, leaves every other row as it is, leaves no such job behind, and counts
-- in the result and in the counter as many jobs as there were of them.
pub recover_exact :
    (locked : ℕ → Bool) (lease_seconds now : ℕ) (runs : List SnapshotRun)
    → let r = recover_stale_running_jobs locked lease_seconds now runs in
      ((i : ℕ)
        → get_run i r.runs
          ≡ Option.map
              (λ j. if is_abandoned locked lease_seconds now j then fail_stale now j else j)
              (get_run i runs))
      × (any (is_abandoned locked lease_seconds now) r.runs ≡ false)
      × (r.recovered ≡ length (filter (is_abandoned locked lease_seconds now) runs))
      × (recoveries r.metrics ≡ r.recovered)
recover_exact locked lease_seconds now runs =
    subst (Settles now runs (recover_stale_running_jobs locked lease_seconds now runs))
      (takes_over-is_abandoned locked lease_seconds now)
      (takes_over-Settles locked lease_seconds now runs)
