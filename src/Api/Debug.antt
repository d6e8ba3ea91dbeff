-- ===== src/Api/Debug.antt =====
-- app/api/debug.py and app/schemas/debug.py: the debug requests for jobs. The reading of the query is
-- left out; its limit is from 1 to 100. An item keeps its row, of which the response shows some columns.
use mathlib.Core.List.{Perm}
use mathlib.Core.List.Perm
use py_wallet_snapshot_servi.Prelude.{
  ℕ, zero, suc, ◌≤◌, ◌≡◌, refl, ap, ◌∙◌, ◌++◌, min, Bool, true, false, ◌&&◌, Option, none, some,
  List, [], ◌∷◌, map, filter, length, leb, ◌==◌, if◌then◌else◌, arith, Text, codes, text_eq,
  is_empty, All, All-mono, Pairwise, Bool-cases, inl, inr,
}
use py_wallet_snapshot_servi.Enums.{JobStatus}
use py_wallet_snapshot_servi.Models.{SnapshotRun, WalletSnapshot, ChainSnapshot, BalanceSnapshot}
use py_wallet_snapshot_servi.Result.{Result, ok, raise, http_exception}
use py_wallet_snapshot_servi.Session.{Tables, get_run}

-- The status as the database has it.
abbrev pub job_status_value : JobStatus → Text
job_status_value JobStatus.pending = codes "pending"
job_status_value JobStatus.running = codes "running"
job_status_value JobStatus.success = codes "success"
job_status_value JobStatus.partial_success = codes "partial_success"
job_status_value JobStatus.failed = codes "failed"
job_status_value JobStatus.cancelled = codes "cancelled"

abbrev pub require_debug_enabled : Bool → Result (Unit {0})
require_debug_enabled true = ok tt
require_debug_enabled false = raise (http_exception 404 (codes "debug endpoints disabled"))

-- A filter that is absent or empty lets every job pass.
abbrev pub has_status : Option Text → SnapshotRun → Bool
has_status none job = true
has_status (some status) job =
    if is_empty status then true else text_eq (job_status_value job.status) status

abbrev pub has_user : Option ℕ → SnapshotRun → Bool
has_user none job = true
has_user (some user_id) job = if user_id == 0 then true else job.user_id == user_id

abbrev pub is_listed : Option Text → Option ℕ → SnapshotRun → Bool
is_listed status user_id job = has_status status job && has_user user_id job

-- `ORDER BY created_at DESC`
unfoldable pub insert_newest : SnapshotRun → List SnapshotRun → List SnapshotRun
insert_newest j [] = j ∷ []
insert_newest j (k ∷ ks) =
    if leb k.created_at j.created_at then j ∷ k ∷ ks else k ∷ insert_newest j ks

unfoldable pub newest_first : List SnapshotRun → List SnapshotRun
unfolding insert_newest
newest_first [] = []
newest_first (j ∷ js) = insert_newest j (newest_first js)

-- `LIMIT`
unfoldable pub take : ℕ → List SnapshotRun → List SnapshotRun
take zero js = []
take (suc n) [] = []
take (suc n) (j ∷ js) = j ∷ take n js

unfoldable pub list_jobs : ℕ → Option Text → Option ℕ → Tables → List SnapshotRun
unfolding newest_first take text_eq
list_jobs limit status user_id t =
    take limit (newest_first (filter (is_listed status user_id) t.runs))

pub record DebugChainItem : Type 0 where
  pub chain : ChainSnapshot
  pub balances_count : ℕ

pub record DebugWalletItem : Type 0 where
  pub wallet : WalletSnapshot
  pub chains : List DebugChainItem

pub record DebugJobDetail : Type 0 where
  pub job : SnapshotRun
  pub wallets : List DebugWalletItem

-- `balance_counts.get(chain.id, 0)`
abbrev pub balances_count : Tables → ChainSnapshot → ℕ
balances_count t chain =
    length (filter (λ (b : BalanceSnapshot). b.chain_snapshot_id == chain.id) t.balance_snapshots)

abbrev pub wallet_item : Tables → WalletSnapshot → DebugWalletItem
wallet_item t wallet = record {
  wallet = wallet;
  chains =
      map (λ chain. record { chain = chain; balances_count = balances_count t chain })
        (filter (λ (c : ChainSnapshot). c.wallet_snapshot_id == wallet.id) t.chain_snapshots);
}

unfoldable pub get_job_detail : ℕ → Tables → Result DebugJobDetail
get_job_detail job_id t = elim (get_run job_id t.runs) [
  | none ↦ raise (http_exception 404 (codes "job not found"))
  | some job ↦ ok (record {
    job = job;
    wallets =
        map (wallet_item t)
          (filter (λ (w : WalletSnapshot). w.snapshot_run_id == job.id) t.wallet_snapshots);
  })
]

-- No job before a newer one.
abbrev pub NotOlder : SnapshotRun → SnapshotRun → Type 0
NotOlder j k = k.created_at ≤ j.created_at

module _ (P : SnapshotRun → Type 0) where
  insert_newest-All :
      (j : SnapshotRun) (ks : List SnapshotRun) → P j → All P ks → All P (insert_newest j ks)
  unfolding insert_newest
  insert_newest-All j [] p a = (p, tt)
  insert_newest-All j (k ∷ ks) p a =
      elim (leb k.created_at j.created_at)
        as (λ b. All P (if b then j ∷ k ∷ ks else k ∷ insert_newest j ks)) [
          | true ↦ (p, a)
          | false ↦ (a.0, insert_newest-All j ks p a.1)
        ]

  newest_first-All : (js : List SnapshotRun) → All P js → All P (newest_first js)
  unfolding newest_first
  newest_first-All [] a = tt
  newest_first-All (j ∷ js) a = insert_newest-All j (newest_first js) a.0 (newest_first-All js a.1)

  take-All : (n : ℕ) (js : List SnapshotRun) → All P js → All P (take n js)
  unfolding take
  take-All zero js a = tt
  take-All (suc n) [] a = tt
  take-All (suc n) (j ∷ js) a = (a.0, take-All n js a.1)

insert_newest-sorted :
    (j : SnapshotRun) (ks : List SnapshotRun)
    → Pairwise NotOlder ks
    → Pairwise NotOlder (insert_newest j ks)
unfolding insert_newest
insert_newest-sorted j [] s = (tt, tt)
insert_newest-sorted j (k ∷ ks) s = elim (Bool-cases (leb k.created_at j.created_at)) [
  | inl older ↦ rw older (
      let le : k.created_at ≤ j.created_at = ground arith in
      ((le, All-mono (λ m h. omega (arith, le)) ks s.0), s))
  | inr newer ↦
      rw newer
        (insert_newest-All (NotOlder k) j ks (ground arith) s.0, insert_newest-sorted j ks s.1)
]

newest_first-sorted : (js : List SnapshotRun) → Pairwise NotOlder (newest_first js)
unfolding newest_first
newest_first-sorted [] = tt
newest_first-sorted (j ∷ js) = insert_newest-sorted j (newest_first js) (newest_first-sorted js)

-- What the limit leaves out.
unfoldable drop : ℕ → List SnapshotRun → List SnapshotRun
drop zero js = js
drop (suc n) [] = []
drop (suc n) (j ∷ js) = drop n js

take-drop : (n : ℕ) (js : List SnapshotRun) → take n js ++ drop n js ≡ js
unfolding take drop
take-drop zero js = refl
take-drop (suc n) [] = refl
take-drop (suc n) (j ∷ js) = ap (λ xs. j ∷ xs) (take-drop n js)

length-take : (n : ℕ) (js : List SnapshotRun) → length (take n js) ≡ min n (length js)
unfolding take
length-take zero js = omega arith
length-take (suc n) [] = omega arith
length-take (suc n) (j ∷ js) = omega (arith, length-take n js)

insert_newest-perm : (j : SnapshotRun) (ks : List SnapshotRun) → Perm (insert_newest j ks) (j ∷ ks)
unfolding insert_newest
insert_newest-perm j [] = Perm.refl _
insert_newest-perm j (k ∷ ks) =
    elim (leb k.created_at j.created_at)
      as (λ b. Perm (if b then j ∷ k ∷ ks else k ∷ insert_newest j ks) (j ∷ k ∷ ks)) [
        | true ↦ Perm.refl _
        | false ↦ Perm.trans (Perm.cons k (insert_newest-perm j ks)) (Perm.swap j k ks)
      ]

newest_first-perm : (js : List SnapshotRun) → Perm (newest_first js) js
unfolding newest_first
newest_first-perm [] = Perm.refl _
newest_first-perm (j ∷ js) =
    Perm.trans (insert_newest-perm j (newest_first js)) (Perm.cons j (newest_first-perm js))

length-newest_first : (js : List SnapshotRun) → length (newest_first js) ≡ length js
unfolding newest_first insert_newest
length-newest_first [] = refl
length-newest_first (j ∷ js) = inserted (newest_first js) ∙ ap suc (length-newest_first js)
  where
    inserted : (ks : List SnapshotRun) → length (insert_newest j ks) ≡ suc (length ks)
    inserted [] = refl
    inserted (k ∷ ks) =
        elim (leb k.created_at j.created_at)
          as (λ b.
            length (if b then j ∷ k ∷ ks else k ∷ insert_newest j ks) ≡ suc (suc (length ks))) [
              | true ↦ refl
              | false ↦ ap suc (inserted ks)
            ]

filter-All : (p : SnapshotRun → Bool) (js : List SnapshotRun) → All (λ j. p j ≡ true) (filter p js)
filter-All p [] = tt
filter-All p (j ∷ js) = elim (Bool-cases (p j)) [
  | inl passes ↦ rw passes (passes, filter-All p js)
  | inr fails ↦ rw fails (filter-All p js)
]

-- The newest `limit` rows of `found`, newest first: with the rows that are left out they are the rows
-- of `found`, each once, and no row comes before a newer one, listed or left out.
pub record IsNewest (limit : ℕ) (found listed : List SnapshotRun) : Type 0 where
  pub rest : List SnapshotRun
  pub complete : Perm (listed ++ rest) found
  pub sorted : Pairwise NotOlder (listed ++ rest)
  pub size : length listed ≡ min limit (length found)

-- For any limit, status and user, every listed job passes both filters, and the list has the newest of
-- the jobs that pass them, as many as the limit allows, each once and none before a newer one.
pub list_jobs-sorted :
    (limit : ℕ) (status : Option Text) (user_id : Option ℕ) (t : Tables)
    → let listed = list_jobs limit status user_id t in
      All (λ j. is_listed status user_id j ≡ true) listed
      × IsNewest limit (filter (is_listed status user_id) t.runs) listed
unfolding list_jobs
list_jobs-sorted limit status user_id t =
    let found = filter (is_listed status user_id) t.runs in
    let all = newest_first found in
    (
      take-All (λ j. is_listed status user_id j ≡ true) limit all
          (newest_first-All (λ j. is_listed status user_id j ≡ true) found
            (filter-All (is_listed status user_id) t.runs)),
      record {
        rest = drop limit all;
        complete = rw (take-drop limit all) (newest_first-perm found);
        sorted = rw (take-drop limit all) (newest_first-sorted found);
        size = length-take limit all ∙ ap (min limit) (length-newest_first found);
      },
    )
