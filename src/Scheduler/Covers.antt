-- ===== src/Scheduler/Covers.antt =====
-- After a tick of the scheduler every active user has an active job for all wallets.
use mathlib.Core.List.{append-nil, append_assoc}
use py_wallet_snapshot_servi.Prelude.{
  ℕ, suc, ◌+◌, ◌≡◌, refl, sym, ap, subst, ◌∙◌, inl, inr, Bool, true, List, [], ◌∷◌, ◌++◌, any,
  any-of_mem, All-of_filter, filter, leb, length, length-append, All, arith, if◌then◌else◌,
  Bool-cases,
}
use py_wallet_snapshot_servi.Models.{SnapshotRun, User}
use py_wallet_snapshot_servi.Metrics.{Metric, scheduler}
use py_wallet_snapshot_servi.Session.{Session}
use py_wallet_snapshot_servi.Queue.{IsValid}
use py_wallet_snapshot_servi.Jobs.{JobCreationResult, in_active_scope, new_job, create_job}
use py_wallet_snapshot_servi.Jobs.Create.{Answers, create_job-Answers}
use py_wallet_snapshot_servi.Jobs.Keeps.{create_job-IsValid}
use py_wallet_snapshot_servi.Scheduler.{
  has_active_wallet, insert_user, order_users, active_users, scheduled, schedule_users,
  create_scheduled_jobs,
}

-- The user has a pending or running job for all wallets.
abbrev pub HasActiveJob : List SnapshotRun → User → Type 0
HasActiveJob runs user = any (in_active_scope (scheduled user)) runs ≡ true

-- From one session to another: jobs are added at the end, as many as are counted; each of the users
-- has an active job, and the queue is valid.
pub record Scheduled (users : List User) (db db' : Session) (created : ℕ) : Type 0 where
  pub rows : List SnapshotRun
  pub appended : db'.current.runs ≡ db.current.runs ++ rows
  pub counted : created ≡ length rows
  pub covered : All (HasActiveJob db'.current.runs) users
  pub valid : IsValid db'.current
  pub saved : db.committed ≡ db.current → db'.committed ≡ db'.current

any-append :
    (p : SnapshotRun → Bool) (xs ys : List SnapshotRun) → any p xs ≡ true → any p (xs ++ ys) ≡ true
any-append p [] ys h = ground arith
any-append p (x ∷ xs) ys h = ground (arith, any-append p xs ys)

any-snoc :
    (p : SnapshotRun → Bool) (xs : List SnapshotRun) (y : SnapshotRun)
    → p y ≡ true
    → any p (xs ++ y ∷ []) ≡ true
any-snoc p [] y h = ground arith
any-snoc p (x ∷ xs) y h = ground (arith, any-snoc p xs y h)

-- One user.
answered :
    (user : User) (now : ℕ) (db db' : Session) (r : JobCreationResult) (ms : List Metric)
    → IsValid db'.committed
    → Answers
        (in_active_scope (scheduled user))
        (new_job (scheduled user) db.current.next_run now)
        scheduler
        db
        (db', r, ms)
    → Scheduled (user ∷ []) db db' (if r.reused then 0 else 1)
answered user now db db' r ms v (inl (reused, m, h, least, e, _)) = record {
  rows = [];
  appended = ap (λ (d : Session). d.current.runs) e ∙ sym (append-nil db.current.runs);
  counted = rw reused refl;
  covered = (
    ap (λ (d : Session). any (in_active_scope (scheduled user)) d.current.runs) e
        ∙ any-of_mem (in_active_scope (scheduled user)) r.job db.current.runs m h,
    tt,
  );
  valid =
      subst IsValid (ap (λ (d : Session). d.committed) e ∙ sym (ap (λ (d : Session). d.current) e))
        v;
  saved = λ s. ap (λ (d : Session). d.committed) e ∙ sym (ap (λ (d : Session). d.current) e);
}
answered user now db db' r ms v (inr (added, none_active, _, e, _)) =
    let new = new_job (scheduled user) db.current.next_run now in
    record {
      rows = new ∷ [];
      appended = ap (λ (d : Session). d.current.runs) e;
      counted = rw added refl;
      covered = (
        ap (λ (d : Session). any (in_active_scope (scheduled user)) d.current.runs) e
            ∙ any-snoc (in_active_scope (scheduled user)) db.current.runs new (ground arith),
        tt,
      );
      valid =
          subst IsValid
            (ap (λ (d : Session). d.committed) e ∙ sym (ap (λ (d : Session). d.current) e)) v;
      saved = λ s. ap (λ (d : Session). d.committed) e ∙ sym (ap (λ (d : Session). d.current) e);
    }

-- A user more.
Scheduled-cons :
    (user : User) (users : List User) (db d e : Session) (b : Bool) (n : ℕ)
    → Scheduled (user ∷ []) db d (if b then 0 else 1)
    → Scheduled users d e n
    → Scheduled (user ∷ users) db e (if b then n else suc n)
Scheduled-cons user users db d e b n x y = record {
  rows = x.rows ++ y.rows;
  appended =
      y.appended
      ∙ ap (λ (l : List SnapshotRun). l ++ y.rows) x.appended
      ∙ append_assoc db.current.runs x.rows y.rows;
  counted =
      let k = x.counted in
      let m = y.counted in
      let l = length-append x.rows y.rows in
      elim (Bool-cases b) [
        | inl h ↦ rw h (let q = rw h at k in omega arith)
        | inr h ↦ rw h (let q = rw h at k in omega arith)
      ];
  covered = (
    subst (λ (l : List SnapshotRun). HasActiveJob l user) (sym y.appended)
        (any-append (in_active_scope (scheduled user)) d.current.runs y.rows x.covered.0),
    y.covered,
  );
  valid = y.valid;
  saved = λ s. y.saved (x.saved s);
}

schedule_users-Scheduled :
    (time : ℕ → ℕ) (k : ℕ) (users : List User) (db : Session)
    → IsValid db.current
    → let (db', created, _) = schedule_users time k users db in Scheduled users db db' created
unfolding schedule_users
schedule_users-Scheduled time k [] db v = record {
  rows = [];
  appended = sym (append-nil db.current.runs);
  counted = refl;
  covered = tt;
  valid = v;
  saved = λ s. s;
}
schedule_users-Scheduled time k (user ∷ users) db v =
    let (d, r, ms) = create_job (scheduled user) scheduler (time k) db in
    let first =
      answered user (time k) db d r ms (create_job-IsValid (scheduled user) scheduler (time k) db v)
        (create_job-Answers (scheduled user) scheduler (time k) db) in
    let (e, n, _) = schedule_users time (k + 1) users d in
    Scheduled-cons user users db d e r.reused n first
      (schedule_users-Scheduled time (k + 1) users d first.valid)

insert_user-All :
    (P : User → Type 0) (u : User) (vs : List User) → All P (insert_user u vs) → P u × All P vs
unfolding insert_user
insert_user-All P u [] a = (a.0, tt)
insert_user-All P u (v ∷ vs) a = elim (Bool-cases (leb u.id v.id)) [
  | inl e ↦ rw e at a
  | inr e ↦
      let (head, tail) = rw e at a in
      let (p, rest) = insert_user-All P u vs tail in (p, (head, rest))
]

order_users-All : (P : User → Type 0) (us : List User) → All P (order_users us) → All P us
unfolding order_users
order_users-All P [] a = tt
order_users-All P (u ∷ us) a =
    let (p, rest) = insert_user-All P u (order_users us) a in (p, order_users-All P us rest)

-- A tick of the scheduler on a valid queue: afterwards every user with an active wallet has a
-- pending or running job for all wallets, the queue is valid, the old rows are as they were, the
-- added ones come after them, are as many as the tick returns, and are committed where everything was
-- before.
pub create_scheduled_jobs-Scheduled :
    (time : ℕ → ℕ) (db : Session)
    → IsValid db.current
    → let (db', created, _) = create_scheduled_jobs time db in
      Scheduled (active_users db.current) db db' created
      × All
          (λ u. has_active_wallet db.current u ≡ true → HasActiveJob db'.current.runs u)
          db.current.users
unfolding create_scheduled_jobs active_users
create_scheduled_jobs-Scheduled time db v =
    let tick = schedule_users-Scheduled time 0 (active_users db.current) db v in
    let (db', _, _) = schedule_users time 0 (active_users db.current) db in
    (
      tick,
      All-of_filter (has_active_wallet db.current) (HasActiveJob db'.current.runs) db.current.users
          (order_users-All (HasActiveJob db'.current.runs)
            (filter (has_active_wallet db.current) db.current.users) tick.covered),
    )
