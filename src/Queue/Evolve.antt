-- ===== src/Queue/Evolve.antt =====
-- Rows that evolve keep the queue valid.
use mathlib.Core.List.{Mem, mem-cons}
use mathlib.Core.Logic.Or
use mathlib.Core.Bool.{Bool-set}
use mathlib.Core.HLevel.{×_prop, Π_prop, ¬_prop}
use py_wallet_snapshot_servi.Prelude.{
  ◌∙◌, sym, ap, ==_iff, ◌==◌, All-mono, All-of_mem, ℕ, ◌≤◌, ◌≡◌, refl, Bool, true, false, List, [],
  ◌∷◌, All, Pairwise, arith, if◌then◌else◌,
}
use py_wallet_snapshot_servi.Enums.{JobStatus, is_active}
use py_wallet_snapshot_servi.Models.{SnapshotRun}
use py_wallet_snapshot_servi.Session.{Tables, update_run}
use py_wallet_snapshot_servi.Session.Rows.{IsDistinct}
use py_wallet_snapshot_servi.Queue.{
  CanBecome, is_duplicate, NotRivals, IsValid, Next, RowByRow, Evolves, stage, Later,
}

stage-CanBecome : (s t : JobStatus) → CanBecome s t → stage s ≤ stage t
stage-CanBecome JobStatus.pending t c = omega arith
stage-CanBecome JobStatus.running t c = ground arith
stage-CanBecome JobStatus.success t c = ground arith
stage-CanBecome JobStatus.partial_success t c = ground arith
stage-CanBecome JobStatus.failed t c = ground arith
stage-CanBecome JobStatus.cancelled t c = ground arith

pub Later-of_Next : (j k : SnapshotRun) → Next j k → Later j k
Later-of_Next j k n = record {
  same_key = n.same_key;
  same_user = n.same_user;
  same_trigger_type = n.same_trigger_type;
  same_scope_type = n.same_scope_type;
  same_group = n.same_group;
  same_wallet = n.same_wallet;
  same_parent = n.same_parent;
  same_channel = n.same_channel;
  same_creation = n.same_creation;
  not_back = stage-CanBecome j.status k.status n.status_moves;
  keeps_shape = n.keeps_shape;
}

is_active-stage : (s t : JobStatus) → stage s ≤ stage t → is_active t ≡ true → is_active s ≡ true
is_active-stage JobStatus.pending t c a = refl
is_active-stage JobStatus.running t c a = refl
is_active-stage JobStatus.success t c a = ground arith
is_active-stage JobStatus.partial_success t c a = ground arith
is_active-stage JobStatus.failed t c a = ground arith
is_active-stage JobStatus.cancelled t c a = ground arith

is_duplicate-Later :
    (j j' k k' : SnapshotRun) → Later j j' → Later k k' → is_duplicate j' k' ≡ is_duplicate j k
unfolding is_duplicate
is_duplicate-Later j j' k k' a b = rw (
  a.same_user, a.same_trigger_type, a.same_scope_type, a.same_group, a.same_wallet, a.same_parent,
  b.same_user, b.same_trigger_type, b.same_scope_type, b.same_group, b.same_wallet, b.same_parent,
)

NotRivals-Later :
    (j j' k k' : SnapshotRun) → Later j j' → Later k k' → NotRivals j k → NotRivals j' k'
NotRivals-Later j j' k k' a b n aj ak = rw (is_duplicate-Later j j' k k' a b) (
    n (is_active-stage j.status j'.status a.not_back aj)
      (is_active-stage k.status k'.status b.not_back ak))

-- A relation that `N` keeps holds on.
All-RowByRow :
    (N : SnapshotRun → SnapshotRun → Type 0) {P Q : SnapshotRun → Type 0}
    → ((j k : SnapshotRun) → N j k → P j → Q k)
    → (js ks : List SnapshotRun) → RowByRow N js ks
    → All P js
    → All Q ks
All-RowByRow N h [] [] e a = tt
All-RowByRow N h (j ∷ js) (k ∷ ks) e a = (h j k e.0 a.0, All-RowByRow N h js ks e.1 a.1)
All-RowByRow N h [] (k ∷ ks) e a = absurd e
All-RowByRow N h (j ∷ js) [] e a = absurd e

Pairwise-RowByRow :
    (N : SnapshotRun → SnapshotRun → Type 0) {R : SnapshotRun → SnapshotRun → Type 0}
    → ((j j' k k' : SnapshotRun) → N j j' → N k k' → R j k → R j' k')
    → (js ks : List SnapshotRun) → RowByRow N js ks
    → Pairwise R js
    → Pairwise R ks
Pairwise-RowByRow N h [] [] e a = tt
Pairwise-RowByRow N h (j ∷ js) (k ∷ ks) e a = (
  All-RowByRow N (λ m m' n r. h j k m m' e.0 n r) js ks e.1 a.0,
  Pairwise-RowByRow N h js ks e.1 a.1,
)
Pairwise-RowByRow N h [] (k ∷ ks) e a = absurd e
Pairwise-RowByRow N h (j ∷ js) [] e a = absurd e

pub RowByRow-mono :
    (M N : SnapshotRun → SnapshotRun → Type 0)
    → ((j k : SnapshotRun) → M j k → N j k)
    → (js ks : List SnapshotRun) → RowByRow M js ks
    → RowByRow N js ks
RowByRow-mono M N h [] [] e = tt
RowByRow-mono M N h (j ∷ js) (k ∷ ks) e = (h j k e.0, RowByRow-mono M N h js ks e.1)
RowByRow-mono M N h [] (k ∷ ks) e = absurd e
RowByRow-mono M N h (j ∷ js) [] e = absurd e

pub RowByRow-refl :
    (N : SnapshotRun → SnapshotRun → Type 0)
    → ((j : SnapshotRun) → N j j)
    → (js : List SnapshotRun) → RowByRow N js js
RowByRow-refl N h [] = tt
RowByRow-refl N h (j ∷ js) = (h j, RowByRow-refl N h js)

pub RowByRow-trans :
    (N : SnapshotRun → SnapshotRun → Type 0)
    → ((j k m : SnapshotRun) → N j k → N k m → N j m)
    → (js ks ms : List SnapshotRun) → RowByRow N js ks
    → RowByRow N ks ms
    → RowByRow N js ms
RowByRow-trans N h [] [] ms a b = b
RowByRow-trans N h (j ∷ js) (k ∷ ks) (m ∷ ms) a b =
    (h j k m a.0 b.0, RowByRow-trans N h js ks ms a.1 b.1)
RowByRow-trans N h (j ∷ js) (k ∷ ks) [] a b = absurd b
RowByRow-trans N h [] (k ∷ ks) ms a b = absurd a
RowByRow-trans N h (j ∷ js) [] ms a b = absurd a

-- A write by id moves the rows of that id.
pub update_run-RowByRow :
    (N : SnapshotRun → SnapshotRun → Type 0)
    → ((j : SnapshotRun) → N j j)
    → (id : ℕ) (f : SnapshotRun → SnapshotRun) (js : List SnapshotRun)
    → All (λ j. j.id ≡ id → N j (f j)) js
    → RowByRow N js (update_run id f js)
update_run-RowByRow N same id f [] h = tt
update_run-RowByRow N same id f (j ∷ js) h =
    (head (j.id == id) refl, update_run-RowByRow N same id f js h.1)
  where
    head : (b : Bool) → (j.id == id) ≡ b → N j (if b then f j else j)
    head true e = h.0 ((==_iff j.id id).0 e)
    head false e = same j

pub IsDistinct-Evolves : (js ks : List SnapshotRun) → Evolves js ks → IsDistinct js → IsDistinct ks
IsDistinct-Evolves = Pairwise-RowByRow Next (λ j j' k k' a b n. rw (a.same_key, b.same_key) n)

pub Later-IsValid :
    (t : Tables) (ks : List SnapshotRun)
    → RowByRow Later t.runs ks
    → IsValid t
    → IsValid (record t { runs = ks })
Later-IsValid t ks e v = record {
  distinct =
      Pairwise-RowByRow Later (λ j j' k k' a b n. rw (a.same_key, b.same_key) n) t.runs ks e
        v.distinct;
  fresh = All-RowByRow Later (λ j k a n. rw a.same_key n) t.runs ks e v.fresh;
  well_formed = All-RowByRow Later (λ j k a n. a.keeps_shape n) t.runs ks e v.well_formed;
  no_rivals = Pairwise-RowByRow Later NotRivals-Later t.runs ks e v.no_rivals;
}

pub Evolves-Later : (js ks : List SnapshotRun) → Evolves js ks → RowByRow Later js ks
Evolves-Later = RowByRow-mono Next Later Later-of_Next

pub Evolves-IsValid :
    (t : Tables) (ks : List SnapshotRun)
    → Evolves t.runs ks
    → IsValid t
    → IsValid (record t { runs = ks })
Evolves-IsValid t ks e v = Later-IsValid t ks (Evolves-Later t.runs ks e) v

CanBecome-refl : (s : JobStatus) → CanBecome s s
CanBecome-refl JobStatus.pending = tt
CanBecome-refl _ = tt

pub Next-refl : (j : SnapshotRun) → Next j j
Next-refl j = record {
  same_key = refl;
  same_user = refl;
  same_trigger_type = refl;
  same_scope_type = refl;
  same_group = refl;
  same_wallet = refl;
  same_parent = refl;
  same_channel = refl;
  same_creation = refl;
  status_moves = CanBecome-refl j.status;
  keeps_shape = λ w. w;
}

pub Evolves-refl : (js : List SnapshotRun) → Evolves js js
Evolves-refl = RowByRow-refl Next Next-refl

CanBecome-trans : (s t u : JobStatus) → CanBecome s t → CanBecome t u → CanBecome s u
CanBecome-trans JobStatus.pending JobStatus.pending JobStatus.pending a b = tt
CanBecome-trans _ _ _ a b = ground arith

pub Next-trans : (j k m : SnapshotRun) → Next j k → Next k m → Next j m
Next-trans j k m a b = record {
  same_key = b.same_key ∙ a.same_key;
  same_user = b.same_user ∙ a.same_user;
  same_trigger_type = b.same_trigger_type ∙ a.same_trigger_type;
  same_scope_type = b.same_scope_type ∙ a.same_scope_type;
  same_group = b.same_group ∙ a.same_group;
  same_wallet = b.same_wallet ∙ a.same_wallet;
  same_parent = b.same_parent ∙ a.same_parent;
  same_channel = b.same_channel ∙ a.same_channel;
  same_creation = b.same_creation ∙ a.same_creation;
  status_moves = CanBecome-trans j.status k.status m.status a.status_moves b.status_moves;
  keeps_shape = λ w. b.keeps_shape (a.keeps_shape w);
}

pub Evolves-trans : (js ks ms : List SnapshotRun) → Evolves js ks → Evolves ks ms → Evolves js ms
Evolves-trans = RowByRow-trans Next Next-trans

pub update_run-Evolves :
    (id : ℕ) (f : SnapshotRun → SnapshotRun) (js : List SnapshotRun)
    → All (λ j. j.id ≡ id → Next j (f j)) js
    → Evolves js (update_run id f js)
update_run-Evolves = update_run-RowByRow Next Next-refl

pub Later-refl : (j : SnapshotRun) → Later j j
Later-refl j = Later-of_Next j j (Next-refl j)

pub Later-trans : (j k m : SnapshotRun) → Later j k → Later k m → Later j m
Later-trans j k m a b = record {
  same_key = b.same_key ∙ a.same_key;
  same_user = b.same_user ∙ a.same_user;
  same_trigger_type = b.same_trigger_type ∙ a.same_trigger_type;
  same_scope_type = b.same_scope_type ∙ a.same_scope_type;
  same_group = b.same_group ∙ a.same_group;
  same_wallet = b.same_wallet ∙ a.same_wallet;
  same_parent = b.same_parent ∙ a.same_parent;
  same_channel = b.same_channel ∙ a.same_channel;
  same_creation = b.same_creation ∙ a.same_creation;
  not_back = omega (arith, a.not_back, b.not_back);
  keeps_shape = λ w. b.keeps_shape (a.keeps_shape w);
}

All-prop :
    {P : SnapshotRun → Type 0}
    → ((j : SnapshotRun) → IsProp (P j))
    → (js : List SnapshotRun) → IsProp (All P js)
All-prop p [] = λ x y. refl
All-prop p (j ∷ js) = ×_prop (p j) (All-prop p js)

-- Where ids are distinct, what a row passes every row of its id passes.
pub All-of_id :
    (q : SnapshotRun → Bool) (k : SnapshotRun) (js : List SnapshotRun)
    → IsDistinct js
    → Mem k js
    → q k ≡ true
    → All (λ j. j.id ≡ k.id → q j ≡ true) js
All-of_id q k [] d m h = tt
All-of_id q k (j ∷ js) d m h =
    Or.elim (All-prop (λ i. Π_prop (λ _. Bool-set (q i) true)) (j ∷ js)) (mem-cons.0 m)
      (λ e. (
        (λ _. rw (← e) h),
        All-mono (λ i n same. absurd (n (sym (same ∙ ap (λ (r : SnapshotRun). r.id) e)))) js d.0,
      ))
      (λ t. ((λ same. absurd (All-of_mem (λ i. ¬_prop) js d.0 t same)), All-of_id q k js d.1 t h))
