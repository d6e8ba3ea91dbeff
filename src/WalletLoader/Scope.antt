-- ===== src/WalletLoader/Scope.antt =====
-- `load_for_job` gives the active wallets of the job's user and scope, one for each address.
use mathlib.Core.List.{Mem, Perm}
use mathlib.Core.List.Perm
use mathlib.Core.List.Sublist
use mathlib.Core.Bool.{Bool-set}
use mathlib.Core.Logic.{∥∥₁_elim}
use py_wallet_snapshot_servi.Prelude.{
  ==_iff, ◌↔◌, ℕ, ◌≤◌, ◌≡◌, refl, ◌≢◌, Bool, true, ◌&&◌, inl, inr, Option, some, List, [], ◌∷◌, leb,
  ◌==◌, if◌then◌else◌, same_id, same_id_eq, same_id_refl, All, All-mono, All-of_mem, Pairwise,
  any-of_mem, any-true, filter, mem-filter, mem-filter_of, arith, Bool-cases, any,
}
use py_wallet_snapshot_servi.Enums.{ScopeType, ChainStatus}
use py_wallet_snapshot_servi.Models.{SnapshotRun, Wallet, WalletSnapshot, ChainSnapshot}
use py_wallet_snapshot_servi.Session.{Tables}
use py_wallet_snapshot_servi.WalletLoader.{
  meets_scope, failed_chain_of, failed_snapshot_of, has_failed_chain, is_selected, insert_by_id,
  order_by_id, deduplicates, deduplicate_onchain_addresses, load_for_job,
}
use py_wallet_snapshot_servi.WalletLoader.Dedup.{
  DifferentAddress, Represents, deduplicate-ordered, deduplicate_keeps_oldest,
}

abbrev IsOrdered : List Wallet → Type 0
IsOrdered = Pairwise λ v w. v.id ≤ w.id

insert_by_id-perm : (w : Wallet) (vs : List Wallet) → Perm (insert_by_id w vs) (w ∷ vs)
unfolding insert_by_id
insert_by_id-perm w [] = Perm.refl (w ∷ [])
insert_by_id-perm w (v ∷ vs) = elim (Bool-cases (leb w.id v.id)) [
  | inl e ↦ rw e (Perm.refl (w ∷ v ∷ vs))
  | inr e ↦ rw e (Perm.trans (Perm.cons v (insert_by_id-perm w vs)) (Perm.swap w v vs))
]

insert_by_id-All :
    (P : Wallet → Type 0) (w : Wallet) (vs : List Wallet)
    → P w
    → All P vs
    → All P (insert_by_id w vs)
unfolding insert_by_id
insert_by_id-All P w [] p a = (p, tt)
insert_by_id-All P w (v ∷ vs) p a = elim (Bool-cases (leb w.id v.id)) [
  | inl e ↦ rw e (p, a)
  | inr e ↦ rw e (a.0, insert_by_id-All P w vs p a.1)
]

insert_by_id-IsOrdered :
    (w : Wallet) (vs : List Wallet) → IsOrdered vs → IsOrdered (insert_by_id w vs)
unfolding insert_by_id
insert_by_id-IsOrdered w [] o = (tt, tt)
insert_by_id-IsOrdered w (v ∷ vs) o = elim (Bool-cases (leb w.id v.id)) [
  | inl e ↦ rw e ((ground arith, All-mono (λ x h. ground arith) vs o.0), o)
  | inr e ↦
      rw e (
        insert_by_id-All (λ x. v.id ≤ x.id) w vs (ground arith) o.0,
        insert_by_id-IsOrdered w vs o.1,
      )
]

order_by_id-perm : (ws : List Wallet) → Perm (order_by_id ws) ws
unfolding order_by_id
order_by_id-perm [] = Perm.refl []
order_by_id-perm (w ∷ ws) =
    Perm.trans (insert_by_id-perm w (order_by_id ws)) (Perm.cons w (order_by_id-perm ws))

order_by_id-IsOrdered : (ws : List Wallet) → IsOrdered (order_by_id ws)
unfolding order_by_id
order_by_id-IsOrdered [] = tt
order_by_id-IsOrdered (w ∷ ws) =
    insert_by_id-IsOrdered w (order_by_id ws) (order_by_id-IsOrdered ws)

-- A snapshot of the wallet in the parent run has a failed chain.
abbrev pub FailedInParent : Tables → Option ℕ → Wallet → Type 0
FailedInParent t parent_run_id wallet = ∥ (
    (s : WalletSnapshot) × (c : ChainSnapshot) × Mem s t.wallet_snapshots
    × Mem c t.chain_snapshots
    × (s.wallet_id ≡ wallet.id)
    × (some s.snapshot_run_id ≡ parent_run_id)
    × (c.wallet_snapshot_id ≡ s.id)
    × (c.status ≡ ChainStatus.failed)) ∥₁

-- The wallets that the scope names.
abbrev pub InScope : ScopeType → Tables → SnapshotRun → Wallet → Type 0
InScope ScopeType.all t job wallet = Unit
InScope ScopeType.group t job wallet = wallet.group_id ≡ job.group_id
InScope ScopeType.wallet t job wallet = some wallet.id ≡ job.wallet_id
InScope ScopeType.failed_chains t job wallet = FailedInParent t job.parent_run_id wallet

abbrev pub BelongsTo : Tables → SnapshotRun → Wallet → Type 0
BelongsTo t job wallet =
    Mem wallet t.wallets
    × (wallet.user_id ≡ job.user_id)
    × (wallet.is_active ≡ true)
    × InScope job.scope_type t job wallet

has_failed_chain_sound :
    (t : Tables) (p : Option ℕ) (w : Wallet) → has_failed_chain t p w ≡ true → FailedInParent t p w
has_failed_chain_sound t p w h =
    let (s, ms, q) = any-true (failed_snapshot_of t p w) t.wallet_snapshots h in
    let (c, mc, r) =
      any-true (failed_chain_of s) t.chain_snapshots
        (and_right (s.wallet_id == w.id) (same_id (some s.snapshot_run_id) p) _ q) in
    ∣ (
      s,
      c,
      ms,
      mc,
      ground arith,
      same_id_eq (some s.snapshot_run_id) p (and_middle (s.wallet_id == w.id) _ _ q),
      ground arith,
      ground arith,
    ) ∣₁
  where
    and_right : (a b c : Bool) → (a && b && c) ≡ true → c ≡ true
    and_right a b c e = ground arith

    and_middle : (a b c : Bool) → (a && b && c) ≡ true → b ≡ true
    and_middle a b c e = ground arith

has_failed_chain_complete :
    (t : Tables) (p : Option ℕ) (w : Wallet) → FailedInParent t p w → has_failed_chain t p w ≡ true
has_failed_chain_complete t p w f =
    ∥∥₁_elim f (Bool-set (has_failed_chain t p w) true) λ (s, c, ms, mc, of, parent, has, failed).
      any-of_mem (failed_snapshot_of t p w) s t.wallet_snapshots ms
        (both s c of parent (any-of_mem (failed_chain_of s) c t.chain_snapshots mc (ground arith)))
  where
    both :
        (s : WalletSnapshot) (c : ChainSnapshot)
        → s.wallet_id ≡ w.id
        → some s.snapshot_run_id ≡ p
        → any (failed_chain_of s) t.chain_snapshots ≡ true
        → failed_snapshot_of t p w s ≡ true
    both s c of parent chain =
        rw (chain, ← parent, same_id_refl (some s.snapshot_run_id), (==_iff s.wallet_id w.id).1 of)

meets_scope-InScope :
    (scope : ScopeType) (t : Tables) (job : SnapshotRun) (w : Wallet)
    → (meets_scope scope t job w ≡ true) ↔ InScope scope t job w
meets_scope-InScope ScopeType.all t job w = (λ _. tt, λ _. refl)
meets_scope-InScope ScopeType.group t job w =
    (same_id_eq w.group_id job.group_id, λ e. rw e (same_id_refl job.group_id))
meets_scope-InScope ScopeType.wallet t job w =
    (same_id_eq (some w.id) job.wallet_id, λ e. rw (← e) (same_id_refl (some w.id)))
meets_scope-InScope ScopeType.failed_chains t job w =
    (has_failed_chain_sound t job.parent_run_id w, has_failed_chain_complete t job.parent_run_id w)

selected-BelongsTo :
    (t : Tables) (job : SnapshotRun) (w : Wallet)
    → Mem w (filter (is_selected t job) t.wallets)
    → BelongsTo t job w
selected-BelongsTo t job w m =
    let (inside, h) = mem-filter (is_selected t job) w t.wallets m in
    (
      inside,
      ground arith,
      ground arith,
      (meets_scope-InScope job.scope_type t job w).0 (ground arith),
    )

BelongsTo-selected :
    (t : Tables) (job : SnapshotRun) (w : Wallet)
    → BelongsTo t job w
    → Mem w (filter (is_selected t job) t.wallets)
BelongsTo-selected t job w (inside, user, active, scope) =
    mem-filter_of (is_selected t job) w t.wallets inside
      (ground (arith, (meets_scope-InScope job.scope_type t job w).1 scope))

mem-selected :
    (t : Tables) (job : SnapshotRun) (w : Wallet)
    → Mem w (order_by_id (filter (is_selected t job) t.wallets)) ↔ BelongsTo t job w
mem-selected t job w =
    let p = Perm.mem_iff (order_by_id-perm (filter (is_selected t job) t.wallets)) in
    (λ m. selected-BelongsTo t job w (p.0 m), λ b. p.1 (BelongsTo-selected t job w b))

-- What a job's wallets are, given the list `ws` of them.
pub record IsLoaded (t : Tables) (job : SnapshotRun) (ws : List Wallet) : Type 0 where
  pub ordered : Pairwise (λ v w. v.id ≤ w.id) ws
  pub sound : (w : Wallet) → Mem w ws → BelongsTo t job w
  pub complete : (w : Wallet) → BelongsTo t job w → ∥ Represents ws w ∥₁
  pub distinct : job.scope_type ≢ ScopeType.wallet → Pairwise DifferentAddress ws

deduplicated-IsLoaded :
    (t : Tables) (job : SnapshotRun)
    → IsLoaded t job
        (deduplicate_onchain_addresses (order_by_id (filter (is_selected t job) t.wallets)))
deduplicated-IsLoaded t job =
    let ws = order_by_id (filter (is_selected t job) t.wallets) in
    let ordered = order_by_id-IsOrdered (filter (is_selected t job) t.wallets) in
    let (part, distinct, covers) = deduplicate_keeps_oldest ws ordered in
    record {
      ordered = deduplicate-ordered ws ordered;
      sound = λ w m. (mem-selected t job w).0 (Sublist.subset part w m);
      complete = λ w b.
          All-of_mem {P = λ x. ∥ Represents (deduplicate_onchain_addresses ws) x ∥₁} (λ x. squash₁)
            ws (All-mono (λ x r. ∣ r ∣₁) ws covers) ((mem-selected t job w).1 b);
      distinct = λ n. distinct;
    }

plain-IsLoaded :
    (t : Tables) (job : SnapshotRun)
    → job.scope_type ≡ ScopeType.wallet
    → IsLoaded t job (order_by_id (filter (is_selected t job) t.wallets))
plain-IsLoaded t job e = record {
  ordered = order_by_id-IsOrdered (filter (is_selected t job) t.wallets);
  sound = λ w m. (mem-selected t job w).0 m;
  complete = λ w b. ∣ (w, (mem-selected t job w).1 b, inl refl, omega arith) ∣₁;
  distinct = λ n. absurd (n e);
}

-- The wallets of a job are active wallets of its user that its scope names, in the order of their
-- ids; of the address of every such wallet there is one that is no younger; and no two have an
-- on-chain address in common, unless the job is for one wallet.
pub load_for_job-IsLoaded : (t : Tables) (job : SnapshotRun) → IsLoaded t job (load_for_job t job)
unfolding load_for_job
load_for_job-IsLoaded t job = split job.scope_type refl
  where
    split :
        (s : ScopeType)
        → job.scope_type ≡ s
        → IsLoaded t job (
            if deduplicates s
            then deduplicate_onchain_addresses (order_by_id (filter (is_selected t job) t.wallets))
            else order_by_id (filter (is_selected t job) t.wallets))
    split ScopeType.wallet e = plain-IsLoaded t job e
    split ScopeType.all e = deduplicated-IsLoaded t job
    split ScopeType.group e = deduplicated-IsLoaded t job
    split ScopeType.failed_chains e = deduplicated-IsLoaded t job
