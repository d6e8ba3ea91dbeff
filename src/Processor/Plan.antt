-- ===== src/Processor/Plan.antt =====
-- `_retry_plan`: which chains of the parent job a retry carries over and which it collects again.
use mathlib.Core.List.{Perm, Mem, mem-cons, not-mem-nil, mem-cons_of_mem, mem-cons_self}
use mathlib.Core.List.Perm
use mathlib.Core.Logic.Or
use mathlib.Core.Bool.{false≢true, Bool-set}
use py_wallet_snapshot_servi.Prelude.{
  ◌≡◌, sym, ◌∙◌, ap, Bool, true, false, not, List, [], ◌∷◌, map, Text, text_eq, text_eq_refl,
  text_eq_sound, text_in, text_le, filter, mem-filter, mem-filter_of, Bool-cases, arith, inl, inr,
}
use py_wallet_snapshot_servi.Models.{SnapshotRun, ChainSnapshot, Wallet}
use py_wallet_snapshot_servi.Session.{Tables}
use py_wallet_snapshot_servi.Processor.{
  insert_by_chain, order_by_chain, is_parent_chain, parent_chains, is_retried, retry_plan,
}

insert_by_chain-perm :
    (c : ChainSnapshot) (ds : List ChainSnapshot) → Perm (insert_by_chain c ds) (c ∷ ds)
unfolding insert_by_chain
insert_by_chain-perm c [] = Perm.refl (c ∷ [])
insert_by_chain-perm c (d ∷ ds) = elim (Bool-cases (text_le c.chain d.chain)) [
  | inl e ↦ rw e (Perm.refl (c ∷ d ∷ ds))
  | inr e ↦ rw e (Perm.trans (Perm.cons d (insert_by_chain-perm c ds)) (Perm.swap c d ds))
]

order_by_chain-perm : (cs : List ChainSnapshot) → Perm (order_by_chain cs) cs
unfolding order_by_chain
order_by_chain-perm [] = Perm.refl []
order_by_chain-perm (c ∷ cs) =
    Perm.trans (insert_by_chain-perm c (order_by_chain cs)) (Perm.cons c (order_by_chain-perm cs))

abbrev chains : List ChainSnapshot → List Text
chains = map λ c. c.chain

text_in-chain :
    (c : ChainSnapshot) (cs : List ChainSnapshot) → Mem c cs → text_in c.chain (chains cs) ≡ true
unfolding text_in
text_in-chain c [] m = absurd (not-mem-nil m)
text_in-chain c (d ∷ ds) m =
    Or.elim (Bool-set (text_in c.chain (chains (d ∷ ds))) true) (mem-cons.0 m)
      (λ (e : c ≡ d). rw (← e, text_eq_refl c.chain)) (λ n. ground (arith, text_in-chain c ds n))

text_in-mem :
    (s : Text) (cs : List ChainSnapshot)
    → text_in s (chains cs) ≡ true
    → (c : ChainSnapshot) × Mem c cs × (c.chain ≡ s)
unfolding text_in
text_in-mem s [] h = absurd (false≢true h)
text_in-mem s (c ∷ cs) h = elim (Bool-cases (text_eq s c.chain)) [
  | inl e ↦ (c, mem-cons_self, sym (text_eq_sound s c.chain e))
  | inr e ↦ let (d, m, q) = text_in-mem s cs (rw e at h) in (d, mem-cons_of_mem c m, q)
]

-- The chains of `wallet` that the parent of `job` stored.
abbrev pub OfParent : Tables → SnapshotRun → Wallet → ChainSnapshot → Type 0
OfParent t job wallet c = Mem c t.chain_snapshots × (is_parent_chain t job wallet c ≡ true)

mem-parent_chains :
    (t : Tables) (job : SnapshotRun) (wallet : Wallet) (c : ChainSnapshot)
    → Mem c (parent_chains t job wallet)
    → OfParent t job wallet c
unfolding parent_chains
mem-parent_chains t job wallet c m = mem-filter (is_parent_chain t job wallet) c t.chain_snapshots (
    (Perm.mem_iff (order_by_chain-perm (filter (is_parent_chain t job wallet) t.chain_snapshots))).0
      m)

mem-parent_chains_of :
    (t : Tables) (job : SnapshotRun) (wallet : Wallet) (c : ChainSnapshot)
    → OfParent t job wallet c
    → Mem c (parent_chains t job wallet)
unfolding parent_chains
mem-parent_chains_of t job wallet c (m, h) =
    (Perm.mem_iff (order_by_chain-perm (filter (is_parent_chain t job wallet) t.chain_snapshots))).1
      (mem-filter_of (is_parent_chain t job wallet) c t.chain_snapshots m h)

-- What the two lists of a retry are: the carried chains and the names to collect again.
pub record IsPlan (t : Tables) (job : SnapshotRun) (wallet : Wallet) (allowed : List Text)
    (p : List ChainSnapshot × List Text) : Type 0 where
  pub carried_OfParent : (c : ChainSnapshot) → Mem c p.0 → OfParent t job wallet c
  pub carried_fine : (c : ChainSnapshot) → Mem c p.0 → is_retried allowed c ≡ false
  pub carried_apart : (c : ChainSnapshot) → Mem c p.0 → text_in c.chain p.1 ≡ false
  pub carried_all :
      (c : ChainSnapshot) → OfParent t job wallet c → text_in c.chain p.1 ≡ false → Mem c p.0
  pub retried_all :
      (c : ChainSnapshot)
      → OfParent t job wallet c
      → is_retried allowed c ≡ true
      → text_in c.chain p.1 ≡ true
  pub retried_failed :
      (s : Text)
      → text_in s p.1 ≡ true
      → (c : ChainSnapshot) × OfParent t job wallet c
        × (is_retried allowed c ≡ true)
        × (c.chain ≡ s)

-- The plan of a retry, for any stored rows, job, wallet and allowed chain names: the names to collect
-- again are exactly those of the parent's failed chains of the wallet that are allowed, and the
-- chains carried over are exactly the parent's chains of the wallet with other names; none of
-- these is a failed and allowed one.
pub retry_plan-IsPlan :
    (t : Tables) (job : SnapshotRun) (wallet : Wallet) (allowed : List Text)
    → IsPlan t job wallet allowed (retry_plan t job wallet allowed)
unfolding retry_plan
retry_plan-IsPlan t job wallet allowed = record {
  carried_OfParent = λ c m. mem-parent_chains t job wallet c (kept c m).0;
  carried_fine = λ c m. fine c (kept c m);
  carried_apart = λ c m. apart c (kept c m).1;
  carried_all =
      λ c o h. mem-filter_of keeps c parents (mem-parent_chains_of t job wallet c o) (ap not h);
  retried_all = λ c o h. retried_of c (mem-parent_chains_of t job wallet c o) h;
  retried_failed = λ s h.
      let (c, m, e) = text_in-mem s failed h in
      let (n, r) = mem-filter (is_retried allowed) c parents m in
      (c, mem-parent_chains t job wallet c n, r, e);
}
  where
    parents : List ChainSnapshot
    parents = parent_chains t job wallet

    failed : List ChainSnapshot
    failed = filter (is_retried allowed) parents

    keeps : ChainSnapshot → Bool
    keeps c = not (text_in c.chain (chains failed))

    kept : (c : ChainSnapshot) → Mem c (filter keeps parents) → Mem c parents × (keeps c ≡ true)
    kept c m = mem-filter keeps c parents m

    apart : (c : ChainSnapshot) → keeps c ≡ true → text_in c.chain (chains failed) ≡ false
    apart c h = ground arith

    retried_of :
        (c : ChainSnapshot)
        → Mem c parents
        → is_retried allowed c ≡ true
        → text_in c.chain (chains failed) ≡ true
    retried_of c m h = text_in-chain c failed (mem-filter_of (is_retried allowed) c parents m h)

    fine : (c : ChainSnapshot) → Mem c parents × (keeps c ≡ true) → is_retried allowed c ≡ false
    fine c (m, k) = elim (Bool-cases (is_retried allowed c)) [
      | inl e ↦ absurd (false≢true (sym (apart c k) ∙ retried_of c m e))
      | inr e ↦ e
    ]
