-- ===== src/WalletLoader/Dedup.antt =====
-- `_deduplicate_onchain_addresses` keeps one wallet for each on-chain address, the first.
use mathlib.Core.List.{Mem, mem-cons_self, mem-cons_of_mem, Sublist}
use mathlib.Core.List.Sublist
use mathlib.Core.Bool.{false≢true}
use py_wallet_snapshot_servi.Prelude.{
  sym, ap, subst, ◌∙◌, ◌≤◌, ◌≡◌, refl, ◌⊎◌, inl, inr, Bool, true, false, Option, none, some, List,
  [], ◌∷◌, if◌then◌else◌, All, All-mono, All-zip, Pairwise, arith, Bool-cases, text_eq_refl,
  text_eq_sound,
}
use py_wallet_snapshot_servi.Models.{Wallet}
use py_wallet_snapshot_servi.WalletLoader.{
  Key, same_key, key_in, is_seen, see, address_key, deduplicate_from, deduplicate_onchain_addresses,
}

same_key_refl : (k : Key) → same_key k k ≡ true
same_key_refl (s, a) = rw (text_eq_refl s, text_eq_refl a)

same_key_sound : (j k : Key) → same_key j k ≡ true → j ≡ k
same_key_sound (s, a) (t, b) h = ground (arith, text_eq_sound s t, text_eq_sound a b)

-- No on-chain address in common.
abbrev pub DifferentAddress : Wallet → Wallet → Type 0
DifferentAddress v w = (k : Key) → address_key v ≡ some k → address_key w ≡ some k → ⊥

-- The result of a recursive call, with the wallet before it.
abbrev kept : Bool → Wallet → List Wallet → List Wallet
kept seen w rest = if seen then rest else w ∷ rest

-- What is seen stays seen.
is_seen-see :
    (seen : List Key) (o k : Option Key) → is_seen seen k ≡ true → is_seen (see seen o) k ≡ true
is_seen-see seen none k h = h
is_seen-see seen (some j) none h = h
is_seen-see seen (some j) (some k) h = ground arith

see_self : (seen : List Key) (k : Key) → is_seen (see seen (some k)) (some k) ≡ true
see_self seen k = ground (arith, same_key_refl k)

unseen_before :
    (seen : List Key) (o k : Option Key) → is_seen (see seen o) k ≡ false → is_seen seen k ≡ false
unseen_before seen o k h = elim (Bool-cases (is_seen seen k)) [
  | inl old ↦ absurd (false≢true (sym h ∙ is_seen-see seen o k old))
  | inr new ↦ new
]

deduplicate_from-unseen :
    (seen : List Key) (ws : List Wallet)
    → All (λ w. is_seen seen (address_key w) ≡ false) (deduplicate_from seen ws)
unfolding deduplicate_from
deduplicate_from-unseen seen [] = tt
deduplicate_from-unseen seen (w ∷ ws) =
    let later =
      All-mono (λ (v : Wallet) h. unseen_before seen (address_key w) (address_key v) h)
        (deduplicate_from (see seen (address_key w)) ws)
        (deduplicate_from-unseen (see seen (address_key w)) ws) in
    elim (Bool-cases (is_seen seen (address_key w))) [
      | inl old ↦ rw old later
      | inr new ↦ rw new (new, later)
    ]

deduplicate_from-distinct :
    (seen : List Key) (ws : List Wallet) → Pairwise DifferentAddress (deduplicate_from seen ws)
unfolding deduplicate_from
deduplicate_from-distinct seen [] = tt
deduplicate_from-distinct seen (w ∷ ws) =
    let seen' = see seen (address_key w) in
    let apart =
      All-mono {Q = DifferentAddress w} differ (deduplicate_from seen' ws)
        (deduplicate_from-unseen seen' ws) in
    elim (Bool-cases (is_seen seen (address_key w))) [
      | inl old ↦ rw old (deduplicate_from-distinct seen' ws)
      | inr new ↦ rw new (apart, deduplicate_from-distinct seen' ws)
    ]
  where
    differ :
        (v : Wallet)
        → is_seen (see seen (address_key w)) (address_key v) ≡ false
        → DifferentAddress w v
    differ v h k e f = false≢true (sym (rw (e, f) at h) ∙ see_self seen k)

deduplicate_from-Sublist :
    (seen : List Key) (ws : List Wallet) → Sublist (deduplicate_from seen ws) ws
unfolding deduplicate_from
deduplicate_from-Sublist seen [] = Sublist.refl []
deduplicate_from-Sublist seen (w ∷ ws) =
    let rest = deduplicate_from-Sublist (see seen (address_key w)) ws in
    elim (Bool-cases (is_seen seen (address_key w))) [
      | inl old ↦ rw old (Sublist.cons w rest)
      | inr new ↦ rw new (Sublist.cons-cons w rest)
    ]

deduplicate_from-All :
    (P : Wallet → Type 0) (seen : List Key) (ws : List Wallet)
    → All P ws
    → All P (deduplicate_from seen ws)
unfolding deduplicate_from
deduplicate_from-All P seen [] a = tt
deduplicate_from-All P seen (w ∷ ws) a =
    let rest = deduplicate_from-All P (see seen (address_key w)) ws a.1 in
    elim (Bool-cases (is_seen seen (address_key w))) [
      | inl old ↦ rw old rest
      | inr new ↦ rw new (a.0, rest)
    ]

deduplicate_from-ordered :
    (seen : List Key) (ws : List Wallet)
    → Pairwise (λ v w. v.id ≤ w.id) ws
    → Pairwise (λ v w. v.id ≤ w.id) (deduplicate_from seen ws)
unfolding deduplicate_from
deduplicate_from-ordered seen [] o = tt
deduplicate_from-ordered seen (w ∷ ws) o =
    let seen' = see seen (address_key w) in
    let rest = deduplicate_from-ordered seen' ws o.1 in
    elim (Bool-cases (is_seen seen (address_key w))) [
      | inl old ↦ rw old rest
      | inr new ↦ rw new (deduplicate_from-All (λ v. w.id ≤ v.id) seen' ws o.0, rest)
    ]

pub deduplicate-ordered :
    (ws : List Wallet)
    → Pairwise (λ v w. v.id ≤ w.id) ws
    → Pairwise (λ v w. v.id ≤ w.id) (deduplicate_onchain_addresses ws)
unfolding deduplicate_onchain_addresses
deduplicate-ordered = deduplicate_from-ordered []

-- The same wallet, or one of the same on-chain address.
abbrev pub SameAddress : Wallet → Wallet → Type 0
SameAddress v w = (v ≡ w) ⊎ ((k : Key) × (address_key v ≡ some k) × (address_key w ≡ some k))

-- Of the address of `w` the list has a wallet that is no younger.
abbrev pub Represents : List Wallet → Wallet → Type 0
Represents vs w = (v : Wallet) × Mem v vs × SameAddress v w × (v.id ≤ w.id)

Represents-cons : (x w : Wallet) (vs : List Wallet) → Represents vs w → Represents (x ∷ vs) w
Represents-cons x w vs (v, m, s, l) = (v, mem-cons_of_mem x m, s, l)

-- A key that is seen after `o` was seen before, or is the key `o`.
seen_or_now :
    (seen : List Key) (o : Option Key) (k : Key)
    → is_seen (see seen o) (some k) ≡ true
    → (is_seen seen (some k) ≡ true) ⊎ (o ≡ some k)
seen_or_now seen none k h = inl h
seen_or_now seen (some j) k h = elim (Bool-cases (key_in j seen)) [
  | inl old ↦ inl (rw old at h)
  | inr new ↦ elim (Bool-cases (same_key k j)) [
    | inl same ↦ inr (ap some (sym (same_key_sound k j same)))
    | inr other ↦ inl (ground arith)
  ]
]

seen_before_or_now :
    (seen : List Key) (o o' : Option Key)
    → is_seen (see seen o) o' ≡ true
    → (is_seen seen o' ≡ true) ⊎ ((k : Key) × (o ≡ some k) × (o' ≡ some k))
seen_before_or_now seen none o h = inl h
seen_before_or_now seen (some j) none h = absurd (false≢true h)
seen_before_or_now seen (some j) (some k) h = elim (seen_or_now seen (some j) k h) [
  | inl before ↦ inl before
  | inr now ↦ inr (k, now, refl)
]

see_old :
    (seen : List Key) (o o' : Option Key)
    → is_seen seen o ≡ true
    → is_seen (see seen o) o' ≡ true
    → is_seen seen o' ≡ true
see_old seen none o' old h = h
see_old seen (some j) o' old h = rw old at h

nothing_seen : (o : Option Key) → is_seen [] o ≡ true → ⊥
nothing_seen none h = false≢true h
nothing_seen (some k) h = false≢true h

-- The wallets that are seen, or are represented in `vs`.
abbrev Handled : List Key → List Wallet → List Wallet → Type 0
Handled seen ws vs = All (λ w. (is_seen seen (address_key w) ≡ true) ⊎ Represents vs w) ws

deduplicate_from-cons :
    (seen : List Key) (x : Wallet) (ws : List Wallet) (b : Bool)
    → is_seen seen (address_key x) ≡ b
    → (if b
        then deduplicate_from (see seen (address_key x)) ws
        else x ∷ deduplicate_from (see seen (address_key x)) ws)
      ≡ deduplicate_from seen (x ∷ ws)
unfolding deduplicate_from
deduplicate_from-cons seen x ws b e = rw e

deduplicate_from-Handled :
    (seen : List Key) (ws : List Wallet)
    → Pairwise (λ v w. v.id ≤ w.id) ws
    → Handled seen ws (deduplicate_from seen ws)
deduplicate_from-Handled seen [] sorted = tt
deduplicate_from-Handled seen (x ∷ ws) sorted =
    let seen' = see seen (address_key x) in
    let rest = deduplicate_from seen' ws in
    let ih = deduplicate_from-Handled seen' ws sorted.1 in
    let both =
      All-zip (λ w. x.id ≤ w.id) (λ w. (is_seen seen' (address_key w) ≡ true) ⊎ Represents rest w)
        ws sorted.0 ih in
    elim (Bool-cases (is_seen seen (address_key x))) [
      | inl old ↦
          subst (Handled seen (x ∷ ws)) (deduplicate_from-cons seen x ws true old)
            (inl old, All-mono (λ w h. dropped w rest old h.1) ws both)
      | inr new ↦ subst (Handled seen (x ∷ ws)) (deduplicate_from-cons seen x ws false new) (
        inr (x, mem-cons_self, inl refl, omega arith),
        All-mono (λ w h. added w rest h.0 h.1) ws both,
      )
    ]
  where
    dropped :
        (w : Wallet) (rest : List Wallet)
        → is_seen seen (address_key x) ≡ true
        → (is_seen (see seen (address_key x)) (address_key w) ≡ true) ⊎ Represents rest w
        → (is_seen seen (address_key w) ≡ true) ⊎ Represents rest w
    dropped w rest old (inr r) = inr r
    dropped w rest old (inl h) = inl (see_old seen (address_key x) (address_key w) old h)

    added :
        (w : Wallet) (rest : List Wallet)
        → x.id ≤ w.id
        → (is_seen (see seen (address_key x)) (address_key w) ≡ true) ⊎ Represents rest w
        → (is_seen seen (address_key w) ≡ true) ⊎ Represents (x ∷ rest) w
    added w rest le (inr r) = inr (Represents-cons x w rest r)
    added w rest le (inl h) = elim (seen_before_or_now seen (address_key x) (address_key w) h) [
      | inl before ↦ inl before
      | inr (k, e, f) ↦ inr (x, mem-cons_self, inr (k, e, f), le)
    ]

-- Of the wallets in the order of their ids the result keeps, in that order, some that have no
-- on-chain address in common, and of every wallet's address one that is no younger.
pub deduplicate_keeps_oldest :
    (ws : List Wallet)
    → Pairwise (λ v w. v.id ≤ w.id) ws
    → let kept = deduplicate_onchain_addresses ws in
      Sublist kept ws × Pairwise DifferentAddress kept × All (Represents kept) ws
unfolding deduplicate_onchain_addresses
deduplicate_keeps_oldest ws sorted = (
  deduplicate_from-Sublist [] ws,
  deduplicate_from-distinct [] ws,
  All-mono (λ w h. unseen w h) ws (deduplicate_from-Handled [] ws sorted),
)
  where
    unseen :
        (w : Wallet)
        → (is_seen [] (address_key w) ≡ true) ⊎ Represents (deduplicate_from [] ws) w
        → Represents (deduplicate_from [] ws) w
    unseen w (inr r) = r
    unseen w (inl h) = absurd (nothing_seen (address_key w) h)
