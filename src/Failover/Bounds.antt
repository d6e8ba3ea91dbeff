-- ===== src/Failover/Bounds.antt =====
-- How long the rotation of app/services/evm_collector.py and solana_collector.py leaves an endpoint out.
use py_wallet_snapshot_servi.Prelude.{
  ℕ, suc, ◌+◌, ◌*◌, ◌≤◌, ◌≡◌, refl, ap, true, Option, none, some, List, [], ◌∷◌, leb, arith, Text,
  text_eq, text_eq_sound, lookup, pop, All, All-mono, All-pop, lookup-All,
}
use py_wallet_snapshot_servi.Result.{raise}
use py_wallet_snapshot_servi.Collection.{ChainCollectionResult}
use py_wallet_snapshot_servi.Failover.{
  RpcAttemptError, Attempt, returned, rejected, broke, Clocks, second, Blocks, blocked_until,
  or_zero, blocked, Rotation, Ended, available, try_endpoints, rotate, counted, succeeded,
  failure_metrics, cooling,
}

-- The longest time that an endpoint is left out.
abbrev pub longest : ℕ
longest = 3600 * second

-- Every endpoint with its position.
unfoldable pub enumerate : ℕ → List Text → List (ℕ × Text)
enumerate index [] = []
enumerate index (url ∷ urls) = (index, url) ∷ enumerate (suc index) urls

-- `at s` is the time in the state `s`: the monotonic clock reads it or more, and no clock goes back.
pub record IsMonotonic {S : Type 0} (clocks : Clocks S) (at : S → ℕ) : Type 0 where
  pub reads : (s : S) → at s ≤ (clocks.monotonic s).1
  pub after : (s : S) → at (clocks.monotonic s).0 ≡ (clocks.monotonic s).1
  pub counts : (s : S) → at s ≤ at (clocks.perf_counter s).0

module _ {S : Type 0} (clocks : Clocks S) (at : S → ℕ) (mono : IsMonotonic clocks at) (chain : Text)
    (cooldown_seconds : ℕ) where
  -- No endpoint is left out for more than an hour from now.
  abbrev pub IsBounded : Rotation S → Type 0
  IsBounded r = All (λ e. e.1 ≤ at r.inner + longest) r.blocks

  later-IsBounded :
      (blocks : Blocks) (a b : ℕ)
      → a ≤ b
      → All (λ e. e.1 ≤ a + longest) blocks
      → All (λ e. e.1 ≤ b + longest) blocks
  later-IsBounded blocks a b le all = All-mono (λ e h. omega arith) blocks all

  blocked-IsBounded :
      (url : Text) (e : RpcAttemptError) (blocks : Blocks) (s : S)
      → All (λ b. b.1 ≤ at s + longest) blocks
      → IsBounded (blocked clocks chain cooldown_seconds url e blocks s)
  blocked-IsBounded url e blocks s all =
      let new = mono.after s in
      let le = mono.reads s in (omega arith, later-IsBounded blocks (at s) _ (omega arith) all)

  succeeded-IsBounded :
      (index : ℕ) (url : Text) (started : ℕ) (result : ChainCollectionResult) (blocks : Blocks)
      (s : S)
      → All (λ b. b.1 ≤ at s + longest) blocks
      → IsBounded (succeeded clocks chain cooldown_seconds index url started result blocks s).0
  succeeded-IsBounded index url started result blocks s all =
      later-IsBounded (pop text_eq url blocks) (at s) _ (mono.counts s)
        (All-pop (λ b. b.1 ≤ at s + longest) text_eq url blocks all)

  -- The clock reads the time or more for each endpoint that is asked after.
  pub available-at :
      (blocks : Blocks) (index : ℕ) (urls : List Text) (s : S)
      → at s ≤ at (available clocks chain cooldown_seconds blocks index urls s).0
  unfolding available
  available-at blocks index [] s = omega arith
  available-at blocks index (url ∷ urls) s =
      let new = mono.after s in
      let le = mono.reads s in
      let rest = available-at blocks (suc index) urls (clocks.monotonic s).0 in omega arith

  module _ (collect : Text → S → S × Attempt ChainCollectionResult)
      (onward : (url : Text) (s : S) → at s ≤ at (collect url s).0) where
    try_endpoints-IsBounded :
        (free : List (ℕ × Text)) (last_error : Option RpcAttemptError) (r : Rotation S)
        → IsBounded r
        → IsBounded (try_endpoints clocks chain cooldown_seconds collect free last_error r).0
    unfolding try_endpoints
    try_endpoints-IsBounded [] none r b = b
    try_endpoints-IsBounded [] (some e) r b = b
    try_endpoints-IsBounded ((index, url) ∷ later) last_error r b =
        settle (collect url s0)
          (later-IsBounded r.blocks (at r.inner) _
            (omega (arith, mono.counts r.inner, onward url s0)) b)
          λ e. try_endpoints-IsBounded later (some e)
      where
        s0 : S
        s0 = (clocks.perf_counter r.inner).0

        settle :
            (a : S × Attempt ChainCollectionResult)
            → All (λ c. c.1 ≤ at a.0 + longest) r.blocks
            → ((e : RpcAttemptError) (q : Rotation S)
                → IsBounded q
                → IsBounded
                    (try_endpoints clocks chain cooldown_seconds collect later (some e) q).0)
            → IsBounded
                (elim a.1 as (λ _. Ended clocks chain cooldown_seconds) [
                  | returned result ↦
                      succeeded clocks chain cooldown_seconds index url
                        (clocks.perf_counter r.inner).1
                        result
                        r.blocks
                        a.0
                  | rejected e ↦
                      counted clocks chain cooldown_seconds (failure_metrics chain index e later) (
                        try_endpoints clocks chain cooldown_seconds collect later
                          (some e)
                          (blocked clocks chain cooldown_seconds url e r.blocks a.0))
                  | broke e ↦ (record { blocks = r.blocks; inner = a.0 }, raise e, [])
                ]).0
        settle (s, returned result) all rest =
            succeeded-IsBounded index url (clocks.perf_counter r.inner).1 result r.blocks s all
        settle (s, rejected e) all rest =
            rest e (blocked clocks chain cooldown_seconds url e r.blocks s)
              (blocked-IsBounded url e r.blocks s all)
        settle (s, broke e) all rest = all

    -- The rotation keeps this bound: after it, however its calls end, no endpoint is left out for more
    -- than an hour from then, whatever Retry-After an endpoint sent and whatever cooldown is configured,
    -- given that the clocks do not go back.
    pub rotate-IsBounded :
        (missing : Text) (message : ℕ → Text) (urls : List Text) (r : Rotation S)
        → IsBounded r
        → IsBounded (rotate clocks chain cooldown_seconds missing message collect urls r).0
    unfolding rotate
    rotate-IsBounded missing message [] r b = b
    rotate-IsBounded missing message (url ∷ urls) r b = split free (
        later-IsBounded r.blocks (at r.inner) (at s) (available-at r.blocks 0 (url ∷ urls) r.inner)
          b)
      where
        s : S
        s = (available clocks chain cooldown_seconds r.blocks 0 (url ∷ urls) r.inner).0

        free : List (ℕ × Text)
        free = (available clocks chain cooldown_seconds r.blocks 0 (url ∷ urls) r.inner).1

        split :
            (fs : List (ℕ × Text))
            → All (λ e. e.1 ≤ at s + longest) r.blocks
            → IsBounded
                (elim fs as (λ _. Ended clocks chain cooldown_seconds) [
                  | [] ↦ cooling clocks chain cooldown_seconds message url urls r.blocks s
                  | f ∷ fs ↦
                      try_endpoints clocks chain cooldown_seconds collect
                        (f ∷ fs)
                        none
                        (record r { inner = s })
                ]).0
        split [] all =
            later-IsBounded r.blocks (at s) _ (omega (arith, mono.reads s, mono.after s)) all
        split (f ∷ fs) all = try_endpoints-IsBounded (f ∷ fs) none (record r { inner = s }) all

  blocked_until-le :
      (blocks : Blocks) (url : Text) (limit : ℕ)
      → All (λ e. e.1 ≤ limit) blocks
      → blocked_until blocks url ≤ limit
  unfolding blocked_until
  blocked_until-le blocks url limit all =
      split (lookup text_eq url blocks)
        λ t h. lookup-All (λ e. e.1 ≤ limit) text_eq text_eq_sound url blocks all h
    where
      split : (o : Option ℕ) → ((t : ℕ) → o ≡ some t → t ≤ limit) → or_zero o ≤ limit
      split none h = omega arith
      split (some t) h = h t refl

  -- An hour after any time at which the bound held, every configured endpoint is free again, in the
  -- order of the settings.
  pub available-enumerate :
      (r : Rotation S) (index : ℕ) (urls : List Text) (s : S)
      → IsBounded r
      → at r.inner + longest ≤ at s
      → (available clocks chain cooldown_seconds r.blocks index urls s).1 ≡ enumerate index urls
  unfolding available enumerate
  available-enumerate r index [] s b late = refl
  available-enumerate r index (url ∷ urls) s b late =
      let le = blocked_until-le r.blocks url (at r.inner + longest) b in
      let reading = mono.reads s in
      let new = mono.after s in
      let free : leb (blocked_until r.blocks url) (clocks.monotonic s).1 ≡ true = ground arith in
      let rest = available-enumerate r (suc index) urls (clocks.monotonic s).0 b (omega arith) in
      rw free (ap (λ xs. (index, url) ∷ xs) rest)
