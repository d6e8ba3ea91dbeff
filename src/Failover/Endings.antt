-- ===== src/Failover/Endings.antt =====
-- How the rotation of app/services/evm_collector.py and solana_collector.py ends.
use py_wallet_snapshot_servi.Prelude.{
  ℕ, ◌+◌, ◌-◌, ◌*◌, ◌/◌, ◌≤◌, ◌≡◌, ◌⊎◌, inl, inr, refl, ap, true, Option, none, some, List, [], ◌∷◌,
  ◌++◌, arith, Text, take_text, text_eq, text_eq_refl, lookup, pop, All,
}
use py_wallet_snapshot_servi.Enums.{ErrorType, error_type_value}
use py_wallet_snapshot_servi.Result.{Error, Result, ok, raise}
use py_wallet_snapshot_servi.Collection.{ChainCollectionResult}
use py_wallet_snapshot_servi.Failover.{
  RpcAttemptError, Attempt, returned, rejected, broke, Clocks, second, Blocks, blocked_until,
  blocked, failed, Rotation, Ended, available, try_endpoints, rotate, counted, succeeded,
  failure_metrics, cooling, retry_in,
}
use py_wallet_snapshot_servi.Failover.Bounds.{IsMonotonic, available-at}

lookup-pop :
    {V : Type 0} (url : Text) (d : List (Text × V)) → lookup text_eq url (pop text_eq url d) ≡ none
unfolding lookup pop
lookup-pop url [] = refl
lookup-pop url ((q, v) ∷ d) = ground (arith, lookup-pop url d)

module _ {S : Type 0} (clocks : Clocks S)
    (collect : Text → S → S × Attempt ChainCollectionResult) where
  -- What the loop's turn that starts in the state `s` makes of an endpoint.
  abbrev pub tried : Text → S → S × Attempt ChainCollectionResult
  tried url s = collect url (clocks.perf_counter s).0

  -- The endpoints raise RpcAttemptError one after the other, from the state `s` to the state `s'`; the
  -- clock is read after each of them.
  abbrev pub Rejected : S → List (ℕ × Text) → S → Type 0
  Rejected s [] s' = s ≡ s'
  Rejected s (f ∷ fs) s' =
      (after : S) × (e : RpcAttemptError) × (tried f.1 s ≡ (after, rejected e))
      × Rejected (clocks.monotonic after).0 fs s'

  -- The endpoints raise RpcAttemptError one after the other from the state `s` on, and `e` is the last
  -- one that was raised; `last` was raised before them.
  abbrev pub LastRejection : S → Option RpcAttemptError → List (ℕ × Text) → RpcAttemptError → Type 0
  LastRejection s last [] e = last ≡ some e
  LastRejection s last (f ∷ fs) e =
      (after : S) × (now : RpcAttemptError) × (tried f.1 s ≡ (after, rejected now))
      × LastRejection (clocks.monotonic after).0 (some now) fs e

-- How the loop over the endpoints `free` ends, started at the time `from` in the state `start` with the
-- blocks `old` and ended with `new`. The first endpoint that returns, after those before it raised
-- RpcAttemptError, gives the result and is blocked no more; or all raise RpcAttemptError, the result is
-- failed with the last of these errors and each endpoint is blocked for a second or more; or another
-- exception of an endpoint, after those before it raised RpcAttemptError, ends the loop.
pub data Ending {S : Type 0} (clocks : Clocks S) (chain : Text)
    (collect : Text → S → S × Attempt ChainCollectionResult) (from : ℕ) (start : S)
    (last : Option RpcAttemptError) (old new : Blocks) (free : List (ℕ × Text))
    : Result ChainCollectionResult → Type 0 where
  returned_by :
      (before later : List (ℕ × Text)) (f : ℕ × Text) (s : S) (res : ChainCollectionResult)
      (latency : ℕ)
      → free ≡ before ++ f ∷ later
      → Rejected clocks collect start before s
      → (tried clocks collect f.1 s).1 ≡ returned res
      → lookup text_eq f.1 new ≡ none
      → Ending clocks chain collect from start last old new free
          (ok (record res { rpc_latency_ms = some latency }))
  refused_by_all :
      (e : RpcAttemptError)
      → LastRejection clocks collect start last free e
      → All (λ f. from + second ≤ blocked_until new f.1) free
      → ((url : Text)
          → from + second ≤ blocked_until old url
          → from + second ≤ blocked_until new url)
      → Ending clocks chain collect from start last old new free
          (ok (failed chain e.error_type (take_text 250 e.message)))
  broken_by :
      (before later : List (ℕ × Text)) (f : ℕ × Text) (s : S) (e : Error)
      → free ≡ before ++ f ∷ later
      → Rejected clocks collect start before s
      → (tried clocks collect f.1 s).1 ≡ broke e
      → Ending clocks chain collect from start last old new free (raise e)

module _ {S : Type 0} (clocks : Clocks S) (at : S → ℕ) (mono : IsMonotonic clocks at) (chain : Text)
    (cooldown_seconds : ℕ) (collect : Text → S → S × Attempt ChainCollectionResult)
    (onward : (url : Text) (s : S) → at s ≤ at (collect url s).0) where
  -- A block that is set lasts a second or more, and no other block is shortened below that.
  blocked-from :
      (from : ℕ) (url : Text) (e : RpcAttemptError) (blocks : Blocks) (s : S) (v : Text)
      → from ≤ at s
      → (text_eq v url ≡ true) ⊎ (from + second ≤ blocked_until blocks v)
      → from + second
        ≤ blocked_until (blocked clocks chain cooldown_seconds url e blocks s).blocks v
  unfolding blocked_until lookup
  blocked-from from url e blocks s v le (inl same) = let t = mono.reads s in ground arith
  blocked-from from url e blocks s v le (inr was) = let t = mono.reads s in ground arith

  abbrev Ends :
      ℕ
      → Option RpcAttemptError
      → Rotation S
      → List (ℕ × Text)
      → Ended clocks chain cooldown_seconds
      → Type 0
  Ends from last r free (r', result, metrics) =
      Ending clocks chain collect from r.inner last r.blocks r'.blocks free result

  -- The ending of the later endpoints, after one that was rejected.
  add_rejected :
      (from : ℕ) (last : Option RpcAttemptError) (r : Rotation S) (index : ℕ) (url : Text)
      (e : RpcAttemptError) (s : S) (later : List (ℕ × Text)) (new : Blocks)
      (result : Result ChainCollectionResult)
      → tried clocks collect url r.inner ≡ (s, rejected e)
      → from ≤ at s
      → Ending clocks chain collect from
          (clocks.monotonic s).0
          (some e)
          (blocked clocks chain cooldown_seconds url e r.blocks s).blocks
          new
          later
          result
      → Ending clocks chain collect from r.inner last r.blocks new ((index, url) ∷ later) result
  add_rejected from last r index url e s later new result h le
        (returned_by before rest f s' res latency split prior answer gone) =
      returned_by ((index, url) ∷ before) rest f s' res latency (ap (λ fs. (index, url) ∷ fs) split)
        (s, e, h, prior) answer gone
  add_rejected from last r index url e s later new result h le (refused_by_all e' prior all kept) =
      refused_by_all e' (s, e, h, prior)
        (kept url (blocked-from from url e r.blocks s url le (inl (text_eq_refl url))), all)
        λ v was. kept v (blocked-from from url e r.blocks s v le (inr was))
  add_rejected from last r index url e s later new result h le
        (broken_by before rest f s' e' split prior answer) =
      broken_by ((index, url) ∷ before) rest f s' e' (ap (λ fs. (index, url) ∷ fs) split)
        (s, e, h, prior) answer

  -- The first endpoint, given how the loop goes on after it was rejected.
  first-Ending :
      (from : ℕ) (last : Option RpcAttemptError) (r : Rotation S) (index : ℕ) (url : Text)
      (started : ℕ) (later : List (ℕ × Text)) (a : S × Attempt ChainCollectionResult)
      → tried clocks collect url r.inner ≡ a
      → from ≤ at a.0
      → ((e : RpcAttemptError) (q : Rotation S)
          → from ≤ at q.inner
          → Ends from
              (some e)
              q
              later
              (try_endpoints clocks chain cooldown_seconds collect later (some e) q))
      → Ends from last r
          ((index, url) ∷ later)
          (elim a.1 as (λ _. Ended clocks chain cooldown_seconds) [
            | returned result ↦
                succeeded clocks chain cooldown_seconds index url started result r.blocks a.0
            | rejected e ↦
                counted clocks chain cooldown_seconds (failure_metrics chain index e later) (
                  try_endpoints clocks chain cooldown_seconds collect later
                    (some e)
                    (blocked clocks chain cooldown_seconds url e r.blocks a.0))
            | broke e ↦ (record { blocks = r.blocks; inner = a.0 }, raise e, [])
          ])
  first-Ending from last r index url started later (s, returned result) h le rest =
      returned_by [] later (index, url) r.inner result
        (((clocks.perf_counter s).1 - started) * 1000 / second) refl refl (rw h refl)
        (lookup-pop url r.blocks)
  first-Ending from last r index url started later (s, broke e) h le rest =
      broken_by [] later (index, url) r.inner e refl refl (rw h refl)
  first-Ending from last r index url started later (s, rejected e) h le rest =
      let q = blocked clocks chain cooldown_seconds url e r.blocks s in
      let reading = mono.reads s in
      let new = mono.after s in
      add_rejected from last r index url e s later _ _ h le (rest e q (omega arith))

  try_endpoints-Ending :
      (from : ℕ) (free : List (ℕ × Text)) (last_error : RpcAttemptError) (r : Rotation S)
      → from ≤ at r.inner
      → Ends from
          (some last_error)
          r
          free
          (try_endpoints clocks chain cooldown_seconds collect free (some last_error) r)
  unfolding try_endpoints
  try_endpoints-Ending from [] last_error r le = refused_by_all last_error refl tt (λ v h. h)
  try_endpoints-Ending from ((index, url) ∷ later) last_error r le =
      let s0 = (clocks.perf_counter r.inner).0 in
      first-Ending from (some last_error) r index url (clocks.perf_counter r.inner).1 later
        (collect url s0) refl (omega (arith, mono.counts r.inner, onward url s0))
        λ e q. try_endpoints-Ending from later e q

  -- The rotation over at least one endpoint either finds none free, reports circuit_open with a wait of
  -- at least a second and leaves the blocks as they are, or it tries those that it found free in their
  -- order: it ends with the result of the first that does not raise RpcAttemptError, which is then
  -- blocked no more; failed with the error of the last one after all raised RpcAttemptError, each then
  -- blocked for at least a second; or with another exception of the first that raises one. The assertion
  -- after the loop never fails. The clocks are taken not to go back, also over a call to an endpoint.
  pub rotate-Ending :
      (missing : Text) (message : ℕ → Text) (url : Text) (urls : List Text) (r : Rotation S)
      → let (r', result, metrics) =
          rotate clocks chain cooldown_seconds missing message collect (url ∷ urls) r in
        let (s, free) = available clocks chain cooldown_seconds r.blocks 0 (url ∷ urls) r.inner in
        ((n : ℕ) × (1 ≤ n)
          × (free ≡ [])
          × (r'.blocks ≡ r.blocks)
          × (result ≡ ok (failed chain (error_type_value ErrorType.circuit_open) (message n))))
        ⊎ Ending clocks chain collect (at r.inner) s none r.blocks r'.blocks free result
  unfolding rotate try_endpoints
  rotate-Ending missing message url urls r = split free refl
    where
      s : S
      s = (available clocks chain cooldown_seconds r.blocks 0 (url ∷ urls) r.inner).0

      free : List (ℕ × Text)
      free = (available clocks chain cooldown_seconds r.blocks 0 (url ∷ urls) r.inner).1

      run : List (ℕ × Text) → Ended clocks chain cooldown_seconds
      run [] = cooling clocks chain cooldown_seconds message url urls r.blocks s
      run (f ∷ fs) =
          try_endpoints clocks chain cooldown_seconds collect (f ∷ fs) none (record r { inner = s })

      Goal : List (ℕ × Text) → Ended clocks chain cooldown_seconds → Type 0
      Goal fs (r', result, metrics) =
          ((n : ℕ) × (1 ≤ n)
            × (fs ≡ [])
            × (r'.blocks ≡ r.blocks)
            × (result ≡ ok (failed chain (error_type_value ErrorType.circuit_open) (message n))))
          ⊎ Ending clocks chain collect (at r.inner) s none r.blocks r'.blocks fs result

      split : (fs : List (ℕ × Text)) → fs ≡ free → Goal fs (run fs)
      split [] e =
          inl (retry_in r.blocks url urls (clocks.monotonic s).1, omega arith, refl, refl, refl)
      split ((index, u) ∷ fs) e =
          let r' : Rotation S = record r { inner = s } in
          let s0 = (clocks.perf_counter s).0 in
          inr (
            first-Ending (at r.inner) none r' index u (clocks.perf_counter s).1 fs (collect u s0)
              refl
              (omega (
                arith,
                available-at clocks at mono chain cooldown_seconds r.blocks 0 (url ∷ urls) r.inner,
                mono.counts s,
                onward u s0,
              ))
              (try_endpoints-Ending (at r.inner) fs))
