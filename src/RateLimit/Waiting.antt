-- ===== src/RateLimit/Waiting.antt =====
-- The wait of a client after failures, for one counter and for the two counters of a sign-in.
use mosona_manager.RateLimit.{Redis, retry_after, increment_failure}
use mosona_manager.RateLimit.Counting.{
  IsWait, live, bump, expiring, IsRedis, Expires, AllBefore, fail_all, retry_after-entry,
  increment_lem, increment-next,
}
use mosona_manager.Prelude.{
  Bool-cases, List, [], ap, arith, inl, inr, leb, length, ltb, none, refl, some, suc, true, ℕ, ◌&&◌,
  ◌+◌, ◌-◌, ◌==◌, ◌∙◌, ◌∷◌, ◌≡◌, ◌≢◌,
}

module _ (redis : Redis) (r : IsRedis redis) (x : Expires redis r) where
  -- the first failure starts the counter, and its time
  pub increment-first :
      (k : List ℕ) (w t : ℕ) (s : redis.Store)
      → live t (r.entry k s) ≡ none
      → ((increment_failure redis k w t s).0 ≡ true)
        × (r.entry k (increment_failure redis k w t s).1 ≡ some (1, some (t + w)))
  unfolding live
  increment-first k w t s h =
      let started : r.entry k (redis.incr k t s).1 ≡ some (1, none) =
        r.keeps k t s ∙ ap (λ e. some (bump e)) h in
      rw (increment_lem redis r k w t 1 s (ap (λ e. (bump e).0) h)) (
        x.succeeds k w t (redis.incr k t s).1,
        x.expires k w t (redis.incr k t s).1 ∙ ap (λ e. expiring (t + w) (live t e)) started,
      )

  pub increment-others :
      (k j : List ℕ) (w t : ℕ) (s : redis.Store)
      → k ≢ j
      → r.entry j (increment_failure redis k w t s).1 ≡ r.entry j s
  increment-others k j w t s ne =
      let n = (bump (live t (r.entry k s))).0 in
      elim (Bool-cases (n == 1)) [
        | inl e ↦
            rw (increment_lem redis r k w t n s refl, e)
              (x.expires_others k j w t (redis.incr k t s).1 ne ∙ r.keeps_others k j t s ne)
        | inr e ↦ rw (increment_lem redis r k w t n s refl, e) (r.keeps_others k j t s ne)
      ]

  running-fail_all :
      (k : List ℕ) (w c end_ : ℕ) (ts : List ℕ) (s : redis.Store)
      → AllBefore end_ ts
      → r.entry k s ≡ some (suc c, some end_)
      → r.entry k (fail_all redis r k w ts s) ≡ some (length ts + suc c, some end_)
  unfolding fail_all live
  running-fail_all k w c end_ [] s b h = h ∙ ap (λ n. some (n, some end_)) (omega arith)
  running-fail_all k w c end_ (t ∷ ts) s b h =
      let (ok, next) = increment-next redis r k w t c (some end_) s h (ground (arith, b.0)) in
      running-fail_all k w (suc c) end_ ts (increment_failure redis k w t s).1 b.1 next
      ∙ ap (λ n. some (n, some end_)) (omega arith)

  -- Where no failure counted before, and the further failures all come within the window of the
  -- first, a client waits exactly when there were at least as many as the limit, and until the
  -- window ends, to less than a second; after it, the client may go on.
  pub retry_after-fail_all :
      (k : List ℕ) (w max first now : ℕ) (ts : List ℕ) (s : redis.Store)
      → live first (r.entry k s) ≡ none
      → AllBefore (first + w) ts
      → (wait : ℕ) × (retry_after redis k max now (fail_all redis r k w (first ∷ ts) s) ≡ some wait)
        × IsWait (ltb now (first + w) && leb max (length ts + 1)) (first + w - now) wait
  unfolding fail_all
  retry_after-fail_all k w max first now ts s h b =
      let (ok, one) = increment-first k w first s h in
      retry_after-entry redis r k max now (length ts + 1) (first + w)
        (fail_all redis r k w ts (increment_failure redis k w first s).1)
        (running-fail_all k w 0 (first + w) ts (increment_failure redis k w first s).1 b one)
