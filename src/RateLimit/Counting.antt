-- ===== src/RateLimit/Counting.antt =====
-- What is relied on of Redis, and what the counters then do.
use mathlib.Core.Path.{subst}
use mosona_manager.RateLimit.{
  wait_of_ttl, wait_of_count, Redis, second, retry_after, expire_first, increment_failure,
}
use mosona_manager.Prelude.{
  Bool, Bool-cases, List, Option, [], ap, arith, false, if◌then◌else◌, inl, inr, leb, length, ltb,
  none, refl, some, suc, true, ℕ, ◌&&◌, ◌*◌, ◌+◌, ◌-◌, ◌<◌, ◌==◌, ◌∙◌, ◌∷◌, ◌≡◌, ◌≢◌, ◌≤◌,
}

-- a counter, and when it expires
abbrev pub Entry : Type 0
Entry = ℕ × Option ℕ

unfoldable pub live : ℕ → Option Entry → Option Entry
live now none = none
live now (some (c, none)) = some (c, none)
live now (some (c, some e)) = if ltb now e then some (c, some e) else none

abbrev pub count : Option Entry → Option ℕ
count none = none
count (some (c, e)) = some c

abbrev pub left : ℕ → Option Entry → Option ℕ
left now none = none
left now (some (c, none)) = none
left now (some (c, some e)) = some (e - now)

abbrev pub bump : Option Entry → Entry
bump none = (1, none)
bump (some (c, e)) = (c + 1, e)

abbrev pub expiring : ℕ → Option Entry → Option Entry
expiring e none = none
expiring e (some (c, old)) = some (c, some e)

-- `TTL` answers in whole seconds, less than a second off
abbrev pub Near : Option ℕ → Option ℕ → Type 0
Near none v = v ≡ none
Near (some d) none = ⊥
Near (some d) (some v) = (n : ℕ) × (v ≡ n * second) × (v < d + second) × (d < v + second)

-- what is documented of the commands, for a server that answers
pub record IsRedis (redis : Redis) : Type 0 where
  pub entry : List ℕ → redis.Store → Option Entry
  pub gets :
      (k : List ℕ) (t : ℕ) (s : redis.Store) → redis.get k t s ≡ some (count (live t (entry k s)))
  pub ttls :
      (k : List ℕ) (t : ℕ) (s : redis.Store)
      → (v : Option ℕ) × (redis.ttl k t s ≡ some v) × Near (left t (live t (entry k s))) v
  pub counts :
      (k : List ℕ) (t : ℕ) (s : redis.Store)
      → (redis.incr k t s).0 ≡ some (bump (live t (entry k s))).0
  pub keeps :
      (k : List ℕ) (t : ℕ) (s : redis.Store)
      → entry k (redis.incr k t s).1 ≡ some (bump (live t (entry k s)))
  pub keeps_others :
      (k j : List ℕ) (t : ℕ) (s : redis.Store) → k ≢ j → entry j (redis.incr k t s).1 ≡ entry j s

-- and that setting an expiry meets no error
pub record Expires (redis : Redis) (r : IsRedis redis) : Type 0 where
  pub succeeds : (k : List ℕ) (w t : ℕ) (s : redis.Store) → (redis.expire k w t s).0 ≡ true
  pub expires :
      (k : List ℕ) (w t : ℕ) (s : redis.Store)
      → r.entry k (redis.expire k w t s).1 ≡ expiring (t + w) (live t (r.entry k s))
  pub expires_others :
      (k j : List ℕ) (w t : ℕ) (s : redis.Store)
      → k ≢ j
      → r.entry j (redis.expire k w t s).1 ≡ r.entry j s

-- every time is before `end_`
abbrev pub AllBefore : ℕ → List ℕ → Type 0
AllBefore end_ [] = Unit
AllBefore end_ (t ∷ ts) = (t < end_) × AllBefore end_ ts

-- the wait of a client that is to wait for the given time, or not at all
abbrev pub IsWait : Bool → ℕ → ℕ → Type 0
IsWait false d wait = wait ≡ 0
IsWait true d wait = (second ≤ wait) × (wait < d + second) × (d < wait + second)

IsWait-of_Near :
    (d : ℕ) (v : Option ℕ)
    → 0 < d
    → Near (some d) v
    → (wait : ℕ) × (wait_of_ttl (some v) ≡ some wait) × IsWait true d wait
IsWait-of_Near d none h near = absurd near
IsWait-of_Near d (some v) h (n, whole, below, above) = elim (Bool-cases (v == 0)) [
  | inl t ↦ (second, simp t refl, (omega arith, omega (arith, h), ground (arith, t, above)))
  | inr t ↦ (v, simp t refl, (ground (arith, t, whole), below, above))
]

IsWait-of_live :
    (max c d : ℕ) (v : Option ℕ)
    → 0 < d
    → Near (some d) v
    → (wait : ℕ) × (wait_of_count (some (some c)) max (some v) ≡ some wait)
      × IsWait (leb max c) d wait
IsWait-of_live max c d v h near = elim (Bool-cases (leb max c)) [
  | inl t ↦
      let below : ltb c max ≡ false = ground (arith, t) in
      simp (t, below) (IsWait-of_Near d v h near)
  | inr t ↦ let below : ltb c max ≡ true = ground (arith, t) in simp (t, below) (0, refl, refl)
]

wait_lem :
    (max now c e : ℕ) (v : Option ℕ)
    → Near (left now (live now (some (c, some e)))) v
    → (wait : ℕ) × (wait_of_count (some (count (live now (some (c, some e))))) max (some v)
        ≡ some wait)
      × IsWait (ltb now e && leb max c) (e - now) wait
unfolding live
wait_lem max now c e v near = elim (Bool-cases (ltb now e)) [
  | inl t ↦ simp t (IsWait-of_live max c (e - now) v (ground (arith, t)) (simp t at near))
  | inr t ↦ simp t (0, refl, refl)
]

module _ (redis : Redis) (r : IsRedis redis) where
  pub retry_after-entry :
      (k : List ℕ) (max now c e : ℕ) (s : redis.Store)
      → r.entry k s ≡ some (c, some e)
      → (wait : ℕ) × (retry_after redis k max now s ≡ some wait)
        × IsWait (ltb now e && leb max c) (e - now) wait
  unfolding retry_after
  retry_after-entry k max now c e s h =
      let (v, answer, near) = r.ttls k now s in
      let (wait, q, is_wait) =
        wait_lem max now c e v (subst (λ o. Near (left now (live now o)) v) h near) in
      (wait, rw (r.gets k now s, answer, h) q, is_wait)

  retry_after-stuck :
      (k : List ℕ) (max now c : ℕ) (s : redis.Store)
      → max ≤ c
      → r.entry k s ≡ some (c, none)
      → retry_after redis k max now s ≡ some second
  unfolding retry_after live
  retry_after-stuck k max now c s enough h =
      let (v, answer, near) = r.ttls k now s in
      let unset : v ≡ none = subst (λ o. Near (left now (live now o)) v) h near in
      rw (r.gets k now s, answer, h, unset) (ground arith)

  -- `incrementFailure` by what Redis counted
  pub increment_lem :
      (k : List ℕ) (w t n : ℕ) (s : redis.Store)
      → (bump (live t (r.entry k s))).0 ≡ n
      → increment_failure redis k w t s
        ≡ (if n == 1 then redis.expire k w t (redis.incr k t s).1 else (true, (redis.incr k t s).1))
  unfolding increment_failure
  increment_lem k w t n s h = by_answer (redis.incr k t s) (r.counts k t s ∙ ap some h)
    where
      by_answer :
          (o : Option ℕ × redis.Store)
          → o.0 ≡ some n
          → expire_first redis k w t o ≡ (if n == 1 then redis.expire k w t o.1 else (true, o.1))
      by_answer (none, s') e = absurd (ground arith)
      by_answer (some m, s') e = ground arith

  -- a counter that runs goes on, and keeps its end
  pub increment-next :
      (k : List ℕ) (w t c : ℕ) (end_ : Option ℕ) (s : redis.Store)
      → r.entry k s ≡ some (suc c, end_)
      → live t (some (suc c, end_)) ≡ some (suc c, end_)
      → ((increment_failure redis k w t s).0 ≡ true)
        × (r.entry k (increment_failure redis k w t s).1 ≡ some (suc (suc c), end_))
  increment-next k w t c end_ s h l =
      let lives : live t (r.entry k s) ≡ some (suc c, end_) = rw h l in
      let n : suc c + 1 ≡ suc (suc c) = omega arith in
      let bumped : bump (live t (r.entry k s)) ≡ (suc (suc c), end_) = rw lives (rw n refl) in
      let again : (suc (suc c) == 1) ≡ false = ground arith in
      rw (increment_lem k w t (suc (suc c)) s (ap (λ p. p.0) bumped), again)
        (refl, r.keeps k t s ∙ ap some bumped)

  -- the store after a failure at each of the times
  unfoldable pub fail_all : List ℕ → ℕ → List ℕ → redis.Store → redis.Store
  fail_all k w [] s = s
  fail_all k w (t ∷ ts) s = fail_all k w ts (increment_failure redis k w t s).1

  unending-fail_all :
      (k : List ℕ) (w c : ℕ) (ts : List ℕ) (s : redis.Store)
      → r.entry k s ≡ some (suc c, none)
      → r.entry k (fail_all k w ts s) ≡ some (length ts + suc c, none)
  unfolding fail_all live
  unending-fail_all k w c [] s h = h ∙ ap (λ n. some (n, none)) (omega arith)
  unending-fail_all k w c (t ∷ ts) s h =
      let (ok, next) = increment-next k w t c none s h refl in
      unending-fail_all k w (suc c) ts (increment_failure redis k w t s).1 next
      ∙ ap (λ n. some (n, none)) (omega arith)

  -- A counter that has no expiry never ends: once further failures bring it to the limit,
  -- whoever it is about waits a second at any time.
  pub locked_for_good :
      (k : List ℕ) (w max c now : ℕ) (ts : List ℕ) (s : redis.Store)
      → r.entry k s ≡ some (suc c, none)
      → max ≤ length ts + suc c
      → retry_after redis k max now (fail_all k w ts s) ≡ some second
  locked_for_good k w max c now ts s h enough =
      retry_after-stuck k max now (length ts + suc c) (fail_all k w ts s) enough
        (unending-fail_all k w c ts s h)
