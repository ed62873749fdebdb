-- ===== src/RateLimit/SignIn.antt =====
-- The two counters of a sign-in: one for the e-mail and the address, one for the address.
use mathlib.Core.Path.{subst}
use mosona_manager.RateLimit.{
  longer, Redis, login_failure_window, login_max_failures, ip_login_max_failures,
  login_email_ip_key, login_ip_key, increment_failure, check_login_rate_limit, and_ip,
  record_login_failure,
}
use mathlib.Core.Bool.{false≢true}
use mosona_manager.RateLimit.Counting.{
  IsWait, live, IsRedis, Expires, AllBefore, retry_after-entry, increment-next,
}
use mosona_manager.RateLimit.Waiting.{increment-first, increment-others}
use mosona_manager.Prelude.{
  Bool, Bool-cases, List, [], ap, arith, false, get_elem?, get_or, inl, inr, leb, length, ltb, none,
  refl, some, suc, sym, true, ℕ, ◌&&◌, ◌+◌, ◌-◌, ◌<◌, ◌∙◌, ◌∷◌, ◌≡◌, ◌≢◌,
}

keys_differ :
    (sha256 : List ℕ → List ℕ) (email ip : List ℕ)
    → login_email_ip_key sha256 email ip ≢ login_ip_key sha256 ip
unfolding login_email_ip_key login_ip_key
keys_differ sha256 email ip e = omega (arith, ap (λ k. get_or (get_elem? k 16) 0) e)

module _ (redis : Redis) (r : IsRedis redis) (x : Expires redis r) (sha256 : List ℕ → List ℕ)
    (email ip : List ℕ) where
  abbrev email_key : List ℕ
  email_key = login_email_ip_key sha256 email ip

  abbrev ip_key : List ℕ
  ip_key = login_ip_key sha256 ip

  -- a failed sign-in at each of the times
  unfoldable pub fail_sign_ins : List ℕ → redis.Store → redis.Store
  fail_sign_ins [] s = s
  fail_sign_ins (t ∷ ts) s = fail_sign_ins ts (record_login_failure redis sha256 email ip t s).1

  record_login_failure_lem :
      (t : ℕ) (s : redis.Store)
      → (increment_failure redis email_key login_failure_window t s).0 ≡ true
      → record_login_failure redis sha256 email ip t s
        ≡ increment_failure redis ip_key login_failure_window t
            (increment_failure redis email_key login_failure_window t s).1
  unfolding record_login_failure
  record_login_failure_lem t s h =
      by_answer (increment_failure redis email_key login_failure_window t s) h
    where
      by_answer :
          (o : Bool × redis.Store)
          → o.0 ≡ true
          → and_ip redis sha256 ip t o ≡ increment_failure redis ip_key login_failure_window t o.1
      by_answer (true, s') e = refl
      by_answer (false, s') e = absurd (ground arith)

  -- both counters are at `c`, and end at the same time
  record Both (c end_ : ℕ) (s : redis.Store) : Type 0 where
    of_email : r.entry email_key s ≡ some (c, some end_)
    of_ip : r.entry ip_key s ≡ some (c, some end_)

  record-first :
      (t : ℕ) (s : redis.Store)
      → live t (r.entry email_key s) ≡ none
      → live t (r.entry ip_key s) ≡ none
      → Both 1 (t + login_failure_window) (record_login_failure redis sha256 email ip t s).1
  record-first t s he hi =
      let w = login_failure_window in
      let (ok, one) = increment-first redis r x email_key w t s he in
      let s₁ = (increment_failure redis email_key w t s).1 in
      let ne = keys_differ sha256 email ip in
      let kept = increment-others redis r x email_key ip_key w t s ne in
      let (ok', one') = increment-first redis r x ip_key w t s₁ (ap (live t) kept ∙ hi) in
      rw (record_login_failure_lem t s ok) (record {
        of_email = increment-others redis r x ip_key email_key w t s₁ (λ e. ne (sym e)) ∙ one;
        of_ip = one';
      })

  record-next :
      (t c end_ : ℕ) (s : redis.Store)
      → t < end_
      → Both (suc c) end_ s
      → Both (suc (suc c)) end_ (record_login_failure redis sha256 email ip t s).1
  unfolding live
  record-next t c end_ s b h =
      let w = login_failure_window in
      let lives : live t (some (suc c, some end_)) ≡ some (suc c, some end_) = ground (arith, b) in
      let (ok, one) = increment-next redis r email_key w t c (some end_) s h.of_email lives in
      let s₁ = (increment_failure redis email_key w t s).1 in
      let ne = keys_differ sha256 email ip in
      let kept = increment-others redis r x email_key ip_key w t s ne in
      let (ok', one') = increment-next redis r ip_key w t c (some end_) s₁ (kept ∙ h.of_ip) lives in
      rw (record_login_failure_lem t s ok) (record {
        of_email = increment-others redis r x ip_key email_key w t s₁ (λ e. ne (sym e)) ∙ one;
        of_ip = one';
      })

  running-sign_ins :
      (c end_ : ℕ) (ts : List ℕ) (s : redis.Store)
      → AllBefore end_ ts
      → Both (suc c) end_ s
      → Both (length ts + suc c) end_ (fail_sign_ins ts s)
  unfolding fail_sign_ins
  running-sign_ins c end_ [] s b h = subst (λ n. Both n end_ s) (omega arith) h
  running-sign_ins c end_ (t ∷ ts) s b h =
      subst (λ n. Both n end_ (fail_sign_ins (t ∷ ts) s)) (omega arith)
        (running-sign_ins (suc c) end_ ts (record_login_failure redis sha256 email ip t s).1 b.1
          (record-next t c end_ s b.0 h))

  longer_lem :
      (p q : Bool) (d a b : ℕ)
      → IsWait p d a
      → IsWait q d b
      → (q ≡ true → p ≡ true)
      → (wait : ℕ) × (longer (some a) (some b) ≡ some wait) × IsWait p d wait
  longer_lem false false d a b h k i = (0, rw (h, k) refl, refl)
  longer_lem false true d a b h k i = absurd (false≢true (i refl))
  longer_lem true false d a b h k i =
      let z : ltb a 0 ≡ false = ground arith in (a, rw k (simp z refl), h)
  longer_lem true true d a b h k i = elim (Bool-cases (ltb a b)) [
    | inl t ↦ (b, simp t refl, k)
    | inr t ↦ (a, simp t refl, h)
  ]

  both_counters_lem :
      (c end_ now : ℕ) (s : redis.Store)
      → Both c end_ s
      → (wait : ℕ) × (check_login_rate_limit redis sha256 email ip now s ≡ some wait)
        × IsWait (ltb now end_ && leb login_max_failures c) (end_ - now) wait
  unfolding check_login_rate_limit
  both_counters_lem c end_ now s h =
      let (a, ea, ha) =
        retry_after-entry redis r email_key login_max_failures now c end_ s h.of_email in
      let (b, eb, hb) =
        retry_after-entry redis r ip_key ip_login_max_failures now c end_ s h.of_ip in
      let (wait, e, is_wait) =
        longer_lem (ltb now end_ && leb login_max_failures c)
          (ltb now end_ && leb ip_login_max_failures c) (end_ - now) a b ha hb
          (λ q. ground (arith, q)) in
      (wait, rw (ea, eb) e, is_wait)

  -- After sign-ins that failed for one e-mail and address, where none counted before and all come
  -- within fifteen minutes of the first, the next attempt has to wait exactly when there were at
  -- least five and the fifteen minutes are not over: then it is told a wait of at least a second
  -- that is less than a second off the rest of the fifteen minutes. Otherwise it is free.
  pub check_login_rate_limit-fail_sign_ins :
      (first now : ℕ) (ts : List ℕ) (s : redis.Store)
      → live first (r.entry email_key s) ≡ none
      → live first (r.entry ip_key s) ≡ none
      → AllBefore (first + login_failure_window) ts
      → (wait : ℕ) × (check_login_rate_limit redis sha256 email ip now
            (fail_sign_ins (first ∷ ts) s)
          ≡ some wait)
        × IsWait
            (ltb now (first + login_failure_window) && leb login_max_failures (length ts + 1))
            (first + login_failure_window - now)
            wait
  unfolding fail_sign_ins
  check_login_rate_limit-fail_sign_ins first now ts s he hi b =
      both_counters_lem (length ts + 1) (first + login_failure_window) now
        (fail_sign_ins (first ∷ ts) s)
        (running-sign_ins 0 (first + login_failure_window) ts
          (record_login_failure redis sha256 email ip first s).1 b (record-first first s he hi))
