-- ===== src/RateLimit/Tests.antt =====
-- The theorems on the failure counters, with a Redis that is a list of counters.
use mosona_manager.RateLimit.Counting.{IsWait}
use mosona_manager.Identity.{Bytes-discrete}
use mosona_manager.RateLimit.{
  second, Redis, login_failure_window, retry_after, check_login_rate_limit,
}
use mosona_manager.RateLimit.Counting.{
  Near, Entry, live, count, left, bump, expiring, IsRedis, Expires, fail_all, locked_for_good,
}
use mosona_manager.RateLimit.SignIn.{fail_sign_ins, check_login_rate_limit-fail_sign_ins}
use mosona_manager.Prelude.{
  List, Option, [], arith, delete, find, find-delete_ne, find-delete_self, find-store_ne,
  find-store_self, none, refl, some, store, true, ℕ, ◌*◌, ◌+◌, ◌-◌, ◌/◌, ◌∷◌, ◌≡◌, ◌≢◌,
}

abbrev Counters : Type 0
Counters = List (List ℕ × Entry)

abbrev counter : List ℕ → Counters → Option Entry
counter k s = find Bytes-discrete k s

abbrev put : List ℕ → Option Entry → Counters → Counters
put k none s = delete Bytes-discrete k s
put k (some e) s = store Bytes-discrete k e s

find-put : (k : List ℕ) (o : Option Entry) (s : Counters) → counter k (put k o s) ≡ o
find-put k none s = find-delete_self Bytes-discrete k s
find-put k (some e) s = find-store_self Bytes-discrete k e s

find-put_ne :
    (k j : List ℕ) (o : Option Entry) (s : Counters) → k ≢ j → counter j (put k o s) ≡ counter j s
find-put_ne k j none s h = find-delete_ne Bytes-discrete k j s h
find-put_ne k j (some e) s h = find-store_ne Bytes-discrete k j e s h

-- the rest of a time in whole seconds, rounded up
abbrev whole_seconds : Option ℕ → Option ℕ
whole_seconds none = none
whole_seconds (some d) = some ((d + (second - 1)) / second * second)

Near-whole_seconds : (o : Option ℕ) → Near o (whole_seconds o)
Near-whole_seconds none = refl
Near-whole_seconds (some d) = ((d + (second - 1)) / second, refl, ground arith, ground arith)

abbrev toy : Redis
toy = record {
  Store = Counters;
  get = λ k t s. some (count (live t (counter k s)));
  ttl = λ k t s. some (whole_seconds (left t (live t (counter k s))));
  incr =
      λ k t s. (some (bump (live t (counter k s))).0, put k (some (bump (live t (counter k s)))) s);
  expire = λ k w t s. (true, put k (expiring (t + w) (live t (counter k s))) s);
  del = λ k s. put k none s;
}

abbrev toy-IsRedis : IsRedis toy
toy-IsRedis = record {
  entry = counter;
  gets = λ k t s. refl;
  ttls = λ k t s. (_, refl, Near-whole_seconds (left t (live t (counter k s))));
  counts = λ k t s. refl;
  keeps = λ k t s. find-put k (some (bump (live t (counter k s)))) s;
  keeps_others = λ k j t s h. find-put_ne k j (some (bump (live t (counter k s)))) s h;
}

abbrev toy-Expires : Expires toy toy-IsRedis
toy-Expires = record {
  succeeds = λ k w t s. refl;
  expires = λ k w t s. find-put k (expiring (t + w) (live t (counter k s))) s;
  expires_others = λ k j w t s h. find-put_ne k j (expiring (t + w) (live t (counter k s))) s h;
}

abbrev one_more : List ℕ
one_more = 20 ∷ []

abbrev name : List ℕ
name = 97 ∷ []

-- a counter that was left without an expiry
abbrev unending : Counters
unending = put name (some (1, none)) []

locked_for_good_example :
    retry_after toy name 2 1_000_000 (fail_all toy toy-IsRedis name 100 one_more unending)
    ≡ some second
locked_for_good_example =
    locked_for_good toy toy-IsRedis name 100 2 0 1_000_000 one_more unending
      (find-store_self Bytes-discrete name (1, none) []) (omega arith)

abbrev later_failures : List ℕ
later_failures = 20 ∷ 30 ∷ 40 ∷ 50 ∷ []

check_login_rate_limit-fail_sign_ins_example :
    (wait : ℕ) × (check_login_rate_limit toy
        (λ b. b)
        name
        name
        60
        (fail_sign_ins toy toy-IsRedis toy-Expires (λ b. b) name name (10 ∷ later_failures) [])
      ≡ some wait)
    × IsWait true (10 + login_failure_window - 60) wait
unfolding find live
check_login_rate_limit-fail_sign_ins_example =
    check_login_rate_limit-fail_sign_ins toy toy-IsRedis toy-Expires (λ b. b) name name 10 60
      later_failures [] refl refl (omega arith, (omega arith, (omega arith, (omega arith, tt))))
