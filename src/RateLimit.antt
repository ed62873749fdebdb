-- ===== src/RateLimit.antt =====
-- internal/app/auth/rate_limit.go: failed sign-ins, second factors and enrolments are counted in
-- Redis, and too many of them make a client wait. Durations and instants are in nanoseconds; a
-- wait is `none` where Redis fails, and 0 where the client may go on.
pub mod Counting
pub mod Waiting
pub mod SignIn
mod Tests
use mosona_manager.Decimal.{print}
use mosona_manager.Prelude.{
  Bool, List, Option, bytes, false, if◌then◌else◌, ltb, none, some, true, ℕ, ◌*◌, ◌++◌, ◌==◌, ◌∷◌,
}

-- What Redis does, by the time at which it is asked: `get` and `incr` are `none` on an error,
-- `ttl` is `some none` where Redis answers with a negative number, and `expire` is false on an
-- error.
pub record Redis : Type 1 where
  pub Store : Type 0
  pub get : List ℕ → ℕ → Store → Option (Option ℕ)
  pub ttl : List ℕ → ℕ → Store → Option (Option ℕ)
  pub incr : List ℕ → ℕ → Store → Option ℕ × Store
  pub expire : List ℕ → ℕ → ℕ → Store → Bool × Store
  pub del : List ℕ → Store → Store

abbrev pub second : ℕ
second = 1_000_000_000

abbrev pub minute : ℕ
minute = 60 * second

abbrev pub login_failure_window : ℕ
login_failure_window = 15 * minute

abbrev pub login_max_failures : ℕ
login_max_failures = 5

abbrev pub ip_login_max_failures : ℕ
ip_login_max_failures = 30

abbrev pub totp_failure_window : ℕ
totp_failure_window = 10 * minute

abbrev pub totp_max_failures : ℕ
totp_max_failures = 5

abbrev pub enroll_failure_window : ℕ
enroll_failure_window = 15 * minute

abbrev pub enroll_max_failures : ℕ
enroll_max_failures = 30

abbrev pub mfa_failure_window : ℕ
mfa_failure_window = 10 * minute

abbrev pub mfa_max_failures : ℕ
mfa_max_failures = 8

abbrev pub wait_of_ttl : Option (Option ℕ) → Option ℕ
wait_of_ttl none = none
wait_of_ttl (some none) = some second
wait_of_ttl (some (some t)) = if t == 0 then some second else some t

abbrev pub wait_of_count : Option (Option ℕ) → ℕ → Option (Option ℕ) → Option ℕ
wait_of_count none max_failures ttl = none
wait_of_count (some none) max_failures ttl = some 0
wait_of_count (some (some count)) max_failures ttl =
    if ltb count max_failures then some 0 else wait_of_ttl ttl

abbrev pub longer : Option ℕ → Option ℕ → Option ℕ
longer none ip_retry = none
longer (some email_retry) none = none
longer (some email_retry) (some ip_retry) =
    if ltb email_retry ip_retry then some ip_retry else some email_retry

-- `sha256` is `utils.SHA256`, a hash in hexadecimal
unfoldable pub login_email_ip_key : (List ℕ → List ℕ) → List ℕ → List ℕ → List ℕ
login_email_ip_key sha256 email ip =
    bytes "auth:fail:login:email_ip:" ++ sha256 (email ++ b'|' ∷ ip)

unfoldable pub login_ip_key : (List ℕ → List ℕ) → List ℕ → List ℕ
login_ip_key sha256 ip = bytes "auth:fail:login:ip:" ++ sha256 ip

unfoldable pub totp_uid_ip_key : (List ℕ → List ℕ) → ℕ → List ℕ → List ℕ
totp_uid_ip_key sha256 uid ip = bytes "auth:fail:totp:uid_ip:" ++ sha256 (print uid ++ b'|' ∷ ip)

unfoldable pub enroll_ip_key : (List ℕ → List ℕ) → List ℕ → List ℕ
enroll_ip_key sha256 ip = bytes "auth:fail:enroll:ip:" ++ sha256 ip

unfoldable pub mfa_uid_ip_key : (List ℕ → List ℕ) → ℕ → List ℕ → List ℕ
mfa_uid_ip_key sha256 uid ip = bytes "auth:fail:mfa:uid_ip:" ++ sha256 (print uid ++ b'|' ∷ ip)

module _ (redis : Redis) where
  -- `retryAfter`
  unfoldable pub retry_after : List ℕ → ℕ → ℕ → redis.Store → Option ℕ
  retry_after key max_failures now s =
      wait_of_count (redis.get key now s) max_failures (redis.ttl key now s)

  abbrev pub expire_first : List ℕ → ℕ → ℕ → Option ℕ × redis.Store → Bool × redis.Store
  expire_first key window now (none, s) = (false, s)
  expire_first key window now (some count, s) =
      if count == 1 then redis.expire key window now s else (true, s)

  -- `incrementFailure`: whether it met no error, and the store afterwards
  unfoldable pub increment_failure : List ℕ → ℕ → ℕ → redis.Store → Bool × redis.Store
  increment_failure key window now s = expire_first key window now (redis.incr key now s)

module _ (redis : Redis) (sha256 : List ℕ → List ℕ) where
  unfoldable pub check_login_rate_limit : List ℕ → List ℕ → ℕ → redis.Store → Option ℕ
  unfolding retry_after
  check_login_rate_limit email ip now s =
      longer (retry_after redis (login_email_ip_key sha256 email ip) login_max_failures now s)
        (retry_after redis (login_ip_key sha256 ip) ip_login_max_failures now s)

  abbrev pub and_ip : List ℕ → ℕ → Bool × redis.Store → Bool × redis.Store
  and_ip ip now (false, s) = (false, s)
  and_ip ip now (true, s) =
      increment_failure redis (login_ip_key sha256 ip) login_failure_window now s

  unfoldable pub record_login_failure : List ℕ → List ℕ → ℕ → redis.Store → Bool × redis.Store
  record_login_failure email ip now s =
      and_ip ip now
        (increment_failure redis (login_email_ip_key sha256 email ip) login_failure_window now s)

  unfoldable pub clear_login_failures : List ℕ → List ℕ → redis.Store → redis.Store
  clear_login_failures email ip s = redis.del (login_email_ip_key sha256 email ip) s

  unfoldable pub check_totp_rate_limit : ℕ → List ℕ → ℕ → redis.Store → Option ℕ
  check_totp_rate_limit uid ip = retry_after redis (totp_uid_ip_key sha256 uid ip) totp_max_failures

  unfoldable pub record_totp_failure : ℕ → List ℕ → ℕ → redis.Store → Bool × redis.Store
  record_totp_failure uid ip =
      increment_failure redis (totp_uid_ip_key sha256 uid ip) totp_failure_window

  unfoldable pub clear_totp_failures : ℕ → List ℕ → redis.Store → redis.Store
  clear_totp_failures uid ip = redis.del (totp_uid_ip_key sha256 uid ip)

  unfoldable pub check_enroll_rate_limit : List ℕ → ℕ → redis.Store → Option ℕ
  check_enroll_rate_limit ip = retry_after redis (enroll_ip_key sha256 ip) enroll_max_failures

  unfoldable pub record_enroll_failure : List ℕ → ℕ → redis.Store → Bool × redis.Store
  record_enroll_failure ip = increment_failure redis (enroll_ip_key sha256 ip) enroll_failure_window

  unfoldable pub check_mfa_rate_limit : ℕ → List ℕ → ℕ → redis.Store → Option ℕ
  check_mfa_rate_limit uid ip = retry_after redis (mfa_uid_ip_key sha256 uid ip) mfa_max_failures

  unfoldable pub record_mfa_failure : ℕ → List ℕ → ℕ → redis.Store → Bool × redis.Store
  record_mfa_failure uid ip =
      increment_failure redis (mfa_uid_ip_key sha256 uid ip) mfa_failure_window

  unfoldable pub clear_mfa_failures : ℕ → List ℕ → redis.Store → redis.Store
  clear_mfa_failures uid ip = redis.del (mfa_uid_ip_key sha256 uid ip)
