-- ===== src/Alerts/Expiry.antt =====
-- The expiry reminder (`checkExpiryReminderAlert`).
use mosona_manager.Alerts.Rounds.{after_update, Round, delivered}
use mosona_manager.Alerts.Types.{
  AlertRule, Notice, NotificationDelivery, ServerExpiryInfo, expiry, day,
}
use mosona_manager.Alerts.Check.{
  is_expiring, check_expiry_at, Clock, days_left, check_expiry_reminder_alert, Outcome, advance,
}
use mosona_manager.Prelude.{
  Bool, Bool-cases, List, Option, [], arith, false, inl, inr, none, refl, some, true, ℕ, ◌*◌, ◌+◌,
  ◌-◌, ◌<◌, ◌∷◌, ◌≡◌, ◌≤◌,
}

-- the days are the remaining time, rounded up
days_left_lem :
    (n : ℕ) → 0 < n → (n ≤ days_left n * day) × (days_left n * day < n + day) × (1 ≤ days_left n)
unfolding days_left
days_left_lem n h = ground arith

-- what a reminder announces
abbrev pub Announces : {F : Type 0} → ℕ → AlertRule → Notice F → ℕ → ℕ → Type 0
Announces now r n end_time days =
    (n ≡ expiry days end_time)
    × (now < end_time)
    × (end_time - now ≤ days * day)
    × (days * day < end_time - now + day)
    × (1 ≤ days)
    × (days ≤ r.threshold)

module _ {F : Type 0} (notify : Notice F → NotificationDelivery) (clock : Clock) where
  remind_days :
      (end_time : ℕ) (r : AlertRule) {n : Notice F}
      → (check_expiry_at notify clock (some end_time) r).sent ≡ some n
      → Announces clock.now r n end_time (days_left (end_time - clock.now))
  unfolding check_expiry_at
  remind_days end_time r h = ground (arith, days_left_lem (end_time - clock.now))

  expiry_at_days :
      (end_time : Option ℕ) (r : AlertRule) {n : Notice F}
      → (check_expiry_at notify clock end_time r).sent ≡ some n
      → (t : ℕ) × (days : ℕ) × (end_time ≡ some t) × Announces clock.now r n t days
  unfolding check_expiry_at
  expiry_at_days none r h = cc
  expiry_at_days (some t) r h = (t, days_left (t - clock.now), refl, remind_days t r h)

  -- A reminder goes out only for a server that is not renewed by itself and expires within the
  -- configured number of days; the days that it announces are the remaining time rounded up, at
  -- least 1 and at most the configured number.
  pub check_expiry_reminder_alert_days :
      (info : Option ServerExpiryInfo) (r : AlertRule) {n : Notice F}
      → (check_expiry_reminder_alert notify clock info r).sent ≡ some n
      → (t : ℕ) × (days : ℕ) × (info ≡ some (record { end_time = some t; auto_renew = false }))
        × Announces clock.now r n t days
  unfolding check_expiry_reminder_alert
  check_expiry_reminder_alert_days none r h = cc
  check_expiry_reminder_alert_days (some info) r h = elim (Bool-cases info.auto_renew) [
    | inl e ↦ absurd (cc (rw e at h))
    | inr e ↦
        let (t, days, at, facts) = expiry_at_days info.end_time r (rw e at h) in
        (t, days, ground arith, facts)
  ]

-- while the server keeps expiring: in every evaluation the reminder's conditions hold
abbrev pub EachExpiring : {F : Type 0} → ℕ → ℕ → List (Round F) → Type 0
EachExpiring end_time threshold [] = Unit
EachExpiring end_time threshold (e ∷ es) =
    (is_expiring e.clock.now end_time threshold ≡ true) × EachExpiring end_time threshold es

module _ {F : Type 0} (end_time : ℕ) where
  abbrev pub evaluate : Round F → AlertRule → Outcome F
  evaluate e =
      check_expiry_reminder_alert (λ _. e.answer) e.clock
        (some (record { end_time = some end_time; auto_renew = false }))

  silent_once_told :
      (es : List (Round F)) (r : AlertRule)
      → r.last_status ≡ some true
      → EachExpiring end_time r.threshold es
      → delivered evaluate es r ≡ []
  unfolding delivered check_expiry_reminder_alert after_update
  silent_once_told [] r s h = refl
  silent_once_told (e ∷ es) r s h =
      ground (arith, silent_once_told es (advance r (evaluate e r)), silent_once_told es r)

  -- no reminder after one whose update was stored
  unfoldable pub IsOnce : List (Notice F × Bool) → Type 0
  IsOnce [] = Unit
  IsOnce ((n, true) ∷ l) = l ≡ []
  IsOnce ((n, false) ∷ l) = IsOnce l

  -- While a server keeps expiring, no reminder arrives after one that arrived and whose update was
  -- stored, whichever deliveries and updates fail: where every update is stored at most one
  -- arrives, and it is repeated only as long as its update fails.
  pub delivered-IsOnce :
      (es : List (Round F)) (r : AlertRule)
      → EachExpiring end_time r.threshold es
      → IsOnce (delivered evaluate es r)
  unfolding delivered check_expiry_reminder_alert IsOnce after_update
  delivered-IsOnce [] r h = tt
  delivered-IsOnce (e ∷ es) r h =
      let r' = advance r (evaluate e r) in
      ground (arith, silent_once_told es r', delivered-IsOnce es r', delivered-IsOnce es r)
