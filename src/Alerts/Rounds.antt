-- ===== src/Alerts/Rounds.antt =====
-- One rule over a sequence of evaluations, for any of the checks: what the channels received.
use mosona_manager.Alerts.Types.{AlertRule, AlertObservation, Notice, NotificationDelivery}
use mosona_manager.Alerts.Check.{Clock, Outcome, advance}
use mosona_manager.Prelude.{Bool, List, Option, [], if◌then◌else◌, none, some, true, ℕ, ◌∷◌, ◌≡◌}

-- what was observed, the clocks, the answer of the channels, should they be asked, and whether the
-- transaction of `updateRuleStatus` succeeds; where it fails, `Run` logs that and goes on
pub record Round (F : Type 0) : Type 0 where
  pub obs : AlertObservation F
  pub clock : Clock
  pub answer : NotificationDelivery
  pub stored : Bool

abbrev pub EachAttempted : {F : Type 0} → List (Round F) → Type 0
EachAttempted [] = Unit
EachAttempted (e ∷ es) = (e.answer.attempted ≡ true) × EachAttempted es

abbrev pub note : {A : Type 0} → Bool → Option A → List A → List A
note true (some n) l = n ∷ l
note _ _ l = l

-- the rule as the next evaluation reads it
unfoldable pub after_update : {F : Type 0} → Bool → AlertRule → Outcome F → AlertRule
after_update stored r o = if stored then advance r o else r

module _ {F : Type 0} (check : Round F → AlertRule → Outcome F) where
  -- the notices that reached a channel, in order, each with whether its update was stored
  unfoldable pub delivered : List (Round F) → AlertRule → List (Notice F × Bool)
  unfolding after_update
  delivered [] r = []
  delivered (e ∷ es) r =
      let o = check e r in
      note o.delivery.delivered (with_update e.stored o.sent)
        (delivered es (after_update e.stored r o))
    where
      with_update : {A : Type 0} → Bool → Option A → Option (A × Bool)
      with_update stored none = none
      with_update stored (some a) = some (a, stored)

  -- the times of the notices that reached a channel
  unfoldable pub delivery_times : List (Round F) → AlertRule → List (ℕ × Bool)
  unfolding after_update
  delivery_times [] r = []
  delivery_times (e ∷ es) r =
      let o = check e r in
      note o.delivery.delivered (some (e.clock.sent_at, e.stored))
        (delivery_times es (after_update e.stored r o))
