-- ===== src/Alerts/Status.antt =====
-- The status alert (`checkStatusAlert`) over a sequence of evaluations of one rule.
use mosona_manager.Alerts.Types.{
  AlertRule, AlertObservation, Notice, NotificationDelivery, server_up, server_down,
}
use mosona_manager.Alerts.Check.{Clock, Outcome, advance, check_status_alert}
use mosona_manager.Alerts.Rounds.{after_update, Round, EachAttempted, delivered}
use mosona_manager.Prelude.{
  Bool, List, Option, [], arith, false, not, refl, some, true, ◌∷◌, ◌≡◌, ◌⊎◌,
}

abbrev pub evaluate : {F : Type 0} → Round F → AlertRule → Outcome F
evaluate e r = check_status_alert (λ _. e.answer) e.clock e.obs r

-- whether every notice is the opposite of the state that was stored before it; the flag says that
-- this is up. A notice changes it where its update is stored.
unfoldable pub is_alternating : {F : Type 0} → Bool → List (Notice F × Bool) → Bool
is_alternating up [] = true
is_alternating true ((server_down d, stored) ∷ l) = is_alternating (not stored) l
is_alternating false ((server_up, stored) ∷ l) = is_alternating stored l
is_alternating _ _ = false

abbrev pub is_up : Option Bool → Bool
is_up (some false) = false
is_up _ = true

module _ {F : Type 0} where
  -- However the server comes and goes, and whichever deliveries and updates of the rule's row fail,
  -- where a team has a channel each notice that arrives is the opposite of the state last stored (a
  -- rule without one counts as up). So the notices alternate between down and up, but for those
  -- whose update then failed: these leave the state as it was.
  pub delivered-is_alternating :
      (es : List (Round F)) (r : AlertRule)
      → EachAttempted es
      → is_alternating (is_up r.last_status) (delivered evaluate es r) ≡ true
  unfolding delivered is_alternating check_status_alert after_update
  delivered-is_alternating [] r h = refl
  delivered-is_alternating (e ∷ es) r h = ground (
    arith,
    delivered-is_alternating es (advance r (evaluate e r)) h.1,
    delivered-is_alternating es r h.1,
  )

  -- After an evaluation the rule's stored state is what was observed, unless a channel was tried
  -- and none took the notice: then the rule is as before, and the next evaluation of the same
  -- observation tries the same notice again.
  check_status_alert_settles :
      (notify again : Notice F → NotificationDelivery) (clock later : Clock)
      (obs : AlertObservation F) (r : AlertRule)
      → let o = check_status_alert notify clock obs r in
        (o.last_status ≡ some obs.present)
        ⊎ ((advance r o ≡ r)
            × (o.delivery.attempted ≡ true)
            × (o.delivery.delivered ≡ false)
            × ((check_status_alert again later obs (advance r o)).sent ≡ o.sent))
  unfolding check_status_alert
  check_status_alert_settles notify again clock later obs r = ground arith
