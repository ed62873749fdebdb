-- ===== src/Alerts/Metric.antt =====
-- The metric alerts (`checkMetricAlert`, `checkDiskUsageAlert`) over a sequence of evaluations.
use mosona_manager.Alerts.Types.{AlertItem, AlertRule, Float, hour}
use mosona_manager.Alerts.Check.{Outcome, check_metric_alert, advance}
use mosona_manager.Alerts.Rounds.{after_update, Round, delivery_times}
use mosona_manager.Prelude.{
  Bool, List, Option, [], arith, false, none, some, true, ℕ, ◌+◌, ◌<◌, ◌∷◌, ◌≡◌, ◌≤◌,
}

-- each time is more than an hour after the last one before it that was stored, and the first after
-- `last`
unfoldable pub Spaced : Option ℕ → List (ℕ × Bool) → Type 0
Spaced last [] = Unit
Spaced none ((t, true) ∷ ts) = Spaced (some t) ts
Spaced none ((t, false) ∷ ts) = Spaced none ts
Spaced (some s) ((t, true) ∷ ts) = (s + hour < t) × Spaced (some t) ts
Spaced (some s) ((t, false) ∷ ts) = (s + hour < t) × Spaced (some s) ts

Spaced-weaken : (last : Option ℕ) (ts : List (ℕ × Bool)) → Spaced last ts → Spaced none ts
unfolding Spaced
Spaced-weaken last [] h = tt
Spaced-weaken none (t ∷ ts) h = h
Spaced-weaken (some s) ((t, true) ∷ ts) h = h.1
Spaced-weaken (some s) ((t, false) ∷ ts) h = Spaced-weaken (some s) ts h.1

module _ (fl : Float) (item : AlertItem) where
  abbrev pub evaluate : Round fl.Value → AlertRule → Outcome fl.Value
  evaluate e r = check_metric_alert fl (λ _. e.answer) e.clock e.obs r item

  -- at every evaluation the metric is at or above the threshold, and the clock does not go back
  -- while the notice is sent
  abbrev pub EachExceeds : ℕ → List (Round fl.Value) → Type 0
  EachExceeds threshold [] = Unit
  EachExceeds threshold (e ∷ es) =
      (e.obs.present ≡ true)
      × (fl.ge e.obs.value (fl.of_int threshold) ≡ true)
      × (e.clock.now ≤ e.clock.sent_at)
      × EachExceeds threshold es

  Spaced-raised :
      (es : List (Round fl.Value)) (r : AlertRule)
      → r.last_status ≡ some true
      → EachExceeds r.threshold es
      → Spaced r.last_notify_at (delivery_times evaluate es r)
  unfolding Spaced delivery_times check_metric_alert after_update
  Spaced-raised [] r s h = tt
  Spaced-raised (e ∷ es) r s h =
      ground (arith, Spaced-raised es (advance r (evaluate e r)), Spaced-raised es r)

  -- While a metric stays at or above its threshold, and the clock does not go back while a notice
  -- is sent, every notice that arrives comes more than an hour after the last one whose update was
  -- stored, whichever deliveries and updates fail and whatever the rule's state was before. Only a
  -- notice whose update failed is followed by another sooner.
  pub delivery_times-Spaced :
      (es : List (Round fl.Value)) (r : AlertRule)
      → EachExceeds r.threshold es
      → Spaced none (delivery_times evaluate es r)
  unfolding Spaced delivery_times check_metric_alert after_update
  delivery_times-Spaced [] r h = tt
  delivery_times-Spaced (e ∷ es) r h =
      let r' = advance r (evaluate e r) in
      ground (
        arith,
        Spaced-raised es r',
        delivery_times-Spaced es r',
        delivery_times-Spaced es r,
        Spaced-weaken r'.last_notify_at (delivery_times evaluate es r'),
      )
