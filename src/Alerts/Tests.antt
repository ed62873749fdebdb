-- ===== src/Alerts/Tests.antt =====
-- The theorems on the alerts, at concrete rules, observations and channels.
use native.Mathlib.Decide.{ℕ_discrete}
use mosona_manager.Alerts.Types.{
  AlertItem, second, hour, Float, AlertObservation, AlertRule, NotificationDelivery, cpu_usage,
  memory_usage, disk_usage, expiry, ServerExpiryInfo, Notice,
}
use mosona_manager.Alerts.Check.{
  Clock, is_expiring, days_left, remind, check_expiry_at, check_expiry_reminder_alert,
}
use mosona_manager.Alerts.Rounds.{Round, delivered, delivery_times}
use mosona_manager.Alerts.Status
use mosona_manager.Alerts.Metric
use mosona_manager.Alerts.Expiry
use mosona_manager.Alerts.Table.{Table, Database, update_rule_status, Reliable}
use mosona_manager.Alerts.Run.{ServerAlert, Env, RunState, run_servers}
use mosona_manager.Alerts.Stored.{stored, all_jobs, Distinct, Stored, run_servers-Stored}
use mosona_manager.Prelude.{
  Bool, List, Option, [], arith, false, find, leb, none, refl, some, true, ℕ, ◌*◌, ◌+◌, ◌∷◌, ◌≡◌,
}

abbrev numbers : Float
numbers = record { Value = ℕ; of_int = λ n. n; ge = λ x y. leb y x }

abbrev took : NotificationDelivery
took = record { attempted = true; delivered = true }

abbrev refused : NotificationDelivery
refused = record { attempted = true; delivered = false }

abbrev seen : Bool → ℕ → AlertObservation ℕ
seen present value = record { present = present; value = value; mount_point = "" }

abbrev at_hour : ℕ → Clock
at_hour h = record { now = h * hour; sent_at = h * hour + second }

abbrev rule : AlertRule
rule = record {
  id = 4;
  threshold = 80;
  for_duration = 5;
  last_status = none;
  last_notify_at = none;
}

-- down (and no channel takes the notice), still down (and the update fails), still down, and up
abbrev rounds : List (Round ℕ)
rounds =
    record { obs = seen false 0; clock = at_hour 1; answer = refused; stored = true }
    ∷ record { obs = seen false 0; clock = at_hour 2; answer = took; stored = false }
    ∷ record { obs = seen false 0; clock = at_hour 2; answer = took; stored = true }
    ∷ record { obs = seen true 0; clock = at_hour 3; answer = took; stored = true }
    ∷ []

delivered-is_alternating_example :
    Status.is_alternating (Status.is_up rule.last_status) (delivered Status.evaluate rounds rule)
    ≡ true
delivered-is_alternating_example =
    Status.delivered-is_alternating rounds rule (refl, (refl, (refl, (refl, tt))))

abbrev high : ℕ → Round ℕ
high h = record { obs = seen true 90; clock = at_hour h; answer = took; stored = true }

delivery_times-Spaced_example :
    Metric.Spaced none
      (delivery_times (Metric.evaluate numbers cpu_usage) (high 1 ∷ high 2 ∷ high 4 ∷ []) rule)
delivery_times-Spaced_example =
    Metric.delivery_times-Spaced numbers cpu_usage (high 1 ∷ high 2 ∷ high 4 ∷ []) rule
      (refl, refl, omega arith, (refl, refl, omega arith, (refl, refl, omega arith, tt)))

abbrev week : AlertRule
week = record rule { threshold = 7 }

abbrev expires : ℕ
expires = 100 * hour

abbrev known : Option ServerExpiryInfo
known = some (record { end_time = some expires; auto_renew = false })

abbrev reminder : Notice ℕ
reminder = expiry 5 expires

check_expiry_reminder_alert_days_example :
    (t : ℕ) × (days : ℕ) × (known ≡ some (record { end_time = some t; auto_renew = false }))
    × Expiry.Announces (at_hour 1).now week reminder t days
unfolding check_expiry_reminder_alert check_expiry_at is_expiring remind days_left
check_expiry_reminder_alert_days_example =
    Expiry.check_expiry_reminder_alert_days (λ _. took) (at_hour 1) known week refl

delivered-IsOnce_example :
    Expiry.IsOnce expires (delivered (Expiry.evaluate expires) (high 1 ∷ high 2 ∷ []) week)
unfolding is_expiring
delivered-IsOnce_example =
    Expiry.delivered-IsOnce expires (high 1 ∷ high 2 ∷ []) week (refl, (refl, tt))

abbrev works : Database
works = record { begins = true; prepares = true; runs = λ n. true; commits = true }

works-Reliable : Reliable works
works-Reliable = record { begins = refl; prepares = refl; runs = λ n. refl; commits = refl }

abbrev alert : ServerAlert
alert = record {
  id = 4;
  threshold = 80;
  for_duration = 5;
  last_status = none;
  last_notify_at = none;
}

abbrev env : Env numbers
env = record {
  observations = record {
    values = ((7, cpu_usage), seen true 90) ∷ [];
    loaded = ((7, cpu_usage), tt) ∷ ((7, disk_usage), tt) ∷ [];
  };
  expiry_map = [];
  notifications = record { module_name = "email"; target = 97 ∷ [] } ∷ [];
  transport = λ s n. record {
    email_content = true;
    send_email = λ t. true;
    send_shoutrrr = λ t. false;
    cancelled = λ n. false;
  };
  clock = λ s item. at_hour 1;
}

-- an item that is evaluated and notified, one that was not loaded, and one that is quiet
abbrev servers : List (ℕ × List (AlertItem × ServerAlert))
servers =
    (
      7,
      (cpu_usage, alert)
          ∷ (memory_usage, record alert { id = 5 })
          ∷ (disk_usage, record alert { id = 6 })
          ∷ [],
    )
    ∷ []

abbrev table : Table
table = (4, stored alert) ∷ (5, stored alert) ∷ (6, stored alert) ∷ []

abbrev fresh : RunState
fresh = record { update_queue = []; skipped_rules = []; total_skipped_rules = 0 }

servers-Distinct : Distinct (all_jobs servers)
servers-Distinct =
    (((λ e. omega arith), ((λ e. omega arith), tt)), (((λ e. omega arith), tt), (tt, tt)))

run_servers-Stored_example :
    Stored numbers env
      (update_rule_status works (run_servers numbers env servers fresh).update_queue table).0
      (all_jobs servers)
unfolding find ℕ_discrete
run_servers-Stored_example =
    run_servers-Stored numbers env works servers fresh table works-Reliable servers-Distinct
      (refl, (refl, (refl, tt))) refl
