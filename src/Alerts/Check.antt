-- ===== src/Alerts/Check.antt =====
-- internal/task/alerts/check.go. A check returns the rule's new status and time of the last
-- notice, and here also the notice that it tried to send. `notify` is the call of `notifyAll`
-- for the server, and the two clocks are the readings of `time.Now` before and after that call.
use mosona_manager.Alerts.Types.{
  AlertItem, AlertRule, AlertObservation, Float, Notice, NotificationDelivery, ServerExpiryInfo,
  hour, day, cpu_usage, memory_usage, read_iops, write_iops, bandwidth, metric, disk, server_up,
  server_down, expiry,
}
use mosona_manager.Prelude.{
  Bool, Option, false, if◌then◌else◌, leb, ltb, none, not, same, some, true, ℕ, ◌&&◌, ◌*◌, ◌+◌, ◌-◌,
  ◌/◌,
}

pub data StatusNotification : Type 0 where
  notification_none notification_down notification_up : StatusNotification

pub record Clock : Type 0 where
  pub now : ℕ
  pub sent_at : ℕ

pub record Outcome (F : Type 0) : Type 0 where
  pub last_status : Option Bool
  pub last_notify_at : Option ℕ
  pub sent : Option (Notice F)
  pub delivery : NotificationDelivery

unfoldable pub status_notification_for : Option Bool → Bool → StatusNotification
status_notification_for none current = if not current then notification_down else notification_none
status_notification_for (some last) current =
    if same last current
    then notification_none
    else if current
    then notification_up
    else notification_down

-- `r.lastNotifyAt == nil || time.Since(*r.lastNotifyAt) > time.Hour`
unfoldable pub is_stale : ℕ → Option ℕ → Bool
is_stale now none = true
is_stale now (some at) = ltb (at + hour) now

unfoldable pub is_news : ℕ → Bool → Option Bool → Option ℕ → Bool
unfolding is_stale
is_news now current none at = true
is_news now current (some last) at = if not (same last current) then true else is_stale now at

unfoldable pub should_notify : ℕ → Bool → AlertRule → Bool
unfolding is_news
should_notify now current r =
    if not current then false else is_news now current r.last_status r.last_notify_at

abbrev pub quiet : {F : Type 0} → Bool → AlertRule → Outcome F
quiet current r = record {
  last_status = some current;
  last_notify_at = r.last_notify_at;
  sent = none;
  delivery = record { attempted = false; delivered = false };
}

-- what every check does with the answer of `notifyAll`
unfoldable pub after_delivery :
    {F : Type 0} → ℕ → Bool → AlertRule → Notice F → NotificationDelivery → Outcome F
after_delivery sent_at current r notice d =
    if d.delivered
    then record {
      last_status = some current;
      last_notify_at = some sent_at;
      sent = some notice;
      delivery = d;
    }
    else if d.attempted
    then record {
      last_status = r.last_status;
      last_notify_at = r.last_notify_at;
      sent = some notice;
      delivery = d;
    }
    else record {
      last_status = some current;
      last_notify_at = r.last_notify_at;
      sent = some notice;
      delivery = d;
    }

-- the test of `checkExpiryReminderAlert`: 0 < remaining ≤ threshold days
unfoldable pub is_expiring : ℕ → ℕ → ℕ → Bool
is_expiring now end_time threshold = ltb now end_time && leb (end_time - now) (threshold * day)

unfoldable pub days_left : ℕ → ℕ
days_left remaining = let days = (remaining + day - 1) / day in if ltb days 1 then 1 else days

-- the rule as the next evaluation reads it, once `updateRuleStatus` has stored an outcome
abbrev pub advance : {F : Type 0} → AlertRule → Outcome F → AlertRule
advance r o = record r { last_status = o.last_status; last_notify_at = o.last_notify_at }

module _ {F : Type 0} (notify : Notice F → NotificationDelivery) (clock : Clock) where
  unfoldable pub notify_status : StatusNotification → Bool → AlertRule → Outcome F
  unfolding after_delivery
  notify_status notification_none current r = quiet current r
  notify_status notification_up current r =
      after_delivery clock.sent_at current r server_up (notify server_up)
  notify_status notification_down current r =
      after_delivery clock.sent_at current r (server_down r.for_duration)
        (notify (server_down r.for_duration))

  -- `checkStatusAlert`
  unfoldable pub check_status_alert : AlertObservation F → AlertRule → Outcome F
  unfolding status_notification_for notify_status
  check_status_alert obs r =
      notify_status (status_notification_for r.last_status obs.present) obs.present r

  -- the shared end of `checkMetricAlert` and `checkDiskUsageAlert`
  unfoldable pub notify_metric : Bool → AlertRule → Notice F → Outcome F
  unfolding should_notify after_delivery
  notify_metric current r notice =
      if should_notify clock.now current r
      then after_delivery clock.sent_at current r notice (notify notice)
      else quiet current r

  unfoldable pub remind : ℕ → AlertRule → Option Bool → Outcome F
  unfolding days_left after_delivery
  remind end_time r (some true) = quiet true r
  remind end_time r last =
      let notice = expiry (days_left (end_time - clock.now)) end_time in
      after_delivery clock.sent_at true r notice (notify notice)

  unfoldable pub check_expiry_at : Option ℕ → AlertRule → Outcome F
  unfolding is_expiring remind
  check_expiry_at none r = quiet false r
  check_expiry_at (some end_time) r =
      if not (is_expiring clock.now end_time r.threshold)
      then quiet false r
      else remind end_time r r.last_status

  -- `checkExpiryReminderAlert`; the first argument is the entry of `expiryMap`
  unfoldable pub check_expiry_reminder_alert : Option ServerExpiryInfo → AlertRule → Outcome F
  unfolding check_expiry_at
  check_expiry_reminder_alert none r = quiet false r
  check_expiry_reminder_alert (some info) r =
      if info.auto_renew then quiet false r else check_expiry_at info.end_time r

module _ (fl : Float) (notify : Notice fl.Value → NotificationDelivery) (clock : Clock)
    (obs : AlertObservation fl.Value) (r : AlertRule) where
  -- `checkMetricAlert`, with the item that its title and its message are for
  unfoldable pub check_metric_alert : AlertItem → Outcome fl.Value
  unfolding notify_metric
  check_metric_alert item =
      if not obs.present
      then quiet false r
      else notify_metric notify clock (fl.ge obs.value (fl.of_int r.threshold)) r
          (metric item obs.value r.for_duration r.threshold)

  unfoldable pub check_disk_usage_alert : Outcome fl.Value
  unfolding notify_metric
  check_disk_usage_alert =
      if not obs.present
      then quiet false r
      else notify_metric notify clock (fl.ge obs.value (fl.of_int r.threshold)) r
          (disk obs.mount_point obs.value r.for_duration r.threshold)

  abbrev pub check_cpu_usage_alert : Outcome fl.Value
  check_cpu_usage_alert = check_metric_alert cpu_usage

  abbrev pub check_memory_usage_alert : Outcome fl.Value
  check_memory_usage_alert = check_metric_alert memory_usage

  abbrev pub check_read_iops_alert : Outcome fl.Value
  check_read_iops_alert = check_metric_alert read_iops

  abbrev pub check_write_iops_alert : Outcome fl.Value
  check_write_iops_alert = check_metric_alert write_iops

  abbrev pub check_bandwidth_alert : Outcome fl.Value
  check_bandwidth_alert = check_metric_alert bandwidth
