-- ===== src/Alerts/Config.antt =====
-- internal/db/alert.go: the limits that a configured alert is held to. The two numbers come from
-- a form as Go `int`s, and may be negative.
use mosona_manager.Alerts.Types.{
  AlertItem, status, cpu_usage, memory_usage, disk_usage, read_iops, write_iops, bandwidth,
  expiry_reminder, ssh_login, other,
}
use mosona_manager.Prelude.{
  Bool, arith, false, if◌then◌else◌, ltb, negsuc, not, pos, true, ℕ, ℤ, ◌||◌, ◌↔◌, ◌≡◌, ◌≤◌, ◌⊎◌,
}

-- `_type.AlertFieldConfig`, without the default and the unit, which are shown only
pub record AlertFieldConfig : Type 0 where
  pub enabled : Bool
  pub min : ℕ
  pub max : ℕ

pub record AlertItemRule : Type 0 where
  pub threshold : AlertFieldConfig
  pub for_duration : AlertFieldConfig
  pub notify_once : Bool

pub data Result {ℓ} (A : Type ℓ) : Type ℓ where
  ok : A → Result A
  alert_not_found alert_invalid_config : Result A

infixl 5 ◌>>=◌
abbrev pub ◌>>=◌ {ℓ κ} : {A : Type ℓ} {B : Type κ} → Result A → (A → Result B) → Result B
ok a >>= f = f a
alert_not_found >>= f = alert_not_found
alert_invalid_config >>= f = alert_invalid_config

abbrev field : ℕ → ℕ → AlertFieldConfig
field lo hi = record { enabled = true; min = lo; max = hi }

abbrev disabled : AlertFieldConfig
disabled = record { enabled = false; min = 0; max = 0 }

abbrev limits : AlertFieldConfig → AlertFieldConfig → AlertItemRule
limits t d = record { threshold = t; for_duration = d; notify_once = false }

-- the map `alertItemRules`
unfoldable pub alert_item_rules : AlertItem → Result AlertItemRule
alert_item_rules status = ok (limits disabled (field 1 1440))
alert_item_rules cpu_usage = ok (limits (field 1 100) (field 1 1440))
alert_item_rules memory_usage = ok (limits (field 1 100) (field 1 1440))
alert_item_rules disk_usage = ok (limits (field 1 100) (field 1 1440))
alert_item_rules read_iops = ok (limits (field 1 1_000_000) (field 1 1440))
alert_item_rules write_iops = ok (limits (field 1 1_000_000) (field 1 1440))
alert_item_rules bandwidth = ok (limits (field 1 1_000_000) (field 1 1440))
alert_item_rules expiry_reminder =
    ok (record { threshold = field 1 7; for_duration = disabled; notify_once = true })
alert_item_rules ssh_login = ok (limits disabled disabled)
alert_item_rules (other s) = alert_not_found

unfoldable pub normalize_alert_field : ℤ → AlertFieldConfig → Result ℕ
normalize_alert_field (pos value) config =
    if not config.enabled
    then ok 0
    else if ltb value config.min || ltb config.max value
    then alert_invalid_config
    else ok value
normalize_alert_field (negsuc n) config = if not config.enabled then ok 0 else alert_invalid_config

unfoldable pub normalize_alert_config : AlertItem → ℤ → ℤ → Result (ℕ × ℕ)
unfolding alert_item_rules normalize_alert_field
normalize_alert_config item threshold for_duration = do
  rule ← alert_item_rules item
  threshold' ← normalize_alert_field threshold rule.threshold
  for_duration' ← normalize_alert_field for_duration rule.for_duration
  ok (threshold', for_duration')

-- Whatever numbers a form sends, an accepted configuration is within the item's limits: a
-- threshold of at most a million, a window of at most a day, at least one minute for every item
-- that is read from the metrics, 1 to 7 days for the expiry reminder, and 0 and 0 for SSH logins.
-- Writing the accepted numbers back changes nothing.
pub normalize_alert_config_bounds :
    (item : AlertItem) (threshold for_duration : ℤ) {t d : ℕ}
    → normalize_alert_config item threshold for_duration ≡ ok (t, d)
    → (t ≤ 1_000_000)
      × (d ≤ 1440)
      × ((item ≡ expiry_reminder) ⊎ (item ≡ ssh_login) ⊎ (1 ≤ d))
      × (item ≡ expiry_reminder → (1 ≤ t) × (t ≤ 7) × (d ≡ 0))
      × (item ≡ ssh_login → (t ≡ 0) × (d ≡ 0))
      × (normalize_alert_config item (pos t) (pos d) ≡ ok (t, d))
unfolding normalize_alert_config
normalize_alert_config_bounds status (pos t) d h = ground arith
normalize_alert_config_bounds item t d h = ground arith

-- A configuration is refused as unknown exactly when the code does not name the item.
pub normalize_alert_config_unknown :
    (item : AlertItem) (threshold for_duration : ℤ)
    → normalize_alert_config item threshold for_duration ≡ alert_not_found
      ↔ (alert_item_rules item ≡ alert_not_found)
unfolding normalize_alert_config
normalize_alert_config_unknown item t d = ground arith
