-- ===== src/Alerts/FormTests.antt =====
-- The theorems on configurations and groups of servers, at concrete forms and batches.
use mosona_manager.Alerts.Types.{
  cpu_usage, expiry_reminder, ssh_login, AlertItem, AlertRule, memory_usage,
}
use mosona_manager.Alerts.Config.{
  alert_item_rules, normalize_alert_field, normalize_alert_config, normalize_alert_config_bounds,
  ok,
}
use mosona_manager.Alerts.Groups.{alert_duration_groups, servers_where, alert_duration_groups_lem}
use native.Mathlib.Decide.{ℕ_discrete}
use mosona_manager.Prelude.{
  List, [], find, get_or, none, not, pos, refl, ℕ, ◌&&◌, ◌==◌, ◌∷◌, ◌≡◌, ◌≤◌, ◌⊎◌,
}

abbrev percent : ℕ
percent = 80

abbrev for_minutes : ℕ
for_minutes = 5

normalize_alert_config_bounds_example :
    (80 ≤ 1_000_000)
    × (5 ≤ 1440)
    × ((cpu_usage ≡ expiry_reminder) ⊎ (cpu_usage ≡ ssh_login) ⊎ (1 ≤ 5))
    × (cpu_usage ≡ expiry_reminder → (1 ≤ 80) × (80 ≤ 7) × (for_minutes ≡ 0))
    × (cpu_usage ≡ ssh_login → (percent ≡ 0) × (for_minutes ≡ 0))
    × (normalize_alert_config cpu_usage (pos percent) (pos for_minutes) ≡ ok (percent, for_minutes))
unfolding normalize_alert_config normalize_alert_field alert_item_rules
normalize_alert_config_bounds_example =
    normalize_alert_config_bounds cpu_usage (pos percent) (pos for_minutes) refl

abbrev timed : ℕ → AlertRule
timed minutes = record {
  id = 1;
  threshold = 80;
  for_duration = minutes;
  last_status = none;
  last_notify_at = none;
}

-- three servers with a rule on the processor, and one with a rule on the memory
abbrev server_rules : List (ℕ × List (AlertItem × AlertRule))
server_rules =
    (7, (cpu_usage, timed 5) ∷ [])
    ∷ (8, (memory_usage, timed 5) ∷ [])
    ∷ (9, (cpu_usage, timed 0) ∷ [])
    ∷ (11, (cpu_usage, timed 5) ∷ [])
    ∷ []

alert_duration_groups_lem_example :
    (get_or
        (find ℕ_discrete 5
          (alert_duration_groups server_rules cpu_usage (7 ∷ 8 ∷ 9 ∷ 10 ∷ 11 ∷ [])).groups)
        []
      ≡ servers_where server_rules cpu_usage
          (λ n. n == 5 && not (5 == 0))
          (7 ∷ 8 ∷ 9 ∷ 10 ∷ 11 ∷ []))
    × ((alert_duration_groups server_rules cpu_usage (7 ∷ 8 ∷ 9 ∷ 10 ∷ 11 ∷ [])).requested
        ≡ servers_where server_rules cpu_usage (λ n. not (n == 0)) (7 ∷ 8 ∷ 9 ∷ 10 ∷ 11 ∷ []))
alert_duration_groups_lem_example =
    alert_duration_groups_lem server_rules cpu_usage 5 (7 ∷ 8 ∷ 9 ∷ 10 ∷ 11 ∷ [])
