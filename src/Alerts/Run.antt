-- ===== src/Alerts/Run.antt =====
-- internal/task/alerts/run.go: one evaluation of all rules. The maps are association lists, whose
-- order is the order of iteration; the database answers are a `Table.Database` for each team.
use native.Mathlib.Decide.{ℕ_discrete}
use mosona_manager.Alerts.Types.{
  AlertItem, AlertItem-discrete, Float, AlertObservation, AlertRule, AlertRuleUpdate,
  ServerExpiryInfo, Notice, NotificationDelivery, TeamNotification, status, cpu_usage, memory_usage,
  disk_usage, read_iops, write_iops, bandwidth, expiry_reminder, ssh_login, other,
}
use mosona_manager.Alerts.Delivery.{Transport, notify_all}
use mosona_manager.Alerts.Check.{
  Clock, Outcome, check_status_alert, check_expiry_reminder_alert, check_disk_usage_alert,
  check_cpu_usage_alert, check_memory_usage_alert, check_read_iops_alert, check_write_iops_alert,
  check_bandwidth_alert,
}
use mosona_manager.Alerts.Table.{Table, Database, update_rule_status, alert_state_equal}
use mosona_manager.Prelude.{
  Bool, List, Option, [], false, find, get_or, if◌then◌else◌, is_some, none, some, store, ℕ, ◌++◌,
  ◌+◌, ◌∷◌,
}

-- `_type.ServerAlert`, and the copy of it that the loop makes
pub record ServerAlert : Type 0 where
  pub id : ℕ
  pub threshold : ℕ
  pub for_duration : ℕ
  pub last_status : Option Bool
  pub last_notify_at : Option ℕ

abbrev pub rule_of : ServerAlert → AlertRule
rule_of a = record {
  id = a.id;
  threshold = a.threshold;
  for_duration = a.for_duration;
  last_status = a.last_status;
  last_notify_at = a.last_notify_at;
}

abbrev pub Key : Type 0
Key = ℕ × AlertItem

pub Key-discrete : Discrete Key
Key-discrete = hlevel (ℕ_discrete, AlertItem-discrete)

-- `alertObservationSet`: `loaded` holds the keys whose query succeeded
pub record AlertObservationSet (F : Type 0) : Type 0 where
  pub values : List (Key × AlertObservation F)
  pub loaded : List (Key × Unit {0})

-- what the evaluation reads and calls, for one team
pub record Env (fl : Float) : Type 0 where
  pub observations : AlertObservationSet fl.Value
  pub expiry_map : List (ℕ × ServerExpiryInfo)
  pub notifications : List TeamNotification
  pub transport : ℕ → Notice fl.Value → Transport
  pub clock : ℕ → AlertItem → Clock

pub record RunState : Type 0 where
  pub update_queue : List AlertRuleUpdate
  pub skipped_rules : List (AlertItem × ℕ)
  pub total_skipped_rules : ℕ

module _ (fl : Float) where
  abbrev pub no_observation : AlertObservation fl.Value
  no_observation = record { present = false; value = fl.of_int 0; mount_point = "" }

  -- `get`: a key that is not in the map has the zero observation
  unfoldable pub get : AlertObservationSet fl.Value → Key → AlertObservation fl.Value × Bool
  get s key = (
    get_or (find Key-discrete key s.values) no_observation,
    is_some (find Key-discrete key s.loaded),
  )

  -- `setObservationForRule`; `none` is its answer false
  unfoldable pub set_observation_for_rule :
      AlertObservationSet fl.Value → ℕ → AlertItem → Option (AlertObservation fl.Value)
  unfolding get
  set_observation_for_rule s server_id expiry_reminder = some no_observation
  set_observation_for_rule s server_id ssh_login = some no_observation
  set_observation_for_rule s server_id item =
      let (observation, loaded) = get s (server_id, item) in
      if loaded then some observation else none

module _ (fl : Float) (env : Env fl) where
  unfoldable pub notify : ℕ → Notice fl.Value → NotificationDelivery
  notify server_id notice = notify_all (env.transport server_id notice) env.notifications

  -- the `switch` on the rule; `none` is `continue`
  unfoldable pub check_rule :
      ℕ → AlertItem → AlertObservation fl.Value → AlertRule → Option (Outcome fl.Value)
  check_rule s status obs r = some (check_status_alert (notify s) (env.clock s status) obs r)
  check_rule s cpu_usage obs r =
      some (check_cpu_usage_alert fl (notify s) (env.clock s cpu_usage) obs r)
  check_rule s memory_usage obs r =
      some (check_memory_usage_alert fl (notify s) (env.clock s memory_usage) obs r)
  check_rule s disk_usage obs r =
      some (check_disk_usage_alert fl (notify s) (env.clock s disk_usage) obs r)
  check_rule s read_iops obs r =
      some (check_read_iops_alert fl (notify s) (env.clock s read_iops) obs r)
  check_rule s write_iops obs r =
      some (check_write_iops_alert fl (notify s) (env.clock s write_iops) obs r)
  check_rule s bandwidth obs r =
      some (check_bandwidth_alert fl (notify s) (env.clock s bandwidth) obs r)
  check_rule s expiry_reminder obs r = some (
      check_expiry_reminder_alert (notify s) (env.clock s expiry_reminder)
        (find ℕ_discrete s env.expiry_map) r)
  check_rule s ssh_login obs r = none
  check_rule s (other t) obs r = none

  abbrev pub update_of : ServerAlert → Outcome fl.Value → AlertRuleUpdate
  update_of a o = record {
    id = a.id;
    last_status = o.last_status;
    last_notify_at = o.last_notify_at;
  }

  abbrev pub skip : AlertItem → RunState → RunState
  skip item st = record st {
    skipped_rules =
        store AlertItem-discrete item (get_or (find AlertItem-discrete item st.skipped_rules) 0 + 1)
          st.skipped_rules;
    total_skipped_rules = st.total_skipped_rules + 1;
  }

  -- the end of a turn: an outcome is queued unless it changes nothing
  unfoldable pub enqueue : ServerAlert → Option (Outcome fl.Value) → RunState → RunState
  enqueue a none st = st
  enqueue a (some o) st =
      if alert_state_equal a.last_status o.last_status a.last_notify_at o.last_notify_at
      then st
      else record st { update_queue = st.update_queue ++ update_of a o ∷ [] }

  unfoldable pub after_observation :
      ℕ → AlertItem → ServerAlert → Option (AlertObservation fl.Value) → RunState → RunState
  unfolding enqueue
  after_observation s item a none st = skip item st
  after_observation s item a (some obs) st = enqueue a (check_rule s item obs (rule_of a)) st

  -- one turn of the loop over a server's rules
  unfoldable pub run_rule : ℕ → AlertItem → ServerAlert → RunState → RunState
  unfolding after_observation
  run_rule s item a st =
      after_observation s item a (set_observation_for_rule fl env.observations s item) st

  unfoldable pub run_rules : ℕ → List (AlertItem × ServerAlert) → RunState → RunState
  run_rules s [] st = st
  run_rules s ((item, a) ∷ rules) st = run_rules s rules (run_rule s item a st)

  unfoldable pub run_servers : List (ℕ × List (AlertItem × ServerAlert)) → RunState → RunState
  unfolding run_rules
  run_servers [] st = st
  run_servers ((s, rules) ∷ servers) st = run_servers servers (run_rules s rules st)

-- the loop over the teams: the skip counts go on, the queue starts anew for each team
unfoldable pub run_teams :
    (fl : Float)
    → List ((Env fl × Database) × List (ℕ × List (AlertItem × ServerAlert)))
    → RunState
    → Table
    → RunState × Table
unfolding run_servers
run_teams fl [] st t = (st, t)
run_teams fl (((env, db), rules) ∷ teams) st t =
    let st' = run_servers fl env rules (record st { update_queue = [] }) in
    run_teams fl teams st' (update_rule_status db st'.update_queue t).0
