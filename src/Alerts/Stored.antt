-- ===== src/Alerts/Stored.antt =====
-- What a team's evaluation leaves in the table: each rule's row holds the outcome of its check.
use mathlib.Core.Path.{subst}
use mathlib.Core.List.{append-nil, append_assoc}
use native.Mathlib.Decide.{ℕ_discrete}
use mosona_manager.Alerts.Types.{AlertItem, Float, AlertObservation, AlertRuleUpdate}
use mosona_manager.Alerts.Check.{Outcome}
use mosona_manager.Alerts.Table.{
  RuleState, Table, alert_state_equal, apply_all, exec, alert_state_equal_iff, find-exec, Database,
  update_rule_status, Reliable, Reliable-update,
}
use mosona_manager.Alerts.Run.{
  ServerAlert, rule_of, Env, RunState, set_observation_for_rule, check_rule, update_of, run_rule,
  enqueue, after_observation, run_rules, run_servers,
}
use mosona_manager.Prelude.{
  Bool, Bool-cases, List, Option, [], ap, arith, find, if◌then◌else◌, inl, inr, none, refl, some,
  sym, ℕ, ◌++◌, ◌∙◌, ◌∷◌, ◌≡◌, ◌≢◌,
}

pub record Job : Type 0 where
  pub server_id : ℕ
  pub item : AlertItem
  pub alert : ServerAlert

abbrev pub stored : ServerAlert → RuleState
stored a = record { last_status = a.last_status; last_notify_at = a.last_notify_at }

abbrev pub jobs_of : ℕ → List (AlertItem × ServerAlert) → List Job → List Job
jobs_of s [] rest = rest
jobs_of s ((item, a) ∷ rules) rest =
    record { server_id = s; item = item; alert = a } ∷ jobs_of s rules rest

-- the rules of a team, in the order of the evaluation
abbrev pub all_jobs : List (ℕ × List (AlertItem × ServerAlert)) → List Job
all_jobs [] = []
all_jobs ((s, rules) ∷ servers) = jobs_of s rules (all_jobs servers)

-- no rule of the list has the id
abbrev pub Fresh : ℕ → List Job → Type 0
Fresh i [] = Unit
Fresh i (j ∷ js) = (j.alert.id ≢ i) × Fresh i js

abbrev pub Distinct : List Job → Type 0
Distinct [] = Unit
Distinct (j ∷ js) = Fresh j.alert.id js × Distinct js

-- each rule was loaded from its row
abbrev pub Loaded : Table → List Job → Type 0
Loaded t [] = Unit
Loaded t (j ∷ js) = (find ℕ_discrete j.alert.id t ≡ some (stored j.alert)) × Loaded t js

module _ (fl : Float) (env : Env fl) where
  abbrev pub state_after : ServerAlert → Option (Outcome fl.Value) → RuleState
  state_after a none = stored a
  state_after a (some o) = record { last_status = o.last_status; last_notify_at = o.last_notify_at }

  abbrev pub outcome : Job → Option (AlertObservation fl.Value) → Option (Outcome fl.Value)
  outcome j none = none
  outcome j (some obs) = check_rule fl env j.server_id j.item obs (rule_of j.alert)

  -- The state that a rule should have: its check's outcome on its observation, and the old state
  -- where the observation was not loaded or the item is not checked here.
  unfoldable pub expected : Job → RuleState
  expected j =
      state_after j.alert
        (outcome j (set_observation_for_rule fl env.observations j.server_id j.item))

  -- each rule's row holds what is expected
  abbrev pub Stored : Table → List Job → Type 0
  Stored t [] = Unit
  Stored t (j ∷ js) = (find ℕ_discrete j.alert.id t ≡ some (expected j)) × Stored t js

  -- the updates that one rule queues: at most one
  abbrev update_list : ServerAlert → Option (Outcome fl.Value) → List AlertRuleUpdate
  update_list a none = []
  update_list a (some o) =
      if alert_state_equal a.last_status o.last_status a.last_notify_at o.last_notify_at
      then []
      else update_of fl env a o ∷ []

  updates : Job → List AlertRuleUpdate
  updates j =
      update_list j.alert
        (outcome j (set_observation_for_rule fl env.observations j.server_id j.item))

  all_updates : List Job → List AlertRuleUpdate
  all_updates [] = []
  all_updates (j ∷ js) = updates j ++ all_updates js

  enqueue_queue :
      (a : ServerAlert) (o : Option (Outcome fl.Value)) (st : RunState)
      → (enqueue fl env a o st).update_queue ≡ st.update_queue ++ update_list a o
  unfolding enqueue
  enqueue_queue a none st = sym (append-nil _)
  enqueue_queue a (some o) st = elim (Bool-cases (unchanged o)) [
    | inl e ↦ rw (e, append-nil)
    | inr e ↦ rw e
  ]
    where
      unchanged : Outcome fl.Value → Bool
      unchanged o = alert_state_equal a.last_status o.last_status a.last_notify_at o.last_notify_at

  after_queue :
      (s : ℕ) (item : AlertItem) (a : ServerAlert) (st : RunState)
      (obs : Option (AlertObservation fl.Value))
      → (after_observation fl env s item a obs st).update_queue
        ≡ st.update_queue
          ++ update_list a (outcome (record { server_id = s; item = item; alert = a }) obs)
  unfolding after_observation
  after_queue s item a st none = sym (append-nil _)
  after_queue s item a st (some obs) = enqueue_queue a (check_rule fl env s item obs (rule_of a)) st

  run_rules_queue :
      (s : ℕ) (rules : List (AlertItem × ServerAlert)) (st : RunState) (rest : List Job)
      → (run_rules fl env s rules st).update_queue ++ all_updates rest
        ≡ st.update_queue ++ all_updates (jobs_of s rules rest)
  unfolding run_rules run_rule all_updates updates
  run_rules_queue s [] st rest = refl
  run_rules_queue s ((item, a) ∷ rules) st rest =
      let j : Job = record { server_id = s; item = item; alert = a } in
      run_rules_queue s rules (run_rule fl env s item a st) rest
      ∙ ap (λ q. q ++ all_updates (jobs_of s rules rest)) (after_queue s item a st _)
      ∙ append_assoc st.update_queue (updates j) (all_updates (jobs_of s rules rest))

  run_servers_queue :
      (servers : List (ℕ × List (AlertItem × ServerAlert))) (st : RunState)
      → (run_servers fl env servers st).update_queue
        ≡ st.update_queue ++ all_updates (all_jobs servers)
  unfolding run_servers all_updates
  run_servers_queue [] st = sym (append-nil _)
  run_servers_queue ((s, rules) ∷ servers) st =
      run_servers_queue servers (run_rules fl env s rules st)
      ∙ run_rules_queue s rules st (all_jobs servers)

  apply_all-append :
      (us vs : List AlertRuleUpdate) (t : Table)
      → apply_all (us ++ vs) t ≡ apply_all vs (apply_all us t)
  unfolding apply_all
  apply_all-append [] vs t = refl
  apply_all-append (u ∷ us) vs t = apply_all-append us vs (exec u t)

  find_expected_of :
      (a : ServerAlert) (o : Option (Outcome fl.Value)) (t : Table)
      → find ℕ_discrete a.id t ≡ some (stored a)
      → find ℕ_discrete a.id (apply_all (update_list a o) t) ≡ some (state_after a o)
  unfolding apply_all
  find_expected_of a none t h = h
  find_expected_of a (some o) t h = ground (
    arith,
    alert_state_equal_iff a.last_status o.last_status a.last_notify_at o.last_notify_at,
    find-exec (update_of fl env a o) a.id t (stored a) h,
  )

  find-expected :
      (j : Job) (t : Table)
      → find ℕ_discrete j.alert.id t ≡ some (stored j.alert)
      → find ℕ_discrete j.alert.id (apply_all (updates j) t) ≡ some (expected j)
  unfolding updates expected
  find-expected j = find_expected_of j.alert (outcome j _)

  find_other_of :
      (a : ServerAlert) (o : Option (Outcome fl.Value)) (i : ℕ) (t : Table) (s : RuleState)
      → a.id ≢ i
      → find ℕ_discrete i t ≡ some s
      → find ℕ_discrete i (apply_all (update_list a o) t) ≡ some s
  unfolding apply_all
  find_other_of a none i t s ne h = h
  find_other_of a (some o) i t s ne h = ground (arith, find-exec (update_of fl env a o) i t s h)

  -- the rows of the other rules are as they were
  keeps :
      (j : Job) (i : ℕ) (t : Table) (s : RuleState)
      → j.alert.id ≢ i
      → find ℕ_discrete i t ≡ some s
      → find ℕ_discrete i (apply_all (updates j) t) ≡ some s
  unfolding updates
  keeps j i t s = find_other_of j.alert (outcome j _) i t s

  keeps_all :
      (js : List Job) (i : ℕ) (t : Table) (s : RuleState)
      → Fresh i js
      → find ℕ_discrete i t ≡ some s
      → find ℕ_discrete i (apply_all (all_updates js) t) ≡ some s
  unfolding all_updates apply_all
  keeps_all [] i t s fresh h = h
  keeps_all (j ∷ js) i t s fresh h =
      rw (apply_all-append (updates j) (all_updates js) t)
        (keeps_all js i (apply_all (updates j) t) s fresh.1 (keeps j i t s fresh.0 h))

  Loaded-keeps :
      (j : Job) (js : List Job) (t : Table)
      → Fresh j.alert.id js
      → Loaded t js
      → Loaded (apply_all (updates j) t) js
  Loaded-keeps j [] t fresh h = tt
  Loaded-keeps j (k ∷ js) t fresh h = (
    keeps j k.alert.id t (stored k.alert) (λ e. fresh.0 (sym e)) h.0,
    Loaded-keeps j js t fresh.1 h.1,
  )

  all-Stored :
      (js : List Job) (t : Table)
      → Distinct js
      → Loaded t js
      → Stored (apply_all (all_updates js) t) js
  unfolding all_updates
  all-Stored [] t d h = tt
  all-Stored (j ∷ js) t d h =
      let t' = apply_all (updates j) t in
      let split = sym (apply_all-append (updates j) (all_updates js) t) in
      subst (λ u. Stored u (j ∷ js)) split
        (
          keeps_all js j.alert.id t' (expected j) d.0 (find-expected j t h.0),
          all-Stored js t' d.1 (Loaded-keeps j js t d.0 h.1),
        )

  -- For any rules with distinct ids that were loaded from the table, an evaluation whose
  -- transaction meets no error leaves in each rule's row the outcome of that rule's own check on
  -- its own observation, and leaves as they were the rows of the rules whose observation could
  -- not be loaded or whose item is not evaluated here.
  pub run_servers-Stored :
      (db : Database) (servers : List (ℕ × List (AlertItem × ServerAlert))) (st : RunState)
      (t : Table)
      → Reliable db
      → Distinct (all_jobs servers)
      → Loaded t (all_jobs servers)
      → st.update_queue ≡ []
      → Stored
          (update_rule_status db (run_servers fl env servers st).update_queue t).0
          (all_jobs servers)
  run_servers-Stored db servers st t ok distinct loaded e =
      rw
        (
          Reliable-update db (run_servers fl env servers st).update_queue t ok,
          run_servers_queue servers st,
          e,
        )
        (all-Stored (all_jobs servers) t distinct loaded)
