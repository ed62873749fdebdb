-- ===== src/Alerts/Table.antt =====
-- The rows of `server_alerts` that an evaluation writes, and `updateRuleStatus`
-- (internal/task/alerts/run.go), one transaction of updates.
use native.Mathlib.Decide.{ℕ_discrete}
use mosona_manager.Alerts.Types.{AlertRuleUpdate}
use mosona_manager.Prelude.{
  Bool, List, Option, [], arith, false, find, if◌then◌else◌, inl, inr, none, not, refl, same, some,
  true, ℕ, ◌&&◌, ◌+◌, ◌==◌, ◌↔◌, ◌∷◌, ◌≡◌, ◌⊎◌,
}

-- a rule's stored state
pub record RuleState : Type 0 where
  pub last_status : Option Bool
  pub last_notify_at : Option ℕ

-- the columns `last_status` and `last_notify_at` by `id`
abbrev pub Table : Type 0
Table = List (ℕ × RuleState)

abbrev pub state_of : AlertRuleUpdate → RuleState
state_of u = record { last_status = u.last_status; last_notify_at = u.last_notify_at }

-- UPDATE … SET last_status, last_notify_at WHERE id: no row is made
unfoldable pub exec : AlertRuleUpdate → Table → Table
exec u [] = []
exec u ((i, s) ∷ t) = if i == u.id then (i, state_of u) ∷ exec u t else (i, s) ∷ exec u t

-- What the database answers: whether the transaction begins, the statement is prepared, the n-th
-- update runs and the transaction commits.
pub record Database : Type 0 where
  pub begins : Bool
  pub prepares : Bool
  pub runs : ℕ → Bool
  pub commits : Bool

-- the loop over the queue; `none` is an error that rolls the transaction back
unfoldable pub exec_all : Database → ℕ → List AlertRuleUpdate → Table → Option Table
unfolding exec
exec_all db n [] t = some t
exec_all db n (u ∷ us) t =
    let rest = exec_all db (n + 1) us (exec u t) in if db.runs n then rest else none

abbrev pub commit : Bool → Option Table → Table → Table × Bool
commit true (some t') t = (t', true)
commit _ _ t = (t, false)

-- `updateRuleStatus`: the table afterwards, and whether it returned no error
unfoldable pub update_rule_status : Database → List AlertRuleUpdate → Table → Table × Bool
update_rule_status db [] t = (t, true)
update_rule_status db (u ∷ us) t =
    let done = commit db.commits (exec_all db 0 (u ∷ us) t) t in
    if not db.begins then (t, false) else if not db.prepares then (t, false) else done

-- `alertStateEqual`
unfoldable pub alert_state_equal : Option Bool → Option Bool → Option ℕ → Option ℕ → Bool
alert_state_equal none (some b) at at' = false
alert_state_equal (some a) none at at' = false
alert_state_equal none none none none = true
alert_state_equal none none (some t) (some u) = t == u
alert_state_equal none none at at' = false
alert_state_equal (some a) (some b) none none = same a b
alert_state_equal (some a) (some b) (some t) (some u) = same a b && t == u
alert_state_equal (some a) (some b) at at' = false

-- all updates of a queue, in order
unfoldable pub apply_all : List AlertRuleUpdate → Table → Table
unfolding exec
apply_all [] t = t
apply_all (u ∷ us) t = apply_all us (exec u t)

exec_all_lem :
    (db : Database) (n : ℕ) (us : List AlertRuleUpdate) (t : Table)
    → (exec_all db n us t ≡ none) ⊎ (exec_all db n us t ≡ some (apply_all us t))
unfolding exec_all apply_all
exec_all_lem db n [] t = inr refl
exec_all_lem db n (u ∷ us) t = ground (arith, exec_all_lem db (n + 1) us (exec u t))

-- The updates of a queue are stored all together or not at all: without an error the table has
-- each of them applied in order, and with an error it is as it was, wherever the transaction
-- failed.
pub update_rule_status_atomic :
    (db : Database) (us : List AlertRuleUpdate) (t : Table)
    → (update_rule_status db us t ≡ (apply_all us t, true))
      ⊎ (update_rule_status db us t ≡ (t, false))
unfolding update_rule_status apply_all
update_rule_status_atomic db [] t = inl refl
update_rule_status_atomic db (u ∷ us) t = ground (arith, exec_all_lem db 0 (u ∷ us) t)

-- The evaluation takes a rule's state for unchanged exactly when status and time are both equal.
pub alert_state_equal_iff :
    (a b : Option Bool) (t u : Option ℕ) → (alert_state_equal a b t u ≡ true) ↔ ((a ≡ b) × (t ≡ u))
unfolding alert_state_equal
alert_state_equal_iff a b t u = ground arith

pub find-exec :
    (u : AlertRuleUpdate) (i : ℕ) (t : Table) (s : RuleState)
    → find ℕ_discrete i t ≡ some s
    → find ℕ_discrete i (exec u t) ≡ (if i == u.id then some (state_of u) else some s)
unfolding find exec
find-exec u i [] s h = cc
find-exec u i ((j, w) ∷ t) s h = ground (arith, find-exec u i t s)

-- a database that meets no error
pub record Reliable (db : Database) : Type 0 where
  pub begins : db.begins ≡ true
  pub prepares : db.prepares ≡ true
  pub runs : (n : ℕ) → db.runs n ≡ true
  pub commits : db.commits ≡ true

exec_all-Reliable :
    (db : Database) (n : ℕ) (us : List AlertRuleUpdate) (t : Table)
    → Reliable db
    → exec_all db n us t ≡ some (apply_all us t)
unfolding exec_all apply_all
exec_all-Reliable db n [] t ok = refl
exec_all-Reliable db n (u ∷ us) t ok =
    rw (ok.runs n) (exec_all-Reliable db (n + 1) us (exec u t) ok)

pub Reliable-update :
    (db : Database) (us : List AlertRuleUpdate) (t : Table)
    → Reliable db
    → (update_rule_status db us t).0 ≡ apply_all us t
unfolding update_rule_status apply_all
Reliable-update db [] t ok = refl
Reliable-update db (u ∷ us) t ok =
    ground (arith, ok.begins, ok.prepares, ok.commits, exec_all-Reliable db 0 (u ∷ us) t ok)
