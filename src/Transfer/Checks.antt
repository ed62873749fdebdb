-- ===== src/Transfer/Checks.antt =====
-- What an import checks and normalises before its transaction: SSH host keys, the keys and UIDs of
-- the Agents, and the notification targets.
use Prim.Native.String.{String}
use mosona_manager.Identity.{Bytes-discrete}
use mathlib.Core.Logic.{ite}
use mosona_manager.Transfer.Bundle.{Ssh, Agent, Server, Notification}
use mosona_manager.Transfer.Database.{
  Failures, ServerRow, AgentRow, Attached, Database, Result, and_then, query, rows_of,
  reads_agent_uids, invalid_notification, invalid_import, agent_uid_conflict,
}
use mosona_manager.Transfer.Page.{is_empty}
use mosona_manager.Prelude.{
  Bool, List, Option, [], bytes, false, find, get_or, if◌then◌else◌, inl, inr, is_some, length, ltb,
  none, not, some, store, true, ℕ, ◌&&◌, ◌++◌, ◌==◌, ◌||◌, ◌∷◌,
}

-- What other packages do: trimming and lower case of `strings`, `btrim` and the equality of
-- `char(36)` of PostgreSQL, the PEM and host keys that the crypto libraries read and write,
-- addresses of `net/mail`, whether a target of Shoutrrr is valid, and the order of a map.
pub record Library : Type 0 where
  pub trim_space : List ℕ → List ℕ
  pub to_lower : List ℕ → List ℕ
  pub btrim : List ℕ → List ℕ
  pub same_uid : List ℕ → List ℕ → Bool
  pub reads_private_key : List ℕ → Bool
  pub public_key_pem : List ℕ → Option (List ℕ)
  pub host_key : List ℕ → Option (List ℕ)
  pub parse_address : List ℕ → Option (List ℕ)
  pub is_valid_target : List ℕ → Bool
  -- the entry at which `range` over a map starts
  pub range_start : List (ℕ × ℕ) → ℕ

abbrev pub cons_result : {A : Type 0} → A → Result (List A) → Result (List A)
cons_result a (inl e) = inl e
cons_result a (inr as_) = inr (a ∷ as_)

-- `append` after a step that may fail; the first error counts
abbrev pub append_result : {A : Type 0} → Result A → Result (List A) → Result (List A)
append_result (inl e) rest = inl e
append_result (inr a) rest = cons_result a rest

module _ (lib : Library) where
  -- the private key of `normalizeImportedAgentKeys`, by the server's type
  unfoldable pub normalized_private_key : ℕ → String → List ℕ → Result (List ℕ)
  normalized_private_key type_ name key =
      if type_ == 1
      then (let trimmed = lib.trim_space key ++ 10 ∷ [] in
          if lib.reads_private_key trimmed then inr trimmed else inl (invalid_import name))
      else if type_ == 2
      then inr []
      else inr key

  abbrev pub or_invalid : {A : Type 0} → String → Option A → Result A
  or_invalid name none = inl (invalid_import name)
  or_invalid name (some a) = inr a

  unfoldable pub normalized_public_key : String → List ℕ → Result (List ℕ)
  normalized_public_key name key =
      let raw = lib.trim_space key in
      if is_empty raw then inr [] else or_invalid name (lib.public_key_pem raw)

  unfoldable pub normalized_agent : Server → Agent → Result Agent
  unfolding normalized_private_key normalized_public_key
  normalized_agent s agent =
      and_then (normalized_private_key s.type_ s.name agent.private_key) (λ private_.
        and_then (normalized_public_key s.name agent.public_key) (λ public_. inr (record agent {
          agent_uid = lib.trim_space agent.agent_uid;
          private_key = private_;
          public_key = public_;
        })))

  abbrev pub with_agent : Server → Result Agent → Result Server
  with_agent s (inl e) = inl e
  with_agent s (inr agent) = inr (record s { agent = some agent })

  unfoldable pub normalized_server : Server → Option Agent → Result Server
  unfolding normalized_agent
  normalized_server s none = inr s
  normalized_server s (some agent) = with_agent s (normalized_agent s agent)

  unfoldable pub normalize_imported_agent_keys : List Server → Result (List Server)
  unfolding normalized_server
  normalize_imported_agent_keys [] = inr []
  normalize_imported_agent_keys (s ∷ ss) =
      append_result (normalized_server s s.agent) (normalize_imported_agent_keys ss)

  -- `inspectImportedSSHHostKeys`: the names of the servers that pin no host key
  unfoldable pub inspect_server : Server → Option Ssh → Result (List String) → Result (List String)
  inspect_server s none rest = if s.type_ == 0 then inl (invalid_import s.name) else rest
  inspect_server s (some ssh) rest =
      if not (s.type_ == 0)
      then rest
      else if is_empty ssh.host_key
      then cons_result s.name rest
      else if is_some (lib.host_key ssh.host_key)
      then rest
      else inl (invalid_import s.name)

  unfoldable pub inspect_imported_ssh_host_keys : List Server → Result (List String)
  unfolding inspect_server
  inspect_imported_ssh_host_keys [] = inr []
  inspect_imported_ssh_host_keys (s ∷ ss) =
      inspect_server s s.ssh (inspect_imported_ssh_host_keys ss)

  -- the UIDs of a bundle, each with the name of its first server
  abbrev pub Uids : Type 0
  Uids = List (List ℕ × String)

  abbrev pub uid_of : Option Agent → List ℕ
  uid_of none = []
  uid_of (some agent) = agent.agent_uid

  abbrev pub unless_seen : Option String → Server → List ℕ → Result Uids → Result Uids
  unless_seen (some earlier) s uid rest = inl (agent_uid_conflict s.name uid (some earlier))
  unless_seen none s uid rest = rest

  -- the loop of `preflightImportedAgentUIDs`
  unfoldable pub collect_uids : Uids → List Server → Result Uids
  collect_uids seen [] = inr seen
  collect_uids seen (s ∷ ss) =
      let uid = uid_of s.agent in
      let later =
        collect_uids (if is_empty uid then seen else store Bytes-discrete uid s.name seen) ss in
      if is_empty uid then later else unless_seen (find Bytes-discrete uid seen) s uid later

  abbrev pub stored_uid : Option AgentRow → List ℕ
  stored_uid none = []
  stored_uid (some row) = lib.btrim row.agent_uid

  -- the query: the first Agent of another team whose UID is in the bundle
  unfoldable pub foreign_uid : ℕ → Uids → List (ℕ × Attached) → List ServerRow → Option (List ℕ)
  unfolding find rows_of
  foreign_uid team seen rows [] = none
  foreign_uid team seen rows (s ∷ ss) =
      let uid = stored_uid (rows_of s.id rows).agent in
      let later = foreign_uid team seen rows ss in
      if not (s.team_id == team)
        && (is_some (rows_of s.id rows).agent && is_some (find Bytes-discrete uid seen))
      then some uid
      else later

  abbrev pub foreign_conflict : Uids → Option (List ℕ) → Result (Unit {0})
  foreign_conflict seen none = inr tt
  foreign_conflict seen (some uid) =
      inl (agent_uid_conflict (get_or (find Bytes-discrete uid seen) "") uid none)

  unfoldable pub ask_database : Failures → ℕ → Database → Uids → Result (Unit {0})
  unfolding foreign_uid query
  ask_database fails team db [] = inr tt
  ask_database fails team db (u ∷ us) =
      and_then (query fails reads_agent_uids db (foreign_uid team (u ∷ us) db.attached db.servers))
        (foreign_conflict (u ∷ us))

  unfoldable pub preflight_imported_agent_uids :
      Failures → ℕ → Database → List Server → Result (Unit {0})
  unfolding collect_uids ask_database
  preflight_imported_agent_uids fails team db ss =
      and_then (collect_uids [] ss) (ask_database fails team db)

  -- `NormalizeEntry` of internal/notification/validate.go
  abbrev pub max_target_length : ℕ
  max_target_length = 8192

  abbrev pub max_notification_count : ℕ
  max_notification_count = 100

  abbrev pub is_same_text : Option (List ℕ) → List ℕ → Bool
  is_same_text none t = false
  is_same_text (some u) t = ite (Bytes-discrete u t) true false

  unfoldable pub is_valid_entry : List ℕ → List ℕ → Bool
  is_valid_entry module_ target =
      if is_same_text (some module_) (bytes "email")
      then is_same_text (lib.parse_address target) target
      else if is_same_text (some module_) (bytes "shoutrrr")
      then lib.is_valid_target target
      else false

  unfoldable pub normalize_entry : Notification → Result Notification
  unfolding is_valid_entry
  normalize_entry n =
      let module_ = lib.to_lower (lib.trim_space n.module_name) in
      let target = lib.trim_space n.target in
      if is_empty target || ltb max_target_length (length target)
      then inl invalid_notification
      else if is_valid_entry module_ target
      then inr (record { module_name = module_; target = target })
      else inl invalid_notification

  unfoldable pub normalize_each : List Notification → Result (List Notification)
  unfolding normalize_entry
  normalize_each [] = inr []
  normalize_each (n ∷ ns) =
      let rest = normalize_each ns in
      if is_empty (lib.trim_space n.module_name) && is_empty (lib.trim_space n.target)
      then rest
      else append_result (normalize_entry n) rest

  unfoldable pub normalize_entries : List Notification → Result (List Notification)
  unfolding normalize_each
  normalize_entries ns =
      if ltb max_notification_count (length ns) then inl invalid_notification else normalize_each ns
