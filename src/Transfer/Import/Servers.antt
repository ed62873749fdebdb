-- ===== src/Transfer/Import/Servers.antt =====
-- `importServers`, `importServerConnection` and what they normalise
use mosona_manager.Encrypt.{ssh_password_context, agent_private_key_context, Cipher}
use mosona_manager.Transfer.Bundle.{
  Alert, ServerInfo, ServerInfoAdv, Ssh, Agent, EnrollToken, Server, no_info_adv,
}
use mosona_manager.Transfer.Database.{
  AgentRow, Attached, Database, Result, Tx, and_then, ◌>>=◌, ◌>>◌, pure, lift, Failures, exec,
  attach, inserts_server, inserts_info, inserts_info_adv, inserts_ssh, inserts_agent, inserts_token,
  inserts_alert, no_category, invalid_import, agent_uid_conflict,
}
use mosona_manager.Transfer.Page.{is_empty}
use mosona_manager.Transfer.Checks.{Library, or_invalid}
use mosona_manager.Transfer.Import.{returning, or_encryption_error, Renumbering, renumbered}
use Prim.Native.String.{String}
use mosona_manager.Prelude.{
  Bool, List, Option, [], false, get_or, if◌then◌else◌, inl, inr, none, not, same, some, suc, true,
  zero, ℕ, ◌&&◌, ◌++◌, ◌==◌, ◌||◌, ◌∷◌,
}

unfoldable pub normalize_imported_server_info : ℕ → ServerInfo → ServerInfo
normalize_imported_server_info type_ info =
    if type_ == 2
    then record info { os = none; county = none; area = none; open_time = none; online = false }
    else info

unfoldable pub normalize_imported_server_advanced_info : ℕ → ServerInfoAdv → ServerInfoAdv
normalize_imported_server_advanced_info type_ info = if type_ == 2 then no_info_adv else info

-- the Agent as it is stored: its times, address and version by `normalizeImportedAgentRuntime`
unfoldable pub normalize_imported_agent_runtime : ℕ → ℕ → Agent → Option ℕ × (String × String)
normalize_imported_agent_runtime now type_ agent =
    if type_ == 2
    then (none, ("", ""))
    else (some (get_or agent.last_seen_at now), (agent.last_ip, agent.last_version))

abbrev pub insert_server_row : ℕ → ℕ → Server → Database → Database
insert_server_row team category s db = record db {
  servers =
      db.servers
      ++ record {
        id = db.next_server;
        team_id = team;
        category = category;
        type_ = s.type_;
        name = s.name;
        allow_monitor = s.allow_monitor;
        allow_terminal = s.allow_terminal;
        public_visible = get_or s.public_visible true;
        weight = s.weight;
      }
        ∷ [];
  next_server = suc db.next_server;
}

-- the unique index on the UIDs that are not empty
unfoldable pub uid_taken : (List ℕ → List ℕ → Bool) → List ℕ → List (ℕ × Attached) → Bool
uid_taken same uid [] = false
uid_taken same uid ((id, rows) ∷ rest) = has_uid rows.agent || uid_taken same uid rest
  where
    has_uid : Option AgentRow → Bool
    has_uid none = false
    has_uid (some row) = same row.agent_uid uid

-- the value of an entry of a map, the last one for an index past it; 0 where the map is empty
unfoldable pub value_at : ℕ → Renumbering → ℕ
value_at i [] = 0
value_at zero ((ref, id) ∷ m) = id
value_at (suc i) ((ref, id) ∷ []) = id
value_at (suc i) ((ref, id) ∷ next ∷ m) = value_at i (next ∷ m)

-- the value of the entry that `range` over the map meets first
unfoldable pub default_category : Library → Renumbering → ℕ
unfolding value_at
default_category lib m = value_at (lib.range_start m) m

abbrev pub or_default : ℕ → ℕ → ℕ
or_default id default = if id == 0 then default else id

module _ (lib : Library) (cipher : Cipher) (fails : Failures) (now team : ℕ) (trust : Bool) where
  unfoldable pub normalize_imported_agent_protocol : ℕ → Agent → ℕ
  normalize_imported_agent_protocol type_ agent =
      if not (is_empty (lib.trim_space agent.public_key))
      then 2
      else if type_ == 1 && (agent.protocol_version == 0 || agent.protocol_version == 1)
      then 1
      else 2

  -- the `host_key` column
  abbrev pub normalized_host_key : Server → List ℕ → Result (Option (List ℕ))
  normalized_host_key s [] = inr none
  normalized_host_key s (b ∷ bs) =
      and_then (or_invalid lib s.name (lib.host_key (b ∷ bs))) (λ key. inr (some key))

  unfoldable pub import_ssh : ℕ → Server → Renumbering → Option Ssh → Tx (Unit {0})
  import_ssh id s key_map none = lift (inl (invalid_import s.name))
  import_ssh id s key_map (some ssh) =
      if is_empty ssh.host_key && not trust
      then lift (inl (invalid_import s.name))
      else lift (or_encryption_error (cipher.encrypt_text ssh.password (ssh_password_context id)))
        >>= λ password. lift (normalized_host_key s ssh.host_key) >>= λ host_key.
            exec fails (inserts_ssh id) (
              attach id (λ rows. record rows {
                ssh = some (record {
                  address = ssh.address;
                  port = ssh.port;
                  username = ssh.username;
                  key_id = renumbered key_map ssh.key_ref;
                  password = password;
                  host_key = host_key;
                  trust_legacy_host_key = is_empty ssh.host_key;
                });
              }))

  abbrev pub stored_agent : Server → Agent → List ℕ → AgentRow
  stored_agent s agent private_key =
      let runtime = normalize_imported_agent_runtime now s.type_ agent in
      record {
        agent_uid = agent.agent_uid;
        status = agent.status;
        last_seen_at = runtime.0;
        last_ip = runtime.1.0;
        last_version = runtime.1.1;
        public_key = agent.public_key;
        private_key = private_key;
        protocol_version = normalize_imported_agent_protocol s.type_ agent;
        host = agent.host;
        port = agent.port;
      }

  abbrev pub stored_private_key : ℕ → Server → Agent → Result (List ℕ)
  stored_private_key id s agent =
      if s.type_ == 1
      then or_encryption_error
          (cipher.encrypt_text agent.private_key (agent_private_key_context id))
      else inr []

  -- the `INSERT`, which the index on the UIDs refuses
  abbrev pub insert_agent : ℕ → Server → AgentRow → Tx (Unit {0})
  insert_agent id s row db =
      if not (is_empty row.agent_uid) && uid_taken lib.same_uid row.agent_uid db.attached
      then inl (agent_uid_conflict s.name row.agent_uid none)
      else exec fails (inserts_agent id) (attach id (λ rows. record rows { agent = some row })) db

  unfoldable pub import_agent : ℕ → Server → Option Agent → Tx (Unit {0})
  import_agent id s none = pure tt
  import_agent id s (some agent) =
      lift (stored_private_key id s agent) >>= λ key. insert_agent id s (stored_agent s agent key)

  unfoldable pub import_token : ℕ → Option EnrollToken → Tx (Unit {0})
  import_token id none = pure tt
  import_token id (some token) =
      exec fails (inserts_token id) (attach id (λ rows. record rows { enroll_token = some token }))

  unfoldable pub import_server_connection : ℕ → Server → Renumbering → Tx (Unit {0})
  import_server_connection id s key_map =
      if s.type_ == 0
      then import_ssh id s key_map s.ssh
      else if s.type_ == 1 || s.type_ == 2
      then import_agent id s s.agent >> import_token id s.enroll_token
      else pure tt

  unfoldable pub import_alerts : ℕ → List Alert → Tx (Unit {0})
  import_alerts id [] = pure tt
  import_alerts id (a ∷ as_) =
      exec fails (inserts_alert id)
        (attach id (λ rows. record rows { alerts = rows.alerts ++ a ∷ [] }))
      >> import_alerts id as_

  unfoldable pub import_server_info : ℕ → Server → Tx (Unit {0})
  import_server_info id s = exec fails (inserts_info id) (
      attach id
        (λ rows. record rows { info = some (normalize_imported_server_info s.type_ s.info) }))

  unfoldable pub import_server_advanced_info : ℕ → Server → Tx (Unit {0})
  import_server_advanced_info id s = exec fails (inserts_info_adv id) (
      attach id (λ rows. record rows {
        info_adv = some (normalize_imported_server_advanced_info s.type_ s.advanced_info);
      }))

  unfoldable pub import_server : ℕ → Renumbering → Renumbering → Server → Tx ℕ
  import_server default category_map key_map s = do
    id ←
        returning fails inserts_server (λ db. db.next_server)
          (insert_server_row team (or_default (renumbered category_map s.category_ref) default) s)
    import_server_info id s
    import_server_advanced_info id s
    import_server_connection id s key_map
    import_alerts id s.alerts
    pure id

  unfoldable pub import_each_server : ℕ → Renumbering → Renumbering → List Server → Tx (List ℕ)
  import_each_server default category_map key_map [] = pure []
  import_each_server default category_map key_map (s ∷ ss) =
      import_server default category_map key_map s >>= λ id.
      import_each_server default category_map key_map ss >>= λ ids. pure (id ∷ ids)

  unfoldable pub import_servers : Renumbering → Renumbering → List Server → Tx (List ℕ)
  import_servers category_map key_map ss =
      let default = default_category lib category_map in
      if default == 0
      then lift (inl no_category)
      else import_each_server default category_map key_map ss
