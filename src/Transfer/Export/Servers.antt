-- ===== src/Transfer/Export/Servers.antt =====
-- `exportServers` and `exportServerConnection`
use mosona_manager.Encrypt.{ssh_password_context, agent_private_key_context, Cipher}
use mosona_manager.Transfer.Bundle.{Ssh, Agent, Server, SkippedServer, no_info, no_info_adv}
use mosona_manager.Transfer.Database.{
  ServerRow, SshRow, AgentRow, Attached, Database, TransferError, Result, and_then, Failures, query,
  rows_of, of_team, reads_servers, reads_info, reads_info_adv, reads_ssh, reads_agent, reads_token,
  reads_alerts, database_error, unreadable_server,
}
use mosona_manager.Transfer.Export.{Order, is_member}
use Prim.Native.String.{String}
use mosona_manager.Prelude.{
  Bool, List, Option, [], false, get_or, if◌then◌else◌, inl, inr, none, some, true, ℕ, ◌==◌, ◌||◌,
  ◌∷◌, ◌⊎◌,
}

abbrev pub server_of : ServerRow → Server
server_of row = record {
  ref_id = row.id;
  category_ref = row.category;
  type_ = row.type_;
  name = row.name;
  allow_monitor = row.allow_monitor;
  allow_terminal = row.allow_terminal;
  public_visible = some row.public_visible;
  weight = row.weight;
  info = no_info;
  advanced_info = no_info_adv;
  ssh = none;
  agent = none;
  enroll_token = none;
  alerts = [];
}

abbrev pub unreadable : Server → String → TransferError
unreadable s credential =
    unreadable_server
      (record { server_id = s.ref_id; server_name = s.name; credential = credential })

abbrev pub ssh_of : SshRow → List ℕ → Ssh
ssh_of row password = record {
  address = row.address;
  port = row.port;
  username = row.username;
  key_ref = row.key_id;
  password = password;
  host_key = get_or row.host_key [];
}

abbrev pub agent_of : AgentRow → List ℕ → Agent
agent_of row private_key = record {
  agent_uid = row.agent_uid;
  status = row.status;
  last_seen_at = row.last_seen_at;
  last_ip = row.last_ip;
  last_version = row.last_version;
  public_key = row.public_key;
  private_key = private_key;
  protocol_version = row.protocol_version;
  host = row.host;
  port = row.port;
}

-- what the loop returns and adds to the bundle
pub record ServersRead : Type 0 where
  pub servers : List Server
  pub skipped_servers : List SkippedServer

-- one server of the loop: `continue` with an entry, or an entry of the bundle
abbrev pub collect_server :
    Result (SkippedServer ⊎ Server) → Result ServersRead → Result ServersRead
collect_server (inl e) rest = inl e
collect_server (inr x) (inl e) = inl e
collect_server (inr (inl s)) (inr r) = inr (record r { skipped_servers = s ∷ r.skipped_servers })
collect_server (inr (inr s)) (inr r) = inr (record r { servers = s ∷ r.servers })

abbrev pub skipped_or_error : Bool → TransferError → Result (SkippedServer ⊎ Server)
skipped_or_error true (unreadable_server s) = inr (inl s)
skipped_or_error skip e = inl e

abbrev pub has_unreadable_key : List ℕ → Option Ssh → Bool
has_unreadable_key ids none = false
has_unreadable_key ids (some ssh) = is_member ssh.key_ref ids

module _ (cipher : Cipher) (order : Order) (fails : Failures) where
  abbrev pub with_ssh_password : Server → SshRow → Option (List ℕ) → Result Server
  with_ssh_password s row none = inl (unreadable s "ssh_password")
  with_ssh_password s row (some password) = inr (record s { ssh = some (ssh_of row password) })

  -- no row is an error
  unfoldable pub export_ssh : Server → Option SshRow → Result Server
  export_ssh s none = inl database_error
  export_ssh s (some row) =
      with_ssh_password s row (cipher.decrypt_text row.password (ssh_password_context s.ref_id))

  abbrev pub with_private_key : Server → AgentRow → Option (List ℕ) → Result Server
  with_private_key s row none = inl (unreadable s "active_agent_private_key")
  with_private_key s row (some private_key) =
      inr (record s { agent = some (agent_of row private_key) })

  unfoldable pub export_agent : Server → Option AgentRow → Result Server
  export_agent s none = inr s
  export_agent s (some row) =
      if s.type_ == 1
      then with_private_key s row
          (cipher.decrypt_text row.private_key (agent_private_key_context s.ref_id))
      else inr (record s { agent = some (agent_of row []) })

  unfoldable pub export_server_connection : Database → Attached → Server → Result Server
  export_server_connection db rows s =
      if s.type_ == 0
      then and_then (query fails (reads_ssh s.ref_id) db rows.ssh) (export_ssh s)
      else if s.type_ == 1 || s.type_ == 2
      then and_then (query fails (reads_agent s.ref_id) db rows.agent) (λ row.
        and_then (export_agent s row) (λ t.
          and_then (query fails (reads_token s.ref_id) db rows.enroll_token)
            (λ token. inr (record t { enroll_token = token }))))
      else inr s

  unfoldable pub finish_server :
      Database → Bool → List ℕ → Attached → Result Server → Result (SkippedServer ⊎ Server)
  finish_server db skip unreadable_ids rows (inl e) = skipped_or_error skip e
  finish_server db skip unreadable_ids rows (inr s) =
      if has_unreadable_key unreadable_ids s.ssh
      then inr (inl (record { server_id = s.ref_id; server_name = s.name; credential = "ssh_key" }))
      else and_then (query fails (reads_alerts s.ref_id) db (order.by_item rows.alerts))
          (λ alerts. inr (inr (record s { alerts = alerts })))

  unfoldable pub export_server :
      Database → Bool → List ℕ → ServerRow → Result (SkippedServer ⊎ Server)
  export_server db skip unreadable_ids row =
      let rows = rows_of row.id db.attached in
      and_then (query fails (reads_info row.id) db (get_or rows.info no_info)) (λ info.
        and_then (query fails (reads_info_adv row.id) db (get_or rows.info_adv no_info_adv)) (λ adv.
          finish_server db skip unreadable_ids rows (
            export_server_connection db rows
              (record (server_of row) { info = info; advanced_info = adv }))))

  unfoldable pub export_each : Database → Bool → List ℕ → List ServerRow → Result ServersRead
  export_each db skip unreadable_ids [] = inr (record { servers = []; skipped_servers = [] })
  export_each db skip unreadable_ids (row ∷ rows) =
      collect_server (export_server db skip unreadable_ids row)
        (export_each db skip unreadable_ids rows)

  unfoldable pub export_servers : ℕ → Database → Bool → List ℕ → Result ServersRead
  export_servers team db skip unreadable_ids =
      and_then (query fails reads_servers db (of_team (λ r. r.team_id) team db.servers))
        (export_each db skip unreadable_ids)
