-- ===== src/Transfer/Tests.antt =====
-- The theorems on exports and imports, at a database of two teams and a cipher that marks its texts.
use mosona_manager.Transfer.Import.Servers.{value_at, default_category}
use mosona_manager.Transfer.Import.Page.{import_public_page}
use mosona_manager.Transfer.Import.Servers.{
  uid_taken, import_agent, import_token, import_server_connection, import_alerts,
  import_server_info, import_server_advanced_info, import_server, import_each_server,
  import_servers,
}
use mosona_manager.Transfer.References.Whole.{IsReferring, apply_team_import-IsReferring}
use mosona_manager.Encrypt.{Cipher, IsCipher}
use mosona_manager.Transfer.Bundle.{Key, Agent, Server, Bundle}
use mosona_manager.Transfer.Database.{
  KeyRow, ServerRow, AgentRow, Attached, no_rows, TeamRows, Database, Result, bind, and_then, lift,
  Failures, exec, query, no_team_rows, team_rows, rows_of, of_team, not_of_team, update_team_rows,
  attach, detach,
}
use mosona_manager.Transfer.Checks.{
  Library, collect_uids, foreign_uid, ask_database, preflight_imported_agent_uids,
  normalized_private_key, normalized_public_key, normalized_agent, normalized_server,
  normalize_imported_agent_keys, inspect_server, inspect_imported_ssh_host_keys, normalize_each,
  normalize_entries,
}
use mosona_manager.Transfer.Export.{
  Order, read_password, read_content, read_key, export_rows, export_keys,
}
use mosona_manager.Transfer.Export.Servers.{
  server_of, export_ssh, export_server_connection, finish_server, export_server, export_each,
  export_servers,
}
use mosona_manager.Transfer.Export.Whole.{export_public_page, build_team_export}
use mosona_manager.Transfer.Import.{
  returning, delete_keys, insert_key, update_rows, Renumbering, import_key, import_each_key,
  import_keys, reading, delete_servers, delete_categories, insert_category, clear_team_config,
  import_each_category, import_categories, import_team_alerts, insert_notifications,
}
use mosona_manager.Transfer.Import.Whole.{
  apply_team_import, update_team, Imported, write_bundle, checked_bundle,
}
use mosona_manager.Transfer.Keys.{renumbered_keys, all_read, export_keys-import_keys}
use mosona_manager.Transfer.Accounting.Whole.{IsComplete, build_team_export-IsComplete}
use mosona_manager.Transfer.Uids.{has, AllDistinct, uids, preflight_imported_agent_uids_lem}
use mosona_manager.Transfer.Isolation.{Same}
use mosona_manager.Transfer.Isolation.Whole.{apply_team_import-Same}
use mosona_manager.Prelude.{
  List, Option, [], ap, arith, bytes, delete, false, find, get_elem?, get_or, inl, inr, none, pos,
  refl, some, store, sym, true, ℕ, ◌==◌, ◌∷◌, ◌≡◌,
}

abbrev tail : List ℕ → Option (List ℕ)
tail [] = none
tail (b ∷ bs) = some bs

abbrev toy : Cipher
toy = record {
  encrypt_text = λ plain context. some (1 ∷ plain);
  decrypt_text = λ sealed context. tail sealed;
}

toy-IsCipher : IsCipher toy
toy-IsCipher = record {
  decrypts = λ plain context sealed e. ap (λ o. tail (get_or o [])) (sym e);
  not_empty = λ plain context e. cc e;
}

abbrev library : Library
library = record {
  trim_space = λ t. t;
  to_lower = λ t. t;
  btrim = λ t. t;
  same_uid = λ u v. false;
  reads_private_key = λ k. true;
  public_key_pem = λ k. some k;
  host_key = λ k. some k;
  parse_address = λ a. some a;
  is_valid_target = λ t. true;
  range_start = λ m. 1;
}

abbrev as_stored : Order
as_stored = record { by_sort = λ cs. cs; by_item = λ as_. as_ }

abbrev works : Failures
works st db = false

-- team 1 has key 4 and server 5, team 2 key 3 and server 6, whose password is not readable
abbrev key_4 : KeyRow
key_4 = record { id = 4; team_id = 1; name = "ours"; content = 1 ∷ 8 ∷ []; password = none }

abbrev key_3 : KeyRow
key_3 = record { id = 3; team_id = 2; name = "theirs"; content = 1 ∷ 9 ∷ []; password = none }

abbrev server_row : ℕ → ℕ → ServerRow
server_row id team = record {
  id = id;
  team_id = team;
  category = 1;
  type_ = 0;
  name = "server";
  allow_monitor = true;
  allow_terminal = true;
  public_visible = true;
  weight = pos 0;
}

abbrev ssh_rows : List ℕ → ℕ → Attached
ssh_rows password key = record no_rows {
  ssh = some (record {
    address = "10.0.0.1";
    port = pos 22;
    username = "root";
    key_id = key;
    password = password;
    host_key = some (bytes "key");
    trust_legacy_host_key = false;
  });
}

abbrev stored_rows : TeamRows
stored_rows = no_team_rows

abbrev two_teams : Database
two_teams = record {
  teams = (1, stored_rows) ∷ (2, stored_rows) ∷ [];
  categories = [];
  keys = key_3 ∷ key_4 ∷ [];
  servers = server_row 5 1 ∷ server_row 6 2 ∷ [];
  attached = (5, ssh_rows (1 ∷ 7 ∷ []) 4) ∷ (6, ssh_rows [] 3) ∷ [];
  next_category = 2;
  next_key = 5;
  next_server = 7;
}

abbrev new_key : Key
new_key = record { ref_id = 9; name = "new"; content = 6 ∷ []; password = some [] }

abbrev value_or : {A : Type 0} → A → Result A → A
value_or a (inl e) = a
value_or a (inr b) = b

abbrev after_keys : Renumbering × Database
after_keys =
    value_or ([], two_teams) (import_keys toy works 1 (new_key ∷ []) (delete_keys 1 two_teams))

export_keys-import_keys_example :
    (export_keys toy works 1 after_keys.1 false ≡ inr (all_read (renumbered_keys 5 (new_key ∷ []))))
    × (not_of_team (λ r. r.team_id) 1 after_keys.1.keys
        ≡ not_of_team (λ r. r.team_id) 1 two_teams.keys)
unfolding import_keys import_each_key import_key insert_key delete_keys not_of_team bind lift exec
    returning update_rows
export_keys-import_keys_example =
    export_keys-import_keys toy toy-IsCipher 1 works works (new_key ∷ []) two_teams after_keys false
      (omega arith, (omega arith, tt)) refl refl

-- team 2 without the server that cannot be read
abbrev bundle_2 : Bundle
bundle_2 = record {
  skipped_servers =
      record { server_id = 6; server_name = "server"; credential = "ssh_password" } ∷ [];
  skipped_keys = [];
  team = stored_rows.team;
  categories = [];
  keys = record { ref_id = 3; name = "theirs"; content = 9 ∷ []; password = none } ∷ [];
  team_alerts = [];
  notifications = [];
  public_page = none;
  servers = [];
}

build_team_export-IsComplete_example : IsComplete toy as_stored works 2 true two_teams bundle_2
unfolding build_team_export export_keys export_servers export_public_page and_then query of_team
    export_rows read_key read_content read_password export_each export_server finish_server
    export_server_connection export_ssh rows_of team_rows find native.Mathlib.Decide.ℕ_discrete
build_team_export-IsComplete_example =
    build_team_export-IsComplete toy as_stored works 2 true two_teams bundle_2 refl

-- two servers that the Hub connects
abbrev agent : List ℕ → Agent
agent uid = record {
  agent_uid = uid;
  status = pos 1;
  last_seen_at = none;
  last_ip = "";
  last_version = "";
  public_key = [];
  private_key = [];
  protocol_version = 2;
  host = "host";
  port = pos 1;
}

abbrev server : List ℕ → Server
server uid = record (server_of (server_row 1 1)) { type_ = 1; agent = some (agent uid) }

preflight_imported_agent_uids_lem_example :
    AllDistinct (uids library (server (bytes "a") ∷ server (bytes "b") ∷ []))
    × ((i : ℕ) (s : ServerRow) (row : AgentRow)
        → get_elem? two_teams.servers i ≡ some s
        → (s.team_id == 1) ≡ false
        → (rows_of s.id two_teams.attached).agent ≡ some row
        → has row.agent_uid (uids library (server (bytes "a") ∷ server (bytes "b") ∷ [])) ≡ false)
unfolding preflight_imported_agent_uids collect_uids and_then ask_database query foreign_uid rows_of
    find store
preflight_imported_agent_uids_lem_example =
    preflight_imported_agent_uids_lem library works 1 two_teams
      (server (bytes "a") ∷ server (bytes "b") ∷ []) (ground arith)

-- an import into team 1 of a bundle with one server, for server 6 of team 2
abbrev bundle_1 : Bundle
bundle_1 = record bundle_2 { servers = server (bytes "a") ∷ [] }

apply_team_import-Same_example :
    Same 1 6 two_teams (apply_team_import library toy works [] 0 1 true bundle_1 two_teams).1
unfolding of_team
apply_team_import-Same_example =
    apply_team_import-Same library toy works [] 0 1 6 true bundle_1 two_teams
      ((omega arith, (omega arith, tt)), omega arith) refl

abbrev imported : Result Imported × Database
imported = apply_team_import library toy works [] 0 1 true bundle_1 two_teams

-- the bundle's server goes to the default category, which the import makes
apply_team_import-IsReferring_example : IsReferring library toy works [] 0 1 true imported.1
unfolding default_category value_at apply_team_import checked_bundle write_bundle update_team
    update_team_rows clear_team_config delete_servers delete_keys delete_categories import_keys
    import_each_key import_key insert_key update_rows import_categories import_each_category
    insert_category import_team_alerts insert_notifications import_public_page import_servers
    import_each_server import_server import_server_info import_server_advanced_info
    import_server_connection import_agent import_token import_alerts attach rows_of bind and_then
    lift exec reading returning query of_team not_of_team detach inspect_imported_ssh_host_keys
    inspect_server normalize_imported_agent_keys normalized_server normalized_agent
    normalized_private_key normalized_public_key normalize_entries normalize_each
    preflight_imported_agent_uids collect_uids ask_database foreign_uid find store delete uid_taken
    native.Mathlib.Decide.ℕ_discrete
apply_team_import-IsReferring_example =
    apply_team_import-IsReferring library toy works [] 0 1 true bundle_1 two_teams imported.1
      (5 ∷ [], 7 ∷ []) refl
