-- ===== src/Transfer/Import/Whole.antt =====
-- `applyTeamImport`: the checks, then one transaction
use mosona_manager.Encrypt.{Cipher}
use mosona_manager.Transfer.Bundle.{Team, Server, Notification, Bundle}
use mosona_manager.Transfer.Database.{
  ServerRow, Database, Result, Tx, and_then, pure, Failures, exec, update_team_rows, of_team,
  begins, commits, reads_servers, updates_team, invalid_import, ◌>>=◌, ◌>>◌,
}
use mosona_manager.Transfer.Checks.{
  Library, normalize_imported_agent_keys, inspect_imported_ssh_host_keys,
  preflight_imported_agent_uids, normalize_entries,
}
use mosona_manager.Transfer.Import.{
  reading, clear_team_config, import_keys, import_categories, import_team_alerts,
  insert_notifications,
}
use mosona_manager.Transfer.Import.Page.{import_public_page}
use mosona_manager.Transfer.Import.Servers.{import_servers}
use Prim.Native.String.{String}
use mosona_manager.Prelude.{Bool, List, [], false, if◌then◌else◌, inl, inr, not, true, ℕ, ◌&&◌, ◌∷◌}

abbrev pub ids_of : List ServerRow → List ℕ
ids_of [] = []
ids_of (s ∷ ss) = s.id ∷ ids_of ss

unfoldable pub update_team : ℕ → Team → Database → Database
update_team team t = update_team_rows team (λ r. record r { team = t })

-- what an import answers: the servers before and after
abbrev pub Imported : Type 0
Imported = List ℕ × List ℕ

-- a transaction: the state after it, the old one where it failed
abbrev pub ended : {A : Type 0} → Database → Result (A × Database) → Result A × Database
ended db (inl e) = (inl e, db)
ended db (inr (a, db')) = (inr a, db')

module _ (lib : Library) (cipher : Cipher) (fails : Failures) (base_domain : List ℕ) (now team : ℕ)
    (trust : Bool) where
  unfoldable pub write_bundle : Bundle → List Server → List Notification → Tx Imported
  write_bundle bundle servers notifications = do
    exec fails begins (λ db. db)
    old ← reading fails reads_servers (λ db. ids_of (of_team (λ r. r.team_id) team db.servers))
    exec fails updates_team (update_team team bundle.team)
    clear_team_config fails team
    key_map ← import_keys cipher fails team bundle.keys
    category_map ← import_categories fails team bundle.categories
    import_team_alerts fails team bundle.team_alerts
    insert_notifications fails team notifications
    import_public_page lib fails team base_domain bundle.public_page
    new ← import_servers lib cipher fails now team trust category_map key_map servers
    exec fails commits (λ db. db)
    pure (old, new)

  -- the checks before the transaction: the servers and the notifications to write
  unfoldable pub checked_bundle : Bundle → Database → Result (List Server × List Notification)
  checked_bundle bundle db = and_then (inspect_imported_ssh_host_keys lib bundle.servers) (λ legacy.
      if not (no_names legacy) && not trust
      then inl (invalid_import "")
      else and_then (normalize_imported_agent_keys lib bundle.servers) (λ servers.
        and_then (normalize_entries lib bundle.notifications) (λ notifications.
          and_then (preflight_imported_agent_uids lib fails team db servers)
            (λ _. inr (servers, notifications)))))
    where
      no_names : List String → Bool
      no_names [] = true
      no_names (n ∷ ns) = false

  abbrev pub written_bundle :
      Bundle → Database → Result (List Server × List Notification) → Result Imported × Database
  written_bundle bundle db (inl e) = (inl e, db)
  written_bundle bundle db (inr (servers, notifications)) =
      ended db (write_bundle bundle servers notifications db)

  unfoldable pub apply_team_import : Bundle → Database → Result Imported × Database
  apply_team_import bundle db = written_bundle bundle db (checked_bundle bundle db)
