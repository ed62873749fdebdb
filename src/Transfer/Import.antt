-- ===== src/Transfer/Import.antt =====
-- internal/app/api/team/export_import.go, the import: `applyTeamImport` and what it calls, in one
-- transaction. `none` of the optional rows is NULL.
pub mod Page
pub mod Servers
pub mod Whole
use mosona_manager.Encrypt.{key_content_context, key_password_context, Cipher}
use mosona_manager.Transfer.Bundle.{Category, Key, Alert, Notification}
use mosona_manager.Transfer.Database.{
  KeyRow, Database, Statement, Result, Tx, ◌>>=◌, ◌>>◌, pure, lift, Failures, exec,
  update_team_rows, of_team, not_of_team, detach, clears_servers, clears_keys, clears_categories,
  clears_team_alerts, clears_notifications, clears_page, inserts_key, inserts_category,
  inserts_team_alert, inserts_notification, updates_key, database_error, encryption_error,
}
use native.Mathlib.Decide.{ℕ_discrete}
use mosona_manager.Prelude.{
  List, Option, [], find, get_or, if◌then◌else◌, inl, inr, none, pos, some, store, suc, ℕ, ◌++◌,
  ◌==◌, ◌∷◌,
}

-- a new row's identifier from the sequence, and the row
unfoldable pub returning : Failures → Statement → (Database → ℕ) → (Database → Database) → Tx ℕ
returning fails st id f db = if fails st db then inl database_error else inr (id db, f db)

-- a query in the transaction
unfoldable pub reading : {A : Type 0} → Failures → Statement → (Database → A) → Tx A
reading fails st f db = if fails st db then inl database_error else inr (f db, db)

unfoldable pub delete_servers : ℕ → Database → Database
delete_servers team db = record db {
  servers = not_of_team (λ r. r.team_id) team db.servers;
  attached = detach (of_team (λ r. r.team_id) team db.servers) db.attached;
}

unfoldable pub delete_keys : ℕ → Database → Database
delete_keys team db = record db { keys = not_of_team (λ r. r.team_id) team db.keys }

unfoldable pub delete_categories : ℕ → Database → Database
delete_categories team db = record db { categories = not_of_team (λ r. r.team) team db.categories }

unfoldable pub insert_key : ℕ → Key → Database → Database
insert_key team key db = record db {
  keys =
      db.keys
      ++ record { id = db.next_key; team_id = team; name = key.name; content = []; password = none }
        ∷ [];
  next_key = suc db.next_key;
}

unfoldable pub update_rows : ℕ → List ℕ → Option (List ℕ) → List KeyRow → List KeyRow
update_rows id content password [] = []
update_rows id content password (r ∷ rs) =
    let rest = update_rows id content password rs in
    if r.id == id then record r { content = content; password = password } ∷ rest else r ∷ rest

abbrev pub update_key : ℕ → List ℕ → Option (List ℕ) → Database → Database
update_key id content password db = record db { keys = update_rows id content password db.keys }

unfoldable pub insert_category : ℕ → Category → Database → Database
insert_category team c db = record db {
  categories =
      db.categories
      ++ record { id = db.next_category; team = team; name = c.name; sort = c.sort } ∷ [];
  next_category = suc db.next_category;
}

abbrev pub or_encryption_error : Option (List ℕ) → Result (List ℕ)
or_encryption_error none = inl encryption_error
or_encryption_error (some sealed) = inr sealed

-- an empty password is stored as NULL
abbrev pub stored_password : List ℕ → Option (List ℕ)
stored_password [] = none
stored_password (b ∷ bs) = some (b ∷ bs)

-- a map from the identifiers of the bundle to the new ones
abbrev pub Renumbering : Type 0
Renumbering = List (ℕ × ℕ)

-- `categoryMap[ref]`, `keyMap[ref]`
abbrev pub renumbered : Renumbering → ℕ → ℕ
renumbered m ref = get_or (find ℕ_discrete ref m) 0

module _ (fails : Failures) (team : ℕ) where
  unfoldable pub clear_team_config : Tx (Unit {0})
  clear_team_config = do
    exec fails clears_servers (delete_servers team)
    exec fails clears_keys (delete_keys team)
    exec fails clears_categories (delete_categories team)
    exec fails clears_team_alerts (update_team_rows team (λ r. record r { team_alerts = [] }))
    exec fails clears_notifications (update_team_rows team (λ r. record r { notifications = [] }))
    exec fails clears_page (update_team_rows team (λ r. record r { public_page = none }))

  unfoldable pub import_each_category : Renumbering → List Category → Tx Renumbering
  import_each_category m [] = pure m
  import_each_category m (c ∷ cs) =
      returning fails inserts_category (λ db. db.next_category) (insert_category team c) >>= λ id.
      import_each_category (store ℕ_discrete c.ref_id id m) cs

  unfoldable pub import_categories : List Category → Tx Renumbering
  import_categories [] =
      import_each_category [] (record { ref_id = 0; name = "Default"; sort = pos 0 } ∷ [])
  import_categories (c ∷ cs) = import_each_category [] (c ∷ cs)

  unfoldable pub import_team_alerts : List Alert → Tx (Unit {0})
  import_team_alerts [] = pure tt
  import_team_alerts (a ∷ as_) =
      exec fails inserts_team_alert
        (update_team_rows team (λ r. record r { team_alerts = r.team_alerts ++ a ∷ [] }))
      >> import_team_alerts as_

  unfoldable pub insert_notifications : List Notification → Tx (Unit {0})
  insert_notifications [] = pure tt
  insert_notifications (n ∷ ns) =
      exec fails inserts_notification
        (update_team_rows team (λ r. record r { notifications = r.notifications ++ n ∷ [] }))
      >> insert_notifications ns

module _ (cipher : Cipher) where
  abbrev pub encrypted_password : ℕ → Option (List ℕ) → Result (List ℕ)
  encrypted_password id none = inr []
  encrypted_password id (some password) =
      or_encryption_error (cipher.encrypt_text password (key_password_context id))

  module _ (fails : Failures) (team : ℕ) where
    unfoldable pub import_key : Key → Tx ℕ
    import_key key = do
      id ← returning fails inserts_key (λ db. db.next_key) (insert_key team key)
      content ←
          lift (or_encryption_error (cipher.encrypt_text key.content (key_content_context id)))
      password ← lift (encrypted_password id key.password)
      exec fails (updates_key id) (update_key id content (stored_password password))
      pure id

    unfoldable pub import_each_key : Renumbering → List Key → Tx Renumbering
    import_each_key m [] = pure m
    import_each_key m (k ∷ ks) =
        import_key k >>= λ id. import_each_key (store ℕ_discrete k.ref_id id m) ks

    unfoldable pub import_keys : List Key → Tx Renumbering
    import_keys = import_each_key []
