-- ===== src/Transfer/Isolation/Whole.antt =====
-- A whole import is isolated.
use mosona_manager.Transfer.Preserves.{Preserves-exec}
use mosona_manager.Transfer.Isolation.Servers.{Isolated-import_servers}
use mosona_manager.Transfer.Import.Whole.{
  update_team, Imported, ended, write_bundle, checked_bundle, written_bundle, apply_team_import,
}
use mosona_manager.Encrypt.{Cipher}
use mosona_manager.Transfer.Bundle.{Notification, Server, Bundle}
use mosona_manager.Transfer.Database.{Database, Failures, update_team_rows, Result, commits}
use mosona_manager.Transfer.Checks.{Library}
use mosona_manager.Transfer.Import.{import_keys}
use mosona_manager.Transfer.Steps.{exec-bind, bind_inverse, reading-bind}
use mosona_manager.Transfer.Isolation.{
  Same-trans, Isolated-pure, Isolated-bind, Follows-update_team_rows, Same, IsAhead, Same-itself,
  Follows,
}
use mosona_manager.Transfer.Isolation.Parts.{
  IsForeign, Isolated-import_categories, Isolated-import_team_alerts, Isolated-insert_notifications,
  Isolated-import_each_key, Isolated-import_public_page, clear_team_config-Same,
}
use mosona_manager.Prelude.{Bool, List, [], inl, inr, refl, ℕ, ◌≡◌}

module _ (lib : Library) (cipher : Cipher) (fails : Failures) (base_domain : List ℕ)
    (now team id : ℕ) (trust : Bool) where
  Same-write_bundle :
      (bundle : Bundle) (ss : List Server) (ns : List Notification) (db : Database)
      (b : Imported × Database)
      → IsAhead id db
      → IsForeign team id db
      → write_bundle lib cipher fails base_domain now team trust bundle ss ns db ≡ inr b
      → Same team id db b.1
  unfolding write_bundle import_keys update_team update_team_rows
  Same-write_bundle bundle ss ns db b ahead foreign h =
      let h1 = exec-bind _ _ _ _ db b h in
      let h2 = reading-bind _ _ _ _ db b h1 in
      let h3 = exec-bind _ _ _ _ db b h2 in
      let (ahead1, first) =
        Follows-update_team_rows team id (λ r. record r { team = bundle.team }) db ahead in
      let (u, db2, e, h4) = bind_inverse _ _ b h3 in
      let (ahead2, second_) =
        clear_team_config-Same team id fails (update_team team bundle.team db) (u, db2) foreign e
          ahead1 in
      let (ahead3, third) =
        Isolated-bind team id _ _ (Isolated-import_each_key team id fails cipher [] bundle.keys)
          (λ keys.
            Isolated-bind team id _ _ (Isolated-import_categories team id fails bundle.categories)
              (λ categories.
                Isolated-bind team id _ _
                  (Isolated-import_team_alerts team id fails bundle.team_alerts)
                  (λ _.
                    Isolated-bind team id _ _ (Isolated-insert_notifications team id fails ns) (λ _.
                      Isolated-bind team id _ _
                        (Isolated-import_public_page team id fails lib base_domain
                          bundle.public_page)
                        (λ _.
                          Isolated-bind team id _ _
                            (Isolated-import_servers team id lib cipher fails now trust categories
                              keys ss)
                            (λ new.
                              Isolated-bind team id _ _
                                (Preserves-exec (Follows team id) fails commits (λ x. x)
                                  (λ x a. (a, Same-itself team id x)))
                                (λ _. Isolated-pure team id _)))))))
          db2 b h4 ahead2 in
      Same-trans team id db (update_team team bundle.team db) b.1 first
        (Same-trans team id (update_team team bundle.team db) db2 b.1 second_ third)

  Same-ended :
      (db : Database) (r : Result (Imported × Database))
      → ((b : Imported × Database) → r ≡ inr b → Same team id db b.1)
      → Same team id db (ended db r).1
  Same-ended db (inl e) h = Same-itself team id db
  Same-ended db (inr b) h = h b refl

  Same-written_bundle :
      (bundle : Bundle) (db : Database) (r : Result (List Server × List Notification))
      → IsAhead id db
      → IsForeign team id db
      → Same team id db (written_bundle lib cipher fails base_domain now team trust bundle db r).1
  Same-written_bundle bundle db (inl e) ahead foreign = Same-itself team id db
  Same-written_bundle bundle db (inr (ss, ns)) ahead foreign =
      Same-ended db (write_bundle lib cipher fails base_domain now team trust bundle ss ns db)
        (λ b h. Same-write_bundle bundle ss ns db b ahead foreign h)

  -- An import into a team, whether it succeeds or fails, and wherever it fails, leaves the rows of
  -- the other teams as they were: their own rows, their categories, keys and servers, and whatever
  -- the other tables hold for a server that is not the team's. The sequences are ahead of the
  -- identifiers in use.
  pub apply_team_import-Same :
      (bundle : Bundle) (db : Database)
      → IsAhead id db
      → IsForeign team id db
      → Same team id db (apply_team_import lib cipher fails base_domain now team trust bundle db).1
  unfolding apply_team_import
  apply_team_import-Same bundle db ahead foreign =
      Same-written_bundle bundle db
        (checked_bundle lib cipher fails base_domain now team trust bundle db) ahead foreign
