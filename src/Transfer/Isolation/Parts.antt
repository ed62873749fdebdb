-- ===== src/Transfer/Isolation/Parts.antt =====
-- The other parts of an import are isolated: what is cleared, and what is written first.
use mosona_manager.Transfer.Preserves.{Preserves-exec, Preserves-returning}
use native.Mathlib.Decide.{ℕ_discrete}
use mosona_manager.Encrypt.{Cipher}
use mosona_manager.Transfer.Bundle.{Category, Key, Alert, PublicPage, Notification}
use mosona_manager.Transfer.Database.{
  ServerRow, Attached, no_rows, TeamRows, Database, Statement, Failures, exec, update_team_rows,
  rows_of, of_team, detach, clears_keys, clears_categories, clears_team_alerts,
  clears_notifications, clears_page, inserts_category, inserts_team_alert, inserts_notification,
  inserts_page,
}
use mosona_manager.Transfer.Checks.{Library}
use mosona_manager.Transfer.Export.{is_member}
use mosona_manager.Transfer.Import.{
  delete_servers, delete_keys, delete_categories, Renumbering, clear_team_config,
  import_each_category, import_categories, import_team_alerts, insert_notifications,
  import_each_key,
}
use mosona_manager.Transfer.Import.Page.{import_public_page}
use mosona_manager.Transfer.Import.Whole.{ids_of}
use mosona_manager.Transfer.Steps.{exec-bind}
use mosona_manager.Transfer.Rows.{AllBelow-not_of_team, not_of_team-not_of_team}
use mosona_manager.Transfer.Isolation.{
  Same-trans, Follows, Isolated, Isolated-pure, Isolated-lift, Isolated-bind,
  Follows-update_team_rows, Follows-insert_category, Isolated-import_key,
}
use native.Mathlib.Decide.{ℕ_discrete}
use mosona_manager.Prelude.{
  Bool-cases, List, Option, [], ap, arith, false, find-delete_ne, get_or, inl, inr, none, refl,
  some, store, ℕ, ◌==◌, ◌∙◌, ◌∷◌, ◌≡◌,
}

-- the identifier is not one of the team's own servers
abbrev pub IsForeign : ℕ → ℕ → Database → Type 0
IsForeign team id db = is_member id (ids_of (of_team (λ r. r.team_id) team db.servers)) ≡ false

module _ (team id : ℕ) (fails : Failures) where
  pub Isolated-update_team_rows :
      (st : Statement) (f : TeamRows → TeamRows)
      → Isolated team id (exec fails st (update_team_rows team f))
  Isolated-update_team_rows st f =
      Preserves-exec (Follows team id) fails st (update_team_rows team f)
        (Follows-update_team_rows team id f)

  pub Isolated-import_each_category :
      (m : Renumbering) (cs : List Category)
      → Isolated team id (import_each_category fails team m cs)
  unfolding import_each_category
  Isolated-import_each_category m [] = Isolated-pure team id m
  Isolated-import_each_category m (c ∷ cs) =
      Isolated-bind team id _ _
        (Preserves-returning (Follows team id) fails inserts_category _ _
          (Follows-insert_category team id c))
        (λ n. Isolated-import_each_category (store ℕ_discrete c.ref_id n m) cs)

  pub Isolated-import_categories :
      (cs : List Category) → Isolated team id (import_categories fails team cs)
  unfolding import_categories
  Isolated-import_categories [] = Isolated-import_each_category [] _
  Isolated-import_categories (c ∷ cs) = Isolated-import_each_category [] (c ∷ cs)

  pub Isolated-import_team_alerts :
      (alerts : List Alert) → Isolated team id (import_team_alerts fails team alerts)
  unfolding import_team_alerts
  Isolated-import_team_alerts [] = Isolated-pure team id tt
  Isolated-import_team_alerts (a ∷ rest) =
      Isolated-bind team id _ _ (Isolated-update_team_rows inserts_team_alert _)
        (λ _. Isolated-import_team_alerts rest)

  pub Isolated-insert_notifications :
      (ns : List Notification) → Isolated team id (insert_notifications fails team ns)
  unfolding insert_notifications
  Isolated-insert_notifications [] = Isolated-pure team id tt
  Isolated-insert_notifications (n ∷ ns) =
      Isolated-bind team id _ _ (Isolated-update_team_rows inserts_notification _)
        (λ _. Isolated-insert_notifications ns)

  pub Isolated-import_each_key :
      (cipher : Cipher) (m : Renumbering) (ks : List Key)
      → Isolated team id (import_each_key cipher fails team m ks)
  unfolding import_each_key
  Isolated-import_each_key cipher m [] = Isolated-pure team id m
  Isolated-import_each_key cipher m (k ∷ ks) =
      Isolated-bind team id _ _ (Isolated-import_key team id cipher fails k)
        (λ n. Isolated-import_each_key cipher (store ℕ_discrete k.ref_id n m) ks)

  pub Isolated-import_public_page :
      (lib : Library) (base : List ℕ) (page : Option PublicPage)
      → Isolated team id (import_public_page lib fails team base page)
  unfolding import_public_page
  Isolated-import_public_page lib base none = Isolated-pure team id tt
  Isolated-import_public_page lib base (some page) =
      Isolated-bind team id _ _ (Isolated-lift team id _)
        (λ p. Isolated-update_team_rows inserts_page _)

  rows_of-detach :
      (ss : List ServerRow) (rows : List (ℕ × Attached))
      → is_member id (ids_of ss) ≡ false
      → rows_of id (detach ss rows) ≡ rows_of id rows
  unfolding rows_of detach
  rows_of-detach [] rows h = refl
  rows_of-detach (s ∷ ss) rows h = elim (Bool-cases (id == s.id)) [
    | inl t ↦ absurd (cc (simp t at h))
    | inr t ↦
        ap (λ x. get_or x no_rows)
          (find-delete_ne ℕ_discrete s.id id (detach ss rows) (ground (arith, t)))
        ∙ rows_of-detach ss rows (simp t at h)
  ]

  Follows-delete_servers :
      (db : Database) → IsForeign team id db → Follows team id db (delete_servers team db)
  unfolding delete_servers
  Follows-delete_servers db foreign ahead = (
    ahead,
    record {
      teams = λ t h. refl;
      keys = refl;
      categories = refl;
      servers = not_of_team-not_of_team (λ r. r.team_id) team db.servers;
      attached = rows_of-detach (of_team (λ r. r.team_id) team db.servers) db.attached foreign;
    },
  )

  Follows-delete_keys : (db : Database) → Follows team id db (delete_keys team db)
  unfolding delete_keys
  Follows-delete_keys db (below, ahead) = (
    (AllBelow-not_of_team db.next_key team db.keys below, ahead),
    record {
      teams = λ t h. refl;
      servers = refl;
      categories = refl;
      attached = refl;
      keys = not_of_team-not_of_team (λ r. r.team_id) team db.keys;
    },
  )

  Follows-delete_categories : (db : Database) → Follows team id db (delete_categories team db)
  unfolding delete_categories
  Follows-delete_categories db ahead = (
    ahead,
    record {
      teams = λ t h. refl;
      servers = refl;
      keys = refl;
      attached = refl;
      categories = not_of_team-not_of_team (λ r. r.team) team db.categories;
    },
  )

  pub clear_team_config-Same :
      (db : Database) (b : Unit {0} × Database)
      → IsForeign team id db
      → clear_team_config fails team db ≡ inr b
      → Follows team id db b.1
  unfolding clear_team_config
  clear_team_config-Same db b foreign h ahead =
      let h1 = exec-bind _ _ _ _ _ b h in
      let (ahead1, first) = Follows-delete_servers db foreign ahead in
      let (ahead2, then_) =
        Isolated-bind team id _ _
          (Preserves-exec (Follows team id) fails clears_keys _ Follows-delete_keys)
          (λ _.
            Isolated-bind team id _ _
              (Preserves-exec (Follows team id) fails clears_categories _ Follows-delete_categories)
              (λ _. Isolated-bind team id _ _ (Isolated-update_team_rows clears_team_alerts _) (λ _.
                Isolated-bind team id _ _ (Isolated-update_team_rows clears_notifications _)
                  (λ _. Isolated-update_team_rows clears_page _))))
          (delete_servers team db) b h1 ahead1 in
      (ahead2, Same-trans team id db (delete_servers team db) b.1 first then_)
