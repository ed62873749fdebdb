-- ===== src/Transfer/References/Whole.antt =====
-- A whole import leaves no server of the team outside its categories.
use mosona_manager.Transfer.Rows.{of_team-not_of_team}
use mosona_manager.Transfer.Import.Whole.{
  update_team, Imported, ended, write_bundle, written_bundle, apply_team_import,
}
use mathlib.Core.Path.{subst}
use mosona_manager.Encrypt.{Cipher}
use mosona_manager.Transfer.Bundle.{Category, Key, Alert, PublicPage, Notification, Server, Bundle}
use mosona_manager.Transfer.Database.{
  CategoryRow, TeamRows, Database, Statement, Failures, exec, update_team_rows, of_team,
  inserts_key, inserts_team_alert, inserts_notification, inserts_page, updates_key, Result,
  clears_team_alerts, clears_notifications, clears_page,
}
use mosona_manager.Transfer.Checks.{Library}
use mosona_manager.Transfer.Import.{
  delete_servers, delete_keys, delete_categories, insert_key, insert_category, Renumbering,
  clear_team_config, import_each_category, import_categories, import_team_alerts,
  insert_notifications, import_key, import_each_key, import_keys,
}
use mosona_manager.Transfer.Import.Page.{import_public_page}
use mosona_manager.Transfer.Steps.{
  right_injective, returning-bind, bind_inverse, reading-bind, exec-bind,
}
use mosona_manager.Transfer.Preserves.{
  Preserves, Preserves-pure, Preserves-lift, Preserves-bind, Preserves-exec, Preserves-returning,
}
use mosona_manager.Transfer.References.{
  category_ids, own_ids, ValuesIn, is_member-last, ValuesIn-append, ValuesIn-store, of_team-added,
  category_ids-append, Keeps, Keeps-IsPreorder, AllIn, KeepsSettled-import_servers,
}
use native.Mathlib.Decide.{ℕ_discrete}
use mosona_manager.Prelude.{
  Bool, List, Option, [], ap, inl, inr, none, refl, some, store, sym, ℕ, ◌++◌, ◌∙◌, ◌∷◌, ◌≡◌,
}

module _ (team : ℕ) (fails : Failures) where
  Keeps-update_team_rows :
      (st : Statement) (f : TeamRows → TeamRows)
      → Preserves (Keeps team) (exec fails st (update_team_rows team f))
  unfolding update_team_rows
  Keeps-update_team_rows st f =
      Preserves-exec (Keeps team) fails st (update_team_rows team f) (λ db. (refl, refl))

  Keeps-import_key :
      (cipher : Cipher) (k : Key) → Preserves (Keeps team) (import_key cipher fails team k)
  unfolding import_key insert_key
  Keeps-import_key cipher k =
      Preserves-bind (Keeps team) (Keeps-IsPreorder team) _ _
        (Preserves-returning (Keeps team) fails inserts_key _ _ (λ db. (refl, refl)))
        (λ id.
          Preserves-bind (Keeps team) (Keeps-IsPreorder team) _ _
            (Preserves-lift (Keeps team) (Keeps-IsPreorder team) _)
            (λ content.
              Preserves-bind (Keeps team) (Keeps-IsPreorder team) _ _
                (Preserves-lift (Keeps team) (Keeps-IsPreorder team) _)
                (λ password.
                  Preserves-bind (Keeps team) (Keeps-IsPreorder team) _ _
                    (Preserves-exec (Keeps team) fails (updates_key id) _ (λ db. (refl, refl)))
                    (λ _. Preserves-pure (Keeps team) (Keeps-IsPreorder team) id))))

  Keeps-import_each_key :
      (cipher : Cipher) (m : Renumbering) (ks : List Key)
      → Preserves (Keeps team) (import_each_key cipher fails team m ks)
  unfolding import_each_key
  Keeps-import_each_key cipher m [] = Preserves-pure (Keeps team) (Keeps-IsPreorder team) m
  Keeps-import_each_key cipher m (k ∷ ks) =
      Preserves-bind (Keeps team) (Keeps-IsPreorder team) _ _ (Keeps-import_key cipher k)
        (λ n. Keeps-import_each_key cipher (store ℕ_discrete k.ref_id n m) ks)

  Keeps-import_team_alerts :
      (alerts : List Alert) → Preserves (Keeps team) (import_team_alerts fails team alerts)
  unfolding import_team_alerts
  Keeps-import_team_alerts [] = Preserves-pure (Keeps team) (Keeps-IsPreorder team) tt
  Keeps-import_team_alerts (a ∷ rest) =
      Preserves-bind (Keeps team) (Keeps-IsPreorder team) _ _
        (Keeps-update_team_rows inserts_team_alert _) (λ _. Keeps-import_team_alerts rest)

  Keeps-insert_notifications :
      (ns : List Notification) → Preserves (Keeps team) (insert_notifications fails team ns)
  unfolding insert_notifications
  Keeps-insert_notifications [] = Preserves-pure (Keeps team) (Keeps-IsPreorder team) tt
  Keeps-insert_notifications (n ∷ ns) =
      Preserves-bind (Keeps team) (Keeps-IsPreorder team) _ _
        (Keeps-update_team_rows inserts_notification _) (λ _. Keeps-insert_notifications ns)

  Keeps-import_public_page :
      (lib : Library) (base : List ℕ) (page : Option PublicPage)
      → Preserves (Keeps team) (import_public_page lib fails team base page)
  unfolding import_public_page
  Keeps-import_public_page lib base none = Preserves-pure (Keeps team) (Keeps-IsPreorder team) tt
  Keeps-import_public_page lib base (some page) =
      Preserves-bind (Keeps team) (Keeps-IsPreorder team) _ _
        (Preserves-lift (Keeps team) (Keeps-IsPreorder team) _)
        (λ p. Keeps-update_team_rows inserts_page _)

  -- the new categories
  import_each_category_lem :
      (m : Renumbering) (cs : List Category) (db : Database) (b : Renumbering × Database)
      → ValuesIn (own_ids team db) m
      → import_each_category fails team m cs db ≡ inr b
      → ValuesIn (own_ids team b.1) b.0 × (b.1.servers ≡ db.servers)
  unfolding import_each_category insert_category
  import_each_category_lem m [] db b h e =
      subst (λ x. ValuesIn (own_ids team x.1) x.0 × (x.1.servers ≡ db.servers))
        (right_injective _ refl e) (h, refl)
  import_each_category_lem m (c ∷ cs) db b h e =
      import_each_category_lem (store ℕ_discrete c.ref_id db.next_category m) cs
        (insert_category team c db) b
        (subst (λ ids. ValuesIn ids (store ℕ_discrete c.ref_id db.next_category m)) (sym added)
          (ValuesIn-store _ c.ref_id db.next_category m
            (is_member-last (own_ids team db) db.next_category)
            (ValuesIn-append (own_ids team db) m db.next_category h)))
        (returning-bind _ _ _ _ _ db b e)
    where
      row : CategoryRow
      row = record { id = db.next_category; team = team; name = c.name; sort = c.sort }

      added :
          category_ids (of_team (λ r. r.team) team (db.categories ++ row ∷ []))
          ≡ own_ids team db ++ db.next_category ∷ []
      added =
          ap category_ids (of_team-added (λ r. r.team) team db.categories row refl)
          ∙ category_ids-append (of_team (λ r. r.team) team db.categories) row

  import_categories_lem :
      (cs : List Category) (db : Database) (b : Renumbering × Database)
      → import_categories fails team cs db ≡ inr b
      → ValuesIn (own_ids team b.1) b.0 × (b.1.servers ≡ db.servers)
  unfolding import_categories
  import_categories_lem [] db b e = import_each_category_lem [] _ db b tt e
  import_categories_lem (c ∷ cs) db b e = import_each_category_lem [] (c ∷ cs) db b tt e

  abbrev HasNoServer : Database → Type 0
  HasNoServer db = of_team (λ r. r.team_id) team db.servers ≡ []

  clear_team_config-HasNoServer :
      (db : Database) (b : Unit {0} × Database)
      → clear_team_config fails team db ≡ inr b
      → HasNoServer b.1
  unfolding clear_team_config delete_servers delete_keys delete_categories
  clear_team_config-HasNoServer db b h =
      let h1 = exec-bind _ _ _ _ db b h in
      let h2 = exec-bind _ _ _ _ _ b h1 in
      let h3 = exec-bind _ _ _ _ _ b h2 in
      let (servers, categories) =
        Preserves-bind (Keeps team) (Keeps-IsPreorder team) _ _
          (Keeps-update_team_rows clears_team_alerts _)
          (λ _.
            Preserves-bind (Keeps team) (Keeps-IsPreorder team) _ _
              (Keeps-update_team_rows clears_notifications _)
              (λ _. Keeps-update_team_rows clears_page _))
          (delete_categories team (delete_keys team (delete_servers team db))) b h3 in
      ap (of_team (λ r. r.team_id) team) servers
      ∙ of_team-not_of_team (λ r. r.team_id) team db.servers

module _ (lib : Library) (cipher : Cipher) (fails : Failures) (base_domain : List ℕ) (now team : ℕ)
    (trust : Bool) where
  -- the servers of the team are in its categories
  abbrev pub IsReferring : Database → Type 0
  IsReferring db = AllIn (own_ids team db) (of_team (λ r. r.team_id) team db.servers)

  IsReferring-write_bundle :
      (bundle : Bundle) (ss : List Server) (ns : List Notification) (db : Database)
      (b : Imported × Database)
      → write_bundle lib cipher fails base_domain now team trust bundle ss ns db ≡ inr b
      → IsReferring b.1
  unfolding write_bundle import_keys update_team
  IsReferring-write_bundle bundle ss ns db b h =
      let h1 = exec-bind _ _ _ _ db b h in
      let h2 = reading-bind _ _ _ _ db b h1 in
      let h3 = exec-bind _ _ _ _ db b h2 in
      let (u, db2, cleared, h4) = bind_inverse _ _ b h3 in
      let (keys, db3, e3, h5) = bind_inverse _ _ b h4 in
      let (categories, db4, e4, h6) = bind_inverse _ _ b h5 in
      let (v, db5, e5, h7) = bind_inverse _ _ b h6 in
      let (w, db6, e6, h8) = bind_inverse _ _ b h7 in
      let (x, db7, e7, h9) = bind_inverse _ _ b h8 in
      let (new, db8, e8, h10) = bind_inverse _ _ b h9 in
      let last : (_, db8) ≡ b = right_injective _ refl (exec-bind _ _ _ _ db8 b h10) in
      let (values, same4) = import_categories_lem team fails bundle.categories db3 _ e4 in
      let same3 = (Keeps-import_each_key team fails cipher [] bundle.keys db2 _ e3).0 in
      let (same5, own5) = Keeps-import_team_alerts team fails bundle.team_alerts db4 _ e5 in
      let (same6, own6) = Keeps-insert_notifications team fails ns db5 _ e6 in
      let (same7, own7) =
        Keeps-import_public_page team fails lib base_domain bundle.public_page db6 _ e7 in
      let none_ : HasNoServer team fails db7 =
        ap (of_team (λ r. r.team_id) team) (same7 ∙ same6 ∙ same5 ∙ same4 ∙ same3)
        ∙ clear_team_config-HasNoServer team fails _ _ cleared in
      let own7' : own_ids team db7 ≡ own_ids team db4 =
        ap (λ rows. category_ids (of_team (λ r. r.team) team rows)) (own7 ∙ own6 ∙ own5) in
      let (own8, settles) =
        KeepsSettled-import_servers team lib cipher fails now trust (own_ids team db4) categories
          keys ss values db7 _ e8 in
      let own8' : own_ids team db8 ≡ own_ids team db4 =
        ap (λ rows. category_ids (of_team (λ r. r.team) team rows)) own8 ∙ own7' in
      subst (λ y. IsReferring y.1) last
        (subst (λ ids. AllIn ids (of_team (λ r. r.team_id) team db8.servers)) (sym own8')
          (settles (subst (AllIn (own_ids team db4)) (sym none_) tt)))

  IsReferring-ended :
      (db db' : Database) (imported : Imported) (r : Result (Imported × Database))
      → ((b : Imported × Database) → r ≡ inr b → IsReferring b.1)
      → ended db r ≡ (inr imported, db')
      → IsReferring db'
  IsReferring-ended db db' imported (inl e) f h = absurd (cc (ap (λ x. x.0) h))
  IsReferring-ended db db' imported (inr b) f h = subst IsReferring (ap (λ x. x.1) h) (f b refl)

  IsReferring-written_bundle :
      (bundle : Bundle) (db db' : Database) (imported : Imported)
      (r : Result (List Server × List Notification))
      → written_bundle lib cipher fails base_domain now team trust bundle db r ≡ (inr imported, db')
      → IsReferring db'
  IsReferring-written_bundle bundle db db' imported (inl e) h = absurd (cc (ap (λ x. x.0) h))
  IsReferring-written_bundle bundle db db' imported (inr (ss, ns)) h =
      IsReferring-ended db db' imported _ (IsReferring-write_bundle bundle ss ns db) h

  -- After an import that succeeds, every server of the team is in a category of the team, whatever
  -- references the bundle had.
  pub apply_team_import-IsReferring :
      (bundle : Bundle) (db db' : Database) (imported : Imported)
      → apply_team_import lib cipher fails base_domain now team trust bundle db
        ≡ (inr imported, db')
      → IsReferring db'
  unfolding apply_team_import
  apply_team_import-IsReferring bundle db db' imported h =
      IsReferring-written_bundle bundle db db' imported _ h
