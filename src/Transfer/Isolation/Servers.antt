-- ===== src/Transfer/Isolation/Servers.antt =====
-- The import of servers is isolated: what it writes in the other tables belongs to new servers.
use mosona_manager.Transfer.Preserves.Servers.{Preserves-import_rest}
use mosona_manager.Encrypt.{Cipher}
use mosona_manager.Transfer.Bundle.{Server}
use mosona_manager.Transfer.Database.{Database, Failures, no_category}
use mosona_manager.Transfer.Checks.{Library}
use mosona_manager.Transfer.Import.{Renumbering, renumbered}
use mosona_manager.Transfer.Import.Servers.{
  insert_server_row, default_category, or_default, import_server, import_each_server,
  import_servers,
}
use mosona_manager.Transfer.Steps.{returning-bind}
use mosona_manager.Transfer.Isolation.{
  Same-trans, Follows, Isolated, Isolated-pure, Isolated-lift, Isolated-bind, Follows-attach,
  not_of_team-added, Follows-IsPreorder,
}
use mosona_manager.Prelude.{Bool, Bool-cases, List, [], arith, inl, inr, refl, ℕ, ◌==◌, ◌∷◌, ◌≢◌}

module _ (team id : ℕ) (lib : Library) (cipher : Cipher) (fails : Failures) (now : ℕ)
    (trust : Bool) where
  Follows-insert_server_row :
      (c : ℕ) (s : Server) (db : Database) → Follows team id db (insert_server_row team c s db)
  Follows-insert_server_row c s db (below, ahead) = (
    (below, omega arith),
    record {
      teams = λ t h. refl;
      keys = refl;
      categories = refl;
      attached = refl;
      servers = not_of_team-added team id (λ r. r.team_id) db.servers _ refl;
    },
  )

  Isolated-import_server :
      (default : ℕ) (categories keys : Renumbering) (s : Server)
      → Isolated team id (import_server lib cipher fails now team trust default categories keys s)
  unfolding import_server
  Isolated-import_server default categories keys s db b h (below, ahead) =
      let h1 = returning-bind _ _ _ _ _ db b h in
      let ne : db.next_server ≢ id = λ e. omega (arith, ahead, e) in
      let c = or_default (renumbered categories s.category_ref) default in
      let (ahead1, first) = Follows-insert_server_row c s db (below, ahead) in
      let (ahead2, then_) =
        Preserves-import_rest (Follows team id) (Follows-IsPreorder team id) (λ n. n ≢ id)
          (λ n f x. Follows-attach team id n f x) team lib cipher fails now trust db.next_server s
          keys ne (insert_server_row team c s db) b h1 ahead1 in
      (ahead2, Same-trans team id db (insert_server_row team c s db) b.1 first then_)

  Isolated-import_each_server :
      (default : ℕ) (categories keys : Renumbering) (ss : List Server)
      → Isolated team id
          (import_each_server lib cipher fails now team trust default categories keys ss)
  unfolding import_each_server
  Isolated-import_each_server default categories keys [] = Isolated-pure team id []
  Isolated-import_each_server default categories keys (s ∷ ss) =
      Isolated-bind team id _ _ (Isolated-import_server default categories keys s) (λ n.
        Isolated-bind team id _ _ (Isolated-import_each_server default categories keys ss)
          (λ ids. Isolated-pure team id (n ∷ ids)))

  pub Isolated-import_servers :
      (categories keys : Renumbering) (ss : List Server)
      → Isolated team id (import_servers lib cipher fails now team trust categories keys ss)
  unfolding import_servers
  Isolated-import_servers categories keys ss =
      elim (Bool-cases (default_category lib categories == 0)) [
        | inl t ↦ simp t (Isolated-lift team id (inl no_category))
        | inr t ↦
            simp t
              (Isolated-import_each_server (default_category lib categories) categories keys ss)
      ]
