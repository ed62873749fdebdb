-- ===== src/Transfer/Isolation.antt =====
-- An import changes nothing of the other teams: the relation between the states before and after a
-- part of it, and how it composes.
pub mod Servers
pub mod Parts
pub mod Whole
use mosona_manager.Transfer.Preserves.{
  IsPreorder, Preserves, Preserves-pure, Preserves-lift, Preserves-bind,
}
use mosona_manager.Encrypt.{Cipher}
use mathlib.Core.List.{append-nil}
use mathlib.Core.Path.{subst}
use mosona_manager.Transfer.Bundle.{Category, Key}
use mosona_manager.Transfer.Database.{
  Attached, no_rows, TeamRows, Database, Result, Tx, ◌>>=◌, pure, lift, Failures, update_team_rows,
  rows_of, attach, not_of_team, changed_rows,
}
use mosona_manager.Transfer.Import.{insert_category, stored_password, import_key}
use mosona_manager.Transfer.Rows.{
  AllBelow, AllBelow-append, not_of_team-append, new_row, import_key_writes,
}
use native.Mathlib.Decide.{ℕ_discrete}
use mosona_manager.Prelude.{
  List, Option, [], ap, arith, find, find-store_ne, get_or, none, refl, same, some, sym, ℕ, ◌++◌,
  ◌<◌, ◌∙◌, ◌∷◌, ◌≡◌, ◌≢◌,
}

-- the same for all but one team, and for one server in the other tables
pub record Same (team id : ℕ) (db db' : Database) : Type 0 where
  pub teams : (t : ℕ) → team ≢ t → find ℕ_discrete t db'.teams ≡ find ℕ_discrete t db.teams
  pub categories :
      not_of_team (λ r. r.team) team db'.categories ≡ not_of_team (λ r. r.team) team db.categories
  pub keys : not_of_team (λ r. r.team_id) team db'.keys ≡ not_of_team (λ r. r.team_id) team db.keys
  pub servers :
      not_of_team (λ r. r.team_id) team db'.servers ≡ not_of_team (λ r. r.team_id) team db.servers
  pub attached : rows_of id db'.attached ≡ rows_of id db.attached

-- the sequences are ahead of the keys, and of the server
abbrev pub IsAhead : ℕ → Database → Type 0
IsAhead id db = AllBelow db.next_key db.keys × (id < db.next_server)

module _ (team id : ℕ) where
  pub Same-itself : (db : Database) → Same team id db db
  Same-itself db = record {
    teams = λ t h. refl;
    categories = refl;
    keys = refl;
    servers = refl;
    attached = refl;
  }

  pub Same-trans :
      (db db' db'' : Database) → Same team id db db' → Same team id db' db'' → Same team id db db''
  Same-trans db db' db'' a b = record {
    teams = λ t h. b.teams t h ∙ a.teams t h;
    categories = b.categories ∙ a.categories;
    keys = b.keys ∙ a.keys;
    servers = b.servers ∙ a.servers;
    attached = b.attached ∙ a.attached;
  }

  abbrev pub Follows : Database → Database → Type 0
  Follows db db' = IsAhead id db → IsAhead id db' × Same team id db db'

  pub Follows-IsPreorder : IsPreorder Follows
  Follows-IsPreorder = record {
    itself = λ db ahead. (ahead, Same-itself db);
    trans = λ db db' db'' f g ahead.
        let (ahead', same) = f ahead in
        let (ahead'', same') = g ahead' in (ahead'', Same-trans db db' db'' same same');
  }

  -- a part of a transaction that does not touch the others
  abbrev pub Isolated : {A : Type 0} → Tx A → Type 0
  Isolated = Preserves Follows

  module _ {A : Type 0} where
    pub Isolated-pure : (a : A) → Isolated (pure a)
    Isolated-pure = Preserves-pure Follows Follows-IsPreorder

    pub Isolated-lift : (r : Result A) → Isolated (lift r)
    Isolated-lift = Preserves-lift Follows Follows-IsPreorder

    pub Isolated-bind :
        {B : Type 0} (m : Tx A) (k : A → Tx B)
        → Isolated m
        → ((a : A) → Isolated (k a))
        → Isolated (m >>= k)
    Isolated-bind = Preserves-bind Follows Follows-IsPreorder

  -- the changes of state
  pub Follows-update_team_rows :
      (f : TeamRows → TeamRows) (db : Database) → Follows db (update_team_rows team f db)
  unfolding update_team_rows
  Follows-update_team_rows f db ahead = (
    ahead,
    record {
      teams = λ t h. others t h (find ℕ_discrete team db.teams);
      categories = refl;
      keys = refl;
      servers = refl;
      attached = refl;
    },
  )
    where
      others :
          (t : ℕ)
          → team ≢ t
          → (o : Option TeamRows)
          → find ℕ_discrete t (changed_rows team f db.teams o) ≡ find ℕ_discrete t db.teams
      others t h none = refl
      others t h (some rows) = find-store_ne ℕ_discrete team t (f rows) db.teams h

  pub Follows-attach :
      (n : ℕ) (f : Attached → Attached) (db : Database) → n ≢ id → Follows db (attach n f db)
  unfolding attach rows_of
  Follows-attach n f db ne ahead = (
    ahead,
    record {
      teams = λ t h. refl;
      categories = refl;
      keys = refl;
      servers = refl;
      attached =
          ap (λ x. get_or x no_rows)
            (find-store_ne ℕ_discrete n id (f (rows_of n db.attached)) db.attached ne);
    },
  )

  not_of_team_own :
      {R : Type 0} (key : R → ℕ) (r : R) → key r ≡ team → not_of_team key team (r ∷ []) ≡ []
  unfolding not_of_team
  not_of_team_own key r e = ground (arith, e)

  -- a row of the team at the end of a table
  pub not_of_team-added :
      {R : Type 0} (key : R → ℕ) (rows : List R) (r : R)
      → key r ≡ team
      → not_of_team key team (rows ++ r ∷ []) ≡ not_of_team key team rows
  not_of_team-added key rows r e =
      not_of_team-append key team rows (r ∷ [])
      ∙ ap (λ x. not_of_team key team rows ++ x) (not_of_team_own key r e)
      ∙ append-nil (not_of_team key team rows)

  pub Follows-insert_category :
      (c : Category) (db : Database) → Follows db (insert_category team c db)
  unfolding insert_category
  Follows-insert_category c db ahead = (
    ahead,
    record {
      teams = λ t h. refl;
      keys = refl;
      servers = refl;
      attached = refl;
      categories = not_of_team-added (λ r. r.team) db.categories _ refl;
    },
  )

  pub Isolated-import_key :
      (cipher : Cipher) (fails : Failures) (k : Key) → Isolated (import_key cipher fails team k)
  Isolated-import_key cipher fails k db b h (below, ahead) =
      let (content, password, e, p, q) = import_key_writes cipher team fails k db b below h in
      let row = record (new_row team db k) {
        content = content;
        password = stored_password password;
      } in
      subst (λ x. IsAhead id x.1 × Same team id db x.1) (sym q)
        (
          (AllBelow-append db.next_key db.keys row below refl, ahead),
          record {
            teams = λ t h. refl;
            categories = refl;
            servers = refl;
            attached = refl;
            keys = not_of_team-added (λ r. r.team_id) db.keys row refl;
          },
        )
