-- ===== src/Transfer/Accounting/Whole.antt =====
-- A whole export, accounted for.
use mosona_manager.Encrypt.{Cipher}
use mosona_manager.Transfer.Bundle.{Bundle}
use mosona_manager.Transfer.Database.{Database, Failures, of_team}
use mosona_manager.Transfer.Export.{Order, export_keys}
use mosona_manager.Transfer.Export.Servers.{export_servers}
use mosona_manager.Transfer.Export.Whole.{export_public_page, build_team_export}
use mosona_manager.Transfer.Steps.{right_injective, and_then_inverse, query_then}
use mosona_manager.Transfer.Accounting.{Accounted, AccountedKeys, ids_of_keys, export_rows_lem}
use mosona_manager.Transfer.Accounting.Servers.{export_each_lem}
use mathlib.Core.Path.{subst}
use mosona_manager.Prelude.{Bool, [], ap, false, inr, refl, ℕ, ◌∙◌, ◌≡◌}

module _ (cipher : Cipher) (order : Order) (fails : Failures) where
  -- the rows that an export reads, against its bundle
  abbrev pub IsComplete : ℕ → Bool → Database → Bundle → Type 0
  IsComplete team skip db bundle =
      AccountedKeys (of_team (λ r. r.team_id) team db.keys) bundle.keys bundle.skipped_keys
      × Accounted (ids_of_keys bundle.skipped_keys) (of_team (λ r. r.team_id) team db.servers)
          bundle.servers bundle.skipped_servers
      × (skip ≡ false → (bundle.skipped_keys ≡ []) × (bundle.skipped_servers ≡ []))

  -- An export that succeeds has each key of the team under its identifier, or lists it among the
  -- keys it skipped, in the order of the rows; each server of the team likewise; and no server of
  -- the bundle uses a key that was skipped. Unless unreadable credentials are to be skipped, none
  -- is: both lists are empty.
  pub build_team_export-IsComplete :
      (team : ℕ) (skip : Bool) (db : Database) (bundle : Bundle)
      → build_team_export cipher order fails team skip db ≡ inr bundle
      → IsComplete team skip db bundle
  unfolding build_team_export export_keys export_servers export_public_page
  build_team_export-IsComplete team skip db bundle h =
      let (t, e, h1) = and_then_inverse _ _ bundle (query_then fails _ db _ _ bundle h) in
      let (read, k, h2) = and_then_inverse _ _ bundle (query_then fails _ db _ _ bundle h1) in
      let h3 = query_then fails _ db _ _ bundle (query_then fails _ db _ _ bundle h2) in
      let (r, s, h4) = and_then_inverse _ _ bundle (query_then fails _ db _ _ bundle h3) in
      let (keys, ids, all_keys) =
        export_rows_lem cipher skip _ read (query_then fails _ db _ _ read k) in
      let (servers, all_servers) =
        export_each_lem cipher order fails db skip read.unreadable_ids _ r
          (query_then fails _ db _ _ r s) in
      subst (IsComplete team skip db) (right_injective _ refl h4) (
        keys,
        subst
            (λ x.
              Accounted x (of_team (λ r. r.team_id) team db.servers) r.servers r.skipped_servers)
            ids servers,
        λ q. (all_keys q, all_servers q (ids ∙ ap ids_of_keys (all_keys q))),
      )
