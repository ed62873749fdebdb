-- ===== src/Transfer/Export/Whole.antt =====
-- `buildTeamExport`
use mosona_manager.Encrypt.{Cipher}
use mosona_manager.Transfer.Bundle.{Team, Category, PublicPage, Bundle}
use mosona_manager.Transfer.Database.{
  CategoryRow, TeamRows, Database, Result, and_then, Failures, query, team_rows, of_team,
  reads_team, reads_categories, reads_team_alerts, reads_notifications, reads_page, database_error,
}
use mosona_manager.Transfer.Export.{Order, export_keys}
use mosona_manager.Transfer.Export.Servers.{export_servers}
use native.Mathlib.Decide.{ℕ_discrete}
use mosona_manager.Prelude.{Bool, List, Option, [], find, inl, inr, none, some, ℕ, ◌∷◌}

abbrev pub category_of : CategoryRow → Category
category_of row = record { ref_id = row.id; name = row.name; sort = row.sort }

abbrev pub categories_of : List CategoryRow → List Category
categories_of [] = []
categories_of (r ∷ rs) = category_of r ∷ categories_of rs

abbrev pub has_team : Option TeamRows → Result Team
has_team none = inl database_error
has_team (some rows) = inr rows.team

module _ (cipher : Cipher) (order : Order) (fails : Failures) where
  -- `none` where there is no row
  unfoldable pub export_public_page : ℕ → Database → Result (Option PublicPage)
  export_public_page team db = query fails reads_page db (team_rows team db).public_page

  unfoldable pub build_team_export : ℕ → Bool → Database → Result Bundle
  build_team_export team skip db =
      and_then (query fails reads_team db (find ℕ_discrete team db.teams)) (λ row.
        and_then (has_team row) (λ t.
          and_then
            (query fails reads_categories db
              (order.by_sort (categories_of (of_team (λ r. r.team) team db.categories))))
            (λ categories. and_then (export_keys cipher fails team db skip) (λ read.
              and_then
                (query fails reads_team_alerts db (order.by_item (team_rows team db).team_alerts))
                (λ team_alerts.
                  and_then (query fails reads_notifications db (team_rows team db).notifications)
                    (λ notifications. and_then (export_public_page team db) (λ page.
                      and_then (export_servers cipher order fails team db skip read.unreadable_ids)
                        (λ r. inr (record {
                          skipped_servers = r.skipped_servers;
                          skipped_keys = read.skipped_keys;
                          team = t;
                          categories = categories;
                          keys = read.keys;
                          team_alerts = team_alerts;
                          notifications = notifications;
                          public_page = page;
                          servers = r.servers;
                        })))))))))
