-- ===== src/Access/Tests.antt =====
-- The theorems on team access, at concrete requests.
use mathlib.Core.Logic.{◌↔◌}
use mathlib.Core.List.{Memᴰ}
use mosona_manager.Access.{validate_team_session, watch_team_session, found, granted, done, tick}
use mosona_manager.Access.Laws.{validate_team_session-granted, Granted, watch_team_session-silent}
use mosona_manager.Prelude.{[], none, some, true, ℕ, ◌∷◌, ◌≡◌, ◌≢◌}

abbrev member : ℕ
member = 1

abbrev team : ℕ
team = 2

validate_team_session-granted_example :
    (validate_team_session member team true (some true) (found 1) (0 ∷ 1 ∷ []) ≡ granted) ↔ (
      (member ≢ 0)
      × (team ≢ 0)
      × (true ≡ true)
      × (some true ≡ some true)
      × ((r : ℕ) × (found 1 ≡ found r) × Memᴰ r (0 ∷ 1 ∷ [])))
validate_team_session-granted_example =
    validate_team_session-granted member team true (some true) (found 1) (0 ∷ 1 ∷ [])

watch_team_session-silent_example :
    (watch_team_session 1 2 true
        (0 ∷ [])
        (some true)
        (found 0)
        (tick (some true) (found 1) ∷ done ∷ [])
      ≡ none)
    ↔ Granted 1 2 true
        (0 ∷ [])
        (tick (some true) (found 0) ∷ tick (some true) (found 1) ∷ done ∷ [])
watch_team_session-silent_example =
    watch_team_session-silent 1 2 true (0 ∷ []) (some true) (found 0)
      (tick (some true) (found 1) ∷ done ∷ [])
