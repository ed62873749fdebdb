-- ===== src/Stores/Tests.antt =====
-- The theorems on the stores, at concrete states.
use mosona_manager.Stores.AuthSession.{set_auth_session_state, consume_auth_session_state}
use mosona_manager.Stores.AuthSessionLaws.{run, consume_once, set, cleanup}
use mosona_manager.Prelude.{[], ap, arith, bytes, false, get_elem?, get_or, ◌∷◌, ◌≡◌}

consume_once_example :
    (consume_auth_session_state "s" 1 2 50 (
      run
        (set "t" 1 2 30 ∷ cleanup 40 ∷ [])
        (consume_auth_session_state "s" 1 2 20 (set_auth_session_state "s" 1 2 10 [])).1)).0
    ≡ false
consume_once_example =
    consume_once "s" 1 2 20 1 2 50 (set "t" 1 2 30 ∷ cleanup 40 ∷ [])
      (set_auth_session_state "s" 1 2 10 [])
      ((λ e. omega (arith, ap (λ x. get_or (get_elem? (bytes x) 0) 0) e)), tt)
