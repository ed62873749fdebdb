-- ===== src/Stores/AuthSession.antt =====
-- internal/utils/store/auth_session.go: the state parameter of an OAuth sign-in, which may be
-- used once. Instants are nanoseconds.
use Prim.Native.String.{String}
use mathlib.Core.Option
use mosona_manager.Prelude.{
  Bool, List, Option, String-discrete, [], delete, false, find, if◌then◌else◌, leb, ltb, none, some,
  store, ℕ, ◌&&◌, ◌+◌, ◌==◌, ◌∷◌,
}

pub record AuthSessionState : Type 0 where
  pub created_at : ℕ
  pub provider_id : ℕ
  pub config_revision : ℕ

abbrev pub Store : Type 0
Store = List (String × AuthSessionState)

-- ten minutes
abbrev pub state_ttl : ℕ
state_ttl = 600_000_000_000

unfoldable pub get_auth_session_state : String → Store → Option ℕ
get_auth_session_state state data_ =
    Option.map (λ e. e.created_at) (find String-discrete state data_)

unfoldable pub set_auth_session_state : String → ℕ → ℕ → ℕ → Store → Store
set_auth_session_state state provider_id config_revision now data_ =
    store String-discrete state
      (record { created_at = now; provider_id = provider_id; config_revision = config_revision })
      data_

-- the three conditions of `ConsumeAuthSessionState` on the entry
unfoldable pub is_usable : AuthSessionState → ℕ → ℕ → ℕ → Bool
is_usable entry provider_id config_revision now =
    entry.provider_id == provider_id
    && entry.config_revision == config_revision
    && leb now (entry.created_at + state_ttl)

unfoldable pub consume_entry : Option AuthSessionState → String → ℕ → ℕ → ℕ → Store → Bool × Store
unfolding is_usable
consume_entry none state provider_id config_revision now data_ = (false, data_)
consume_entry (some entry) state provider_id config_revision now data_ =
    (is_usable entry provider_id config_revision now, delete String-discrete state data_)

-- `ConsumeAuthSessionState`: its answer, and the store afterwards
unfoldable pub consume_auth_session_state : String → ℕ → ℕ → ℕ → Store → Bool × Store
unfolding consume_entry
consume_auth_session_state state provider_id config_revision now data_ =
    consume_entry (find String-discrete state data_) state provider_id config_revision now data_

unfoldable pub delete_auth_session_state : String → Store → Store
delete_auth_session_state state data_ = delete String-discrete state data_

-- the loops that delete every entry with a property
unfoldable pub drop_where : (AuthSessionState → Bool) → Store → Store
drop_where p [] = []
drop_where p ((state, entry) ∷ data_) =
    if p entry then drop_where p data_ else (state, entry) ∷ drop_where p data_

-- `RevokeAuthSessionStates`
unfoldable pub revoke_auth_session_states : ℕ → ℕ → Store → Store
revoke_auth_session_states provider_id through =
    drop_where (λ e. e.provider_id == provider_id && leb e.config_revision through)

-- one tick of `cleanupExpiredData`
unfoldable pub cleanup_expired_data : ℕ → Store → Store
cleanup_expired_data now = drop_where (λ e. ltb (e.created_at + state_ttl) now)
