-- ===== src/Stores/AuthSessionLaws.antt =====
-- A state is good for one sign-in, for the provider and the configuration it was made for.
use Prim.Native.String.{String}
use mosona_manager.Stores.AuthSession.{
  AuthSessionState, Store, state_ttl, set_auth_session_state, consume_auth_session_state,
  delete_auth_session_state, drop_where, revoke_auth_session_states, cleanup_expired_data,
}
use mosona_manager.Prelude.{
  Bool, List, String-discrete, [], arith, delete, false, find, find-delete, find-delete_self,
  find-store_ne, find-store_self, leb, none, refl, store, true, ℕ, ◌&&◌, ◌+◌, ◌==◌, ◌↔◌, ◌∙◌, ◌∷◌,
  ◌≡◌, ◌≢◌, ◌≤◌,
}

-- the operations, each by its arguments; `set` and `cleanup` bring the time
pub data Op : Type 0 where
  set : String → ℕ → ℕ → ℕ → Op
  consume : String → ℕ → ℕ → ℕ → Op
  remove : String → Op
  revoke : ℕ → ℕ → Op
  cleanup : ℕ → Op

unfoldable pub apply : Op → Store → Store
apply (set state p r now) s = set_auth_session_state state p r now s
apply (consume state p r now) s = (consume_auth_session_state state p r now s).1
apply (remove state) s = delete_auth_session_state state s
apply (revoke p through) s = revoke_auth_session_states p through s
apply (cleanup now) s = cleanup_expired_data now s

unfoldable pub run : List Op → Store → Store
run [] s = s
run (op ∷ ops) s = run ops (apply op s)

-- no operation of the list makes the state anew
abbrev pub NotSet : String → List Op → Type 0
NotSet state [] = Unit
NotSet state (set other p r now ∷ ops) = (other ≢ state) × NotSet state ops
NotSet state (op ∷ ops) = NotSet state ops

drop_where-none :
    (p : AuthSessionState → Bool) (state : String) (s : Store)
    → find String-discrete state s ≡ none
    → find String-discrete state (drop_where p s) ≡ none
unfolding find drop_where
drop_where-none p state [] h = refl
drop_where-none p state ((k, e) ∷ s) h = ground (arith, drop_where-none p state s)

delete-none :
    (k state : String) (s : Store)
    → find String-discrete state s ≡ none
    → find String-discrete state (delete String-discrete k s) ≡ none
delete-none k state s h = ground (arith, find-delete String-discrete k state s)

consume_none :
    (k state : String) (p r now : ℕ) (s : Store)
    → find String-discrete state s ≡ none
    → find String-discrete state (consume_auth_session_state k p r now s).1 ≡ none
unfolding consume_auth_session_state
consume_none k state p r now s h = ground (arith, delete-none k state s)

stays_gone :
    (ops : List Op) (state : String) (s : Store)
    → NotSet state ops
    → find String-discrete state s ≡ none
    → find String-discrete state (run ops s) ≡ none
unfolding run apply
stays_gone [] state s n h = h
stays_gone (set k p r now ∷ ops) state s n h =
    stays_gone ops state (set_auth_session_state k p r now s) n.1
      (unfold set_auth_session_state in find-store_ne String-discrete k state _ s n.0 ∙ h)
stays_gone (consume k p r now ∷ ops) state s n h =
    stays_gone ops state (consume_auth_session_state k p r now s).1 n
      (consume_none k state p r now s h)
stays_gone (remove k ∷ ops) state s n h =
    stays_gone ops state (delete_auth_session_state k s) n
      (unfold delete_auth_session_state in delete-none k state s h)
stays_gone (revoke p through ∷ ops) state s n h =
    stays_gone ops state (revoke_auth_session_states p through s) n
      (unfold revoke_auth_session_states in drop_where-none _ state s h)
stays_gone (cleanup now ∷ ops) state s n h =
    stays_gone ops state (cleanup_expired_data now s) n
      (unfold cleanup_expired_data in drop_where-none _ state s h)

gone_refused :
    (state : String) (p r now : ℕ) (s : Store)
    → find String-discrete state s ≡ none
    → (consume_auth_session_state state p r now s).0 ≡ false
unfolding consume_auth_session_state
gone_refused state p r now s h = ground arith

consume_gone :
    (state : String) (p r now : ℕ) (s : Store)
    → find String-discrete state (consume_auth_session_state state p r now s).1 ≡ none
unfolding consume_auth_session_state
consume_gone state p r now s = ground (arith, find-delete_self String-discrete state s)

-- A state that was presented once, whether it was accepted or not, is refused from then on,
-- whatever else happens to the store, until it is made anew.
pub consume_once :
    (state : String) (p r now p' r' later : ℕ) (ops : List Op) (s : Store)
    → NotSet state ops
    → (consume_auth_session_state state p' r' later
        (run ops (consume_auth_session_state state p r now s).1)).0
      ≡ false
consume_once state p r now p' r' later ops s n = gone_refused state p' r' later _ (
    stays_gone ops state (consume_auth_session_state state p r now s).1 n
      (consume_gone state p r now s))

-- A fresh state is accepted exactly for the provider and the configuration revision that it was
-- made for, within ten minutes.
pub consume-set :
    (state : String) (p r now p' r' later : ℕ) (s : Store)
    → ((consume_auth_session_state state p' r' later (set_auth_session_state state p r now s)).0
        ≡ true)
      ↔ ((p ≡ p') × (r ≡ r') × (later ≤ now + state_ttl))
unfolding consume_auth_session_state set_auth_session_state
consume-set state p r now p' r' later s = ground (
  arith,
  find-store_self String-discrete state
      (record { created_at = now; provider_id = p; config_revision = r }) s,
)

drop_where-store :
    (p : AuthSessionState → Bool) (state : String) (entry : AuthSessionState) (s : Store)
    → p entry ≡ true
    → find String-discrete state s ≡ none
    → find String-discrete state (drop_where p (store String-discrete state entry s)) ≡ none
unfolding find drop_where store
drop_where-store p state entry [] h k = ground arith
drop_where-store p state entry ((j, e) ∷ s) h k = ground (arith, drop_where-store p state entry s)

-- Revoking a provider's states up to a configuration revision refuses each state that was made
-- for it at such a revision.
pub revoke-set :
    (state : String) (p r now through p' r' later : ℕ) (s : Store)
    → r ≤ through
    → find String-discrete state s ≡ none
    → (consume_auth_session_state state p' r' later
        (revoke_auth_session_states p through (set_auth_session_state state p r now s))).0
      ≡ false
revoke-set state p r now through p' r' later s h fresh =
    gone_refused state p' r' later
      (revoke_auth_session_states p through (set_auth_session_state state p r now s))
      (unfold revoke_auth_session_states set_auth_session_state in
        drop_where-store (λ e. e.provider_id == p && leb e.config_revision through) state
          (record { created_at = now; provider_id = p; config_revision = r }) s (ground arith)
          fresh)
