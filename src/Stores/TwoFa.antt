-- ===== src/Stores/TwoFa.antt =====
-- internal/utils/store/2fa.go and cooling.go: the state of a second-factor sign-in, and the time
-- until which a user is to wait. Expiries are in seconds.
use Prim.Native.String.{String}
use native.Mathlib.Decide.{ℕ_discrete}
use mosona_manager.Prelude.{
  Bool, List, Option, String-discrete, [], arith, delete, find, if◌then◌else◌, ltb, some, store, ℕ,
  ◌==◌, ◌∷◌, ◌≡◌, ◌≢◌,
}

pub record TwoFaCodeState : Type 0 where
  pub uid : ℕ
  pub expire : ℕ

abbrev pub Store : Type 0
Store = List (String × TwoFaCodeState)

unfoldable pub get_two_fa_code_state : String → Store → Option TwoFaCodeState
get_two_fa_code_state state s = find String-discrete state s

unfoldable pub set_two_fa_code_state : String → ℕ → ℕ → Store → Store
set_two_fa_code_state state uid expire s =
    store String-discrete state (record { uid = uid; expire = expire }) s

unfoldable pub delete_two_fa_code_state : String → Store → Store
delete_two_fa_code_state state s = delete String-discrete state s

-- the loops that delete every entry with a property
unfoldable pub drop_where : (TwoFaCodeState → Bool) → Store → Store
drop_where p [] = []
drop_where p ((state, entry) ∷ s) =
    if p entry then drop_where p s else (state, entry) ∷ drop_where p s

-- `DeleteTwoFACodeByUID`
unfoldable pub delete_two_fa_code_by_uid : ℕ → Store → Store
delete_two_fa_code_by_uid uid = drop_where (λ e. e.uid == uid)

-- one tick of `cleanupExpired2FAData`
unfoldable pub cleanup_expired_2fa_data : ℕ → Store → Store
cleanup_expired_2fa_data now = drop_where (λ e. ltb e.expire now)

-- `coolingStore`: until when a user waits
abbrev pub Cooling : Type 0
Cooling = List (ℕ × ℕ)

unfoldable pub get_cooling : ℕ → Cooling → Option ℕ
get_cooling uid c = find ℕ_discrete uid c

unfoldable pub set_cooling : ℕ → ℕ → Cooling → Cooling
set_cooling uid expire c = store ℕ_discrete uid expire c

-- one tick of `cleanupExpiredCoolingLock`
unfoldable pub cleanup_expired_cooling_lock : ℕ → Cooling → Cooling
cleanup_expired_cooling_lock now [] = []
cleanup_expired_cooling_lock now ((uid, expire) ∷ c) =
    if ltb expire now
    then cleanup_expired_cooling_lock now c
    else (uid, expire) ∷ cleanup_expired_cooling_lock now c

deleted_uid :
    (uid : ℕ) (state : String) (s : Store) (e : TwoFaCodeState)
    → get_two_fa_code_state state (delete_two_fa_code_by_uid uid s) ≡ some e
    → e.uid ≢ uid
unfolding get_two_fa_code_state delete_two_fa_code_by_uid drop_where find
deleted_uid uid state [] e h = cc
deleted_uid uid state ((k, w) ∷ s) e h = ground (arith, deleted_uid uid state s e)

kept_uid :
    (uid : ℕ) (state : String) (s : Store) (e : TwoFaCodeState)
    → get_two_fa_code_state state s ≡ some e
    → e.uid ≢ uid
    → get_two_fa_code_state state (delete_two_fa_code_by_uid uid s) ≡ some e
unfolding get_two_fa_code_state delete_two_fa_code_by_uid drop_where find
kept_uid uid state [] e h n = cc
kept_uid uid state ((k, w) ∷ s) e h n = ground (arith, kept_uid uid state s e)

-- After the states of a user are deleted, no state that can be read belongs to that user, and
-- every state of another user reads as before.
pub delete_two_fa_code_by_uid_lem :
    (uid : ℕ) (state : String) (s : Store) (e : TwoFaCodeState)
    → (get_two_fa_code_state state (delete_two_fa_code_by_uid uid s) ≡ some e → e.uid ≢ uid)
      × (get_two_fa_code_state state s ≡ some e
          → e.uid ≢ uid
          → get_two_fa_code_state state (delete_two_fa_code_by_uid uid s) ≡ some e)
delete_two_fa_code_by_uid_lem uid state s e = (deleted_uid uid state s e, kept_uid uid state s e)
