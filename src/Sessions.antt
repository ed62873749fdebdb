-- ===== src/Sessions.antt =====
-- internal/redis/sessions.go: the sessions of users in Redis. The value of a session is a map that
-- gob encodes; a set for each user lists the identifiers of the user's sessions.
pub mod Team
pub mod Listing
mod Tests
use mathlib.Core.Option
use Prim.Native.String.{String}
use mathlib.Core.List.{Memᴰ}
use mathlib.Core.Logic.{ite}
use mosona_manager.Prelude.{
  Bool, List, Option, String-discrete, [], false, find, get_or, if◌then◌else◌, inl, inr,
  is_positive, none, not, same_int, some, true, ℤ, ◌||◌, ◌∷◌, ◌≡◌, ◌⊎◌,
}

infixl 5 ◌>>=◌
abbrev pub ◌>>=◌ {ℓ κ} : {A : Type ℓ} {B : Type κ} → Option A → (A → Option B) → Option B
none >>= f = none
some a >>= f = f a

-- what gob decodes to, as far as the type assertions tell it apart
pub data GobValue : Type 0 where
  gob_int : ℤ → GobValue
  gob_text : String → GobValue
  gob_other : GobValue

pub record SessionData : Type 0 where
  pub id : String
  pub uid : ℤ
  pub tid : ℤ
  pub user_agent : String
  pub client_ip : String
  pub time : ℤ

abbrev pub int_of : Option GobValue → Option ℤ
int_of (some (gob_int i)) = some i
int_of _ = none

abbrev pub text_of : Option GobValue → Option String
text_of (some (gob_text t)) = some t
text_of _ = none

abbrev pub field : String → List (String × GobValue) → Option GobValue
field name m = find String-discrete name m

-- what `ParseSessionData` does with a map, and with what gob decodes
unfoldable pub session_of_map : String → List (String × GobValue) → Option SessionData
session_of_map id m = do
  uid ← int_of (field "uid" m)
  tid ← int_of (field "tid" m)
  user_agent ← text_of (field "user_agent" m)
  time ← int_of (field "time" m)
  some (record {
    id = id;
    uid = uid;
    tid = tid;
    user_agent = user_agent;
    client_ip = get_or (text_of (field "client_ip" m)) "";
    time = time;
  })

-- Redis, as the sessions use it: the values, the sets, and the commands that change them, with
-- whether they succeed. `gob` is the decoder.
pub record SessionRedis : Type 1 where
  pub Store : Type 0
  pub value : String → Store → Option String
  pub members : ℤ → Store → List String
  pub del : String → Store → Bool × Store
  pub srem : ℤ → List String → Store → Bool × Store
  -- `DEL` of every session and `SREM`, in one transaction
  pub remove_all : ℤ → List String → Store → Bool × Store
  pub gob : String → Option (List (String × GobValue))

-- the commands that only read and that fail in this call
pub record Faults : Type 0 where
  pub list_fails : Bool
  pub get_fails : String → Bool

pub data SessionsError : Type 0 where
  invalid_ids list_failed remove_failed : SessionsError
  read_failed : String → SessionsError
  foreign_session : String → ℤ → SessionsError

module _ (redis : SessionRedis) where
  unfoldable pub parse_session_data : String → String → Option SessionData
  unfolding session_of_map
  parse_session_data id data_ = redis.gob data_ >>= session_of_map id

  -- a turn of the loop in `removeUserTeamSessions`, on what was read: whether the session matches
  unfoldable pub matches_session : ℤ → ℤ → String → Option SessionData → SessionsError ⊎ Bool
  matches_session uid team id none = inr true
  matches_session uid team id (some s) =
      if not (same_int s.uid uid) then inl (foreign_session id s.uid) else inr (same_int s.tid team)

  unfoldable pub matches_value : ℤ → ℤ → String → Option String → SessionsError ⊎ Bool
  unfolding matches_session parse_session_data
  matches_value uid team id none = inr true
  matches_value uid team id (some data_) = matches_session uid team id (parse_session_data id data_)

  abbrev pub matched :
      String → SessionsError ⊎ Bool → SessionsError ⊎ List String → SessionsError ⊎ List String
  matched id (inl e) rest = inl e
  matched id (inr b) (inl e) = inl e
  matched id (inr b) (inr ids) = inr (if b then id ∷ ids else ids)

  -- the loop
  unfoldable pub matching : Faults → ℤ → ℤ → List String → redis.Store → SessionsError ⊎ List String
  unfolding matches_value
  matching faults uid team [] s = inr []
  matching faults uid team (id ∷ ids) s =
      matched id
        (if faults.get_fails id
          then inl (read_failed id)
          else matches_value uid team id (redis.value id s))
        (matching faults uid team ids s)

  abbrev pub removed : Bool × redis.Store → Option SessionsError × redis.Store
  removed (done, s) = (if done then none else some remove_failed, s)

  -- the end of `removeUserTeamSessions`
  unfoldable pub remove_matching :
      ℤ → SessionsError ⊎ List String → redis.Store → Option SessionsError × redis.Store
  remove_matching uid (inl e) s = (some e, s)
  remove_matching uid (inr []) s = (none, s)
  remove_matching uid (inr (id ∷ ids)) s = removed (redis.remove_all uid (id ∷ ids) s)

  -- `RemoveUserTeamSessions`: its error, and Redis afterwards
  unfoldable pub remove_user_team_sessions :
      Faults → ℤ → ℤ → redis.Store → Option SessionsError × redis.Store
  unfolding matching remove_matching
  remove_user_team_sessions faults uid team s =
      if not (is_positive uid) || not (is_positive team)
      then (some invalid_ids, s)
      else if faults.list_fails
      then (some list_failed, s)
      else remove_matching uid (matching faults uid team (redis.members uid s) s) s

  abbrev pub and_then : Bool × redis.Store → (redis.Store → Bool × redis.Store) → Bool × redis.Store
  and_then (false, s) next = (false, s)
  and_then (true, s) next = next s

  -- `RemoveSessionIDs`: whether it succeeded, and Redis afterwards
  unfoldable pub remove_session_ids : List String → redis.Store → Bool × redis.Store
  remove_session_ids [] s = (true, s)
  remove_session_ids (id ∷ ids) s = and_then (redis.del id s) (λ t. remove_session_ids ids t)

  unfoldable pub remove_user_session_ids : ℤ → List String → redis.Store → Bool × redis.Store
  unfolding remove_session_ids
  remove_user_session_ids uid [] s = (true, s)
  remove_user_session_ids uid (id ∷ ids) s =
      and_then (remove_session_ids (id ∷ ids) s) (λ t. redis.srem uid (id ∷ ids) t)

  abbrev pub session_of : String → Option String → Option SessionData
  session_of id none = none
  session_of id (some String.[]) = none
  session_of id (some (String.◌∷◌ c rest)) = parse_session_data id (String.◌∷◌ c rest)

  -- a turn of the loop in `GetUserSessions`
  unfoldable pub read_session : Faults → String → redis.Store → Option SessionData
  unfolding parse_session_data
  read_session faults id s = if faults.get_fails id then none else session_of id (redis.value id s)

  abbrev pub sorted_out :
      String → Option SessionData → List String × List SessionData → List String × List SessionData
  sorted_out id none (gone, found) = (id ∷ gone, found)
  sorted_out id (some d) (gone, found) = (gone, d ∷ found)

  -- the loop: the identifiers to clean up, and the sessions
  unfoldable pub collect : Faults → List String → redis.Store → List String × List SessionData
  unfolding read_session
  collect faults [] s = ([], [])
  collect faults (id ∷ ids) s = sorted_out id (read_session faults id s) (collect faults ids s)

  abbrev pub listed :
      List SessionData → Bool × redis.Store → (SessionsError ⊎ List SessionData) × redis.Store
  listed found (true, s) = (inr found, s)
  listed found (false, s) = (inl remove_failed, s)

  unfoldable pub get_user_sessions :
      Faults → ℤ → redis.Store → (SessionsError ⊎ List SessionData) × redis.Store
  unfolding collect remove_user_session_ids
  get_user_sessions faults uid s =
      if faults.list_fails
      then (inl list_failed, s)
      else (let (gone, found) = collect faults (redis.members uid s) s in
          listed found (remove_user_session_ids uid gone s))

-- what Redis documents of these commands
pub record IsSessionRedis (redis : SessionRedis) : Type 0 where
  pub del_value :
      (i j : String) (s : redis.Store)
      → (redis.del i s).0 ≡ true
      → redis.value j (redis.del i s).1 ≡ ite (String-discrete i j) none (redis.value j s)
  pub srem_value :
      (uid : ℤ) (ids : List String) (i : String) (s : redis.Store)
      → redis.value i (redis.srem uid ids s).1 ≡ redis.value i s
  pub remove_all_value :
      (uid : ℤ) (ids : List String) (i : String) (s : redis.Store)
      → (redis.remove_all uid ids s).0 ≡ true
      → (Memᴰ i ids → redis.value i (redis.remove_all uid ids s).1 ≡ none)
        × (¬ Memᴰ i ids → redis.value i (redis.remove_all uid ids s).1 ≡ redis.value i s)
