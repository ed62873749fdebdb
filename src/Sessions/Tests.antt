-- ===== src/Sessions/Tests.antt =====
-- The theorems on sessions, at a Redis that is an association list with one user's set.
use Prim.Native.String.{String}
use mathlib.Core.List.{Memᴰ}
use mathlib.Core.Logic.{ite}
use mosona_manager.Sessions.{
  GobValue, session_of_map, SessionRedis, Faults, parse_session_data, matches_session,
  matches_value, matching, remove_matching, remove_user_team_sessions, remove_session_ids,
  remove_user_session_ids, read_session, collect, get_user_sessions, IsSessionRedis, gob_int,
  gob_text, read_failed,
}
use mosona_manager.Sessions.Team.{left_of, has_text, remove_user_team_sessions_lem}
use mosona_manager.Sessions.Listing.{remove_user_team_sessions_untouched, get_user_sessions_deletes}
use mosona_manager.Prelude.{
  List, String-discrete, [], delete, false, find, find-delete, if◌then◌else◌, is_some, none, not,
  pos, refl, sym, true, ℕ, ◌&&◌, ◌∙◌, ◌∷◌, ◌≡◌,
}

unfoldable delete_all : List String → List (String × String) → List (String × String)
delete_all [] m = m
delete_all (i ∷ is) m = delete String-discrete i (delete_all is m)

-- what the values "one", "two" and "other" decode to
abbrev session_map : ℕ → ℕ → List (String × GobValue)
session_map uid tid =
    ("uid", gob_int (pos uid))
    ∷ ("tid", gob_int (pos tid))
    ∷ ("user_agent", gob_text "browser")
    ∷ ("time", gob_int (pos 1000))
    ∷ []

abbrev decoded : List (String × List (String × GobValue))
decoded = ("one", session_map 7 1) ∷ ("two", session_map 7 2) ∷ ("other", session_map 8 1) ∷ []

abbrev redis : SessionRedis
redis = record {
  Store = List (String × String) × List String;
  value = λ i s. find String-discrete i s.0;
  members = λ uid s. s.1;
  del = λ i s. (true, (delete String-discrete i s.0, s.1));
  srem = λ uid ids s. (true, s);
  remove_all = λ uid ids s. (true, (delete_all ids s.0, s.1));
  gob = λ d. find String-discrete d decoded;
}

find-delete_all :
    (i : String) (ids : List String) (m : List (String × String))
    → (Memᴰ i ids → find String-discrete i (delete_all ids m) ≡ none)
      × (¬ Memᴰ i ids → find String-discrete i (delete_all ids m) ≡ find String-discrete i m)
unfolding delete_all
find-delete_all i [] m = (λ k. elim k [ ], λ n. refl)
find-delete_all i (j ∷ js) m =
    let (gone, kept) = find-delete_all i js m in
    let here = find-delete String-discrete j i (delete_all js m) in
    (
      λ k. here ∙ among (String-discrete j i) gone k,
      λ n. here ∙ beyond (String-discrete j i) kept n,
    )
  where
    among :
        (d : Dec (j ≡ i))
        → (Memᴰ i js → find String-discrete i (delete_all js m) ≡ none)
        → Memᴰ i (j ∷ js)
        → ite d none (find String-discrete i (delete_all js m)) ≡ none
    among (yes p) g k = refl
    among (no n) g (Memᴰ.head p) = absurd (n (sym p))
    among (no n) g (Memᴰ.tail k) = g k

    beyond :
        (d : Dec (j ≡ i))
        → (¬ Memᴰ i js → find String-discrete i (delete_all js m) ≡ find String-discrete i m)
        → ¬ Memᴰ i (j ∷ js)
        → ite d none (find String-discrete i (delete_all js m)) ≡ find String-discrete i m
    beyond (yes p) g k = absurd (k (Memᴰ.head (sym p)))
    beyond (no n) g k = g (λ x. k (Memᴰ.tail x))

redis-IsSessionRedis : IsSessionRedis redis
redis-IsSessionRedis = record {
  del_value = λ i j s e. find-delete String-discrete i j s.0;
  srem_value = λ uid ids i s. refl;
  remove_all_value = λ uid ids i s e. find-delete_all i ids s.0;
}

abbrev stored_sessions : redis.Store
stored_sessions =
    (("a", "one") ∷ ("b", "two") ∷ ("c", "noise") ∷ ("d", "other") ∷ [], "a" ∷ "b" ∷ "c" ∷ "e" ∷ [])

abbrev no_faults : Faults
no_faults = record { list_fails = false; get_fails = λ i. false }

-- one read fails
abbrev one_fault : Faults
one_fault = record { list_fails = false; get_fails = λ i. ite (String-discrete i "b") true false }

remove_user_team_sessions_lem_example :
    redis.value "b" (remove_user_team_sessions redis no_faults (pos 7) (pos 1) stored_sessions).1
    ≡ (if has_text "b" (redis.members (pos 7) stored_sessions)
        then left_of redis (pos 1) "b" stored_sessions
        else redis.value "b" stored_sessions)
unfolding remove_user_team_sessions matching matches_value matches_session parse_session_data
    session_of_map find String-discrete remove_matching
remove_user_team_sessions_lem_example =
    remove_user_team_sessions_lem redis redis-IsSessionRedis no_faults (pos 7) (pos 1)
      stored_sessions "b" refl

-- the session of the other team stays, and the others of the set go
revoked :
    (remove_user_team_sessions redis no_faults (pos 7) (pos 1) stored_sessions).1.0
    ≡ ("b", "two") ∷ ("d", "other") ∷ []
unfolding remove_user_team_sessions matching matches_value matches_session parse_session_data
    session_of_map find String-discrete remove_matching delete delete_all
revoked = refl

get_user_sessions_deletes_example :
    redis.value "b" (get_user_sessions redis one_fault (pos 7) stored_sessions).1 ≡ (
      if has_text "b" (redis.members (pos 7) stored_sessions)
        && not (is_some (read_session redis one_fault "b" stored_sessions))
      then none
      else redis.value "b" stored_sessions)
unfolding get_user_sessions collect read_session parse_session_data session_of_map find
    String-discrete remove_user_session_ids remove_session_ids
get_user_sessions_deletes_example =
    get_user_sessions_deletes redis redis-IsSessionRedis one_fault (pos 7) stored_sessions "b"
      (collect redis one_fault (redis.members (pos 7) stored_sessions) stored_sessions).1 refl

remove_user_team_sessions_untouched_example :
    (remove_user_team_sessions redis one_fault (pos 7) (pos 1) stored_sessions).1 ≡ stored_sessions
unfolding remove_user_team_sessions matching matches_value matches_session parse_session_data
    session_of_map find String-discrete remove_matching
remove_user_team_sessions_untouched_example =
    remove_user_team_sessions_untouched redis one_fault (pos 7) (pos 1) stored_sessions
      (read_failed "b") refl (λ e. cc e)
