-- ===== src/Sessions/Listing.antt =====
-- What `GetUserSessions` cleans up, and what an error of `RemoveUserTeamSessions` leaves.
use mathlib.Core.Logic.{ite}
use Prim.Native.String.{String}
use mosona_manager.Sessions.{
  SessionRedis, Faults, SessionsError, matching, remove_matching, remove_user_team_sessions,
  and_then, remove_session_ids, read_session, collect, IsSessionRedis, remove_failed, SessionData,
  remove_user_session_ids, listed, get_user_sessions,
}
use mosona_manager.Sessions.Team.{has_text}
use mosona_manager.Prelude.{
  Bool, Bool-cases, List, Option, Option-cases, String-discrete, [], ap, false, if◌then◌else◌, inl,
  inr, is_positive, is_some, none, not, refl, same, some, sym, true, ℤ, ◌&&◌, ◌||◌, ◌∙◌, ◌∷◌, ◌≡◌,
  ◌≢◌, ◌⊎◌,
}

-- a turn of a loop over identifiers, by whether it is the one that is asked for
cleaned_up :
    {P : Type 0} (d : Dec P) (y : Bool) {x r : Bool}
    → x ≡ (y && r)
    → (P → r ≡ true)
    → ite d true x ≡ (ite d true y && r)
cleaned_up (yes p) y e h = sym (h p)
cleaned_up (no n) y e h = e

not_cleaned_up :
    {P : Type 0} (d : Dec P) (y : Bool) {x r : Bool}
    → x ≡ (y && r)
    → (P → r ≡ false)
    → x ≡ (ite d true y && r)
not_cleaned_up (yes p) y e h = e ∙ ap (λ b. y && b) (h p) ∙ and_false y ∙ sym (h p)
  where
    and_false : (b : Bool) → (b && false) ≡ false
    and_false true = refl
    and_false false = refl
not_cleaned_up (no n) y e h = e

deleted :
    {i j : String} (d : Dec (i ≡ j)) (e : Dec (j ≡ i)) (b : Bool) (v : Option String)
    → (if b then none else ite d none v) ≡ (if ite e true b then none else v)
deleted (yes p) (yes q) true v = refl
deleted (yes p) (yes q) false v = refl
deleted (no m) (no n) b v = refl
deleted (yes p) (no n) b v = absurd (n (sym p))
deleted (no m) (yes q) b v = absurd (m (sym q))

module _ (redis : SessionRedis) where
  -- An error of `RemoveUserTeamSessions` before the transaction, such as a session of the set that
  -- cannot be read or belongs to another user, leaves every session as it was.
  pub remove_user_team_sessions_untouched :
      (faults : Faults) (uid team : ℤ) (s : redis.Store) (e : SessionsError)
      → (remove_user_team_sessions redis faults uid team s).0 ≡ some e
      → e ≢ remove_failed
      → (remove_user_team_sessions redis faults uid team s).1 ≡ s
  unfolding remove_user_team_sessions remove_matching
  remove_user_team_sessions_untouched faults uid team s e q ne =
      elim (Bool-cases (not (is_positive uid) || not (is_positive team))) [
        | inl t ↦ simp t refl
        | inr t ↦ elim (Bool-cases faults.list_fails) [
          | inl u ↦ simp (t, u) refl
          | inr u ↦
              simp (t, u)
                (loop (matching redis faults uid team (redis.members uid s) s) (simp (t, u) at q))
        ]
      ]
    where
      in_transaction :
          (b : Bool) → (if b then none else some remove_failed) ≡ some e → e ≡ remove_failed
      in_transaction true r = absurd (cc r)
      in_transaction false r = cc r

      loop :
          (o : SessionsError ⊎ List String)
          → (remove_matching redis uid o s).0 ≡ some e
          → (remove_matching redis uid o s).1 ≡ s
      loop (inl x) r = refl
      loop (inr []) r = refl
      loop (inr (x ∷ xs)) r = absurd (ne (in_transaction (redis.remove_all uid (x ∷ xs) s).0 r))

  collect-gone :
      (faults : Faults) (ids : List String) (s : redis.Store) (id : String)
      → has_text id (collect redis faults ids s).0
        ≡ (has_text id ids && not (is_some (read_session redis faults id s)))
  unfolding collect has_text
  collect-gone faults [] s id = refl
  collect-gone faults (i ∷ ids) s id = elim (Option-cases (read_session redis faults i s)) [
    | inl f ↦ rw f (
        cleaned_up (String-discrete id i) (has_text id ids) (collect-gone faults ids s id) (λ p.
          ap (λ j. not (is_some (read_session redis faults j s))) p ∙ ap (λ o. not (is_some o)) f))
    | inr (d, f) ↦ rw f (
        not_cleaned_up (String-discrete id i) (has_text id ids) (collect-gone faults ids s id) (λ p.
          ap (λ j. not (is_some (read_session redis faults j s))) p ∙ ap (λ o. not (is_some o)) f))
  ]

  and_then-true :
      (o : Bool × redis.Store) (next : redis.Store → Bool × redis.Store)
      → (and_then redis o next).0 ≡ true
      → (o.0 ≡ true) × (and_then redis o next ≡ next o.1)
  and_then-true (true, t) next e = (refl, refl)
  and_then-true (false, t) next e = absurd (cc e)

  remove_session_ids_lem :
      (laws : IsSessionRedis redis) (ids : List String) (s : redis.Store) (id : String)
      → (remove_session_ids redis ids s).0 ≡ true
      → redis.value id (remove_session_ids redis ids s).1
        ≡ (if has_text id ids then none else redis.value id s)
  unfolding remove_session_ids has_text
  remove_session_ids_lem laws [] s id e = refl
  remove_session_ids_lem laws (i ∷ ids) s id e =
      let (done, same) = and_then-true (redis.del i s) (λ t. remove_session_ids redis ids t) e in
      let t = (redis.del i s).1 in
      let later = remove_session_ids_lem laws ids t id (ap (λ r. r.0) (sym same) ∙ e) in
      let first = laws.del_value i id s done in
      rw (same, later, first)
        (deleted (String-discrete i id) (String-discrete id i) (has_text id ids) (redis.value id s))

  remove_user_session_ids_lem :
      (laws : IsSessionRedis redis) (uid : ℤ) (ids : List String) (s : redis.Store) (id : String)
      → (remove_user_session_ids redis uid ids s).0 ≡ true
      → redis.value id (remove_user_session_ids redis uid ids s).1
        ≡ (if has_text id ids then none else redis.value id s)
  unfolding remove_user_session_ids has_text
  remove_user_session_ids_lem laws uid [] s id e = refl
  remove_user_session_ids_lem laws uid (i ∷ ids) s id e =
      let next = λ (t : redis.Store). redis.srem uid (i ∷ ids) t in
      let (done, same) = and_then-true (remove_session_ids redis (i ∷ ids) s) next e in
      ap (λ r. redis.value id r.1) same
      ∙ laws.srem_value uid (i ∷ ids) id (remove_session_ids redis (i ∷ ids) s).1
      ∙ remove_session_ids_lem laws (i ∷ ids) s id done

  -- Where `GetUserSessions` returns without an error, it has deleted every session that the user's
  -- set lists and that it could not read, also where Redis only failed to answer this once, and
  -- no other.
  pub get_user_sessions_deletes :
      (laws : IsSessionRedis redis) (faults : Faults) (uid : ℤ) (s : redis.Store) (id : String)
      (found : List SessionData)
      → (get_user_sessions redis faults uid s).0 ≡ inr found
      → redis.value id (get_user_sessions redis faults uid s).1 ≡ (
          if has_text id (redis.members uid s) && not (is_some (read_session redis faults id s))
          then none
          else redis.value id s)
  unfolding get_user_sessions
  get_user_sessions_deletes laws faults uid s id found e = elim (Bool-cases faults.list_fails) [
    | inl t ↦ absurd (cc (simp t at e))
    | inr t ↦
        let gone = (collect redis faults (redis.members uid s) s).0 in
        let kept = (collect redis faults (redis.members uid s) s).1 in
        let (done, same) = answered kept (remove_user_session_ids redis uid gone s) (simp t at e) in
        simp t (
          ap (redis.value id) same
          ∙ remove_user_session_ids_lem laws uid gone s id done
          ∙ ap (λ b. if b then none else redis.value id s)
              (collect-gone faults (redis.members uid s) s id))
  ]
    where
      answered :
          (kept : List SessionData) (o : Bool × redis.Store)
          → (listed redis kept o).0 ≡ inr found
          → (o.0 ≡ true) × ((listed redis kept o).1 ≡ o.1)
      answered kept (true, t) q = (refl, refl)
      answered kept (false, t) q = absurd (cc q)
