-- ===== src/Sessions/Team.antt =====
-- What `RemoveUserTeamSessions` revokes.
use mathlib.Core.Logic.{ite}
use Prim.Native.String.{String}
use mathlib.Core.Path.{subst}
use mathlib.Core.List.{Memᴰ}
use mosona_manager.Sessions.{
  SessionData, SessionRedis, SessionsError, parse_session_data, matches_session, matches_value,
  Faults, matched, matching, read_failed, remove_matching, IsSessionRedis, remove_failed,
  remove_user_team_sessions,
}
use mosona_manager.Prelude.{
  Bool, Bool-cases, List, Option, String-discrete, [], ap, arith, false, if◌then◌else◌, inl, inr,
  is_positive, none, not, refl, same, same_int, some, sym, true, ℤ, ◌||◌, ◌∙◌, ◌∷◌, ◌≡◌, ◌⊎◌,
}

-- whether a value is a session that is active in another team, as it is meant
abbrev pub is_elsewhere : ℤ → Option SessionData → Bool
is_elsewhere team none = false
is_elsewhere team (some d) = not (same_int d.tid team)

not-not : (x : Bool) → x ≡ not (not x)
not-not true = refl
not-not false = refl

module _ (redis : SessionRedis) where
  abbrev pub stored : String → Option String → Option SessionData
  stored id none = none
  stored id (some data_) = parse_session_data redis id data_

  matches_session_lem :
      (uid team : ℤ) (id : String) (d : Option SessionData) (b : Bool)
      → matches_session redis uid team id d ≡ inr b
      → b ≡ not (is_elsewhere team d)
  unfolding matches_session
  matches_session_lem uid team id none b e = cc e
  matches_session_lem uid team id (some d) b e = elim (Bool-cases (same_int d.uid uid)) [
    | inl t ↦ sym (cc (simp t at e)) ∙ not-not (same_int d.tid team)
    | inr t ↦ absurd (cc (simp t at e))
  ]

  matches_value_lem :
      (uid team : ℤ) (id : String) (v : Option String) (b : Bool)
      → matches_value redis uid team id v ≡ inr b
      → b ≡ not (is_elsewhere team (stored id v))
  unfolding matches_value
  matches_value_lem uid team id none b e = cc e
  matches_value_lem uid team id (some data_) b e =
      matches_session_lem uid team id (parse_session_data redis id data_) b e

  -- what the loop keeps of its identifiers
  matched-inr :
      (id : String) (turn : SessionsError ⊎ Bool) (rest : SessionsError ⊎ List String)
      (ids : List String)
      → matched redis id turn rest ≡ inr ids
      → (b : Bool) × (turn ≡ inr b)
        × (tail : List String) × (rest ≡ inr tail)
        × (ids ≡ (if b then id ∷ tail else tail))
  matched-inr id (inl e) rest ids q = absurd (cc q)
  matched-inr id (inr b) (inl e) ids q = absurd (cc q)
  matched-inr id (inr b) (inr tail) ids q = (b, refl, tail, refl, sym (cc q))

  -- the session of an identifier, where Redis answers
  abbrev pub session_at : String → redis.Store → Option SessionData
  session_at id s = stored id (redis.value id s)

  turn_lem :
      (faults : Faults) (uid team : ℤ) (id : String) (s : redis.Store) (b : Bool)
      → (if faults.get_fails id
          then inl (read_failed id)
          else matches_value redis uid team id (redis.value id s))
        ≡ inr b
      → b ≡ not (is_elsewhere team (session_at id s))
  turn_lem faults uid team id s b e = elim (Bool-cases (faults.get_fails id)) [
    | inl t ↦ absurd (cc (simp t at e))
    | inr t ↦ matches_value_lem uid team id (redis.value id s) b (simp t at e)
  ]

  kept_in_turn :
      (b : Bool) (i id : String) (tail : List String)
      → Memᴰ id tail
      → Memᴰ id (if b then i ∷ tail else tail)
  kept_in_turn true i id tail m = Memᴰ.tail m
  kept_in_turn false i id tail m = m

  from_turn :
      (b : Bool) (i id : String) (tail : List String)
      → Memᴰ id (if b then i ∷ tail else tail)
      → ((b ≡ true) × (id ≡ i)) ⊎ Memᴰ id tail
  from_turn true i id tail (Memᴰ.head g) = inl (refl, g)
  from_turn true i id tail (Memᴰ.tail k) = inr k
  from_turn false i id tail m = inr m

  matching_complete :
      (faults : Faults) (uid team : ℤ) (ids found : List String) (s : redis.Store) (id : String)
      → matching redis faults uid team ids s ≡ inr found
      → Memᴰ id ids
      → is_elsewhere team (session_at id s) ≡ false
      → Memᴰ id found
  unfolding matching
  matching_complete faults uid team [] found s id e m here = elim m [ ]
  matching_complete faults uid team (i ∷ ids) found s id e (Memᴰ.head g) here =
      let (b, turn, tail, rest, same) = matched-inr i _ _ found e in
      let kept =
        turn_lem faults uid team i s b turn
        ∙ ap (λ j. not (is_elsewhere team (session_at j s))) (sym g)
        ∙ ap not here in
      rw (same, kept) (Memᴰ.head g)
  matching_complete faults uid team (i ∷ ids) found s id e (Memᴰ.tail k) here =
      let (b, turn, tail, rest, same) = matched-inr i _ _ found e in
      rw same
        (kept_in_turn b i id tail (matching_complete faults uid team ids tail s id rest k here))

  matching_sound :
      (faults : Faults) (uid team : ℤ) (ids found : List String) (s : redis.Store) (id : String)
      → matching redis faults uid team ids s ≡ inr found
      → Memᴰ id found
      → Memᴰ id ids × (is_elsewhere team (session_at id s) ≡ false)
  unfolding matching
  matching_sound faults uid team [] found s id e m =
      absurd (no_member (subst (Memᴰ id) (sym (cc e)) m))
    where
      no_member : Memᴰ id [] → ⊥
      no_member k = elim k [ ]
  matching_sound faults uid team (i ∷ ids) found s id e m =
      let (b, turn, tail, rest, same) = matched-inr i _ _ found e in
      let t = turn_lem faults uid team i s b turn in
      elim (from_turn b i id tail (subst (Memᴰ id) same m)) [
        | inl (f, g) ↦ (
          Memᴰ.head g,
          ap (λ j. is_elsewhere team (session_at j s)) g
              ∙ not-not (is_elsewhere team (session_at i s))
              ∙ ap not (sym t ∙ f),
        )
        | inr k ↦
            let (in_ids, here) = matching_sound faults uid team ids tail s id rest k in
            (Memᴰ.tail in_ids, here)
      ]

  -- what is left of a value that the user's set lists
  abbrev pub left_of : ℤ → String → redis.Store → Option String
  left_of team id s = if is_elsewhere team (session_at id s) then redis.value id s else none

  abbrev pub IsRevoked : ℤ → List String → redis.Store → redis.Store → Type 0
  IsRevoked team ids s after =
      (id : String)
      → (Memᴰ id ids → redis.value id after ≡ left_of team id s)
        × (¬ Memᴰ id ids → redis.value id after ≡ redis.value id s)

  remove_matching-IsRevoked :
      (laws : IsSessionRedis redis) (uid team : ℤ) (ids found : List String) (s : redis.Store)
      → ((id : String) → Memᴰ id ids → is_elsewhere team (session_at id s) ≡ false → Memᴰ id found)
      → ((id : String)
          → Memᴰ id found
          → Memᴰ id ids × (is_elsewhere team (session_at id s) ≡ false))
      → (remove_matching redis uid (inr found) s).0 ≡ none
      → IsRevoked team ids s (remove_matching redis uid (inr found) s).1
  unfolding remove_matching
  remove_matching-IsRevoked laws uid team ids [] s complete sound e id = (
    λ m. elim (Bool-cases (is_elsewhere team (session_at id s))) [
      | inl t ↦ simp t refl
      | inr t ↦ absurd (elim (complete id m t) [ ])
    ],
    λ n. refl,
  )
  remove_matching-IsRevoked laws uid team ids (x ∷ xs) s complete sound e id =
      let done = succeeded (redis.remove_all uid (x ∷ xs) s).0 e in
      let (gone, rest) = laws.remove_all_value uid (x ∷ xs) id s done in
      (
        λ m. elim (Bool-cases (is_elsewhere team (session_at id s))) [
          | inl t ↦ simp t (rest (λ k. cc (sym (sound id k).1 ∙ t)))
          | inr t ↦ simp t (gone (complete id m t))
        ],
        λ n. rest (λ k. n (sound id k).0),
      )
    where
      succeeded : (b : Bool) → (if b then none else some remove_failed) ≡ none → b ≡ true
      succeeded true q = refl
      succeeded false q = absurd (cc q)

  -- the outcome, by the first error
  remove_user_team_sessions-IsRevoked :
      (laws : IsSessionRedis redis) (faults : Faults) (uid team : ℤ) (s : redis.Store)
      → (remove_user_team_sessions redis faults uid team s).0 ≡ none
      → IsRevoked team (redis.members uid s) s (remove_user_team_sessions redis faults uid team s).1
  unfolding remove_user_team_sessions
  remove_user_team_sessions-IsRevoked laws faults uid team s e =
      elim (Bool-cases (not (is_positive uid) || not (is_positive team))) [
        | inl t ↦ absurd (cc (simp t at e))
        | inr t ↦ elim (Bool-cases faults.list_fails) [
          | inl u ↦ absurd (cc (simp (t, u) at e))
          | inr u ↦
              simp (t, u)
                (loop (matching redis faults uid team (redis.members uid s) s) refl
                  (simp (t, u) at e))
        ]
      ]
    where
      loop :
          (o : SessionsError ⊎ List String)
          → matching redis faults uid team (redis.members uid s) s ≡ o
          → (remove_matching redis uid o s).0 ≡ none
          → IsRevoked team (redis.members uid s) s (remove_matching redis uid o s).1
      loop (inl x) f q = absurd (cc q)
      loop (inr found) f q =
          remove_matching-IsRevoked laws uid team (redis.members uid s) found s
            (λ id m here.
              matching_complete faults uid team (redis.members uid s) found s id f m here)
            (λ id m. matching_sound faults uid team (redis.members uid s) found s id f m) q

-- whether a text is in a list
unfoldable pub has_text : String → List String → Bool
has_text t [] = false
has_text t (u ∷ us) = ite (String-discrete t u) true (has_text t us)

has_text-Mem : (t : String) (us : List String) → has_text t us ≡ true → Memᴰ t us
unfolding has_text
has_text-Mem t [] e = absurd (cc e)
has_text-Mem t (u ∷ us) e = elim (String-discrete t u) [
  | yes p ↦ Memᴰ.head p
  | no n ↦ Memᴰ.tail (has_text-Mem t us (ground (arith, e, n)))
]

Mem-has_text : (t : String) (us : List String) → Memᴰ t us → has_text t us ≡ true
unfolding has_text
Mem-has_text t (u ∷ us) (Memᴰ.head p) = ground (arith, p)
Mem-has_text t (u ∷ us) (Memᴰ.tail m) = ground (arith, Mem-has_text t us m)
Mem-has_text t [] m = elim m [ ]

-- When the sessions of a user in a team are revoked without an error, a session that the user's set
-- lists is kept if its value decodes to a session that is active in another team, and is deleted
-- otherwise; every session that the set does not list is as it was.
pub remove_user_team_sessions_lem :
    (redis : SessionRedis) (laws : IsSessionRedis redis) (faults : Faults) (uid team : ℤ)
    (s : redis.Store) (id : String)
    → (remove_user_team_sessions redis faults uid team s).0 ≡ none
    → redis.value id (remove_user_team_sessions redis faults uid team s).1
      ≡ (if has_text id (redis.members uid s) then left_of redis team id s else redis.value id s)
remove_user_team_sessions_lem redis laws faults uid team s id e =
    let (inside, outside) = remove_user_team_sessions-IsRevoked redis laws faults uid team s e id in
    elim (Bool-cases (has_text id (redis.members uid s))) [
      | inl t ↦ rw t (inside (has_text-Mem id (redis.members uid s) t))
      | inr t ↦ rw t (outside (λ m. cc (sym (Mem-has_text id (redis.members uid s) m) ∙ t)))
    ]
