-- ===== src/Access/Laws.antt =====
-- Exactly who gets in, and when a watcher reports.
use mathlib.Core.Bool.{false≢true}
use native.Mathlib.Decide.{ℕ_discrete}
use mathlib.Core.List.{Memᴰ}
use mosona_manager.Access.{
  Lookup, is_allowed, validate_team_session, Wake, watch_from, watch_team_session, Context,
  team_access, write_auth, terminal_auth, found, no_rows, granted, done, tick, handled, failed,
}
use mosona_manager.Prelude.{
  Bool, Bool-cases, List, Option, [], ap, arith, false, inl, inr, none, pos, refl, same_int,
  same_int-true, some, sym, true, ℕ, ℤ, ◌↔◌, ◌∙◌, ◌∷◌, ◌≡◌, ◌≢◌, ◌⊎◌,
}

is_allowed_lem : (role : ℕ) (allowed : List ℕ) → is_allowed role allowed ≡ true → Memᴰ role allowed
unfolding is_allowed
is_allowed_lem role [] h = absurd (ground arith)
is_allowed_lem role (a ∷ rest) h = elim (ℕ_discrete role a) [
  | yes e ↦ Memᴰ.head e
  | no ne ↦ Memᴰ.tail (is_allowed_lem role rest (ground arith))
]

allowed_is_allowed :
    (role : ℕ) (allowed : List ℕ) → Memᴰ role allowed → is_allowed role allowed ≡ true
unfolding is_allowed
allowed_is_allowed role [] m = elim m [ ]
allowed_is_allowed role (a ∷ rest) (Memᴰ.head e) = ground arith
allowed_is_allowed role (a ∷ rest) (Memᴰ.tail m) = ground (arith, allowed_is_allowed role rest m)

granted_facts :
    (u t : ℕ) (sid : Bool) (session : Option Bool) (role : Lookup) (allowed : List ℕ)
    → validate_team_session u t sid session role allowed ≡ granted
    → (u ≢ 0)
      × (t ≢ 0)
      × (sid ≡ true)
      × (session ≡ some true)
      × ((r : ℕ) × (role ≡ found r) × (is_allowed r allowed ≡ true))
unfolding validate_team_session
granted_facts u t sid session no_rows allowed h = absurd (ground arith)
granted_facts u t sid session failed allowed h = absurd (ground arith)
granted_facts u t sid session (found r) allowed h =
    (ground arith, ground arith, ground arith, ground arith, (r, refl, ground arith))

facts_granted :
    (u t r : ℕ) (allowed : List ℕ)
    → u ≢ 0
    → t ≢ 0
    → is_allowed r allowed ≡ true
    → validate_team_session u t true (some true) (found r) allowed ≡ granted
unfolding validate_team_session
facts_granted u t r allowed hu ht h = ground arith

-- A team session is granted exactly to a user and a team with an id and a session id, while the
-- session exists and the user's role in the team is one of the allowed roles.
pub validate_team_session-granted :
    (u t : ℕ) (sid : Bool) (session : Option Bool) (role : Lookup) (allowed : List ℕ)
    → (validate_team_session u t sid session role allowed ≡ granted) ↔ (
        (u ≢ 0)
        × (t ≢ 0)
        × (sid ≡ true)
        × (session ≡ some true)
        × ((r : ℕ) × (role ≡ found r) × Memᴰ r allowed))
validate_team_session-granted u t sid session role allowed = (
  λ h.
      let (hu, ht, hs, he, member) = granted_facts u t sid session role allowed h in
      let (r, is_role, ok) = member in (hu, ht, hs, he, (r, is_role, is_allowed_lem r allowed ok)),
  λ facts.
      let (hu, ht, hs, he, member) = facts in
      let (r, is_role, ok) = member in
      rw (hs, he, is_role) (facts_granted u t r allowed hu ht (allowed_is_allowed r allowed ok)),
)

-- every wake-up before the context is done finds the access granted
abbrev pub Granted : ℕ → ℕ → Bool → List ℕ → List Wake → Type 0
Granted u t sid allowed [] = Unit
Granted u t sid allowed (done ∷ wakes) = Unit
Granted u t sid allowed (tick session role ∷ wakes) =
    (validate_team_session u t sid session role allowed ≡ granted) × Granted u t sid allowed wakes

watch_from-Granted :
    (u t : ℕ) (sid : Bool) (allowed : List ℕ) (wakes : List Wake)
    → watch_from u t sid allowed wakes ≡ none
    → Granted u t sid allowed wakes
unfolding watch_from
watch_from-Granted u t sid allowed [] h = tt
watch_from-Granted u t sid allowed (done ∷ wakes) h = tt
watch_from-Granted u t sid allowed (tick session role ∷ wakes) h =
    ground (arith, watch_from-Granted u t sid allowed wakes)

Granted-watch_from :
    (u t : ℕ) (sid : Bool) (allowed : List ℕ) (wakes : List Wake)
    → Granted u t sid allowed wakes
    → watch_from u t sid allowed wakes ≡ none
unfolding watch_from
Granted-watch_from u t sid allowed [] h = refl
Granted-watch_from u t sid allowed (done ∷ wakes) h = refl
Granted-watch_from u t sid allowed (tick session role ∷ wakes) h =
    ground (arith, Granted-watch_from u t sid allowed wakes)

-- A watcher stays silent exactly while the session is granted at the start and at every tick
-- before its context is done: it reports as soon as the session is gone, the role has changed to
-- one that is not allowed, or a lookup fails.
pub watch_team_session-silent :
    (u t : ℕ) (sid : Bool) (allowed : List ℕ) (session : Option Bool) (role : Lookup)
    (wakes : List Wake)
    → (watch_team_session u t sid allowed session role wakes ≡ none)
      ↔ Granted u t sid allowed (tick session role ∷ wakes)
unfolding watch_team_session
watch_team_session-silent u t sid allowed session role wakes =
    let all = tick session role ∷ wakes in
    (watch_from-Granted u t sid allowed all, Granted-watch_from u t sid allowed all)

nonzero_lem : (i : ℤ) → same_int i (pos 0) ≡ false → i ≢ pos 0
nonzero_lem i t z = false≢true (sym t ∙ ap (λ j. same_int j (pos 0)) z)

-- A request gets past `TeamAccess` and `WriteAuth` exactly with an active team in which the user
-- has role 0, and past `TeamAccess` and `TerminalAuth` with role 0 or 1; and a session whose user
-- is no longer in the team loses the team, where clearing it meets no error.
team_access_lem :
    (role : Lookup) (clears : Bool) (c : Context)
    → ((write_auth (team_access role clears c).0 ≡ handled 0)
        ↔ ((c.tid ≢ pos 0) × (role ≡ found 0)))
      × ((r : ℕ)
          → (terminal_auth (team_access role clears c).0 ≡ handled r)
            ↔ ((c.tid ≢ pos 0) × (role ≡ found r) × ((r ≡ 0) ⊎ (r ≡ 1))))
      × ((r : ℕ) → write_auth (team_access role clears c).0 ≡ handled r → r ≡ 0)
      × (role ≡ no_rows → clears ≡ true → (team_access role clears c).1.tid ≡ pos 0)
unfolding write_auth terminal_auth team_access
team_access_lem role clears c = elim (Bool-cases (same_int c.tid (pos 0))) [
  | inl t ↦ let z = same_int-true c.tid (pos 0) t in simp t (ground (arith, z))
  | inr t ↦ let nz = nonzero_lem c.tid t in simp t (ground (arith, nz))
]
