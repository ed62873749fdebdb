-- ===== src/Transfer/Uids.antt =====
-- What the check of the Agents' UIDs lets through.
use mosona_manager.Transfer.Database.{
  ServerRow, AgentRow, Attached, Database, Result, Failures, rows_of,
}
use mathlib.Core.Bool.{false≢true}
use mosona_manager.Identity.{Bytes-discrete}
use mathlib.Core.Logic.{ite}
use mosona_manager.Transfer.Bundle.{Server}
use mosona_manager.Transfer.Page.{is_empty}
use mosona_manager.Transfer.Checks.{
  Library, Uids, uid_of, collect_uids, unless_seen, foreign_uid, ask_database,
  preflight_imported_agent_uids, stored_uid, foreign_conflict,
}
use mosona_manager.Transfer.Steps.{right_injective, and_then_inverse, query_then}
use Prim.Native.String.{String}
use mosona_manager.Prelude.{
  Bool, Bool-cases, List, Option, [], ap, arith, false, find, find-store, get_elem?, get_or,
  if◌then◌else◌, inl, inr, is_some, none, not, refl, some, store, suc, sym, true, zero, ℕ, ◌&&◌,
  ◌==◌, ◌||◌, ◌∙◌, ◌∷◌, ◌≡◌,
}

abbrev pub has : List ℕ → List (List ℕ) → Bool
has u [] = false
has u (v ∷ vs) = ite (Bytes-discrete v u) true false || has u vs

-- no text twice
abbrev pub AllDistinct : List (List ℕ) → Type 0
AllDistinct [] = Unit
AllDistinct (u ∷ us) = (has u us ≡ false) × AllDistinct us

module _ (lib : Library) where
  -- the UIDs of a bundle, the empty ones left out
  abbrev pub uids : List Server → List (List ℕ)
  uids [] = []
  uids (s ∷ ss) =
      let rest = uids ss in
      if is_empty (uid_of lib s.agent) then rest else uid_of lib s.agent ∷ rest

  abbrev seen_in : Uids lib → List ℕ → Bool
  seen_in seen u = is_some (find Bytes-discrete u seen)

  -- what the loop knows: the UIDs are distinct, new, and in the result
  abbrev AreCollected : Uids lib → List Server → Uids lib → Type 0
  AreCollected seen ss seen' =
      AllDistinct (uids ss)
      × ((u : List ℕ) → seen_in seen u ≡ true → has u (uids ss) ≡ false)
      × ((u : List ℕ) → seen_in seen' u ≡ seen_in seen u || has u (uids ss))

  seen_in-store :
      (seen : Uids lib) (u v : List ℕ) (name : String)
      → seen_in (store Bytes-discrete u name seen) v
        ≡ ite (Bytes-discrete u v) true false || seen_in seen v
  seen_in-store seen u v name = ground (arith, find-store Bytes-discrete u v name seen)

  unless_seen_lem :
      (o : Option String) (s : Server) (u : List ℕ) (rest : Result (Uids lib)) (r : Uids lib)
      → unless_seen lib o s u rest ≡ inr r
      → (is_some o ≡ false) × (rest ≡ inr r)
  unless_seen_lem none s u rest r h = (refl, h)
  unless_seen_lem (some n) s u rest r h = absurd (cc h)

  -- a server whose UID is not empty and new
  AreCollected-store :
      (seen : Uids lib) (u : List ℕ) (name : String) (us : List (List ℕ)) (seen' : Uids lib)
      → seen_in seen u ≡ false
      → AllDistinct us
      → ((v : List ℕ) → seen_in (store Bytes-discrete u name seen) v ≡ true → has v us ≡ false)
      → ((v : List ℕ) → seen_in seen' v ≡ seen_in (store Bytes-discrete u name seen) v || has v us)
      → AllDistinct (u ∷ us)
        × ((v : List ℕ) → seen_in seen v ≡ true → has v (u ∷ us) ≡ false)
        × ((v : List ℕ) → seen_in seen' v ≡ seen_in seen v || has v (u ∷ us))
  AreCollected-store seen u name us seen' new d fresh all = (
    (fresh u (seen_in-store seen u u name ∙ ground arith), d),
    (λ v q. elim (Bytes-discrete u v) as (λ x. (ite x true false || has v us) ≡ false) [
      | yes p ↦ absurd (false≢true (sym new ∙ ap (seen_in seen) p ∙ q))
      | no n ↦ fresh v (seen_in-store seen u v name ∙ rw (q) (ground arith))
    ]),
    λ v.
        all v
        ∙ ap (λ x. x || has v us) (seen_in-store seen u v name)
        ∙ swap_or (ite (Bytes-discrete u v) true false) (seen_in seen v) (has v us),
  )
    where
      swap_or : (a b c : Bool) → ((a || b) || c) ≡ (b || (a || c))
      swap_or true true c = refl
      swap_or true false c = refl
      swap_or false true c = refl
      swap_or false false c = refl

  collect_uids_lem :
      (seen : Uids lib) (ss : List Server) (seen' : Uids lib)
      → collect_uids lib seen ss ≡ inr seen'
      → AreCollected seen ss seen'
  unfolding collect_uids
  collect_uids_lem seen [] seen' h = (
    tt,
    λ u q. refl,
    λ u. ap (λ x. seen_in x u) (sym (right_injective _ refl h)) ∙ sym (or_false (seen_in seen u)),
  )
    where
      or_false : (b : Bool) → (b || false) ≡ b
      or_false true = refl
      or_false false = refl
  collect_uids_lem seen (s ∷ ss) seen' h = elim (Bool-cases (is_empty (uid_of lib s.agent))) [
    | inl t ↦ simp t (collect_uids_lem seen ss seen' (simp t at h))
    | inr t ↦
        let (new, rest) = unless_seen_lem _ s _ _ seen' (simp t at h) in
        let (d, fresh, all) =
          collect_uids_lem (store Bytes-discrete (uid_of lib s.agent) s.name seen) ss seen' rest in
        simp t (AreCollected-store seen (uid_of lib s.agent) s.name (uids ss) seen' new d fresh all)
  ]

  if_none :
      {A : Type 0} (c : Bool) (u : A) (later : Option A)
      → (if c then some u else later) ≡ none
      → (c ≡ false) × (later ≡ none)
  if_none true u later h = absurd (cc h)
  if_none false u later h = (refl, h)

  foreign_uid_lem :
      (team : ℕ) (seen : Uids lib) (rows : List (ℕ × Attached)) (ss : List ServerRow) (i : ℕ)
      (s : ServerRow) (row : AgentRow)
      → foreign_uid lib team seen rows ss ≡ none
      → get_elem? ss i ≡ some s
      → (s.team_id == team) ≡ false
      → (rows_of s.id rows).agent ≡ some row
      → seen_in seen (lib.btrim row.agent_uid) ≡ false
  unfolding foreign_uid
  foreign_uid_lem team seen rows [] i s row h e t a = absurd (cc e)
  foreign_uid_lem team seen rows (x ∷ xs) zero s row h e t a =
      let (c, later) = if_none _ _ _ h in
      let found : is_foreign s ≡ false = ap is_foreign (ap (λ o. get_or o s) (sym e)) ∙ c in
      simp (t, a) at found
    where
      is_foreign : ServerRow → Bool
      is_foreign y =
          not (y.team_id == team)
          && (is_some (rows_of y.id rows).agent
              && is_some (find Bytes-discrete (stored_uid lib (rows_of y.id rows).agent) seen))
  foreign_uid_lem team seen rows (x ∷ xs) (suc i) s row h e t a =
      foreign_uid_lem team seen rows xs i s row (if_none _ _ _ h).1 e t a

  conflict_none :
      (seen : Uids lib) (o : Option (List ℕ)) → foreign_conflict lib seen o ≡ inr tt → o ≡ none
  conflict_none seen none h = refl
  conflict_none seen (some u) h = absurd (cc h)

  -- Where the check passes, no two servers of the bundle have the same UID, empty ones aside, and
  -- no server of another team has an Agent with a UID of the bundle.
  pub preflight_imported_agent_uids_lem :
      (fails : Failures) (team : ℕ) (db : Database) (ss : List Server)
      → preflight_imported_agent_uids lib fails team db ss ≡ inr tt
      → AllDistinct (uids ss)
        × ((i : ℕ) (s : ServerRow) (row : AgentRow)
            → get_elem? db.servers i ≡ some s
            → (s.team_id == team) ≡ false
            → (rows_of s.id db.attached).agent ≡ some row
            → has (lib.btrim row.agent_uid) (uids ss) ≡ false)
  unfolding preflight_imported_agent_uids ask_database
  preflight_imported_agent_uids_lem fails team db ss h =
      let (seen, e, q) = and_then_inverse _ _ tt h in
      let (d, fresh, all) = collect_uids_lem [] ss seen e in
      (d, λ i s row x t a. sym (all (lib.btrim row.agent_uid)) ∙ asked seen q i s row x t a)
    where
      asked :
          (seen : Uids lib)
          → ask_database lib fails team db seen ≡ inr tt
          → (i : ℕ) (s : ServerRow) (row : AgentRow) → get_elem? db.servers i ≡ some s
          → (s.team_id == team) ≡ false
          → (rows_of s.id db.attached).agent ≡ some row
          → seen_in seen (lib.btrim row.agent_uid) ≡ false
      asked [] q i s row x t a = refl
      asked (u ∷ us) q i s row x t a =
          foreign_uid_lem team (u ∷ us) db.attached db.servers i s row
            (conflict_none (u ∷ us) _ (query_then fails _ db _ _ tt q)) x t a
