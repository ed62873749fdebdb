-- ===== src/Transfer/References.antt =====
-- The servers that an import writes are in categories of their team.
pub mod Whole
use mosona_manager.Transfer.Import.Servers.{value_at}
use mathlib.Core.Path.{subst}
use mathlib.Core.Logic.{ite}
use native.Mathlib.Decide.{ℕ_discrete}
use mosona_manager.Encrypt.{Cipher}
use mosona_manager.Transfer.Bundle.{Server}
use mosona_manager.Transfer.Database.{
  CategoryRow, ServerRow, Database, Failures, attach, of_team, inserts_server, no_category,
}
use mosona_manager.Transfer.Checks.{Library}
use mosona_manager.Transfer.Export.{is_member}
use mosona_manager.Transfer.Import.{Renumbering, renumbered}
use mosona_manager.Transfer.Import.Servers.{
  default_category, or_default, import_server, import_each_server, import_servers,
}
use mosona_manager.Transfer.Rows.{of_team-append}
use mosona_manager.Transfer.Preserves.{
  IsPreorder, Preserves, Preserves-pure, Preserves-lift, Preserves-bind, Preserves-returning,
}
use mosona_manager.Transfer.Preserves.Servers.{Preserves-import_rest}
use mosona_manager.Prelude.{
  Bool, Bool-cases, List, [], ap, arith, false, find, get_or, inl, inr, refl, some, store, suc, sym,
  true, zero, ℕ, ◌++◌, ◌==◌, ◌∙◌, ◌∷◌, ◌≡◌, ◌⊎◌,
}

-- the identifiers of the team's categories
abbrev pub category_ids : List CategoryRow → List ℕ
category_ids [] = []
category_ids (r ∷ rs) = r.id ∷ category_ids rs

abbrev pub own_ids : ℕ → Database → List ℕ
own_ids team db = category_ids (of_team (λ r. r.team) team db.categories)

abbrev pub AllIn : List ℕ → List ServerRow → Type 0
AllIn ids [] = Unit
AllIn ids (s ∷ ss) = (is_member s.category ids ≡ true) × AllIn ids ss

-- a map whose new identifiers are among some
abbrev pub ValuesIn : List ℕ → Renumbering → Type 0
ValuesIn ids [] = Unit
ValuesIn ids ((ref, id) ∷ m) = (is_member id ids ≡ true) × ValuesIn ids m

is_member-append :
    (i : ℕ) (xs : List ℕ) (j : ℕ) → is_member i xs ≡ true → is_member i (xs ++ j ∷ []) ≡ true
is_member-append i [] j h = absurd (cc h)
is_member-append i (x ∷ xs) j h = elim (Bool-cases (i == x)) [
  | inl t ↦ simp t refl
  | inr t ↦ simp t (is_member-append i xs j (simp t at h))
]

pub is_member-last : (xs : List ℕ) (j : ℕ) → is_member j (xs ++ j ∷ []) ≡ true
is_member-last [] j = ground arith
is_member-last (x ∷ xs) j = elim (Bool-cases (j == x)) [
  | inl t ↦ simp t refl
  | inr t ↦ simp t (is_member-last xs j)
]

pub ValuesIn-append :
    (ids : List ℕ) (m : Renumbering) (j : ℕ) → ValuesIn ids m → ValuesIn (ids ++ j ∷ []) m
ValuesIn-append ids [] j h = tt
ValuesIn-append ids ((ref, id) ∷ m) j h =
    (is_member-append id ids j h.0, ValuesIn-append ids m j h.1)

pub ValuesIn-store :
    (ids : List ℕ) (ref id : ℕ) (m : Renumbering)
    → is_member id ids ≡ true
    → ValuesIn ids m
    → ValuesIn ids (store ℕ_discrete ref id m)
unfolding store
ValuesIn-store ids ref id [] k h = (k, tt)
ValuesIn-store ids ref id ((j, w) ∷ m) k h =
    elim (ℕ_discrete j ref)
      as (λ d. ValuesIn ids (ite d ((ref, id) ∷ m) ((j, w) ∷ store ℕ_discrete ref id m))) [
        | yes p ↦ (k, h.1)
        | no n ↦ (h.0, ValuesIn-store ids ref id m k h.1)
      ]

renumbered_lem :
    (ids : List ℕ) (m : Renumbering) (ref : ℕ)
    → ValuesIn ids m
    → (renumbered m ref ≡ 0) ⊎ (is_member (renumbered m ref) ids ≡ true)
unfolding find
renumbered_lem ids [] ref h = inl refl
renumbered_lem ids ((j, w) ∷ m) ref h =
    elim (ℕ_discrete j ref)
      as (λ d.
        (get_or (ite d (some w) (find ℕ_discrete ref m)) 0 ≡ 0)
        ⊎ (is_member (get_or (ite d (some w) (find ℕ_discrete ref m)) 0) ids ≡ true)) [
          | yes p ↦ inr h.0
          | no n ↦ renumbered_lem ids m ref h.1
        ]

-- the category of an imported server
or_default_lem :
    (ids : List ℕ) (m : Renumbering) (ref default : ℕ)
    → ValuesIn ids m
    → is_member default ids ≡ true
    → is_member (or_default (renumbered m ref) default) ids ≡ true
or_default_lem ids m ref default h d = elim (Bool-cases (renumbered m ref == 0)) [
  | inl t ↦ simp t d
  | inr t ↦ elim (renumbered_lem ids m ref h) [
    | inl e ↦ absurd (ground (arith, t, e))
    | inr q ↦ simp t q
  ]
]

value_at_lem :
    (ids : List ℕ) (i : ℕ) (m : Renumbering)
    → ValuesIn ids m
    → (value_at i m == 0) ≡ false
    → is_member (value_at i m) ids ≡ true
unfolding value_at
value_at_lem ids i [] h t = absurd (cc t)
value_at_lem ids zero ((ref, id) ∷ m) h t = h.0
value_at_lem ids (suc i) ((ref, id) ∷ []) h t = h.0
value_at_lem ids (suc i) ((ref, id) ∷ next ∷ m) h t = value_at_lem ids i (next ∷ m) h.1 t

default_category_lem :
    (lib : Library) (ids : List ℕ) (m : Renumbering)
    → ValuesIn ids m
    → (default_category lib m == 0) ≡ false
    → is_member (default_category lib m) ids ≡ true
unfolding default_category
default_category_lem lib ids m = value_at_lem ids (lib.range_start m) m

AllIn-append :
    (ids : List ℕ) (ss : List ServerRow) (s : ServerRow)
    → AllIn ids ss
    → is_member s.category ids ≡ true
    → AllIn ids (ss ++ s ∷ [])
AllIn-append ids [] s h k = (k, tt)
AllIn-append ids (x ∷ xs) s h k = (h.0, AllIn-append ids xs s h.1 k)

module _ {R : Type 0} (key : R → ℕ) (team : ℕ) where
  of_team-own : (r : R) → key r ≡ team → of_team key team (r ∷ []) ≡ r ∷ []
  unfolding of_team
  of_team-own r e = ground (arith, e)

  pub of_team-added :
      (rows : List R) (r : R)
      → key r ≡ team
      → of_team key team (rows ++ r ∷ []) ≡ of_team key team rows ++ r ∷ []
  of_team-added rows r e =
      of_team-append key team rows (r ∷ []) ∙ ap (λ x. of_team key team rows ++ x) (of_team-own r e)

pub category_ids-append :
    (rs : List CategoryRow) (r : CategoryRow)
    → category_ids (rs ++ r ∷ []) ≡ category_ids rs ++ r.id ∷ []
category_ids-append [] r = refl
category_ids-append (x ∷ xs) r = ap (◌∷◌ x.id) (category_ids-append xs r)

module _ (team : ℕ) where
  -- neither servers nor categories are changed
  abbrev pub Keeps : Database → Database → Type 0
  Keeps db db' = (db'.servers ≡ db.servers) × (db'.categories ≡ db.categories)

  pub Keeps-IsPreorder : IsPreorder Keeps
  Keeps-IsPreorder = record {
    itself = λ db. (refl, refl);
    trans = λ db db' db'' a b. (b.0 ∙ a.0, b.1 ∙ a.1);
  }

  -- the servers stay in the categories
  abbrev pub Settles : List ℕ → Database → Database → Type 0
  Settles ids db db' =
      AllIn ids (of_team (λ r. r.team_id) team db.servers)
      → AllIn ids (of_team (λ r. r.team_id) team db'.servers)

  abbrev pub KeepsSettled : List ℕ → Database → Database → Type 0
  KeepsSettled ids db db' = (db'.categories ≡ db.categories) × Settles ids db db'

  KeepsSettled-IsPreorder : (ids : List ℕ) → IsPreorder (KeepsSettled ids)
  KeepsSettled-IsPreorder ids = record {
    itself = λ db. (refl, λ x. x);
    trans = λ db db' db'' a b. (b.0 ∙ a.0, λ x. b.1 (a.1 x));
  }

  module _ (lib : Library) (cipher : Cipher) (fails : Failures) (now : ℕ) (trust : Bool) where
    KeepsSettled-import_server :
        (ids : List ℕ) (default : ℕ) (categories keys : Renumbering) (s : Server)
        → ValuesIn ids categories
        → is_member default ids ≡ true
        → Preserves
            (KeepsSettled ids)
            (import_server lib cipher fails now team trust default categories keys s)
    unfolding import_server attach
    KeepsSettled-import_server ids default categories keys s h d =
        Preserves-bind (KeepsSettled ids) (KeepsSettled-IsPreorder ids) _ _
          (Preserves-returning (KeepsSettled ids) fails inserts_server _ _ (λ db. (
            refl,
            λ all. subst (AllIn ids) (sym (of_team-added (λ r. r.team_id) team db.servers _ refl)) (
                AllIn-append ids _ _ all
                  (or_default_lem ids categories s.category_ref default h d)),
          )))
          (λ n.
            Preserves-import_rest (KeepsSettled ids) (KeepsSettled-IsPreorder ids) (λ _. Unit)
              (λ m f db u. (refl, λ all. all)) team lib cipher fails now trust n s keys tt)

    KeepsSettled-import_each_server :
        (ids : List ℕ) (default : ℕ) (categories keys : Renumbering) (ss : List Server)
        → ValuesIn ids categories
        → is_member default ids ≡ true
        → Preserves
            (KeepsSettled ids)
            (import_each_server lib cipher fails now team trust default categories keys ss)
    unfolding import_each_server
    KeepsSettled-import_each_server ids default categories keys [] h d =
        Preserves-pure (KeepsSettled ids) (KeepsSettled-IsPreorder ids) []
    KeepsSettled-import_each_server ids default categories keys (s ∷ ss) h d =
        Preserves-bind (KeepsSettled ids) (KeepsSettled-IsPreorder ids) _ _
          (KeepsSettled-import_server ids default categories keys s h d)
          (λ n.
            Preserves-bind (KeepsSettled ids) (KeepsSettled-IsPreorder ids) _ _
              (KeepsSettled-import_each_server ids default categories keys ss h d)
              (λ ns. Preserves-pure (KeepsSettled ids) (KeepsSettled-IsPreorder ids) (n ∷ ns)))

    pub KeepsSettled-import_servers :
        (ids : List ℕ) (categories keys : Renumbering) (ss : List Server)
        → ValuesIn ids categories
        → Preserves
            (KeepsSettled ids)
            (import_servers lib cipher fails now team trust categories keys ss)
    unfolding import_servers
    KeepsSettled-import_servers ids categories keys ss h =
        elim (Bool-cases (default_category lib categories == 0)) [
          | inl t ↦
              simp t
                (Preserves-lift (KeepsSettled ids) (KeepsSettled-IsPreorder ids) (inl no_category))
          | inr t ↦ simp t (
              KeepsSettled-import_each_server ids (default_category lib categories) categories keys
                ss h (default_category_lem lib ids categories h t))
        ]
