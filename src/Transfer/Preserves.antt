-- ===== src/Transfer/Preserves.antt =====
-- A part of a transaction that takes every state to one that a reflexive and transitive relation
-- joins to it.
pub mod Servers
use mathlib.Core.Path.{subst}
use mosona_manager.Transfer.Database.{
  Database, Statement, Result, Tx, ◌>>=◌, pure, lift, Failures, exec,
}
use mosona_manager.Transfer.Import.{returning}
use mosona_manager.Transfer.Steps.{right_injective, bind_inverse}
use mosona_manager.Prelude.{Bool-cases, inl, inr, refl, ℕ, ◌≡◌}

pub record IsPreorder (R : Database → Database → Type 0) : Type 0 where
  pub itself : (db : Database) → R db db
  pub trans : (db db' db'' : Database) → R db db' → R db' db'' → R db db''

module _ (R : Database → Database → Type 0) where
  abbrev pub Preserves : {A : Type 0} → Tx A → Type 0
  Preserves {A = A} m = (db : Database) (b : A × Database) → m db ≡ inr b → R db b.1

  module _ (laws : IsPreorder R) {A : Type 0} where
    pub Preserves-pure : (a : A) → Preserves (pure a)
    Preserves-pure a db b h = subst (λ x. R db x.1) (right_injective _ refl h) (laws.itself db)

    pub Preserves-lift : (r : Result A) → Preserves (lift r)
    unfolding lift
    Preserves-lift (inl e) db b h = absurd (cc h)
    Preserves-lift (inr a) db b h = Preserves-pure a db b h

    pub Preserves-bind :
        {B : Type 0} (m : Tx A) (k : A → Tx B)
        → Preserves m
        → ((a : A) → Preserves (k a))
        → Preserves (m >>= k)
    Preserves-bind m k first then_ db b h =
        let (a, db', e, h') = bind_inverse (m db) k b h in
        laws.trans db db' b.1 (first db (a, db') e) (then_ a db' b h')

  module _ (fails : Failures) (st : Statement) where
    pub Preserves-exec :
        (f : Database → Database) → ((db : Database) → R db (f db)) → Preserves (exec fails st f)
    unfolding exec
    Preserves-exec f follows db b h = elim (Bool-cases (fails st db)) [
      | inl t ↦ absurd (cc (simp t at h))
      | inr t ↦ subst (λ x. R db x.1) (right_injective _ refl (simp t at h)) (follows db)
    ]

    pub Preserves-returning :
        (n : Database → ℕ) (f : Database → Database)
        → ((db : Database) → R db (f db))
        → Preserves (returning fails st n f)
    unfolding returning
    Preserves-returning n f follows db b h = elim (Bool-cases (fails st db)) [
      | inl t ↦ absurd (cc (simp t at h))
      | inr t ↦ subst (λ x. R db x.1) (right_injective _ refl (simp t at h)) (follows db)
    ]
