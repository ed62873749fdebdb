-- ===== src/Transfer/Steps.antt =====
-- What a step that succeeded says of its parts: reads and checks, then parts of a transaction.
use mathlib.Core.Path.{ap}
use mosona_manager.Transfer.Database.{
  Database, Statement, Result, Tx, bind, and_then, lift, Failures, exec, query,
}
use mosona_manager.Transfer.Import.{returning, reading}
use mosona_manager.Prelude.{Bool-cases, inl, inr, refl, sym, ℕ, ◌∙◌, ◌≡◌}

abbrev value : {A : Type 0} → A → Result A → A
value a (inl e) = a
value a (inr b) = b

pub right_injective : {A : Type 0} {a b : A} (p : Result A) → p ≡ inr a → p ≡ inr b → a ≡ b
right_injective {a = a} p h k = ap (value a) (sym h ∙ k)

module _ {A B : Type 0} where
  pub and_then_inverse :
      (m : Result A) (k : A → Result B) (b : B)
      → and_then m k ≡ inr b
      → (a : A) × (m ≡ inr a) × (k a ≡ inr b)
  unfolding and_then
  and_then_inverse (inl e) k b h = absurd (cc h)
  and_then_inverse (inr a) k b h = (a, refl, h)

  pub bind_inverse :
      (r : Result (A × Database)) (k : A → Tx B) (b : B × Database)
      → bind r k ≡ inr b
      → (a : A) × (db : Database) × (r ≡ inr (a, db)) × (k a db ≡ inr b)
  unfolding bind
  bind_inverse (inl e) k b h = absurd (cc h)
  bind_inverse (inr (a, db)) k b h = (a, db, refl, h)

  pub lift-bind :
      (r : Result A) (k : A → Tx B) (db : Database) (b : B × Database)
      → bind (lift r db) k ≡ inr b
      → (a : A) × (r ≡ inr a) × (k a db ≡ inr b)
  unfolding bind lift
  lift-bind (inl e) k db b h = absurd (cc h)
  lift-bind (inr a) k db b h = (a, refl, h)

module _ {B : Type 0} (fails : Failures) (st : Statement) where
  pub query_then :
      {A : Type 0} (db : Database) (a : A) (k : A → Result B) (b : B)
      → and_then (query fails st db a) k ≡ inr b
      → k a ≡ inr b
  unfolding query and_then
  query_then db a k b h = elim (Bool-cases (fails st db)) [
    | inl t ↦ absurd (cc (simp t at h))
    | inr t ↦ simp t at h
  ]

  pub reading-bind :
      {A : Type 0} (f : Database → A) (k : A → Tx B) (db : Database) (b : B × Database)
      → bind (reading fails st f db) k ≡ inr b
      → k (f db) db ≡ inr b
  unfolding bind reading
  reading-bind f k db b h = elim (Bool-cases (fails st db)) [
    | inl t ↦ absurd (cc (simp t at h))
    | inr t ↦ simp t at h
  ]

  pub exec-bind :
      (f : Database → Database) (k : Unit {0} → Tx B) (db : Database) (b : B × Database)
      → bind (exec fails st f db) k ≡ inr b
      → k tt (f db) ≡ inr b
  unfolding bind exec
  exec-bind f k db b h = elim (Bool-cases (fails st db)) [
    | inl t ↦ absurd (cc (simp t at h))
    | inr t ↦ simp t at h
  ]

  pub returning-bind :
      (id : Database → ℕ) (f : Database → Database) (k : ℕ → Tx B) (db : Database)
      (b : B × Database)
      → bind (returning fails st id f db) k ≡ inr b
      → k (id db) (f db) ≡ inr b
  unfolding bind returning
  returning-bind id f k db b h = elim (Bool-cases (fails st db)) [
    | inl t ↦ absurd (cc (simp t at h))
    | inr t ↦ simp t at h
  ]
