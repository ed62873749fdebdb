-- ===== src/Transfer/Rows.antt =====
-- The rows of one team and of the others, and the row that an imported key becomes.
use mosona_manager.Encrypt.{key_content_context, Cipher}
use mosona_manager.Transfer.Bundle.{Key}
use mosona_manager.Transfer.Database.{KeyRow, Database, Failures, of_team, not_of_team}
use mosona_manager.Transfer.Import.{
  insert_key, update_rows, or_encryption_error, stored_password, encrypted_password, import_key,
}
use mosona_manager.Transfer.Steps.{right_injective, lift-bind, exec-bind, returning-bind}
use mosona_manager.Prelude.{
  Bool-cases, List, Option, [], ap, arith, false, inl, inr, none, refl, suc, sym, ℕ, ◌++◌, ◌<◌,
  ◌==◌, ◌∙◌, ◌∷◌, ◌≡◌,
}

-- the identifiers that the sequence gave are below its next
abbrev pub AllBelow : ℕ → List KeyRow → Type 0
AllBelow n [] = Unit
AllBelow n (r ∷ rs) = (r.id < n) × AllBelow n rs

pub AllBelow-append :
    (n : ℕ) (rows : List KeyRow) (r : KeyRow)
    → AllBelow n rows
    → r.id ≡ n
    → AllBelow (suc n) (rows ++ r ∷ [])
AllBelow-append n [] r h e = (omega (arith, e), tt)
AllBelow-append n (x ∷ xs) r h e = (omega (arith, h.0), AllBelow-append n xs r h.1 e)

pub AllBelow-not_of_team :
    (n team : ℕ) (rows : List KeyRow)
    → AllBelow n rows
    → AllBelow n (not_of_team (λ r. r.team_id) team rows)
unfolding not_of_team
AllBelow-not_of_team n team [] h = tt
AllBelow-not_of_team n team (r ∷ rs) h = elim (Bool-cases (r.team_id == team)) [
  | inl t ↦ simp t (AllBelow-not_of_team n team rs h.1)
  | inr t ↦ simp t (h.0, AllBelow-not_of_team n team rs h.1)
]

update_rows_last :
    (n : ℕ) (rows : List KeyRow) (r : KeyRow) (content : List ℕ) (password : Option (List ℕ))
    → AllBelow n rows
    → r.id ≡ n
    → update_rows n content password (rows ++ r ∷ [])
      ≡ rows ++ record r { content = content; password = password } ∷ []
unfolding update_rows
update_rows_last n [] r content password h e = rw (e) (ground arith)
update_rows_last n (x ∷ xs) r content password h e =
    let rest = update_rows_last n xs r content password h.1 e in
    let other : (x.id == n) ≡ false = ground (arith, h.0) in simp other (ap (◌∷◌ x) rest)

module _ {R : Type 0} (key : R → ℕ) (team : ℕ) where
  pub of_team-append :
      (xs ys : List R) → of_team key team (xs ++ ys) ≡ of_team key team xs ++ of_team key team ys
  unfolding of_team
  of_team-append [] ys = refl
  of_team-append (x ∷ xs) ys = ground (arith, of_team-append xs ys)

  pub not_of_team-append :
      (xs ys : List R)
      → not_of_team key team (xs ++ ys) ≡ not_of_team key team xs ++ not_of_team key team ys
  unfolding not_of_team
  not_of_team-append [] ys = refl
  not_of_team-append (x ∷ xs) ys = ground (arith, not_of_team-append xs ys)

  pub of_team-not_of_team : (xs : List R) → of_team key team (not_of_team key team xs) ≡ []
  unfolding of_team not_of_team
  of_team-not_of_team [] = refl
  of_team-not_of_team (x ∷ xs) = ground (arith, of_team-not_of_team xs)

  pub not_of_team-not_of_team :
      (xs : List R) → not_of_team key team (not_of_team key team xs) ≡ not_of_team key team xs
  unfolding not_of_team
  not_of_team-not_of_team [] = refl
  not_of_team-not_of_team (x ∷ xs) = ground (arith, not_of_team-not_of_team xs)

abbrev pub new_row : ℕ → Database → Key → KeyRow
new_row team db k = record {
  id = db.next_key;
  team_id = team;
  name = k.name;
  content = [];
  password = none;
}

-- the database with one more key
abbrev pub with_key : Database → KeyRow → Database
with_key db row = record db { keys = db.keys ++ row ∷ []; next_key = suc db.next_key }

module _ (cipher : Cipher) (team : ℕ) (fails : Failures) where
  pub import_key_writes :
      (k : Key) (db : Database) (b : ℕ × Database)
      → AllBelow db.next_key db.keys
      → import_key cipher fails team k db ≡ inr b
      → (content password : List ℕ) × (or_encryption_error
            (cipher.encrypt_text k.content (key_content_context db.next_key))
          ≡ inr content)
        × (encrypted_password cipher db.next_key k.password ≡ inr password)
        × (b ≡ (
          db.next_key,
          with_key db (record (new_row team db k) {
            content = content;
            password = stored_password password;
          }),
        ))
  unfolding import_key insert_key
  import_key_writes k db b fresh h =
      let h1 = returning-bind _ _ _ _ _ db b h in
      let (content, e, h2) = lift-bind _ _ _ b h1 in
      let (password, p, h3) = lift-bind _ _ _ b h2 in
      let h4 = exec-bind _ _ _ _ _ b h3 in
      (
        content,
        password,
        e,
        p,
        sym (right_injective _ refl h4)
            ∙ ap (λ rows. (db.next_key, record db { keys = rows; next_key = suc db.next_key }))
                (update_rows_last db.next_key db.keys (new_row team db k) content
                  (stored_password password) fresh refl),
      )
