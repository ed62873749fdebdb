-- ===== src/Transfer/Keys.antt =====
-- The keys that an import writes read again as the keys of the bundle.
use mosona_manager.Transfer.Rows.{
  AllBelow, AllBelow-append, AllBelow-not_of_team, of_team-append, not_of_team-append,
  of_team-not_of_team, not_of_team-not_of_team, new_row, with_key, import_key_writes,
}
use mathlib.Core.Path.{ap₂}
use mathlib.Core.List.{append-nil, append_assoc}
use mathlib.Core.Path.{subst, subst₂, subst}
use native.Mathlib.Decide.{ℕ_discrete}
use mosona_manager.Encrypt.{Cipher, IsCipher, key_content_context, key_password_context}
use mosona_manager.Transfer.Bundle.{Key}
use mosona_manager.Transfer.Database.{
  KeyRow, of_team, not_of_team, Database, Failures, and_then, query, reads_keys,
}
use mosona_manager.Transfer.Export.{
  key_of, read_password, read_key, with_password, read_content, KeysRead, collect_key, export_rows,
  export_keys,
}
use mosona_manager.Transfer.Steps.{right_injective, bind_inverse}
use mosona_manager.Transfer.Import.{
  stored_password, encrypted_password, or_encryption_error, import_key, Renumbering,
  import_each_key, delete_keys, import_keys,
}
use mosona_manager.Prelude.{
  Bool, List, Option, [], ap, arith, false, inr, none, refl, some, store, suc, sym, true, ℕ, ◌++◌,
  ◌==◌, ◌∙◌, ◌∷◌, ◌≡◌,
}

-- the keys of a bundle under new identifiers, and nothing left out
abbrev pub renumbered_keys : ℕ → List Key → List Key
renumbered_keys n [] = []
renumbered_keys n (k ∷ ks) = record k { ref_id = n } ∷ renumbered_keys (suc n) ks

abbrev pub all_read : List Key → KeysRead
all_read ks = record { keys = ks; skipped_keys = []; unreadable_ids = [] }

module _ (cipher : Cipher) (laws : IsCipher cipher) (team : ℕ) where
  -- a row that an import wrote for a key
  abbrev IsCopy : ℕ → Key → KeyRow → Type 0
  IsCopy n k r =
      (r.id ≡ n) × (r.team_id ≡ team) × (read_key cipher r ≡ inr (record k { ref_id = n }))

  abbrev AreCopies : ℕ → List Key → List KeyRow → Type 0
  AreCopies n [] [] = Unit
  AreCopies n [] (r ∷ rs) = ⊥
  AreCopies n (k ∷ ks) [] = ⊥
  AreCopies n (k ∷ ks) (r ∷ rs) = IsCopy n k r × AreCopies (suc n) ks rs

  sealed_inverse :
      (o : Option (List ℕ)) (sealed : List ℕ) → or_encryption_error o ≡ inr sealed → o ≡ some sealed
  sealed_inverse none sealed h = absurd (cc h)
  sealed_inverse (some t) sealed h = ap some (right_injective _ refl h)

  read_password_lem :
      (r : KeyRow) (content : List ℕ) (password : Option (List ℕ)) (sealed : List ℕ)
      → encrypted_password cipher r.id password ≡ inr sealed
      → read_password cipher r content (stored_password sealed) ≡ inr (key_of r content password)
  unfolding read_password
  read_password_lem r content none sealed h = rw (sym (right_injective _ refl h)) refl
  read_password_lem r content (some p) [] h =
      absurd (laws.not_empty p (key_password_context r.id) (sealed_inverse _ [] h))
  read_password_lem r content (some p) (b ∷ bs) h =
      ap (with_password cipher r content)
        (laws.decrypts p (key_password_context r.id) (b ∷ bs) (sealed_inverse _ (b ∷ bs) h))

  read_key_lem :
      (k : Key) (r : KeyRow) (content password : List ℕ)
      → or_encryption_error (cipher.encrypt_text k.content (key_content_context r.id)) ≡ inr content
      → encrypted_password cipher r.id k.password ≡ inr password
      → read_key cipher
          (record r { name = k.name; content = content; password = stored_password password })
        ≡ inr (record k { ref_id = r.id })
  unfolding read_key read_content
  read_key_lem k r content password h p =
      let row = record r {
        name = k.name;
        content = content;
        password = stored_password password;
      } in
      ap (read_content cipher row)
        (laws.decrypts k.content (key_content_context r.id) content (sealed_inverse _ content h))
      ∙ read_password_lem row k.content k.password password p

  module _ (fails : Failures) where
    import_key_lem :
        (k : Key) (db : Database) (b : ℕ × Database)
        → AllBelow db.next_key db.keys
        → import_key cipher fails team k db ≡ inr b
        → (row : KeyRow) × (IsCopy db.next_key k row) × (b ≡ (db.next_key, with_key db row))
    import_key_lem k db b fresh h =
        let (content, password, e, p, q) = import_key_writes cipher team fails k db b fresh h in
        let row = new_row team db k in
        (
          record row { content = content; password = stored_password password },
          (refl, refl, read_key_lem k row content password e p),
          q,
        )

    -- the keys that are added
    AreCopies_lem :
        (m : Renumbering) (ks : List Key) (db : Database) (b : Renumbering × Database)
        → AllBelow db.next_key db.keys
        → import_each_key cipher fails team m ks db ≡ inr b
        → (rows : List KeyRow) × (AreCopies db.next_key ks rows) × (b.1.keys ≡ db.keys ++ rows)
    unfolding import_each_key
    AreCopies_lem m [] db b fresh h =
        ([], tt, ap (λ x. x.1.keys) (sym (right_injective _ refl h)) ∙ sym (append-nil db.keys))
    AreCopies_lem m (k ∷ ks) db b fresh h =
        let (id, db1, e, h1) = bind_inverse _ _ b h in
        let (row, copy, q) = import_key_lem k db (id, db1) fresh e in
        let next : db1.next_key ≡ suc db.next_key = ap (λ x. x.1.next_key) q in
        let keys : db1.keys ≡ db.keys ++ row ∷ [] = ap (λ x. x.1.keys) q in
        let below =
          subst₂ AllBelow (sym next) (sym keys)
            (AllBelow-append db.next_key db.keys row fresh copy.0) in
        let (rows, copies, r) = AreCopies_lem (store ℕ_discrete k.ref_id id m) ks db1 b below h1 in
        (
          row ∷ rows,
          (copy, subst (λ n. AreCopies n ks rows) next copies),
          r ∙ ap (λ x. x ++ rows) keys ∙ append_assoc db.keys (row ∷ []) rows,
        )

  export_rows-AreCopies :
      (n : ℕ) (ks : List Key) (rows : List KeyRow) (skip : Bool)
      → AreCopies n ks rows
      → export_rows cipher skip rows ≡ inr (all_read (renumbered_keys n ks))
  unfolding export_rows
  export_rows-AreCopies n [] [] skip h = refl
  export_rows-AreCopies n [] (r ∷ rs) skip h = absurd h
  export_rows-AreCopies n (k ∷ ks) [] skip h = absurd h
  export_rows-AreCopies n (k ∷ ks) (r ∷ rs) skip h =
      ap₂ (collect_key skip r) h.0.2 (export_rows-AreCopies (suc n) ks rs skip h.1)

  of_team-AreCopies :
      (n : ℕ) (ks : List Key) (rows : List KeyRow)
      → AreCopies n ks rows
      → of_team (λ r. r.team_id) team rows ≡ rows
  unfolding of_team
  of_team-AreCopies n [] [] h = refl
  of_team-AreCopies n [] (r ∷ rs) h = absurd h
  of_team-AreCopies n (k ∷ ks) [] h = absurd h
  of_team-AreCopies n (k ∷ ks) (r ∷ rs) h =
      let rest = of_team-AreCopies (suc n) ks rs h.1 in
      let own : (r.team_id == team) ≡ true = ground (arith, h.0.1) in simp own (ap (◌∷◌ r) rest)

  not_of_team-AreCopies :
      (n : ℕ) (ks : List Key) (rows : List KeyRow)
      → AreCopies n ks rows
      → not_of_team (λ r. r.team_id) team rows ≡ []
  unfolding not_of_team
  not_of_team-AreCopies n [] [] h = refl
  not_of_team-AreCopies n [] (r ∷ rs) h = absurd h
  not_of_team-AreCopies n (k ∷ ks) [] h = absurd h
  not_of_team-AreCopies n (k ∷ ks) (r ∷ rs) h =
      let own : (r.team_id == team) ≡ true = ground (arith, h.0.1) in
      simp own (not_of_team-AreCopies (suc n) ks rs h.1)

  -- Keys that are imported into a team whose own were cleared are exported again: all of them, in
  -- their order, with their names, contents and passwords, under new consecutive identifiers, and
  -- none is left out, whether or not unreadable keys are skipped. The keys of the other teams stay
  -- as they were. The encryption is lawful, the sequence is ahead of the identifiers, and the query
  -- of the export does not fail.
  pub export_keys-import_keys :
      (fails reads : Failures) (ks : List Key) (db : Database) (b : Renumbering × Database)
      (skip : Bool)
      → AllBelow db.next_key db.keys
      → import_keys cipher fails team ks (delete_keys team db) ≡ inr b
      → reads reads_keys b.1 ≡ false
      → (export_keys cipher reads team b.1 skip ≡ inr (all_read (renumbered_keys db.next_key ks)))
        × (not_of_team (λ r. r.team_id) team b.1.keys ≡ not_of_team (λ r. r.team_id) team db.keys)
  unfolding import_keys export_keys query and_then delete_keys
  export_keys-import_keys fails reads ks db b skip fresh h ok =
      let below = AllBelow-not_of_team db.next_key team db.keys fresh in
      let (rows, copies, e) = AreCopies_lem fails [] ks (delete_keys team db) b below h in
      let kept = not_of_team (λ r. r.team_id) team db.keys in
      let own : of_team (λ r. r.team_id) team b.1.keys ≡ rows =
        ap (of_team (λ r. r.team_id) team) e
        ∙ of_team-append (λ r. r.team_id) team kept rows
        ∙ ap₂ (◌++◌) (of_team-not_of_team (λ r. r.team_id) team db.keys)
            (of_team-AreCopies db.next_key ks rows copies) in
      let others : not_of_team (λ r. r.team_id) team b.1.keys ≡ kept =
        ap (not_of_team (λ r. r.team_id) team) e
        ∙ not_of_team-append (λ r. r.team_id) team kept rows
        ∙ ap₂ (◌++◌) (not_of_team-not_of_team (λ r. r.team_id) team db.keys)
            (not_of_team-AreCopies db.next_key ks rows copies)
        ∙ append-nil kept in
      (
        simp ok (
            ap (export_rows cipher skip) own
            ∙ export_rows-AreCopies db.next_key ks rows skip copies),
        others,
      )
