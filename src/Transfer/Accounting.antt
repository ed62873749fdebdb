-- ===== src/Transfer/Accounting.antt =====
-- What an export leaves out is listed, and nothing else is left out.
pub mod Servers
pub mod Whole
use mosona_manager.Encrypt.{key_content_context, key_password_context, Cipher}
use mosona_manager.Transfer.Bundle.{Key, Server, SkippedServer, SkippedKey}
use mosona_manager.Transfer.Database.{KeyRow, ServerRow, Result}
use mosona_manager.Transfer.Export.{
  skipped_key, KeysRead, add_key, add_skipped_key, collect_key, with_password, read_password,
  read_content, read_key, export_rows,
}
use mosona_manager.Transfer.Export.Servers.{has_unreadable_key}
use mosona_manager.Transfer.Steps.{right_injective}
use mathlib.Core.Path.{subst}
use mathlib.Core.Bool.{true≢false}
use Prim.Native.String.{String}
use mosona_manager.Prelude.{
  Bool, List, Option, [], ap, false, inl, inr, none, refl, some, true, ℕ, ◌∷◌, ◌≡◌, ◌⊎◌,
}

-- Each row is in the bundle, under its identifier and without a key that was left out, or is
-- listed, in the order of the rows.
pub data Accounted (ids : List ℕ) : List ServerRow → List Server → List SkippedServer → Type 0 where
  none_left : Accounted ids [] [] []
  exported :
      {row : ServerRow} {rows : List ServerRow} {s : Server} {ss : List Server}
      {ks : List SkippedServer}
      → s.ref_id ≡ row.id
      → has_unreadable_key ids s.ssh ≡ false
      → Accounted ids rows ss ks
      → Accounted ids (row ∷ rows) (s ∷ ss) ks
  left_out :
      {row : ServerRow} {rows : List ServerRow} {k : SkippedServer} {ss : List Server}
      {ks : List SkippedServer}
      → k.server_id ≡ row.id
      → Accounted ids rows ss ks
      → Accounted ids (row ∷ rows) ss (k ∷ ks)

-- the keys likewise
pub data AccountedKeys : List KeyRow → List Key → List SkippedKey → Type 0 where
  no_key_left : AccountedKeys [] [] []
  exported_key :
      {row : KeyRow} {rows : List KeyRow} {k : Key} {ks : List Key} {ss : List SkippedKey}
      → k.ref_id ≡ row.id
      → AccountedKeys rows ks ss
      → AccountedKeys (row ∷ rows) (k ∷ ks) ss
  listed_key :
      {row : KeyRow} {rows : List KeyRow} {s : SkippedKey} {ks : List Key} {ss : List SkippedKey}
      → s.key_id ≡ row.id
      → AccountedKeys rows ks ss
      → AccountedKeys (row ∷ rows) ks (s ∷ ss)

abbrev pub ids_of_keys : List SkippedKey → List ℕ
ids_of_keys [] = []
ids_of_keys (s ∷ ss) = s.key_id ∷ ids_of_keys ss

-- what the rows of keys give
abbrev IsKeysRead : Bool → List KeyRow → KeysRead → Type 0
IsKeysRead skip rows r =
    AccountedKeys rows r.keys r.skipped_keys
    × (r.unreadable_ids ≡ ids_of_keys r.skipped_keys)
    × (skip ≡ false → r.skipped_keys ≡ [])

add_skipped_key_lem :
    (row : KeyRow) (rows : List KeyRow) (credential : String) (rest : Result KeysRead)
    (r : KeysRead)
    → ((r' : KeysRead) → rest ≡ inr r' → IsKeysRead true rows r')
    → add_skipped_key (skipped_key row credential) rest ≡ inr r
    → IsKeysRead true (row ∷ rows) r
add_skipped_key_lem row rows credential (inl e) r ih h = absurd (cc h)
add_skipped_key_lem row rows credential (inr r') r ih h =
    let (accounted, ids, none_) = ih r' refl in
    subst (IsKeysRead true (row ∷ rows)) (right_injective _ refl h)
      (listed_key refl accounted, ap (◌∷◌ row.id) ids, λ e. absurd (true≢false e))

add_key_lem :
    (skip : Bool) (row : KeyRow) (rows : List KeyRow) (k : Key) (rest : Result KeysRead)
    (r : KeysRead)
    → k.ref_id ≡ row.id
    → ((r' : KeysRead) → rest ≡ inr r' → IsKeysRead skip rows r')
    → add_key k rest ≡ inr r
    → IsKeysRead skip (row ∷ rows) r
add_key_lem skip row rows k (inl e) r own ih h = absurd (cc h)
add_key_lem skip row rows k (inr r') r own ih h =
    let (accounted, ids, none_) = ih r' refl in
    subst (IsKeysRead skip (row ∷ rows)) (right_injective _ refl h)
      (exported_key own accounted, ids, none_)

collect_key_lem :
    (skip : Bool) (row : KeyRow) (rows : List KeyRow) (x : String ⊎ Key) (rest : Result KeysRead)
    (r : KeysRead)
    → ((k : Key) → x ≡ inr k → k.ref_id ≡ row.id)
    → ((r' : KeysRead) → rest ≡ inr r' → IsKeysRead skip rows r')
    → collect_key skip row x rest ≡ inr r
    → IsKeysRead skip (row ∷ rows) r
collect_key_lem true row rows (inl c) rest r own ih h = add_skipped_key_lem row rows c rest r ih h
collect_key_lem false row rows (inl c) rest r own ih h = absurd (cc h)
collect_key_lem skip row rows (inr k) rest r own ih h =
    add_key_lem skip row rows k rest r (own k refl) ih h

module _ (cipher : Cipher) where
  -- a key that is read has the row's identifier
  abbrev HasId : ℕ → String ⊎ Key → Type 0
  HasId id (inl c) = Unit
  HasId id (inr k) = k.ref_id ≡ id

  HasId-read_password :
      (row : KeyRow) (content : List ℕ) (password : Option (List ℕ))
      → HasId row.id (read_password cipher row content password)
  unfolding read_password
  HasId-read_password row content none = refl
  HasId-read_password row content (some []) = refl
  HasId-read_password row content (some (b ∷ bs)) =
      opened (cipher.decrypt_text (b ∷ bs) (key_password_context row.id))
    where
      opened : (o : Option (List ℕ)) → HasId row.id (with_password cipher row content o)
      opened none = tt
      opened (some p) = refl

  HasId-read_key : (row : KeyRow) → HasId row.id (read_key cipher row)
  unfolding read_key read_content
  HasId-read_key row = opened (cipher.decrypt_text row.content (key_content_context row.id))
    where
      opened : (o : Option (List ℕ)) → HasId row.id (read_content cipher row o)
      opened none = tt
      opened (some content) = HasId-read_password row content row.password

  pub export_rows_lem :
      (skip : Bool) (rows : List KeyRow) (r : KeysRead)
      → export_rows cipher skip rows ≡ inr r
      → IsKeysRead skip rows r
  unfolding export_rows
  export_rows_lem skip [] r h =
      subst (IsKeysRead skip []) (right_injective _ refl h) (no_key_left, refl, λ e. refl)
  export_rows_lem skip (row ∷ rows) r h =
      collect_key_lem skip row rows (read_key cipher row) (export_rows cipher skip rows) r
        (λ k q. subst (HasId row.id) q (HasId-read_key row)) (export_rows_lem skip rows) h
