-- ===== src/Transfer/Export.antt =====
-- internal/app/api/team/export_import.go, the export: `buildTeamExport`. A row whose credential no
-- longer decrypts fails the export, or is left out and listed.
pub mod Servers
pub mod Whole
use mosona_manager.Encrypt.{key_content_context, key_password_context, Cipher}
use mosona_manager.Transfer.Bundle.{Category, Key, Alert, SkippedKey}
use mosona_manager.Transfer.Database.{
  KeyRow, Database, Result, and_then, Failures, query, of_team, reads_keys, unreadable_key,
}
use Prim.Native.String.{String}
use mosona_manager.Prelude.{
  Bool, List, Option, [], false, if◌then◌else◌, inl, inr, none, some, ℕ, ◌==◌, ◌||◌, ◌∷◌, ◌⊎◌,
}

-- the `ORDER BY` of the database
pub record Order : Type 0 where
  pub by_sort : List Category → List Category
  pub by_item : List Alert → List Alert

abbrev pub key_of : KeyRow → List ℕ → Option (List ℕ) → Key
key_of row content password = record {
  ref_id = row.id;
  name = row.name;
  content = content;
  password = password;
}

abbrev pub skipped_key : KeyRow → String → SkippedKey
skipped_key row credential = record {
  key_id = row.id;
  key_name = row.name;
  credential = credential;
}

-- what `exportKeys` returns and adds to the bundle
pub record KeysRead : Type 0 where
  pub keys : List Key
  pub skipped_keys : List SkippedKey
  pub unreadable_ids : List ℕ

abbrev pub add_key : Key → Result KeysRead → Result KeysRead
add_key key (inl e) = inl e
add_key key (inr r) = inr (record r { keys = key ∷ r.keys })

abbrev pub add_skipped_key : SkippedKey → Result KeysRead → Result KeysRead
add_skipped_key s (inl e) = inl e
add_skipped_key s (inr r) =
    inr
      (record r { skipped_keys = s ∷ r.skipped_keys; unreadable_ids = s.key_id ∷ r.unreadable_ids })

-- a row of the loop over keys, before the rows after it; the left is an unreadable credential
abbrev pub collect_key : Bool → KeyRow → String ⊎ Key → Result KeysRead → Result KeysRead
collect_key skip row (inl credential) rest =
    if skip
    then add_skipped_key (skipped_key row credential) rest
    else inl (unreadable_key (skipped_key row credential))
collect_key skip row (inr key) rest = add_key key rest

abbrev pub is_member : ℕ → List ℕ → Bool
is_member i [] = false
is_member i (j ∷ js) = i == j || is_member i js

module _ (cipher : Cipher) where
  abbrev pub with_password : KeyRow → List ℕ → Option (List ℕ) → String ⊎ Key
  with_password row content none = inl "ssh_key_password"
  with_password row content (some password) = inr (key_of row content (some password))

  unfoldable pub read_password : KeyRow → List ℕ → Option (List ℕ) → String ⊎ Key
  read_password row content none = inr (key_of row content none)
  read_password row content (some []) = inr (key_of row content none)
  read_password row content (some (b ∷ bs)) =
      with_password row content (cipher.decrypt_text (b ∷ bs) (key_password_context row.id))

  unfoldable pub read_content : KeyRow → Option (List ℕ) → String ⊎ Key
  read_content row none = inl "ssh_key_content"
  read_content row (some content) = read_password row content row.password

  unfoldable pub read_key : KeyRow → String ⊎ Key
  read_key row = read_content row (cipher.decrypt_text row.content (key_content_context row.id))

  unfoldable pub export_rows : Bool → List KeyRow → Result KeysRead
  export_rows skip [] = inr (record { keys = []; skipped_keys = []; unreadable_ids = [] })
  export_rows skip (row ∷ rows) = collect_key skip row (read_key row) (export_rows skip rows)

  unfoldable pub export_keys : Failures → ℕ → Database → Bool → Result KeysRead
  export_keys fails team db skip =
      and_then (query fails reads_keys db (of_team (λ r. r.team_id) team db.keys))
        (export_rows skip)
