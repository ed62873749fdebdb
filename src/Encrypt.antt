-- ===== src/Encrypt.antt =====
-- internal/utils/encrypt/key.go: the envelope in which the credentials of the database are
-- encrypted, bound to their row and column. Texts and ciphertexts are lists of bytes.
pub mod Envelope
mod Tests
use mosona_manager.Decimal.{print}
use mosona_manager.Prelude.{
  Bool, List, Option, [], bytes, drop, false, get_elem?, has_prefix, if◌then◌else◌, length, ltb,
  none, not, some, take, ℕ, ◌++◌, ◌+◌, ◌==◌, ◌||◌, ◌∷◌, ◌≡◌, ◌≢◌, ◌≤◌,
}

-- AES-GCM: whether a key is usable, and `Seal` and `Open` by key, nonce, text and additional data
pub record Gcm : Type 0 where
  pub accepts_key : List ℕ → Bool
  pub nonce_size : ℕ
  pub overhead : ℕ
  pub seal : List ℕ → List ℕ → List ℕ → List ℕ → List ℕ
  pub unseal : List ℕ → List ℕ → List ℕ → List ℕ → Option (List ℕ)

abbrev pub envelope_version : ℕ
envelope_version = 1

abbrev pub envelope_magic : List ℕ
envelope_magic = bytes "MSNENC01"

abbrev pub header : List ℕ
header = envelope_magic ++ envelope_version ∷ []

unfoldable pub key_content_context : ℕ → List ℕ
key_content_context id = bytes "keys/" ++ (print id ++ bytes "/content")

unfoldable pub key_password_context : ℕ → List ℕ
key_password_context id = bytes "keys/" ++ (print id ++ bytes "/password")

unfoldable pub ssh_password_context : ℕ → List ℕ
ssh_password_context id = bytes "ssh/" ++ (print id ++ bytes "/password")

unfoldable pub agent_private_key_context : ℕ → List ℕ
agent_private_key_context id = bytes "agents/" ++ (print id ++ bytes "/private_key")

unfoldable pub associated_data : List ℕ → List ℕ → List ℕ
associated_data head context = head ++ 0 ∷ context

module _ (gcm : Gcm) where
  -- `Encrypt`; the nonce is `none` where the random source fails
  unfoldable pub encrypt : Option (List ℕ) → List ℕ → List ℕ → List ℕ → Option (List ℕ)
  unfolding associated_data
  encrypt none plain key context = none
  encrypt (some nonce) plain key context =
      if not (gcm.accepts_key key)
      then none
      else some (header ++ (nonce ++ gcm.seal key nonce plain (associated_data header context)))

  unfoldable pub is_versioned_ciphertext : List ℕ → Bool
  unfolding has_prefix
  is_versioned_ciphertext ciphertext = has_prefix ciphertext envelope_magic

  unfoldable pub is_current_ciphertext : List ℕ → Bool
  unfolding has_prefix
  is_current_ciphertext ciphertext = has_prefix ciphertext header

  -- `envelope[len(envelopeMagic)]`
  abbrev pub has_version : Option ℕ → Bool
  has_version none = false
  has_version (some v) = v == envelope_version

  unfoldable pub decrypt_envelope : List ℕ → List ℕ → List ℕ → Option (List ℕ)
  unfolding is_versioned_ciphertext associated_data
  decrypt_envelope envelope key context =
      if not (is_versioned_ciphertext envelope) || ltb (length envelope) 9
      then none
      else if not (has_version (get_elem? envelope 8))
      then none
      else if not (gcm.accepts_key key)
      then none
      else if ltb (length envelope) (9 + gcm.nonce_size + gcm.overhead)
      then none
      else gcm.unseal key (take gcm.nonce_size (drop 9 envelope))
          (drop gcm.nonce_size (drop 9 envelope)) (associated_data (take 9 envelope) context)

  unfoldable pub decrypt : List ℕ → List ℕ → List ℕ → Option (List ℕ)
  unfolding decrypt_envelope
  decrypt ciphertext key context =
      if not (is_versioned_ciphertext ciphertext)
      then none
      else decrypt_envelope ciphertext key context

-- what AES-GCM documents: what was sealed opens again, under the same key, nonce and additional
-- data, and under no other additional data; a tag makes it longer by `Overhead`
pub record IsGcm (gcm : Gcm) : Type 0 where
  pub opens :
      (key nonce plain aad : List ℕ)
      → gcm.unseal key nonce (gcm.seal key nonce plain aad) aad ≡ some plain
  pub authentic :
      (key nonce plain aad other text : List ℕ)
      → gcm.unseal key nonce (gcm.seal key nonce plain aad) other ≡ some text
      → aad ≡ other
  pub tagged : (key nonce plain aad : List ℕ) → gcm.overhead ≤ length (gcm.seal key nonce plain aad)

-- what the rest of the Hub needs of the encryption of credentials, under the Hub's key
pub record Cipher : Type 0 where
  pub encrypt_text : List ℕ → List ℕ → Option (List ℕ)
  pub decrypt_text : List ℕ → List ℕ → Option (List ℕ)

pub record IsCipher (cipher : Cipher) : Type 0 where
  pub decrypts :
      (plain context sealed : List ℕ)
      → cipher.encrypt_text plain context ≡ some sealed
      → cipher.decrypt_text sealed context ≡ some plain
  pub not_empty : (plain context : List ℕ) → cipher.encrypt_text plain context ≢ some []
