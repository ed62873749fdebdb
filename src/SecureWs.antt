-- ===== src/SecureWs.antt =====
-- pkg/securews/ws.go: the session cipher of a secure WebSocket, which sends and takes frames in
-- strict order. Byte strings are lists of numbers; the sequence numbers are uint64.
pub mod Session
pub mod Transcript
mod Tests
use mosona_manager.Prelude.{
  List, Option, [], drop, if◌then◌else◌, none, not, some, suc, take, zero, ℕ, ◌%◌, ◌+◌, ◌/◌, ◌==◌,
  ◌^◌, ◌∷◌,
}

pub data Role : Type 0 where
  hub agent : Role

abbrev pub u64_mod : ℕ
u64_mod = 18_446_744_073_709_551_616

-- What lies in other packages: the AEAD (`Seal` and `Open` by key, nonce and additional data;
-- `none` is a failed authentication) and MessagePack over the frame's two fields.
pub record Packages : Type 0 where
  pub seal : List ℕ → List ℕ → List ℕ → List ℕ → List ℕ
  pub unseal : List ℕ → List ℕ → List ℕ → List ℕ → Option (List ℕ)
  pub marshal : ℕ → List ℕ → Option (List ℕ)
  pub unmarshal : List ℕ → Option (ℕ × List ℕ)

-- `SessionCrypto`, with the two ciphers given by their keys
pub record SessionCrypto : Type 0 where
  pub role : Role
  pub tx_key : List ℕ
  pub rx_key : List ℕ
  pub tx_seq : ℕ
  pub rx_seq : ℕ

-- the key split at the end of `NewSessionCryptoV2` and `newSessionCrypto`: `okm` is the derived
-- key material, of 64 bytes
unfoldable pub new_session_crypto_v2 : Role → List ℕ → SessionCrypto
new_session_crypto_v2 hub okm = record {
  role = hub;
  tx_key = take 32 okm;
  rx_key = drop 32 okm;
  tx_seq = 0;
  rx_seq = 0;
}
new_session_crypto_v2 agent okm = record {
  role = agent;
  tx_key = drop 32 okm;
  rx_key = take 32 okm;
  tx_seq = 0;
  rx_seq = 0;
}

-- `binary.BigEndian.PutUint64`
unfoldable pub big_endian : ℕ → ℕ → List ℕ
big_endian zero n = []
big_endian (suc k) n = n / 256 ^ k % 256 ∷ big_endian k n

abbrev pub tag : Role → ℕ
tag hub = 0xA1
tag agent = 0xB2

unfoldable pub make_nonce : Role → ℕ → List ℕ
make_nonce r seq = tag r ∷ 0 ∷ 0 ∷ 0 ∷ big_endian 8 seq

abbrev pub opposite_role : Role → Role
opposite_role hub = agent
opposite_role agent = hub

module _ (p : Packages) where
  -- `Encrypt`: the frame, and the state afterwards
  unfoldable pub encrypt : SessionCrypto → List ℕ → Option (List ℕ) × SessionCrypto
  encrypt sc plain =
      let seq = sc.tx_seq in
      let ct = p.seal sc.tx_key (make_nonce sc.role seq) plain (big_endian 8 seq) in
      (p.marshal seq ct, record sc { tx_seq = (seq + 1) % u64_mod })

  unfoldable pub decrypt_frame :
      SessionCrypto → Option (ℕ × List ℕ) → Option (List ℕ) × SessionCrypto
  decrypt_frame sc none = (none, sc)
  decrypt_frame sc (some (seq, ct)) = if not (seq == sc.rx_seq) then (none, sc) else (
    p.unseal sc.rx_key (make_nonce (opposite_role sc.role) seq) ct (big_endian 8 seq),
    record sc { rx_seq = (sc.rx_seq + 1) % u64_mod },
  )

  -- `Decrypt`: the plaintext, or `none` for an error, and the state afterwards
  unfoldable pub decrypt : SessionCrypto → List ℕ → Option (List ℕ) × SessionCrypto
  unfolding decrypt_frame
  decrypt sc bf = decrypt_frame sc (p.unmarshal bf)
