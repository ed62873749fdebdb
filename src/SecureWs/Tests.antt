-- ===== src/SecureWs/Tests.antt =====
-- The theorems on the session cipher and the transcript, at concrete messages.
use mosona_manager.SecureWs.{Packages, SessionCrypto, new_session_crypto_v2, opposite_role, hub}
use mosona_manager.SecureWs.Session.{
  IsSound, new_session_crypto_v2-Paired, encrypt_all, decrypt_all, decrypt_all-encrypt_all, taken,
  decrypt_all_in_order, arrive,
}
use mosona_manager.SecureWs.Transcript.{HandshakeTranscript, IsBounded, transcript_hash-injective}
use mosona_manager.Prelude.{
  List, Option, [], arith, map, none, refl, replicate, some, take, ℕ, ◌∷◌, ◌≡◌,
}

abbrev read : List ℕ → Option (ℕ × List ℕ)
read [] = none
read (seq ∷ ct) = some (seq, ct)

-- a cipher that leaves the text as it is, and frames that begin with the sequence number
abbrev toy : Packages
toy = record {
  seal = λ k n m a. m;
  unseal = λ k n c a. some c;
  marshal = λ seq ct. some (seq ∷ ct);
  unmarshal = read;
}

toy-IsSound : IsSound toy
toy-IsSound = record { opens = λ k n m a. refl; writes = λ seq ct. (seq ∷ ct, refl, refl) }

abbrev sender : SessionCrypto
sender = new_session_crypto_v2 hub (replicate 64 5)

abbrev receiver : SessionCrypto
receiver = new_session_crypto_v2 (opposite_role hub) (replicate 64 5)

abbrev messages : List (List ℕ)
messages = (1 ∷ 2 ∷ []) ∷ [] ∷ (3 ∷ []) ∷ []

-- the second frame comes twice, after a frame that came too early
decrypt_all_in_order_example :
    (k : ℕ) × (taken toy (
        decrypt_all toy receiver
          (arrive toy (encrypt_all toy sender messages).0 (2 ∷ 0 ∷ 1 ∷ 1 ∷ 2 ∷ [])))
      ≡ take k messages)
unfolding new_session_crypto_v2
decrypt_all_in_order_example =
    decrypt_all_in_order toy sender receiver messages (2 ∷ 0 ∷ 1 ∷ 1 ∷ 2 ∷ []) toy-IsSound
      (new_session_crypto_v2-Paired hub (replicate 64 5)) (omega arith)

decrypt_all-encrypt_all_example :
    decrypt_all toy receiver (encrypt_all toy sender messages).0 ≡ map some messages
decrypt_all-encrypt_all_example =
    decrypt_all-encrypt_all toy sender receiver messages toy-IsSound
      (new_session_crypto_v2-Paired hub (replicate 64 5))

abbrev handshake : HandshakeTranscript
handshake = record {
  context = record {
    agent_uid = 1 ∷ [];
    path = 47 ∷ 119 ∷ [];
    http_nonce = 2 ∷ [];
    http_timestamp = 57 ∷ [];
  };
  hub_x25519_pub = replicate 32 1;
  hub_nonce = replicate 32 2;
  hub_timestamp = 999;
  agent_ed25519_pub = replicate 32 3;
  agent_x25519_pub = replicate 32 4;
  agent_nonce = replicate 32 5;
}

handshake-IsBounded : IsBounded handshake
handshake-IsBounded = record {
  agent_uid = omega arith;
  path = omega arith;
  http_nonce = omega arith;
  http_timestamp = omega arith;
  hub_x25519_pub = omega arith;
  hub_nonce = omega arith;
  hub_timestamp = omega arith;
  agent_ed25519_pub = omega arith;
  agent_x25519_pub = omega arith;
  agent_nonce = omega arith;
}

transcript_hash-injective_example : handshake ≡ handshake
transcript_hash-injective_example =
    transcript_hash-injective (λ b. b) handshake handshake handshake-IsBounded handshake-IsBounded
      (λ e. e) refl
