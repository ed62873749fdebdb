-- ===== src/SecureWs/Transcript.antt =====
-- pkg/securews/handshake.go: the messages that a handshake signs and the transcript that it
-- hashes. SHA-256 is an argument; int64 timestamps are given by their 64 bits.
use mathlib.Core.Path.{ap₂}
use mosona_manager.SecureWs.{big_endian, u64_mod}
use mosona_manager.Prelude.{
  List, [], arith, bytes, length, refl, suc, sym, zero, ℕ, ◌%◌, ◌++◌, ◌<◌, ◌∙◌, ◌∷◌, ◌≡◌,
}

pub record HandshakeContext : Type 0 where
  pub agent_uid : List ℕ
  pub path : List ℕ
  pub http_nonce : List ℕ
  pub http_timestamp : List ℕ

pub record HandshakeTranscript : Type 0 where
  pub context : HandshakeContext
  pub hub_x25519_pub : List ℕ
  pub hub_nonce : List ℕ
  pub hub_timestamp : ℕ
  pub agent_ed25519_pub : List ℕ
  pub agent_x25519_pub : List ℕ
  pub agent_nonce : List ℕ

abbrev pub protocol_version : ℕ
protocol_version = 2

-- what `hashFields` writes into the hash: each field behind its length
unfoldable pub encode_fields : List (List ℕ) → List ℕ
encode_fields [] = []
encode_fields (field ∷ fields) =
    big_endian 8 (length field % u64_mod) ++ (field ++ encode_fields fields)

abbrev pub int64_bytes : ℕ → List ℕ
int64_bytes value = big_endian 8 value

abbrev pub transcript_fields : HandshakeTranscript → List (List ℕ)
transcript_fields t =
    bytes "mosona-secure-ws-v2 transcript"
    ∷ (protocol_version ∷ [])
    ∷ t.context.agent_uid
    ∷ t.context.path
    ∷ t.context.http_nonce
    ∷ t.context.http_timestamp
    ∷ t.hub_x25519_pub
    ∷ t.hub_nonce
    ∷ int64_bytes t.hub_timestamp
    ∷ t.agent_ed25519_pub
    ∷ t.agent_x25519_pub
    ∷ t.agent_nonce
    ∷ []

module _ (sha256 : List ℕ → List ℕ) where
  unfoldable pub hash_fields : List (List ℕ) → List ℕ
  hash_fields fields = sha256 (encode_fields fields)

  unfoldable pub hub_signature_message : HandshakeContext → List ℕ → List ℕ → ℕ → List ℕ
  unfolding hash_fields
  hub_signature_message ctx hub_x25519_pub hub_nonce timestamp = hash_fields (
      bytes "mosona-secure-ws-v2 hub signature"
      ∷ (protocol_version ∷ [])
      ∷ ctx.agent_uid
      ∷ ctx.path
      ∷ ctx.http_nonce
      ∷ ctx.http_timestamp
      ∷ hub_x25519_pub
      ∷ hub_nonce
      ∷ int64_bytes timestamp
      ∷ [])

  unfoldable pub transcript_hash : HandshakeTranscript → List ℕ
  unfolding hash_fields
  transcript_hash t = hash_fields (transcript_fields t)

  unfoldable pub agent_signature_message : List ℕ → List ℕ
  unfolding hash_fields
  agent_signature_message h = hash_fields (bytes "mosona-secure-ws-v2 agent signature" ∷ h ∷ [])

big_endian-injective :
    (m n : ℕ) → m < u64_mod → n < u64_mod → big_endian 8 m ≡ big_endian 8 n → m ≡ n
unfolding big_endian
big_endian-injective m n h k e = ground arith

split_same : (a b r s : List ℕ) → length a ≡ length b → a ++ r ≡ b ++ s → (a ≡ b) × (r ≡ s)
split_same [] [] r s h e = (refl, e)
split_same [] (c ∷ b) r s h e = absurd (omega arith)
split_same (c ∷ a) [] r s h e = absurd (omega arith)
split_same (c ∷ a) (d ∷ b) r s h e =
    let (heads, tails) = split_same a b r s (omega arith) (cc) in (cc, tails)

length-big_endian : (k n : ℕ) → length (big_endian k n) ≡ k
unfolding big_endian
length-big_endian zero n = refl
length-big_endian (suc k) n = omega (arith, length-big_endian k n)

abbrev pub Short : List (List ℕ) → Type 0
Short [] = Unit
Short (f ∷ fs) = (length f < u64_mod) × Short fs

encode_fields-injective :
    (fs gs : List (List ℕ))
    → length fs ≡ length gs
    → Short fs
    → Short gs
    → encode_fields fs ≡ encode_fields gs
    → fs ≡ gs
unfolding encode_fields
encode_fields-injective [] [] h s t e = refl
encode_fields-injective [] (g ∷ gs) h s t e = absurd (omega arith)
encode_fields-injective (f ∷ fs) [] h s t e = absurd (omega arith)
encode_fields-injective (f ∷ fs) (g ∷ gs) h s t e =
    let m = length f % u64_mod in
    let n = length g % u64_mod in
    let (sizes, rests) =
      split_same (big_endian 8 m) (big_endian 8 n) (f ++ encode_fields fs) (g ++ encode_fields gs)
        (length-big_endian 8 m ∙ sym (length-big_endian 8 n)) e in
    let same_size = big_endian-injective m n (omega arith) (omega arith) sizes in
    let (heads, tails) = split_same f g (encode_fields fs) (encode_fields gs) (omega arith) rests in
    ap₂ ◌∷◌ heads (encode_fields-injective fs gs (omega arith) s.1 t.1 tails)

-- every field of a transcript is a Go slice or string, and the timestamp an int64
pub record IsBounded (t : HandshakeTranscript) : Type 0 where
  pub agent_uid : length t.context.agent_uid < u64_mod
  pub path : length t.context.path < u64_mod
  pub http_nonce : length t.context.http_nonce < u64_mod
  pub http_timestamp : length t.context.http_timestamp < u64_mod
  pub hub_x25519_pub : length t.hub_x25519_pub < u64_mod
  pub hub_nonce : length t.hub_nonce < u64_mod
  pub hub_timestamp : t.hub_timestamp < u64_mod
  pub agent_ed25519_pub : length t.agent_ed25519_pub < u64_mod
  pub agent_x25519_pub : length t.agent_x25519_pub < u64_mod
  pub agent_nonce : length t.agent_nonce < u64_mod

fields-Short : (t : HandshakeTranscript) → IsBounded t → Short (transcript_fields t)
fields-Short t b = omega (arith, length-big_endian 8 t.hub_timestamp)

-- The transcript's hash binds every field: as long as the hash does not collide on what is
-- written into it for these two, two transcripts with one hash are the same transcript.
pub transcript_hash-injective :
    (sha256 : List ℕ → List ℕ) (t u : HandshakeTranscript)
    → IsBounded t
    → IsBounded u
    → (sha256 (encode_fields (transcript_fields t)) ≡ sha256 (encode_fields (transcript_fields u))
        → encode_fields (transcript_fields t) ≡ encode_fields (transcript_fields u))
    → transcript_hash sha256 t ≡ transcript_hash sha256 u
    → t ≡ u
unfolding transcript_hash
transcript_hash-injective sha256 t u bt bu no_collision e =
    let fields =
      encode_fields-injective (transcript_fields t) (transcript_fields u) refl (fields-Short t bt)
        (fields-Short u bu) (no_collision e) in
    let stamp : t.hub_timestamp ≡ u.hub_timestamp =
      big_endian-injective t.hub_timestamp u.hub_timestamp bt.hub_timestamp bu.hub_timestamp
        (cc fields) in
    ground (arith, fields, stamp)
