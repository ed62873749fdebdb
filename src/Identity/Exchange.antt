-- ===== src/Identity/Exchange.antt =====
-- Both ends together: what one side signs, the other accepts; and no two headers share a key.
use mosona_manager.Decimal.{max_int64, print, parse_int-print}
use mosona_manager.Identity.{
  Crypto, public_key_size, private_key_size, signature_size, second, max_skew, Seen, replay_key,
  is_replay, message, verify_signed_headers, sign_headers, accepted,
}
use mosona_manager.Prelude.{
  List, [], arith, false, length, refl, some, true, ℕ, ◌*◌, ◌++◌, ◌+◌, ◌∷◌, ◌≡◌, ◌≢◌, ◌≤◌,
}

-- what is relied on: signatures have their size and verify under the key pair, Base64 is read back
pub record IsKeyPair (crypto : Crypto) (private_key public_key : List ℕ) : Type 0 where
  pub private_size : length private_key ≡ private_key_size
  pub public_size : length public_key ≡ public_key_size
  pub sign_size : (m : List ℕ) → length (crypto.sign private_key m) ≡ signature_size
  pub verifies : (m : List ℕ) → crypto.verify public_key m (crypto.sign private_key m) ≡ true
  pub decodes : (b : List ℕ) → crypto.decode (crypto.encode b) ≡ some b

-- A header that `SignHeaders` made is accepted by `VerifySignedHeaders` under the other half of
-- the key pair, at any time within the skew of its timestamp, unless its nonce is remembered.
pub verify-sign :
    (crypto : Crypto) (private_key public_key uid nonce : List ℕ) (ts now : ℕ) (seen : Seen)
    → IsKeyPair crypto private_key public_key
    → ts ≤ max_int64
    → ts * second ≤ now + max_skew
    → now ≤ ts * second + max_skew
    → (is_replay uid (print ts) nonce now seen).0 ≡ false
    → (signature : List ℕ) × (sign_headers crypto private_key uid ts nonce ≡ some signature)
      × ((verify_signed_headers crypto public_key uid (print ts) nonce signature now seen).0
          ≡ accepted)
unfolding sign_headers verify_signed_headers
verify-sign crypto private_key public_key uid nonce ts now seen k fits early late fresh =
    let m = message uid (print ts) nonce in
    (
      crypto.encode (crypto.sign private_key m),
      ground (arith, k.private_size),
      ground (
        arith,
        k.public_size,
        parse_int-print ts fits,
        k.decodes (crypto.sign private_key m),
        k.sign_size m,
        k.verifies m,
      ),
    )

-- a text without the separator
abbrev pub NoZero : List ℕ → Type 0
NoZero [] = Unit
NoZero (c ∷ cs) = (c ≢ 0) × NoZero cs

split_at_zero :
    (a b r s : List ℕ) → NoZero a → NoZero b → a ++ 0 ∷ r ≡ b ++ 0 ∷ s → (a ≡ b) × (r ≡ s)
split_at_zero [] [] r s h k e = (refl, cc)
split_at_zero [] (c ∷ b) r s h k e = absurd (ground (arith, k.0))
split_at_zero (c ∷ a) [] r s h k e = absurd (ground (arith, h.0))
split_at_zero (c ∷ a) (d ∷ b) r s h k e =
    let (heads, tails) = split_at_zero a b r s h.1 k.1 (cc) in (cc, tails)

-- Two requests share a replay key only if user, timestamp and nonce are the same, provided that
-- the first two hold no zero byte.
pub replay_key_injective :
    (uid ts nonce uid' ts' nonce' : List ℕ)
    → NoZero uid
    → NoZero ts
    → NoZero uid'
    → NoZero ts'
    → replay_key uid ts nonce ≡ replay_key uid' ts' nonce'
    → (uid ≡ uid') × (ts ≡ ts') × (nonce ≡ nonce')
unfolding replay_key
replay_key_injective uid ts nonce uid' ts' nonce' hu ht hu' ht' e =
    let (u, r) = split_at_zero uid uid' (ts ++ 0 ∷ nonce) (ts' ++ 0 ∷ nonce') hu hu' e in
    let (t, n) = split_at_zero ts ts' nonce nonce' ht ht' r in (u, t, n)
