-- ===== src/Identity/Tests.antt =====
-- The theorems on the signed headers, at concrete requests.
use mosona_manager.Decimal.{parse_int, print, plus}
use mosona_manager.Identity.{
  Crypto, second, replay_key, forget, is_replay, message, verify_signed_headers, sign_headers,
  accepted,
}
use mosona_manager.Identity.Replay.{Request, verify, serve, at, accepted_once, accepted_twice}
use mosona_manager.Identity.Exchange.{IsKeyPair, verify-sign}
use mosona_manager.Prelude.{
  List, [], arith, find, refl, replicate, some, store, true, ℕ, ◌*◌, ◌∷◌, ◌≡◌, ◌≢◌,
}

abbrev toy : Crypto
toy = record {
  verify = λ k m s. true;
  sign = λ k m. replicate 64 7;
  decode = some;
  encode = λ b. b;
}

-- a header of second 999, at second 1000
abbrev past : Request
past = record {
  crypto = toy;
  public_key = replicate 32 1;
  uid = 65 ∷ [];
  ts = 57 ∷ 57 ∷ 57 ∷ [];
  nonce = 66 ∷ [];
  signature = replicate 64 7;
  now = 1000 * second;
}

-- the same at second 900
abbrev ahead : Request
ahead = at (900 * second) past

abbrev others : List Request
others = record past { uid = 67 ∷ []; now = 1001 * second } ∷ []

accepted_once_example :
    (verify (at (1002 * second) past) (serve others (verify past []).1)).0 ≢ accepted
unfolding verify_signed_headers is_replay parse_int forget replay_key message find store
accepted_once_example =
    accepted_once past 999 (1002 * second) others [] refl refl (omega arith) (omega arith, tt)

accepted_twice_example : (verify (at (1020 * second) ahead) (verify ahead []).1).0 ≡ accepted
unfolding verify_signed_headers is_replay parse_int forget replay_key message find store
accepted_twice_example =
    accepted_twice ahead (plus 999) (1020 * second) [] refl refl refl (omega arith)

toy-IsKeyPair : IsKeyPair toy (replicate 64 2) (replicate 32 1)
toy-IsKeyPair = record {
  private_size = refl;
  public_size = refl;
  sign_size = λ m. refl;
  verifies = λ m. refl;
  decodes = λ b. refl;
}

verify-sign_example :
    (signature : List ℕ) × (sign_headers toy (replicate 64 2) (65 ∷ []) 999 (66 ∷ [])
      ≡ some signature)
    × ((verify_signed_headers toy
          (replicate 32 1)
          (65 ∷ [])
          (print 999)
          (66 ∷ [])
          signature
          (1000 * second)
          []).0
        ≡ accepted)
unfolding is_replay forget find
verify-sign_example =
    verify-sign toy (replicate 64 2) (replicate 32 1) (65 ∷ []) (66 ∷ []) 999 (1000 * second) []
      toy-IsKeyPair (omega arith) (omega arith) (omega arith) refl
