-- ===== src/Identity.antt =====
-- pkg/identity/auth.go and `SignHeaders` of pkg/identity/keys.go: the signed headers by which an
-- Agent and the Hub prove who they are, and the memory of nonces that were used.
-- Texts are bytes. A reading of the clock is a number of nanoseconds since 1970; the timestamp of
-- a header is in seconds. Far-off timestamps are compared without the wrap-around of
-- `time.Unix`, which would put them further out of range.
pub mod Replay
pub mod Exchange
mod Tests
use mosona_manager.Decimal.{Signed, parse_int, print, plus, minus}
use native.Mathlib.Decide.{ℕ_discrete}
use mosona_manager.Prelude.{
  Bool, List, Option, [], false, find, if◌then◌else◌, length, ltb, none, not, some, store, true, ℕ,
  ◌*◌, ◌++◌, ◌+◌, ◌==◌, ◌||◌, ◌∷◌,
}

-- What lies in other packages: Ed25519 and Base64. `decode` is none on a text that is no Base64.
pub record Crypto : Type 0 where
  pub verify : List ℕ → List ℕ → List ℕ → Bool
  pub sign : List ℕ → List ℕ → List ℕ
  pub decode : List ℕ → Option (List ℕ)
  pub encode : List ℕ → List ℕ

abbrev pub public_key_size : ℕ
public_key_size = 32

abbrev pub private_key_size : ℕ
private_key_size = 64

abbrev pub signature_size : ℕ
signature_size = 64

abbrev pub second : ℕ
second = 1_000_000_000

-- `SignedHeaderMaxSkew`
abbrev pub max_skew : ℕ
max_skew = 120 * second

-- the key of a used nonce, and when it may be forgotten
abbrev pub Seen : Type 0
Seen = List (List ℕ × ℕ)

pub Bytes-discrete : Discrete (List ℕ)
Bytes-discrete = hlevel ℕ_discrete

pub data Verdict : Type 0 where
  accepted invalid_public_key_length invalid_timestamp timestamp_out_of_range : Verdict
  invalid_signature_encoding invalid_signature_length signature_failed replayed : Verdict

unfoldable pub replay_key : List ℕ → List ℕ → List ℕ → List ℕ
replay_key uid ts nonce = uid ++ 0 ∷ (ts ++ 0 ∷ nonce)

-- the loop that forgets: an entry stays while `expiry.After(now)`
unfoldable pub forget : ℕ → Seen → Seen
forget now [] = []
forget now ((k, expiry) ∷ seen) =
    if ltb now expiry then (k, expiry) ∷ forget now seen else forget now seen

abbrev pub remember : List ℕ → ℕ → Option ℕ → Seen → Bool × Seen
remember key expires_at (some e) seen = (true, seen)
remember key expires_at none seen = (false, store Bytes-discrete key expires_at seen)

-- `isReplay`: its answer, and the memory afterwards
unfoldable pub is_replay : List ℕ → List ℕ → List ℕ → ℕ → Seen → Bool × Seen
is_replay uid ts nonce now seen =
    let kept = forget now seen in
    let key = replay_key uid ts nonce in
    remember key (now + max_skew) (find Bytes-discrete key kept) kept

-- `t.After(now.Add(max)) || t.Before(now.Add(-max))`
unfoldable pub out_of_range : Signed → ℕ → Bool
out_of_range (plus s) now = ltb (now + max_skew) (s * second) || ltb (s * second + max_skew) now
out_of_range (minus s) now = ltb max_skew (now + s * second)

unfoldable pub message : List ℕ → List ℕ → List ℕ → List ℕ
message uid ts nonce = uid ++ b'\n' ∷ (ts ++ b'\n' ∷ nonce)

abbrev pub of_replay : Bool × Seen → Verdict × Seen
of_replay (true, seen) = (replayed, seen)
of_replay (false, seen) = (accepted, seen)

module _ (crypto : Crypto) (public_key : List ℕ) where
  unfoldable pub check_signature :
      Option (List ℕ) → List ℕ → List ℕ → List ℕ → ℕ → Seen → Verdict × Seen
  unfolding message
  check_signature none uid ts nonce now seen = (invalid_signature_encoding, seen)
  check_signature (some sig) uid ts nonce now seen =
      if not (length sig == signature_size)
      then (invalid_signature_length, seen)
      else if not (crypto.verify public_key (message uid ts nonce) sig)
      then (signature_failed, seen)
      else of_replay (is_replay uid ts nonce now seen)

  unfoldable pub check_timestamp :
      Option Signed → List ℕ → List ℕ → List ℕ → List ℕ → ℕ → Seen → Verdict × Seen
  unfolding out_of_range check_signature
  check_timestamp none uid ts nonce signature now seen = (invalid_timestamp, seen)
  check_timestamp (some t) uid ts nonce signature now seen =
      if out_of_range t now
      then (timestamp_out_of_range, seen)
      else check_signature (crypto.decode signature) uid ts nonce now seen

  -- `VerifySignedHeaders`
  unfoldable pub verify_signed_headers :
      List ℕ → List ℕ → List ℕ → List ℕ → ℕ → Seen → Verdict × Seen
  unfolding check_timestamp
  verify_signed_headers uid ts nonce signature now seen =
      if not (length public_key == public_key_size)
      then (invalid_public_key_length, seen)
      else check_timestamp (parse_int ts) uid ts nonce signature now seen

-- `SignHeaders`, for a timestamp that is not negative; `none` is its error
unfoldable pub sign_headers : Crypto → List ℕ → List ℕ → ℕ → List ℕ → Option (List ℕ)
unfolding message
sign_headers crypto private_key uid ts nonce =
    if not (length private_key == private_key_size)
    then none
    else some (crypto.encode (crypto.sign private_key (message uid (print ts) nonce)))
