-- ===== src/Identity/Replay.antt =====
-- How long a used header is refused.
use mosona_manager.Decimal.{Signed, parse_int, plus}
use mosona_manager.Identity.{
  Seen, Bytes-discrete, replay_key, forget, is_replay, Crypto, second, max_skew, Verdict,
  out_of_range, verify_signed_headers, accepted,
}
use native.Mathlib.Decide.{dec_lt}
use mosona_manager.Prelude.{
  List, [], arith, false, find, find-store, find-store_self, none, some, store, true, ℕ, ◌*◌, ◌+◌,
  ◌<◌, ◌∷◌, ◌≡◌, ◌≢◌, ◌≤◌,
}

-- an entry is found until it expires
find-forget :
    (key : List ℕ) (now e : ℕ) (seen : Seen)
    → find Bytes-discrete key seen ≡ some e
    → now < e
    → find Bytes-discrete key (forget now seen) ≡ some e
unfolding find forget
find-forget key now e [] h k = cc
find-forget key now e ((j, w) ∷ seen) h k = elim (Bytes-discrete j key) [
  | yes p ↦ ground (arith, find-forget key now e seen)
  | no p ↦ ground (arith, find-forget key now e seen)
]

-- and an entry that is stored is gone once it expires
find-forget-store :
    (key : List ℕ) (now e : ℕ) (seen : Seen)
    → find Bytes-discrete key seen ≡ none
    → e ≤ now
    → find Bytes-discrete key (forget now (store Bytes-discrete key e seen)) ≡ none
unfolding find forget store
find-forget-store key now e [] h k = ground arith
find-forget-store key now e ((j, w) ∷ seen) h k = ground (arith, find-forget-store key now e seen)

is_replay_keeps :
    (uid ts nonce key : List ℕ) (now e : ℕ) (seen : Seen)
    → find Bytes-discrete key seen ≡ some e
    → now < e
    → find Bytes-discrete key (is_replay uid ts nonce now seen).1 ≡ some e
unfolding is_replay
is_replay_keeps uid ts nonce key now e seen h k = ground (
  arith,
  find-forget key now e seen h k,
  find-store Bytes-discrete (replay_key uid ts nonce) key (now + max_skew) (forget now seen),
)

is_replay-true :
    (uid ts nonce : List ℕ) (now e : ℕ) (seen : Seen)
    → find Bytes-discrete (replay_key uid ts nonce) seen ≡ some e
    → now < e
    → (is_replay uid ts nonce now seen).0 ≡ true
unfolding is_replay
is_replay-true uid ts nonce now e seen h k =
    ground (arith, find-forget (replay_key uid ts nonce) now e seen h k)

is_replay_stores :
    (uid ts nonce : List ℕ) (now : ℕ) (seen : Seen)
    → (is_replay uid ts nonce now seen).0 ≡ false
    → find Bytes-discrete (replay_key uid ts nonce) (is_replay uid ts nonce now seen).1
      ≡ some (now + max_skew)
unfolding is_replay
is_replay_stores uid ts nonce now seen h = ground (
  arith,
  find-store_self Bytes-discrete (replay_key uid ts nonce) (now + max_skew) (forget now seen),
)

is_replay_again :
    (uid ts nonce : List ℕ) (now later : ℕ) (seen : Seen)
    → (is_replay uid ts nonce now seen).0 ≡ false
    → now + max_skew ≤ later
    → (is_replay uid ts nonce later (is_replay uid ts nonce now seen).1).0 ≡ false
unfolding is_replay
is_replay_again uid ts nonce now later seen h k =
    ground
      (arith, find-forget-store (replay_key uid ts nonce) later (now + max_skew) (forget now seen))

-- one request to `VerifySignedHeaders`, by anyone
pub record Request : Type 0 where
  pub crypto : Crypto
  pub public_key : List ℕ
  pub uid : List ℕ
  pub ts : List ℕ
  pub nonce : List ℕ
  pub signature : List ℕ
  pub now : ℕ

abbrev pub verify : Request → Seen → Verdict × Seen
verify q = verify_signed_headers q.crypto q.public_key q.uid q.ts q.nonce q.signature q.now

-- the memory after a series of requests, and their times all at most `later`
unfoldable pub serve : List Request → Seen → Seen
serve [] seen = seen
serve (q ∷ qs) seen = serve qs (verify q seen).1

abbrev pub Until : ℕ → List Request → Type 0
Until later [] = Unit
Until later (q ∷ qs) = (q.now ≤ later) × Until later qs

verify_keeps :
    (q : Request) (key : List ℕ) (e : ℕ) (seen : Seen)
    → find Bytes-discrete key seen ≡ some e
    → q.now < e
    → find Bytes-discrete key (verify q seen).1 ≡ some e
unfolding verify_signed_headers
verify_keeps q key e seen h k =
    ground (arith, is_replay_keeps q.uid q.ts q.nonce key q.now e seen h k)

serve_keeps :
    (qs : List Request) (key : List ℕ) (later e : ℕ) (seen : Seen)
    → find Bytes-discrete key seen ≡ some e
    → later < e
    → Until later qs
    → find Bytes-discrete key (serve qs seen) ≡ some e
unfolding serve
serve_keeps [] key later e seen h k u = h
serve_keeps (q ∷ qs) key later e seen h k u =
    serve_keeps qs key later e (verify q seen).1 (verify_keeps q key e seen h (omega arith)) k u.1

accepted_is_fresh :
    (q : Request) (seen : Seen)
    → (verify q seen).0 ≡ accepted
    → ((is_replay q.uid q.ts q.nonce q.now seen).0 ≡ false)
      × ((verify q seen).1 ≡ (is_replay q.uid q.ts q.nonce q.now seen).1)
unfolding verify_signed_headers
accepted_is_fresh q seen h = ground arith

-- `q` again, at another time
abbrev pub at : ℕ → Request → Request
at later q = record q { now = later }

stale_is_replayed :
    (q : Request) (seen : Seen) (e : ℕ)
    → find Bytes-discrete (replay_key q.uid q.ts q.nonce) seen ≡ some e
    → q.now < e
    → (verify q seen).0 ≢ accepted
unfolding verify_signed_headers
stale_is_replayed q seen e h k a =
    ground (arith, is_replay-true q.uid q.ts q.nonce q.now e seen h k)

too_late :
    (q : Request) (s : ℕ) (seen : Seen)
    → parse_int q.ts ≡ some (plus s)
    → s * second + max_skew < q.now
    → (verify q seen).0 ≢ accepted
unfolding verify_signed_headers
too_late q s seen h k a = ground arith

-- A header whose timestamp lies in the past when it is accepted is not accepted a second time,
-- whatever other requests are served in between, as long as none of these comes after the
-- second attempt.
pub accepted_once :
    (q : Request) (s later : ℕ) (qs : List Request) (seen : Seen)
    → (verify q seen).0 ≡ accepted
    → parse_int q.ts ≡ some (plus s)
    → s * second < q.now
    → Until later qs
    → (verify (at later q) (serve qs (verify q seen).1)).0 ≢ accepted
accepted_once q s later qs seen ok t past u =
    let (fresh, after) = accepted_is_fresh q seen ok in
    let rest = serve qs (verify q seen).1 in
    elim (dec_lt later (q.now + max_skew)) [
      | yes soon ↦
          stale_is_replayed (at later q) rest (q.now + max_skew)
            (serve_keeps qs (replay_key q.uid q.ts q.nonce) later (q.now + max_skew)
              (verify q seen).1 (rw after (is_replay_stores q.uid q.ts q.nonce q.now seen fresh))
              soon u)
            soon
      | no late ↦ too_late (at later q) s rest t (omega arith)
    ]

-- A header that was accepted is accepted a second time at any time from 120 seconds later on at
-- which its timestamp is still in range.
pub accepted_twice :
    (q : Request) (t : Signed) (later : ℕ) (seen : Seen)
    → (verify q seen).0 ≡ accepted
    → parse_int q.ts ≡ some t
    → out_of_range t later ≡ false
    → q.now + max_skew ≤ later
    → (verify (at later q) (verify q seen).1).0 ≡ accepted
unfolding verify_signed_headers
accepted_twice q t later seen ok p range late =
    ground (arith, is_replay_again q.uid q.ts q.nonce q.now later seen)
