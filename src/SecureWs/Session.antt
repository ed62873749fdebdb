-- ===== src/SecureWs/Session.antt =====
-- What two ends that share their key material do with a stream of frames.
use native.Mathlib.Decide.{ℕ_discrete}
use native.Mathlib.Nat.{add-zero}
use mosona_manager.SecureWs.{
  Role, Packages, SessionCrypto, new_session_crypto_v2, opposite_role, encrypt, decrypt, hub, agent,
  u64_mod, big_endian, make_nonce,
}
use mosona_manager.Prelude.{
  List, Option, [], arith, drop, get_elem?, inl, inr, length, map, none, refl, some, suc, take,
  zero, ℕ, ◌%◌, ◌+◌, ◌<◌, ◌∷◌, ◌≡◌, ◌≢◌, ◌≤◌, ◌⊎◌,
}

-- what is relied on: opening what was sealed gives the plaintext, and MessagePack reads back what
-- it wrote, for every uint64
pub record IsSound (p : Packages) : Type 0 where
  pub opens : (k n m a : List ℕ) → p.unseal k n (p.seal k n m a) a ≡ some m
  pub writes :
      (seq : ℕ) (ct : List ℕ)
      → (b : List ℕ) × (p.marshal seq ct ≡ some b) × (p.unmarshal b ≡ some (seq, ct))

-- one end's sending half is the other's receiving half
pub record Paired (a b : SessionCrypto) : Type 0 where
  pub roles : b.role ≡ opposite_role a.role
  pub keys : b.rx_key ≡ a.tx_key
  pub seqs : b.rx_seq ≡ a.tx_seq

-- the two ends that come out of one handshake are paired both ways
pub new_session_crypto_v2-Paired :
    (r : Role) (okm : List ℕ)
    → Paired (new_session_crypto_v2 r okm) (new_session_crypto_v2 (opposite_role r) okm)
unfolding new_session_crypto_v2
new_session_crypto_v2-Paired hub okm = record { roles = refl; keys = refl; seqs = refl }
new_session_crypto_v2-Paired agent okm = record { roles = refl; keys = refl; seqs = refl }

opposite-opposite : (r : Role) → opposite_role (opposite_role r) ≡ r
opposite-opposite hub = refl
opposite-opposite agent = refl

abbrev join : Option (Option (List ℕ)) → Option (List ℕ)
join none = none
join (some f) = f

arrival_cases :
    (o : Option (Option (List ℕ))) → (join o ≡ none) ⊎ ((f : List ℕ) × (o ≡ some (some f)))
arrival_cases none = inl refl
arrival_cases (some none) = inl refl
arrival_cases (some (some f)) = inr (f, refl)

module _ (p : Packages) where
  -- sends the messages one by one
  unfoldable pub encrypt_all :
      SessionCrypto → List (List ℕ) → List (Option (List ℕ)) × SessionCrypto
  encrypt_all a [] = ([], a)
  encrypt_all a (m ∷ ms) =
      let (f, a') = encrypt p a m in let (fs, a'') = encrypt_all a' ms in (f ∷ fs, a'')

  -- takes what arrives; an arrival of nothing leaves the receiver as it is
  unfoldable pub decrypt_all : SessionCrypto → List (Option (List ℕ)) → List (Option (List ℕ))
  decrypt_all b [] = []
  decrypt_all b (none ∷ fs) = none ∷ decrypt_all b fs
  decrypt_all b (some f ∷ fs) = let (m, b') = decrypt p b f in m ∷ decrypt_all b' fs

  decrypt-encrypt :
      (a b : SessionCrypto) (m : List ℕ)
      → IsSound p
      → Paired a b
      → (f : List ℕ) × ((encrypt p a m).0 ≡ some f)
        × ((decrypt p b f).0 ≡ some m)
        × Paired (encrypt p a m).1 (decrypt p b f).1
  unfolding encrypt decrypt
  decrypt-encrypt a b m s h =
      let seq = a.tx_seq in
      let ct = p.seal a.tx_key (make_nonce a.role seq) m (big_endian 8 seq) in
      let (f, written, read) = s.writes seq ct in
      let opened = s.opens a.tx_key (make_nonce a.role seq) m (big_endian 8 seq) in
      let roles = opposite-opposite a.role in
      (
        f,
        written,
        ground (arith, read, opened, roles, h.roles, h.keys, h.seqs),
        record {
          roles = ground (arith, read, h.roles, h.seqs);
          keys = ground (arith, read, h.keys, h.seqs);
          seqs = ground (arith, read, h.seqs);
        },
      )

  -- Frames that arrive as they were sent are read back: every message, in order, over any number
  -- of messages, also where the sequence numbers wrap around.
  pub decrypt_all-encrypt_all :
      (a b : SessionCrypto) (ms : List (List ℕ))
      → IsSound p
      → Paired a b
      → decrypt_all b (encrypt_all a ms).0 ≡ map some ms
  unfolding encrypt_all decrypt_all
  decrypt_all-encrypt_all a b [] s h = refl
  decrypt_all-encrypt_all a b (m ∷ ms) s h =
      let (f, sent, taken, still) = decrypt-encrypt a b m s h in
      rw (sent, taken, decrypt_all-encrypt_all (encrypt p a m).1 (decrypt p b f).1 ms s still)

  -- the messages that were taken
  unfoldable pub taken : List (Option (List ℕ)) → List (List ℕ)
  taken [] = []
  taken (none ∷ ms) = taken ms
  taken (some m ∷ ms) = m ∷ taken ms

  -- the sender after `n` messages, and the frame of the n-th
  abbrev frame_of : SessionCrypto → ℕ → List ℕ → Option (List ℕ)
  frame_of a seq m = p.marshal seq (p.seal a.tx_key (make_nonce a.role seq) m (big_endian 8 seq))

  sent_frame :
      (a : SessionCrypto) (ms : List (List ℕ)) (i : ℕ) {f : List ℕ}
      → a.tx_seq + length ms ≤ u64_mod
      → get_elem? (encrypt_all a ms).0 i ≡ some (some f)
      → (m : List ℕ) × (get_elem? ms i ≡ some m) × (frame_of a (a.tx_seq + i) m ≡ some f)
  unfolding encrypt_all encrypt
  sent_frame a [] i fits h = cc
  sent_frame a (m ∷ ms) zero {f} fits h = (m, refl, rw add-zero (cc))
  sent_frame a (m ∷ []) (suc i) fits h = cc
  sent_frame a (m ∷ m' ∷ ms) (suc i) {f} fits h =
      let e : (a.tx_seq + 1) % u64_mod ≡ a.tx_seq + 1 = omega arith in
      let (n, found, framed) = sent_frame (encrypt p a m).1 (m' ∷ ms) i (omega arith) h in
      let shift : (a.tx_seq + 1) % u64_mod + i ≡ a.tx_seq + suc i = omega arith in
      (n, found, rw shift at framed)

  -- what the network may do: any of the sent frames, by its number, in any order and any number
  -- of times, or nothing
  abbrev pub arrive : List (Option (List ℕ)) → List ℕ → List (Option (List ℕ))
  arrive fs [] = []
  arrive fs (i ∷ is) = join (get_elem? fs i) ∷ arrive fs is

  -- the receiver is ready for the n-th frame
  record Ready (a b : SessionCrypto) (n : ℕ) : Type 0 where
    roles : b.role ≡ opposite_role a.role
    keys : b.rx_key ≡ a.tx_key
    seqs : b.rx_seq ≡ a.tx_seq + n

  read_frame :
      (a : SessionCrypto) (seq : ℕ) (m f : List ℕ)
      → IsSound p
      → frame_of a seq m ≡ some f
      → p.unmarshal f ≡ some (seq, p.seal a.tx_key (make_nonce a.role seq) m (big_endian 8 seq))
  read_frame a seq m f s h =
      let ct = p.seal a.tx_key (make_nonce a.role seq) m (big_endian 8 seq) in
      let (g, written, read) = s.writes seq ct in let e : g ≡ f = cc (written, h) in rw e at read

  take_next :
      (a b : SessionCrypto) (n : ℕ) (m f : List ℕ)
      → IsSound p
      → Ready a b n
      → frame_of a (a.tx_seq + n) m ≡ some f
      → a.tx_seq + n + 1 < u64_mod
      → ((decrypt p b f).0 ≡ some m) × Ready a (decrypt p b f).1 (suc n)
  unfolding decrypt
  take_next a b n m f s r h fits =
      let seq = a.tx_seq + n in
      let read = read_frame a seq m f s h in
      let opened = s.opens a.tx_key (make_nonce a.role seq) m (big_endian 8 seq) in
      let roles = opposite-opposite a.role in
      (
        ground (arith, read, opened, roles, r.roles, r.keys, r.seqs),
        record {
          roles = ground (arith, read, r.roles, r.seqs);
          keys = ground (arith, read, r.keys, r.seqs);
          seqs = ground (arith, read, r.seqs);
        },
      )

  refuse_other :
      (a b : SessionCrypto) (n i : ℕ) (m f : List ℕ)
      → IsSound p
      → Ready a b n
      → i ≢ n
      → frame_of a (a.tx_seq + i) m ≡ some f
      → decrypt p b f ≡ (none, b)
  unfolding decrypt
  refuse_other a b n i m f s r ne h =
      let read = read_frame a (a.tx_seq + i) m f s h in ground (arith, read, r.seqs)

  drop_of_get :
      (ms : List (List ℕ)) (n : ℕ) (m : List ℕ)
      → get_elem? ms n ≡ some m
      → drop n ms ≡ m ∷ drop (suc n) ms
  drop_of_get [] n m h = cc
  drop_of_get (x ∷ ms) zero m h = cc
  drop_of_get (x ∷ ms) (suc n) m h = drop_of_get ms n m h

  get-lt : (ms : List (List ℕ)) (n : ℕ) (m : List ℕ) → get_elem? ms n ≡ some m → n < length ms
  get-lt [] n m h = cc
  get-lt (x ∷ ms) zero m h = omega arith
  get-lt (x ∷ ms) (suc n) m h = omega (arith, get-lt ms n m h)

  in_order_from :
      (a b : SessionCrypto) (ms : List (List ℕ)) (is : List ℕ) (n : ℕ)
      → IsSound p
      → Ready a b n
      → a.tx_seq + length ms < u64_mod
      → (k : ℕ) × (taken (decrypt_all b (arrive (encrypt_all a ms).0 is)) ≡ take k (drop n ms))
  unfolding decrypt_all taken
  in_order_from a b ms [] n s r fits = (0, refl)
  in_order_from a b ms (i ∷ is) n s r fits =
      let frames = (encrypt_all a ms).0 in
      elim (arrival_cases (get_elem? frames i)) [
        | inl lost ↦ rw lost (in_order_from a b ms is n s r fits)
        | inr (f, came) ↦
            let (m, sent, framed) = sent_frame a ms i (omega arith) came in
            elim (ℕ_discrete i n) [
              | yes e ↦
                  let there : get_elem? ms n ≡ some m = rw e at sent in
                  let below = get-lt ms n m there in
                  let (got, ready) = take_next a b n m f s r (rw e at framed) (omega arith) in
                  let (k, rest) = in_order_from a (decrypt p b f).1 ms is (suc n) s ready fits in
                  (suc k, rw (came, got, rest, drop_of_get ms n m there))
              | no ne ↦
                  let (k, rest) = in_order_from a b ms is n s r fits in
                  (k, rw (came, refuse_other a b n i m f s r ne framed) rest)
            ]
      ]

  -- Whatever the network does with the sent frames (drop, repeat, reorder), the receiver takes a
  -- prefix of the messages, each once and in order, as long as the sequence numbers do not wrap
  -- around.
  pub decrypt_all_in_order :
      (a b : SessionCrypto) (ms : List (List ℕ)) (is : List ℕ)
      → IsSound p
      → Paired a b
      → a.tx_seq + length ms < u64_mod
      → (k : ℕ) × (taken (decrypt_all b (arrive (encrypt_all a ms).0 is)) ≡ take k ms)
  decrypt_all_in_order a b ms is s h fits =
      in_order_from a b ms is 0 s
        (record { roles = h.roles; keys = h.keys; seqs = omega (arith, h.seqs) }) fits
