-- ===== src/Encrypt/Tests.antt =====
-- The theorem on envelopes, at a toy cipher that keeps the additional data with the text.
use mosona_manager.Encrypt.{Gcm, header, associated_data, encrypt, decrypt, IsGcm}
use mosona_manager.Encrypt.Envelope.{context_of, decrypt-encrypt, ssh_password}
use mosona_manager.Identity.{Bytes-discrete}
use mathlib.Core.Logic.{ite}
use mosona_manager.Prelude.{
  List, Option, [], arith, bytes, drop, drop-append, length, none, refl, some, sym, take,
  take-append, true, ℕ, ◌++◌, ◌∙◌, ◌∷◌, ◌≡◌,
}

abbrev toy_unseal : List ℕ → List ℕ → Option (List ℕ)
toy_unseal [] aad = none
toy_unseal (n ∷ rest) aad = ite (Bytes-discrete (take n rest) aad) (some (drop n rest)) none

abbrev toy : Gcm
toy = record {
  accepts_key = λ key. true;
  nonce_size = 2;
  overhead = 1;
  seal = λ key nonce plain aad. length aad ∷ (aad ++ plain);
  unseal = λ key nonce sealed aad. toy_unseal sealed aad;
}

toy_opens : (plain aad : List ℕ) → toy_unseal (length aad ∷ (aad ++ plain)) aad ≡ some plain
toy_opens plain aad = rw (take-append aad plain, drop-append aad plain) (ground arith)

toy_authentic :
    (plain aad other text : List ℕ)
    → toy_unseal (length aad ∷ (aad ++ plain)) other ≡ some text
    → aad ≡ other
toy_authentic plain aad other text e =
    checked (Bytes-discrete (take (length aad) (aad ++ plain)) other) e
  where
    checked :
        (d : Dec (take (length aad) (aad ++ plain) ≡ other))
        → ite d (some (drop (length aad) (aad ++ plain))) none ≡ some text
        → aad ≡ other
    checked (yes p) q = sym (take-append aad plain) ∙ p
    checked (no n) q = absurd (cc q)

toy-IsGcm : IsGcm toy
toy-IsGcm = record {
  opens = λ key nonce plain aad. toy_opens plain aad;
  authentic = λ key nonce plain aad other text e. toy_authentic plain aad other text e;
  tagged = λ key nonce plain aad. omega arith;
}

-- the password of SSH for server 7, moved to server 8
decrypt-encrypt_example :
    let sealed =
      header
      ++ (1
          ∷ 2
          ∷ toy.seal [] []
              (bytes "secret")
              (associated_data header (context_of (ssh_password 7)))) in
    (decrypt toy sealed [] (context_of (ssh_password 7)) ≡ some (bytes "secret"))
    × (decrypt toy sealed [] (context_of (ssh_password 8)) ≡ none)
unfolding encrypt
decrypt-encrypt_example =
    decrypt-encrypt toy toy-IsGcm (ssh_password 7) (ssh_password 8) (1 ∷ 2 ∷ []) (bytes "secret") []
      (header
        ++ (1
            ∷ 2
            ∷ toy.seal [] [] (bytes "secret")
                (associated_data header (context_of (ssh_password 7)))))
      refl (omega arith) (omega arith) (λ e. cc e) refl
