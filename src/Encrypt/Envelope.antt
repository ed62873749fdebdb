-- ===== src/Encrypt/Envelope.antt =====
-- What is encrypted decrypts again in its own context, and in no other.
use mathlib.Core.Path.{ap₂}
use mathlib.Core.Bool.{false≢true}
use mosona_manager.Decimal.{is_digit, parse_digits, max_int64, print, parse_digits-print}
use mosona_manager.Encrypt.{
  key_content_context, key_password_context, ssh_password_context, agent_private_key_context, Gcm,
  header, associated_data, is_versioned_ciphertext, decrypt_envelope, decrypt, IsGcm, encrypt,
  Cipher, IsCipher,
}
use mosona_manager.Prelude.{
  Bool-cases, List, Option, [], ap, arith, bytes, drop, drop-append, false, get_or, has_prefix, inl,
  inr, length, length-append, le→ltb-false, ltb, none, refl, some, sym, take, take-append, true, ℕ,
  ◌*◌, ◌++◌, ◌+◌, ◌-◌, ◌==◌, ◌∙◌, ◌∷◌, ◌≡◌, ◌≢◌, ◌≤◌,
}

split_at_slash :
    (acc : ℕ) (a b r s : List ℕ) (v w : ℕ)
    → parse_digits acc a ≡ some v
    → parse_digits acc b ≡ some w
    → a ++ b'/' ∷ r ≡ b ++ b'/' ∷ s
    → (v ≡ w) × (r ≡ s)
unfolding parse_digits is_digit
split_at_slash acc [] [] r s v w h k e = (cc, cc)
split_at_slash acc [] (c ∷ b) r s v w h k e = absurd (ground (arith, k))
split_at_slash acc (c ∷ a) [] r s v w h k e = absurd (ground (arith, h))
split_at_slash acc (c ∷ a) (d ∷ b) r s v w h k e = elim (Bool-cases (is_digit c)) [
  | inl t ↦ elim (Bool-cases (is_digit d)) [
    | inl u ↦
        let heads : c ≡ d = cc e in
        split_at_slash (acc * 10 + (c - b'0')) a b r s v w (simp t at h)
          (ap (λ x. parse_digits (acc * 10 + (x - b'0')) b) heads ∙ simp u at k) (cc e)
    | inr u ↦ absurd (ground (arith, k, u))
  ]
  | inr t ↦ absurd (ground (arith, h, t))
]

-- the columns whose values are encrypted, each of a row
pub data Field : Type 0 where
  key_content key_password ssh_password agent_private_key : ℕ → Field

unfoldable pub context_of : Field → List ℕ
unfolding key_content_context key_password_context ssh_password_context agent_private_key_context
context_of (key_content id) = key_content_context id
context_of (key_password id) = key_password_context id
context_of (ssh_password id) = ssh_password_context id
context_of (agent_private_key id) = agent_private_key_context id

-- the row of a column
abbrev pub row_of : Field → ℕ
row_of (key_content id) = id
row_of (key_password id) = id
row_of (ssh_password id) = id
row_of (agent_private_key id) = id

ids_agree :
    (i j : ℕ) (r s : List ℕ)
    → i ≤ max_int64
    → j ≤ max_int64
    → print i ++ b'/' ∷ r ≡ print j ++ b'/' ∷ s
    → (i ≡ j) × (r ≡ s)
ids_agree i j r s h k e =
    split_at_slash 0 (print i) (print j) r s i j (parse_digits-print i) (parse_digits-print j) e

-- texts that begin otherwise
abbrev first : List ℕ → ℕ
first [] = 0
first (c ∷ cs) = c

apart : (xs ys : List ℕ) → (first xs == first ys) ≡ false → xs ≡ ys → ⊥
apart xs ys t e = false≢true (sym t ∙ same_first (first xs) (first ys) (ap first e))
  where
    same_first : (c d : ℕ) → c ≡ d → (c == d) ≡ true
    same_first c d q = ground (arith, q)

context_of_injective :
    (f g : Field)
    → row_of f ≤ max_int64
    → row_of g ≤ max_int64
    → context_of f ≡ context_of g
    → f ≡ g
unfolding context_of key_content_context key_password_context ssh_password_context
    agent_private_key_context
context_of_injective (key_content i) (key_content j) h k e =
    ap key_content (ids_agree i j (bytes "content") (bytes "content") h k (ap (drop 5) e)).0
context_of_injective (key_content i) (key_password j) h k e =
    elim (apart (bytes "content") (bytes "password") refl
      (ids_agree i j (bytes "content") (bytes "password") h k (ap (drop 5) e)).1) [ ]
context_of_injective (key_content i) (ssh_password j) h k e =
    elim (apart (context_of (key_content i)) (context_of (ssh_password j)) refl e) [ ]
context_of_injective (key_content i) (agent_private_key j) h k e =
    elim (apart (context_of (key_content i)) (context_of (agent_private_key j)) refl e) [ ]
context_of_injective (key_password i) (key_content j) h k e =
    elim (apart (bytes "password") (bytes "content") refl
      (ids_agree i j (bytes "password") (bytes "content") h k (ap (drop 5) e)).1) [ ]
context_of_injective (key_password i) (key_password j) h k e =
    ap key_password (ids_agree i j (bytes "password") (bytes "password") h k (ap (drop 5) e)).0
context_of_injective (key_password i) (ssh_password j) h k e =
    elim (apart (context_of (key_password i)) (context_of (ssh_password j)) refl e) [ ]
context_of_injective (key_password i) (agent_private_key j) h k e =
    elim (apart (context_of (key_password i)) (context_of (agent_private_key j)) refl e) [ ]
context_of_injective (ssh_password i) (key_content j) h k e =
    elim (apart (context_of (ssh_password i)) (context_of (key_content j)) refl e) [ ]
context_of_injective (ssh_password i) (key_password j) h k e =
    elim (apart (context_of (ssh_password i)) (context_of (key_password j)) refl e) [ ]
context_of_injective (ssh_password i) (ssh_password j) h k e =
    ap ssh_password (ids_agree i j (bytes "password") (bytes "password") h k (ap (drop 4) e)).0
context_of_injective (ssh_password i) (agent_private_key j) h k e =
    elim (apart (context_of (ssh_password i)) (context_of (agent_private_key j)) refl e) [ ]
context_of_injective (agent_private_key i) (key_content j) h k e =
    elim (apart (context_of (agent_private_key i)) (context_of (key_content j)) refl e) [ ]
context_of_injective (agent_private_key i) (key_password j) h k e =
    elim (apart (context_of (agent_private_key i)) (context_of (key_password j)) refl e) [ ]
context_of_injective (agent_private_key i) (ssh_password j) h k e =
    elim (apart (context_of (agent_private_key i)) (context_of (ssh_password j)) refl e) [ ]
context_of_injective (agent_private_key i) (agent_private_key j) h k e =
    ap agent_private_key
      (ids_agree i j (bytes "private_key") (bytes "private_key") h k (ap (drop 7) e)).0

some_injective : {A : Type 0} {a b : A} → some a ≡ some b → a ≡ b
some_injective {a = a} e = ap (λ o. get_or o a) e

module _ (gcm : Gcm) (laws : IsGcm gcm) where
  -- what decrypting an envelope comes down to
  decrypt_sealed :
      (nonce sealed key context : List ℕ)
      → length nonce ≡ gcm.nonce_size
      → gcm.accepts_key key ≡ true
      → gcm.overhead ≤ length sealed
      → decrypt gcm (header ++ (nonce ++ sealed)) key context
        ≡ gcm.unseal key nonce sealed (associated_data header context)
  unfolding decrypt decrypt_envelope is_versioned_ciphertext has_prefix
  decrypt_sealed nonce sealed key context n ok long =
      let size = length-append header (nonce ++ sealed) in
      let size' = length-append nonce sealed in
      let a : ltb (length (header ++ (nonce ++ sealed))) 9 ≡ false =
        le→ltb-false (length (header ++ (nonce ++ sealed))) 9 (omega (arith, size)) in
      let b : ltb (length (header ++ (nonce ++ sealed))) (9 + gcm.nonce_size + gcm.overhead)
          ≡ false =
        le→ltb-false (length (header ++ (nonce ++ sealed))) (9 + gcm.nonce_size + gcm.overhead)
          (omega (arith, size, size', n, long)) in
      simp (a, b, ok)
        (ap₂ (λ x y. gcm.unseal key x y (associated_data header context))
          (ap (λ k. take k (nonce ++ sealed)) (sym n) ∙ take-append nonce sealed)
          (ap (λ k. drop k (nonce ++ sealed)) (sym n) ∙ drop-append nonce sealed))

  -- What is encrypted for one column of one row decrypts to the same text there, under the same
  -- key, and to nothing for any other column or row.
  pub decrypt-encrypt :
      (f g : Field) (nonce plain key sealed : List ℕ)
      → length nonce ≡ gcm.nonce_size
      → row_of f ≤ max_int64
      → row_of g ≤ max_int64
      → f ≢ g
      → encrypt gcm (some nonce) plain key (context_of f) ≡ some sealed
      → (decrypt gcm sealed key (context_of f) ≡ some plain)
        × (decrypt gcm sealed key (context_of g) ≡ none)
  unfolding encrypt associated_data
  decrypt-encrypt f g nonce plain key sealed n h k ne e = elim (Bool-cases (gcm.accepts_key key)) [
    | inr t ↦ absurd (cc (simp t at e))
    | inl t ↦
        let body = gcm.seal key nonce plain (associated_data header (context_of f)) in
        let envelope : header ++ (nonce ++ body) ≡ sealed = some_injective (simp t at e) in
        let long = laws.tagged key nonce plain (associated_data header (context_of f)) in
        (
          ap (λ x. decrypt gcm x key (context_of f)) (sym envelope)
              ∙ decrypt_sealed nonce body key (context_of f) n t long
              ∙ laws.opens key nonce plain (associated_data header (context_of f)),
          ap (λ x. decrypt gcm x key (context_of g)) (sym envelope)
              ∙ decrypt_sealed nonce body key (context_of g) n t long
              ∙ stays_shut (gcm.unseal key nonce body (associated_data header (context_of g))) refl,
        )
  ]
    where
      same_context :
          associated_data header (context_of f) ≡ associated_data header (context_of g)
          → context_of f ≡ context_of g
      same_context q = ap (drop 10) q

      stays_shut :
          (o : Option (List ℕ))
          → gcm.unseal key nonce
              (gcm.seal key nonce plain (associated_data header (context_of f)))
              (associated_data header (context_of g))
            ≡ o
          → o ≡ none
      stays_shut none q = refl
      stays_shut (some text) q = absurd (
          ne (
            context_of_injective f g h k (
              same_context (
                laws.authentic key nonce plain (associated_data header (context_of f))
                  (associated_data header (context_of g)) text q))))

  -- the interface that the exports and imports use, filled by the envelopes under one key, with a
  -- nonce for each context
  abbrev pub envelope_cipher : List ℕ → (List ℕ → Option (List ℕ)) → Cipher
  envelope_cipher key nonces = record {
    encrypt_text = λ plain context. encrypt gcm (nonces context) plain key context;
    decrypt_text = λ sealed context. decrypt gcm sealed key context;
  }

  decrypts_with :
      (nonce : Option (List ℕ)) (plain key context sealed : List ℕ)
      → ((n : List ℕ) → nonce ≡ some n → length n ≡ gcm.nonce_size)
      → encrypt gcm nonce plain key context ≡ some sealed
      → (decrypt gcm sealed key context ≡ some plain) × (sealed ≢ [])
  unfolding encrypt
  decrypts_with none plain key context sealed n e = absurd (cc e)
  decrypts_with (some nonce) plain key context sealed n e =
      elim (Bool-cases (gcm.accepts_key key)) [
        | inr t ↦ absurd (cc (simp t at e))
        | inl t ↦
            let body = gcm.seal key nonce plain (associated_data header context) in
            let envelope : header ++ (nonce ++ body) ≡ sealed = some_injective (simp t at e) in
            let long = laws.tagged key nonce plain (associated_data header context) in
            (
              ap (λ x. decrypt gcm x key context) (sym envelope)
                  ∙ decrypt_sealed nonce body key context (n nonce refl) t long
                  ∙ laws.opens key nonce plain (associated_data header context),
              λ q. cc (envelope ∙ q),
            )
      ]

  pub envelope_cipher-IsCipher :
      (key : List ℕ) (nonces : List ℕ → Option (List ℕ))
      → ((c n : List ℕ) → nonces c ≡ some n → length n ≡ gcm.nonce_size)
      → IsCipher (envelope_cipher key nonces)
  envelope_cipher-IsCipher key nonces n = record {
    decrypts = λ plain context sealed e.
        (decrypts_with (nonces context) plain key context sealed (n context) e).0;
    not_empty = λ plain context e.
        (decrypts_with (nonces context) plain key context [] (n context) e).1 refl;
  }
