-- ===== src/Crypto/Gcm.antt =====
-- internal/crypto/crypto.go: what encryption and decryption with AES-GCM promise together.
use multicast_bridge.Common.{
  ℕ, ◌+◌, ◌≡◌, refl, sym, ap, ◌∙◌, ◌↔◌, if◌then◌else◌, ltb, Bool, true, false, List, ◌++◌, length,
  take, drop, inl, inr, Option, none, some, arith, length-append, take-append, drop-append,
  take-append-drop, length-take, Bool-cases,
}
use multicast_bridge.Common.Results.{Result, ok, err, ◌>>=◌}
use multicast_bridge.Crypto.{
  CryptoError, ciphertext_too_short, decryption_failed, no_cipher, no_gcm, no_random_bytes, Aead,
  or_error, nonce_size, generate_random_bytes, encrypt_gcm_with_aead, decrypt_gcm_with_aead,
  new_aead, encrypt_gcm, decrypt_gcm,
}

-- What GCM promises (NIST SP 800-38D): the tag has 16 bytes, and a ciphertext is opened under a
-- nonce of 12 bytes exactly if it is the sealed plaintext.
pub record IsAead (aesgcm : Aead) : Type 0 where
  pub tagged :
      (nonce plaintext : List ℕ) → length (aesgcm.seal nonce plaintext) ≡ length plaintext + 16
  pub authentic :
      (nonce plaintext ciphertext : List ℕ)
      → length nonce ≡ 12
      → (aesgcm.unseal nonce ciphertext ≡ some plaintext)
        ↔ (ciphertext ≡ aesgcm.seal nonce plaintext)

-- `rand.Read` fills the buffer.
abbrev pub IsRandom : (ℕ → Option (List ℕ)) → Type 0
IsRandom read = (size : ℕ) (bytes : List ℕ) → read size ≡ some bytes → length bytes ≡ size

or_error-ok :
    {A : Type 0} (e : CryptoError) (o : Option A) (a : A) → or_error e o ≡ ok a → o ≡ some a
or_error-ok e none a h = cc
or_error-ok e (some b) a h = cc

decrypt_long :
    (ciphertext : List ℕ) (aesgcm : Aead)
    → ltb (length ciphertext) nonce_size ≡ false
    → decrypt_gcm_with_aead ciphertext aesgcm
      ≡ or_error decryption_failed
          (aesgcm.unseal (take nonce_size ciphertext) (drop nonce_size ciphertext))
unfolding decrypt_gcm_with_aead
decrypt_long ciphertext aesgcm e = rw e refl

module _ {B : Type 0} (new_cipher : List ℕ → Option B) (new_gcm : B → Option Aead) where
  bound_twice :
      {A C : Type 0} (a : Result CryptoError A) (f : A → Result CryptoError C)
      (g : C → Result CryptoError (List ℕ))
      → ((a >>= f) >>= g) ≡ (a >>= λ x. f x >>= g)
  bound_twice (ok x) f g = refl
  bound_twice (err e) f g = refl

  -- `EncryptGCM` does what `NewAEAD` and `EncryptGCMWithAEAD` do one after the other, and
  -- `DecryptGCM` what `NewAEAD` and `DecryptGCMWithAEAD` do, errors included, except that a ciphertext
  -- of less than 12 bytes is refused before the key is looked at.
  pub gcm_with_aead :
      (read : ℕ → Option (List ℕ)) (plaintext ciphertext key : List ℕ)
      → (encrypt_gcm new_cipher new_gcm read plaintext key
          ≡ (new_aead new_cipher new_gcm key >>= encrypt_gcm_with_aead read plaintext))
        × (decrypt_gcm new_cipher new_gcm ciphertext key ≡ (
            if ltb (length ciphertext) nonce_size
            then err ciphertext_too_short
            else new_aead new_cipher new_gcm key >>= decrypt_gcm_with_aead ciphertext))
  unfolding encrypt_gcm decrypt_gcm new_aead encrypt_gcm_with_aead decrypt_gcm_with_aead
  gcm_with_aead read plaintext ciphertext key = (
    sym (
        bound_twice (or_error no_cipher (new_cipher key)) (λ block. or_error no_gcm (new_gcm block))
          (encrypt_gcm_with_aead read plaintext)),
    elim (Bool-cases (ltb (length ciphertext) nonce_size)) [
      | inl e ↦ rw e refl
      | inr e ↦ rw e (
          sym (
            bound_twice (or_error no_cipher (new_cipher key))
              (λ block. or_error no_gcm (new_gcm block))
              (λ aesgcm.
                or_error decryption_failed
                  (aesgcm.unseal (take nonce_size ciphertext) (drop nonce_size ciphertext))))
          ∙ ap (λ f. new_aead new_cipher new_gcm key >>= f)
              (λ i aesgcm. sym (decrypt_long ciphertext aesgcm e) i))
    ],
  )

-- The two parts are found again.
parts :
    (aesgcm : Aead) (nonce sealed : List ℕ)
    → length nonce ≡ 12
    → decrypt_gcm_with_aead (nonce ++ sealed) aesgcm
      ≡ or_error decryption_failed (aesgcm.unseal nonce sealed)
parts aesgcm nonce sealed h =
    let front : take 12 (nonce ++ sealed) ≡ nonce =
      ap (λ k. take k (nonce ++ sealed)) (sym h) ∙ take-append nonce sealed in
    let back : drop 12 (nonce ++ sealed) ≡ sealed =
      ap (λ k. drop k (nonce ++ sealed)) (sym h) ∙ drop-append nonce sealed in
    decrypt_long (nonce ++ sealed) aesgcm (ground (arith, length-append nonce sealed))
    ∙ rw (front, back) refl

encrypted :
    (aesgcm : Aead)
    → IsAead aesgcm
    → (plaintext ciphertext : List ℕ) (drawn : Option (List ℕ))
    → ((bytes : List ℕ) → drawn ≡ some bytes → length bytes ≡ 12)
    → (or_error no_random_bytes drawn >>= λ nonce. ok (nonce ++ aesgcm.seal nonce plaintext))
      ≡ ok ciphertext
    → (decrypt_gcm_with_aead ciphertext aesgcm ≡ ok plaintext)
      × (length ciphertext ≡ length plaintext + 28)
encrypted aesgcm v plaintext ciphertext none r e = cc
encrypted aesgcm v plaintext ciphertext (some nonce) r e =
    let h : length nonce ≡ 12 = r nonce refl in
    let sealed : List ℕ = aesgcm.seal nonce plaintext in
    let c : ciphertext ≡ nonce ++ sealed = cc in
    (
      ap (λ x. decrypt_gcm_with_aead x aesgcm) c
          ∙ parts aesgcm nonce sealed h
          ∙ ap (or_error decryption_failed) ((v.authentic nonce plaintext sealed h).1 refl),
      ap length c ∙ omega (arith, length-append nonce sealed, v.tagged nonce plaintext),
    )

pub decrypt-encrypt :
    (aesgcm : Aead)
    → IsAead aesgcm
    → (read : ℕ → Option (List ℕ)) → IsRandom read
    → (plaintext ciphertext : List ℕ) → encrypt_gcm_with_aead read plaintext aesgcm ≡ ok ciphertext
    → (decrypt_gcm_with_aead ciphertext aesgcm ≡ ok plaintext)
      × (length ciphertext ≡ length plaintext + 28)
unfolding encrypt_gcm_with_aead generate_random_bytes
decrypt-encrypt aesgcm v read r plaintext ciphertext e =
    encrypted aesgcm v plaintext ciphertext (read 12) (r 12) e

decrypt-inv :
    (aesgcm : Aead)
    → IsAead aesgcm
    → (plaintext ciphertext : List ℕ) → decrypt_gcm_with_aead ciphertext aesgcm ≡ ok plaintext
    → (nonce : List ℕ) × (length nonce ≡ 12) × (ciphertext ≡ nonce ++ aesgcm.seal nonce plaintext)
unfolding decrypt_gcm_with_aead
decrypt-inv aesgcm v plaintext ciphertext e = elim (Bool-cases (ltb (length ciphertext) 12)) [
  | inl short ↦ ground (arith, e)
  | inr long ↦
      let h : length (take 12 ciphertext) ≡ 12 = ground (arith, long, length-take 12 ciphertext) in
      (
        take 12 ciphertext,
        h,
        sym (take-append-drop 12 ciphertext)
            ∙ ap (λ x. take 12 ciphertext ++ x)
                ((v.authentic (take 12 ciphertext) plaintext (drop 12 ciphertext) h).0 (
                  or_error-ok decryption_failed _ plaintext
                    (sym (decrypt_long ciphertext aesgcm long) ∙ e))),
      )
]

long_enough :
    (b : Bool) (r : Result CryptoError (List ℕ)) (plaintext : List ℕ)
    → (if b then err ciphertext_too_short else r) ≡ ok plaintext
    → r ≡ ok plaintext
long_enough true r plaintext e = cc
long_enough false r plaintext e = e

-- What `EncryptGCM` makes is 28 bytes longer than the plaintext, the 12 bytes of the nonce and the
-- 16 of the tag, and `DecryptGCM` with the same key gives the plaintext back, if the key makes an
-- AES-GCM that does as it is specified and the random source fills its buffers.
pub decrypt_gcm-encrypt_gcm :
    {B : Type 0}
    → (new_cipher : List ℕ → Option B) (new_gcm : B → Option Aead) (aesgcm : Aead) → IsAead aesgcm
    → (read : ℕ → Option (List ℕ)) → IsRandom read
    → (plaintext key ciphertext : List ℕ) → new_aead new_cipher new_gcm key ≡ ok aesgcm
    → encrypt_gcm new_cipher new_gcm read plaintext key ≡ ok ciphertext
    → (decrypt_gcm new_cipher new_gcm ciphertext key ≡ ok plaintext)
      × (length ciphertext ≡ length plaintext + 28)
decrypt_gcm-encrypt_gcm new_cipher new_gcm aesgcm v read r plaintext key ciphertext a e =
    let (enc, dec) = gcm_with_aead new_cipher new_gcm read plaintext ciphertext key in
    let made : encrypt_gcm_with_aead read plaintext aesgcm ≡ ok ciphertext =
      ap (λ x. x >>= encrypt_gcm_with_aead read plaintext) (sym a) ∙ sym enc ∙ e in
    let (back, size) = decrypt-encrypt aesgcm v read r plaintext ciphertext made in
    let long : ltb (length ciphertext) nonce_size ≡ false = ground (arith, size) in
    (dec ∙ rw (long, a) back, size)

-- Conversely, whatever `DecryptGCM` accepts under such a key is a nonce of 12 bytes with the sealed
-- plaintext: no other bytes are accepted.
pub decrypt_gcm-inv :
    {B : Type 0}
    → (new_cipher : List ℕ → Option B) (new_gcm : B → Option Aead) (aesgcm : Aead) → IsAead aesgcm
    → (plaintext key ciphertext : List ℕ) → new_aead new_cipher new_gcm key ≡ ok aesgcm
    → decrypt_gcm new_cipher new_gcm ciphertext key ≡ ok plaintext
    → (nonce : List ℕ) × (length nonce ≡ 12) × (ciphertext ≡ nonce ++ aesgcm.seal nonce plaintext)
decrypt_gcm-inv new_cipher new_gcm aesgcm v plaintext key ciphertext a e =
    let dec = (gcm_with_aead new_cipher new_gcm (λ n. none) plaintext ciphertext key).1 in
    decrypt-inv aesgcm v plaintext ciphertext (
      long_enough (ltb (length ciphertext) nonce_size) _ plaintext (
        ap
          (λ x.
            if ltb (length ciphertext) nonce_size
            then err ciphertext_too_short
            else x >>= decrypt_gcm_with_aead ciphertext)
          (sym a)
        ∙ sym dec
        ∙ e))
