-- ===== src/Tests/Cipher.antt =====
-- A cipher that meets what is asked of AES-GCM, and the theorems on encryption with it.
use multicast_bridge.Common.{
  ℕ, ◌+◌, ◌≡◌, refl, sym, ap, ◌∙◌, if◌then◌else◌, ltb, Bool, true, false, List, [], ◌∷◌, ◌++◌,
  length, take, drop, replicate, Option, none, some, arith, length-append, length-replicate,
  take-append-drop,
}
use multicast_bridge.Common.Text.{same_text, same_text_iff}
use multicast_bridge.Common.Results.{ok, err, ◌>>=◌}
use multicast_bridge.Crypto.{
  Aead, ciphertext_too_short, nonce_size, encrypt_gcm_with_aead, decrypt_gcm_with_aead, new_aead,
  encrypt_gcm, decrypt_gcm, generate_random_bytes,
}
use multicast_bridge.Crypto.Gcm.{
  IsAead, IsRandom, gcm_with_aead, decrypt_gcm-encrypt_gcm, decrypt_gcm-inv,
}

-- The tag.
abbrev pub zeros : List ℕ
zeros = replicate 16 0

abbrev pub toy : Aead
toy = record {
  seal = λ nonce plaintext. zeros ++ plaintext;
  unseal = λ nonce ciphertext.
      if same_text (take 16 ciphertext) zeros then some (drop 16 ciphertext) else none;
}

some_injective : (a b : List ℕ) → some a ≡ some b → a ≡ b
some_injective a b e = cc

toy-unseal :
    (ciphertext plaintext : List ℕ) (b : Bool)
    → same_text (take 16 ciphertext) zeros ≡ b
    → (if b then some (drop 16 ciphertext) else none) ≡ some plaintext
    → ciphertext ≡ zeros ++ plaintext
toy-unseal c p true e f =
    sym (take-append-drop 16 c)
    ∙ ap (λ x. x ++ drop 16 c) ((same_text_iff (take 16 c) zeros).0 e)
    ∙ ap (λ x. zeros ++ x) (some_injective (drop 16 c) p f)
toy-unseal c p false e f = cc

pub toy-IsAead : IsAead toy
toy-IsAead = record {
  tagged = λ nonce plaintext. omega (arith, length-append zeros plaintext);
  authentic = λ nonce plaintext ciphertext h. (
    λ e. toy-unseal ciphertext plaintext _ refl e,
    λ e. ap (λ c. if same_text (take 16 c) zeros then some (drop 16 c) else none) e,
  );
}

-- A source that gives sevens.
abbrev pub sevens : ℕ → Option (List ℕ)
sevens size = some (replicate size 7)

pub sevens-IsRandom : IsRandom sevens
sevens-IsRandom size bytes e =
    ap length (sym (some_injective (replicate size 7) bytes e)) ∙ length-replicate size 7

abbrev pub toy_cipher : List ℕ → Option (List ℕ)
toy_cipher key = if ltb (length key) 32 then none else some key

abbrev pub toy_gcm : List ℕ → Option Aead
toy_gcm key = some toy

abbrev cipher_text : List ℕ
cipher_text = replicate 12 7 ++ (zeros ++ (1 ∷ 2 ∷ []))

abbrev pub toy_key : List ℕ
toy_key = replicate 32 9

new_toy : new_aead toy_cipher toy_gcm toy_key ≡ ok toy
unfolding new_aead
new_toy = refl

encrypted : encrypt_gcm toy_cipher toy_gcm sevens (1 ∷ 2 ∷ []) toy_key ≡ ok cipher_text
unfolding encrypt_gcm generate_random_bytes
encrypted = refl

decrypted : decrypt_gcm toy_cipher toy_gcm cipher_text toy_key ≡ ok (1 ∷ 2 ∷ [])
unfolding decrypt_gcm
decrypted = refl

gcm_with_aead_example :
    (encrypt_gcm toy_cipher toy_gcm sevens (1 ∷ 2 ∷ []) toy_key
      ≡ (new_aead toy_cipher toy_gcm toy_key >>= encrypt_gcm_with_aead sevens (1 ∷ 2 ∷ [])))
    × (decrypt_gcm toy_cipher toy_gcm cipher_text toy_key ≡ (
        if ltb (length cipher_text) nonce_size
        then err ciphertext_too_short
        else new_aead toy_cipher toy_gcm toy_key >>= decrypt_gcm_with_aead cipher_text))
gcm_with_aead_example = gcm_with_aead toy_cipher toy_gcm sevens (1 ∷ 2 ∷ []) cipher_text toy_key

decrypt_gcm-encrypt_gcm_example :
    (decrypt_gcm toy_cipher toy_gcm cipher_text toy_key ≡ ok (1 ∷ 2 ∷ []))
    × (length cipher_text ≡ 2 + 28)
decrypt_gcm-encrypt_gcm_example =
    decrypt_gcm-encrypt_gcm toy_cipher toy_gcm toy toy-IsAead sevens sevens-IsRandom (1 ∷ 2 ∷ [])
      toy_key cipher_text new_toy encrypted

decrypt_gcm-inv_example :
    (nonce : List ℕ) × (length nonce ≡ 12) × (cipher_text ≡ nonce ++ toy.seal nonce (1 ∷ 2 ∷ []))
decrypt_gcm-inv_example =
    decrypt_gcm-inv toy_cipher toy_gcm toy toy-IsAead (1 ∷ 2 ∷ []) toy_key cipher_text new_toy
      decrypted
