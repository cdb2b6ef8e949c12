-- ===== src/Crypto.antt =====
-- internal/crypto/crypto.go: key derivation, HMAC-SHA256 and AES-GCM.
--
-- The packages that it calls are parameters: `pbkdf2.Key` and HMAC as functions, `aes.NewCipher` and
-- `cipher.NewGCM` with `none` as their error, `rand.Read` as the bytes it gives, if any, and a
-- `cipher.AEAD` as its two methods. Nothing is authenticated but the plaintext.
pub mod Gcm
use multicast_bridge.Common.{
  ℕ, if◌then◌else◌, ltb, Bool, List, ◌++◌, length, take, drop, Option, none, some,
}
use multicast_bridge.Common.Int.{ℤ, pos, less}
use multicast_bridge.Common.Text.{same_text}
use multicast_bridge.Common.Results.{Result, ok, err, ◌>>=◌}

abbrev pub pbkdf2_iterations : ℕ
pbkdf2_iterations = 600_000

abbrev pub key_length : ℕ
key_length = 32

abbrev pub nonce_size : ℕ
nonce_size = 12

pub data CryptoError : Type 0 where
  ciphertext_too_short decryption_failed : CryptoError
  no_cipher no_gcm no_random_bytes : CryptoError

-- `seal nonce plaintext` is the ciphertext with its tag; of `open nonce ciphertext`, `none` is the error.
pub record Aead : Type 0 where
  pub seal : List ℕ → List ℕ → List ℕ
  pub unseal : List ℕ → List ℕ → Option (List ℕ)

abbrev pub or_error {ℓ} : {A : Type ℓ} → CryptoError → Option A → Result CryptoError A
or_error e none = err e
or_error e (some a) = ok a

-- `pbkdf2.Key` of the passphrase, the salt, the iterations and the length.
unfoldable pub derive_key : (List ℕ → List ℕ → ℤ → ℕ → List ℕ) → List ℕ → List ℕ → ℤ → List ℕ
derive_key pbkdf2 passphrase salt iterations =
    pbkdf2 passphrase salt (if less (pos 0) iterations then iterations else pos pbkdf2_iterations)
      key_length

-- The argument is what `rand.Read` gives for a number of bytes.
unfoldable pub generate_random_bytes : (ℕ → Option (List ℕ)) → ℕ → Result CryptoError (List ℕ)
generate_random_bytes read size = or_error no_random_bytes (read size)

module _ (hmac : List ℕ → List ℕ → List ℕ) where
  -- `hmac` takes the key first.
  unfoldable pub compute_hmac : List ℕ → List ℕ → List ℕ
  compute_hmac message derived_key = hmac derived_key message

  unfoldable pub verify_hmac : List ℕ → List ℕ → List ℕ → Bool
  verify_hmac message expected_mac derived_key =
      same_text (compute_hmac message derived_key) expected_mac

unfoldable pub encrypt_gcm_with_aead :
    (ℕ → Option (List ℕ)) → List ℕ → Aead → Result CryptoError (List ℕ)
encrypt_gcm_with_aead read plaintext aesgcm =
    generate_random_bytes read nonce_size >>= λ nonce. ok (nonce ++ aesgcm.seal nonce plaintext)

unfoldable pub decrypt_gcm_with_aead : List ℕ → Aead → Result CryptoError (List ℕ)
decrypt_gcm_with_aead ciphertext aesgcm =
    if ltb (length ciphertext) nonce_size
    then err ciphertext_too_short
    else or_error decryption_failed
        (aesgcm.unseal (take nonce_size ciphertext) (drop nonce_size ciphertext))

module _ {B : Type 0} (new_cipher : List ℕ → Option B) (new_gcm : B → Option Aead) where
  unfoldable pub new_aead : List ℕ → Result CryptoError Aead
  new_aead key = or_error no_cipher (new_cipher key) >>= λ block. or_error no_gcm (new_gcm block)

  unfoldable pub encrypt_gcm : (ℕ → Option (List ℕ)) → List ℕ → List ℕ → Result CryptoError (List ℕ)
  encrypt_gcm read plaintext key = or_error no_cipher (new_cipher key) >>= λ block.
      or_error no_gcm (new_gcm block) >>= λ aesgcm.
      generate_random_bytes read nonce_size >>= λ nonce. ok (nonce ++ aesgcm.seal nonce plaintext)

  unfoldable pub decrypt_gcm : List ℕ → List ℕ → Result CryptoError (List ℕ)
  decrypt_gcm ciphertext key =
      if ltb (length ciphertext) nonce_size
      then err ciphertext_too_short
      else or_error no_cipher (new_cipher key) >>= λ block.
          or_error no_gcm (new_gcm block) >>= λ aesgcm.
          or_error decryption_failed
            (aesgcm.unseal (take nonce_size ciphertext) (drop nonce_size ciphertext))
