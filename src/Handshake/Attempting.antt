-- ===== src/Handshake/Attempting.antt =====
-- cmd/recv.go: how the receiver registers when the sender answers at once.
use multicast_bridge.Common.{
  ℕ, ◌≤◌, ◌≡◌, refl, ap, ◌∙◌, if◌then◌else◌, ltb, Bool, true, false, List, [], ◌∷◌, length, Option,
  some, arith, length-set,
}
use multicast_bridge.Common.Int.{ℤ, IsI64}
use multicast_bridge.Common.Bytes.{length-copy_at}
use multicast_bridge.Common.Results.{ok}
use multicast_bridge.Config.{RecvConfig}
use multicast_bridge.Control.{
  parse_packet, build_packet, type_auth_challenge, type_auth_result, status_success,
}
use multicast_bridge.Control.Payload.{encode_auth_challenge_payload, encode_auth_result_payload}
use multicast_bridge.Control.Handshake.{
  decode_auth_challenge_payload-encode, decode_auth_result_payload-encode,
}
use multicast_bridge.Handshake.Challenge.{parse-build}
use multicast_bridge.Receiver.Register.{
  Attempt, Attempted, returned, session_key_of, auth_response, attempt,
}

-- An attempt that is not disturbed, with what is read.
abbrev pub undisturbed : Option (List ℕ) → ℤ → ℤ → Option (List ℕ) → Attempt
undisturbed response t2 t3 result = record {
  ended = false;
  written = true;
  ended_waiting = false;
  response = response;
  t2 = t2;
  t3 = t3;
  result = result;
}

if_and-true : {A : Type 0} → (b : Bool) (x y : A) → b ≡ true → (if b then x else y) ≡ x
if_and-true true x y e = refl
if_and-true false x y e = cc

length-challenge :
    (rand_a : List ℕ) (t1 : ℤ) → length (encode_auth_challenge_payload rand_a t1) ≡ 40
unfolding encode_auth_challenge_payload
length-challenge rand_a t1 = rw (length-copy_at, length-copy_at) refl

length-result :
    (status : ℕ) (t4 : ℤ) (k n : ℕ) → length (encode_auth_result_payload status t4 k n) ≡ 11
unfolding encode_auth_result_payload
length-result status t4 k n = rw (length-set, length-set, length-copy_at, length-set) refl

module _ (pbkdf2 : List ℕ → List ℕ → ℤ → ℕ → List ℕ) (hmac : List ℕ → List ℕ → List ℕ)
    (cfg : RecvConfig) where
  pub attempt-encrypted :
      (packet rand_a : List ℕ) (t1 t2 t3 t4 : ℤ) (k n : ℕ)
      → cfg.encryption.enabled ≡ true
      → length rand_a ≡ 32
      → IsI64 t1
      → IsI64 t4
      → n ≤ 16
      → (a : Attempt)
      → a
        ≡ undisturbed
            (some (build_packet type_auth_challenge (encode_auth_challenge_payload rand_a t1)))
            t2
            t3
            (some
              (build_packet type_auth_result (encode_auth_result_payload status_success t4 k n)))
      → attempt pbkdf2 hmac cfg packet a ≡ (
        packet ∷ auth_response pbkdf2 hmac cfg rand_a a ∷ [],
        returned (ok (record { k = k; n = n; key = session_key_of pbkdf2 hmac cfg rand_a })),
      )
  unfolding attempt
  attempt-encrypted packet rand_a t1 t2 t3 t4 k n on size h1 h4 usable a e =
      let asked : parse_packet
            (build_packet type_auth_challenge (encode_auth_challenge_payload rand_a t1))
          ≡ ok (record {
            kind = type_auth_challenge;
            payload = encode_auth_challenge_payload rand_a t1;
          }) =
        parse-build type_auth_challenge _ (omega arith) (omega arith)
          (omega (arith, length-challenge rand_a t1)) in
      let told : parse_packet
            (build_packet type_auth_result (encode_auth_result_payload status_success t4 k n))
          ≡ ok (record {
            kind = type_auth_result;
            payload = encode_auth_result_payload status_success t4 k n;
          }) =
        parse-build type_auth_result _ (omega arith) (omega arith)
          (omega (arith, length-result status_success t4 k n)) in
      let small : ltb 16 n ≡ false = ground arith in
      rw (e, asked)
        (ap (λ (x : Attempted). (packet ∷ x.0, x.1)) (if_and-true cfg.encryption.enabled _ _ on)
          ∙ rw
              (
                decode_auth_challenge_payload-encode rand_a t1 size h1,
                told,
                decode_auth_result_payload-encode status_success t4 k n h4,
                small,
              )
              refl)
