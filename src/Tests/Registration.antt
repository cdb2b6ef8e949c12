-- ===== src/Tests/Registration.antt =====
-- The registration of a receiver, and the size of the datagrams, at concrete inputs.
use mathlib.Core.Path.{subst}
use multicast_bridge.Common.{
  ℕ, ◌+◌, ◌*◌, ◌/◌, ◌≤◌, ◌<◌, ◌≡◌, refl, Bool, true, false, List, [], ◌∷◌, length, replicate,
  length-replicate, Option, none, some, arith, All,
}
use multicast_bridge.Common.Int.{ℤ, pos}
use multicast_bridge.Common.Text.{text}
use multicast_bridge.Common.Results.{ok, err}
use multicast_bridge.Common.Assoc.{lookup}
use multicast_bridge.Crypto.{Aead}
use multicast_bridge.Data.Session.{Session, SessionManager}
use multicast_bridge.Data.Session.Each.{made}
use multicast_bridge.Handshake.Challenge.{CanChallenge}
use multicast_bridge.Handshake.Encrypted.{
  CanRegister, after_response, attempted, register-encrypted,
}
use multicast_bridge.Receiver.Register.{
  Attempt, Registration, returned, register_with_sender, auth_response, session_key_of,
}
use multicast_bridge.Receiver.Register.Outcome.{IsUsable, register_with_sender-IsUsable}
use multicast_bridge.Receiver.Reconnect.{retry_registration, not_dialled, tried}
use multicast_bridge.Receiver.Reconnect.Backoff.{retry_registration-wait}
use multicast_bridge.Receiver.Register.{no_more_attempts}
use multicast_bridge.Handshake.Attempting.{undisturbed}
use multicast_bridge.Sender.{Moment}
use multicast_bridge.Crypto.Gcm.{IsAead}
use multicast_bridge.Data.Session.Worker.{Written, sent, start_worker}
use multicast_bridge.Data.Session.Worker.Run.{Taken, packet, closed, run_worker}
use multicast_bridge.Data.Session.Worker.RunSizes.{TakenAtMost}
use multicast_bridge.Fec.Codec.{Codec, IsCodec}
use multicast_bridge.Sender.Size.{max_payload_size, link_mtu}
use multicast_bridge.Sender.Mtu.{FitsLink, sealed, run_worker-FitsLink}
use multicast_bridge.Tests.Sums.{sums, sums-IsCodec}
use multicast_bridge.Tests.Cipher.{toy, toy-IsAead, sevens, sevens-IsRandom}
use multicast_bridge.Tests.Sender.{
  toy_net, toy_ciphers, secret_send, secret_recv, moment, fresh, hello,
}

abbrev lost : ℕ → Attempt
lost i = undisturbed (some (2 ∷ 0 ∷ 3 ∷ 0 ∷ 4 ∷ 6 ∷ [])) (pos 1) (pos 2) none

register_with_sender-IsUsable_example :
    (length (register_with_sender toy_ciphers.pbkdf2 toy_ciphers.hmac secret_recv lost [] []).0 ≤ 6)
    × ((r : Registration)
        → (register_with_sender toy_ciphers.pbkdf2 toy_ciphers.hmac secret_recv lost [] []).1 ≡ ok r
        → IsUsable toy_ciphers.pbkdf2 toy_ciphers.hmac secret_recv r)
register_with_sender-IsUsable_example =
    register_with_sender-IsUsable toy_ciphers.pbkdf2 toy_ciphers.hmac secret_recv lost [] []

abbrev parameters : Registration
parameters = record { k = 4; n = 6; key = [] }

retry_registration-wait_example :
    retry_registration (not_dialled ∷ tried (err no_more_attempts) ∷ tried (ok parameters) ∷ [])
    ≡ (1 * 1_000_000_000 ∷ 2 * 1_000_000_000 ∷ 4 * 1_000_000_000 ∷ [], some parameters)
retry_registration-wait_example =
    retry_registration-wait (not_dialled ∷ tried (err no_more_attempts) ∷ []) [] parameters
      (tt, (tt, tt))

can_challenge :
    CanChallenge toy_net toy_ciphers secret_send secret_recv
      (text "0.1.0-draft")
      (text "10.0.0.9")
      906_000
      fresh
      (replicate 32 7)
      (moment 1_000)
unfolding multicast_bridge.Data.Session.new_session_manager
    multicast_bridge.Data.Session.get_session_by_control_addr multicast_bridge.Common.Assoc.lookup
    multicast_bridge.Sender.Handler.expire multicast_bridge.Sender.Handler.pending_count
can_challenge = record {
  encrypts = refl;
  unknown = refl;
  rested = refl;
  none_pending = refl;
  drawn = refl;
}

can_register :
    CanRegister toy_net toy_ciphers secret_send secret_recv
      (text "0.1.0-draft")
      (text "10.0.0.9")
      906_000
      fresh
      (replicate 32 7)
      (moment 1_000)
      (moment 2_000)
      (pos 3)
      (pos 4)
      905_101
      toy
unfolding multicast_bridge.Data.Session.new_session_manager multicast_bridge.Common.Assoc.lookup
    multicast_bridge.Handshake.Challenge.entry session_key_of multicast_bridge.Crypto.derive_key
    multicast_bridge.Crypto.new_aead
can_register = record {
  same_encryption = refl;
  short_version = omega arith;
  short_ip_addr = omega arith;
  challenge = can_challenge;
  rand_a_size = refl;
  hmac_size = λ k message. length-replicate 32 (length k + length message);
  in_time = refl;
  resolved = refl;
  has_room = record { running = refl; new_addr = refl; room = omega arith };
  cipher = refl;
  t1_fits = (omega arith, omega arith);
  t2_fits = (omega arith, omega arith);
  t3_fits = (omega arith, omega arith);
  t4_fits = (omega arith, omega arith);
  n_fits = omega arith;
}

register-encrypted_example :
    (attempted toy_net toy_ciphers secret_send secret_recv
        (text "0.1.0-draft")
        (text "10.0.0.9")
        906_000
        fresh
        (replicate 32 7)
        (moment 1_000)
        (moment 2_000)
        (pos 3)
        (pos 4)
      ≡ (
        hello
            ∷ auth_response toy_ciphers.pbkdf2 toy_ciphers.hmac secret_recv
                (replicate 32 7)
                (undisturbed none (pos 3) (pos 4) none)
            ∷ [],
        returned (ok (record { k = 8; n = 10; key = replicate 32 38 })),
      ))
    × (lookup 905_101
          (after_response toy_net toy_ciphers secret_send secret_recv
            (text "0.1.0-draft")
            (text "10.0.0.9")
            906_000
            fresh
            (replicate 32 7)
            (moment 1_000)
            (moment 2_000)
            (pos 3)
            (pos 4)).0.manager.sessions
        ≡ some (made 905_101 (some 906_000) 100 (replicate 32 38) 2_000 (some toy)))
unfolding session_key_of multicast_bridge.Crypto.derive_key auth_response
register-encrypted_example =
    register-encrypted toy_net toy_ciphers secret_send secret_recv (text "0.1.0-draft")
      (text "10.0.0.9") 906_000 fresh (replicate 32 7) (moment 1_000) (moment 2_000) (pos 3) (pos 4)
      905_101 toy can_register

abbrev streaming : SessionManager Aead
streaming = record {
  sessions = [];
  max_sessions = 1;
  cancelled = false;
  fec_enabled = true;
  fec_k = 2;
  fec_n = 3;
  fec_encoder = some sums;
  encryption_enabled = true;
  stopped = [];
  notes = [];
}

streaming_codec : (c : Codec) → some sums ≡ some c → IsCodec c 2 1
streaming_codec c e = subst (λ x. IsCodec x 2 1) (some_codec sums c e) sums-IsCodec
  where
    some_codec : (a b : Codec) → some a ≡ some b → a ≡ b
    some_codec a b h = cc

streaming_aead : (a : Aead) → some toy ≡ some a → IsAead a
streaming_aead a e = subst IsAead (some_aead toy a e) toy-IsAead
  where
    some_aead : (x y : Aead) → some x ≡ some y → x ≡ y
    some_aead x y h = cc

abbrev streamed : Session Aead
streamed = made 905_101 (some 906_000) 100 (replicate 32 38) 2_000 (some toy)

abbrev numbered : ℕ → ℤ
numbered seq = pos seq

always : List ℕ → Written
always bytes = sent

abbrev run : List Taken
run = packet (1 ∷ 2 ∷ []) ∷ packet (3 ∷ []) ∷ packet (4 ∷ []) ∷ closed false ∷ []

short_run : TakenAtMost (max_payload_size secret_send) run
unfolding max_payload_size link_mtu
short_run = (omega arith, (omega arith, (omega arith, tt)))

run_worker-FitsLink_example :
    All
      (FitsLink secret_send)
      (run_worker
        (sealed (λ seq. sevens))
        numbered
        always
        streaming
        numbered
        streamed
        run
        (start_worker 0)).datagrams
run_worker-FitsLink_example =
    run_worker-FitsLink secret_send (λ seq. sevens) (λ seq. sevens-IsRandom) numbered always
      streaming numbered streamed refl streaming_codec streaming_aead 0 run short_run
