-- ===== src/Receiver/Register.antt =====
-- cmd/recv.go: `registerWithSender`, at most three attempts to register with the sender.
--
-- An attempt brings what the network, the clock and the end of the context give it. Each outcome comes with the
-- datagrams that were written. The warning of a clock drift is left out, since it changes nothing.
pub mod Outcome
use multicast_bridge.Common.{
  ℕ, zero, suc, ◌+◌, ◌%◌, ◌^◌, ◌==◌, if◌then◌else◌, ltb, Bool, true, false, not, ◌&&◌, List, [],
  ◌∷◌, ◌++◌, Option, none, some,
}
use multicast_bridge.Common.Int.{ℤ, to_u64}
use multicast_bridge.Common.Results.{Result, ok, err}
use multicast_bridge.Config.{RecvConfig}
use multicast_bridge.Control.{
  Packet, parse_packet, build_packet, type_register, type_register_ack, type_auth_challenge,
  type_auth_response, type_auth_result, status_success,
}
use multicast_bridge.Control.Payload.{
  Ack, Challenge, AuthResult, encode_register_payload, decode_register_ack_payload,
  decode_auth_challenge_payload, encode_auth_response_payload, decode_auth_result_payload,
}
use multicast_bridge.Crypto.{derive_key, compute_hmac}

-- `ended` and `ended_waiting` tell whether the context is done at the top and in the wait after a
-- write that failed; a read that fails is `none`.
pub record Attempt : Type 0 where
  pub ended : Bool
  pub written : Bool
  pub ended_waiting : Bool
  pub response : Option (List ℕ)
  pub t2 : ℤ
  pub t3 : ℤ
  pub result : Option (List ℕ)

pub record Registration : Type 0 where
  pub k : ℕ
  pub n : ℕ
  pub key : List ℕ

pub data RegisterError : Type 0 where
  context_done invalid_fec_parameter authentication_failed : RegisterError
  registration_rejected no_more_attempts : RegisterError

-- Whether an attempt ends the loop.
pub data Turn : Type 0 where
  returned : Result RegisterError Registration → Turn
  retry : Turn

-- What an attempt writes after the REGISTER packet, and how it ends.
abbrev pub Attempted : Type 0
Attempted = List (List ℕ) × Turn

abbrev pub give_up : Attempted
give_up = ([], retry)

abbrev pub accepted : ℕ → ℕ → List ℕ → RegisterError → ℕ → Turn
accepted k n key denied status =
    if status == status_success
    then (if ltb 16 n
        then returned (err invalid_fec_parameter)
        else returned (ok (record { k = k; n = n; key = key })))
    else returned (err denied)

abbrev pub on_auth_result : {E : Type 0} → List ℕ → Result E AuthResult → Turn
on_auth_result key (err e) = retry
on_auth_result key (ok r) = accepted r.k r.n key authentication_failed r.status

abbrev pub on_result_packet : {E : Type 0} → List ℕ → Result E Packet → Turn
on_result_packet key (err e) = retry
on_result_packet key (ok pkt) =
    if pkt.kind == type_auth_result
    then on_auth_result key (decode_auth_result_payload pkt.payload)
    else retry

abbrev pub await_result : List ℕ → Option (List ℕ) → Turn
await_result key none = retry
await_result key (some bytes) = on_result_packet key (parse_packet bytes)

abbrev pub on_register_ack : {E : Type 0} → Result E Ack → Turn
on_register_ack (err e) = retry
on_register_ack (ok a) = accepted a.k a.n [] registration_rejected a.status

abbrev pub Registered : Type 0
Registered = List (List ℕ) × Result RegisterError Registration

abbrev pub stop_or : Attempted → Registered → Registered
stop_or (sent, returned r) rest = (sent, r)
stop_or (sent, retry) rest = (sent ++ rest.0, rest.1)

module _ (pbkdf2 : List ℕ → List ℕ → ℤ → ℕ → List ℕ) (hmac : List ℕ → List ℕ → List ℕ)
    (cfg : RecvConfig) where
  unfoldable pub session_key_of : List ℕ → List ℕ
  session_key_of rand_a =
      derive_key pbkdf2 cfg.encryption.passphrase rand_a cfg.encryption.iterations

  -- The AUTH_RESPONSE to a challenge.
  unfoldable pub auth_response : List ℕ → Attempt → List ℕ
  auth_response rand_a a =
      build_packet type_auth_response
        (encode_auth_response_payload (compute_hmac hmac rand_a (session_key_of rand_a)) a.t2 a.t3)

  abbrev pub on_challenge : {E : Type 0} → Attempt → Result E Challenge → Attempted
  on_challenge a (err e) = give_up
  on_challenge a (ok c) =
      (auth_response c.rand_a a ∷ [], await_result (session_key_of c.rand_a) a.result)

  abbrev pub on_response : {E : Type 0} → Attempt → Result E Packet → Attempted
  on_response a (err e) = give_up
  on_response a (ok pkt) =
      if (pkt.kind == type_auth_challenge) && cfg.encryption.enabled
      then on_challenge a (decode_auth_challenge_payload pkt.payload)
      else if (pkt.kind == type_register_ack) && not cfg.encryption.enabled
      then ([], on_register_ack (decode_register_ack_payload pkt.payload))
      else give_up

  abbrev pub await_response : Attempt → Option (List ℕ) → Attempted
  await_response a none = give_up
  await_response a (some bytes) = on_response a (parse_packet bytes)

  unfoldable pub register_packet : List ℕ → List ℕ → List ℕ
  register_packet version ip_addr =
      build_packet type_register
        (encode_register_payload (to_u64 cfg.sender.data_port % 2 ^ 16) version ip_addr)

  unfoldable pub attempt : List ℕ → Attempt → Attempted
  attempt packet a =
      if a.ended
      then ([], returned (err context_done))
      else if not a.written
      then ([], (if a.ended_waiting then returned (err context_done) else retry))
      else let (sent, turn) = await_response a a.response in (packet ∷ sent, turn)

  -- `left` more attempts, of which the first is number `i`.
  unfoldable pub attempts_from : List ℕ → (ℕ → Attempt) → ℕ → ℕ → Registered
  attempts_from packet tries zero i = ([], err no_more_attempts)
  attempts_from packet tries (suc left) i =
      stop_or (attempt packet (tries i)) (attempts_from packet tries left (suc i))

  unfoldable pub register_with_sender : (ℕ → Attempt) → List ℕ → List ℕ → Registered
  register_with_sender tries version ip_addr =
      attempts_from (register_packet version ip_addr) tries 3 1
