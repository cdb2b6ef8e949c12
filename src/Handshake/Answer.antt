-- ===== src/Handshake/Answer.antt =====
-- cmd/send.go: how the sender takes the right answer to its challenge.
use multicast_bridge.Common.{
  ℕ, ◌≡◌, refl, ◌∙◌, if◌then◌else◌, Bool, true, false, not, List, [], ◌∷◌, length, none, some,
  arith,
}
use multicast_bridge.Common.Int.{ℤ, IsI64}
use multicast_bridge.Common.Bytes.{length-copy_at}
use multicast_bridge.Common.Results.{ok}
use multicast_bridge.Common.Text.{same_text, same_text_iff}
use multicast_bridge.Common.Assoc.{lookup, insert, delete}
use multicast_bridge.Config.{SendConfig}
use multicast_bridge.Control.{
  parse_packet, build_packet, type_auth_response, type_auth_result, status_success,
}
use multicast_bridge.Control.Payload.{encode_auth_response_payload, encode_auth_result_payload}
use multicast_bridge.Control.Handshake.{decode_auth_response_payload-encode}
use multicast_bridge.Crypto.{Aead, compute_hmac, verify_hmac}
use multicast_bridge.Data.Session.{get_session_by_control_addr, session_aead}
use multicast_bridge.Data.Session.Each.{made}
use multicast_bridge.Data.Session.Enter.{HasRoom, entered, add_session-entered}
use multicast_bridge.Handshake.Challenge.{parse-build}
use multicast_bridge.Sender.{Network, Ciphers, Moment, PendingAuth, SenderControl, aead_of}
use multicast_bridge.Sender.Handler.{expire, is_expired, session_key, to_u8}
use multicast_bridge.Sender.Loop.{admitted, handle_packet}
use multicast_bridge.Sender.Step.{target_ip_lem}

-- A fresh entry survives the next clean-up.
pub lookup-expire :
    (addr now : ℕ) (p : PendingAuth) (entries : List (ℕ × PendingAuth))
    → is_expired now p ≡ false
    → lookup addr (expire now (insert addr p entries)) ≡ some p
unfolding lookup expire insert
lookup-expire addr now p [] e = ground (arith, e)
lookup-expire addr now p ((j, q) ∷ entries) e = ground (arith, e, lookup-expire addr now p entries)

length-response : (mac : List ℕ) (t2 t3 : ℤ) → length (encode_auth_response_payload mac t2 t3) ≡ 48
unfolding encode_auth_response_payload
length-response mac t2 t3 = rw (length-copy_at, length-copy_at, length-copy_at) refl

if_not-true : {A : Type 0} → (b : Bool) (x y : A) → b ≡ true → (if not b then x else y) ≡ y
if_not-true true x y e = refl
if_not-true false x y e = cc

module _ {B : Type 0} (net : Network) (ciphers : Ciphers B) (cfg : SendConfig) (raddr : ℕ) where
  pub record CanAnswer (st : SenderControl) (p : PendingAuth) (m : Moment) (target : ℕ)
      (aead : Aead) : Type 0 where
    pub encrypts : cfg.encryption.enabled ≡ true
    pub unknown : get_session_by_control_addr st.manager raddr ≡ none
    pub pending : lookup raddr (expire m.cleaned st.pending_auths) ≡ some p
    pub resolved : net.resolve (net.ip_text (net.ip_of raddr)) p.data_port ≡ some target
    pub has_room : HasRoom st.manager target
    pub cipher : session_aead (aead_of ciphers) (session_key net ciphers cfg p) ≡ ok (some aead)

  -- The sender with the new session, and without the challenge.
  unfoldable pub joined_by : SenderControl → PendingAuth → Moment → ℕ → Aead → SenderControl
  joined_by st p m target aead = record st {
    manager =
        entered st.manager target
          (made target (some raddr) 100 (session_key net ciphers cfg p) m.made (some aead));
    pending_auths = delete raddr (expire m.cleaned st.pending_auths);
  }

  pub handle_packet-response :
      (st : SenderControl) (p : PendingAuth) (m : Moment) (target : ℕ) (aead : Aead) (t2 t3 : ℤ)
      → IsI64 t2
      → IsI64 t3
      → length (compute_hmac ciphers.hmac p.rand_a (session_key net ciphers cfg p)) ≡ 32
      → CanAnswer st p m target aead
      → handle_packet net ciphers cfg st raddr
          (build_packet type_auth_response (
            encode_auth_response_payload
              (compute_hmac ciphers.hmac p.rand_a (session_key net ciphers cfg p))
              t2
              t3))
          m
        ≡ (
          joined_by st p m target aead,
          some (
              build_packet type_auth_result (
                encode_auth_result_payload status_success m.unix
                  (to_u8 cfg.fec.k)
                  (to_u8 cfg.fec.n))),
        )
  unfolding handle_packet admitted verify_hmac joined_by
  handle_packet-response st p m target aead t2 t3 h2 h3 hm can =
      let mac = compute_hmac ciphers.hmac p.rand_a (session_key net ciphers cfg p) in
      let payload = encode_auth_response_payload mac t2 t3 in
      let parsed : parse_packet (build_packet type_auth_response payload)
          ≡ ok (record { kind = type_auth_response; payload = payload }) =
        parse-build type_auth_response payload (omega arith) (omega arith)
          (omega (arith, length-response mac t2 t3)) in
      let right : same_text mac mac ≡ true = (same_text_iff mac mac).1 refl in
      rw (can.unknown, parsed, decode_auth_response_payload-encode mac t2 t3 hm h2 h3)
        (if_not-true cfg.encryption.enabled _ _ can.encrypts
          ∙ rw
              (
                can.pending,
                right,
                target_ip_lem net ciphers cfg raddr p.ip_addr,
                can.resolved,
                add_session-entered (aead_of ciphers) st.manager target (some raddr) 100
                    (session_key net ciphers cfg p) m.made (some aead) can.has_room can.cipher,
              )
              refl)
