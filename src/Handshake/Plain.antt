-- ===== src/Handshake/Plain.antt =====
-- cmd/send.go and cmd/recv.go: the registration of a receiver without encryption, both ends together.
use multicast_bridge.Common.{
  ℕ, ◌<◌, ◌≤◌, ◌≡◌, refl, ap, ◌∙◌, ◌%◌, ◌^◌, if◌then◌else◌, ltb, Bool, true, false, not, List, [],
  ◌∷◌, length, none, some, arith,
}
use multicast_bridge.Common.Int.{ℤ, to_u64}
use multicast_bridge.Common.Results.{ok}
use multicast_bridge.Common.Assoc.{lookup, insert}
use multicast_bridge.Config.{SendConfig, RecvConfig}
use multicast_bridge.Control.{
  parse_packet, build_packet, type_register, type_register_ack, status_success,
}
use multicast_bridge.Control.Payload.{encode_register_payload, encode_register_ack_payload}
use multicast_bridge.Control.RoundTrip.{decode_register_payload-encode}
use multicast_bridge.Control.Handshake.{decode_register_ack_payload-encode}
use multicast_bridge.Crypto.{Aead}
use multicast_bridge.Data.Session.{Session, get_session_by_control_addr}
use multicast_bridge.Data.Session.Each.{made}
use multicast_bridge.Data.Session.Enter.{HasRoom, entered, add_session-entered, lookup-entered}
use multicast_bridge.Handshake.Challenge.{parse-build, length-register}
use multicast_bridge.Handshake.Attempting.{undisturbed}
use multicast_bridge.Receiver.Register.{Attempted, returned, attempt, register_packet}
use multicast_bridge.Sender.{Network, Ciphers, Moment, SenderControl, aead_of}
use multicast_bridge.Sender.Handler.{Handled, is_recent, expire, to_u8}
use multicast_bridge.Sender.Loop.{admitted, handle_packet}
use multicast_bridge.Sender.Step.{target_ip_lem}

if-false : {A : Type 0} → (b : Bool) (x y : A) → b ≡ false → (if b then x else y) ≡ y
if-false true x y e = cc
if-false false x y e = refl

if_not-false : {A : Type 0} → (b : Bool) (x y : A) → b ≡ false → (if not b then x else y) ≡ x
if_not-false true x y e = cc
if_not-false false x y e = refl

module _ {B : Type 0} (net : Network) (ciphers : Ciphers B) (send : SendConfig) (recv : RecvConfig)
    (version ip_addr : List ℕ) (raddr : ℕ) (st : SenderControl) (m : Moment) (t2 t3 : ℤ) where
  abbrev port : ℕ
  port = to_u64 recv.sender.data_port % 2 ^ 16

  abbrev packet : List ℕ
  packet = register_packet ciphers.pbkdf2 ciphers.hmac recv version ip_addr

  -- The sender takes the REGISTER packet.
  abbrev pub after_register : Handled
  after_register = handle_packet net ciphers send st raddr packet m

  -- The receiver reads what the sender wrote.
  abbrev pub attempted : Attempted
  attempted =
      attempt ciphers.pbkdf2 ciphers.hmac recv packet (undisturbed after_register.1 t2 t3 none)

  pub record CanRegister (target : ℕ) : Type 0 where
    pub send_plain : send.encryption.enabled ≡ false
    pub recv_plain : recv.encryption.enabled ≡ false
    pub short_version : length version < 256
    pub short_ip_addr : length ip_addr < 256
    pub unknown : get_session_by_control_addr st.manager raddr ≡ none
    pub rested : is_recent m.checked (lookup (net.ip_of raddr) st.last_register_time) ≡ false
    pub resolved : net.resolve (net.ip_text (net.ip_of raddr)) port ≡ some target
    pub has_room : HasRoom st.manager target
    pub n_fits : to_u8 send.fec.n ≤ 16

  module _ (target : ℕ) (can : CanRegister target) where
    abbrev new_session : Session Aead
    new_session = made target (some raddr) 100 [] m.made none

    -- The sender with the session, and the acknowledgement.
    abbrev acknowledged : Handled
    acknowledged = (
      record st {
        manager = entered st.manager target new_session;
        pending_auths = expire m.cleaned st.pending_auths;
        last_register_time = insert (net.ip_of raddr) m.noted st.last_register_time;
      },
      some (
          build_packet type_register_ack
            (encode_register_ack_payload status_success (to_u8 send.fec.k) (to_u8 send.fec.n))),
    )

    after_register_lem : after_register ≡ acknowledged
    unfolding handle_packet register_packet admitted
    after_register_lem =
        let payload = encode_register_payload port version ip_addr in
        let parsed : parse_packet (build_packet type_register payload)
            ≡ ok (record { kind = type_register; payload = payload }) =
          parse-build type_register payload (omega arith) (omega arith) (
            omega (
              arith,
              can.short_version,
              can.short_ip_addr,
              length-register port version ip_addr,
            )) in
        rw
          (
            can.unknown,
            parsed,
            decode_register_payload-encode port version ip_addr (omega arith) can.short_version
                can.short_ip_addr,
            can.rested,
          )
          (if-false send.encryption.enabled _ _ can.send_plain
            ∙ rw
                (
                  can.unknown,
                  target_ip_lem net ciphers send raddr ip_addr,
                  can.resolved,
                  add_session-entered (aead_of ciphers) st.manager target (some raddr) 100 [] m.made
                      none can.has_room refl,
                )
                refl)

    attempted_lem :
        attempt ciphers.pbkdf2 ciphers.hmac recv packet (undisturbed acknowledged.1 t2 t3 none) ≡ (
          packet ∷ [],
          returned (ok (record { k = to_u8 send.fec.k; n = to_u8 send.fec.n; key = [] })),
        )
    unfolding attempt
    attempted_lem =
        let payload =
          encode_register_ack_payload status_success (to_u8 send.fec.k) (to_u8 send.fec.n) in
        let told : parse_packet (build_packet type_register_ack payload)
            ≡ ok (record { kind = type_register_ack; payload = payload }) =
          parse-build type_register_ack payload (omega arith) (omega arith)
            (unfold encode_register_ack_payload in omega arith) in
        let small : ltb 16 (to_u8 send.fec.n) ≡ false = ground (arith, can.n_fits) in
        rw told (
          ap (λ (x : Attempted). (packet ∷ x.0, x.1))
            (if_not-false recv.encryption.enabled _ _ can.recv_plain)
          ∙ rw
              (
                decode_register_ack_payload-encode status_success (to_u8 send.fec.k)
                    (to_u8 send.fec.n),
                small,
              )
              refl)

    -- A receiver and a sender, both without encryption, register each other: the sender answers the
    -- REGISTER packet of a new address at once, an undisturbed attempt of the receiver returns the
    -- sender's k and n and no key, and the sender has a session without a key that streams to the
    -- receiver's port. The sender has room and no REGISTER within a second for the IP, and n is at
    -- most 16.
    pub register-plain :
        (attempted ≡ (
          packet ∷ [],
          returned (ok (record { k = to_u8 send.fec.k; n = to_u8 send.fec.n; key = [] })),
        ))
        × (lookup target after_register.0.manager.sessions ≡ some new_session)
    register-plain = (
      ap
            (λ (h : Handled).
              attempt ciphers.pbkdf2 ciphers.hmac recv packet (undisturbed h.1 t2 t3 none))
            after_register_lem
          ∙ attempted_lem,
      ap (λ (h : Handled). lookup target h.0.manager.sessions) after_register_lem
          ∙ lookup-entered st.manager target new_session,
    )
