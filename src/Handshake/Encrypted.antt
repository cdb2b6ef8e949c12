-- ===== src/Handshake/Encrypted.antt =====
-- cmd/send.go and cmd/recv.go: the registration of a receiver with encryption, both ends together.
use multicast_bridge.Common.{
  ℕ, ◌<◌, ◌≤◌, ◌≡◌, sym, ap, ◌∙◌, false, List, [], ◌∷◌, length, none, some,
}
use multicast_bridge.Common.Int.{ℤ, IsI64}
use multicast_bridge.Common.Results.{ok}
use multicast_bridge.Common.Assoc.{lookup}
use multicast_bridge.Config.{SendConfig, RecvConfig, EncryptionConfig}
use multicast_bridge.Control.{
  build_packet, type_auth_response, type_auth_challenge, type_auth_result, status_success,
}
use multicast_bridge.Control.Payload.{
  encode_auth_response_payload, encode_auth_challenge_payload, encode_auth_result_payload,
}
use multicast_bridge.Crypto.{Aead, derive_key, compute_hmac}
use multicast_bridge.Data.Session.{Session, session_aead}
use multicast_bridge.Data.Session.Each.{made}
use multicast_bridge.Data.Session.Enter.{HasRoom, lookup-entered}
use multicast_bridge.Handshake.Challenge.{CanChallenge, entry, challenged, handle_packet-register}
use multicast_bridge.Handshake.Answer.{CanAnswer, joined_by, lookup-expire, handle_packet-response}
use multicast_bridge.Handshake.Attempting.{undisturbed, attempt-encrypted}
use multicast_bridge.Receiver.Register.{
  Attempted, returned, session_key_of, auth_response, register_packet, attempt,
}
use multicast_bridge.Sender.{Network, Ciphers, Moment, PendingAuth, SenderControl, aead_of}
use multicast_bridge.Sender.Handler.{Handled, is_expired, session_key, to_u8}
use multicast_bridge.Sender.Loop.{handle_packet}

module _ {B : Type 0} (net : Network) (ciphers : Ciphers B) (send : SendConfig) (recv : RecvConfig)
    (version ip_addr : List ℕ) (raddr : ℕ) (st : SenderControl) (rand_a : List ℕ) (m1 m2 : Moment)
    (t2 t3 : ℤ) where
  abbrev key : List ℕ
  key = session_key_of ciphers.pbkdf2 ciphers.hmac recv rand_a

  abbrev first_packet : List ℕ
  first_packet = register_packet ciphers.pbkdf2 ciphers.hmac recv version ip_addr

  -- The sender takes the REGISTER packet.
  abbrev pub after_register : Handled
  after_register = handle_packet net ciphers send st raddr first_packet m1

  abbrev second_packet : List ℕ
  second_packet =
      auth_response ciphers.pbkdf2 ciphers.hmac recv rand_a
        (undisturbed after_register.1 t2 t3 none)

  -- The sender takes the answer to its challenge.
  abbrev pub after_response : Handled
  after_response = handle_packet net ciphers send after_register.0 raddr second_packet m2

  -- The receiver reads what the sender wrote.
  abbrev pub attempted : Attempted
  attempted =
      attempt ciphers.pbkdf2 ciphers.hmac recv first_packet
        (undisturbed after_register.1 t2 t3 after_response.1)

  pub record CanRegister (target : ℕ) (aead : Aead) : Type 0 where
    pub same_encryption : send.encryption ≡ recv.encryption
    pub short_version : length version < 256
    pub short_ip_addr : length ip_addr < 256
    pub challenge : CanChallenge net ciphers send recv version ip_addr raddr st rand_a m1
    pub rand_a_size : length rand_a ≡ 32
    pub hmac_size : (k message : List ℕ) → length (ciphers.hmac k message) ≡ 32
    pub in_time :
        is_expired m2.cleaned (entry net ciphers send recv version ip_addr raddr rand_a m1) ≡ false
    pub resolved :
        net.resolve
          (net.ip_text (net.ip_of raddr))
          (entry net ciphers send recv version ip_addr raddr rand_a m1).data_port
        ≡ some target
    pub has_room : HasRoom st.manager target
    pub cipher : session_aead (aead_of ciphers) key ≡ ok (some aead)
    pub t1_fits : IsI64 m1.unix
    pub t2_fits : IsI64 t2
    pub t3_fits : IsI64 t3
    pub t4_fits : IsI64 m2.unix
    pub n_fits : to_u8 send.fec.n ≤ 16

  module _ (target : ℕ) (aead : Aead) (can : CanRegister target aead) where
    abbrev p : PendingAuth
    p = entry net ciphers send recv version ip_addr raddr rand_a m1

    abbrev st1 : SenderControl
    st1 = challenged net ciphers send recv version ip_addr raddr st rand_a m1

    same_key : session_key net ciphers send p ≡ key
    unfolding session_key session_key_of entry
    same_key =
        ap (λ (e : EncryptionConfig). derive_key ciphers.pbkdf2 e.passphrase rand_a e.iterations)
          can.same_encryption

    first_lem : after_register ≡ (
      st1,
      some (build_packet type_auth_challenge (encode_auth_challenge_payload rand_a m1.unix)),
    )
    first_lem =
        handle_packet-register net ciphers send recv version ip_addr raddr st rand_a m1
          can.short_version can.short_ip_addr can.challenge

    can_answer : CanAnswer net ciphers send raddr st1 p m2 target aead
    unfolding challenged
    can_answer = record {
      encrypts = can.challenge.encrypts;
      unknown = can.challenge.unknown;
      pending = lookup-expire raddr m2.cleaned p _ can.in_time;
      resolved = can.resolved;
      has_room = can.has_room;
      cipher = ap (session_aead (aead_of ciphers)) same_key ∙ can.cipher;
    }

    second_lem : after_response ≡ (
      joined_by net ciphers send raddr st1 p m2 target aead,
      some (
          build_packet type_auth_result (
            encode_auth_result_payload status_success m2.unix
              (to_u8 send.fec.k)
              (to_u8 send.fec.n))),
    )
    unfolding auth_response entry compute_hmac
    second_lem =
        ap (λ (h : Handled). handle_packet net ciphers send h.0 raddr second_packet m2) first_lem
        ∙ ap
            (λ k.
              handle_packet net ciphers send st1 raddr
                (build_packet type_auth_response
                  (encode_auth_response_payload (compute_hmac ciphers.hmac rand_a k) t2 t3))
                m2)
            (sym same_key)
        ∙ handle_packet-response net ciphers send raddr st1 p m2 target aead t2 t3 can.t2_fits
            can.t3_fits (can.hmac_size (session_key net ciphers send p) rand_a) can_answer

    -- The session that the sender has made.
    abbrev new_session : Session Aead
    new_session = made target (some raddr) 100 key m2.made (some aead)

    -- A receiver and a sender with the same settings for encryption register each other: with the
    -- sender's answers to its two packets, an undisturbed attempt of the receiver returns the
    -- sender's k and n, and the sender has a session that streams to the receiver's port, with
    -- the same key as the receiver. The address is new to the sender, which has room for it, no
    -- challenge pending and no REGISTER within a second for the IP; the answer comes within a
    -- minute, the clock readings are int64s, and n is at most 16.
    pub register-encrypted :
        (attempted ≡ (
          first_packet ∷ second_packet ∷ [],
          returned (ok (record { k = to_u8 send.fec.k; n = to_u8 send.fec.n; key = key })),
        ))
        × (lookup target after_response.0.manager.sessions ≡ some new_session)
    unfolding auth_response joined_by challenged
    register-encrypted = (
      attempt-encrypted ciphers.pbkdf2 ciphers.hmac recv first_packet rand_a m1.unix t2 t3 m2.unix
          (to_u8 send.fec.k) (to_u8 send.fec.n)
          (ap (λ (e : EncryptionConfig). e.enabled) (sym can.same_encryption)
            ∙ can.challenge.encrypts)
          can.rand_a_size can.t1_fits can.t4_fits can.n_fits
          (undisturbed after_register.1 t2 t3 after_response.1)
          (λ i. undisturbed (first_lem i).1 t2 t3 (second_lem i).1),
      ap (λ (h : Handled). lookup target h.0.manager.sessions) second_lem
          ∙ lookup-entered st.manager target
              (made target (some raddr) 100 (session_key net ciphers send p) m2.made (some aead))
          ∙ ap (λ k. some (made target (some raddr) 100 k m2.made (some aead))) same_key,
    )
