-- ===== src/Handshake/Channel.antt =====
-- cmd/send.go and cmd/recv.go: the keep-alives and the LEAVE of a registered receiver, with a key.
use multicast_bridge.Common.{
  ℕ, ◌≡◌, refl, sym, ap, ◌∙◌, if◌then◌else◌, Bool, true, false, not, ◌&&◌, List, [], Option, none,
  some, arith, ◌≤◌,
}
use multicast_bridge.Common.Results.{Result, ok, err}
use multicast_bridge.Config.{SendConfig}
use multicast_bridge.Config.Checks.{is_empty}
use multicast_bridge.Control.{ControlError, build_packet, type_keep_alive, type_leave}
use multicast_bridge.Crypto.{Aead, CryptoError, new_aead, encrypt_gcm, decrypt_gcm}
use multicast_bridge.Crypto.Gcm.{IsAead, IsRandom, decrypt_gcm-encrypt_gcm}
use multicast_bridge.Data.Session.{
  Session, get_session_by_control_addr, update_last_active_by_control_addr,
  remove_session_by_control_addr,
}
use multicast_bridge.Data.Session.Invariant.{AreLive}
use multicast_bridge.Data.Session.Renew.{update-get}
use multicast_bridge.Handshake.Challenge.{parse-build}
use multicast_bridge.Receiver.Reconnect.{write_control_packet, keep_alive_packet, leave_packet}
use multicast_bridge.Sender.{Network, Ciphers, Moment, SenderControl}
use multicast_bridge.Sender.Handler.{Handled}
use multicast_bridge.Sender.Loop.{
  sent_ok, keep_alive_reply, on_packet, admitted, read_packet, cleaned_up, handle_packet,
}

module _ {B : Type 0} (net : Network) (ciphers : Ciphers B) (cfg : SendConfig) (raddr : ℕ)
    (st : SenderControl) (m : Moment) (s : Session Aead) (aead : Aead) where
  -- The session of the address, with a key, and a cipher that does as it is specified.
  pub record IsConnected : Type 0 where
    pub encrypts : cfg.encryption.enabled ≡ true
    pub of_sender : get_session_by_control_addr st.manager raddr ≡ some s
    pub has_key : is_empty s.key ≡ false
    pub cipher : new_aead ciphers.new_cipher ciphers.new_gcm s.key ≡ ok aead
    pub laws : IsAead aead
    pub live : AreLive st.manager.cancelled st.manager.sessions
    pub random : IsRandom m.random

  module _ (is : IsConnected) where
    -- What the receiver writes is decrypted at the sender.
    decrypted :
        (read : ℕ → Option (List ℕ)) (kind : ℕ) (bytes : List ℕ)
        → IsRandom read
        → write_control_packet ciphers.new_cipher ciphers.new_gcm read kind [] s.key ≡ ok bytes
        → decrypt_gcm ciphers.new_cipher ciphers.new_gcm bytes s.key ≡ ok (build_packet kind [])
    unfolding write_control_packet
    decrypted read kind bytes r e =
        (decrypt_gcm-encrypt_gcm ciphers.new_cipher ciphers.new_gcm aead is.laws read r
          (build_packet kind []) s.key bytes is.cipher (sym (when_key _ _ _ is.has_key) ∙ e)).0
      where
        when_key :
            (b : Bool) (x y : Result CryptoError (List ℕ))
            → b ≡ false
            → (if not b then x else y) ≡ x
        when_key true x y f = cc
        when_key false x y f = refl

    admitted_lem :
        (kind : ℕ) (bytes : List ℕ)
        → decrypt_gcm ciphers.new_cipher ciphers.new_gcm bytes s.key ≡ ok (build_packet kind [])
        → admitted net ciphers cfg (some s) bytes ≡ some (build_packet kind [])
    unfolding admitted
    admitted_lem kind bytes e = when_both _ _ _ _ is.encrypts is.has_key ∙ ap sent_ok e
      where
        when_both :
            (a b : Bool) (x y : Option (List ℕ))
            → a ≡ true
            → b ≡ false
            → (if a && not b then x else y) ≡ x
        when_both true true x y f g = cc
        when_both true false x y f g = refl
        when_both false b x y f g = cc

    turn_lem :
        (kind : ℕ) (bytes : List ℕ)
        → 1 ≤ kind
        → kind ≤ 8
        → decrypt_gcm ciphers.new_cipher ciphers.new_gcm bytes s.key ≡ ok (build_packet kind [])
        → handle_packet net ciphers cfg st raddr bytes m
          ≡ on_packet net ciphers cfg {E = ControlError}
              (cleaned_up net ciphers cfg m st)
              raddr
              (ok (record { kind = kind; payload = [] }))
              m
    unfolding handle_packet
    turn_lem kind bytes low high e =
        let st' = cleaned_up net ciphers cfg m st in
        ap (λ o. read_packet net ciphers cfg st' raddr (admitted net ciphers cfg o bytes) m)
          is.of_sender
        ∙ ap (λ o. read_packet net ciphers cfg st' raddr o m) (admitted_lem kind bytes e)
        ∙ ap (λ r. on_packet net ciphers cfg st' raddr r m)
            (parse-build kind [] low high (omega arith))

    sent : (r : Result CryptoError (List ℕ)) (c : List ℕ) → sent_ok r ≡ some c → r ≡ ok c
    sent (ok x) c e = cc
    sent (err x) c e = cc

    reply_lem :
        (t : Session Aead) (c : List ℕ)
        → is_empty t.key ≡ false
        → keep_alive_reply net ciphers cfg m (some t) ≡ some c
        → encrypt_gcm ciphers.new_cipher ciphers.new_gcm m.random
            (build_packet type_keep_alive [])
            t.key
          ≡ ok c
    reply_lem t c h e = sent _ c (sym (when_on _ _ _ _ _ is.encrypts h) ∙ e)
      where
        when_on :
            (a b : Bool) (x y z : Option (List ℕ))
            → a ≡ true
            → b ≡ false
            → (if a then (if b then x else y) else z) ≡ y
        when_on true true x y z f g = cc
        when_on true false x y z f g = refl
        when_on false b x y z f g = cc

    -- A registered receiver's encrypted keep-alive renews its session at the sender, and the reply, if
    -- one is sent, is decrypted by the receiver to a keep-alive; its encrypted LEAVE removes the
    -- session, and has no reply. AES-GCM does as it is specified, and both random sources fill their buffers.
    pub keep_alive_and_leave :
        (read : ℕ → Option (List ℕ)) (alive leave : List ℕ)
        → IsRandom read
        → keep_alive_packet ciphers.new_cipher ciphers.new_gcm read s.key ≡ ok alive
        → leave_packet ciphers.new_cipher ciphers.new_gcm read s.key ≡ ok leave
        → ((handle_packet net ciphers cfg st raddr alive m).0.manager
            ≡ update_last_active_by_control_addr st.manager raddr m.made)
          × ((c : List ℕ)
              → (handle_packet net ciphers cfg st raddr alive m).1 ≡ some c
              → decrypt_gcm ciphers.new_cipher ciphers.new_gcm c s.key
                ≡ ok (build_packet type_keep_alive []))
          × ((handle_packet net ciphers cfg st raddr leave m).0.manager
              ≡ remove_session_by_control_addr st.manager raddr)
          × ((handle_packet net ciphers cfg st raddr leave m).1 ≡ none)
    unfolding keep_alive_packet leave_packet
    keep_alive_and_leave read alive leave r ea el =
        let on_alive =
          turn_lem type_keep_alive alive (omega arith) (omega arith)
            (decrypted read type_keep_alive alive r ea) in
        let on_leave =
          turn_lem type_leave leave (omega arith) (omega arith)
            (decrypted read type_leave leave r el) in
        let renewed : Session Aead = record s { last_active = m.made } in
        (
          ap (λ (h : Handled). h.0.manager) on_alive,
          (λ c e.
              (decrypt_gcm-encrypt_gcm ciphers.new_cipher ciphers.new_gcm aead is.laws m.random
                is.random (build_packet type_keep_alive []) s.key c is.cipher
                (reply_lem renewed c is.has_key (
                  ap (keep_alive_reply net ciphers cfg m)
                    (sym (update-get raddr st.manager m.made s is.live is.of_sender))
                  ∙ ap (λ (h : Handled). h.1) (sym on_alive)
                  ∙ e))).0),
          ap (λ (h : Handled). h.0.manager) on_leave,
          ap (λ (h : Handled). h.1) on_leave,
        )
