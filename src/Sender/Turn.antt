-- ===== src/Sender/Turn.antt =====
-- cmd/send.go: each turn of `handleControlPackets` is one of the effects.
use mathlib.Core.Path.{subst}
use multicast_bridge.Common.{
  ℕ, ◌≡◌, refl, sym, ap, ◌∙◌, ◌==◌, if◌then◌else◌, Bool, true, false, not, ◌&&◌, List, Option, none,
  some, inl, inr, Bool-cases, arith,
}
use multicast_bridge.Common.Results.{Result, ok, err}
use multicast_bridge.Config.{SendConfig}
use multicast_bridge.Config.Checks.{is_empty}
use multicast_bridge.Control.{
  Packet, parse_packet, type_register, type_auth_response, type_keep_alive, type_leave,
}
use multicast_bridge.Control.Payload.{decode_register_payload, decode_auth_response_payload}
use multicast_bridge.Crypto.{Aead, CryptoError}
use multicast_bridge.Data.Session.{
  Session, SessionManager, get_session_by_control_addr, by_control_addr, touch_found, remove_found,
  session_of, remove_session_by_control_addr, update_last_active_by_control_addr,
}
use multicast_bridge.Sender.{Network, Ciphers, Moment, SenderControl}
use multicast_bridge.Sender.Handler.{expire}
use multicast_bridge.Sender.Loop.{
  sent_ok, on_keep_alive, on_leave, on_packet, admitted, read_packet, cleaned_up, handle_packet,
}
use multicast_bridge.Sender.Effects.{
  IsAdmitted, has_key, Says, in_clear, under_key, Carries, Effect, idle, renewed, left,
}
use multicast_bridge.Sender.Step.{Does, cond-Does, on_register-Does, on_auth_response-Does}

when_true : {A : Type 0} → (b : Bool) (x y z : A) → b ≡ true → (if b then x else y) ≡ z → x ≡ z
when_true true x y z e f = f
when_true false x y z e f = cc

when_false :
    (b : Bool) (x : Option (List ℕ)) (y z : List ℕ)
    → b ≡ false
    → (if b then x else some y) ≡ some z
    → y ≡ z
when_false true x y z e f = cc
when_false false x y z e f = cc

module _ {B : Type 0} (net : Network) (ciphers : Ciphers B) (cfg : SendConfig) where
  module _ (raddr : ℕ) (bytes : List ℕ) where
    -- Without a session at the address, nothing is renewed or removed.
    no_session :
        (sm : SessionManager Aead) (now : ℕ)
        → get_session_by_control_addr sm raddr ≡ none
        → (update_last_active_by_control_addr sm raddr now ≡ sm)
          × (remove_session_by_control_addr sm raddr ≡ sm)
    unfolding get_session_by_control_addr update_last_active_by_control_addr
        remove_session_by_control_addr
    no_session sm now e = none_found (by_control_addr raddr sm.sessions) e
      where
        none_found :
            (found : Option (ℕ × Session Aead))
            → session_of found ≡ none
            → (touch_found sm now found ≡ sm) × (remove_found sm found ≡ sm)
        none_found none f = (refl, refl)
        none_found (some (key, s)) f = cc

    -- The session at the address, if there is one, has admitted the packet.
    abbrev Admits : SenderControl → Option (Session Aead) → Type 0
    Admits st found =
        (s : Session Aead) → found ≡ some s → IsAdmitted net ciphers cfg st.manager raddr bytes

    on_session :
        (st : SenderControl) (m : Moment) (found : Option (Session Aead))
        → get_session_by_control_addr st.manager raddr ≡ found
        → Admits st found
        → Does net ciphers cfg raddr bytes st (on_keep_alive net ciphers cfg st raddr m)
          × Does net ciphers cfg raddr bytes st (on_leave net ciphers cfg st raddr)
    on_session st m none f a =
        let (p, q) = no_session st.manager m.made f in
        (
          subst (Effect net ciphers cfg st.manager st.pending_auths raddr bytes) (sym p) idle,
          subst (Effect net ciphers cfg st.manager st.pending_auths raddr bytes) (sym q) idle,
        )
    on_session st m (some s) f a = (renewed m.made (a s refl), left (a s refl))

    on_packet-Does :
        {E : Type 0}
        → (st : SenderControl) (r : Result E Packet) (m : Moment)
        → ((pkt : Packet) → r ≡ ok pkt → Carries net ciphers cfg st.manager raddr bytes pkt)
        → Admits st (get_session_by_control_addr st.manager raddr)
        → Does net ciphers cfg raddr bytes st (on_packet net ciphers cfg st raddr r m)
    on_packet-Does st (err e) m c a = idle
    on_packet-Does st (ok pkt) m c a =
        let (alive, leave) =
          on_session st m (get_session_by_control_addr st.manager raddr) refl a in
        cond-Does net ciphers cfg raddr bytes st (pkt.kind == type_register) _ _
          (λ _.
            on_register-Does net ciphers cfg raddr bytes st (decode_register_payload pkt.payload) m)
          (λ _.
            cond-Does net ciphers cfg raddr bytes st (pkt.kind == type_auth_response) _ _
              (λ response.
                on_auth_response-Does net ciphers cfg raddr bytes st
                  (decode_auth_response_payload pkt.payload) m
                  (λ resp d. record {
                    pkt = pkt;
                    carried = c pkt refl;
                    kind = ground (arith, response);
                    decoded = d;
                  }))
              (λ _.
                cond-Does net ciphers cfg raddr bytes st (pkt.kind == type_keep_alive) _ _
                  (λ _. alive)
                  (λ _.
                    cond-Does net ciphers cfg raddr bytes st (pkt.kind == type_leave) _ _
                      (λ _. leave) (λ _. idle))))

    decrypted_with :
        (on empty : Bool) (r : Result CryptoError (List ℕ)) (plain : List ℕ)
        → (if on && not empty then sent_ok r else some bytes) ≡ some plain
        → on ≡ true
        → empty ≡ false
        → (x : List ℕ) × (r ≡ ok x)
    decrypted_with true false (ok x) plain e f g = (x, refl)
    decrypted_with true false (err x) plain e f g = cc
    decrypted_with false empty r plain e f g = cc
    decrypted_with true true r plain e f g = cc

    sent_ok-ok :
        {E : Type 0}
        → (r : Result E (List ℕ)) (plain : List ℕ) → sent_ok r ≡ some plain
        → r ≡ ok plain
    sent_ok-ok (ok x) plain e = cc
    sent_ok-ok (err x) plain e = cc

    admitted-Says :
        (sm : SessionManager Aead) (found : Option (Session Aead)) (plain : List ℕ)
        → get_session_by_control_addr sm raddr ≡ found
        → admitted net ciphers cfg found bytes ≡ some plain
        → Says net ciphers cfg sm raddr bytes plain
    unfolding admitted
    admitted-Says sm none plain f e =
        let same : bytes ≡ plain = cc in
        let closed : (cfg.encryption.enabled && has_key (get_session_by_control_addr sm raddr))
            ≡ false =
          rw f (ground arith) in
        subst (Says net ciphers cfg sm raddr bytes) same (in_clear closed)
    admitted-Says sm (some s) plain f e =
        elim (Bool-cases (cfg.encryption.enabled && not (is_empty s.key))) [
          | inl b ↦ under_key s plain f (sent_ok-ok _ plain (when_true _ _ _ _ b e))
          | inr b ↦
              subst (Says net ciphers cfg sm raddr bytes) (when_false _ _ _ _ b e)
                (in_clear (rw f b))
        ]

    read_packet-Does :
        (st : SenderControl) (m : Moment) (found : Option (Session Aead)) (plain : Option (List ℕ))
        → get_session_by_control_addr st.manager raddr ≡ found
        → admitted net ciphers cfg found bytes ≡ plain
        → Does net ciphers cfg raddr bytes st (read_packet net ciphers cfg st raddr plain m)
    unfolding admitted
    read_packet-Does st m found none f e = idle
    read_packet-Does st m found (some plain) f e =
        on_packet-Does st (parse_packet plain) m
          (λ pkt d. record {
            plain = plain;
            said = admitted-Says st.manager found plain f e;
            parsed = d;
          })
          (λ s h. record {
            session = s;
            of_sender = h;
            decrypted =
                decrypted_with _ _ _ plain
                  (ap (λ o. admitted net ciphers cfg o bytes) (sym h ∙ f) ∙ e);
          })

    -- One turn of the loop leaves the sessions alone, renews or removes the session of the packet's
    -- address, which with encryption and a key must have encrypted the packet, or adds one that streams
    -- to a port of the packet's IP: with encryption only if the packet is an AUTH_RESPONSE that holds the
    -- HMAC of the random bytes of a challenge to this address, not too old, under the derived key, which
    -- becomes the session's key, and without encryption with no key.
    pub handle_packet-Effect :
        (st : SenderControl) (m : Moment)
        → Effect net ciphers cfg st.manager
            (expire m.cleaned st.pending_auths)
            raddr
            bytes
            (handle_packet net ciphers cfg st raddr bytes m).0.manager
    unfolding handle_packet
    handle_packet-Effect st m = read_packet-Does (cleaned_up net ciphers cfg m st) m _ _ refl refl
