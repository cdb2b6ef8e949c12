-- ===== src/Sender/Step.antt =====
-- cmd/send.go: REGISTER and AUTH_RESPONSE are among the effects of a control packet.
use multicast_bridge.Common.{
  ℕ, ◌≡◌, refl, sym, ap, if◌then◌else◌, leb, Bool, true, false, not, List, [], Option, none, some,
  inl, inr, Bool-cases,
}
use multicast_bridge.Common.Results.{Result, ok, err}
use multicast_bridge.Common.Text.{same_text, same_text_iff}
use multicast_bridge.Common.Assoc.{lookup, insert}
use multicast_bridge.Config.{SendConfig}
use multicast_bridge.Control.Payload.{Register, Response}
use multicast_bridge.Crypto.{Aead, CryptoError, generate_random_bytes, verify_hmac, compute_hmac}
use multicast_bridge.Data.Session.{Session, get_session_by_control_addr}
use multicast_bridge.Sender.{Network, Ciphers, Moment, PendingAuth, SenderControl}
use multicast_bridge.Sender.Handler.{
  Handled, pending_count, target_ip, session_key, challenge, register_plain, registered, is_recent,
  on_register, establish, responded, on_auth_response,
}
use multicast_bridge.Sender.Effects.{IsAnswer, answered, in_plain, Effect, idle, renewed, joined}

chosen :
    (b : Bool) (ip source : List ℕ)
    → (if b then (if not (same_text ip source) then source else ip) else source) ≡ source
chosen false ip source = refl
chosen true ip source = elim (Bool-cases (same_text ip source)) [
  | inl e ↦ rw e ((same_text_iff ip source).0 e)
  | inr e ↦ rw e refl
]

not-true : (b : Bool) → not b ≡ false → b ≡ true
not-true true e = refl
not-true false e = cc

module _ {B : Type 0} (net : Network) (ciphers : Ciphers B) (cfg : SendConfig) where
  -- Whatever the receiver declares, the sender streams to the IP of the connection.
  pub target_ip_lem :
      (raddr : ℕ) (ip_addr : List ℕ)
      → target_ip net ciphers cfg raddr ip_addr ≡ net.ip_text (net.ip_of raddr)
  unfolding target_ip
  target_ip_lem raddr ip_addr = chosen _ ip_addr (net.ip_text (net.ip_of raddr))

  module _ (raddr : ℕ) (bytes : List ℕ) where
    -- What a handler that starts from `st` does to the sessions.
    abbrev pub Does : SenderControl → Handled → Type 0
    Does st h = Effect net ciphers cfg st.manager st.pending_auths raddr bytes h.0.manager

    pub cond-Does :
        (st : SenderControl) (b : Bool) (x y : Handled)
        → (b ≡ true → Does st x)
        → (b ≡ false → Does st y)
        → Does st (if b then x else y)
    cond-Does st true x y p q = p refl
    cond-Does st false x y p q = q refl

    challenge-Does :
        (st : SenderControl) (reg : Register) (m : Moment) (drawn : Result CryptoError (List ℕ))
        → Does st (challenge net ciphers cfg st raddr reg m drawn)
    challenge-Does st reg m (err e) = idle
    challenge-Does st reg m (ok rand_a) = idle

    register_plain-Does :
        (st : SenderControl) (reg : Register) (m : Moment) (existing : Option (Session Aead))
        (target : Option ℕ)
        → cfg.encryption.enabled ≡ false
        → get_session_by_control_addr st.manager raddr ≡ existing
        → net.resolve (net.ip_text (net.ip_of raddr)) reg.data_port ≡ target
        → Does st (register_plain net ciphers cfg st raddr m existing target)
    register_plain-Does st reg m existing none e f g = idle
    register_plain-Does st reg m (some s) (some target) e f g =
        renewed m.made (record { session = s; of_sender = f; decrypted = λ on. cc })
    register_plain-Does st reg m none (some target) e f g =
        joined target reg.data_port m.made [] g (in_plain e)

    registered-Does :
        (st : SenderControl) (reg : Register) (m : Moment)
        → Does st (registered net ciphers cfg st raddr reg m)
    registered-Does st reg m =
        cond-Does st cfg.encryption.enabled _ _
          (λ on.
            cond-Does st (leb 1 (pending_count (net.ip_of raddr) st.pending_auths)) _ _ (λ e. idle)
              (λ e. challenge-Does st reg m (generate_random_bytes m.random 32)))
          (λ off.
            register_plain-Does st reg m _ _ off refl
              (ap (λ ip. net.resolve ip reg.data_port) (sym (target_ip_lem raddr reg.ip_addr))))

    pub on_register-Does :
        {E : Type 0}
        → (st : SenderControl) (reg : Result E Register) (m : Moment)
        → Does st (on_register net ciphers cfg st raddr reg m)
    on_register-Does st (err e) m = idle
    on_register-Does st (ok reg) m =
        cond-Does st (is_recent m.checked (lookup (net.ip_of raddr) st.last_register_time)) _ _
          (λ e. idle)
          (λ e.
            registered-Does
              (record st {
                last_register_time = insert (net.ip_of raddr) m.noted st.last_register_time;
              })
              reg m)

    -- The answer that the handler accepts is the code of the challenge.
    verified :
        (message mac key : List ℕ)
        → verify_hmac ciphers.hmac message mac key ≡ true
        → ciphers.hmac key message ≡ mac
    unfolding verify_hmac compute_hmac
    verified message mac key e = (same_text_iff (ciphers.hmac key message) mac).0 e

    establish-Does :
        (st : SenderControl) (p : PendingAuth) (resp : Response) (m : Moment) (target : Option ℕ)
        → cfg.encryption.enabled ≡ true
        → lookup raddr st.pending_auths ≡ some p
        → IsAnswer net ciphers cfg st.manager raddr bytes resp
        → verify_hmac ciphers.hmac p.rand_a resp.hmac_val (session_key net ciphers cfg p) ≡ true
        → net.resolve (net.ip_text (net.ip_of raddr)) p.data_port ≡ target
        → Does st (establish net ciphers cfg st raddr p m target)
    establish-Does st p resp m none on f c v g = idle
    establish-Does st p resp m (some target) on f c v g =
        joined target p.data_port m.made (session_key net ciphers cfg p) g (
          answered p resp f c
            (sym (verified p.rand_a resp.hmac_val (session_key net ciphers cfg p) v)) on)

    responded-Does :
        (st : SenderControl) (resp : Response) (m : Moment) (found : Option PendingAuth)
        → cfg.encryption.enabled ≡ true
        → lookup raddr st.pending_auths ≡ found
        → IsAnswer net ciphers cfg st.manager raddr bytes resp
        → Does st (responded net ciphers cfg st raddr resp m found)
    responded-Does st resp m none on f c = idle
    responded-Does st resp m (some p) on f c =
        cond-Does st _ _ _ (λ wrong. idle)
          (λ right.
            establish-Does st p resp m _ on f c (not-true _ right)
              (ap (λ ip. net.resolve ip p.data_port) (sym (target_ip_lem raddr p.ip_addr))))

    pub on_auth_response-Does :
        {E : Type 0}
        → (st : SenderControl) (r : Result E Response) (m : Moment)
        → ((resp : Response) → r ≡ ok resp → IsAnswer net ciphers cfg st.manager raddr bytes resp)
        → Does st (on_auth_response net ciphers cfg st raddr r m)
    on_auth_response-Does st (err e) m c = idle
    on_auth_response-Does st (ok resp) m c =
        cond-Does st (not cfg.encryption.enabled) _ _ (λ off. idle)
          (λ on.
            responded-Does st resp m (lookup raddr st.pending_auths) (not-true _ on) refl
              (c resp refl))
