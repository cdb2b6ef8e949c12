-- ===== src/Sender/Handler.antt =====
-- cmd/send.go: `handleControlPackets`, the cases of REGISTER and AUTH_RESPONSE.
--
-- The warning of a clock drift is left out, since it changes nothing.
use multicast_bridge.Common.{
  ℕ, ◌+◌, ◌-◌, ◌*◌, ◌%◌, ◌^◌, ◌==◌, if◌then◌else◌, ltb, leb, Bool, false, not, ◌&&◌, List, [], ◌∷◌,
  Option, none, some,
}
use multicast_bridge.Common.Int.{ℤ, pos, to_u64}
use multicast_bridge.Common.Text.{text, same_text}
use multicast_bridge.Common.Results.{Result, ok, err}
use multicast_bridge.Common.Assoc.{lookup, insert, delete}
use multicast_bridge.Config.{SendConfig}
use multicast_bridge.Config.Checks.{is_empty}
use multicast_bridge.Control.{
  build_packet, type_register_ack, type_auth_challenge, type_auth_result, status_success,
  status_denied,
}
use multicast_bridge.Control.Payload.{
  Register, Response, encode_register_ack_payload, encode_auth_challenge_payload,
  encode_auth_result_payload,
}
use multicast_bridge.Crypto.{Aead, CryptoError, derive_key, generate_random_bytes, verify_hmac}
use multicast_bridge.Data.Session.{
  Session, SessionManager, add_session, get_session_by_control_addr,
  update_last_active_by_control_addr,
}
use multicast_bridge.Sender.{Network, Ciphers, Moment, PendingAuth, SenderControl, aead_of}

abbrev pub second : ℕ
second = 1_000_000_000

-- More than one minute old.
abbrev pub is_expired : ℕ → PendingAuth → Bool
is_expired now p = ltb (60 * second) (now - p.created_at)

unfoldable pub expire : ℕ → List (ℕ × PendingAuth) → List (ℕ × PendingAuth)
expire now [] = []
expire now ((addr, p) ∷ rest) =
    if is_expired now p then expire now rest else (addr, p) ∷ expire now rest

unfoldable pub pending_count : ℕ → List (ℕ × PendingAuth) → ℕ
pending_count ip [] = 0
pending_count ip ((addr, p) ∷ rest) =
    if p.control_ip == ip then 1 + pending_count ip rest else pending_count ip rest

-- Less than a second ago.
abbrev pub is_recent : ℕ → Option ℕ → Bool
is_recent now none = false
is_recent now (some last) = ltb (now - last) second

-- The conversion `uint8(z)`.
abbrev pub to_u8 : ℤ → ℕ
to_u8 z = to_u64 z % 2 ^ 8

-- What a handler leaves: the state and the reply.
abbrev pub Handled : Type 0
Handled = SenderControl × Option (List ℕ)

abbrev pub with_manager : SenderControl → SessionManager Aead → SenderControl
with_manager st sm = record st { manager = sm }

abbrev pub without_pending : SenderControl → ℕ → SenderControl
without_pending st raddr = record st { pending_auths = delete raddr st.pending_auths }

abbrev pub status_of : {E A : Type 0} → Result E A → ℕ
status_of (ok a) = status_success
status_of (err e) = status_denied

module _ {B : Type 0} (net : Network) (ciphers : Ciphers B) (cfg : SendConfig) where
  -- The text of the address to stream to: what the receiver declares counts only if it is that of the
  -- connection.
  unfoldable pub target_ip : ℕ → List ℕ → List ℕ
  target_ip raddr ip_addr =
      let source = net.ip_text (net.ip_of raddr) in
      if not (is_empty ip_addr)
        && (not (same_text ip_addr (text "127.0.0.1")) && not (same_text ip_addr (text "0.0.0.0")))
      then (if not (same_text ip_addr source) then source else ip_addr)
      else source

  unfoldable pub session_key : PendingAuth → List ℕ
  session_key p =
      derive_key ciphers.pbkdf2 cfg.encryption.passphrase p.rand_a cfg.encryption.iterations

  -- A packet to the receiver, not encrypted.
  abbrev pub answer : SenderControl → ℕ → List ℕ → Handled
  answer st kind payload = (st, some (build_packet kind payload))

  abbrev pub ack : SenderControl → ℕ → Handled
  ack st status =
      answer st type_register_ack
        (encode_register_ack_payload status (to_u8 cfg.fec.k) (to_u8 cfg.fec.n))

  abbrev pub challenge :
      SenderControl → ℕ → Register → Moment → Result CryptoError (List ℕ) → Handled
  challenge st raddr reg m (err e) = (st, none)
  challenge st raddr reg m (ok rand_a) =
      let p : PendingAuth = record {
        rand_a = rand_a;
        t1 = m.unix;
        data_port = reg.data_port;
        version = reg.version;
        ip_addr = reg.ip_addr;
        created_at = m.made;
        control_ip = net.ip_of raddr;
      } in
      answer (record st { pending_auths = insert raddr p st.pending_auths }) type_auth_challenge
        (encode_auth_challenge_payload rand_a m.unix)

  abbrev pub register_plain :
      SenderControl → ℕ → Moment → Option (Session Aead) → Option ℕ → Handled
  register_plain st raddr m existing none = (st, none)
  register_plain st raddr m (some s) (some target) =
      ack (with_manager st (update_last_active_by_control_addr st.manager raddr m.made))
        status_success
  register_plain st raddr m none (some target) =
      let (sm, result) =
        add_session (aead_of ciphers) st.manager target (some raddr) 100 [] m.made in
      ack (with_manager st sm) (status_of result)

  -- A REGISTER that the rate limit lets pass.
  abbrev pub registered : SenderControl → ℕ → Register → Moment → Handled
  registered st raddr reg m =
      if cfg.encryption.enabled
      then (if leb 1 (pending_count (net.ip_of raddr) st.pending_auths)
          then (st, none)
          else challenge st raddr reg m (generate_random_bytes m.random 32))
      else register_plain st raddr m (get_session_by_control_addr st.manager raddr)
          (net.resolve (target_ip raddr reg.ip_addr) reg.data_port)

  abbrev pub on_register : {E : Type 0} → SenderControl → ℕ → Result E Register → Moment → Handled
  on_register st raddr (err e) m = (st, none)
  on_register st raddr (ok reg) m =
      let ip = net.ip_of raddr in
      if is_recent m.checked (lookup ip st.last_register_time)
      then (st, none)
      else registered (record st { last_register_time = insert ip m.noted st.last_register_time })
          raddr reg m

  abbrev pub auth_result : SenderControl → ℕ → ℤ → ℕ → ℕ → Handled
  auth_result st status t4 k n =
      answer st type_auth_result (encode_auth_result_payload status t4 k n)

  abbrev pub establish : SenderControl → ℕ → PendingAuth → Moment → Option ℕ → Handled
  establish st raddr p m none = (without_pending st raddr, none)
  establish st raddr p m (some target) =
      let (sm, result) =
        add_session (aead_of ciphers) st.manager target (some raddr) 100 (session_key p) m.made in
      auth_result (without_pending (with_manager st sm) raddr) (status_of result) m.unix
        (to_u8 cfg.fec.k) (to_u8 cfg.fec.n)

  abbrev pub responded : SenderControl → ℕ → Response → Moment → Option PendingAuth → Handled
  responded st raddr resp m none = (st, none)
  responded st raddr resp m (some p) =
      if not (verify_hmac ciphers.hmac p.rand_a resp.hmac_val (session_key p))
      then auth_result (without_pending st raddr) status_denied (pos 0) 0 0
      else establish st raddr p m (net.resolve (target_ip raddr p.ip_addr) p.data_port)

  abbrev pub on_auth_response :
      {E : Type 0} → SenderControl → ℕ → Result E Response → Moment → Handled
  on_auth_response st raddr (err e) m = (st, none)
  on_auth_response st raddr (ok resp) m =
      if not cfg.encryption.enabled
      then (st, none)
      else responded st raddr resp m (lookup raddr st.pending_auths)
