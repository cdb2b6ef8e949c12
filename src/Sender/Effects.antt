-- ===== src/Sender/Effects.antt =====
-- cmd/send.go: what a control packet can do to the sessions, as a relation.
use multicast_bridge.Common.{ℕ, ◌≡◌, Bool, true, false, not, ◌&&◌, List, [], Option, none, some}
use multicast_bridge.Common.Results.{ok}
use multicast_bridge.Common.Assoc.{lookup}
use multicast_bridge.Config.{SendConfig}
use multicast_bridge.Config.Checks.{is_empty}
use multicast_bridge.Control.{Packet, parse_packet, type_auth_response}
use multicast_bridge.Control.Payload.{Response, decode_auth_response_payload}
use multicast_bridge.Crypto.{Aead, decrypt_gcm}
use multicast_bridge.Data.Session.{
  Session, SessionManager, add_session, get_session_by_control_addr, remove_session_by_control_addr,
  update_last_active_by_control_addr,
}
use multicast_bridge.Sender.{Network, Ciphers, PendingAuth, aead_of}
use multicast_bridge.Sender.Handler.{session_key}

-- Whether there is a session with a key.
abbrev pub has_key : Option (Session Aead) → Bool
has_key none = false
has_key (some s) = not (is_empty s.key)

module _ {B : Type 0} (net : Network) (ciphers : Ciphers B) (cfg : SendConfig) where
  -- With encryption, the packet comes from the address of a session, and if the session has a key, it was
  -- encrypted with it.
  pub record IsAdmitted (sm : SessionManager Aead) (raddr : ℕ) (bytes : List ℕ) : Type 0 where
    pub session : Session Aead
    pub of_sender : get_session_by_control_addr sm raddr ≡ some session
    pub decrypted :
        cfg.encryption.enabled ≡ true
        → is_empty session.key ≡ false
        → (plain : List ℕ) × (decrypt_gcm ciphers.new_cipher ciphers.new_gcm bytes session.key
            ≡ ok plain)

  -- What a datagram says: with encryption, and a key at its address, what it decrypts to under the key,
  -- else its own bytes.
  pub data Says (sm : SessionManager Aead) (raddr : ℕ) (bytes : List ℕ) : List ℕ → Type 0 where
    in_clear :
        (cfg.encryption.enabled && has_key (get_session_by_control_addr sm raddr)) ≡ false
        → Says sm raddr bytes bytes
    under_key :
        (s : Session Aead) (plain : List ℕ)
        → get_session_by_control_addr sm raddr ≡ some s
        → decrypt_gcm ciphers.new_cipher ciphers.new_gcm bytes s.key ≡ ok plain
        → Says sm raddr bytes plain

  -- The datagram carries a control packet.
  pub record Carries (sm : SessionManager Aead) (raddr : ℕ) (bytes : List ℕ) (pkt : Packet)
      : Type 0 where
    pub plain : List ℕ
    pub said : Says sm raddr bytes plain
    pub parsed : parse_packet plain ≡ ok pkt

  -- The datagram is an AUTH_RESPONSE with these contents.
  pub record IsAnswer (sm : SessionManager Aead) (raddr : ℕ) (bytes : List ℕ) (resp : Response)
      : Type 0 where
    pub pkt : Packet
    pub carried : Carries sm raddr bytes pkt
    pub kind : pkt.kind ≡ type_auth_response
    pub decoded : decode_auth_response_payload pkt.payload ≡ ok resp

  -- The key of a new session: with encryption that of a challenge to this address that this datagram
  -- answers, with the code of the challenge's random bytes under that key, else none.
  pub data IsEarned (sm : SessionManager Aead) (pending_auths : List (ℕ × PendingAuth)) (raddr : ℕ)
      (bytes : List ℕ) : List ℕ → Type 0 where
    answered :
        (p : PendingAuth) (resp : Response)
        → lookup raddr pending_auths ≡ some p
        → IsAnswer sm raddr bytes resp
        → resp.hmac_val ≡ ciphers.hmac (session_key net ciphers cfg p) p.rand_a
        → cfg.encryption.enabled ≡ true
        → IsEarned sm pending_auths raddr bytes (session_key net ciphers cfg p)
    in_plain : cfg.encryption.enabled ≡ false → IsEarned sm pending_auths raddr bytes []

  -- A packet leaves the manager alone, renews or removes the session of its address if it is admitted,
  -- or makes a session that streams to a port of the IP it came from, under a key that was earned.
  pub data Effect (sm : SessionManager Aead) (pending_auths : List (ℕ × PendingAuth)) (raddr : ℕ)
      (bytes : List ℕ) : SessionManager Aead → Type 0 where
    idle : Effect sm pending_auths raddr bytes sm
    renewed :
        (now : ℕ)
        → IsAdmitted sm raddr bytes
        → Effect sm pending_auths raddr bytes (update_last_active_by_control_addr sm raddr now)
    left :
        IsAdmitted sm raddr bytes
        → Effect sm pending_auths raddr bytes (remove_session_by_control_addr sm raddr)
    joined :
        (target port now : ℕ) (key : List ℕ)
        → net.resolve (net.ip_text (net.ip_of raddr)) port ≡ some target
        → IsEarned sm pending_auths raddr bytes key
        → Effect sm pending_auths raddr bytes
            (add_session (aead_of ciphers) sm target (some raddr) 100 key now).0
