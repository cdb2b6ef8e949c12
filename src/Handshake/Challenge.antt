-- ===== src/Handshake/Challenge.antt =====
-- cmd/send.go: how the sender answers the REGISTER of a new receiver, with encryption.
use mathlib.Core.List.{append-nil}
use multicast_bridge.Common.{
  ℕ, ◌+◌, ◌<◌, ◌≤◌, ◌≡◌, refl, sym, ap, ◌∙◌, true, false, List, [], length, length-set,
  length-replicate, none, some, arith, ◌%◌, ◌^◌,
}
use multicast_bridge.Common.Int.{to_u64}
use multicast_bridge.Common.Bytes.{length-copy_at}
use multicast_bridge.Common.Results.{ok}
use multicast_bridge.Common.Assoc.{lookup, insert}
use multicast_bridge.Config.{SendConfig, RecvConfig}
use multicast_bridge.Control.{parse_packet, build_packet, type_register, type_auth_challenge}
use multicast_bridge.Control.Payload.{encode_register_payload, encode_auth_challenge_payload}
use multicast_bridge.Control.Framing.{parse_packet-build_packet}
use multicast_bridge.Control.RoundTrip.{decode_register_payload-encode}
use multicast_bridge.Crypto.{generate_random_bytes}
use multicast_bridge.Data.Session.{get_session_by_control_addr}
use multicast_bridge.Receiver.Register.{register_packet}
use multicast_bridge.Sender.{Network, Ciphers, Moment, PendingAuth, SenderControl}
use multicast_bridge.Sender.Handler.{expire, pending_count, is_recent}
use multicast_bridge.Sender.Loop.{admitted, handle_packet}

-- A packet is parsed back from exactly its bytes.
pub parse-build :
    (kind : ℕ) (payload : List ℕ)
    → 1 ≤ kind
    → kind ≤ 8
    → length payload + 3 ≤ 1024
    → parse_packet (build_packet kind payload) ≡ ok (record { kind = kind; payload = payload })
parse-build kind payload low high size =
    ap parse_packet (sym (append-nil (build_packet kind payload)))
    ∙ parse_packet-build_packet kind payload [] low high (omega arith)

pub length-register :
    (port : ℕ) (version ip_addr : List ℕ)
    → length (encode_register_payload port version ip_addr) ≡ 4 + length version + length ip_addr
unfolding encode_register_payload
length-register port version ip_addr =
    rw (length-copy_at, length-set, length-copy_at, length-set, length-copy_at, length-replicate)
      (omega arith)

module _ {B : Type 0} (net : Network) (ciphers : Ciphers B) (cfg : SendConfig) (recv : RecvConfig)
    (version ip_addr : List ℕ) (raddr : ℕ) where
  abbrev port : ℕ
  port = to_u64 recv.sender.data_port % 2 ^ 16

  -- The entry that the sender keeps for the challenge.
  unfoldable pub entry : List ℕ → Moment → PendingAuth
  entry rand_a m = record {
    rand_a = rand_a;
    t1 = m.unix;
    data_port = to_u64 recv.sender.data_port % 2 ^ 16;
    version = version;
    ip_addr = ip_addr;
    created_at = m.made;
    control_ip = net.ip_of raddr;
  }

  -- The sender after a REGISTER that it has challenged.
  unfoldable pub challenged : SenderControl → List ℕ → Moment → SenderControl
  challenged st rand_a m = record st {
    pending_auths = insert raddr (entry rand_a m) (expire m.cleaned st.pending_auths);
    last_register_time = insert (net.ip_of raddr) m.noted st.last_register_time;
  }

  pub record CanChallenge (st : SenderControl) (rand_a : List ℕ) (m : Moment) : Type 0 where
    pub encrypts : cfg.encryption.enabled ≡ true
    pub unknown : get_session_by_control_addr st.manager raddr ≡ none
    pub rested : is_recent m.checked (lookup (net.ip_of raddr) st.last_register_time) ≡ false
    pub none_pending : pending_count (net.ip_of raddr) (expire m.cleaned st.pending_auths) ≡ 0
    pub drawn : m.random 32 ≡ some rand_a

  pub handle_packet-register :
      (st : SenderControl) (rand_a : List ℕ) (m : Moment)
      → length version < 256
      → length ip_addr < 256
      → CanChallenge st rand_a m
      → handle_packet net ciphers cfg st raddr
          (register_packet ciphers.pbkdf2 ciphers.hmac recv version ip_addr)
          m
        ≡ (
          challenged st rand_a m,
          some (build_packet type_auth_challenge (encode_auth_challenge_payload rand_a m.unix)),
        )
  unfolding handle_packet register_packet admitted challenged entry generate_random_bytes
  handle_packet-register st rand_a m hv hi can =
      let payload = encode_register_payload port version ip_addr in
      let parsed : parse_packet (build_packet type_register payload)
          ≡ ok (record { kind = type_register; payload = payload }) =
        parse-build type_register payload (omega arith) (omega arith)
          (omega (arith, hv, hi, length-register port version ip_addr)) in
      rw
        (
          can.unknown,
          parsed,
          decode_register_payload-encode port version ip_addr (omega arith) hv hi,
          can.rested,
          can.encrypts,
          can.none_pending,
          can.drawn,
        )
        refl
