-- ===== src/Control.antt =====
-- internal/control/protocol.go: the control packets and the payloads of the handshake.
pub mod Payload
pub mod Framing
pub mod RoundTrip
pub mod Handshake
use multicast_bridge.Common.{
  ℕ, ◌+◌, ◌^◌, ◌%◌, if◌then◌else◌, ltb, ◌||◌, List, length, get_or, set, drop,
}
use multicast_bridge.Common.Bytes.{make, slice, copy_at, put_uint, get_uint}
use multicast_bridge.Common.Results.{Result, ok, err}

-- Control packet types.
abbrev pub type_register : ℕ
type_register = 0x01

abbrev pub type_register_ack : ℕ
type_register_ack = 0x02

abbrev pub type_keep_alive : ℕ
type_keep_alive = 0x03

abbrev pub type_leave : ℕ
type_leave = 0x04

abbrev pub type_disconnect : ℕ
type_disconnect = 0x05

abbrev pub type_auth_challenge : ℕ
type_auth_challenge = 0x06

abbrev pub type_auth_response : ℕ
type_auth_response = 0x07

abbrev pub type_auth_result : ℕ
type_auth_result = 0x08

abbrev pub status_success : ℕ
status_success = 0x00

abbrev pub status_denied : ℕ
status_denied = 0x01

pub data ControlError : Type 0 where
  packet_too_short invalid_type payload_mismatch packet_too_large : ControlError

-- The field `Type` of the source is `kind` here.
pub record Packet : Type 0 where
  pub kind : ℕ
  pub payload : List ℕ

-- `3 + payloadLen` is computed on uint16.
unfoldable pub parse_packet : List ℕ → Result ControlError Packet
parse_packet bytes =
    if ltb 1024 (length bytes)
    then err packet_too_large
    else if ltb (length bytes) 3
    then err packet_too_short
    else let p_type = get_or bytes 0 0 in
      if ltb p_type type_register || ltb type_auth_result p_type
      then err invalid_type
      else let payload_len = get_uint (slice bytes 1 3) in
        if ltb (length (drop 3 bytes)) payload_len
        then err payload_mismatch
        else ok (record { kind = p_type; payload = slice bytes 3 ((3 + payload_len) % 2 ^ 16) })

-- The length field is uint16(payloadLen).
unfoldable pub build_packet : ℕ → List ℕ → List ℕ
build_packet p_type payload =
    let payload_len = length payload in
    let typed = set (make (3 + payload_len)) 0 p_type in
    let sized = copy_at typed 1 (put_uint 2 (payload_len % 2 ^ 16)) in copy_at sized 3 payload
