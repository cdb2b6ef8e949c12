-- ===== src/Control/Payload.antt =====
-- internal/control/protocol.go: the encoders and decoders of the payloads.
use multicast_bridge.Common.{
  ℕ, ◌+◌, ◌^◌, ◌%◌, if◌then◌else◌, ltb, leb, List, [], ◌∷◌, length, get_or, set, take,
}
use multicast_bridge.Common.Int.{ℤ, to_u64, to_i64}
use multicast_bridge.Common.Bytes.{make, slice, copy_at, put_uint, get_uint}
use multicast_bridge.Common.Results.{Result, ok, err}
use multicast_bridge.Control.{ControlError, packet_too_short, payload_mismatch}

pub record Register : Type 0 where
  pub data_port : ℕ
  pub version : List ℕ
  pub ip_addr : List ℕ

-- The lengths of the texts are written as uint8.
unfoldable pub encode_register_payload : ℕ → List ℕ → List ℕ → List ℕ
encode_register_payload data_port version ip_addr =
    let buf = make (2 + 1 + length version + 1 + length ip_addr) in
    let ported = copy_at buf 0 (put_uint 2 data_port) in
    let v_sized = set ported 2 (length version % 2 ^ 8) in
    let versioned = copy_at v_sized 3 version in
    let idx = 3 + length version in
    let ip_sized = set versioned idx (length ip_addr % 2 ^ 8) in copy_at ip_sized (idx + 1) ip_addr

unfoldable pub decode_register_payload : List ℕ → Result ControlError Register
decode_register_payload payload =
    if ltb (length payload) 4
    then err packet_too_short
    else let v_len = get_or payload 2 0 in
      if ltb (length payload) (3 + v_len + 1)
      then err payload_mismatch
      else let idx = 3 + v_len in
        let ip_len = get_or payload idx 0 in
        if ltb (length payload) (idx + 1 + ip_len)
        then err payload_mismatch
        else ok (record {
          data_port = get_uint (slice payload 0 2);
          version = slice payload 3 (3 + v_len);
          ip_addr = slice payload (idx + 1) (idx + 1 + ip_len);
        })

pub record Ack : Type 0 where
  pub status : ℕ
  pub k : ℕ
  pub n : ℕ

unfoldable pub encode_register_ack_payload : ℕ → ℕ → ℕ → List ℕ
encode_register_ack_payload status k n = status ∷ k ∷ n ∷ []

-- An acknowledgement of one or two bytes has a status only.
unfoldable pub decode_register_ack_payload : List ℕ → Result ControlError Ack
decode_register_ack_payload payload =
    if ltb (length payload) 1
    then err packet_too_short
    else if leb 3 (length payload)
    then ok (record { status = get_or payload 0 0; k = get_or payload 1 0; n = get_or payload 2 0 })
    else ok (record { status = get_or payload 0 0; k = 0; n = 0 })

pub record Challenge : Type 0 where
  pub rand_a : List ℕ
  pub t1 : ℤ

unfoldable pub encode_auth_challenge_payload : List ℕ → ℤ → List ℕ
encode_auth_challenge_payload rand_a t1 =
    copy_at (copy_at (make 40) 0 (take 32 rand_a)) 32 (put_uint 8 (to_u64 t1))

unfoldable pub decode_auth_challenge_payload : List ℕ → Result ControlError Challenge
decode_auth_challenge_payload payload =
    if ltb (length payload) 40
    then err packet_too_short
    else ok (record {
      rand_a = copy_at (make 32) 0 (slice payload 0 32);
      t1 = to_i64 (get_uint (slice payload 32 40));
    })

pub record Response : Type 0 where
  pub hmac_val : List ℕ
  pub t2 : ℤ
  pub t3 : ℤ

unfoldable pub encode_auth_response_payload : List ℕ → ℤ → ℤ → List ℕ
encode_auth_response_payload hmac_val t2 t3 =
    let signed = copy_at (make 48) 0 (take 32 hmac_val) in
    let received = copy_at signed 32 (put_uint 8 (to_u64 t2)) in
    copy_at received 40 (put_uint 8 (to_u64 t3))

unfoldable pub decode_auth_response_payload : List ℕ → Result ControlError Response
decode_auth_response_payload payload =
    if ltb (length payload) 48
    then err packet_too_short
    else ok (record {
      hmac_val = copy_at (make 32) 0 (slice payload 0 32);
      t2 = to_i64 (get_uint (slice payload 32 40));
      t3 = to_i64 (get_uint (slice payload 40 48));
    })

pub record AuthResult : Type 0 where
  pub status : ℕ
  pub t4 : ℤ
  pub k : ℕ
  pub n : ℕ

unfoldable pub encode_auth_result_payload : ℕ → ℤ → ℕ → ℕ → List ℕ
encode_auth_result_payload status t4 k n =
    let stated = set (make 11) 0 status in
    let stamped = copy_at stated 1 (put_uint 8 (to_u64 t4)) in set (set stamped 9 k) 10 n

unfoldable pub decode_auth_result_payload : List ℕ → Result ControlError AuthResult
decode_auth_result_payload payload =
    if ltb (length payload) 11
    then err packet_too_short
    else ok (record {
      status = get_or payload 0 0;
      t4 = to_i64 (get_uint (slice payload 1 9));
      k = get_or payload 9 0;
      n = get_or payload 10 0;
    })
