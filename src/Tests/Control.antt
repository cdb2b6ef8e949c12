-- ===== src/Tests/Control.antt =====
-- The theorems on the control protocol at concrete inputs.
use multicast_bridge.Common.{◌≡◌, refl, [], ◌∷◌, ◌++◌, replicate, arith}
use multicast_bridge.Common.Int.{pos, negsuc}
use multicast_bridge.Common.Results.{ok}
use multicast_bridge.Control.{Packet, parse_packet, build_packet}
use multicast_bridge.Control.Payload.{
  encode_register_payload, decode_register_payload, encode_auth_challenge_payload,
  decode_auth_challenge_payload, encode_auth_response_payload, decode_auth_response_payload,
  encode_auth_result_payload, decode_auth_result_payload,
}
use multicast_bridge.Control.Framing.{Accepted, parse_packet-build_packet, parse_packet_inv}
use multicast_bridge.Control.RoundTrip.{decode_register_payload-encode}
use multicast_bridge.Control.Handshake.{
  decode_auth_challenge_payload-encode, decode_auth_response_payload-encode,
  decode_auth_result_payload-encode,
}

parse_packet-build_packet_example :
    parse_packet (build_packet 1 (10 ∷ 20 ∷ []) ++ (7 ∷ []))
    ≡ ok (record { kind = 1; payload = 10 ∷ 20 ∷ [] })
parse_packet-build_packet_example =
    parse_packet-build_packet 1 (10 ∷ 20 ∷ []) (7 ∷ []) (omega arith) (omega arith) (omega arith)

abbrev keep_alive : Packet
keep_alive = record { kind = 3; payload = 9 ∷ [] }

parsed : parse_packet (3 ∷ 0 ∷ 1 ∷ 9 ∷ 5 ∷ []) ≡ ok keep_alive
unfolding parse_packet
parsed = refl

parse_packet_inv_example : Accepted (3 ∷ 0 ∷ 1 ∷ 9 ∷ 5 ∷ []) keep_alive
parse_packet_inv_example = parse_packet_inv (3 ∷ 0 ∷ 1 ∷ 9 ∷ 5 ∷ []) keep_alive (omega arith) parsed

decode_register_payload-encode_example :
    decode_register_payload (encode_register_payload 5001 (48 ∷ 46 ∷ 56 ∷ []) (49 ∷ 48 ∷ []))
    ≡ ok (record { data_port = 5001; version = 48 ∷ 46 ∷ 56 ∷ []; ip_addr = 49 ∷ 48 ∷ [] })
decode_register_payload-encode_example =
    decode_register_payload-encode 5001 (48 ∷ 46 ∷ 56 ∷ []) (49 ∷ 48 ∷ []) (omega arith)
      (omega arith) (omega arith)

decode_auth_challenge_payload-encode_example :
    decode_auth_challenge_payload (encode_auth_challenge_payload (replicate 32 7) (pos 1_700))
    ≡ ok (record { rand_a = replicate 32 7; t1 = pos 1_700 })
decode_auth_challenge_payload-encode_example =
    decode_auth_challenge_payload-encode (replicate 32 7) (pos 1_700) refl
      (omega arith, omega arith)

decode_auth_response_payload-encode_example :
    decode_auth_response_payload (encode_auth_response_payload (replicate 32 9) (pos 5) (negsuc 6))
    ≡ ok (record { hmac_val = replicate 32 9; t2 = pos 5; t3 = negsuc 6 })
decode_auth_response_payload-encode_example =
    decode_auth_response_payload-encode (replicate 32 9) (pos 5) (negsuc 6) refl
      (omega arith, omega arith) (omega arith, omega arith)

decode_auth_result_payload-encode_example :
    decode_auth_result_payload (encode_auth_result_payload 0 (negsuc 6) 4 6)
    ≡ ok (record { status = 0; t4 = negsuc 6; k = 4; n = 6 })
decode_auth_result_payload-encode_example =
    decode_auth_result_payload-encode 0 (negsuc 6) 4 6 (omega arith, omega arith)
