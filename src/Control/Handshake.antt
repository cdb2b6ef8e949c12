-- ===== src/Control/Handshake.antt =====
-- internal/control/protocol.go: the other payloads, encoded and decoded.
use mathlib.Core.List.{append_assoc, append-nil}
use multicast_bridge.Common.{
  ℕ, ◌≡◌, refl, sym, ap, ◌∙◌, List, [], ◌++◌, length, arith, length-append, take_all,
}
use multicast_bridge.Common.Int.{ℤ, IsI64, to_u64, to_i64, to_i64-to_u64, to_u64-lt}
use multicast_bridge.Common.Bytes.{
  put_uint, get_uint, get_uint-put_uint, copy_at, copy_at_front, copy_at_next, slice-append, make,
  slice,
}
use multicast_bridge.Common.Results.{ok}
use multicast_bridge.Control.Payload.{
  encode_register_ack_payload, decode_register_ack_payload, encode_auth_challenge_payload,
  decode_auth_challenge_payload, encode_auth_response_payload, decode_auth_response_payload,
  encode_auth_result_payload, decode_auth_result_payload,
}

abbrev stamp : ℤ → List ℕ
stamp z = put_uint 8 (to_u64 z)

-- A clock reading: any int64 survives.
stamp_lem : (z : ℤ) → IsI64 z → to_i64 (get_uint (stamp z)) ≡ z
stamp_lem z h = ap to_i64 (get_uint-put_uint 8 (to_u64 z) (to_u64-lt z)) ∙ to_i64-to_u64 z h

-- The acknowledgement, with no condition: its three bytes are the fields.
pub decode_register_ack_payload-encode :
    (status k n : ℕ)
    → decode_register_ack_payload (encode_register_ack_payload status k n)
      ≡ ok (record { status = status; k = k; n = n })
unfolding decode_register_ack_payload encode_register_ack_payload
decode_register_ack_payload-encode status k n = refl

-- An AUTH_RESULT payload is read back if its clock reading is an int64.
pub decode_auth_result_payload-encode :
    (status : ℕ) (t4 : ℤ) (k n : ℕ)
    → IsI64 t4
    → decode_auth_result_payload (encode_auth_result_payload status t4 k n)
      ≡ ok (record { status = status; t4 = t4; k = k; n = n })
unfolding decode_auth_result_payload encode_auth_result_payload
decode_auth_result_payload-encode status t4 k n h =
    λ i. ok (record { status = status; t4 = stamp_lem t4 h i; k = k; n = n })

encode_auth_challenge_payload_lem :
    (r : List ℕ) (t1 : ℤ)
    → length r ≡ 32
    → encode_auth_challenge_payload r t1 ≡ r ++ (stamp t1 ++ [])
unfolding encode_auth_challenge_payload
encode_auth_challenge_payload_lem r t1 h =
    ap (λ xs. copy_at (copy_at (make 40) 0 xs) 32 (stamp t1)) (take_all 32 r (omega arith))
    ∙ ap (λ xs. copy_at xs 32 (stamp t1)) (copy_at_front r 40 8 (omega arith))
    ∙ copy_at_next r (stamp t1) 32 8 0 (omega arith) (omega arith)

-- An AUTH_CHALLENGE payload is read back if the challenge has its 32 bytes and the clock reading
-- is an int64.
pub decode_auth_challenge_payload-encode :
    (r : List ℕ) (t1 : ℤ)
    → length r ≡ 32
    → IsI64 t1
    → decode_auth_challenge_payload (encode_auth_challenge_payload r t1)
      ≡ ok (record { rand_a = r; t1 = t1 })
unfolding decode_auth_challenge_payload
decode_auth_challenge_payload-encode r t1 h ht =
    rw
      (
        encode_auth_challenge_payload_lem r t1 h,
        slice-append [] r (stamp t1 ++ []) 0 32 refl (omega arith),
        slice-append r (stamp t1) [] 32 40 (omega arith) (omega arith),
        copy_at_front r 32 0 (omega arith),
        append-nil r,
        stamp_lem t1 ht,
      )
      (ground (arith, length-append r (stamp t1 ++ [])))

encode_auth_response_payload_lem :
    (mac : List ℕ) (t2 t3 : ℤ)
    → length mac ≡ 32
    → encode_auth_response_payload mac t2 t3 ≡ mac ++ (stamp t2 ++ (stamp t3 ++ []))
unfolding encode_auth_response_payload
encode_auth_response_payload_lem mac t2 t3 h =
    ap (λ xs. copy_at (copy_at (copy_at (make 48) 0 xs) 32 (stamp t2)) 40 (stamp t3))
      (take_all 32 mac (omega arith))
    ∙ ap (λ xs. copy_at (copy_at xs 32 (stamp t2)) 40 (stamp t3))
        (copy_at_front mac 48 16 (omega arith))
    ∙ ap (λ xs. copy_at xs 40 (stamp t3))
        (copy_at_next mac (stamp t2) 32 16 8 (omega arith) (omega arith)
          ∙ sym (append_assoc mac (stamp t2) (make 8)))
    ∙ copy_at_next (mac ++ stamp t2) (stamp t3) 40 8 0 (omega (arith, length-append mac (stamp t2)))
        (omega arith)
    ∙ append_assoc mac (stamp t2) (stamp t3 ++ [])

third_field :
    (mac : List ℕ) (t2 t3 : ℤ)
    → length mac ≡ 32
    → slice (mac ++ (stamp t2 ++ (stamp t3 ++ []))) 40 48 ≡ stamp t3
third_field mac t2 t3 h =
    ap (λ xs. slice xs 40 48) (sym (append_assoc mac (stamp t2) (stamp t3 ++ [])))
    ∙ slice-append (mac ++ stamp t2) (stamp t3) [] 40 48
        (omega (arith, length-append mac (stamp t2))) (omega (arith, length-append mac (stamp t2)))

-- An AUTH_RESPONSE payload is read back if the MAC has its 32 bytes and both clock readings are
-- int64s.
pub decode_auth_response_payload-encode :
    (mac : List ℕ) (t2 t3 : ℤ)
    → length mac ≡ 32
    → IsI64 t2
    → IsI64 t3
    → decode_auth_response_payload (encode_auth_response_payload mac t2 t3)
      ≡ ok (record { hmac_val = mac; t2 = t2; t3 = t3 })
unfolding decode_auth_response_payload
decode_auth_response_payload-encode mac t2 t3 h h2 h3 =
    rw
      (
        encode_auth_response_payload_lem mac t2 t3 h,
        third_field mac t2 t3 h,
        slice-append [] mac (stamp t2 ++ (stamp t3 ++ [])) 0 32 refl (omega arith),
        slice-append mac (stamp t2) (stamp t3 ++ []) 32 40 (omega arith) (omega arith),
        copy_at_front mac 32 0 (omega arith),
        append-nil mac,
        stamp_lem t2 h2,
        stamp_lem t3 h3,
      )
      (ground (arith, length-append mac (stamp t2 ++ (stamp t3 ++ []))))
