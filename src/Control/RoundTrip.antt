-- ===== src/Control/RoundTrip.antt =====
-- internal/control/protocol.go: the REGISTER payload, encoded and decoded.
use multicast_bridge.Common.{
  ℕ, suc, ◌+◌, ◌-◌, ◌/◌, ◌%◌, ◌^◌, ◌<◌, ◌≡◌, ap, ◌∙◌, List, [], ◌∷◌, ◌++◌, length, arith,
  length-append, take-append, drop-append_suc, get_or-append, take-length,
}
use multicast_bridge.Common.Bytes.{
  put_uint, get_uint, get_uint-put_uint, copy_at-append, set-append, copy_at-append_suc,
}
use multicast_bridge.Common.Results.{ok}
use multicast_bridge.Control.Payload.{encode_register_payload, decode_register_payload}

-- The bytes of a REGISTER payload.
abbrev registration : ℕ → List ℕ → List ℕ → List ℕ
registration port version ip =
    put_uint 2 port ++ (length version % 256) ∷ (version ++ (length ip % 256) ∷ ip)

encode_register_payload_lem :
    (port : ℕ) (version ip : List ℕ)
    → encode_register_payload port version ip ≡ registration port version ip
unfolding encode_register_payload
encode_register_payload_lem port version ip =
    rw
      (
        size,
        copy_at-append [] version (suc (length ip)),
        next,
        after,
        set-append version (length ip % 256) (length ip),
      )
      (ap (λ xs. put_uint 2 port ++ (length version % 256) ∷ xs)
        (copy_at-append_suc version (length ip % 256) ip))
  where
    size :
        2 + 1 + length version + 1 + length ip ≡ suc (suc (suc (length version + suc (length ip))))
    size = omega arith

    next : 3 + length version ≡ suc (suc (suc (length version)))
    next = omega arith

    after : suc (suc (suc (length version))) + 1 ≡ suc (suc (suc (suc (length version))))
    after = omega arith

decode_registration :
    (hi lo : ℕ) (v ip : List ℕ)
    → decode_register_payload (hi ∷ lo ∷ length v ∷ (v ++ length ip ∷ ip))
      ≡ ok (record { data_port = get_uint (hi ∷ lo ∷ []); version = v; ip_addr = ip })
unfolding decode_register_payload
decode_registration hi lo v ip =
    rw
      (
        next,
        get_or-append v (length ip) ip 0,
        after,
        v_slice,
        ip_slice,
        take-append v (length ip ∷ ip),
        drop-append_suc v (length ip) ip,
        take-length ip,
      )
      (ground (arith, length-append v (length ip ∷ ip)))
  where
    next : 3 + length v ≡ suc (suc (suc (length v)))
    next = omega arith

    after : suc (suc (suc (length v))) + 1 ≡ suc (suc (suc (suc (length v))))
    after = omega arith

    v_slice : suc (suc (suc (length v))) - 3 ≡ length v
    v_slice = omega arith

    ip_slice :
        suc (suc (suc (suc (length v)))) + length ip - suc (suc (suc (suc (length v)))) ≡ length ip
    ip_slice = omega arith

-- A REGISTER payload is read back if the port is a uint16 and both texts are shorter than 256
-- bytes, as their length bytes need.
pub decode_register_payload-encode :
    (port : ℕ) (version ip : List ℕ)
    → port < 2 ^ 16
    → length version < 256
    → length ip < 256
    → decode_register_payload (encode_register_payload port version ip)
      ≡ ok (record { data_port = port; version = version; ip_addr = ip })
decode_register_payload-encode port version ip hp hv hi =
    rw (encode_register_payload_lem port version ip, short version hv, short ip hi)
      (decode_registration (port / 256 % 256) (port % 256) version ip
        ∙ ap (λ p. ok (record { data_port = p; version = version; ip_addr = ip }))
            (get_uint-put_uint 2 port hp))
  where
    short : (xs : List ℕ) → length xs < 256 → length xs % 256 ≡ length xs
    short xs h = omega arith
