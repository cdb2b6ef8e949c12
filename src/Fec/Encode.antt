-- ===== src/Fec/Encode.antt =====
-- internal/fec/fec.go: `EncodeFECWithEncoder`, which makes the parity packets of a group.
use multicast_bridge.Common.{
  ℕ, ◌-◌, if◌then◌else◌, ltb, List, [], ◌∷◌, ◌++◌, map, length, take, drop, replicate, Option, none,
  some,
}
use multicast_bridge.Common.Bytes.{make, copy_at}
use multicast_bridge.Common.Results.{Result, ok, err}
use multicast_bridge.Fec.Codec.{Codec}

-- `index_panic` is Go's run-time panic at `packets[i]`.
pub data FecError : Type 0 where
  nil_encoder init_failed encode_failed index_panic reconstruct_failed invalid_index
        bad_parity_index bad_data_index :
      FecError

-- `maxLen`, the loop over the packets.
unfoldable pub max_len_from : ℕ → List (List ℕ) → ℕ
max_len_from acc [] = acc
max_len_from acc (p ∷ ps) = max_len_from (if ltb acc (length p) then length p else acc) ps

-- `padded := make([]byte, maxLen); copy(padded, p)`
abbrev pub pad : ℕ → List ℕ → List ℕ
pad max_len p = copy_at (make max_len) 0 p

abbrev encoded_parity : ℕ → ℕ → Option (List (List ℕ)) → Result FecError (List (List ℕ))
encoded_parity k n none = err encode_failed
encoded_parity k n (some padded) = ok (take (n - k) (drop k padded))

unfoldable pub encode_fec_with_encoder :
    Option Codec → ℕ → ℕ → List (List ℕ) → Result FecError (List (List ℕ))
unfolding max_len_from
encode_fec_with_encoder none k n packets = err nil_encoder
encode_fec_with_encoder (some enc) k n packets =
    let max_len = max_len_from 0 packets in
    if ltb (length packets) k
    then err index_panic
    else encoded_parity k n
        (enc.encode (map (pad max_len) (take k packets) ++ replicate (n - k) (make max_len)))

-- `EncodeFEC`, the same with an encoder made at each call; the first argument is
-- `reedsolomon.New(k, n-k)`, of which `none` is the error.
unfoldable pub encode_fec :
    (ℕ → ℕ → Option Codec) → ℕ → ℕ → List (List ℕ) → Result FecError (List (List ℕ))
encode_fec new_codec k n packets = elim (new_codec k (n - k)) [
  | none ↦ err init_failed
  | some enc ↦ encode_fec_with_encoder (some enc) k n packets
]
