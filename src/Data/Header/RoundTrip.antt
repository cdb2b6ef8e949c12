-- ===== src/Data/Header/RoundTrip.antt =====
-- internal/data/header.go: `Serialize` and `DeserializeHeader`, one after the other.
use multicast_bridge.Common.{
  ℕ, ◌≤◌, ◌<◌, ◌≡◌, refl, ap, ◌∙◌, List, [], ◌∷◌, ◌++◌, length, All, arith,
}
use multicast_bridge.Common.Int.{to_u64, to_i64, to_i64-to_u64, to_u64-to_i64, to_u64-lt}
use multicast_bridge.Common.Bytes.{put_uint, get_uint, IsByte, get_uint-put_uint, two_bytes}
use multicast_bridge.Common.Results.{ok, err}
use multicast_bridge.Data.Header.{
  EncapsulatedHeader, IsHeader, buffer_too_short, read_header, serialize, deserialize_header,
}

pub length-serialize : (h : EncapsulatedHeader) → length (serialize h) ≡ 17
unfolding serialize
length-serialize h = refl

-- A buffer of 17 bytes or more is read, and a shorter one is refused.
pub deserialize_header_long :
    (buf : List ℕ) → 17 ≤ length buf → deserialize_header buf ≡ ok (read_header buf)
unfolding deserialize_header
deserialize_header_long buf h = ground arith

pub deserialize_header_short :
    (buf : List ℕ) → length buf < 17 → deserialize_header buf ≡ err (buffer_too_short (length buf))
unfolding deserialize_header
deserialize_header_short buf h = ground arith

-- A header whose fields fit their Go types is read back from its bytes, whatever follows them.
pub deserialize_header-serialize :
    (h : EncapsulatedHeader) (rest : List ℕ)
    → IsHeader h
    → deserialize_header (serialize h ++ rest) ≡ ok h
unfolding serialize
deserialize_header-serialize h rest v =
    deserialize_header_long (serialize h ++ rest) (omega arith) ∙ λ i. ok (record {
      version = h.version;
      seq_num = get_uint-put_uint 4 h.seq_num v.seq_num_fits i;
      timestamp = read_timestamp i;
      payload_len = get_uint-put_uint 2 h.payload_len v.payload_len_fits i;
      fec_info = get_uint-put_uint 2 h.fec_info v.fec_info_fits i;
    })
  where
    read_timestamp : to_i64 (get_uint (put_uint 8 (to_u64 h.timestamp))) ≡ h.timestamp
    read_timestamp =
        ap to_i64 (get_uint-put_uint 8 (to_u64 h.timestamp) (to_u64-lt h.timestamp))
        ∙ to_i64-to_u64 h.timestamp v.timestamp_fits

-- Four bytes and eight are what is written for the number that they spell.
four_bytes :
    (a b c d : ℕ)
    → All IsByte (a ∷ b ∷ c ∷ d ∷ [])
    → put_uint 4 (get_uint (a ∷ b ∷ c ∷ d ∷ [])) ≡ a ∷ b ∷ c ∷ d ∷ []
four_bytes a b c d h = ground arith

eight_bytes :
    (a b c d e f g h : ℕ)
    → All IsByte (a ∷ b ∷ c ∷ d ∷ e ∷ f ∷ g ∷ h ∷ [])
    → put_uint 8 (get_uint (a ∷ b ∷ c ∷ d ∷ e ∷ f ∷ g ∷ h ∷ []))
      ≡ a ∷ b ∷ c ∷ d ∷ e ∷ f ∷ g ∷ h ∷ []
eight_bytes a b c d e f g h v = ground arith

-- The other way round: 17 bytes that are read as a header are the bytes of that header.
pub serialize-read_header :
    (buf : List ℕ) → length buf ≡ 17 → All IsByte buf → serialize (read_header buf) ≡ buf
unfolding serialize
serialize-read_header
      (b0 ∷ b1 ∷ b2 ∷ b3 ∷ b4 ∷ b5 ∷ b6 ∷ b7 ∷ b8 ∷ b9 ∷ b10 ∷ b11 ∷ b12 ∷ b13 ∷ b14 ∷ b15 ∷ b16
        ∷ [])
      e v =
    λ i. b0 ∷ (seq i ++ (stamp i ++ (size i ++ info i)))
  where
    word : ℕ
    word = get_uint (b5 ∷ b6 ∷ b7 ∷ b8 ∷ b9 ∷ b10 ∷ b11 ∷ b12 ∷ [])

    seq : put_uint 4 (get_uint (b1 ∷ b2 ∷ b3 ∷ b4 ∷ [])) ≡ b1 ∷ b2 ∷ b3 ∷ b4 ∷ []
    seq = four_bytes b1 b2 b3 b4 (omega arith)

    stamp : put_uint 8 (to_u64 (to_i64 word)) ≡ b5 ∷ b6 ∷ b7 ∷ b8 ∷ b9 ∷ b10 ∷ b11 ∷ b12 ∷ []
    stamp =
        ap (put_uint 8) (to_u64-to_i64 word (omega arith))
        ∙ eight_bytes b5 b6 b7 b8 b9 b10 b11 b12 (omega arith)

    size : put_uint 2 (get_uint (b13 ∷ b14 ∷ [])) ≡ b13 ∷ b14 ∷ []
    size = two_bytes b13 b14 _ (omega arith) (omega arith) (omega arith)

    info : put_uint 2 (get_uint (b15 ∷ b16 ∷ [])) ≡ b15 ∷ b16 ∷ []
    info = two_bytes b15 b16 _ (omega arith) (omega arith) (omega arith)
serialize-read_header _ e v = absurd (omega arith)
