-- ===== src/Data/Header.antt =====
-- internal/data/header.go: the 17-byte encapsulation header.
pub mod RoundTrip
use multicast_bridge.Common.{
  ℕ, ◌+◌, ◌*◌, ◌<◌, ◌^◌, ◌≡◌, refl, if◌then◌else◌, ltb, List, length, get_or, set,
}
use multicast_bridge.Common.Int.{ℤ, IsI64, to_u64, to_i64}
use multicast_bridge.Common.Bytes.{make, slice, copy_at, put_uint, get_uint, IsByte}
use multicast_bridge.Common.Results.{Result, ok, err}

abbrev pub major_version : ℕ
major_version = 0

abbrev pub minor_version : ℕ
minor_version = 8

-- The major version in the upper four bits, the minor one in the lower.
abbrev pub current_header_version : ℕ
current_header_version = major_version * 16 + minor_version

abbrev pub header_size : ℕ
header_size = 17

pub record EncapsulatedHeader : Type 0 where
  pub version : ℕ
  pub seq_num : ℕ
  pub timestamp : ℤ
  pub payload_len : ℕ
  pub fec_info : ℕ

-- The ranges of the Go field types: uint8, uint32, int64, uint16, uint16.
pub record IsHeader (h : EncapsulatedHeader) : Type 0 where
  pub version_fits : h.version < 2 ^ 8
  pub seq_num_fits : h.seq_num < 2 ^ 32
  pub timestamp_fits : IsI64 h.timestamp
  pub payload_len_fits : h.payload_len < 2 ^ 16
  pub fec_info_fits : h.fec_info < 2 ^ 16

pub data HeaderError : Type 0 where
  buffer_too_short : ℕ → HeaderError

unfoldable pub serialize : EncapsulatedHeader → List ℕ
serialize h =
    let buf = make header_size in
    let versioned = set buf 0 h.version in
    let numbered = copy_at versioned 1 (put_uint 4 h.seq_num) in
    let stamped = copy_at numbered 5 (put_uint 8 (to_u64 h.timestamp)) in
    let sized = copy_at stamped 13 (put_uint 2 h.payload_len) in
    copy_at sized 15 (put_uint 2 h.fec_info)

-- The field of each byte range; it is read from a buffer of 17 bytes at least.
abbrev pub read_header : List ℕ → EncapsulatedHeader
read_header buf = record {
  version = get_or buf 0 0;
  seq_num = get_uint (slice buf 1 5);
  timestamp = to_i64 (get_uint (slice buf 5 13));
  payload_len = get_uint (slice buf 13 15);
  fec_info = get_uint (slice buf 15 17);
}

unfoldable pub deserialize_header : List ℕ → Result HeaderError EncapsulatedHeader
deserialize_header buf =
    if ltb (length buf) header_size
    then err (buffer_too_short (length buf))
    else ok (read_header buf)
