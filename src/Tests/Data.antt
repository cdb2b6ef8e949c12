-- ===== src/Tests/Data.antt =====
-- The theorems on the header and the packet queue at concrete inputs.
use multicast_bridge.Common.{ℕ, ◌≡◌, refl, false, List, [], ◌∷◌, ◌++◌, replicate, arith}
use multicast_bridge.Common.Int.{negsuc}
use multicast_bridge.Common.Results.{ok}
use multicast_bridge.Data.Header.{
  EncapsulatedHeader, IsHeader, serialize, read_header, deserialize_header,
}
use multicast_bridge.Data.Header.RoundTrip.{deserialize_header-serialize, serialize-read_header}
use multicast_bridge.Data.Queue.{PacketQueue}
use multicast_bridge.Data.Queue.Steps.{
  Op, put, take_one, shut, IsSound, run, start, run-start-IsSound,
}
use multicast_bridge.Data.Queue.Refinement.{Keeps, burst, burst-Keeps}

abbrev header : EncapsulatedHeader
header = record {
  version = 8;
  seq_num = 4_000_000_000;
  timestamp = negsuc 41;
  payload_len = 2;
  fec_info = 770;
}

header-IsHeader : IsHeader header
header-IsHeader = record {
  version_fits = omega arith;
  seq_num_fits = omega arith;
  timestamp_fits = (omega arith, omega arith);
  payload_len_fits = omega arith;
  fec_info_fits = omega arith;
}

deserialize_header-serialize_example :
    deserialize_header (serialize header ++ (9 ∷ 10 ∷ [])) ≡ ok header
deserialize_header-serialize_example =
    deserialize_header-serialize header (9 ∷ 10 ∷ []) header-IsHeader

abbrev some_bytes : List ℕ
some_bytes = 8 ∷ 0 ∷ 0 ∷ 1 ∷ 2 ∷ replicate 12 255

serialize-read_header_example : serialize (read_header some_bytes) ≡ some_bytes
serialize-read_header_example = serialize-read_header some_bytes refl (omega arith)

abbrev calls : List (Op ℕ)
calls = put 1 ∷ put 2 ∷ put 3 ∷ take_one ∷ put 4 ∷ shut ∷ put 5 ∷ []

run-start-IsSound_example : IsSound (run (start 2) calls)
run-start-IsSound_example = run-start-IsSound 2 calls

abbrev two_held : PacketQueue ℕ
two_held = record { packets = 1 ∷ 2 ∷ []; max_size = 3; closed = false; dropped_count = 4 }

burst-Keeps_example : Keeps two_held (burst (3 ∷ 4 ∷ 5 ∷ []) two_held) (3 ∷ 4 ∷ 5 ∷ [])
burst-Keeps_example =
    burst-Keeps (3 ∷ 4 ∷ 5 ∷ []) two_held
      (record { room = omega arith; bounded = omega arith; opened = refl })
