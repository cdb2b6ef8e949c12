-- ===== src/Tests/Fec.antt =====
-- The theorems on forward error correction at concrete inputs, over the codec of Sums.
use mathlib.Core.List.{Perm}
use mathlib.Core.List.Memᴰ
use multicast_bridge.Common.{
  ℕ, ◌+◌, ◌-◌, ◌≤◌, ◌<◌, ◌≡◌, refl, true, false, List, [], ◌∷◌, map, none, some, arith,
}
use multicast_bridge.Common.Assoc.{lookup}
use multicast_bridge.Common.Results.{ok}
use multicast_bridge.Fec.Encode.{pad, encode_fec_with_encoder}
use multicast_bridge.Fec.Parity.{max_len, Parity}
use multicast_bridge.Fec.Manager.{FecManager, new_fec_manager, add_packet, clean_up_timeouts}
use multicast_bridge.Fec.Manager.Receive.{Arrival}
use multicast_bridge.Fec.Manager.Recovery.{deliver, Ready}
use multicast_bridge.Fec.Manager.Late.{late_parity_warns}
use multicast_bridge.Fec.EndToEnd.{any_k_recover}
use multicast_bridge.Tests.Sums.{sums, sums-IsCodec}

abbrev data_packets : List (List ℕ)
data_packets = (1 ∷ 2 ∷ []) ∷ (3 ∷ []) ∷ []

encoded : encode_fec_with_encoder (some sums) 2 3 data_packets ≡ ok ((4 ∷ 2 ∷ []) ∷ [])
unfolding encode_fec_with_encoder
encoded = refl

abbrev manager : FecManager
manager = new_fec_manager (λ k parity. some sums) true 2 3 0

manager-Ready : Ready sums 2 3 manager
unfolding new_fec_manager
manager-Ready = record { enabled = refl; decoder = refl; same_k = refl; same_n = refl }

no_group : lookup 7 manager.groups ≡ none
unfolding new_fec_manager lookup
no_group = refl

-- The parity packet, then the second data packet.
abbrev parity_first : Arrival
parity_first = record { index = 2; packet = 4 ∷ 2 ∷ []; is_fec = true; time = 100 }

abbrev data_second : Arrival
data_second = record { index = 1; packet = 3 ∷ []; is_fec = false; time = 200 }

within : 200 ≤ 100 + manager.group_timeout
unfolding new_fec_manager
within = omega arith

any_k_recover_example :
    Perm
      (map (pad (max_len data_packets)) (deliver manager 7 (parity_first ∷ data_second ∷ [])).1)
      (map (pad (max_len data_packets)) data_packets)
    × (lookup 7 (deliver manager 7 (parity_first ∷ data_second ∷ [])).0.groups ≡ none)
any_k_recover_example =
    any_k_recover sums 2 3 7 data_packets ((4 ∷ 2 ∷ []) ∷ []) manager parity_first
      (data_second ∷ []) sums-IsCodec (omega arith) (omega arith) refl (omega arith) encoded
      manager-Ready no_group
      (record { place = refl; flag = refl }, (record { place = refl; flag = refl }, tt))
      ((omega arith, tt), (tt, tt)) (within, tt) refl

timed_out : manager.group_timeout < 4_000_000_000 - 100
unfolding new_fec_manager
timed_out = omega arith

late_parity_warns_example :
    let (m', added) = add_packet manager (4 ∷ 2 ∷ []) true 7 2 100 in
    (added.released ≡ []) × (lookup 7 (clean_up_timeouts m' 4_000_000_000).1 ≡ some 2)
late_parity_warns_example =
    late_parity_warns sums 2 3 manager manager-Ready 7 no_group (omega arith) (4 ∷ 2 ∷ []) 2 100
      4_000_000_000 (omega arith) (omega arith) timed_out
