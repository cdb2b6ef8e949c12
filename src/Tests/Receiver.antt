-- ===== src/Tests/Receiver.antt =====
-- The theorems on the receiver's figures at concrete inputs.
use multicast_bridge.Common.{ℕ, ◌≡◌, true, List, [], ◌∷◌, some, arith}
use multicast_bridge.Common.Int.{pos}
use multicast_bridge.Receiver.Stats.{StreamStats, reset_stats, update}
use multicast_bridge.Receiver.Stats.Spec.{start, arrive, lost}
use multicast_bridge.Receiver.Stats.Stream.{
  Arrival, update_all, arrive_all, AllInReach, update_all-lost, panics, update-panics,
}

abbrev packet : ℕ → Arrival
packet number = record { number = number; stamp = pos 1_000; clock = 3_000 }

-- 4294967295 is the last number before the wire's wraps around.
abbrev arrivals : List Arrival
arrivals = packet 4294967300 ∷ packet 4294967297 ∷ packet 4294967297 ∷ []

arrivals-in_reach : AllInReach arrivals (start 4294967295)
unfolding AllInReach start arrive
arrivals-in_reach = (
  record {
    not_before = omega arith;
    not_late = omega arith;
    not_ahead = omega arith;
    small = omega arith;
  },
  (
    record {
      not_before = omega arith;
      not_late = omega arith;
      not_ahead = omega arith;
      small = omega arith;
    },
    (
      record {
        not_before = omega arith;
        not_late = omega arith;
        not_ahead = omega arith;
        small = omega arith;
      },
      tt,
    ),
  ),
)

update_all-lost_example :
    (s : StreamStats) × (update_all (packet 4294967295 ∷ arrivals) (some reset_stats) ≡ some s)
    × (s.lost_packets ≡ lost (arrive_all arrivals (start 4294967295)))
update_all-lost_example =
    update_all-lost (packet 4294967295) arrivals (omega arith) arrivals-in_reach

abbrev at_seven : StreamStats
at_seven = record {
  last_seq = 7;
  has_last_seq = true;
  lost_packets = 0;
  total_packets = 1;
  min_latency = 0;
  max_latency = 0;
  total_latency = pos 0;
  latency_count = 0;
  last_shift_warn = 0;
  window = true ∷ [];
}

update-panics_example : panics (update at_seven 2147483655 (pos 10) 20) ≡ true
update-panics_example = update-panics at_seven 2147483655 (pos 10) 20
