-- ===== src/Tests/Logger.antt =====
-- The theorems on the reported figures at concrete inputs.
use multicast_bridge.Common.{
  ℕ, ◌+◌, ◌-◌, ◌*◌, ◌%◌, ◌^◌, ◌≡◌, refl, false, List, [], ◌∷◌, ◌++◌, length, arith,
}
use multicast_bridge.Common.Int.{to_i64}
use multicast_bridge.Data.Queue.Refinement.{keep_last}
use multicast_bridge.Logger.Traffic.{
  Entry, second, add_all, bps, since, total_bytes, Rising, bps-since,
}
use multicast_bridge.Logger.Latency.{new_latency_stats}
use multicast_bridge.Logger.Sender.{
  SenderStats, TimeoutHistory, session_timeouts, session_timeouts-latest,
}
use multicast_bridge.Logger.Receiver.{
  ReceiverStats, new_receiver_stats, note_sequences, Ascending, last_of, note_sequences-lost,
  note_sequences_swapped,
}

abbrev entry : ℕ → ℕ → Entry
entry timestamp bytes = record { timestamp = timestamp; bytes = bytes }

abbrev traffic : List Entry
traffic = entry 100 50 ∷ entry 900_000_000 60 ∷ entry 1_500_000_000 70 ∷ []

traffic-Rising : Rising 0 traffic
unfolding Rising
traffic-Rising = (omega arith, (omega arith, (omega arith, tt)))

bps-since_example : bps 1_600_000_000 (add_all traffic []) ≡ (
  since (1_600_000_000 - second) traffic,
  to_i64 (total_bytes (since (1_600_000_000 - second) traffic) * 8 % 2 ^ 64),
)
bps-since_example =
    bps-since traffic 1_600_000_000 traffic-Rising (omega arith, (omega arith, (omega arith, tt)))

abbrev timeout : ℕ → TimeoutHistory
timeout addr = record { addr = addr; timeout_at = 10 }

abbrev sender_stats : SenderStats
sender_stats = record { sessions = []; timeout_history = timeout 1 ∷ timeout 2 ∷ []; traffic = [] }

session_timeouts-latest_example :
    (session_timeouts (timeout 3 ∷ timeout 4 ∷ []) sender_stats).timeout_history
    ≡ keep_last 20 (sender_stats.timeout_history ++ (timeout 3 ∷ timeout 4 ∷ []))
session_timeouts-latest_example =
    session_timeouts-latest (timeout 3 ∷ timeout 4 ∷ []) sender_stats (omega arith)

abbrev later : List ℕ
later = 7 ∷ 8 ∷ 12 ∷ []

numbers-Ascending : Ascending 5 (7 ∷ 8 ∷ 12 ∷ [])
unfolding Ascending
numbers-Ascending =
    (omega arith, omega arith, (omega arith, omega arith, (omega arith, omega arith, tt)))

note_sequences-lost_example :
    (note_sequences (5 ∷ later) new_receiver_stats).lost_packets + length {A = ℕ} (5 ∷ later)
    ≡ last_of 5 later + 1 - 5
note_sequences-lost_example = note_sequences-lost 5 later (omega arith) numbers-Ascending

abbrev expecting : ReceiverStats
expecting = record {
  traffic = [];
  latency = new_latency_stats;
  expected_seq_num = 2;
  received_packets = 1;
  lost_packets = 0;
  is_first_packet = false;
}

note_sequences_swapped_example :
    (note_sequences ((2 + 1) ∷ 2 ∷ (2 + 2) ∷ []) expecting).lost_packets
    ≡ expecting.lost_packets + 2
note_sequences_swapped_example = note_sequences_swapped expecting 2 refl refl (omega arith)
