-- ===== src/Logger/Receiver.antt =====
-- internal/logger/stats.go: `ReceiverStats`, the loss and the traffic that the receiver reports.
use multicast_bridge.Common.{
  ℕ, zero, suc, ◌+◌, ◌-◌, ◌%◌, ◌^◌, ◌≤◌, ◌<◌, ◌≡◌, refl, if◌then◌else◌, ltb, Bool, true, false,
  List, [], ◌∷◌, length, arith,
}
use multicast_bridge.Common.Int.{ℤ, pos, negsuc}
use multicast_bridge.Receiver.Stats.{elapsed}
use multicast_bridge.Logger.Traffic.{Entry, add_traffic}
use multicast_bridge.Logger.Latency.{LatencyStats, new_latency_stats, add_latency}

pub record ReceiverStats : Type 0 where
  pub traffic : List Entry
  pub latency : LatencyStats
  pub expected_seq_num : ℕ
  pub received_packets : ℕ
  pub lost_packets : ℕ
  pub is_first_packet : Bool

unfoldable pub new_receiver_stats : ReceiverStats
new_receiver_stats = record {
  traffic = [];
  latency = new_latency_stats;
  expected_seq_num = 0;
  received_packets = 0;
  lost_packets = 0;
  is_first_packet = true;
}

-- A negative latency is skipped.
abbrev pub noted_latency : ℤ → LatencyStats → LatencyStats
noted_latency (pos d) l = add_latency d l
noted_latency (negsuc d) l = l

-- Only a time stamp above 0 counts.
abbrev pub timed : ℕ → ℤ → LatencyStats → LatencyStats
timed now (pos zero) l = l
timed now (pos (suc n)) l = noted_latency (elapsed (pos now) (pos (suc n))) l
timed now (negsuc n) l = l

-- The third step of `AddPacket`; sequence numbers are uint32s, the counters unbounded.
unfoldable pub note_sequence : ℕ → ReceiverStats → ReceiverStats
note_sequence seq r =
    let received = record r { received_packets = r.received_packets + 1 } in
    let next = (seq + 1) % 2 ^ 32 in
    if r.is_first_packet
    then record received { expected_seq_num = next; is_first_packet = false }
    else if ltb r.expected_seq_num seq
    then record received {
      lost_packets = r.lost_packets + (seq - r.expected_seq_num);
      expected_seq_num = next;
    }
    else record received { expected_seq_num = next }

unfoldable pub add_packet_stats : ℕ → ℕ → ℤ → ℕ → ReceiverStats → ReceiverStats
add_packet_stats now seq timestamp payload_size r = note_sequence seq (record r {
  traffic = add_traffic now payload_size r.traffic;
  latency = timed now timestamp r.latency;
})

-- Packets in the order of their numbers, with gaps.
unfoldable pub Ascending : ℕ → List ℕ → Type 0
Ascending low [] = Unit
Ascending low (n ∷ ns) = (low < n) × (n < 2 ^ 32 - 1) × Ascending n ns

unfoldable pub note_sequences : List ℕ → ReceiverStats → ReceiverStats
note_sequences [] r = r
note_sequences (n ∷ ns) r = note_sequences ns (note_sequence n r)

abbrev pub last_of : ℕ → List ℕ → ℕ
last_of n [] = n
last_of n (m ∷ ns) = last_of m ns

note_sequences_lem :
    (ns : List ℕ) (n : ℕ) (r : ReceiverStats)
    → r.is_first_packet ≡ false
    → r.expected_seq_num ≡ n + 1
    → Ascending n ns
    → (note_sequences ns r).lost_packets + length ns + n ≡ r.lost_packets + last_of n ns
unfolding note_sequences Ascending note_sequence
note_sequences_lem [] n r e f v = omega arith
note_sequences_lem (m ∷ ns) n r e f v = ground (
  arith,
  e,
  f,
  v.0,
  v.1,
  note_sequences_lem ns m (note_sequence m r) (ground (arith, e)) (ground (arith, e, f, v.0, v.1))
      v.2,
)

le-last_of : (n : ℕ) (ns : List ℕ) → Ascending n ns → n ≤ last_of n ns
unfolding Ascending
le-last_of n [] v = omega arith
le-last_of n (m ∷ ns) v = omega (arith, v.0, le-last_of m ns v.2)

-- When packets come in the order of their numbers, below the wrap-around, the loss that is counted
-- is the count of the numbers between the first and the last that did not come.
pub note_sequences-lost :
    (n : ℕ) (ns : List ℕ)
    → n < 2 ^ 32 - 1
    → Ascending n ns
    → (note_sequences (n ∷ ns) new_receiver_stats).lost_packets + length (n ∷ ns)
      ≡ last_of n ns + 1 - n
unfolding note_sequences note_sequence new_receiver_stats
note_sequences-lost n ns h v = omega (
  arith,
  note_sequences_lem ns n (note_sequence n new_receiver_stats) refl (omega arith) v,
  le-last_of n ns v,
)

-- Two neighbours that come in the wrong order, and the packet after them, none of which is lost, are
-- counted as two losses, for a number that is 3 or more below the wrap-around.
pub note_sequences_swapped :
    (r : ReceiverStats) (e : ℕ)
    → r.is_first_packet ≡ false
    → r.expected_seq_num ≡ e
    → e < 2 ^ 32 - 3
    → (note_sequences ((e + 1) ∷ e ∷ (e + 2) ∷ []) r).lost_packets ≡ r.lost_packets + 2
unfolding note_sequences note_sequence
note_sequences_swapped r e f g h = ground (arith, f, g, h)
