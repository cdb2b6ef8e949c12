-- ===== src/Logger/Latency.antt =====
-- internal/logger/stats.go: `LatencyStats`, over all latencies and over the latest 100.
use multicast_bridge.Common.{
  ℕ, ◌+◌, ◌/◌, ◌%◌, if◌then◌else◌, ltb, ◌==◌, List, [], ◌∷◌, take, replicate, get_or, set,
}

-- Latencies that are kept are not negative and at most a minute; the total stays below 2^63 for the
-- first 150 million of them, and is unbounded here.
pub record LatencyStats : Type 0 where
  pub least : ℕ
  pub greatest : ℕ
  pub total : ℕ
  pub count : ℕ
  pub recent_ring : List ℕ
  pub recent_idx : ℕ
  pub recent_size : ℕ

unfoldable pub new_latency_stats : LatencyStats
new_latency_stats = record {
  least = 0;
  greatest = 0;
  total = 0;
  count = 0;
  recent_ring = replicate 100 0;
  recent_idx = 0;
  recent_size = 0;
}

-- A latency that is not negative; a negative one is skipped like one above a minute.
unfoldable pub add_latency : ℕ → LatencyStats → LatencyStats
add_latency d l = if ltb 60_000_000_000 d then l else record l {
  least = if l.count == 0 then d else if ltb d l.least then d else l.least;
  greatest = if l.count == 0 then d else if ltb l.greatest d then d else l.greatest;
  total = l.total + d;
  count = l.count + 1;
  recent_ring = set l.recent_ring l.recent_idx d;
  recent_idx = (l.recent_idx + 1) % 100;
  recent_size = if ltb l.recent_size 100 then l.recent_size + 1 else l.recent_size;
}

-- The loop over the ring: the least, the greatest and the sum.
abbrev pub scan : List ℕ → ℕ × ℕ × ℕ → ℕ × ℕ × ℕ
scan [] acc = acc
scan (val ∷ rest) (low, high, sum) =
    scan rest (if ltb val low then val else low, if ltb high val then val else high, sum + val)

-- Least, greatest and mean of all, then of the latest.
unfoldable pub get_metrics : LatencyStats → ℕ × ℕ × ℕ × ℕ × ℕ × ℕ
get_metrics l =
    if l.count == 0
    then (0, 0, 0, 0, 0, 0)
    else if l.recent_size == 0
    then (l.least, l.greatest, l.total / l.count, 0, 0, 0)
    else let first = get_or l.recent_ring 0 0 in
      let (low, high, sum) = scan (take l.recent_size l.recent_ring) (first, first, 0) in
      (l.least, l.greatest, l.total / l.count, low, high, sum / l.recent_size)
