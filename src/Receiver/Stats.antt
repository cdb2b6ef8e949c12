-- ===== src/Receiver/Stats.antt =====
-- cmd/recv.go: `StreamStats`, the loss and latency figures of the received stream.
pub mod Spec
pub mod Diff
pub mod Window
pub mod Refinement
pub mod Stream
use multicast_bridge.Common.{
  ℕ, zero, suc, ◌+◌, ◌-◌, ◌*◌, ◌/◌, ◌%◌, ◌^◌, if◌then◌else◌, ltb, leb, ◌==◌, Bool, true, false, not,
  ◌&&◌, List, [], ◌∷◌, ◌++◌, take, replicate, get_or, set, Option, none, some,
}
use multicast_bridge.Common.Int.{ℤ, pos, negsuc, to_u64, to_i64}

-- The counters are uint64s; latencies and clock readings are nanoseconds, and a latency that is
-- kept is not negative. The sum of the latencies is an int64. `window` holds the 64
-- bits of the source's uint64, the lowest first: bit i stands for the packet `last_seq - i`.
pub record StreamStats : Type 0 where
  pub last_seq : ℕ
  pub has_last_seq : Bool
  pub lost_packets : ℕ
  pub total_packets : ℕ
  pub min_latency : ℕ
  pub max_latency : ℕ
  pub total_latency : ℤ
  pub latency_count : ℕ
  pub last_shift_warn : ℕ
  pub window : List Bool

-- `ResetStats`, and the zero value of `globalStats`.
unfoldable pub reset_stats : StreamStats
reset_stats = record {
  last_seq = 0;
  has_last_seq = false;
  lost_packets = 0;
  total_packets = 0;
  min_latency = 0;
  max_latency = 0;
  total_latency = pos 0;
  latency_count = 0;
  last_shift_warn = 0;
  window = replicate 64 false;
}

-- `nowNano - timestampNano` on int64.
abbrev pub elapsed : ℤ → ℤ → ℤ
elapsed now sent = to_i64 ((to_u64 now + 2 ^ 64 - to_u64 sent) % 2 ^ 64)

-- A latency below 0 or above one minute is not valid.
abbrev pub valid_latency : ℤ → Option ℕ
valid_latency (pos d) = if leb d 60_000_000_000 then some d else none
valid_latency (negsuc d) = none

-- The warning on the clock is given at most every ten seconds.
abbrev note_shift : StreamStats → ℕ → Option ℕ → StreamStats
note_shift s now (some latency) = s
note_shift s now none =
    if ltb 10_000_000_000 (now - s.last_shift_warn) then record s { last_shift_warn = now } else s

-- `s.window << d`
abbrev pub shift_window : ℕ → List Bool → List Bool
shift_window d window = take 64 (replicate d false ++ window)

abbrev pub only_newest : List Bool
only_newest = set (replicate 64 false) 0 true

-- A packet `d` numbers after the last one, `d` from 1 to 2 ^ 31 - 1.
unfoldable pub advance : StreamStats → ℕ → ℕ → StreamStats
advance s seq d =
    let window = if ltb d 64 then set (shift_window d s.window) 0 true else only_newest in
    record s { window = window; lost_packets = (s.lost_packets + (d - 1)) % 2 ^ 64; last_seq = seq }

-- A packet `offset` numbers before the last one.
unfoldable pub fall_back : StreamStats → ℕ → StreamStats
fall_back s offset =
    if ltb offset 64 && not (get_or s.window offset false)
    then record s { window = set s.window offset true; lost_packets = s.lost_packets - 1 }
    else s

-- The conversions between int32 and its pattern, and the negation `-z` of an int32.
abbrev pub to_i32 : ℕ → ℤ
to_i32 w = if ltb w (2 ^ 31) then pos w else negsuc (2 ^ 32 - 1 - w)

abbrev pub to_u32 : ℤ → ℕ
to_u32 (pos n) = n % 2 ^ 32
to_u32 (negsuc n) = 2 ^ 32 - 1 - n % 2 ^ 32

abbrev pub neg_i32 : ℤ → ℤ
neg_i32 z = to_i32 ((2 ^ 32 - to_u32 z) % 2 ^ 32)

-- Go's shift `uint64(1) << offset` is a run-time panic, `none`, when offset is negative; a negative
-- offset passes the test against 64.
abbrev pub late_by : StreamStats → ℤ → Option StreamStats
late_by s (pos offset) = some (fall_back s offset)
late_by s (negsuc n) = none

-- By `diff`, which is positive for a packet ahead of the last one.
abbrev pub move : StreamStats → ℕ → ℤ → Option StreamStats
move s seq (pos zero) = late_by s (neg_i32 (pos 0))
move s seq (pos (suc d)) = some (advance s seq (suc d))
move s seq (negsuc n) = late_by s (neg_i32 (negsuc n))

-- `diff := int32(seq - s.lastSeq)`
unfoldable pub place : StreamStats → ℕ → Option StreamStats
place s seq =
    if not s.has_last_seq
    then some (record s { has_last_seq = true; last_seq = seq; window = only_newest })
    else move s seq (to_i32 ((seq + 2 ^ 32 - s.last_seq) % 2 ^ 32))

unfoldable pub note_latency : Option ℕ → StreamStats → StreamStats
note_latency none s = s
note_latency (some latency) s =
    let count = (s.latency_count + 1) % 2 ^ 64 in
    let first = count == 1 in
    record s {
      total_latency = to_i64 ((to_u64 s.total_latency + latency) % 2 ^ 64);
      latency_count = count;
      min_latency =
          if first then latency else if ltb latency s.min_latency then latency else s.min_latency;
      max_latency =
          if first then latency else if ltb s.max_latency latency then latency else s.max_latency;
    }

abbrev pub latency_noted : Option ℕ → Option StreamStats → Option StreamStats
latency_noted latency none = none
latency_noted latency (some s) = some (note_latency latency s)

-- `now` is the clock; `none` is a run-time panic.
unfoldable pub update : StreamStats → ℕ → ℤ → ℕ → Option StreamStats
update s seq timestamp now =
    let latency = valid_latency (elapsed (pos now) timestamp) in
    let warned = note_shift s now latency in
    let counted = record warned { total_packets = (warned.total_packets + 1) % 2 ^ 64 } in
    latency_noted latency (place counted seq)

-- Go's division of int64s, which drops the fraction; never by 0 here.
unfoldable pub quotient : ℤ → ℤ → ℤ
quotient (pos a) (pos b) = pos (a / b)
quotient (pos a) (negsuc b) = to_i64 ((2 ^ 64 - a / (b + 1)) % 2 ^ 64)
quotient (negsuc a) (pos b) = to_i64 ((2 ^ 64 - (a + 1) / b) % 2 ^ 64)
quotient (negsuc a) (negsuc b) = to_i64 ((a + 1) / (b + 1))

-- Lost, total, and the least, the greatest and the mean latency.
unfoldable pub get_stats : StreamStats → ℕ × ℕ × ℕ × ℕ × ℤ
get_stats s = (
  s.lost_packets,
  s.total_packets,
  s.min_latency,
  s.max_latency,
  if ltb 0 s.latency_count then quotient s.total_latency (to_i64 s.latency_count) else pos 0,
)
