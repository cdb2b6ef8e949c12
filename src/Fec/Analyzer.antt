-- ===== src/Fec/Analyzer.antt =====
-- internal/fec/analyzer.go: `VirtualFEC`, which plays a choice of (k, n) on the received numbers, and
-- `FECAnalyzer`, which runs several of them.
pub mod Verdict
use multicast_bridge.Common.{
  ℕ, zero, suc, ◌+◌, ◌-◌, ◌/◌, ◌%◌, ◌^◌, if◌then◌else◌, ltb, leb, ◌==◌, Bool, true, false, not,
  ◌&&◌, List, [], ◌∷◌, ◌++◌, take, replicate, get_or, set, map, Option, none, some,
}
use multicast_bridge.Common.Assoc.{lookup, insert}

pub record VirtualGroupState : Type 0 where
  pub recv_count : ℕ
  pub received : List Bool
  pub evaluated : Bool

-- The counters of packets are unbounded; `n` is not 0.
pub record VirtualFec : Type 0 where
  pub k : ℕ
  pub n : ℕ
  pub groups : List (ℕ × VirtualGroupState)
  pub recovered_packets : ℕ
  pub lost_packets : ℕ
  pub delivered_packets : ℕ
  pub max_group_history : ℕ
  pub last_group_id : ℕ

unfoldable pub new_virtual_fec : ℕ → ℕ → VirtualFec
new_virtual_fec k n = record {
  k = k;
  n = n;
  groups = [];
  recovered_packets = 0;
  lost_packets = 0;
  delivered_packets = 0;
  max_group_history = 100;
  last_group_id = 0;
}

-- The loop over the data packets: how many came and how many did not.
unfoldable pub tally : List Bool → ℕ × ℕ
tally [] = (0, 0)
tally (r ∷ rs) =
    let (delivered, lost) = tally rs in if r then (delivered + 1, lost) else (delivered, lost + 1)

unfoldable pub finalize_group : VirtualGroupState → VirtualFec → VirtualFec
finalize_group g vf =
    let (delivered, lost) = tally (take vf.k g.received) in
    let enough = leb vf.k g.recv_count in
    record vf {
      delivered_packets = vf.delivered_packets + delivered;
      recovered_packets = if enough then vf.recovered_packets + lost else vf.recovered_packets;
      lost_packets = if enough then vf.lost_packets else vf.lost_packets + lost;
    }

-- The loop of `cleanupOldGroups`: the groups that stay, and the counters.
unfoldable pub sweep :
    ℕ → List (ℕ × VirtualGroupState) → VirtualFec → List (ℕ × VirtualGroupState) × VirtualFec
sweep cutoff [] vf = ([], vf)
sweep cutoff ((id, g) ∷ rest) vf =
    let old = ltb id cutoff && not g.evaluated in
    let (kept, vf') = sweep cutoff rest (if old then finalize_group g vf else vf) in
    (if old then kept else (id, g) ∷ kept, vf')

unfoldable pub cleanup_old_groups : ℕ → VirtualFec → VirtualFec
cleanup_old_groups current_group_id vf =
    let cutoff =
      if ltb vf.max_group_history current_group_id
      then current_group_id - vf.max_group_history
      else 0 in
    let (kept, vf') = sweep cutoff vf.groups vf in record vf' { groups = kept }

abbrev pub virtual_group :
    ℕ → VirtualFec → Option VirtualGroupState → VirtualFec × VirtualGroupState
virtual_group group_id vf (some g) = (vf, g)
virtual_group group_id vf none =
    let g : VirtualGroupState = record {
      recv_count = 0;
      received = replicate vf.n false;
      evaluated = false;
    } in
    let made = record vf { groups = insert group_id g vf.groups } in
    (
      if ltb vf.last_group_id group_id
          then cleanup_old_groups group_id (record made { last_group_id = group_id })
          else made,
      g,
    )

abbrev pub mark_received : ℕ → Bool → VirtualGroupState → VirtualGroupState
mark_received index is_lost g = if get_or g.received index false then g else record g {
  received = set g.received index (not is_lost);
  recv_count = if is_lost then g.recv_count else g.recv_count + 1;
}

unfoldable pub record_packet : ℕ → Bool → VirtualFec → VirtualFec
record_packet seq_num is_lost vf =
    let group_id = seq_num / vf.n in
    let (vf', g) = virtual_group group_id vf (lookup group_id vf.groups) in
    record vf' { groups = insert group_id (mark_received (seq_num % vf.n) is_lost g) vf'.groups }

abbrev pub finalize_each :
    List (ℕ × VirtualGroupState) → VirtualFec → List (ℕ × VirtualGroupState) × VirtualFec
finalize_each [] vf = ([], vf)
finalize_each ((id, g) ∷ rest) vf =
    let (kept, vf') = finalize_each rest (if g.evaluated then vf else finalize_group g vf) in
    ((id, record g { evaluated = true }) ∷ kept, vf')

unfoldable pub finalize_all : VirtualFec → VirtualFec
finalize_all vf = let (groups, vf') = finalize_each vf.groups vf in record vf' { groups = groups }

pub record FecAnalyzer : Type 0 where
  pub sims : List VirtualFec
  pub enabled : Bool
  pub last_seq : ℕ
  pub has_seq : Bool

unfoldable pub new_fec_analyzer : Bool → FecAnalyzer
new_fec_analyzer enabled = record {
  sims =
      if enabled
      then new_virtual_fec 8 9
        ∷ new_virtual_fec 8 10
        ∷ new_virtual_fec 16 20
        ∷ new_virtual_fec 4 6
        ∷ []
      else [];
  enabled = enabled;
  last_seq = 0;
  has_seq = false;
}

-- The loop over `count` lost numbers from `s` on.
unfoldable pub record_lost : ℕ → ℕ → List VirtualFec → List VirtualFec
record_lost zero s sims = sims
record_lost (suc count) s sims = record_lost count (s + 1) (map (record_packet s true) sims)

-- Sequence numbers are uint32s.
unfoldable pub analyze_packet : ℕ → FecAnalyzer → FecAnalyzer
analyze_packet seq_num fa =
    if not fa.enabled
    then fa
    else let next = (fa.last_seq + 1) % 2 ^ 32 in
      let lost_count = (seq_num + 2 ^ 33 - fa.last_seq - 1) % 2 ^ 32 in
      let gap = fa.has_seq && (ltb next seq_num && ltb lost_count 1_000) in
      let sims = if gap then record_lost lost_count next fa.sims else fa.sims in
      record fa {
        sims = map (record_packet seq_num false) sims;
        last_seq = seq_num;
        has_seq = true;
      }
