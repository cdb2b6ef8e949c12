-- ===== src/Fec/Analyzer/Verdict.antt =====
-- internal/fec/analyzer.go: what a simulation counts for a whole group.
use native.Mathlib.Nat.{mul-add-mod_self_right, mod-eq_of_lt}
use mathlib.Core.List.{append-nil}
use multicast_bridge.Common.{
  ℕ, suc, ◌+◌, ◌-◌, ◌*◌, ◌%◌, ◌≤◌, ◌<◌, ◌≡◌, refl, ap, ◌∙◌, if◌then◌else◌, leb, Bool, true, false,
  not, List, [], ◌∷◌, ◌++◌, length, take, replicate, Option, arith, length-take,
}
use multicast_bridge.Common.Assoc.{insert}
use multicast_bridge.Fec.Analyzer.{
  VirtualGroupState, VirtualFec, new_virtual_fec, tally, finalize_group, virtual_group,
  mark_received, record_packet,
}
use multicast_bridge.Fec.Manager.Slots.{count_true}

-- Numbers that came or were lost, one after the other.
unfoldable pub record_packets : List (ℕ × Bool) → VirtualFec → VirtualFec
record_packets [] vf = vf
record_packets ((seq, is_lost) ∷ rest) vf = record_packets rest (record_packet seq is_lost vf)

-- The numbers from `seq` on, of which those with `true` came.
unfoldable pub numbers : ℕ → List Bool → List (ℕ × Bool)
numbers seq [] = []
numbers seq (came ∷ rest) = (seq, not came) ∷ numbers (suc seq) rest

-- The group of which the first packets have had their turn.
abbrev group : ℕ → List Bool → VirtualGroupState
group recv_count received = record {
  recv_count = recv_count;
  received = received;
  evaluated = false;
}

abbrev begun : List Bool → ℕ → VirtualGroupState
begun came left = group (count_true came) (came ++ replicate left false)

abbrev holding : ℕ → ℕ → ℕ → VirtualGroupState → VirtualFec
holding k n id g = record (new_virtual_fec k n) { groups = (id, g) ∷ []; last_group_id = id }

module _ (k n id : ℕ) where
  index_of : (i : ℕ) → i < n → (id * n + i) % n ≡ i
  index_of i h = mul-add-mod_self_right id n i ∙ mod-eq_of_lt h

  -- The packet at a place of a group.
  abbrev recorded : ℕ → ℕ → Bool → VirtualFec → Option VirtualGroupState → VirtualFec
  recorded group_id index is_lost vf found =
      let (vf', g) = virtual_group group_id vf found in
      record vf' { groups = insert group_id (mark_received index is_lost g) vf'.groups }

count_true-le : (bs : List Bool) → count_true bs ≤ length bs
count_true-le [] = omega arith
count_true-le (true ∷ bs) = omega (arith, count_true-le bs)
count_true-le (false ∷ bs) = omega (arith, count_true-le bs)

tally-count :
    (rs : List Bool) → ((tally rs).0 ≡ count_true rs) × ((tally rs).1 ≡ length rs - count_true rs)
unfolding tally
tally-count [] = (refl, omega arith)
tally-count (true ∷ rs) =
    let (came, lost) = tally-count rs in (omega (arith, came), omega (arith, lost))
tally-count (false ∷ rs) =
    let (came, lost) = tally-count rs in (came, omega (arith, lost, count_true-le rs))

-- Of the k data packets of a group of which those with `true` came, the ones that came are delivered;
-- the others are recovered if k packets of the group, data or redundant ones, came, and else lost.
pub record Verdict (k : ℕ) (came : List Bool) (vf : VirtualFec) : Type 0 where
  pub delivered : vf.delivered_packets ≡ count_true (take k came)
  pub recovered :
      vf.recovered_packets ≡ (if leb k (count_true came) then k - count_true (take k came) else 0)
  pub lost : vf.lost_packets ≡ (if leb k (count_true came) then 0 else k - count_true (take k came))

module _ (k : ℕ) (came : List Bool) (vf : VirtualFec) (enough : k ≤ length came) (same_k : vf.k ≡ k)
    (none_delivered : vf.delivered_packets ≡ 0) (none_recovered : vf.recovered_packets ≡ 0)
    (none_lost : vf.lost_packets ≡ 0) where
  data_part : take vf.k (came ++ []) ≡ take k came
  data_part = ap (λ m. take m (came ++ [])) same_k ∙ ap (take k) (append-nil came)

  came_in : (tally (take vf.k (came ++ []))).0 ≡ count_true (take k came)
  came_in = ap (λ rs. (tally rs).0) data_part ∙ (tally-count (take k came)).0

  left_out : (tally (take vf.k (came ++ []))).1 ≡ k - count_true (take k came)
  left_out =
      ap (λ rs. (tally rs).1) data_part
      ∙ (tally-count (take k came)).1
      ∙ omega (arith, length-take k came, enough)

  pub finalize_group-Verdict : Verdict k came (finalize_group (begun came 0) vf)
  unfolding finalize_group
  finalize_group-Verdict = record {
    delivered = omega (arith, came_in, none_delivered);
    recovered = ground (arith, left_out, none_recovered, same_k);
    lost = ground (arith, left_out, none_lost, same_k);
  }

abbrev blank : ℕ → VirtualGroupState
blank n = begun [] n

-- The state that a later group meets, with itself in the map.
abbrev joined : ℕ → ℕ → ℕ → ℕ → VirtualGroupState → VirtualFec
joined k n id d g = record (new_virtual_fec k n) {
  groups = (id, g) ∷ (d, blank n) ∷ [];
  last_group_id = d;
}

-- What is left when the group has been evaluated.
abbrev evicted : ℕ → ℕ → ℕ → ℕ → List Bool → VirtualFec
evicted k n id d came = record (finalize_group (begun came 0) (joined k n id d (begun came 0))) {
  groups = (d, blank n) ∷ [];
}
