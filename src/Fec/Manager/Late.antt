-- ===== src/Fec/Manager/Late.antt =====
-- internal/fec/fec.go: parity that arrives after its group was completed and deleted.
use multicast_bridge.Common.{
  ℕ, zero, suc, ◌-◌, ◌≤◌, ◌<◌, ◌≡◌, refl, ap, ◌∙◌, true, false, List, [], ◌∷◌, none, some, arith,
  replicate, length-replicate,
}
use multicast_bridge.Common.Assoc.{lookup, insert, lookup-insert}
use multicast_bridge.Fec.Codec.{Codec}
use multicast_bridge.Fec.Manager.{
  FecManager, settle, receive, add_packet, clean_groups, clean_up_timeouts,
}
use multicast_bridge.Fec.Manager.Group.{
  GroupState, new_group, buffer, pass_through, all_sent, lost_count,
}
use multicast_bridge.Fec.Manager.Slots.{
  get_or-replicate, count_true-replicate, lost_count-count_true,
}
use multicast_bridge.Fec.Manager.Recovery.{Ready, fetch_new}

lost_count-replicate : (k : ℕ) → lost_count (replicate k false) ≡ k
lost_count-replicate k = omega (
  arith,
  lost_count-count_true (replicate k false),
  count_true-replicate k,
  length-replicate k false,
)

-- A group that is over the timeout with packets never released is reported with their number.
clean_groups_warns :
    (timeout now num : ℕ) (groups : List (ℕ × GroupState)) (g : GroupState)
    → lookup num groups ≡ some g
    → timeout < now - g.created_at
    → 1 ≤ lost_count g.sent
    → lookup num (clean_groups timeout now groups).1 ≡ some (lost_count g.sent)
unfolding lookup clean_groups
clean_groups_warns timeout now num [] g e h lost = cc
clean_groups_warns timeout now num ((j, x) ∷ groups) g e h lost =
    ground (arith, clean_groups_warns timeout now num groups g)

pub clean_up_timeouts_warns :
    (m : FecManager) (now num : ℕ) (g : GroupState)
    → m.enabled ≡ true
    → lookup num m.groups ≡ some g
    → m.group_timeout < now - g.created_at
    → 1 ≤ lost_count g.sent
    → lookup num (clean_up_timeouts m now).1 ≡ some (lost_count g.sent)
unfolding clean_up_timeouts
clean_up_timeouts_warns m now num g e f h lost =
    ground (arith, e, clean_groups_warns m.group_timeout now num m.groups g f h lost)

not_all_sent : (k : ℕ) → 1 ≤ k → all_sent (replicate k false) ≡ false
unfolding all_sent
not_all_sent zero h = absurd (omega arith)
not_all_sent (suc k) h = refl

module _ (c : Codec) (k n : ℕ) (m : FecManager) (r : Ready c k n m) (group_num : ℕ)
    (gone : lookup group_num m.groups ≡ none) (two : 2 ≤ k) where
  -- The group that the late packet opens.
  reopened : List ℕ → ℕ → ℕ → GroupState
  unfolding new_group buffer
  reopened pkt index now = buffer (new_group m.k m.n group_num now) pkt index

  add_packet_late :
      (pkt : List ℕ) (index now : ℕ)
      → k ≤ index
      → index < n
      → add_packet m pkt true group_num index now ≡ (
        record m {
          groups =
              insert group_num
                (reopened pkt index now)
                (insert group_num (new_group m.k m.n group_num now) m.groups);
        },
        record { released = []; failure = none },
      )
  unfolding add_packet receive settle pass_through reopened
  add_packet_late pkt index now h lt = rw (fetch_new m group_num now gone) (
      ground
        (arith, r.enabled, r.same_k, r.same_n, get_or-replicate m.n index false, not_all_sent m.k))

  -- A parity packet that arrives at an enabled manager with no group of its number (as after `AddPacket`
  -- completed and deleted the group), `k` being 2 or more, opens the group anew and releases nothing;
  -- a clean-up more than the timeout later reports `k` data packets of the group as lost.
  pub late_parity_warns :
      (pkt : List ℕ) (index now later : ℕ)
      → k ≤ index
      → index < n
      → m.group_timeout < later - now
      → let (m', added) = add_packet m pkt true group_num index now in
        (added.released ≡ []) × (lookup group_num (clean_up_timeouts m' later).1 ≡ some k)
  unfolding reopened
  late_parity_warns pkt index now later h lt old = rw (add_packet_late pkt index now h lt) (
    refl,
    clean_up_timeouts_warns _ later group_num (reopened pkt index now) r.enabled
          (ground (
            arith,
            lookup-insert group_num group_num (reopened pkt index now)
                (insert group_num (new_group m.k m.n group_num now) m.groups),
          ))
          old (omega (arith, lost_count-replicate m.k, r.same_k))
        ∙ ap some (lost_count-replicate m.k ∙ r.same_k),
  )
