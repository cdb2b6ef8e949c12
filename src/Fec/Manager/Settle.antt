-- ===== src/Fec/Manager/Settle.antt =====
-- internal/fec/fec.go: the end of `AddPacket` for an encoded group, with and without reconstruction.
use mathlib.Core.List.{append-nil}
use multicast_bridge.Common.{
  ℕ, ◌+◌, ◌<◌, ◌≡◌, ap, inl, inr, false, List, ◌++◌, drop, none, some, arith, Bool-cases,
}
use multicast_bridge.Common.Assoc.{insert, delete}
use multicast_bridge.Fec.Codec.{Codec}
use multicast_bridge.Fec.Manager.{FecManager, settle}
use multicast_bridge.Fec.Manager.Group.{GroupState, all_sent, pad_received, collect_unsent}
use multicast_bridge.Fec.Manager.Slots.{
  count_true, count_true-take-drop, all_sent_of_count, all_sent-count, all_sent-mark_sent,
  collect_unsent-all_sent,
}
use multicast_bridge.Fec.Manager.Word.{pad_received-PartOf, present-pad_received}
use multicast_bridge.Fec.Manager.Receive.{IsWord, Holds, length-sent}

module _ (c : Codec) (k n l : ℕ) (xs word : List (List ℕ)) (w : IsWord c k n l xs word)
    (g : GroupState) (h : Holds k n l word g) (m : FecManager) (group_num : ℕ)
    (decoder : m.decoder ≡ some c) where
  count-sent : count_true g.sent + count_true (drop k g.received) ≡ g.recv_count
  count-sent =
      omega (arith, ap count_true h.sent_prefix, count_true-take-drop k g.received, h.counted)

  -- With fewer than `k` packets nothing can be rebuilt, and the group is kept.
  pub settle_waits :
      (released : List (List ℕ))
      → g.recv_count < k
      → settle m group_num g released ≡ (
        record m { groups = insert group_num g m.groups },
        record { released = released; failure = none },
      )
  unfolding settle
  settle_waits released few = ground (arith, h.same_k, unsent)
    where
      unsent : all_sent g.sent ≡ false
      unsent = elim (Bool-cases (all_sent g.sent)) [
        | inl e ↦
            absurd (
              omega (arith, all_sent-count g.sent e, length-sent c k n l xs word w g h, count-sent))
        | inr e ↦ e
      ]

  rebuilt_shards :
      all_sent g.sent ≡ false
      → g.recv_count ≡ k
      → c.reconstruct (pad_received g.max_len g.received g.packets) ≡ some word
  rebuilt_shards e enough = rw full (
      w.rebuild (pad_received l g.received g.packets)
        (pad_received-PartOf l word g.received g.packets h.fits)
        (omega
          (arith, present-pad_received l word g.received g.packets w.some_bytes h.fits, h.counted)))
    where
      not_all : count_true g.sent ≡ k → ⊥
      not_all q =
          cc (e, all_sent_of_count g.sent (omega (arith, length-sent c k n l xs word w g h)))

      full : g.max_len ≡ l
      full = elim h.sized [
        | inl none_there ↦ absurd (not_all (omega (arith, count-sent)))
        | inr p ↦ p
      ]

  -- With the `k`-th packet every data packet that is not out yet goes out, and the group is deleted.
  pub settle_completes :
      (released : List (List ℕ))
      → g.recv_count ≡ k
      → settle m group_num g released ≡ (
        record m { groups = delete group_num m.groups },
        record { released = released ++ collect_unsent g.sent word; failure = none },
      )
  unfolding settle
  settle_completes released enough = elim (Bool-cases (all_sent g.sent)) [
    | inl e ↦ ground (arith, h.same_k, collect_unsent-all_sent g.sent word e, append-nil released)
    | inr e ↦ ground (arith, h.same_k, decoder, rebuilt_shards e enough, all_sent-mark_sent g.sent)
  ]
