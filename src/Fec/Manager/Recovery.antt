-- ===== src/Fec/Manager/Recovery.antt =====
-- internal/fec/fec.go: `AddPacket` for one packet of an encoded group, with the group at hand.
use mathlib.Core.List.{Perm}
use mathlib.Core.List.Perm
use multicast_bridge.Common.{
  ℕ, ◌+◌, ◌≤◌, ◌<◌, ◌≡◌, ap, ◌∙◌, ◌≢◌, inl, inr, ltb, true, false, List, [], ◌∷◌, ◌++◌, length,
  get_or, All, none, some, arith, map, Bool-cases,
}
use multicast_bridge.Common.Assoc.{lookup, insert, delete}
use multicast_bridge.Fec.Codec.{Codec}
use multicast_bridge.Fec.Encode.{pad}
use multicast_bridge.Fec.Manager.{FecManager, fetch_group, receive, add_packet}
use multicast_bridge.Fec.Manager.Group.{GroupState, new_group, collect_unsent}
use multicast_bridge.Fec.Manager.Slots.{get_or-take, collect_unsent-set}
use multicast_bridge.Fec.Manager.Receive.{
  IsWord, Arrival, IsOf, Holds, with_packet, passed_on, with_packet-Holds, receive-settle,
}
use multicast_bridge.Fec.Manager.Settle.{settle_waits, settle_completes}

-- `AddPacket` for one packet after the other: the manager, and all that it released.
unfoldable pub deliver : FecManager → ℕ → List Arrival → FecManager × List (List ℕ)
deliver m group_num [] = (m, [])
deliver m group_num (a ∷ arrivals) =
    let (m', added) = add_packet m a.packet a.is_fec group_num a.index a.time in
    let (last, released) = deliver m' group_num arrivals in (last, added.released ++ released)

abbrev pub Distinct : List Arrival → Type 0
Distinct [] = Unit
Distinct (a ∷ arrivals) = All (λ b. a.index ≢ b.index) arrivals × Distinct arrivals

pub record Ready (c : Codec) (k n : ℕ) (m : FecManager) : Type 0 where
  pub enabled : m.enabled ≡ true
  pub decoder : m.decoder ≡ some c
  pub same_k : m.k ≡ k
  pub same_n : m.n ≡ n

pub fetch_known :
    (m : FecManager) (group_num now : ℕ) (g : GroupState)
    → lookup group_num m.groups ≡ some g
    → now ≤ g.created_at + m.group_timeout
    → fetch_group m group_num now ≡ (m, g)
unfolding fetch_group
fetch_known m group_num now g e h = ground arith

pub fetch_new :
    (m : FecManager) (group_num now : ℕ)
    → lookup group_num m.groups ≡ none
    → let g = new_group m.k m.n group_num now in
      fetch_group m group_num now ≡ (record m { groups = insert group_num g m.groups }, g)
unfolding fetch_group
fetch_new m group_num now e = ground arith

module _ (c : Codec) (k n l : ℕ) (xs word : List (List ℕ)) (w : IsWord c k n l xs word)
    (group_num : ℕ) where
  add_packet-receive :
      (m m' : FecManager) (g : GroupState) (a : Arrival)
      → Ready c k n m
      → Ready c k n m'
      → IsOf k n l word a
      → fetch_group m group_num a.time ≡ (m', g)
      → add_packet m a.packet a.is_fec group_num a.index a.time
        ≡ receive m' g a.packet a.is_fec group_num a.index
  unfolding add_packet
  add_packet-receive m m' g a r r' o e =
      ground (arith, r.enabled, r'.same_k, r'.same_n, o.inside, o.kind)

  -- What a packet takes out of the packets still to come.
  pub passed-perm :
      (g : GroupState) (a : Arrival)
      → Holds k n l word g
      → length g.sent ≡ k
      → IsOf k n l word a
      → get_or g.received a.index false ≡ false
      → Perm
          (map (pad l) (passed_on k a) ++ collect_unsent (with_packet k g a).sent word)
          (collect_unsent g.sent word)
  passed-perm g a h size o new = elim (Bool-cases (ltb a.index k)) [
    | inl e ↦
        rw (e, o.matches.padded)
          (collect_unsent-set g.sent a.index word o.shard (ground (arith, size))
            (unsent (ground arith)) o.place)
    | inr e ↦ rw e Perm.rfl
  ]
    where
      unsent : a.index < k → get_or g.sent a.index false ≡ false
      unsent lt =
          ap (λ s. get_or s a.index false) h.sent_prefix
          ∙ get_or-take k g.received a.index false lt
          ∙ new

  -- One packet with the group at hand `(m', g)`: it is kept while packets are missing.
  pub add_packet_waits :
      (m m' : FecManager) (g : GroupState) (a : Arrival)
      → Ready c k n m
      → Ready c k n m'
      → IsOf k n l word a
      → fetch_group m group_num a.time ≡ (m', g)
      → Holds k n l word g
      → get_or g.received a.index false ≡ false
      → g.recv_count + 1 < k
      → add_packet m a.packet a.is_fec group_num a.index a.time ≡ (
        record m' { groups = insert group_num (with_packet k g a) m'.groups },
        record { released = passed_on k a; failure = none },
      )
  add_packet_waits m m' g a r r' o e h new few =
      add_packet-receive m m' g a r r' o e
      ∙ receive-settle k n l word w.count g a h o new m' group_num
      ∙ settle_waits c k n l xs word w (with_packet k g a)
          (with_packet-Holds k n l word w.count g a h o new) m' group_num r'.decoder (passed_on k a)
          few

  pub add_packet_completes :
      (m m' : FecManager) (g : GroupState) (a : Arrival)
      → Ready c k n m
      → Ready c k n m'
      → IsOf k n l word a
      → fetch_group m group_num a.time ≡ (m', g)
      → Holds k n l word g
      → get_or g.received a.index false ≡ false
      → g.recv_count + 1 ≡ k
      → add_packet m a.packet a.is_fec group_num a.index a.time ≡ (
        record m' { groups = delete group_num m'.groups },
        record {
          released = passed_on k a ++ collect_unsent (with_packet k g a).sent word;
          failure = none;
        },
      )
  add_packet_completes m m' g a r r' o e h new enough =
      add_packet-receive m m' g a r r' o e
      ∙ receive-settle k n l word w.count g a h o new m' group_num
      ∙ settle_completes c k n l xs word w (with_packet k g a)
          (with_packet-Holds k n l word w.count g a h o new) m' group_num r'.decoder (passed_on k a)
          enough
