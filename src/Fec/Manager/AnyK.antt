-- ===== src/Fec/Manager/AnyK.antt =====
-- internal/fec/fec.go: `AddPacket` over any `k` packets of a group, in any order of arrival.
use mathlib.Core.List.{Perm, map-append, append-nil}
use mathlib.Core.List.Perm
use mathlib.Core.Path.{ap₂}
use multicast_bridge.Common.{
  ℕ, ◌+◌, ◌≤◌, ◌≡◌, refl, sym, ◌∙◌, ◌≢◌, inl, true, false, List, [], ◌∷◌, ◌++◌, length, get_or, All,
  none, some, arith, map, replicate,
}
use multicast_bridge.Common.Assoc.{lookup, insert, delete, lookup-insert, lookup-delete}
use multicast_bridge.Fec.Codec.{Codec}
use multicast_bridge.Fec.Encode.{pad}
use multicast_bridge.Fec.Manager.{FecManager, fetch_group}
use multicast_bridge.Fec.Manager.Group.{GroupState, new_group, collect_unsent}
use multicast_bridge.Fec.Manager.Slots.{
  count_true-take-drop, get_or-set_ne, get_or-replicate, collect_unsent-replicate, take-replicate,
  count_true-replicate,
}
use multicast_bridge.Fec.Manager.Word.{Fits-replicate, map-pad-collect_unsent}
use multicast_bridge.Fec.Manager.Receive.{
  IsWord, Arrival, IsOf, Holds, with_packet, passed_on, with_packet-Holds, length-sent,
}
use multicast_bridge.Fec.Manager.Recovery.{
  deliver, Distinct, Ready, fetch_known, fetch_new, add_packet_waits, add_packet_completes,
  passed-perm,
}

module _ (c : Codec) (k n l : ℕ) (xs word : List (List ℕ)) (w : IsWord c k n l xs word)
    (group_num : ℕ) where
  -- The packets still to come, for the group at hand.
  record Coming (m m' : FecManager) (g : GroupState) (arrivals : List Arrival) : Type 0 where
    ready : Ready c k n m
    ready' : Ready c k n m'
    holds : Holds k n l word g
    of_word : All (IsOf k n l word) arrivals
    distinct : Distinct arrivals
    unseen : All (λ a. get_or g.received a.index false ≡ false) arrivals
    in_time : All (λ a. a.time ≤ g.created_at + m'.group_timeout) arrivals
    enough : g.recv_count + length arrivals ≡ k

  abbrev Released : GroupState → FecManager × List (List ℕ) → Type 0
  Released g (m, out) =
      Perm (map (pad l) out) (collect_unsent g.sent word) × (lookup group_num m.groups ≡ none)

  unseen-set :
      (g : GroupState) (a : Arrival) (arrivals : List Arrival)
      → All (λ b. a.index ≢ b.index) arrivals
      → All (λ b. get_or g.received b.index false ≡ false) arrivals
      → All (λ b. get_or (with_packet k g a).received b.index false ≡ false) arrivals
  unseen-set g a [] d u = tt
  unseen-set g a (b ∷ arrivals) d u = (
    get_or-set_ne g.received a.index b.index true false d.0 ∙ u.0,
    unseen-set g a arrivals d.1 u.1,
  )

  lookup-insert_self :
      (g : GroupState) (gs : List (ℕ × GroupState))
      → lookup group_num (insert group_num g gs) ≡ some g
  lookup-insert_self g gs = ground (arith, lookup-insert group_num group_num g gs)

  lookup-delete_self : (gs : List (ℕ × GroupState)) → lookup group_num (delete group_num gs) ≡ none
  lookup-delete_self gs = ground (arith, lookup-delete group_num group_num gs)

  out-perm :
      (g : GroupState) (a : Arrival) (rest : List (List ℕ))
      → Holds k n l word g
      → IsOf k n l word a
      → get_or g.received a.index false ≡ false
      → Perm (map (pad l) rest) (collect_unsent (with_packet k g a).sent word)
      → Perm (map (pad l) (passed_on k a ++ rest)) (collect_unsent g.sent word)
  out-perm g a rest h o new p = rw (map-append (pad l) (passed_on k a) rest) (
      Perm.trans (Perm.append (Perm.refl (map (pad l) (passed_on k a))) p)
        (passed-perm c k n l xs word w group_num g a h (length-sent c k n l xs word w g h) o new))

  after : FecManager → GroupState → FecManager
  after m' g = record m' { groups = insert group_num g m'.groups }

  next-Coming :
      (m m' : FecManager) (g : GroupState) (a b : Arrival) (arrivals : List Arrival)
      → Coming m m' g (a ∷ b ∷ arrivals)
      → Coming
          (after m' (with_packet k g a))
          (after m' (with_packet k g a))
          (with_packet k g a)
          (b ∷ arrivals)
  unfolding after
  next-Coming m m' g a b arrivals v = record {
    ready = kept;
    ready' = kept;
    holds = with_packet-Holds k n l word w.count g a v.holds v.of_word.0 v.unseen.0;
    of_word = v.of_word.1;
    distinct = v.distinct.1;
    unseen = unseen-set g a (b ∷ arrivals) v.distinct.0 v.unseen.1;
    in_time = v.in_time.1;
    enough = omega (arith, v.enough);
  }
    where
      kept : Ready c k n (after m' (with_packet k g a))
      kept = record {
        enabled = v.ready'.enabled;
        decoder = v.ready'.decoder;
        same_k = v.ready'.same_k;
        same_n = v.ready'.same_n;
      }

  deliver-Coming :
      (m m' : FecManager) (g : GroupState) (a : Arrival) (arrivals : List Arrival)
      → fetch_group m group_num a.time ≡ (m', g)
      → Coming m m' g (a ∷ arrivals)
      → Released g (deliver m group_num (a ∷ arrivals))
  unfolding deliver after
  deliver-Coming m m' g a [] f v =
      rw
        (add_packet_completes c k n l xs word w group_num m m' g a v.ready v.ready' v.of_word.0 f
          v.holds v.unseen.0 v.enough)
        (
          rw (append-nil (passed_on k a ++ collect_unsent (with_packet k g a).sent word)) (
              out-perm g a (collect_unsent (with_packet k g a).sent word) v.holds v.of_word.0
                v.unseen.0
                (rw (map-pad-collect_unsent l (with_packet k g a).sent word w.even) Perm.rfl)),
          lookup-delete_self m'.groups,
        )
  deliver-Coming m m' g a (b ∷ arrivals) f v =
      let m₁ = after m' (with_packet k g a) in
      let rest : Released (with_packet k g a) (deliver m₁ group_num (b ∷ arrivals)) =
        deliver-Coming m₁ m₁ (with_packet k g a) b arrivals
          (fetch_known m₁ group_num b.time (with_packet k g a)
            (lookup-insert_self (with_packet k g a) m'.groups) v.in_time.1.0)
          (next-Coming m m' g a b arrivals v) in
      rw
        (add_packet_waits c k n l xs word w group_num m m' g a v.ready v.ready' v.of_word.0 f
          v.holds v.unseen.0 (omega (arith, v.enough)))
        (
          out-perm g a (deliver m₁ group_num (b ∷ arrivals)).1 v.holds v.of_word.0 v.unseen.0
              rest.0,
          rest.1,
        )

  new_group-Holds : (now : ℕ) → Holds k n l word (new_group k n group_num now)
  unfolding new_group
  new_group-Holds now = record {
    same_k = refl;
    fits = Fits-replicate l n word w.count;
    sent_prefix = sym (take-replicate k n false w.data_le);
    counted = sym (count_true-replicate n);
    below = omega arith;
    sized = inl (omega (arith, count_true-take-drop k (replicate n false), count_true-replicate n));
  }

  new_unseen :
      (arrivals : List Arrival) (now : ℕ)
      → All (λ a. get_or (new_group k n group_num now).received a.index false ≡ false) arrivals
  unfolding new_group
  new_unseen [] now = tt
  new_unseen (a ∷ arrivals) now = (get_or-replicate n a.index false, new_unseen arrivals now)

  -- A manager that has nothing of the group is given `k` different packets of it, none later than
  -- the timeout after the first. What it releases is then, padded, the data packets, each once, and
  -- the group is gone.
  pub deliver_lem :
      (m : FecManager) (a : Arrival) (arrivals : List Arrival)
      → Ready c k n m
      → lookup group_num m.groups ≡ none
      → All (IsOf k n l word) (a ∷ arrivals)
      → Distinct (a ∷ arrivals)
      → All (λ b. b.time ≤ a.time + m.group_timeout) arrivals
      → length (a ∷ arrivals) ≡ k
      → Perm (map (pad l) (deliver m group_num (a ∷ arrivals)).1) xs
        × (lookup group_num (deliver m group_num (a ∷ arrivals)).0.groups ≡ none)
  unfolding after new_group
  deliver_lem m a arrivals r e o d t enough =
      let (p, gone) = deliver-Coming m (after m g) g a arrivals fetched coming in
      (rw (← unsent) p, gone)
    where
      g : GroupState
      g = new_group k n group_num a.time

      make_group : ℕ → ℕ → FecManager × GroupState
      make_group k' n' =
          let g' = new_group k' n' group_num a.time in
          (record m { groups = insert group_num g' m.groups }, g')

      fetched : fetch_group m group_num a.time ≡ (after m g, g)
      fetched = fetch_new m group_num a.time e ∙ ap₂ make_group r.same_k r.same_n

      unsent : collect_unsent g.sent word ≡ xs
      unsent = collect_unsent-replicate k word ∙ w.front

      coming : Coming m (after m g) g (a ∷ arrivals)
      coming = record {
        ready = r;
        ready' = record {
          enabled = r.enabled;
          decoder = r.decoder;
          same_k = r.same_k;
          same_n = r.same_n;
        };
        holds = new_group-Holds a.time;
        of_word = o;
        distinct = d;
        unseen = new_unseen (a ∷ arrivals) a.time;
        in_time = (omega arith, t);
        enough = omega arith;
      }
