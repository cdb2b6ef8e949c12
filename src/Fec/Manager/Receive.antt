-- ===== src/Fec/Manager/Receive.antt =====
-- internal/fec/fec.go: one packet of an encoded group, from the duplicate check of `AddPacket` on.
use multicast_bridge.Common.{
  ℕ, ◌+◌, ◌≤◌, ◌<◌, ◌≡◌, ap, ◌∙◌, ◌⊎◌, if◌then◌else◌, ltb, leb, Bool, true, false, List, [], ◌∷◌,
  length, take, drop, get_or, get_elem?, set, some, arith, length-take,
}
use multicast_bridge.Fec.Codec.{Codec, present, PartOf, AllOfLength}
use multicast_bridge.Fec.Manager.{FecManager, settle, receive}
use multicast_bridge.Fec.Manager.Group.{GroupState, buffer, pass_through}
use multicast_bridge.Fec.Manager.Slots.{
  count_true, count_true-set, take-set_lt, take-set_le, drop-set_lt,
}
use multicast_bridge.Fec.Manager.Word.{IsShard, Fits, Fits-set, Fits-length}

-- An encoded word of `n` shards of `l` bytes, of which `xs` are the `k` data shards, and which the
-- decoder rebuilds from any `k` shards.
pub record IsWord (c : Codec) (k n l : ℕ) (xs word : List (List ℕ)) : Type 0 where
  pub some_data : 1 ≤ k
  pub some_bytes : 1 ≤ l
  pub data_le : k ≤ n
  pub count : length word ≡ n
  pub even : AllOfLength l word
  pub front : take k word ≡ xs
  pub rebuild :
      (part : List (List ℕ)) → PartOf part word → k ≤ present part → c.reconstruct part ≡ some word

-- A packet at its place in the group.
pub record Arrival : Type 0 where
  pub index : ℕ
  pub packet : List ℕ
  pub is_fec : Bool
  pub time : ℕ

-- It is a packet of the word, of the kind that its place says; parity has the full length.
pub record IsOf (k n l : ℕ) (word : List (List ℕ)) (a : Arrival) : Type 0 where
  pub shard : List ℕ
  pub place : get_elem? word a.index ≡ some shard
  pub matches : IsShard l a.packet shard
  pub inside : a.index < n
  pub kind : a.is_fec ≡ leb k a.index
  pub full : k ≤ a.index → length a.packet ≡ l

-- The group while fewer than `k` of its packets are there.
pub record Holds (k n l : ℕ) (word : List (List ℕ)) (g : GroupState) : Type 0 where
  pub same_k : g.k ≡ k
  pub fits : Fits l word g.received g.packets
  pub sent_prefix : g.sent ≡ take k g.received
  pub counted : g.recv_count ≡ count_true g.received
  pub below : g.max_len ≤ l
  pub sized : (count_true (drop k g.received) ≡ 0) ⊎ (g.max_len ≡ l)

-- The group with the packet buffered and, if it is a data packet, passed through.
abbrev pub with_packet : ℕ → GroupState → Arrival → GroupState
with_packet k g a = record g {
  packets = set g.packets a.index a.packet;
  received = set g.received a.index true;
  sent = if ltb a.index k then set g.sent a.index true else g.sent;
  recv_count = g.recv_count + 1;
  max_len = if ltb g.max_len (length a.packet) then length a.packet else g.max_len;
}

abbrev pub passed_on : ℕ → Arrival → List (List ℕ)
passed_on k a = if ltb a.index k then a.packet ∷ [] else []

pub length-sent :
    (c : Codec) (k n l : ℕ) (xs word : List (List ℕ)) (w : IsWord c k n l xs word) (g : GroupState)
    (h : Holds k n l word g)
    → length g.sent ≡ k
length-sent c k n l xs word w g h = omega (
  arith,
  ap length h.sent_prefix,
  length-take k g.received,
  Fits-length l word g.received g.packets h.fits,
  w.count,
  w.data_le,
)

module _ (k n l : ℕ) (word : List (List ℕ)) (count : length word ≡ n) (g : GroupState) (a : Arrival)
    (h : Holds k n l word g) (o : IsOf k n l word a)
    (new : get_or g.received a.index false ≡ false) where
  length-received : length g.received ≡ n
  length-received = Fits-length l word g.received g.packets h.fits ∙ count

  sent_prefix-with : (with_packet k g a).sent ≡ take k (set g.received a.index true)
  sent_prefix-with = ground (
    arith,
    h.sent_prefix,
    take-set_lt k g.received a.index true,
    take-set_le k g.received a.index true,
  )

  sized-with :
      (count_true (drop k (set g.received a.index true)) ≡ 0) ⊎ ((with_packet k g a).max_len ≡ l)
  sized-with =
      ground
        (arith, h.sized, h.below, o.matches.fits, o.full, drop-set_lt k g.received a.index true)

  pub with_packet-Holds : Holds k n l word (with_packet k g a)
  with_packet-Holds = record {
    same_k = h.same_k;
    fits = Fits-set l word g.received g.packets a.index a.packet o.shard h.fits o.place o.matches;
    sent_prefix = sent_prefix-with;
    counted = omega (
      arith,
      h.counted,
      count_true-set g.received a.index (omega (arith, length-received, o.inside)) new,
    );
    below = ground (arith, h.below, o.matches.fits);
    sized = sized-with;
  }

  pub receive-settle :
      (m : FecManager) (group_num : ℕ)
      → receive m g a.packet a.is_fec group_num a.index
        ≡ settle m group_num (with_packet k g a) (passed_on k a)
  unfolding receive pass_through buffer
  receive-settle m group_num = ground (arith, new, o.kind, h.same_k)
