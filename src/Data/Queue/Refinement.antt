-- ===== src/Data/Queue/Refinement.antt =====
-- internal/data/queue.go against its contract, the latest packets of a sequence.
use multicast_bridge.Common.{
  ℕ, ◌+◌, ◌-◌, ◌≤◌, ◌≡◌, refl, sym, ap, ◌∙◌, false, List, [], ◌∷◌, ◌++◌, length, drop, arith,
  length-append, length-drop, drop-append_le, drop-drop,
}
use mathlib.Core.List.{append_assoc, append-nil}
use native.Mathlib.Decide.{dec_lt}
use multicast_bridge.Data.Queue.{PacketQueue, enqueue}
use multicast_bridge.Data.Queue.Steps.{enqueue_full, enqueue_room}

module _ {P : Type 0} where
  -- The specification: of a sequence, its last `m` elements.
  abbrev pub keep_last : ℕ → List P → List P
  keep_last m xs = drop (length xs - m) xs

  pub drop_by : (m n : ℕ) (xs : List P) → m ≡ n → drop m xs ≡ drop n xs
  drop_by m n xs e = ap (λ k. drop k xs) e

  pub keep_last-keep_last :
      (m : ℕ) (xs ys : List P) → keep_last m (keep_last m xs ++ ys) ≡ keep_last m (xs ++ ys)
  keep_last-keep_last m xs ys =
      ap (λ l. keep_last m l) (drop-append_le (length xs - m) xs ys (omega arith))
      ∙ ap (λ k. drop k (drop (length xs - m) (xs ++ ys))) size
      ∙ drop-drop (length xs - m) (length (xs ++ ys) - m - (length xs - m)) (xs ++ ys)
      ∙ ap (λ k. drop k (xs ++ ys)) (omega (arith, length-append xs ys))
    where
      size : length (drop (length xs - m) (xs ++ ys)) - m ≡ length (xs ++ ys) - m - (length xs - m)
      size = omega (arith, length-drop (length xs - m) (xs ++ ys), length-append xs ys)

  -- `Enqueue`, once for each packet of a burst.
  unfoldable pub burst : List P → PacketQueue P → PacketQueue P
  burst [] q = q
  burst (pkt ∷ pkts) q = burst pkts (enqueue pkt q).0

  pub record IsOpen (q : PacketQueue P) : Type 0 where
    pub room : 1 ≤ q.max_size
    pub bounded : length q.packets ≤ q.max_size
    pub opened : q.closed ≡ false

  -- One call against the specification.
  pub record Keeps (q r : PacketQueue P) (pkts : List P) : Type 0 where
    pub latest : r.packets ≡ keep_last q.max_size (q.packets ++ pkts)
    pub dropped : r.dropped_count ≡ q.dropped_count + (length q.packets + length pkts - q.max_size)
    pub same_size : r.max_size ≡ q.max_size
    pub still_open : r.closed ≡ false

  enqueue-Keeps : (pkt : P) (q : PacketQueue P) → IsOpen q → Keeps q (enqueue pkt q).0 (pkt ∷ [])
  enqueue-Keeps pkt q v = elim (dec_lt (length q.packets) q.max_size) [
    | yes h ↦ rw (enqueue_room pkt q v.opened h) (record {
      latest =
          drop_by 0 (length (q.packets ++ (pkt ∷ [])) - q.max_size) _
            (omega (arith, length-append q.packets (pkt ∷ [])));
      dropped = omega arith;
      same_size = refl;
      still_open = v.opened;
    })
    | no h ↦ rw (enqueue_full pkt q v.opened (omega arith)) (record {
      latest =
          drop-append_le 1 q.packets (pkt ∷ []) (omega (arith, v.room))
          ∙ drop_by 1 (length (q.packets ++ (pkt ∷ [])) - q.max_size) _
              (omega (arith, length-append q.packets (pkt ∷ []), v.bounded));
      dropped = omega (arith, v.bounded);
      same_size = refl;
      still_open = v.opened;
    })
  ]

  Keeps-IsOpen : {q r : PacketQueue P} {pkts : List P} → IsOpen q → Keeps q r pkts → IsOpen r
  Keeps-IsOpen {q} {r} {pkts} v k = record {
    room = omega (arith, v.room, k.same_size);
    bounded = omega (
      arith,
      ap length k.latest,
      length-drop (length (q.packets ++ pkts) - q.max_size) (q.packets ++ pkts),
      k.same_size,
    );
    opened = k.still_open;
  }

  Keeps-trans :
      {q r s : PacketQueue P} (xs ys : List P)
      → IsOpen q
      → Keeps q r xs
      → Keeps r s ys
      → Keeps q s (xs ++ ys)
  Keeps-trans {q} {r} {s} xs ys v a b = record {
    latest =
        b.latest
        ∙ ap (λ m. keep_last m (r.packets ++ ys)) a.same_size
        ∙ ap (λ l. keep_last q.max_size (l ++ ys)) a.latest
        ∙ keep_last-keep_last q.max_size (q.packets ++ xs) ys
        ∙ ap (keep_last q.max_size) (append_assoc q.packets xs ys);
    dropped = omega (
      arith,
      a.dropped,
      b.dropped,
      a.same_size,
      v.bounded,
      ap length a.latest,
      length-drop (length (q.packets ++ xs) - q.max_size) (q.packets ++ xs),
      length-append q.packets xs,
      length-append xs ys,
    );
    same_size = b.same_size ∙ a.same_size;
    still_open = b.still_open;
  }

  -- A burst of packets to an open queue, however long: it then holds the last `max_size` of what it
  -- held and the burst together, in order, and counts each packet that it gave up.
  pub burst-Keeps : (pkts : List P) (q : PacketQueue P) → IsOpen q → Keeps q (burst pkts q) pkts
  unfolding burst
  burst-Keeps [] q v = record {
    latest =
        sym (append-nil q.packets)
        ∙ drop_by 0 (length (q.packets ++ []) - q.max_size) (q.packets ++ [])
            (omega (arith, v.bounded, length-append q.packets []));
    dropped = omega (arith, v.bounded);
    same_size = refl;
    still_open = v.opened;
  }
  burst-Keeps (pkt ∷ pkts) q v =
      let one = enqueue-Keeps pkt q v in
      Keeps-trans (pkt ∷ []) pkts v one (burst-Keeps pkts (enqueue pkt q).0 (Keeps-IsOpen v one))
