-- ===== src/Data/Queue/Steps.antt =====
-- internal/data/queue.go: any sequence of `Enqueue`, `Dequeue` and `Close`, in the order in which
-- the goroutines take the lock.
use mathlib.Core.List.{Sublist, append_assoc, append-nil, sublist-append_left}
use mathlib.Core.List.Sublist
use mathlib.Core.Path.{subst}
use native.Mathlib.Decide.{dec_lt}
use multicast_bridge.Common.{
  ◌-◌, ℕ, ◌+◌, ◌≤◌, ◌<◌, ◌≡◌, refl, ap, inl, inr, true, false, List, [], ◌∷◌, ◌++◌, length, drop,
  arith, length-append, length-drop, Bool-cases,
}
use multicast_bridge.Common.Results.{Result, ok, err}
use multicast_bridge.Data.Queue.{
  PacketQueue, QueueError, queue_closed, Dequeued, wait, failed, got, new_packet_queue, enqueue,
  dequeue, close,
}

pub data Op (P : Type 0) : Type 0 where
  put : P → Op P
  take_one : Op P
  shut : Op P

-- The queue, with the packets that it accepted and those that it handed out, oldest first.
pub record Trace (P : Type 0) : Type 0 where
  pub queue : PacketQueue P
  pub accepted : List P
  pub delivered : List P

module _ {P : Type 0} where
  abbrev note_put : Trace P → P → PacketQueue P × Result QueueError (Unit {0}) → Trace P
  note_put t pkt (q, ok _) = record t { queue = q; accepted = t.accepted ++ (pkt ∷ []) }
  note_put t pkt (q, err _) = record t { queue = q }

  abbrev note_take : Trace P → PacketQueue P × Dequeued P → Trace P
  note_take t (q, wait) = record t { queue = q }
  note_take t (q, failed _) = record t { queue = q }
  note_take t (q, got pkt) = record t { queue = q; delivered = t.delivered ++ (pkt ∷ []) }

  pub step : Trace P → Op P → Trace P
  step t (put pkt) = note_put t pkt (enqueue pkt t.queue)
  step t take_one = note_take t (dequeue t.queue)
  step t shut = record t { queue = close t.queue }

  pub run : Trace P → List (Op P) → Trace P
  run t [] = t
  run t (o ∷ os) = run (step t o) os

  pub start : ℕ → Trace P
  start max_size = record { queue = new_packet_queue max_size; accepted = []; delivered = [] }

  -- The queue is never over its size, a closed one is empty, what went out and what is held are
  -- accepted packets in their order, and an open queue accounts for every one of them.
  pub record IsSound (t : Trace P) : Type 0 where
    pub room : 1 ≤ t.queue.max_size
    pub bounded : length t.queue.packets ≤ t.queue.max_size
    pub emptied : t.queue.closed ≡ true → t.queue.packets ≡ []
    pub in_order : Sublist (t.delivered ++ t.queue.packets) t.accepted
    pub counted :
        t.queue.closed ≡ false
        → length t.accepted ≡ length t.delivered + length t.queue.packets + t.queue.dropped_count

  start-IsSound : (max_size : ℕ) → IsSound (start max_size)
  unfolding start new_packet_queue
  start-IsSound max_size = record {
    room = ground arith;
    bounded = ground arith;
    emptied = λ e. refl;
    in_order = Sublist.refl [];
    counted = λ e. refl;
  }

  drop_one-sublist : (xs : List P) → Sublist (drop 1 xs) xs
  drop_one-sublist [] = Sublist.refl []
  drop_one-sublist (x ∷ xs) = Sublist.cons x (Sublist.refl xs)

  put_order :
      (d p p' a : List P) (pkt : P)
      → Sublist p' p
      → Sublist (d ++ p) a
      → Sublist (d ++ (p' ++ (pkt ∷ []))) (a ++ (pkt ∷ []))
  put_order d p p' a pkt h k = rw (← append_assoc d p' (pkt ∷ [])) (
      Sublist.append (Sublist.trans (Sublist.append (Sublist.refl d) h) k)
        (Sublist.refl (pkt ∷ [])))

  pub enqueue_closed :
      (pkt : P) (q : PacketQueue P) → q.closed ≡ true → enqueue pkt q ≡ (q, err queue_closed)
  unfolding enqueue
  enqueue_closed pkt q e = ground arith

  pub enqueue_full :
      (pkt : P) (q : PacketQueue P)
      → q.closed ≡ false
      → q.max_size ≤ length q.packets
      → enqueue pkt q ≡ (
        record q { packets = drop 1 q.packets ++ (pkt ∷ []); dropped_count = q.dropped_count + 1 },
        ok tt,
      )
  unfolding enqueue
  enqueue_full pkt q e h = ground arith

  pub enqueue_room :
      (pkt : P) (q : PacketQueue P)
      → q.closed ≡ false
      → length q.packets < q.max_size
      → enqueue pkt q ≡ (record q { packets = q.packets ++ (pkt ∷ []) }, ok tt)
  unfolding enqueue
  enqueue_room pkt q e h = ground arith

  full-IsSound :
      (t : Trace P) (pkt : P)
      → IsSound t
      → t.queue.closed ≡ false
      → t.queue.max_size ≤ length t.queue.packets
      → IsSound (step t (put pkt))
  unfolding step
  full-IsSound t pkt v e h = rw (enqueue_full pkt t.queue e h) (record {
    room = v.room;
    bounded = omega (arith, v.bounded, v.room, size);
    emptied = λ c. cc;
    in_order =
        put_order t.delivered q.packets (drop 1 q.packets) t.accepted pkt
          (drop_one-sublist q.packets) v.in_order;
    counted = λ c. omega (arith, v.counted c, v.room, size, length-append t.accepted (pkt ∷ []));
  })
    where
      q : PacketQueue P
      q = t.queue

      size : length (drop 1 q.packets ++ (pkt ∷ [])) ≡ length q.packets - 1 + 1
      size = omega (arith, length-append (drop 1 q.packets) (pkt ∷ []), length-drop 1 q.packets)

  room-IsSound :
      (t : Trace P) (pkt : P)
      → IsSound t
      → t.queue.closed ≡ false
      → length t.queue.packets < t.queue.max_size
      → IsSound (step t (put pkt))
  unfolding step
  room-IsSound t pkt v e h = rw (enqueue_room pkt t.queue e h) (record {
    room = v.room;
    bounded = omega (arith, length-append t.queue.packets (pkt ∷ []));
    emptied = λ c. cc;
    in_order =
        put_order t.delivered t.queue.packets t.queue.packets t.accepted pkt
          (Sublist.refl t.queue.packets) v.in_order;
    counted = λ c. omega (
      arith,
      v.counted c,
      length-append t.queue.packets (pkt ∷ []),
      length-append t.accepted (pkt ∷ []),
    );
  })

  put-IsSound : (t : Trace P) (pkt : P) → IsSound t → IsSound (step t (put pkt))
  put-IsSound t pkt v = elim (Bool-cases t.queue.closed) [
    | inl e ↦ unfold step in rw (enqueue_closed pkt t.queue e) v
    | inr e ↦ elim (dec_lt (length t.queue.packets) t.queue.max_size) [
      | yes h ↦ room-IsSound t pkt v e h
      | no h ↦ full-IsSound t pkt v e (omega arith)
    ]
  ]

  dequeue_closed : (q : PacketQueue P) → q.closed ≡ true → dequeue q ≡ (q, failed queue_closed)
  unfolding dequeue
  dequeue_closed q e = ground arith

  dequeue_empty : (q : PacketQueue P) → q.closed ≡ false → q.packets ≡ [] → dequeue q ≡ (q, wait)
  unfolding dequeue
  dequeue_empty q e h = ground arith

  pub dequeue_first :
      (q : PacketQueue P) (pkt : P) (rest : List P)
      → q.closed ≡ false
      → q.packets ≡ pkt ∷ rest
      → dequeue q ≡ (record q { packets = rest }, got pkt)
  unfolding dequeue
  dequeue_first q pkt rest e h = ground arith

  take-IsSound :
      (t : Trace P) (xs : List P)
      → t.queue.packets ≡ xs
      → t.queue.closed ≡ false
      → IsSound t
      → IsSound (step t take_one)
  unfolding step
  take-IsSound t [] h e v = rw (dequeue_empty t.queue e h) v
  take-IsSound t (pkt ∷ rest) h e v = rw (dequeue_first t.queue pkt rest e h) (record {
    room = v.room;
    bounded = omega (arith, v.bounded, ap length h);
    emptied = λ c. cc;
    in_order =
        rw (append_assoc t.delivered (pkt ∷ []) rest)
          (subst (λ p. Sublist (t.delivered ++ p) t.accepted) h v.in_order);
    counted = λ c. omega (arith, v.counted c, ap length h, length-append t.delivered (pkt ∷ []));
  })

  take_one-IsSound : (t : Trace P) → IsSound t → IsSound (step t take_one)
  take_one-IsSound t v = elim (Bool-cases t.queue.closed) [
    | inl e ↦ unfold step in rw (dequeue_closed t.queue e) v
    | inr e ↦ take-IsSound t t.queue.packets refl e v
  ]

  close_closed : (q : PacketQueue P) → q.closed ≡ true → close q ≡ q
  unfolding close
  close_closed q e = ground arith

  close_open :
      (q : PacketQueue P) → q.closed ≡ false → close q ≡ record q { closed = true; packets = [] }
  unfolding close
  close_open q e = ground arith

  shut-IsSound : (t : Trace P) → IsSound t → IsSound (step t shut)
  unfolding step
  shut-IsSound t v = elim (Bool-cases t.queue.closed) [
    | inl e ↦ rw (close_closed t.queue e) v
    | inr e ↦ rw (close_open t.queue e) (record {
      room = v.room;
      bounded = omega arith;
      emptied = λ c. refl;
      in_order =
          rw (append-nil t.delivered)
            (Sublist.trans (sublist-append_left t.delivered t.queue.packets) v.in_order);
      counted = λ c. cc;
    })
  ]

  pub step-IsSound : (t : Trace P) (o : Op P) → IsSound t → IsSound (step t o)
  step-IsSound t (put pkt) v = put-IsSound t pkt v
  step-IsSound t take_one v = take_one-IsSound t v
  step-IsSound t shut v = shut-IsSound t v

  run-IsSound : (os : List (Op P)) (t : Trace P) → IsSound t → IsSound (run t os)
  unfolding run
  run-IsSound [] t v = v
  run-IsSound (o ∷ os) t v = run-IsSound os (step t o) (step-IsSound t o v)

  -- After any calls on a new queue, in any order: it holds at most its size, a closed one holds
  -- nothing, the packets handed out and then those held are packets that were accepted, in the
  -- order in which they came and none twice, and while the queue is open each accepted packet was
  -- handed out, is held or is counted as dropped.
  pub run-start-IsSound : (max_size : ℕ) (os : List (Op P)) → IsSound (run (start max_size) os)
  run-start-IsSound max_size os = run-IsSound os (start max_size) (start-IsSound max_size)
