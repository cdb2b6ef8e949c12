-- ===== src/Data/Queue.antt =====
-- internal/data/queue.go: the bounded packet queue that drops its oldest packet when it is full.
--
-- Each function is one critical section under `pq.mu`. A `Dequeue` that would wait on the condition
-- variable is the outcome `wait`: it is tried again after the next step of another goroutine.
pub mod Steps
pub mod Refinement
pub mod Fits
use multicast_bridge.Common.{
  ℕ, ◌+◌, if◌then◌else◌, leb, ltb, Bool, true, false, List, [], ◌∷◌, ◌++◌, length, drop, Option,
}
use multicast_bridge.Common.Results.{Result, ok, err}

pub data QueueError : Type 0 where
  queue_closed : QueueError

-- A destination is a number.
pub record Packet : Type 0 where
  pub bytes : List ℕ
  pub addr : ℕ

-- The field `droppedCount` is an int64 in the source.
pub record PacketQueue (P : Type 0) : Type 0 where
  pub packets : List P
  pub max_size : ℕ
  pub closed : Bool
  pub dropped_count : ℕ

-- What a pass of `Dequeue` comes to.
pub data Dequeued (P : Type 0) : Type 0 where
  wait : Dequeued P
  failed : QueueError → Dequeued P
  got : P → Dequeued P

module _ {P : Type 0} where
  unfoldable pub new_packet_queue : ℕ → PacketQueue P
  new_packet_queue max_size =
      let size = if ltb max_size 1 then 1 else max_size in
      record { packets = []; max_size = size; closed = false; dropped_count = 0 }

  -- The eviction that makes room in a full queue.
  unfoldable pub evict : PacketQueue P → PacketQueue P
  evict pq =
      if leb pq.max_size (length pq.packets)
      then record pq { packets = drop 1 pq.packets; dropped_count = pq.dropped_count + 1 }
      else pq

  unfoldable pub enqueue : P → PacketQueue P → PacketQueue P × Result QueueError (Unit {0})
  unfolding evict
  enqueue pkt pq =
      if pq.closed
      then (pq, err queue_closed)
      else let room = evict pq in (record room { packets = room.packets ++ (pkt ∷ []) }, ok tt)

  take_first : PacketQueue P → List P → PacketQueue P × Dequeued P
  take_first pq [] = (pq, wait)
  take_first pq (pkt ∷ rest) = (record pq { packets = rest }, got pkt)

  -- The loop waits while the queue is empty and open; a closed queue fails first.
  unfoldable pub dequeue : PacketQueue P → PacketQueue P × Dequeued P
  unfolding take_first
  dequeue pq = if pq.closed then (pq, failed queue_closed) else take_first pq pq.packets

  unfoldable pub close : PacketQueue P → PacketQueue P
  close pq = if pq.closed then pq else record pq { closed = true; packets = [] }

  unfoldable pub size : PacketQueue P → ℕ
  size pq = length pq.packets

  unfoldable pub dropped_count_of : PacketQueue P → ℕ
  dropped_count_of pq = pq.dropped_count
