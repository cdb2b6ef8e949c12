-- ===== src/Data/Queue/Fits.antt =====
-- internal/data/queue.go: a bound on the length of the packets.
use multicast_bridge.Common.{
  ℕ, ◌≤◌, if◌then◌else◌, Bool, true, false, List, [], ◌∷◌, ◌++◌, length, drop, All,
}
use multicast_bridge.Common.Results.{Result}
use multicast_bridge.Data.Queue.{Packet, PacketQueue, QueueError, evict, enqueue}

-- No packet is longer than `most` bytes.
abbrev pub Fits : ℕ → List Packet → Type 0
Fits most = All (λ p. length p.bytes ≤ most)

append-Fits :
    (most : ℕ) (ps : List Packet) (p : Packet)
    → length p.bytes ≤ most
    → Fits most ps
    → Fits most (ps ++ (p ∷ []))
append-Fits most [] p h v = (h, tt)
append-Fits most (q ∷ ps) p h v = (v.0, append-Fits most ps p h v.1)

drop-Fits : (most : ℕ) (ps : List Packet) → Fits most ps → Fits most (drop 1 ps)
drop-Fits most [] v = tt
drop-Fits most (q ∷ ps) v = v.1

cond-Fits :
    (most : ℕ) (b : Bool) (x y : PacketQueue Packet)
    → Fits most x.packets
    → Fits most y.packets
    → Fits most (if b then x else y).packets
cond-Fits most true x y p q = p
cond-Fits most false x y p q = q

cond-result-Fits :
    (most : ℕ) (b : Bool) (x y : PacketQueue Packet × Result QueueError (Unit {0}))
    → Fits most x.0.packets
    → Fits most y.0.packets
    → Fits most (if b then x else y).0.packets
cond-result-Fits most true x y p q = p
cond-result-Fits most false x y p q = q

evict-Fits : (most : ℕ) (q : PacketQueue Packet) → Fits most q.packets → Fits most (evict q).packets
unfolding evict
evict-Fits most q v = cond-Fits most _ _ q (drop-Fits most q.packets v) v

pub enqueue-Fits :
    (most : ℕ) (p : Packet) (q : PacketQueue Packet)
    → length p.bytes ≤ most
    → Fits most q.packets
    → Fits most (enqueue p q).0.packets
unfolding enqueue
enqueue-Fits most p q h v =
    cond-result-Fits most q.closed _ _ v (append-Fits most _ p h (evict-Fits most q v))
