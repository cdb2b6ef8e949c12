-- ===== src/Tests/Forward.antt =====
-- The theorem on the forwarding loop at a concrete input.
use multicast_bridge.Common.{
  ℕ, ◌≡◌, refl, true, false, List, [], ◌∷◌, ◌++◌, Option, none, some, arith,
}
use multicast_bridge.Common.Int.{pos}
use multicast_bridge.Data.Session.Worker.{frame}
use multicast_bridge.Data.Session.Worker.Info.{is_fec_of}
use multicast_bridge.Fec.Manager.{new_fec_manager}
use multicast_bridge.Logger.Receiver.{new_receiver_stats}
use multicast_bridge.Receiver.Stats.{StreamStats, reset_stats, update, place, note_latency}
use multicast_bridge.Receiver.Forward.{Forward, on_datagram}
use multicast_bridge.Receiver.Forward.Plain.{on_datagram-frame}

-- A cipher that takes the first byte off.
abbrev uncover : ℕ → List ℕ → Option (List ℕ)
uncover key [] = none
uncover key (b ∷ bytes) = some bytes

abbrev first_forward : Forward ℕ
first_forward = record {
  stats = reset_stats;
  figures = new_receiver_stats;
  analyzed = some [];
  fec = some (new_fec_manager (λ k parity. none) false 0 0 0);
  control_open = true;
  reconnect = false;
  aead = some 4;
  sent = [];
}

abbrev stats_of : Option StreamStats → StreamStats
stats_of none = reset_stats
stats_of (some s) = s

abbrev first_stats : StreamStats
first_stats = stats_of (update reset_stats 9 (pos 100) 3_000)

counted_first : update reset_stats 9 (pos 100) 3_000 ≡ some first_stats
unfolding update place note_latency reset_stats
counted_first = refl

data_flag : is_fec_of 32 ≡ false
unfolding is_fec_of
data_flag = refl

on_datagram-frame_example :
    (f' : Forward ℕ) × (on_datagram true uncover 3_000
        (frame 9 (pos 100) 32 (7 ∷ 8 ∷ []))
        first_forward
      ≡ some f')
    × (f'.sent ≡ first_forward.sent ++ ((8 ∷ []) ∷ []))
unfolding new_fec_manager
on_datagram-frame_example =
    on_datagram-frame true uncover first_forward 3_000 9 (pos 100) 32 (7 ∷ 8 ∷ []) first_stats 8 []
      (omega arith) (omega arith, omega arith) (omega arith) (omega arith) data_flag refl
      counted_first refl
