-- ===== src/Tests/Worker.antt =====
-- The theorems on the session worker at concrete inputs.
use multicast_bridge.Common.{
  ℕ, ◌%◌, ◌^◌, ◌≤◌, ◌≡◌, refl, length, true, false, List, [], ◌∷◌, ◌++◌, Option, none, some, arith,
}
use multicast_bridge.Common.Int.{ℤ, pos, IsI64}
use multicast_bridge.Data.Session.{Session, SessionManager}
use multicast_bridge.Data.Session.Worker.{
  data_info, fec_info_of, frame, start_worker, sent, send_packets,
}
use multicast_bridge.Data.Session.Worker.Info.{fields, fields-info}
use multicast_bridge.Data.Session.Worker.Frame.{unwrap, unwrap-pad}
use multicast_bridge.Data.Session.Worker.Numbers.{Counted, send_packets-start-Counted}
use multicast_bridge.Fec.Encode.{pad}
use multicast_bridge.Tests.Sums.{sums}

fields-info_example :
    (fields (data_info 2000 3) ≡ (false, 2000, 3)) × (fields (fec_info_of 2000 3) ≡ (true, 2000, 3))
fields-info_example = fields-info 2000 3 (omega arith) (omega arith)

frame_fits : length (frame 9 (pos 100) 32 (1 ∷ 2 ∷ 3 ∷ [])) ≤ 30
unfolding frame multicast_bridge.Data.Header.serialize
frame_fits = omega arith

unwrap-pad_example : unwrap (pad 30 (frame 9 (pos 100) 32 (1 ∷ 2 ∷ 3 ∷ []))) ≡ some (1 ∷ 2 ∷ 3 ∷ [])
unwrap-pad_example =
    unwrap-pad 9 (pos 100) 32 (1 ∷ 2 ∷ 3 ∷ []) 30 (omega arith) (omega arith, omega arith)
      (omega arith) (omega arith) frame_fits

-- A cipher that writes its key and the packet's number before the text.
abbrev keyed : ℕ → List ℕ → List ℕ → Option (List ℕ)
keyed seq key bytes = some (key ++ (seq ∷ bytes))

abbrev ticks : ℕ → ℤ
ticks n = pos (n % 2 ^ 32)

ticks-IsI64 : (n : ℕ) → IsI64 (ticks n)
ticks-IsI64 n = (omega arith, omega arith)

abbrev sender : SessionManager (List ℕ)
sender = record {
  sessions = [];
  max_sessions = 1;
  cancelled = false;
  fec_enabled = true;
  fec_k = 2;
  fec_n = 3;
  fec_encoder = some sums;
  encryption_enabled = true;
  stopped = [];
  notes = [];
}

abbrev one_session : Session (List ℕ)
one_session = record {
  id = 7;
  addr = 7;
  control_addr = none;
  queue = record { packets = []; max_size = 2; closed = false; dropped_count = 0 };
  cancelled = false;
  last_active = 0;
  seq_num = 0;
  key = 4 ∷ [];
  aead = some (4 ∷ []);
}

-- The numbers wrap around within the group.
send_packets-start-Counted_example : Counted 4294967295 (
    send_packets keyed ticks
      (λ bytes. sent)
      sender
      one_session
      ((1 ∷ []) ∷ (2 ∷ 3 ∷ []) ∷ (4 ∷ []) ∷ [])
      (start_worker (4294967295 % 2 ^ 32)))
send_packets-start-Counted_example =
    send_packets-start-Counted keyed ticks sender (λ seq key bytes. (key ++ (seq ∷ bytes), refl))
      ticks-IsI64 4294967295 one_session ((1 ∷ []) ∷ (2 ∷ 3 ∷ []) ∷ (4 ∷ []) ∷ [])
