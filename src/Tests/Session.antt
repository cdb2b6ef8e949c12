-- ===== src/Tests/Session.antt =====
-- The theorems on the session manager at concrete inputs.
use multicast_bridge.Common.{
  ℕ, ◌≡◌, refl, true, false, List, [], ◌∷◌, map, Option, none, some, arith,
}
use multicast_bridge.Common.Int.{pos}
use multicast_bridge.Common.Assoc.{lookup}
use multicast_bridge.Data.Queue.Refinement.{Keeps}
use multicast_bridge.Data.Session.{Session, SessionManager, new_session_manager, check_timeouts}
use multicast_bridge.Data.Session.Operations.{
  Call, add, remove, send_all, keep_control_alive, clean_up, calls,
}
use multicast_bridge.Data.Session.Invariant.{IsSound, AreLive}
use multicast_bridge.Data.Session.Keep.{calls-new-IsSound}
use multicast_bridge.Data.Session.Timeouts.{on_time, lookup-check_timeouts}
use multicast_bridge.Data.Session.Broadcast.{addressed, broadcast_each, broadcast_each-Keeps}

-- A cipher is its key; a key of one byte is bad.
abbrev cipher_of : List ℕ → Option (List ℕ)
cipher_of [] = none
cipher_of (b ∷ []) = none
cipher_of (b ∷ c ∷ key) = some (b ∷ c ∷ key)

abbrev history : List Call
history =
    add 7 (some 70) 4 (1 ∷ 2 ∷ []) 10
    ∷ add 8 none 4 (1 ∷ []) 20
    ∷ add 7 (some 71) 4 [] 30
    ∷ send_all (5 ∷ 6 ∷ [])
    ∷ keep_control_alive 71 40
    ∷ clean_up (pos 5) 50
    ∷ remove 9
    ∷ []

calls-new-IsSound_example :
    IsSound (calls cipher_of history (new_session_manager (λ k parity. none) 2 true 4 6 true))
calls-new-IsSound_example = calls-new-IsSound cipher_of (λ k parity. none) 2 true 4 6 true history

abbrev receiver : ℕ → ℕ → Session (List ℕ)
receiver addr active = record {
  id = addr;
  addr = addr;
  control_addr = none;
  queue = record { packets = []; max_size = 2; closed = false; dropped_count = 0 };
  cancelled = false;
  last_active = active;
  seq_num = 0;
  key = [];
  aead = none;
}

abbrev two_receivers : SessionManager (List ℕ)
two_receivers = record {
  sessions = (7, receiver 7 100) ∷ (8, receiver 8 200) ∷ [];
  max_sessions = 2;
  cancelled = false;
  fec_enabled = false;
  fec_k = 0;
  fec_n = 0;
  fec_encoder = none;
  encryption_enabled = false;
  stopped = [];
  notes = [];
}

two_receivers-AreLive : AreLive two_receivers.cancelled two_receivers.sessions
unfolding AreLive lookup
two_receivers-AreLive = (
  record { same_id = refl; running = refl; opened = refl },
  refl,
  (record { same_id = refl; running = refl; opened = refl }, refl, tt),
)

lookup-check_timeouts_example :
    lookup 7 (check_timeouts two_receivers (pos 50) 210).sessions
    ≡ on_time (pos 50) 210 (lookup 7 two_receivers.sessions)
lookup-check_timeouts_example =
    lookup-check_timeouts two_receivers (pos 50) 210 7 two_receivers-AreLive

found : lookup 8 two_receivers.sessions ≡ some (receiver 8 200)
unfolding lookup
found = refl

broadcast_each-Keeps_example :
    (s : Session (List ℕ)) × (lookup 8
        (broadcast_each ((1 ∷ []) ∷ (2 ∷ []) ∷ (3 ∷ []) ∷ []) two_receivers).sessions
      ≡ some s)
    × Keeps (receiver 8 200).queue s.queue (map (addressed 8) ((1 ∷ []) ∷ (2 ∷ []) ∷ (3 ∷ []) ∷ []))
broadcast_each-Keeps_example =
    broadcast_each-Keeps ((1 ∷ []) ∷ (2 ∷ []) ∷ (3 ∷ []) ∷ []) two_receivers 8 (receiver 8 200)
      found (record { room = omega arith; bounded = omega arith; opened = refl })
