-- ===== src/Data/Session/Broadcast.antt =====
-- internal/data/session.go: what a session holds after a run of `Broadcast`.
use multicast_bridge.Common.{ℕ, ◌≡◌, List, [], ◌∷◌, map, some, arith}
use multicast_bridge.Common.Assoc.{lookup}
use multicast_bridge.Data.Queue.{Packet}
use multicast_bridge.Data.Queue.Refinement.{IsOpen, Keeps, burst, burst-Keeps}
use multicast_bridge.Data.Session.{Session, SessionManager, offered, on_each, broadcast}

abbrev pub addressed : ℕ → List ℕ → Packet
addressed addr bytes = record { bytes = bytes; addr = addr }

module _ {A : Type 0} where
  pub broadcast_each : List (List ℕ) → SessionManager A → SessionManager A
  broadcast_each [] sm = sm
  broadcast_each (bytes ∷ rest) sm = broadcast_each rest (broadcast sm bytes)

  on_each_finds :
      (f : Session A → Session A) (key : ℕ) (m : List (ℕ × Session A)) (s : Session A)
      → lookup key m ≡ some s
      → lookup key (on_each f m) ≡ some (f s)
  unfolding lookup
  on_each_finds f key [] s e = cc
  on_each_finds f key ((j, x) ∷ m) s e = ground (arith, on_each_finds f key m s, e)

  lookup-broadcast_each :
      (datagrams : List (List ℕ)) (sm : SessionManager A) (key : ℕ) (s : Session A)
      → lookup key sm.sessions ≡ some s
      → lookup key (broadcast_each datagrams sm).sessions
        ≡ some (record s { queue = burst (map (addressed s.addr) datagrams) s.queue })
  unfolding broadcast_each broadcast burst
  lookup-broadcast_each [] sm key s e = e
  lookup-broadcast_each (bytes ∷ rest) sm key s e =
      lookup-broadcast_each rest (record sm { sessions = on_each (offered bytes) sm.sessions }) key
        (offered bytes s) (on_each_finds (offered bytes) key sm.sessions s e)

  -- Any number of broadcasts to a manager that has a session with an open queue: the session is
  -- still there, and its queue holds the last `maxSize` of what it held and those datagrams, in
  -- order and addressed to the receiver, and has counted each packet that it gave up.
  pub broadcast_each-Keeps :
      (datagrams : List (List ℕ)) (sm : SessionManager A) (key : ℕ) (s : Session A)
      → lookup key sm.sessions ≡ some s
      → IsOpen s.queue
      → (s' : Session A) × (lookup key (broadcast_each datagrams sm).sessions ≡ some s')
        × Keeps s.queue s'.queue (map (addressed s.addr) datagrams)
  broadcast_each-Keeps datagrams sm key s e v = (
    _,
    lookup-broadcast_each datagrams sm key s e,
    burst-Keeps (map (addressed s.addr) datagrams) s.queue v,
  )
