-- ===== src/Data/Session.antt =====
-- internal/data/session.go: `SessionManager`, the forwarding sessions by the receivers' addresses.
--
-- An address is a number, and so is its text, the key of the map. The flag `cancelled` is that the
-- context is done. The
-- calls of `logger.GlobalSenderStats` are noted in `notes`, the newest last. The clock is an argument,
-- and so are `reedsolomon.New` and `crypto.NewAEAD`, of which `none` is the error.
pub mod Operations
pub mod Invariant
pub mod Keep
pub mod Each
pub mod Enter
pub mod Renew
pub mod Timeouts
pub mod Broadcast
pub mod Worker
use multicast_bridge.Common.{
  ℕ, ◌+◌, ◌-◌, ◌==◌, if◌then◌else◌, leb, ltb, Bool, true, false, ◌&&◌, List, [], ◌∷◌, ◌++◌, map,
  length, Option, none, some,
}
use multicast_bridge.Common.Int.{ℤ, pos, less}
use multicast_bridge.Common.Results.{Result, ok, err}
use multicast_bridge.Common.Assoc.{lookup, insert, delete}
use multicast_bridge.Data.Queue.{PacketQueue, Packet, new_packet_queue, enqueue, close}
use multicast_bridge.Fec.Codec.{Codec}

pub record Session (A : Type 0) : Type 0 where
  pub id : ℕ
  pub addr : ℕ
  pub control_addr : Option ℕ
  pub queue : PacketQueue Packet
  pub cancelled : Bool
  pub last_active : ℕ
  pub seq_num : ℕ
  pub key : List ℕ
  pub aead : Option A

-- `SessionJoined`, `SessionRemoved`, `SessionTimeout` and `SessionKeepAlive`.
pub data Note : Type 0 where
  joined removed timed_out kept_alive : ℕ → Note

-- `stopped` holds the sessions that have left the map; their workers may still have them.
pub record SessionManager (A : Type 0) : Type 0 where
  pub sessions : List (ℕ × Session A)
  pub max_sessions : ℕ
  pub cancelled : Bool
  pub fec_enabled : Bool
  pub fec_k : ℕ
  pub fec_n : ℕ
  pub fec_encoder : Option Codec
  pub encryption_enabled : Bool
  pub stopped : List (Session A)
  pub notes : List Note

pub data SessionError : Type 0 where
  manager_stopped max_sessions_reached bad_key : SessionError

abbrev pub same_control : ℕ → Option ℕ → Bool
same_control control_addr none = false
same_control control_addr (some a) = a == control_addr

module _ {A : Type 0} where
  unfoldable pub new_session_manager :
      (ℕ → ℕ → Option Codec) → ℕ → Bool → ℕ → ℕ → Bool → SessionManager A
  new_session_manager new_codec max_sessions fec_enabled fec_k fec_n encryption_enabled =
      let encoder =
        if fec_enabled && (ltb 0 fec_k && ltb fec_k fec_n)
        then new_codec fec_k (fec_n - fec_k)
        else none in
      record {
        sessions = [];
        max_sessions = max_sessions;
        cancelled = false;
        fec_enabled = elim encoder [ none ↦ false | some c ↦ true ];
        fec_k = fec_k;
        fec_n = fec_n;
        fec_encoder = encoder;
        encryption_enabled = encryption_enabled;
        stopped = [];
        notes = [];
      }

  -- The context of a session is a child of the manager's: it is done with it.
  abbrev pub cancel_each : List (ℕ × Session A) → List (ℕ × Session A)
  cancel_each [] = []
  cancel_each ((key, s) ∷ rest) = (key, record s { cancelled = true }) ∷ cancel_each rest

  -- The end of the manager's context, by `sm.cancel()` or from outside.
  unfoldable pub cancel_all : SessionManager A → SessionManager A
  cancel_all sm = record sm { cancelled = true; sessions = cancel_each sm.sessions }

  -- `session.Cancel()` and `session.Queue.Close()`
  abbrev pub stop : Session A → Session A
  stop s = record s { cancelled = true; queue = close s.queue }

  -- Takes a session out of the map and stops it.
  abbrev pub take_out : SessionManager A → ℕ → Option (Session A) → SessionManager A
  take_out sm key none = sm
  take_out sm key (some s) = record sm {
    sessions = delete key sm.sessions;
    stopped = stop s ∷ sm.stopped;
    notes = sm.notes ++ (removed key ∷ []);
  }

  unfoldable pub remove_session : SessionManager A → ℕ → SessionManager A
  remove_session sm key = take_out sm key (lookup key sm.sessions)

  -- No key, no encryption.
  abbrev pub session_aead : (List ℕ → Option A) → List ℕ → Result SessionError (Option A)
  session_aead new_aead [] = ok none
  session_aead new_aead (b ∷ bs) = elim (new_aead (b ∷ bs)) [
    | none ↦ err bad_key
    | some a ↦ ok (some a)
  ]

  abbrev pub enter :
      SessionManager A
      → ℕ
      → Option ℕ
      → ℕ
      → List ℕ
      → ℕ
      → Result SessionError (Option A)
      → SessionManager A × Result SessionError (Unit {0})
  enter sm addr control_addr queue_size key now (err e) = (sm, err e)
  enter sm addr control_addr queue_size key now (ok aead) =
      let session : Session A = record {
        id = addr;
        addr = addr;
        control_addr = control_addr;
        queue = new_packet_queue queue_size;
        cancelled = false;
        last_active = now;
        seq_num = 0;
        key = key;
        aead = aead;
      } in
      (
        record sm {
          sessions = insert addr session sm.sessions;
          notes = sm.notes ++ (joined addr ∷ []);
        },
        ok tt,
      )

  unfoldable pub add_session :
      (List ℕ → Option A)
      → SessionManager A
      → ℕ
      → Option ℕ
      → ℕ
      → List ℕ
      → ℕ
      → SessionManager A × Result SessionError (Unit {0})
  add_session new_aead sm addr control_addr queue_size key now =
      if sm.cancelled
      then (sm, err manager_stopped)
      else let cleared = take_out sm addr (lookup addr sm.sessions) in
        if leb cleared.max_sessions (length cleared.sessions)
        then (cleared, err max_sessions_reached)
        else enter cleared addr control_addr queue_size key now (session_aead new_aead key)

  abbrev pub offered : List ℕ → Session A → Session A
  offered bytes s = record s {
    queue = (enqueue (record { bytes = bytes; addr = s.addr }) s.queue).0;
  }

  abbrev pub on_each : (Session A → Session A) → List (ℕ × Session A) → List (ℕ × Session A)
  on_each f [] = []
  on_each f ((key, s) ∷ rest) = (key, f s) ∷ on_each f rest

  unfoldable pub broadcast : SessionManager A → List ℕ → SessionManager A
  broadcast sm bytes = record sm { sessions = on_each (offered bytes) sm.sessions }

  abbrev pub keys : List (ℕ × Session A) → List ℕ
  keys [] = []
  keys ((key, s) ∷ rest) = key ∷ keys rest

  unfoldable pub active_sessions : SessionManager A → List ℕ
  active_sessions sm = keys sm.sessions

  abbrev pub stop_each : List (ℕ × Session A) → List (Session A)
  stop_each [] = []
  stop_each ((key, s) ∷ rest) = stop s ∷ stop_each rest

  unfoldable pub close_all : SessionManager A → SessionManager A
  close_all sm =
      let done = cancel_all sm in
      record done { sessions = []; stopped = stop_each done.sessions ++ done.stopped }

  abbrev pub touch : SessionManager A → ℕ → ℕ → ℕ → Option (Session A) → SessionManager A
  touch sm key noted now none = sm
  touch sm key noted now (some s) = record sm {
    sessions = insert key (record s { last_active = now }) sm.sessions;
    notes = sm.notes ++ (kept_alive noted ∷ []);
  }

  unfoldable pub update_last_active : SessionManager A → ℕ → ℕ → SessionManager A
  update_last_active sm key now = touch sm key key now (lookup key sm.sessions)

  -- `now.Sub(session.LastActive) > timeoutDuration`; the clock does not run backwards, so the
  -- difference is not negative.
  abbrev pub is_late : ℤ → ℕ → Session A → Bool
  is_late timeout now s = less timeout (pos (now - s.last_active))

  abbrev pub late_keys : ℤ → ℕ → List (ℕ × Session A) → List ℕ
  late_keys timeout now [] = []
  late_keys timeout now ((key, s) ∷ rest) =
      if is_late timeout now s then key ∷ late_keys timeout now rest else late_keys timeout now rest

  abbrev pub remove_late : List ℕ → SessionManager A → SessionManager A
  remove_late [] sm = sm
  remove_late (key ∷ rest) sm =
      remove_late rest (remove_session (record sm { notes = sm.notes ++ (timed_out key ∷ []) }) key)

  -- The scan and the removals, with no other call between them. (`time_out` of Operations is the removals
  -- alone, at any later moment.)
  unfoldable pub check_timeouts : SessionManager A → ℤ → ℕ → SessionManager A
  check_timeouts sm timeout now = remove_late (late_keys timeout now sm.sessions) sm

  -- The first session that the loop over the map meets.
  abbrev pub by_control_addr : ℕ → List (ℕ × Session A) → Option (ℕ × Session A)
  by_control_addr control_addr [] = none
  by_control_addr control_addr ((key, s) ∷ rest) =
      if same_control control_addr s.control_addr
      then some (key, s)
      else by_control_addr control_addr rest

  abbrev pub touch_found : SessionManager A → ℕ → Option (ℕ × Session A) → SessionManager A
  touch_found sm now none = sm
  touch_found sm now (some (key, s)) = touch sm key s.id now (some s)

  unfoldable pub update_last_active_by_control_addr : SessionManager A → ℕ → ℕ → SessionManager A
  update_last_active_by_control_addr sm control_addr now =
      touch_found sm now (by_control_addr control_addr sm.sessions)

  abbrev pub remove_found : SessionManager A → Option (ℕ × Session A) → SessionManager A
  remove_found sm none = sm
  remove_found sm (some (key, s)) = remove_session sm key

  unfoldable pub remove_session_by_control_addr : SessionManager A → ℕ → SessionManager A
  remove_session_by_control_addr sm control_addr =
      remove_found sm (by_control_addr control_addr sm.sessions)

  abbrev pub session_of : Option (ℕ × Session A) → Option (Session A)
  session_of none = none
  session_of (some (key, s)) = some s

  unfoldable pub get_session_by_control_addr : SessionManager A → ℕ → Option (Session A)
  get_session_by_control_addr sm control_addr =
      session_of (by_control_addr control_addr sm.sessions)
