-- ===== src/Data/Session/Each.antt =====
-- internal/data/session.go: a property of each session, through the calls of the manager.
use multicast_bridge.Common.{
  ℕ, ◌==◌, if◌then◌else◌, leb, Bool, true, false, List, [], ◌∷◌, ◌++◌, length, Option, none, some,
}
use multicast_bridge.Common.Results.{Result, ok, err}
use multicast_bridge.Common.Assoc.{lookup, insert, delete}
use multicast_bridge.Data.Queue.{new_packet_queue}
use multicast_bridge.Common.Int.{ℤ}
use multicast_bridge.Data.Session.{
  Session, SessionManager, SessionError, timed_out, take_out, session_aead, enter, add_session,
  remove_session, late_keys, remove_late, check_timeouts, offered, on_each, broadcast, same_control,
  by_control_addr, touch_found, remove_found, update_last_active_by_control_addr,
  remove_session_by_control_addr,
}

-- The session that `AddSession` makes.
abbrev pub made : {A : Type 0} → ℕ → Option ℕ → ℕ → List ℕ → ℕ → Option A → Session A
made addr control_addr queue_size key now aead = record {
  id = addr;
  addr = addr;
  control_addr = control_addr;
  queue = new_packet_queue queue_size;
  cancelled = false;
  last_active = now;
  seq_num = 0;
  key = key;
  aead = aead;
}

module _ {A : Type 0} (P : Session A → Type 0) where
  unfoldable pub Each : List (ℕ × Session A) → Type 0
  Each [] = Unit
  Each ((key, s) ∷ rest) = P s × Each rest

  cond-Each : (b : Bool) (x y : List (ℕ × Session A)) → Each x → Each y → Each (if b then x else y)
  cond-Each true x y p q = p
  cond-Each false x y p q = q

  delete-Each : (key : ℕ) (m : List (ℕ × Session A)) → Each m → Each (delete key m)
  unfolding Each delete
  delete-Each key [] v = tt
  delete-Each key ((j, x) ∷ m) v =
      cond-Each (j == key) _ _ (delete-Each key m v.1) (v.0, delete-Each key m v.1)

  insert-Each :
      (key : ℕ) (s : Session A) (m : List (ℕ × Session A)) → P s → Each m → Each (insert key s m)
  unfolding Each insert
  insert-Each key s [] p v = (p, tt)
  insert-Each key s ((j, x) ∷ m) p v =
      cond-Each (j == key) _ _ (p, v.1) (v.0, insert-Each key s m p v.1)

  take_out-Each :
      (sm : SessionManager A) (key : ℕ) (found : Option (Session A))
      → Each sm.sessions
      → Each (take_out sm key found).sessions
  take_out-Each sm key none v = v
  take_out-Each sm key (some s) v = delete-Each key sm.sessions v

  remove_session-Each :
      (sm : SessionManager A) (key : ℕ) → Each sm.sessions → Each (remove_session sm key).sessions
  unfolding remove_session
  remove_session-Each sm key v = take_out-Each sm key (lookup key sm.sessions) v

  pub remove_late-Each :
      (keys : List ℕ) (sm : SessionManager A)
      → Each sm.sessions
      → Each (remove_late keys sm).sessions
  remove_late-Each [] sm v = v
  remove_late-Each (key ∷ keys) sm v =
      remove_late-Each keys _
        (remove_session-Each (record sm { notes = sm.notes ++ (timed_out key ∷ []) }) key v)

  pub check_timeouts-Each :
      (sm : SessionManager A) (timeout : ℤ) (now : ℕ)
      → Each sm.sessions
      → Each (check_timeouts sm timeout now).sessions
  unfolding check_timeouts
  check_timeouts-Each sm timeout now v = remove_late-Each (late_keys timeout now sm.sessions) sm v

  remove_found-Each :
      (sm : SessionManager A) (found : Option (ℕ × Session A))
      → Each sm.sessions
      → Each (remove_found sm found).sessions
  remove_found-Each sm none v = v
  remove_found-Each sm (some (key, s)) v = remove_session-Each sm key v

  pub remove_control-Each :
      (sm : SessionManager A) (control_addr : ℕ)
      → Each sm.sessions
      → Each (remove_session_by_control_addr sm control_addr).sessions
  unfolding remove_session_by_control_addr
  remove_control-Each sm control_addr v = remove_found-Each sm _ v

  -- A session that a loop meets has the property.
  abbrev Has : Option (ℕ × Session A) → Type 0
  Has none = Unit
  Has (some (key, s)) = P s

  cond-Has : (b : Bool) (x y : Option (ℕ × Session A)) → Has x → Has y → Has (if b then x else y)
  cond-Has true x y p q = p
  cond-Has false x y p q = q

  by_control_addr-Has :
      (control_addr : ℕ) (m : List (ℕ × Session A)) → Each m → Has (by_control_addr control_addr m)
  unfolding Each
  by_control_addr-Has control_addr [] v = tt
  by_control_addr-Has control_addr ((j, x) ∷ m) v =
      cond-Has (same_control control_addr x.control_addr) _ _ v.0
        (by_control_addr-Has control_addr m v.1)

  touch_found-Each :
      (sm : SessionManager A) (now : ℕ) (found : Option (ℕ × Session A))
      → ((s : Session A) (t : ℕ) → P s → P (record s { last_active = t }))
      → Each sm.sessions
      → Has found
      → Each (touch_found sm now found).sessions
  touch_found-Each sm now none same v p = v
  touch_found-Each sm now (some (key, s)) same v p = insert-Each key _ sm.sessions (same s now p) v

  -- A property that does not depend on the last activity is kept by a keep-alive.
  pub keep_alive-Each :
      (sm : SessionManager A) (control_addr now : ℕ)
      → ((s : Session A) (t : ℕ) → P s → P (record s { last_active = t }))
      → Each sm.sessions
      → Each (update_last_active_by_control_addr sm control_addr now).sessions
  unfolding update_last_active_by_control_addr
  keep_alive-Each sm control_addr now same v =
      touch_found-Each sm now _ same v (by_control_addr-Has control_addr sm.sessions v)

  enter-Each :
      (sm : SessionManager A) (addr : ℕ) (control_addr : Option ℕ) (queue_size : ℕ) (key : List ℕ)
      (now : ℕ) (aead : Result SessionError (Option A))
      → ((a : Option A) → P (made addr control_addr queue_size key now a))
      → Each sm.sessions
      → Each (enter sm addr control_addr queue_size key now aead).0.sessions
  enter-Each sm addr control_addr queue_size key now (err e) p v = v
  enter-Each sm addr control_addr queue_size key now (ok aead) p v =
      insert-Each addr _ sm.sessions (p aead) v

  cond-result-Each :
      (b : Bool) (x y : SessionManager A × Result SessionError (Unit {0}))
      → Each x.0.sessions
      → Each y.0.sessions
      → Each (if b then x else y).0.sessions
  cond-result-Each true x y p q = p
  cond-result-Each false x y p q = q

  -- `AddSession` keeps a property that the new session has.
  pub add_session-Each :
      (new_aead : List ℕ → Option A) (sm : SessionManager A) (addr : ℕ) (control_addr : Option ℕ)
      (queue_size : ℕ) (key : List ℕ) (now : ℕ)
      → ((a : Option A) → P (made addr control_addr queue_size key now a))
      → Each sm.sessions
      → Each (add_session new_aead sm addr control_addr queue_size key now).0.sessions
  unfolding add_session
  add_session-Each new_aead sm addr control_addr queue_size key now p v =
      let cleared = take_out sm addr (lookup addr sm.sessions) in
      let w = take_out-Each sm addr (lookup addr sm.sessions) v in
      cond-result-Each sm.cancelled _ _ v (
        cond-result-Each (leb cleared.max_sessions (length cleared.sessions)) _ _ w
          (enter-Each cleared addr control_addr queue_size key now (session_aead new_aead key) p w))

  on_each-Each :
      (f : Session A → Session A) (m : List (ℕ × Session A))
      → ((s : Session A) → P s → P (f s))
      → Each m
      → Each (on_each f m)
  unfolding Each
  on_each-Each f [] keeps v = tt
  on_each-Each f ((j, x) ∷ m) keeps v = (keeps x v.0, on_each-Each f m keeps v.1)

  -- A property that an offered packet does not break is kept by a broadcast.
  pub broadcast-Each :
      (sm : SessionManager A) (bytes : List ℕ)
      → ((s : Session A) → P s → P (offered bytes s))
      → Each sm.sessions
      → Each (broadcast sm bytes).sessions
  unfolding broadcast
  broadcast-Each sm bytes keeps v = on_each-Each (offered bytes) sm.sessions keeps v
