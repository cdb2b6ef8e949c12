-- ===== src/Data/Session/Keep.antt =====
-- internal/data/session.go: the invariant of a session manager under each of its calls.
use multicast_bridge.Common.{
  ℕ, ◌<◌, ◌≡◌, refl, sym, ◌∙◌, if◌then◌else◌, leb, Bool, true, false, List, [], ◌∷◌, ◌++◌, length,
  All, Option, none, some, arith,
}
use multicast_bridge.Common.Results.{Result, ok, err}
use multicast_bridge.Common.Assoc.{lookup}
use multicast_bridge.Fec.Codec.{Codec}
use multicast_bridge.Data.Queue.{PacketQueue, enqueue, new_packet_queue, close, evict}
use multicast_bridge.Data.Session.{
  Session, SessionManager, SessionError, cancel_each, cancel_all, timed_out, stop, take_out,
  session_aead, enter, add_session, remove_session, offered, on_each, broadcast, stop_each,
  close_all, touch, update_last_active, late_keys, remove_late, check_timeouts, by_control_addr,
  touch_found, remove_found, update_last_active_by_control_addr, remove_session_by_control_addr,
  new_session_manager,
}
use multicast_bridge.Data.Session.Operations.{
  Call, add, remove, send_all, keep_alive, keep_control_alive, remove_control, clean_up, time_out,
  close_each, parent_done, call, calls,
}
use multicast_bridge.Data.Session.Invariant.{
  AreLive, IsStopped, IsSound, lookup-IsLive, delete-AreLive, insert-AreLive, length-delete,
  length-insert, length-insert_known,
}

close-shut : {P : Type 0} (q : PacketQueue P) → (close q).closed ≡ true
unfolding close
close-shut q = ground arith

enqueue-open :
    {P : Type 0} (q : PacketQueue P) (pkt : P) → q.closed ≡ false → (enqueue pkt q).0.closed ≡ false
unfolding enqueue evict
enqueue-open q pkt e = ground (arith, e)

module _ {A : Type 0} where
  stop-IsStopped : (s : Session A) → IsStopped (stop s)
  stop-IsStopped s = record { done = refl; shut = close-shut s.queue }

  take_out-cancelled :
      (sm : SessionManager A) (key : ℕ) (found : Option (Session A))
      → (take_out sm key found).cancelled ≡ sm.cancelled
  take_out-cancelled sm key none = refl
  take_out-cancelled sm key (some s) = refl

  take_out-IsSound :
      (sm : SessionManager A) (key : ℕ) (found : Option (Session A))
      → IsSound sm
      → IsSound (take_out sm key found)
  take_out-IsSound sm key none v = v
  take_out-IsSound sm key (some s) v = record {
    bounded = omega (arith, v.bounded, length-delete key sm.sessions);
    live = delete-AreLive _ key sm.sessions v.live;
    ended = (stop-IsStopped s, v.ended);
  }

  pub remove_session-IsSound :
      (sm : SessionManager A) (key : ℕ) → IsSound sm → IsSound (remove_session sm key)
  unfolding remove_session
  remove_session-IsSound sm key v = take_out-IsSound sm key (lookup key sm.sessions) v

  enter-IsSound :
      (sm : SessionManager A) (addr : ℕ) (control_addr : Option ℕ) (queue_size : ℕ) (key : List ℕ)
      (now : ℕ) (aead : Result SessionError (Option A))
      → IsSound sm
      → sm.cancelled ≡ false
      → length sm.sessions < sm.max_sessions
      → IsSound (enter sm addr control_addr queue_size key now aead).0
  unfolding new_packet_queue
  enter-IsSound sm addr control_addr queue_size key now (err e) v alive room = v
  enter-IsSound sm addr control_addr queue_size key now (ok aead) v alive room = record {
    bounded = omega (arith, length-insert addr _ sm.sessions);
    live =
        insert-AreLive _ addr _ sm.sessions
          (record { same_id = refl; running = sym alive; opened = refl }) v.live;
    ended = v.ended;
  }

  cond-IsSound :
      (b : Bool) (x y : SessionManager A × Result SessionError (Unit {0}))
      → IsSound x.0
      → (b ≡ false → IsSound y.0)
      → IsSound (if b then x else y).0
  cond-IsSound true x y v w = v
  cond-IsSound false x y v w = w refl

  add_session-IsSound :
      (new_aead : List ℕ → Option A) (sm : SessionManager A) (addr : ℕ) (control_addr : Option ℕ)
      (queue_size : ℕ) (key : List ℕ) (now : ℕ)
      → IsSound sm
      → IsSound (add_session new_aead sm addr control_addr queue_size key now).0
  unfolding add_session
  add_session-IsSound new_aead sm addr control_addr queue_size key now v =
      let cleared = take_out sm addr (lookup addr sm.sessions) in
      let w = take_out-IsSound sm addr (lookup addr sm.sessions) v in
      cond-IsSound sm.cancelled _ _ v (λ e.
        cond-IsSound (leb cleared.max_sessions (length cleared.sessions)) _ _ w (λ f.
          enter-IsSound cleared addr control_addr queue_size key now (session_aead new_aead key) w
            (take_out-cancelled sm addr (lookup addr sm.sessions) ∙ e) (ground (arith, f))))

  lookup-on_each :
      (f : Session A → Session A) (key : ℕ) (m : List (ℕ × Session A))
      → lookup key m ≡ none
      → lookup key (on_each f m) ≡ none
  unfolding lookup
  lookup-on_each f key [] e = e
  lookup-on_each f key ((j, x) ∷ m) e = ground (arith, lookup-on_each f key m)

  offered-AreLive :
      (done : Bool) (bytes : List ℕ) (m : List (ℕ × Session A))
      → AreLive done m
      → AreLive done (on_each (offered bytes) m)
  unfolding AreLive
  offered-AreLive done bytes [] v = tt
  offered-AreLive done bytes ((j, x) ∷ m) v = (
    record {
      same_id = v.0.same_id;
      running = v.0.running;
      opened = enqueue-open x.queue _ v.0.opened;
    },
    lookup-on_each (offered bytes) j m v.1,
    offered-AreLive _ bytes m v.2,
  )

  length-on_each :
      (f : Session A → Session A) (m : List (ℕ × Session A)) → length (on_each f m) ≡ length m
  length-on_each f [] = refl
  length-on_each f ((j, x) ∷ m) = omega (arith, length-on_each f m)

  broadcast-IsSound :
      (sm : SessionManager A) (bytes : List ℕ) → IsSound sm → IsSound (broadcast sm bytes)
  unfolding broadcast
  broadcast-IsSound sm bytes v = record {
    bounded = omega (arith, v.bounded, length-on_each (offered bytes) sm.sessions);
    live = offered-AreLive _ bytes sm.sessions v.live;
    ended = v.ended;
  }

  stop_each-IsStopped :
      (m : List (ℕ × Session A)) (stopped : List (Session A))
      → All IsStopped stopped
      → All IsStopped (stop_each m ++ stopped)
  stop_each-IsStopped [] stopped v = v
  stop_each-IsStopped ((j, x) ∷ m) stopped v = (stop-IsStopped x, stop_each-IsStopped m stopped v)

  close_all-IsSound : (sm : SessionManager A) → IsSound sm → IsSound (close_all sm)
  unfolding close_all cancel_all AreLive
  close_all-IsSound sm v = record {
    bounded = omega arith;
    live = tt;
    ended = stop_each-IsStopped (cancel_each sm.sessions) sm.stopped v.ended;
  }

  lookup-cancel_each :
      (key : ℕ) (m : List (ℕ × Session A)) → lookup key m ≡ none → lookup key (cancel_each m) ≡ none
  unfolding lookup
  lookup-cancel_each key [] e = e
  lookup-cancel_each key ((j, x) ∷ m) e = ground (arith, lookup-cancel_each key m)

  cancel_each-AreLive :
      (done : Bool) (m : List (ℕ × Session A)) → AreLive done m → AreLive true (cancel_each m)
  unfolding AreLive
  cancel_each-AreLive done [] v = tt
  cancel_each-AreLive done ((j, x) ∷ m) v = (
    record { same_id = v.0.same_id; running = refl; opened = v.0.opened },
    lookup-cancel_each j m v.1,
    cancel_each-AreLive _ m v.2,
  )

  length-cancel_each : (m : List (ℕ × Session A)) → length (cancel_each m) ≡ length m
  length-cancel_each [] = refl
  length-cancel_each ((j, x) ∷ m) = omega (arith, length-cancel_each m)

  cancel_all-IsSound : (sm : SessionManager A) → IsSound sm → IsSound (cancel_all sm)
  unfolding cancel_all
  cancel_all-IsSound sm v = record {
    bounded = omega (arith, v.bounded, length-cancel_each sm.sessions);
    live = cancel_each-AreLive _ sm.sessions v.live;
    ended = v.ended;
  }

  touch-IsSound :
      (sm : SessionManager A) (key noted now : ℕ) (s : Session A)
      → IsSound sm
      → lookup key sm.sessions ≡ some s
      → IsSound (touch sm key noted now (some s))
  touch-IsSound sm key noted now s v e =
      let l = lookup-IsLive _ sm.sessions key s v.live e in
      record {
        bounded = omega (arith, v.bounded, length-insert_known key _ s sm.sessions e);
        live =
            insert-AreLive _ key _ sm.sessions
              (record { same_id = l.same_id; running = l.running; opened = l.opened }) v.live;
        ended = v.ended;
      }

  touch_any-IsSound :
      (sm : SessionManager A) (key noted now : ℕ) (found : Option (Session A))
      → IsSound sm
      → lookup key sm.sessions ≡ found
      → IsSound (touch sm key noted now found)
  touch_any-IsSound sm key noted now none v e = v
  touch_any-IsSound sm key noted now (some s) v e = touch-IsSound sm key noted now s v e

  -- In a map with each key once, a session that a loop meets is that of its key.
  pub by_control_addr-lookup :
      (done : Bool) (control_addr : ℕ) (m : List (ℕ × Session A)) (key : ℕ) (s : Session A)
      → AreLive done m
      → by_control_addr control_addr m ≡ some (key, s)
      → lookup key m ≡ some s
  unfolding AreLive lookup
  by_control_addr-lookup done control_addr [] key s v e = cc
  by_control_addr-lookup done control_addr ((j, x) ∷ m) key s v e =
      ground (arith, by_control_addr-lookup _ control_addr m key s v.2, v.1)

  touch_found-IsSound :
      (sm : SessionManager A) (now control_addr : ℕ) (found : Option (ℕ × Session A))
      → IsSound sm
      → by_control_addr control_addr sm.sessions ≡ found
      → IsSound (touch_found sm now found)
  touch_found-IsSound sm now control_addr none v e = v
  touch_found-IsSound sm now control_addr (some (key, s)) v e =
      touch-IsSound sm key s.id now s v
        (by_control_addr-lookup _ control_addr sm.sessions key s v.live e)

  remove_found-IsSound :
      (sm : SessionManager A) (found : Option (ℕ × Session A))
      → IsSound sm
      → IsSound (remove_found sm found)
  remove_found-IsSound sm none v = v
  remove_found-IsSound sm (some (key, s)) v = remove_session-IsSound sm key v

  remove_late-IsSound :
      (keys : List ℕ) (sm : SessionManager A) → IsSound sm → IsSound (remove_late keys sm)
  remove_late-IsSound [] sm v = v
  remove_late-IsSound (key ∷ keys) sm v = remove_late-IsSound keys _ (
      remove_session-IsSound (record sm { notes = sm.notes ++ (timed_out key ∷ []) }) key
        (record { bounded = v.bounded; live = v.live; ended = v.ended }))

  module _ (new_aead : List ℕ → Option A) where
    pub call-IsSound :
        (sm : SessionManager A) (c : Call) → IsSound sm → IsSound (call new_aead sm c)
    unfolding call check_timeouts update_last_active update_last_active_by_control_addr
        remove_session_by_control_addr
    call-IsSound sm (add addr control_addr queue_size key now) v =
        add_session-IsSound new_aead sm addr control_addr queue_size key now v
    call-IsSound sm (remove key) v = remove_session-IsSound sm key v
    call-IsSound sm (send_all bytes) v = broadcast-IsSound sm bytes v
    call-IsSound sm (keep_alive key now) v =
        touch_any-IsSound sm key key now (lookup key sm.sessions) v refl
    call-IsSound sm (keep_control_alive control_addr now) v =
        touch_found-IsSound sm now control_addr (by_control_addr control_addr sm.sessions) v refl
    call-IsSound sm (remove_control control_addr) v =
        remove_found-IsSound sm (by_control_addr control_addr sm.sessions) v
    call-IsSound sm (clean_up timeout now) v =
        remove_late-IsSound (late_keys timeout now sm.sessions) sm v
    call-IsSound sm close_each v = close_all-IsSound sm v
    call-IsSound sm (time_out late) v = remove_late-IsSound late sm v
    call-IsSound sm parent_done v = cancel_all-IsSound sm v

    calls-IsSound :
        (cs : List Call) (sm : SessionManager A) → IsSound sm → IsSound (calls new_aead cs sm)
    unfolding calls
    calls-IsSound [] sm v = v
    calls-IsSound (c ∷ cs) sm v = calls-IsSound cs (call new_aead sm c) (call-IsSound sm c v)

    -- After any calls on a new manager there are at most `maxSessions` sessions, one for an address,
    -- each with its own key as its name and an open queue, running exactly as long as the manager's
    -- context is not done, and every session that has left the map is cancelled and has a closed
    -- queue.
    pub calls-new-IsSound :
        (new_codec : ℕ → ℕ → Option Codec) (max_sessions : ℕ) (fec_enabled : Bool) (k n : ℕ)
        (encryption_enabled : Bool) (cs : List Call)
        → IsSound (
            calls new_aead cs
              (new_session_manager new_codec max_sessions fec_enabled k n encryption_enabled))
    unfolding new_session_manager AreLive
    calls-new-IsSound new_codec max_sessions fec_enabled k n encryption_enabled cs =
        calls-IsSound cs _ (record { bounded = omega arith; live = tt; ended = tt })
