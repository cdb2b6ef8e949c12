-- ===== src/Data/Session/Operations.antt =====
-- internal/data/session.go: any calls of a session manager, in the order of the lock.
use multicast_bridge.Common.{ℕ, List, [], ◌∷◌, Option}
use multicast_bridge.Common.Int.{ℤ}
use multicast_bridge.Data.Session.{
  SessionManager, add_session, remove_session, broadcast, close_all, update_last_active,
  check_timeouts, remove_late, cancel_all, update_last_active_by_control_addr,
  remove_session_by_control_addr,
}

-- `parent_done` is the end of the context that the manager was made with. `CheckTimeouts` gives the lock
-- up between the scan and each removal: `clean_up` is the whole call when no other call comes between,
-- `time_out` the removals of any keys that an earlier scan has found.
pub data Call : Type 0 where
  add : ℕ → Option ℕ → ℕ → List ℕ → ℕ → Call
  remove : ℕ → Call
  send_all : List ℕ → Call
  keep_alive : ℕ → ℕ → Call
  keep_control_alive : ℕ → ℕ → Call
  remove_control : ℕ → Call
  clean_up : ℤ → ℕ → Call
  time_out : List ℕ → Call
  close_each : Call
  parent_done : Call

module _ {A : Type 0} (new_aead : List ℕ → Option A) where
  unfoldable pub call : SessionManager A → Call → SessionManager A
  call sm (add addr control_addr queue_size key now) =
      (add_session new_aead sm addr control_addr queue_size key now).0
  call sm (remove key) = remove_session sm key
  call sm (send_all bytes) = broadcast sm bytes
  call sm (keep_alive key now) = update_last_active sm key now
  call sm (keep_control_alive control_addr now) =
      update_last_active_by_control_addr sm control_addr now
  call sm (remove_control control_addr) = remove_session_by_control_addr sm control_addr
  call sm (clean_up timeout now) = check_timeouts sm timeout now
  call sm (time_out late) = remove_late late sm
  call sm close_each = close_all sm
  call sm parent_done = cancel_all sm

  unfoldable pub calls : List Call → SessionManager A → SessionManager A
  calls [] sm = sm
  calls (c ∷ cs) sm = calls cs (call sm c)
