-- ===== src/Data/Session/Enter.antt =====
-- internal/data/session.go: `AddSession` for a new address, when there is room.
use multicast_bridge.Common.{
  ℕ, ◌<◌, ◌≡◌, refl, leb, false, List, [], ◌∷◌, ◌++◌, length, Option, none, some, arith,
}
use multicast_bridge.Common.Results.{ok}
use multicast_bridge.Common.Assoc.{lookup, insert, lookup-insert}
use multicast_bridge.Data.Session.{Session, SessionManager, joined, session_aead, add_session}
use multicast_bridge.Data.Session.Each.{made}

module _ {A : Type 0} where
  -- The address is new, and there is room for it.
  pub record HasRoom (sm : SessionManager A) (addr : ℕ) : Type 0 where
    pub running : sm.cancelled ≡ false
    pub new_addr : lookup addr sm.sessions ≡ none
    pub room : length sm.sessions < sm.max_sessions

  abbrev pub entered : SessionManager A → ℕ → Session A → SessionManager A
  entered sm addr s = record sm {
    sessions = insert addr s sm.sessions;
    notes = sm.notes ++ (joined addr ∷ []);
  }

  pub add_session-entered :
      (new_aead : List ℕ → Option A) (sm : SessionManager A) (addr : ℕ) (control_addr : Option ℕ)
      (queue_size : ℕ) (key : List ℕ) (now : ℕ) (aead : Option A)
      → HasRoom sm addr
      → session_aead new_aead key ≡ ok aead
      → add_session new_aead sm addr control_addr queue_size key now
        ≡ (entered sm addr (made addr control_addr queue_size key now aead), ok tt)
  unfolding add_session
  add_session-entered new_aead sm addr control_addr queue_size key now aead has e =
      let free : leb sm.max_sessions (length sm.sessions) ≡ false = ground (arith, has.room) in
      rw (has.running, has.new_addr, free, e) refl

  pub lookup-entered :
      (sm : SessionManager A) (addr : ℕ) (s : Session A)
      → lookup addr (entered sm addr s).sessions ≡ some s
  lookup-entered sm addr s = ground (arith, lookup-insert addr addr s sm.sessions)
