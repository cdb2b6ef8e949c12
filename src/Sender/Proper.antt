-- ===== src/Sender/Proper.antt =====
-- cmd/send.go: what holds of the sessions, whatever packets arrive.
use multicast_bridge.Common.{
  ℕ, ◌≤◌, ◌≡◌, refl, if◌then◌else◌, ltb, Bool, true, false, List, [], ◌∷◌, length, Option, none,
  some, arith,
}
use multicast_bridge.Config.{SendConfig}
use multicast_bridge.Crypto.{Aead, derive_key}
use multicast_bridge.Fec.Codec.{Codec}
use multicast_bridge.Data.Session.{Session, SessionManager, new_session_manager, offered, broadcast}
use multicast_bridge.Data.Queue.{new_packet_queue}
use multicast_bridge.Data.Queue.Fits.{Fits, enqueue-Fits}
use multicast_bridge.Data.Session.Operations.{
  add, keep_control_alive, remove_control, clean_up, time_out, send_all, call,
}
use multicast_bridge.Data.Session.Invariant.{IsSound, AreLive}
use multicast_bridge.Data.Session.Keep.{call-IsSound}
use multicast_bridge.Data.Session.Each.{
  Each, made, add_session-Each, keep_alive-Each, remove_control-Each, check_timeouts-Each,
  remove_late-Each, broadcast-Each,
}
use multicast_bridge.Sender.{Network, Ciphers, PendingAuth, SenderControl, aead_of}
use multicast_bridge.Sender.Handler.{session_key}
use multicast_bridge.Sender.Loop.{
  Event, packet, tick, removals, multicast, on_event, on_events, monitor_tick, session_timeout_of,
}
use multicast_bridge.Sender.Size.{max_payload_size, receive_multicast}
use multicast_bridge.Sender.Effects.{
  IsEarned, answered, in_plain, Effect, idle, renewed, left, joined,
}
use multicast_bridge.Sender.Turn.{handle_packet-Effect}

module _ {B : Type 0} (net : Network) (ciphers : Ciphers B) (cfg : SendConfig) where
  -- A session streams to a port of the IP that its control packets come from, and has, with encryption,
  -- a key that is derived from the passphrase, else none. Its queue holds no packet that is too long.
  pub record IsOwn (s : Session Aead) : Type 0 where
    pub peer : ℕ
    pub from_peer : s.control_addr ≡ some peer
    pub port : ℕ
    pub at_source : net.resolve (net.ip_text (net.ip_of peer)) port ≡ some s.addr
    pub keyed :
        cfg.encryption.enabled ≡ true
        → (salt : List ℕ) × (s.key
            ≡ derive_key ciphers.pbkdf2 cfg.encryption.passphrase salt cfg.encryption.iterations)
    pub not_keyed : cfg.encryption.enabled ≡ false → s.key ≡ []
    pub fits : Fits (max_payload_size cfg) s.queue.packets

  pub record IsProper (sm : SessionManager Aead) : Type 0 where
    pub sound : IsSound sm
    pub own : Each IsOwn sm.sessions

  renewed-IsOwn : (s : Session Aead) (t : ℕ) → IsOwn s → IsOwn (record s { last_active = t })
  renewed-IsOwn s t v = record {
    peer = v.peer;
    from_peer = v.from_peer;
    port = v.port;
    at_source = v.at_source;
    keyed = v.keyed;
    not_keyed = v.not_keyed;
    fits = v.fits;
  }

  made-IsOwn :
      (sm : SessionManager Aead) (pending_auths : List (ℕ × PendingAuth)) (bytes : List ℕ)
      (raddr target port now : ℕ) (key : List ℕ) (aead : Option Aead)
      → net.resolve (net.ip_text (net.ip_of raddr)) port ≡ some target
      → IsEarned net ciphers cfg sm pending_auths raddr bytes key
      → IsOwn (made target (some raddr) 100 key now aead)
  unfolding session_key new_packet_queue
  made-IsOwn sm pending_auths bytes raddr target port now _ aead e (answered p resp f c v on) =
      record {
        peer = raddr;
        from_peer = refl;
        port = port;
        at_source = e;
        keyed = λ _. (p.rand_a, refl);
        not_keyed = λ off. cc;
        fits = tt;
      }
  made-IsOwn sm pending_auths bytes raddr target port now _ aead e (in_plain off) = record {
    peer = raddr;
    from_peer = refl;
    port = port;
    at_source = e;
    keyed = λ on. cc;
    not_keyed = λ _. refl;
    fits = tt;
  }

  offered-IsOwn :
      (bytes : List ℕ) (s : Session Aead)
      → length bytes ≤ max_payload_size cfg
      → IsOwn s
      → IsOwn (offered bytes s)
  offered-IsOwn bytes s h v = record {
    peer = v.peer;
    from_peer = v.from_peer;
    port = v.port;
    at_source = v.at_source;
    keyed = v.keyed;
    not_keyed = v.not_keyed;
    fits = enqueue-Fits (max_payload_size cfg) _ s.queue h v.fits;
  }

  receive_multicast-IsProper :
      (sm : SessionManager Aead) (bytes : List ℕ)
      → IsProper sm
      → IsProper (receive_multicast cfg sm bytes)
  unfolding receive_multicast call
  receive_multicast-IsProper sm bytes v =
      cond-IsProper (ltb (max_payload_size cfg) (length bytes)) sm (broadcast sm bytes) v (λ e.
        record {
          sound = call-IsSound (λ key. none) sm (send_all bytes) v.sound;
          own =
              broadcast-Each IsOwn sm bytes (λ s. offered-IsOwn bytes s (ground (arith, e))) v.own;
        })
    where
      cond-IsProper :
          (b : Bool) (x y : SessionManager Aead)
          → IsProper x
          → (b ≡ false → IsProper y)
          → IsProper (if b then x else y)
      cond-IsProper true x y p q = p
      cond-IsProper false x y p q = q refl

  Effect-IsProper :
      (sm : SessionManager Aead) (pending_auths : List (ℕ × PendingAuth)) (raddr : ℕ)
      (bytes : List ℕ) (after : SessionManager Aead)
      → Effect net ciphers cfg sm pending_auths raddr bytes after
      → IsProper sm
      → IsProper after
  unfolding call
  Effect-IsProper sm pending_auths raddr bytes _ idle v = v
  Effect-IsProper sm pending_auths raddr bytes _ (renewed now a) v = record {
    sound = call-IsSound (aead_of ciphers) sm (keep_control_alive raddr now) v.sound;
    own = keep_alive-Each IsOwn sm raddr now renewed-IsOwn v.own;
  }
  Effect-IsProper sm pending_auths raddr bytes _ (left a) v = record {
    sound = call-IsSound (aead_of ciphers) sm (remove_control raddr) v.sound;
    own = remove_control-Each IsOwn sm raddr v.own;
  }
  Effect-IsProper sm pending_auths raddr bytes _ (joined target port now key e k) v = record {
    sound = call-IsSound (aead_of ciphers) sm (add target (some raddr) 100 key now) v.sound;
    own =
        add_session-Each IsOwn (aead_of ciphers) sm target (some raddr) 100 key now
          (λ a. made-IsOwn sm pending_auths bytes raddr target port now key a e k) v.own;
  }

  on_event-IsProper :
      (st : SenderControl) (e : Event)
      → IsProper st.manager
      → IsProper (on_event net ciphers cfg st e).manager
  unfolding on_event monitor_tick call
  on_event-IsProper st (packet raddr bytes m) v =
      Effect-IsProper st.manager _ raddr bytes _
        (handle_packet-Effect net ciphers cfg raddr bytes st m) v
  on_event-IsProper st (tick now) v = record {
    sound =
        call-IsSound (aead_of ciphers) st.manager (clean_up (session_timeout_of cfg) now) v.sound;
    own = check_timeouts-Each IsOwn st.manager (session_timeout_of cfg) now v.own;
  }
  on_event-IsProper st (removals late) v = record {
    sound = call-IsSound (aead_of ciphers) st.manager (time_out late) v.sound;
    own = remove_late-Each IsOwn late st.manager v.own;
  }
  on_event-IsProper st (multicast bytes) v = receive_multicast-IsProper st.manager bytes v

  on_events-IsProper :
      (es : List Event) (st : SenderControl)
      → IsProper st.manager
      → IsProper (on_events net ciphers cfg es st).manager
  unfolding on_events
  on_events-IsProper [] st v = v
  on_events-IsProper (e ∷ es) st v =
      on_events-IsProper es (on_event net ciphers cfg st e) (on_event-IsProper st e v)

  -- The state in which `handleControlPackets` starts.
  abbrev pub started : SessionManager Aead → SenderControl
  started sm = record { manager = sm; pending_auths = []; last_register_time = [] }

  -- Whatever control packets and multicast datagrams arrive at a new sender, and whenever the
  -- monitor ticks and its removals come, the manager is sound, no queue holds a packet longer than `maxPayloadSize`, and
  -- each session streams to a port of the IP that its control packets come from, whatever address
  -- was declared, and has, with encryption, a key that is derived from the passphrase, and without
  -- it none.
  pub on_events-started-IsProper :
      (new_codec : ℕ → ℕ → Option Codec) (max_sessions : ℕ) (fec_enabled : Bool) (k n : ℕ)
      (es : List Event)
      → IsProper
          (on_events net ciphers cfg es (
            started (
              new_session_manager new_codec max_sessions fec_enabled k n
                cfg.encryption.enabled))).manager
  unfolding new_session_manager AreLive Each
  on_events-started-IsProper new_codec max_sessions fec_enabled k n es =
      on_events-IsProper es _
        (record { sound = record { bounded = omega arith; live = tt; ended = tt }; own = tt })
