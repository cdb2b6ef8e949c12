-- ===== src/Sender/Loop.antt =====
-- cmd/send.go: `handleControlPackets`, for one packet, and `monitorSessionTimeouts`, for one tick.
use multicast_bridge.Common.{ℕ, ◌==◌, if◌then◌else◌, not, ◌&&◌, List, [], ◌∷◌, Option, none, some}
use multicast_bridge.Common.Int.{ℤ, pos, mul_i64}
use multicast_bridge.Common.Results.{Result, ok, err}
use multicast_bridge.Config.{SendConfig}
use multicast_bridge.Config.Checks.{is_empty, is_not_positive}
use multicast_bridge.Control.{
  Packet, parse_packet, build_packet, type_register, type_keep_alive, type_leave,
  type_auth_response,
}
use multicast_bridge.Control.Payload.{decode_register_payload, decode_auth_response_payload}
use multicast_bridge.Crypto.{Aead, encrypt_gcm, decrypt_gcm}
use multicast_bridge.Data.Session.{
  Session, SessionManager, check_timeouts, remove_late, get_session_by_control_addr,
  remove_session_by_control_addr, update_last_active_by_control_addr,
}
use multicast_bridge.Sender.{Network, Ciphers, Moment, SenderControl}
use multicast_bridge.Sender.Size.{receive_multicast}
use multicast_bridge.Sender.Handler.{
  second, expire, Handled, with_manager, on_register, on_auth_response,
}

abbrev pub sent_ok : {E : Type 0} → Result E (List ℕ) → Option (List ℕ)
sent_ok (ok bytes) = some bytes
sent_ok (err e) = none

module _ {B : Type 0} (net : Network) (ciphers : Ciphers B) (cfg : SendConfig) where
  -- The reply to a KEEPALIVE, under the key of the session if there is one.
  abbrev pub keep_alive_reply : Moment → Option (Session Aead) → Option (List ℕ)
  keep_alive_reply m found =
      let plain = build_packet type_keep_alive [] in
      if cfg.encryption.enabled
      then elim found [
        | none ↦ none
        | some s ↦
            if is_empty s.key
            then none
            else sent_ok (encrypt_gcm ciphers.new_cipher ciphers.new_gcm m.random plain s.key)
      ]
      else some plain

  abbrev pub on_keep_alive : SenderControl → ℕ → Moment → Handled
  on_keep_alive st raddr m =
      let sm = update_last_active_by_control_addr st.manager raddr m.made in
      (with_manager st sm, keep_alive_reply m (get_session_by_control_addr sm raddr))

  abbrev pub on_leave : SenderControl → ℕ → Handled
  on_leave st raddr = (with_manager st (remove_session_by_control_addr st.manager raddr), none)

  abbrev pub on_packet : {E : Type 0} → SenderControl → ℕ → Result E Packet → Moment → Handled
  on_packet st raddr (err e) m = (st, none)
  on_packet st raddr (ok pkt) m =
      if pkt.kind == type_register
      then on_register net ciphers cfg st raddr (decode_register_payload pkt.payload) m
      else if pkt.kind == type_auth_response
      then on_auth_response net ciphers cfg st raddr (decode_auth_response_payload pkt.payload) m
      else if pkt.kind == type_keep_alive
      then on_keep_alive st raddr m
      else if pkt.kind == type_leave
      then on_leave st raddr
      else (st, none)

  -- The bytes to parse, if they count: those of a session with a key must be encrypted with it.
  unfoldable pub admitted : Option (Session Aead) → List ℕ → Option (List ℕ)
  admitted none bytes = some bytes
  admitted (some s) bytes =
      if cfg.encryption.enabled && not (is_empty s.key)
      then sent_ok (decrypt_gcm ciphers.new_cipher ciphers.new_gcm bytes s.key)
      else some bytes

  abbrev pub read_packet : SenderControl → ℕ → Option (List ℕ) → Moment → Handled
  read_packet st raddr none m = (st, none)
  read_packet st raddr (some bytes) m = on_packet st raddr (parse_packet bytes) m

  abbrev pub cleaned_up : Moment → SenderControl → SenderControl
  cleaned_up m st = record st { pending_auths = expire m.cleaned st.pending_auths }

  -- One turn of the loop, with the packet that was read from `raddr`.
  unfoldable pub handle_packet : SenderControl → ℕ → List ℕ → Moment → Handled
  handle_packet st raddr bytes m =
      read_packet (cleaned_up m st) raddr
        (admitted (get_session_by_control_addr st.manager raddr) bytes) m

-- A `time.Duration` is an int64. The interval and the multiplier are corrected where they are not
-- positive.
unfoldable pub session_timeout_of : SendConfig → ℤ
session_timeout_of cfg =
    let in_seconds = mul_i64 cfg.keep_alive.interval (pos second) in
    let interval = if is_not_positive in_seconds then pos second else in_seconds in
    let multiplier =
      if is_not_positive cfg.keep_alive.timeout_multiplier
      then pos 3
      else cfg.keep_alive.timeout_multiplier in
    mul_i64 interval multiplier

unfoldable pub monitor_tick : SendConfig → SessionManager Aead → ℕ → SessionManager Aead
monitor_tick cfg sm now = check_timeouts sm (session_timeout_of cfg) now

-- A control packet with the readings of its handling, a tick of the monitor, the removals of a tick whose
-- scan was before other events, which may be of any keys, or a datagram of the multicast group.
pub data Event : Type 0 where
  packet : ℕ → List ℕ → Moment → Event
  tick : ℕ → Event
  removals : List ℕ → Event
  multicast : List ℕ → Event

module _ {B : Type 0} (net : Network) (ciphers : Ciphers B) (cfg : SendConfig) where
  unfoldable pub on_event : SenderControl → Event → SenderControl
  on_event st (packet raddr bytes m) = (handle_packet net ciphers cfg st raddr bytes m).0
  on_event st (tick now) = record st { manager = monitor_tick cfg st.manager now }
  on_event st (removals late) = record st { manager = remove_late late st.manager }
  on_event st (multicast bytes) = record st { manager = receive_multicast cfg st.manager bytes }

  unfoldable pub on_events : List Event → SenderControl → SenderControl
  on_events [] st = st
  on_events (e ∷ es) st = on_events es (on_event st e)
