-- ===== src/Sender/Pending.antt =====
-- cmd/send.go: at most one challenge is pending for an IP, whatever packets arrive.
use multicast_bridge.Common.{ℕ, ◌==◌, List, [], ◌∷◌, Option, none, some, arith}
use multicast_bridge.Common.Results.{Result, ok, err}
use multicast_bridge.Config.{SendConfig}
use multicast_bridge.Control.{
  Packet, parse_packet, type_register, type_auth_response, type_keep_alive, type_leave,
}
use multicast_bridge.Control.Payload.{decode_register_payload, decode_auth_response_payload}
use multicast_bridge.Crypto.{Aead}
use multicast_bridge.Data.Session.{SessionManager}
use multicast_bridge.Sender.{Network, Ciphers, Moment, SenderControl}
use multicast_bridge.Sender.Handler.{pending_count}
use multicast_bridge.Sender.Loop.{
  Event, packet, tick, removals, multicast, on_packet, read_packet, cleaned_up, handle_packet,
  on_event, on_events,
}
use multicast_bridge.Sender.Proper.{started}
use multicast_bridge.Sender.Challenges.{
  OnePending, pending_count-expire, cond-OnePending, on_register-OnePending,
  on_auth_response-OnePending,
}

module _ {B : Type 0} (net : Network) (ciphers : Ciphers B) (cfg : SendConfig) where
  on_packet-OnePending :
      {E : Type 0}
      → (st : SenderControl) (raddr : ℕ) (pkt : Result E Packet) (m : Moment) → OnePending st
      → OnePending (on_packet net ciphers cfg st raddr pkt m).0
  on_packet-OnePending st raddr (err e) m v = v
  on_packet-OnePending st raddr (ok pkt) m v =
      cond-OnePending (pkt.kind == type_register) _ _
        (λ _.
          on_register-OnePending net ciphers cfg raddr m st (decode_register_payload pkt.payload) v)
        (λ _.
          cond-OnePending (pkt.kind == type_auth_response) _ _
            (λ _.
              on_auth_response-OnePending net ciphers cfg raddr m st
                (decode_auth_response_payload pkt.payload) v)
            (λ _.
              cond-OnePending (pkt.kind == type_keep_alive) _ _ (λ _. v)
                (λ _. cond-OnePending (pkt.kind == type_leave) _ _ (λ _. v) (λ _. v))))

  read_packet-OnePending :
      (st : SenderControl) (raddr : ℕ) (plain : Option (List ℕ)) (m : Moment)
      → OnePending st
      → OnePending (read_packet net ciphers cfg st raddr plain m).0
  read_packet-OnePending st raddr none m v = v
  read_packet-OnePending st raddr (some plain) m v =
      on_packet-OnePending st raddr (parse_packet plain) m v

  on_event-OnePending :
      (st : SenderControl) (e : Event) → OnePending st → OnePending (on_event net ciphers cfg st e)
  unfolding on_event handle_packet
  on_event-OnePending st (packet raddr bytes m) v =
      read_packet-OnePending (cleaned_up net ciphers cfg m st) raddr _ m
        (λ ip. omega (arith, v ip, pending_count-expire ip m.cleaned st.pending_auths))
  on_event-OnePending st (tick now) v = v
  on_event-OnePending st (removals late) v = v
  on_event-OnePending st (multicast bytes) v = v

  on_events-OnePending :
      (es : List Event) (st : SenderControl)
      → OnePending st
      → OnePending (on_events net ciphers cfg es st)
  unfolding on_events
  on_events-OnePending [] st v = v
  on_events-OnePending (e ∷ es) st v =
      on_events-OnePending es (on_event net ciphers cfg st e) (on_event-OnePending st e v)

  -- Whatever packets arrive at a sender that starts with any sessions, and whenever the
  -- monitor ticks and its removals come, no IP ever has more than one challenge pending.
  pub on_events-started-OnePending :
      (sm : SessionManager Aead) (es : List Event)
      → OnePending (on_events net ciphers cfg es (started net ciphers cfg sm))
  unfolding pending_count
  on_events-started-OnePending sm es = on_events-OnePending es _ (λ ip. omega arith)
