-- ===== src/Tests/Sender.antt =====
-- The sender's control handler at concrete inputs.
use multicast_bridge.Common.{
  ℕ, ◌+◌, ◌*◌, ◌/◌, true, false, List, [], ◌∷◌, length, replicate, Option, none, some,
}
use multicast_bridge.Common.Int.{pos}
use multicast_bridge.Common.Text.{text}
use multicast_bridge.Config.{SendConfig, RecvConfig, EncryptionConfig}
use multicast_bridge.Crypto.{Aead}
use multicast_bridge.Data.Session.{SessionManager, new_session_manager}
use multicast_bridge.Receiver.Register.{register_packet}
use multicast_bridge.Sender.{Network, Ciphers, Moment, SenderControl}
use multicast_bridge.Sender.Handler.{expire}
use multicast_bridge.Sender.Loop.{Event, packet, tick, multicast, on_events, handle_packet}
use multicast_bridge.Sender.Effects.{Effect}
use multicast_bridge.Sender.Turn.{handle_packet-Effect}
use multicast_bridge.Sender.Proper.{IsProper, started, on_events-started-IsProper}
use multicast_bridge.Sender.Challenges.{OnePending}
use multicast_bridge.Sender.Pending.{on_events-started-OnePending}
use multicast_bridge.Tests.Cipher.{toy_cipher, toy_gcm, sevens}
use multicast_bridge.Tests.Config.{on_eth0, recv_on_eth0}

-- Address `ip * 100000 + port`; the text of an IP is one byte.
abbrev join : List ℕ → ℕ → Option ℕ
join [] port = none
join (ip ∷ rest) port = some (ip * 100_000 + port)

abbrev pub toy_net : Network
toy_net = record { ip_of = λ addr. addr / 100_000; ip_text = λ ip. ip ∷ []; resolve = join }

-- A key is one byte, the number of the bytes in passphrase and salt.
abbrev pub toy_ciphers : Ciphers (List ℕ)
toy_ciphers = record {
  pbkdf2 = λ passphrase salt iterations size. replicate size (length passphrase + length salt);
  hmac = λ key message. replicate 32 (length key + length message);
  new_cipher = toy_cipher;
  new_gcm = toy_gcm;
}

abbrev secret : EncryptionConfig
secret = record { enabled = true; passphrase = text "secret"; iterations = pos 600_000 }

abbrev pub secret_send : SendConfig
secret_send = record on_eth0 { encryption = secret }

abbrev pub secret_recv : RecvConfig
secret_recv = record recv_on_eth0 { encryption = secret }

abbrev pub moment : ℕ → Moment
moment now = record {
  cleaned = now;
  checked = now;
  noted = now;
  made = now;
  unix = pos now;
  random = sevens;
}

abbrev pub manager : SessionManager Aead
manager = new_session_manager (λ k parity. none) 2 false 8 10 true

abbrev pub fresh : SenderControl
fresh = started toy_net toy_ciphers secret_send manager

-- A REGISTER for port 5101 from port 6000 of IP 9, a keep-alive that is not encrypted, a tick, a
-- multicast datagram.
abbrev pub hello : List ℕ
hello =
    register_packet toy_ciphers.pbkdf2 toy_ciphers.hmac secret_recv (text "0.1.0-draft")
      (text "10.0.0.9")

abbrev events : List Event
events =
    packet 906_000 hello (moment 1_000)
    ∷ packet 906_000 (3 ∷ 0 ∷ 0 ∷ []) (moment 2_000)
    ∷ tick 3_000
    ∷ multicast (1 ∷ 2 ∷ [])
    ∷ []

on_events-started-IsProper_example :
    IsProper toy_net toy_ciphers secret_send
      (on_events toy_net toy_ciphers secret_send events fresh).manager
on_events-started-IsProper_example =
    on_events-started-IsProper toy_net toy_ciphers secret_send (λ k parity. none) 2 false 8 10
      events

handle_packet-Effect_example :
    Effect toy_net toy_ciphers secret_send fresh.manager
      (expire 1_000 fresh.pending_auths)
      906_000
      hello
      (handle_packet toy_net toy_ciphers secret_send fresh 906_000 hello (moment 1_000)).0.manager
handle_packet-Effect_example =
    handle_packet-Effect toy_net toy_ciphers secret_send 906_000 hello fresh (moment 1_000)

on_events-started-OnePending_example :
    OnePending (on_events toy_net toy_ciphers secret_send events fresh)
on_events-started-OnePending_example =
    on_events-started-OnePending toy_net toy_ciphers secret_send manager events
