-- ===== src/Tests/Channel.antt =====
-- The keep-alive and the LEAVE of a registered receiver at concrete inputs.
use multicast_bridge.Common.{
  ℕ, ◌≡◌, refl, Bool, true, false, List, [], ◌∷◌, ◌++◌, replicate, Option, none, some,
}
use multicast_bridge.Common.Results.{ok}
use multicast_bridge.Control.{build_packet, type_keep_alive}
use multicast_bridge.Crypto.{Aead, decrypt_gcm}
use multicast_bridge.Data.Session.{
  Session, SessionManager, update_last_active_by_control_addr, remove_session_by_control_addr,
}
use multicast_bridge.Data.Session.Each.{made}
use multicast_bridge.Handshake.Channel.{IsConnected, keep_alive_and_leave}
use multicast_bridge.Receiver.Reconnect.{keep_alive_packet, leave_packet}
use multicast_bridge.Sender.{SenderControl}
use multicast_bridge.Sender.Loop.{handle_packet}
use multicast_bridge.Tests.Cipher.{
  toy, toy_key, toy_cipher, toy_gcm, toy-IsAead, zeros, sevens, sevens-IsRandom,
}
use multicast_bridge.Tests.Sender.{toy_net, toy_ciphers, secret_send, moment, fresh, manager}

abbrev session : Session Aead
session = made 905_101 (some 906_000) 100 toy_key 2_000 (some toy)

abbrev connected : SenderControl
connected = record fresh { manager = record manager { sessions = (905_101, session) ∷ [] } }

connected-IsConnected :
    IsConnected toy_net toy_ciphers secret_send 906_000 connected (moment 3_000) session toy
unfolding multicast_bridge.Data.Session.get_session_by_control_addr multicast_bridge.Crypto.new_aead
    multicast_bridge.Data.Session.Invariant.AreLive multicast_bridge.Common.Assoc.lookup
    multicast_bridge.Data.Queue.new_packet_queue multicast_bridge.Data.Session.new_session_manager
connected-IsConnected = record {
  encrypts = refl;
  of_sender = refl;
  has_key = refl;
  cipher = refl;
  laws = toy-IsAead;
  live = (record { same_id = refl; running = refl; opened = refl }, refl, tt);
  random = sevens-IsRandom;
}

abbrev protected : ℕ → List ℕ
protected kind = replicate 12 7 ++ (zeros ++ (kind ∷ 0 ∷ 0 ∷ []))

alive_written : keep_alive_packet toy_cipher toy_gcm sevens toy_key ≡ ok (protected 3)
unfolding keep_alive_packet multicast_bridge.Receiver.Reconnect.write_control_packet
    multicast_bridge.Crypto.encrypt_gcm multicast_bridge.Crypto.generate_random_bytes build_packet
alive_written = refl

leave_written : leave_packet toy_cipher toy_gcm sevens toy_key ≡ ok (protected 4)
unfolding leave_packet multicast_bridge.Receiver.Reconnect.write_control_packet
    multicast_bridge.Crypto.encrypt_gcm multicast_bridge.Crypto.generate_random_bytes build_packet
leave_written = refl

keep_alive_and_leave_example :
    ((handle_packet toy_net toy_ciphers secret_send connected 906_000
        (protected 3)
        (moment 3_000)).0.manager
      ≡ update_last_active_by_control_addr connected.manager 906_000 3_000)
    × ((c : List ℕ)
        → (handle_packet toy_net toy_ciphers secret_send connected 906_000
            (protected 3)
            (moment 3_000)).1
          ≡ some c
        → decrypt_gcm toy_cipher toy_gcm c toy_key ≡ ok (build_packet type_keep_alive []))
    × ((handle_packet toy_net toy_ciphers secret_send connected 906_000
          (protected 4)
          (moment 3_000)).0.manager
        ≡ remove_session_by_control_addr connected.manager 906_000)
    × ((handle_packet toy_net toy_ciphers secret_send connected 906_000
          (protected 4)
          (moment 3_000)).1
        ≡ none)
keep_alive_and_leave_example =
    keep_alive_and_leave toy_net toy_ciphers secret_send 906_000 connected (moment 3_000) session
      toy connected-IsConnected sevens (protected 3) (protected 4) sevens-IsRandom alive_written
      leave_written
