-- ===== src/Tests/Plain.antt =====
-- The registration without encryption at a concrete input.
use multicast_bridge.Common.{ℕ, ◌≡◌, refl, List, [], ◌∷◌, Option, none, some, arith}
use multicast_bridge.Common.Int.{pos}
use multicast_bridge.Common.Text.{text}
use multicast_bridge.Common.Results.{ok}
use multicast_bridge.Common.Assoc.{lookup}
use multicast_bridge.Data.Session.Each.{made}
use multicast_bridge.Handshake.Plain.{CanRegister, after_register, attempted, register-plain}
use multicast_bridge.Receiver.Register.{register_packet, returned}
use multicast_bridge.Tests.Config.{on_eth0, recv_on_eth0}
use multicast_bridge.Tests.Sender.{toy_net, toy_ciphers, moment, fresh}

can_register :
    CanRegister toy_net toy_ciphers on_eth0 recv_on_eth0
      (text "0.1.0-draft")
      (text "10.0.0.9")
      906_000
      fresh
      (moment 1_000)
      (pos 3)
      (pos 4)
      905_101
unfolding multicast_bridge.Data.Session.new_session_manager
    multicast_bridge.Data.Session.get_session_by_control_addr multicast_bridge.Common.Assoc.lookup
can_register = record {
  send_plain = refl;
  recv_plain = refl;
  short_version = omega arith;
  short_ip_addr = omega arith;
  unknown = refl;
  rested = refl;
  resolved = refl;
  has_room = record { running = refl; new_addr = refl; room = omega arith };
  n_fits = omega arith;
}

register-plain_example :
    (attempted toy_net toy_ciphers on_eth0 recv_on_eth0
        (text "0.1.0-draft")
        (text "10.0.0.9")
        906_000
        fresh
        (moment 1_000)
        (pos 3)
        (pos 4)
      ≡ (
        register_packet toy_ciphers.pbkdf2 toy_ciphers.hmac recv_on_eth0
              (text "0.1.0-draft")
              (text "10.0.0.9")
            ∷ [],
        returned (ok (record { k = 8; n = 10; key = [] })),
      ))
    × (lookup 905_101
          (after_register toy_net toy_ciphers on_eth0 recv_on_eth0
            (text "0.1.0-draft")
            (text "10.0.0.9")
            906_000
            fresh
            (moment 1_000)
            (pos 3)
            (pos 4)).0.manager.sessions
        ≡ some (made 905_101 (some 906_000) 100 [] 1_000 none))
register-plain_example =
    register-plain toy_net toy_ciphers on_eth0 recv_on_eth0 (text "0.1.0-draft") (text "10.0.0.9")
      906_000 fresh (moment 1_000) (pos 3) (pos 4) 905_101 can_register
