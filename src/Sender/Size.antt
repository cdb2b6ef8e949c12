-- ===== src/Sender/Size.antt =====
-- cmd/send.go: the size that a multicast datagram may have, and the receive loop for one datagram.
use multicast_bridge.Common.{ℕ, ◌-◌, if◌then◌else◌, ltb, List, length}
use multicast_bridge.Common.Int.{pos, less, pos_part}
use multicast_bridge.Config.{SendConfig}
use multicast_bridge.Crypto.{Aead}
use multicast_bridge.Data.Session.{SessionManager, broadcast}

-- An MTU that is not valid counts as the usual one.
unfoldable pub link_mtu : SendConfig → ℕ
link_mtu cfg = if less cfg.mtu (pos 576) then 1500 else pos_part cfg.mtu

abbrev pub encryption_overhead : SendConfig → ℕ
encryption_overhead cfg = if cfg.encryption.enabled then 28 else 0

-- Without the headers of IP, of UDP, of a redundant and of a data packet, and what encryption adds. The MTU is
-- at least 576 here, so that nothing is cut off at 0.
unfoldable pub max_payload_size : SendConfig → ℕ
max_payload_size cfg = link_mtu cfg - 20 - 8 - 17 - 17 - encryption_overhead cfg

-- A datagram that was read is discarded if it is too long, else it is broadcast.
unfoldable pub receive_multicast : SendConfig → SessionManager Aead → List ℕ → SessionManager Aead
receive_multicast cfg sm bytes =
    if ltb (max_payload_size cfg) (length bytes) then sm else broadcast sm bytes
