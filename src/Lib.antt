-- ===== src/Lib.antt =====
-- Multicast-Bridge: a bridge that carries multicast streams over unicast UDP.
--
-- The sender (cmd/send.go) joins a multicast group, gives each packet the 17-byte header of
-- internal/data/header.go, adds redundant packets (internal/fec/fec.go) and queues it for each
-- registered receiver (internal/data/queue.go). Receivers register over the control protocol of
-- internal/control/protocol.go. The receiver (cmd/recv.go) counts losses and latencies, rebuilds
-- missing packets with the FEC manager and sends the stream out as multicast again.
--
-- Files:
-- - Common and its children: the tests, lists, integers, byte strings, results and association lists
--   that all parts share. Bytes are numbers; a map is an association list.
-- - Data/Header: `Serialize` and `DeserializeHeader` (serialize, deserialize_header).
-- - Data/Queue: `PacketQueue`. Data/Queue/Steps: any calls of it in the order of the lock;
--   Data/Queue/Refinement: a burst of packets; Data/Queue/Fits:
--   the packets of a queue under a limit on their length.
-- - Data/Session: `SessionManager`, with the sessions in an association list and those that have left
--   it in `stopped`. Data/Session/Operations: any calls of it; Data/Session/Invariant and
--   Data/Session/Keep: what they keep; Data/Session/Timeouts and Data/Session/Broadcast: which sessions
--   stay and what their queues hold; Data/Session/Each, Data/Session/Enter and
--   Data/Session/Renew: a property of every session under an operation.
-- - Data/Session/Worker: what `sessionWorker` does for each packet. Worker/Info: the FEC field of the
--   header at both ends; Worker/Frame: the packet in its frame and the receiver's `unwrap`;
--   Worker/Numbers: the sequence numbers; Worker/Run: its loop and its end; Worker/Sizes,
--   Worker/Room and Worker/RunSizes: the lengths of the datagrams.
-- - Control: `ParsePacket`, `BuildPacket`. Control/Payload: the payload encoders and decoders.
-- - Fec/Codec: the Reed-Solomon library as a parameter. Fec/Encode: `EncodeFEC` and
--   `EncodeFECWithEncoder`. Fec/Manager: `FECManager` with `AddPacket` and `CleanUpTimeouts`;
--   Fec/Manager/Group: `GroupState` and the loops over its arrays. Fec/EndToEnd: from the sender's
--   packets to what the receiver releases. Fec/Analyzer: `VirtualFEC` and `FECAnalyzer`;
--   Fec/Analyzer/Verdict: a whole group in a simulation.
-- - Receiver/Stats: `StreamStats`. Receiver/Stats/Diff: the signed difference of two numbers;
--   Receiver/Stats/Spec: the count of missing packets.
-- - Logger: `TrafficStats`, `LatencyStats`, `SenderStats` and `ReceiverStats` of
--   internal/logger/stats.go.
-- - Receiver/Forward: the forwarding loop of cmd/recv.go on one datagram; Receiver/Forward/Plain: a
--   data packet from the sender's frame to the group.
-- - Receiver/Register: `registerWithSender`; Receiver/Register/Outcome: what it returns.
--   Receiver/Reconnect: the back-off, `writeControlPacket` and `listenForDisconnect`.
-- - Config: the settings and defaults of internal/config/config.go; Config/Checks: both `Validate`
--   methods; Config/Load: the loaders; Config/Ranges, Config/Valid and Config/Loaded: what is
--   accepted.
-- - Crypto: internal/crypto/crypto.go; Crypto/Gcm: what encryption and decryption promise.
-- - Sender: the state of the control handler of cmd/send.go; Sender/Handler and Sender/Loop: its cases
--   and its turns (handle_packet, on_events); Sender/Effects, Sender/Step and Sender/Turn: what a turn
--   can do to the sessions; Sender/Proper: the invariant; Sender/Challenges and
--   Sender/Pending: the challenges; Sender/Size and Sender/Mtu: `maxPayloadSize`.
-- - Handshake: the control handler and `registerWithSender` together.
-- - Tests: concrete runs.
--
-- Correspondence: a Go slice is a List, a nil slice is the empty one, a method is a function from
-- the old state to the new state and the results, the lock of a method makes it one step, and the clock
-- is an argument. `CheckTimeouts` gives the lock up between its scan and the removals: these are also
-- calls and events of their own, which can come at any moment. A counter of a uint64 or an int64 has
-- its wrap-around where it can matter to the result; `droppedCount`, `recvCount` and the lengths are
-- unbounded. All loops are structural recursion, so no fuel is needed.
--
-- Interaction: a broadcast of the session manager is an `Enqueue` on each queue; a worker frames what
-- it takes with `Serialize` and encodes a full group with `EncodeFECWithEncoder`; the forwarding loop
-- reads the header, calls `StreamStats.Update`, `ReceiverStats.AddPacket` and `FECManager.AddPacket`,
-- and takes the payload out of each released packet.
--
-- The control packets: Sender.Loop.handle_packet is one turn of `handleControlPackets` over the session
-- manager, the pending challenges and the times of the last REGISTER, Receiver.Register is the other
-- end, and Handshake plays them against each other; a datagram of the group goes through
-- receive_multicast to the queues. The settings of both come from Config.
--
-- Not modelled: the goroutines that the reconnection of cmd/recv.go starts and stops, AES, GCM,
-- PBKDF2 and HMAC-SHA256 themselves, which are parameters, the reading of YAML and of IP addresses,
-- also parameters, sockets, the platform's multicast options, logging, the files of the process id
-- and the statistics report, and the command line. The Reed-Solomon code is assumed to do what its
-- documentation says (IsCodec), and a concrete codec in Tests/Sums meets the assumption.
pub mod Common
pub mod Config
pub mod Control
pub mod Crypto
pub mod Data
pub mod Fec
pub mod Handshake
pub mod Logger
pub mod Receiver
pub mod Sender
pub mod Tests
