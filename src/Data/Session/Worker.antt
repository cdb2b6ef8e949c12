-- ===== src/Data/Session/Worker.antt =====
-- internal/data/session.go: `sessionWorker`, which numbers, encrypts, frames and sends the packets of
-- a session's queue and adds the redundant packets of each group.
--
-- Parameters: `encrypt seq` is `crypto.EncryptGCMWithAEAD` with the random nonce that it draws for the
-- packet number `seq`, and `none` for its error; `clock seq` is the clock when the header number `seq`
-- is made; `write` is the outcome of `WriteToUDP`.
pub mod Info
pub mod Frame
pub mod Numbers
pub mod Sizes
pub mod Run
pub mod Room
pub mod RunSizes
use multicast_bridge.Common.{
  ℕ, zero, suc, ◌+◌, ◌*◌, ◌/◌, ◌%◌, ◌^◌, ◌==◌, if◌then◌else◌, ltb, Bool, true, false, ◌&&◌, ◌||◌,
  List, [], ◌∷◌, ◌++◌, length, take, Option, none, some,
}
use multicast_bridge.Common.Int.{ℤ}
use multicast_bridge.Common.Bytes.{make, copy_at}
use multicast_bridge.Common.Results.{Result, ok, err}
use multicast_bridge.Data.Header.{EncapsulatedHeader, current_header_version, serialize}
use multicast_bridge.Data.Session.{Session, SessionManager}
use multicast_bridge.Fec.Encode.{FecError, encode_fec_with_encoder}

-- `failed_done` is an error after the end of the session's context; `no_socket` is a nil `conn`.
pub data Written : Type 0 where
  no_socket sent failed failed_done : Written

-- The session's `SeqNum`, the group, what went out, and the sizes noted by `AddTraffic`.
pub record Worker : Type 0 where
  pub seq_num : ℕ
  pub group_num : ℕ
  pub group_packets : List (List ℕ)
  pub datagrams : List (List ℕ)
  pub traffic : List ℕ

-- The worker goes on or has returned.
pub data Pass : Type 0 where
  going : Worker → Pass
  ended : Worker → Pass

-- `a | b` on `w` bits.
abbrev pub bit_or : ℕ → ℕ → ℕ → ℕ
bit_or zero a b = 0
bit_or (suc w) a b = (if (a % 2 == 1) || (b % 2 == 1) then 1 else 0) + 2 * bit_or w (a / 2) (b / 2)

-- `uint16(groupNum) << 4 | uint16(index)`
unfoldable pub data_info : ℕ → ℕ → ℕ
data_info group_num index = bit_or 16 (group_num * 16 % 2 ^ 16) (index % 2 ^ 16)

-- `1 << 15 | uint16(groupNum) << 4 | uint16(index)`
unfoldable pub fec_info_of : ℕ → ℕ → ℕ
fec_info_of group_num index =
    bit_or 16 (bit_or 16 (2 ^ 15) (group_num * 16 % 2 ^ 16)) (index % 2 ^ 16)

-- The header before the payload.
unfoldable pub frame : ℕ → ℤ → ℕ → List ℕ → List ℕ
frame seq stamp info payload =
    serialize (record {
      version = current_header_version;
      seq_num = seq;
      timestamp = stamp;
      payload_len = length payload % 2 ^ 16;
      fec_info = info;
    })
    ++ payload

unfoldable pub start_worker : ℕ → Worker
start_worker seq = record {
  seq_num = seq;
  group_num = 0;
  group_packets = [];
  datagrams = [];
  traffic = [];
}

abbrev pub next_number : Worker → Worker
next_number w = record w { seq_num = (w.seq_num + 1) % 2 ^ 32 }

abbrev pub after_write : Written → List ℕ → Worker → Pass
after_write no_socket bytes w = going w
after_write sent bytes w = going (record w {
  datagrams = w.datagrams ++ (bytes ∷ []);
  traffic = w.traffic ++ (length bytes ∷ []);
})
after_write failed bytes w = going w
after_write failed_done bytes w = ended w

abbrev pub and_then : Pass → (Worker → Pass) → Pass
and_then (going w) f = f w
and_then (ended w) f = ended w

module _ {A : Type 0} (encrypt : ℕ → A → List ℕ → Option (List ℕ)) (clock : ℕ → ℤ)
    (write : List ℕ → Written) (sm : SessionManager A) where
  abbrev pub fec_on : Bool
  fec_on = sm.fec_enabled && (ltb 0 sm.fec_k && ltb sm.fec_k sm.fec_n)

  -- The loop over the redundant packets, `index` being k + i.
  unfoldable pub send_redundant : List (List ℕ) → ℕ → Worker → Pass
  send_redundant [] index w = going w
  send_redundant (block ∷ rest) index w =
      let packet = frame w.seq_num (clock w.seq_num) (fec_info_of w.group_num index) block in
      and_then (after_write (write packet) packet (next_number w)) (send_redundant rest (index + 1))

  abbrev pub clear_group : Worker → Worker
  clear_group w = record w { group_packets = []; group_num = (w.group_num + 1) % 2 ^ 11 }

  abbrev pub redundant : Result FecError (List (List ℕ)) → Worker → Pass
  redundant (err e) w = going w
  redundant (ok packets) w = send_redundant packets sm.fec_k w

  -- A data packet that was sent joins its group; a full group is encoded.
  unfoldable pub join_group : List ℕ → Worker → Pass
  join_group packet w =
      if fec_on
      then (let joined = record w { group_packets = w.group_packets ++ (packet ∷ []) } in
          if length joined.group_packets == sm.fec_k
          then and_then
              (redundant
                (encode_fec_with_encoder sm.fec_encoder sm.fec_k sm.fec_n joined.group_packets)
                joined)
              (λ w'. going (clear_group w'))
          else going joined)
      else going w

  abbrev pub send_payload : ℕ → Worker → Option (List ℕ) → Pass
  send_payload seq w none = going w
  send_payload seq w (some payload) =
      let info = if fec_on then data_info w.group_num (length w.group_packets) else 0 in
      let packet = frame seq (clock seq) info payload in
      and_then (after_write (write packet) packet w) (join_group packet)

  abbrev pub encrypted : ℕ → Option A → List ℕ → Option (List ℕ)
  encrypted seq none bytes = some bytes
  encrypted seq (some a) bytes = encrypt seq a bytes

  -- What is done for a packet that was dequeued.
  unfoldable pub send_packet : Session A → List ℕ → Worker → Pass
  send_packet s bytes w =
      send_payload w.seq_num (next_number w)
        (if sm.encryption_enabled then encrypted w.seq_num s.aead bytes else some bytes)

  unfoldable pub send_packets : Session A → List (List ℕ) → Worker → Pass
  send_packets s [] w = going w
  send_packets s (bytes ∷ rest) w = and_then (send_packet s bytes w) (send_packets s rest)
