-- ===== src/Data/Session/Worker/Run.antt =====
-- internal/data/session.go: the loop of `sessionWorker`, and what it does when its queue is closed.
--
-- `stamp i` is the clock when the header of the empty packet at index `i` is made.
use multicast_bridge.Common.{
  ℕ, zero, suc, ◌+◌, ◌-◌, if◌then◌else◌, ltb, Bool, true, false, ◌&&◌, List, [], ◌∷◌, ◌++◌, length,
  Option,
}
use multicast_bridge.Common.Int.{ℤ}
use multicast_bridge.Common.Bytes.{make, copy_at}
use multicast_bridge.Common.Results.{Result, ok, err}
use multicast_bridge.Data.Header.{current_header_version, serialize}
use multicast_bridge.Data.Session.{Session, SessionManager}
use multicast_bridge.Data.Session.Worker.{
  Worker, Written, sent, no_socket, failed, failed_done, data_info, fec_info_of, frame, next_number,
  fec_on, send_packet, Pass, going, ended,
}
use multicast_bridge.Fec.Encode.{FecError, encode_fec_with_encoder}

-- What a turn of the loop meets: the end of the context, a packet, or the closed queue, with whether the
-- context is done then.
pub data Taken : Type 0 where
  cancelled : Taken
  packet : List ℕ → Taken
  closed : Bool → Taken

abbrev pub size_of_first : List (List ℕ) → ℕ
size_of_first [] = 0
size_of_first (p ∷ ps) = length p

-- An error of the last writes is ignored, and they are not counted.
abbrev pub last_write : Written → List ℕ → Worker → Worker
last_write sent bytes w = record w { datagrams = w.datagrams ++ (bytes ∷ []) }
last_write no_socket bytes w = w
last_write failed bytes w = w
last_write failed_done bytes w = w

module _ {A : Type 0} (encrypt : ℕ → A → List ℕ → Option (List ℕ)) (clock : ℕ → ℤ)
    (write : List ℕ → Written) (sm : SessionManager A) (stamp : ℕ → ℤ) where
  -- A header with no payload, and zeros up to the size of the group's first packet.
  unfoldable pub dummy : ℕ → ℕ → ℕ → List ℕ
  dummy base_size group_num index = copy_at (make base_size) 0 (
      serialize (record {
        version = current_header_version;
        seq_num = 0;
        timestamp = stamp index;
        payload_len = 0;
        fec_info = data_info group_num index;
      }))

  -- `missing` more packets.
  unfoldable pub fill_up : ℕ → ℕ → ℕ → List (List ℕ) → List (List ℕ)
  fill_up zero base_size group_num ps = ps
  fill_up (suc missing) base_size group_num ps =
      fill_up missing base_size group_num (ps ++ (dummy base_size group_num (length ps) ∷ []))

  unfoldable pub send_last : List (List ℕ) → ℕ → Worker → Worker
  send_last [] index w = w
  send_last (block ∷ rest) index w =
      let bytes = frame w.seq_num (clock w.seq_num) (fec_info_of w.group_num index) block in
      send_last rest (index + 1) (last_write (write bytes) bytes (next_number w))

  abbrev pub last_redundant : Result FecError (List (List ℕ)) → Worker → Worker
  last_redundant (err e) w = w
  last_redundant (ok packets) w = send_last packets sm.fec_k w

  -- The redundant packets of a group that is not full.
  unfoldable pub flush : Worker → Worker
  flush w =
      if fec_on encrypt clock write sm && ltb 0 (length w.group_packets)
      then (let filled =
            fill_up (sm.fec_k - length w.group_packets) (size_of_first w.group_packets) w.group_num
              w.group_packets in
          last_redundant (encode_fec_with_encoder sm.fec_encoder sm.fec_k sm.fec_n filled)
            (record w { group_packets = filled }))
      else w

  abbrev pub or_return : Pass → (Worker → Worker) → Worker
  or_return (going w) f = f w
  or_return (ended w) f = w

  -- The end of the list stands for a wait that has not ended.
  unfoldable pub run_worker : Session A → List Taken → Worker → Worker
  run_worker s [] w = w
  run_worker s (cancelled ∷ rest) w = w
  run_worker s (closed true ∷ rest) w = w
  run_worker s (closed false ∷ rest) w = flush w
  run_worker s (packet bytes ∷ rest) w =
      or_return (send_packet encrypt clock write sm s bytes w) (run_worker s rest)
