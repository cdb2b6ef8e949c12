-- ===== src/Data/Session/Worker/RunSizes.antt =====
-- internal/data/session.go: how long the datagrams of a whole run of `sessionWorker` are.
use multicast_bridge.Common.{
  ℕ, zero, suc, ◌+◌, ◌-◌, ◌≤◌, ◌≡◌, refl, if◌then◌else◌, ltb, ◌&&◌, Bool, true, false, List, [],
  ◌∷◌, ◌++◌, length, All, Option, some, arith, length-append, length-replicate,
}
use multicast_bridge.Common.Int.{ℤ}
use multicast_bridge.Common.Bytes.{length-copy_at}
use multicast_bridge.Common.Results.{Result, ok, err}
use multicast_bridge.Data.Session.{Session, SessionManager}
use multicast_bridge.Data.Session.Worker.{
  Worker, Pass, going, ended, Written, no_socket, sent, failed, failed_done, fec_info_of, frame,
  start_worker, next_number, encrypted, fec_on,
}
use multicast_bridge.Data.Session.Worker.Run.{
  Taken, cancelled, packet, closed, size_of_first, last_write, dummy, fill_up, send_last,
  last_redundant, flush, or_return, run_worker,
}
use multicast_bridge.Data.Session.Worker.Room.{IsSmall, send_packet-IsSmall}
use multicast_bridge.Data.Session.Worker.Sizes.{
  AtMostLong, Short, AreShort, worker_of, pass-Short, append-AtMostLong, length-frame,
  next_number-Short, encode-AreShort, append-headed, on_sizes, send_packet-Short,
}
use multicast_bridge.Fec.Codec.{Codec, IsCodec}
use multicast_bridge.Fec.Encode.{FecError}

-- Each packet that is taken has at most `limit` bytes.
abbrev pub TakenAtMost : ℕ → List Taken → Type 0
TakenAtMost limit [] = Unit
TakenAtMost limit (cancelled ∷ rest) = TakenAtMost limit rest
TakenAtMost limit (closed done ∷ rest) = TakenAtMost limit rest
TakenAtMost limit (packet bytes ∷ rest) = (length bytes ≤ limit) × TakenAtMost limit rest

last_write-Short :
    (most : ℕ) (o : Written) (bytes : List ℕ) (w : Worker)
    → length bytes ≤ 17 + most
    → Short most w
    → Short most (last_write o bytes w)
last_write-Short most sent bytes w h v = record {
  on_wire = append-AtMostLong (17 + most) w.datagrams bytes v.on_wire h;
  grouped = v.grouped;
  headed = v.headed;
}
last_write-Short most no_socket bytes w h v = v
last_write-Short most failed bytes w h v = v
last_write-Short most failed_done bytes w h v = v

cond-Short :
    (most : ℕ) (b : Bool) (x y : Worker)
    → (b ≡ true → Short most x)
    → Short most y
    → Short most (if b then x else y)
cond-Short most true x y p q = p refl
cond-Short most false x y p q = q

length-dummy :
    {A : Type 0}
    → (encrypt : ℕ → A → List ℕ → Option (List ℕ)) (clock : ℕ → ℤ) (write : List ℕ → Written)
      (sm : SessionManager A) (stamp : ℕ → ℤ) (base_size group_num index : ℕ)
    → length (dummy encrypt clock write sm stamp base_size group_num index) ≡ base_size
unfolding dummy
length-dummy encrypt clock write sm stamp base_size group_num index =
    rw (length-copy_at, length-replicate) refl

first_size :
    (most : ℕ) (ps : List (List ℕ))
    → 1 ≤ length ps
    → AtMostLong most ps
    → All (λ p. 1 ≤ length p) ps
    → (size_of_first ps ≤ most) × (1 ≤ size_of_first ps)
first_size most [] h v u = absurd (omega (arith, h))
first_size most (p ∷ ps) h v u = (v.0, u.0)

module _ (most : ℕ) {A : Type 0} (encrypt : ℕ → A → List ℕ → Option (List ℕ)) (clock : ℕ → ℤ)
    (write : List ℕ → Written) (sm : SessionManager A) (stamp : ℕ → ℤ)
    (codec : (c : Codec) → sm.fec_encoder ≡ some c → IsCodec c sm.fec_k (sm.fec_n - sm.fec_k)) where
  -- A full group of packets that are not too long and not empty.
  abbrev Full : ℕ → List (List ℕ) → Type 0
  Full count ps = (length ps ≡ count) × AtMostLong most ps × All (λ p. 1 ≤ length p) ps

  fill_up-Full :
      (missing base_size group_num count : ℕ) (ps : List (List ℕ))
      → base_size ≤ most
      → 1 ≤ base_size
      → length ps + missing ≡ count
      → AtMostLong most ps
      → All (λ p. 1 ≤ length p) ps
      → Full count (fill_up encrypt clock write sm stamp missing base_size group_num ps)
  unfolding fill_up
  fill_up-Full zero base_size group_num count ps h one e v u = (omega (arith, e), v, u)
  fill_up-Full (suc missing) base_size group_num count ps h one e v u =
      let d = dummy encrypt clock write sm stamp base_size group_num (length ps) in
      let size = length-dummy encrypt clock write sm stamp base_size group_num (length ps) in
      fill_up-Full missing base_size group_num count (ps ++ (d ∷ [])) h one
        (omega (arith, e, length-append ps (d ∷ [])))
        (append-AtMostLong most ps d v (omega (arith, size, h)))
        (append-headed ps d u (omega (arith, size, one)))

  send_last-Short :
      (packets : List (List ℕ)) (index : ℕ) (w : Worker)
      → AtMostLong most packets
      → Short most w
      → Short most (send_last encrypt clock write sm stamp packets index w)
  unfolding send_last
  send_last-Short [] index w h v = v
  send_last-Short (block ∷ rest) index w h v =
      let bytes = frame w.seq_num (clock w.seq_num) (fec_info_of w.group_num index) block in
      send_last-Short rest (index + 1) _ h.1 (
        last_write-Short most (write bytes) bytes (next_number w)
          (omega (
            arith,
            h.0,
            length-frame w.seq_num (clock w.seq_num) (fec_info_of w.group_num index) block,
          ))
          (next_number-Short most w v))

  last_redundant-Short :
      (result : Result FecError (List (List ℕ))) (w : Worker)
      → AreShort most result
      → Short most w
      → Short most (last_redundant encrypt clock write sm stamp result w)
  last_redundant-Short (err e) w h v = v
  last_redundant-Short (ok packets) w h v = send_last-Short packets sm.fec_k w h v

  on_and_some : (b c : Bool) → (b && c) ≡ true → (b ≡ true) × (c ≡ true)
  on_and_some true true e = (refl, refl)
  on_and_some true false e = cc
  on_and_some false c e = cc

  -- A group in the making is smaller than a full one.
  flush-Short :
      (w : Worker)
      → length w.group_packets ≤ sm.fec_k
      → Short most w
      → Short most (flush encrypt clock write sm stamp w)
  unfolding flush
  flush-Short w small v =
      let filled =
        fill_up encrypt clock write sm stamp (sm.fec_k - length w.group_packets)
          (size_of_first w.group_packets) w.group_num w.group_packets in
      let enough = ltb 0 (length w.group_packets) in
      cond-Short most (fec_on encrypt clock write sm && enough) _ w
        (λ both.
          let (on, has) = on_and_some (fec_on encrypt clock write sm) enough both in
          let sizes = on_sizes sm.fec_enabled sm.fec_k sm.fec_n on in
          let (short, not_empty) =
            first_size most w.group_packets (ground (arith, has)) v.grouped v.headed in
          let (count, grouped, headed) =
            fill_up-Full (sm.fec_k - length w.group_packets) (size_of_first w.group_packets)
              w.group_num sm.fec_k w.group_packets short not_empty (omega (arith, small)) v.grouped
              v.headed in
          last_redundant-Short _ (record w { group_packets = filled })
            (encode-AreShort most sm.fec_k sm.fec_n sm.fec_encoder filled codec sizes.0 sizes.1
              count headed grouped)
            (record { on_wire = v.on_wire; grouped = grouped; headed = headed }))
        v

  module _ (s : Session A) (limit : ℕ)
      (adds : (seq : ℕ) (bytes payload : List ℕ)
        → (if sm.encryption_enabled
            then encrypted encrypt clock write sm seq s.aead bytes
            else some bytes)
          ≡ some payload
        → length bytes ≤ limit
        → 17 + length payload ≤ most) where
    or_return-Short :
        (p : Pass) (f : Worker → Worker)
        → Short most (worker_of p)
        → IsSmall encrypt clock write sm p
        → ((w : Worker) → Short most w → length w.group_packets ≤ sm.fec_k - 1 → Short most (f w))
        → Short most (or_return encrypt clock write sm stamp p f)
    or_return-Short (going w) f v small next = next w v small
    or_return-Short (ended w) f v small next = v

    run_worker-Short :
        (taken : List Taken) (w : Worker)
        → TakenAtMost limit taken
        → length w.group_packets ≤ sm.fec_k - 1
        → Short most w
        → Short most (run_worker encrypt clock write sm stamp s taken w)
    unfolding run_worker
    run_worker-Short [] w h small v = v
    run_worker-Short (cancelled ∷ rest) w h small v = v
    run_worker-Short (closed true ∷ rest) w h small v = v
    run_worker-Short (closed false ∷ rest) w h small v = flush-Short w (omega (arith, small)) v
    run_worker-Short (packet bytes ∷ rest) w h small v =
        or_return-Short _ _
          (pass-Short most _
            (send_packet-Short most encrypt clock write sm codec s limit adds bytes w h.0 v))
          (send_packet-IsSmall encrypt clock write sm s bytes w small)
          (λ w' v' small'. run_worker-Short rest w' h.1 small' v')

    -- If encryption makes no payload longer than `most` less the header, and the encoder is as
    -- documented, each datagram of a run has at most `17 + most` bytes.
    pub run_worker-AtMostLong :
        (seq : ℕ) (taken : List Taken)
        → TakenAtMost limit taken
        → AtMostLong
            (17 + most)
            (run_worker encrypt clock write sm stamp s taken (start_worker seq)).datagrams
    unfolding start_worker
    run_worker-AtMostLong seq taken h =
        (run_worker-Short taken (start_worker seq) h (omega arith)
          (record { on_wire = tt; grouped = tt; headed = tt })).on_wire
