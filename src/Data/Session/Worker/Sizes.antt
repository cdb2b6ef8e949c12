-- ===== src/Data/Session/Worker/Sizes.antt =====
-- internal/data/session.go: how long the datagrams of `sessionWorker` are.
use mathlib.Core.Path.{subst}
use multicast_bridge.Common.{
  ℕ, ◌+◌, ◌-◌, ◌≤◌, ◌≡◌, refl, sym, ◌==◌, ==_iff, if◌then◌else◌, ltb, ◌&&◌, Bool, true, false, List,
  [], ◌∷◌, ◌++◌, length, All, Option, none, some, arith, length-append,
}
use multicast_bridge.Common.Int.{ℤ}
use multicast_bridge.Common.Results.{Result, ok, err}
use multicast_bridge.Data.Header.RoundTrip.{length-serialize}
use multicast_bridge.Data.Session.{Session, SessionManager}
use multicast_bridge.Data.Session.Worker.{
  Worker, Pass, going, ended, Written, no_socket, sent, failed, failed_done, data_info, fec_info_of,
  frame, next_number, after_write, and_then, clear_group, fec_on, send_redundant, redundant,
  join_group, send_payload, encrypted, send_packet,
}
use multicast_bridge.Fec.Codec.{Codec, IsCodec, AllOfLength}
use multicast_bridge.Fec.Encode.{FecError, encode_fec_with_encoder}
use multicast_bridge.Fec.Parity.{max_len, max_len-le, length-le-max_len_from, encode_fec-max_len}

pub length-frame :
    (seq : ℕ) (stamp : ℤ) (info : ℕ) (payload : List ℕ)
    → length (frame seq stamp info payload) ≡ 17 + length payload
unfolding frame
length-frame seq stamp info payload = omega (arith, length-append _ payload, length-serialize _)

abbrev pub AtMostLong : ℕ → List (List ℕ) → Type 0
AtMostLong most = All (λ d. length d ≤ most)

pub append-AtMostLong :
    (most : ℕ) (ds : List (List ℕ)) (d : List ℕ)
    → AtMostLong most ds
    → length d ≤ most
    → AtMostLong most (ds ++ (d ∷ []))
append-AtMostLong most [] d v h = (h, tt)
append-AtMostLong most (x ∷ ds) d v h = (v.0, append-AtMostLong most ds d v.1 h)

AllOfLength-AtMostLong :
    (l most : ℕ) (ds : List (List ℕ)) → l ≤ most → AllOfLength l ds → AtMostLong most ds
AllOfLength-AtMostLong l most [] h v = tt
AllOfLength-AtMostLong l most (d ∷ ds) h v =
    (omega (arith, v.0), AllOfLength-AtMostLong l most ds h v.1)

-- A data packet has at most `most` bytes and a redundant one at most 17 more.
pub record Short (most : ℕ) (w : Worker) : Type 0 where
  pub on_wire : AtMostLong (17 + most) w.datagrams
  pub grouped : AtMostLong most w.group_packets
  pub headed : All (λ p. 1 ≤ length p) w.group_packets

abbrev pub worker_of : Pass → Worker
worker_of (going w) = w
worker_of (ended w) = w

some_bytes : (ps : List (List ℕ)) → 1 ≤ length ps → All (λ p. 1 ≤ length p) ps → 1 ≤ max_len ps
some_bytes [] h v = absurd (omega (arith, h))
some_bytes (p ∷ ps) h v = omega (arith, v.0, (length-le-max_len_from 0 (p ∷ ps)).0)

pub AllShort : ℕ → Pass → Type 0
AllShort most p = Short most (worker_of p)

pub append-headed :
    (ps : List (List ℕ)) (p : List ℕ)
    → All (λ q. 1 ≤ length q) ps
    → 1 ≤ length p
    → All (λ q. 1 ≤ length q) (ps ++ (p ∷ []))
append-headed [] p v h = (h, tt)
append-headed (x ∷ ps) p v h = (v.0, append-headed ps p v.1 h)

pub on_sizes : (on : Bool) (k n : ℕ) → (on && (ltb 0 k && ltb k n)) ≡ true → (1 ≤ k) × (k ≤ n)
on_sizes on k n e = ground (arith, e)

abbrev pub AreShort : ℕ → Result FecError (List (List ℕ)) → Type 0
AreShort most (err e) = Unit
AreShort most (ok blocks) = AtMostLong most blocks

-- The redundant packets of a group are not longer than its longest one.
pub encode-AreShort :
    (most k n : ℕ) (enc : Option Codec) (ps : List (List ℕ))
    → ((c : Codec) → enc ≡ some c → IsCodec c k (n - k))
    → 1 ≤ k
    → k ≤ n
    → length ps ≡ k
    → All (λ p. 1 ≤ length p) ps
    → AtMostLong most ps
    → AreShort most (encode_fec_with_encoder enc k n ps)
encode-AreShort most k n none ps codec h room size v short = unfold encode_fec_with_encoder in tt
encode-AreShort most k n (some c) ps codec h room size v short =
    let (red, p) =
      encode_fec-max_len c k n (codec c refl) ps size room
        (some_bytes ps (omega (arith, size)) v) in
    subst (AreShort most) (sym p.result) (
      AllOfLength-AtMostLong (max_len ps) most red (max_len-le most 0 ps (omega arith) short)
        p.even)

module _ (most : ℕ) where
  cond-Short :
      (b : Bool) (x y : Pass)
      → (b ≡ true → AllShort most x)
      → (b ≡ false → AllShort most y)
      → AllShort most (if b then x else y)
  cond-Short true x y p q = p refl
  cond-Short false x y p q = q refl

  and_then-Short :
      (p : Pass) (f : Worker → Pass)
      → AllShort most p
      → ((w : Worker) → Short most w → AllShort most (f w))
      → AllShort most (and_then p f)
  unfolding AllShort
  and_then-Short (going w) f v next = next w v
  and_then-Short (ended w) f v next = v

  pub pass-Short : (p : Pass) → AllShort most p → Short most (worker_of p)
  unfolding AllShort
  pass-Short p v = v

  going-Short : (w : Worker) → Short most w → AllShort most (going w)
  unfolding AllShort
  going-Short w v = v

  after_write-Short :
      (o : Written) (bytes : List ℕ) (w : Worker)
      → length bytes ≤ 17 + most
      → Short most w
      → AllShort most (after_write o bytes w)
  unfolding AllShort
  after_write-Short no_socket bytes w h v = v
  after_write-Short sent bytes w h v = record {
    on_wire = append-AtMostLong (17 + most) w.datagrams bytes v.on_wire h;
    grouped = v.grouped;
    headed = v.headed;
  }
  after_write-Short failed bytes w h v = v
  after_write-Short failed_done bytes w h v = v

  pub next_number-Short : (w : Worker) → Short most w → Short most (next_number w)
  next_number-Short w v = record { on_wire = v.on_wire; grouped = v.grouped; headed = v.headed }

  module _ {A : Type 0} (encrypt : ℕ → A → List ℕ → Option (List ℕ)) (clock : ℕ → ℤ)
      (write : List ℕ → Written) (sm : SessionManager A)
      (codec : (c : Codec)
        → sm.fec_encoder ≡ some c
        → IsCodec c sm.fec_k (sm.fec_n - sm.fec_k)) where
    send_redundant-Short :
        (packets : List (List ℕ)) (index : ℕ) (w : Worker)
        → AtMostLong most packets
        → Short most w
        → AllShort most (send_redundant encrypt clock write sm packets index w)
    unfolding send_redundant
    send_redundant-Short [] index w h v = going-Short w v
    send_redundant-Short (block ∷ rest) index w h v =
        let packet = frame w.seq_num (clock w.seq_num) (fec_info_of w.group_num index) block in
        and_then-Short _ _
          (after_write-Short (write packet) packet (next_number w)
            (omega (
              arith,
              h.0,
              length-frame w.seq_num (clock w.seq_num) (fec_info_of w.group_num index) block,
            ))
            (next_number-Short w v))
          (λ w' v'. send_redundant-Short rest (index + 1) w' h.1 v')

    redundant-Short :
        (result : Result FecError (List (List ℕ))) (w : Worker)
        → AreShort most result
        → Short most w
        → AllShort most (redundant encrypt clock write sm result w)
    redundant-Short (err e) w h v = going-Short w v
    redundant-Short (ok packets) w h v = send_redundant-Short packets sm.fec_k w h v

    cleared :
        (w : Worker) → Short most w → AllShort most (going (clear_group encrypt clock write sm w))
    cleared w v =
        going-Short (clear_group encrypt clock write sm w)
          (record { on_wire = v.on_wire; grouped = tt; headed = tt })

    join_group-Short :
        (packet : List ℕ) (w : Worker)
        → length packet ≤ most
        → 1 ≤ length packet
        → Short most w
        → AllShort most (join_group encrypt clock write sm packet w)
    unfolding join_group
    join_group-Short packet w h one v =
        let joined : Worker = record w { group_packets = w.group_packets ++ (packet ∷ []) } in
        let short : Short most joined = record {
          on_wire = v.on_wire;
          grouped = append-AtMostLong most w.group_packets packet v.grouped h;
          headed = append-headed w.group_packets packet v.headed one;
        } in
        cond-Short (fec_on encrypt clock write sm) _ _
          (λ on.
            let sizes = on_sizes sm.fec_enabled sm.fec_k sm.fec_n on in
            cond-Short (length joined.group_packets == sm.fec_k) _ _
              (λ full.
                and_then-Short _ _
                  (redundant-Short _ joined
                    (encode-AreShort most sm.fec_k sm.fec_n sm.fec_encoder joined.group_packets
                      codec sizes.0 sizes.1 ((==_iff _ _).0 full) short.headed short.grouped)
                    short)
                  (λ w' v'. cleared w' v'))
              (λ _. going-Short joined short))
          (λ _. going-Short w v)

    send_payload-Short :
        (seq : ℕ) (w : Worker) (protected : Option (List ℕ))
        → ((payload : List ℕ) → protected ≡ some payload → 17 + length payload ≤ most)
        → Short most w
        → AllShort most (send_payload encrypt clock write sm seq w protected)
    send_payload-Short seq w none h v = going-Short w v
    send_payload-Short seq w (some payload) h v =
        let info =
          if fec_on encrypt clock write sm
          then data_info w.group_num (length w.group_packets)
          else 0 in
        let packet = frame seq (clock seq) info payload in
        let size = length-frame seq (clock seq) info payload in
        let fits : length packet ≤ most = omega (arith, size, h payload refl) in
        and_then-Short _ _ (after_write-Short (write packet) packet w (omega arith) v)
          (λ w' v'. join_group-Short packet w' fits (omega (arith, size)) v')

    module _ (s : Session A) (limit : ℕ)
        (adds : (seq : ℕ) (bytes payload : List ℕ)
          → (if sm.encryption_enabled
              then encrypted encrypt clock write sm seq s.aead bytes
              else some bytes)
            ≡ some payload
          → length bytes ≤ limit
          → 17 + length payload ≤ most) where
      pub send_packet-Short :
          (bytes : List ℕ) (w : Worker)
          → length bytes ≤ limit
          → Short most w
          → AllShort most (send_packet encrypt clock write sm s bytes w)
      unfolding send_packet
      send_packet-Short bytes w h v =
          send_payload-Short w.seq_num (next_number w) _
            (λ payload e. adds w.seq_num bytes payload e h) (next_number-Short w v)
