-- ===== src/Data/Session/Worker/Numbers.antt =====
-- internal/data/session.go: the sequence numbers that `sessionWorker` gives to its datagrams.
use multicast_bridge.Common.{
  ℕ, zero, suc, ◌+◌, ◌*◌, ◌/◌, ◌%◌, ◌^◌, ◌<◌, ◌≡◌, refl, sym, ◌∙◌, ◌==◌, if◌then◌else◌, Bool, true,
  false, List, [], ◌∷◌, ◌++◌, length, Option, none, some, arith, length-append,
}
use native.Mathlib.Nat.{pow-succ'}
use mathlib.Core.Path.{subst}
use multicast_bridge.Common.Int.{ℤ, IsI64}
use multicast_bridge.Common.Results.{Result, ok, err}
use multicast_bridge.Data.Header.{EncapsulatedHeader, deserialize_header}
use multicast_bridge.Data.Session.{Session, SessionManager}
use multicast_bridge.Data.Session.Worker.{
  Worker, Pass, going, ended, Written, sent, bit_or, data_info, fec_info_of, frame, start_worker,
  next_number, after_write, and_then, clear_group, fec_on, send_redundant, redundant, join_group,
  send_payload, encrypted, send_packet, send_packets,
}
use multicast_bridge.Data.Session.Worker.Frame.{deserialize_header-frame}
use multicast_bridge.Fec.Encode.{FecError}

bit_or-lt : (w a b : ℕ) → bit_or w a b < 2 ^ w
bit_or-lt zero a b = omega arith
bit_or-lt (suc w) a b = ground (arith, bit_or-lt w (a / 2) (b / 2), pow-succ' 2 w)

data_info-lt : (g i : ℕ) → data_info g i < 2 ^ 16
unfolding data_info
data_info-lt g i = bit_or-lt 16 (g * 16 % 2 ^ 16) (i % 2 ^ 16)

fec_info_of-lt : (g i : ℕ) → fec_info_of g i < 2 ^ 16
unfolding fec_info_of
fec_info_of-lt g i = bit_or-lt 16 (bit_or 16 (2 ^ 15) (g * 16 % 2 ^ 16)) (i % 2 ^ 16)

-- Each datagram has a header, and its number is the next one.
pub Numbered : ℕ → List (List ℕ) → Type 0
Numbered n [] = Unit
Numbered n (d ∷ ds) =
    ((h : EncapsulatedHeader) × (deserialize_header d ≡ ok h) × (h.seq_num ≡ n % 2 ^ 32))
    × Numbered (n + 1) ds

pub record Counts (n : ℕ) (w : Worker) : Type 0 where
  pub next : w.seq_num ≡ (n + length w.datagrams) % 2 ^ 32
  pub numbered : Numbered n w.datagrams

-- The worker goes on, and has counted.
pub Counted : ℕ → Pass → Type 0
Counted n (going w) = Counts n w
Counted n (ended w) = ⊥

append-Numbered :
    (n : ℕ) (ds : List (List ℕ)) (d : List ℕ) (h : EncapsulatedHeader)
    → Numbered n ds
    → deserialize_header d ≡ ok h
    → h.seq_num ≡ (n + length ds) % 2 ^ 32
    → Numbered n (ds ++ (d ∷ []))
unfolding Numbered
append-Numbered n [] d h v e f = ((h, e, f ∙ omega arith), tt)
append-Numbered n (x ∷ ds) d h v e f = (v.0, append-Numbered (n + 1) ds d h v.1 e (f ∙ omega arith))

and_then-Counted :
    (n : ℕ) (p : Pass) (f : Worker → Pass)
    → Counted n p
    → ((w : Worker) → Counts n w → Counted n (f w))
    → Counted n (and_then p f)
unfolding Counted
and_then-Counted n (going w) f v next = next w v
and_then-Counted n (ended w) f v next = absurd v

cond-Counted :
    (n : ℕ) (b : Bool) (x y : Pass) → Counted n x → Counted n y → Counted n (if b then x else y)
cond-Counted n true x y v w = v
cond-Counted n false x y v w = w

module _ {A : Type 0} (encrypt : ℕ → A → List ℕ → Option (List ℕ)) (clock : ℕ → ℤ)
    (sm : SessionManager A)
    (total : (seq : ℕ) (a : A) (bytes : List ℕ) → (c : List ℕ) × (encrypt seq a bytes ≡ some c))
    (clock_fits : (n : ℕ) → IsI64 (clock n)) where
  abbrev always : List ℕ → Written
  always bytes = sent

  emit-Counted :
      (n : ℕ) (w : Worker) (info : ℕ) (payload : List ℕ)
      → info < 2 ^ 16
      → Counts n w
      → Counted n
          (after_write sent (frame w.seq_num (clock w.seq_num) info payload) (next_number w))
  unfolding Counted
  emit-Counted n w info payload small v =
      let packet = frame w.seq_num (clock w.seq_num) info payload in
      record {
        next = omega (arith, v.next, length-append w.datagrams (packet ∷ []));
        numbered =
            append-Numbered n w.datagrams packet _ v.numbered
              (deserialize_header-frame w.seq_num (clock w.seq_num) info payload
                (omega (arith, v.next)) (clock_fits w.seq_num) small)
              v.next;
      }

  send_redundant-Counted :
      (n : ℕ) (packets : List (List ℕ)) (index : ℕ) (w : Worker)
      → Counts n w
      → Counted n (send_redundant encrypt clock always sm packets index w)
  unfolding send_redundant
  send_redundant-Counted n [] index w v = unfold Counted in v
  send_redundant-Counted n (block ∷ rest) index w v =
      and_then-Counted n _ _
        (emit-Counted n w (fec_info_of w.group_num index) block (fec_info_of-lt w.group_num index)
          v)
        (λ w' v'. send_redundant-Counted n rest (index + 1) w' v')

  redundant-Counted :
      (n : ℕ) (result : Result FecError (List (List ℕ))) (w : Worker)
      → Counts n w
      → Counted n (redundant encrypt clock always sm result w)
  redundant-Counted n (err e) w v = unfold Counted in v
  redundant-Counted n (ok packets) w v = send_redundant-Counted n packets sm.fec_k w v

  clear_group-Counts :
      (n : ℕ) (w : Worker) → Counts n w → Counts n (clear_group encrypt clock always sm w)
  clear_group-Counts n w v = record { next = v.next; numbered = v.numbered }

  join_group-Counted :
      (n : ℕ) (packet : List ℕ) (w : Worker)
      → Counts n w
      → Counted n (join_group encrypt clock always sm packet w)
  unfolding join_group Counted
  join_group-Counted n packet w v =
      let joined : Worker = record w { group_packets = w.group_packets ++ (packet ∷ []) } in
      let counts : Counts n joined = record { next = v.next; numbered = v.numbered } in
      cond-Counted n (fec_on encrypt clock always sm) _ _
        (cond-Counted n (length joined.group_packets == sm.fec_k) _ _
          (and_then-Counted n _ (λ w'. going (clear_group encrypt clock always sm w'))
            (redundant-Counted n _ joined counts) (clear_group-Counts n))
          counts)
        v

  send_payload-Counted :
      (n : ℕ) (payload : List ℕ) (w : Worker)
      → Counts n w
      → Counted n (send_payload encrypt clock always sm w.seq_num (next_number w) (some payload))
  send_payload-Counted n payload w v =
      let info =
        if fec_on encrypt clock always sm
        then data_info w.group_num (length w.group_packets)
        else 0 in
      let packet = frame w.seq_num (clock w.seq_num) info payload in
      and_then-Counted n _ (join_group encrypt clock always sm packet)
        (emit-Counted n w info payload
          (ground (arith, data_info-lt w.group_num (length w.group_packets))) v)
        (join_group-Counted n packet)

  protected :
      (on : Bool) (seq : ℕ) (aead : Option A) (bytes : List ℕ)
      → (c : List ℕ) × ((if on
            then encrypted encrypt clock always sm seq aead bytes
            else some bytes)
          ≡ some c)
  protected false seq aead bytes = (bytes, refl)
  protected true seq none bytes = (bytes, refl)
  protected true seq (some a) bytes = total seq a bytes

  send_packet-Counted :
      (n : ℕ) (s : Session A) (bytes : List ℕ) (w : Worker)
      → Counts n w
      → Counted n (send_packet encrypt clock always sm s bytes w)
  unfolding send_packet
  send_packet-Counted n s bytes w v =
      let (payload, e) = protected sm.encryption_enabled w.seq_num s.aead bytes in
      subst (λ o. Counted n (send_payload encrypt clock always sm w.seq_num (next_number w) o))
        (sym e) (send_payload-Counted n payload w v)

  send_packets-Counted :
      (n : ℕ) (s : Session A) (packets : List (List ℕ)) (w : Worker)
      → Counts n w
      → Counted n (send_packets encrypt clock always sm s packets w)
  unfolding send_packets
  send_packets-Counted n s [] w v = unfold Counted in v
  send_packets-Counted n s (bytes ∷ rest) w v =
      and_then-Counted n _ _ (send_packet-Counted n s bytes w v)
        (λ w' v'. send_packets-Counted n s rest w' v')

  -- Let every encryption and every write succeed and the clock give int64s. Whatever packets a
  -- worker takes from its queue, it does not end, and its datagrams, data and redundant ones
  -- together, each have a readable header and consecutive sequence numbers modulo 2^32, in the
  -- order in which they are sent.
  pub send_packets-start-Counted :
      (n : ℕ) (s : Session A) (packets : List (List ℕ))
      → Counted n (send_packets encrypt clock always sm s packets (start_worker (n % 2 ^ 32)))
  unfolding start_worker Numbered
  send_packets-start-Counted n s packets =
      send_packets-Counted n s packets _ (record { next = omega arith; numbered = tt })
