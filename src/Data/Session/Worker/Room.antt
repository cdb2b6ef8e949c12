-- ===== src/Data/Session/Worker/Room.antt =====
-- internal/data/session.go: the group of `sessionWorker` is never full between two packets.
use multicast_bridge.Common.{
  ℕ, ◌-◌, ◌≤◌, ◌≡◌, refl, ◌==◌, if◌then◌else◌, Bool, true, false, List, [], ◌∷◌, ◌++◌, length,
  Option, none, some, arith, length-append,
}
use multicast_bridge.Common.Int.{ℤ}
use multicast_bridge.Data.Session.{Session, SessionManager}
use multicast_bridge.Data.Session.Worker.{
  Worker, Pass, going, ended, Written, no_socket, sent, failed, failed_done, next_number,
  send_packet, send_payload, join_group, clear_group, and_then, after_write, fec_on,
}
use multicast_bridge.Data.Session.Worker.Sizes.{on_sizes}

module _ {A : Type 0} (encrypt : ℕ → A → List ℕ → Option (List ℕ)) (clock : ℕ → ℤ)
    (write : List ℕ → Written) (sm : SessionManager A) where
  -- A worker that goes on has room in its group.
  abbrev pub IsSmall : Pass → Type 0
  IsSmall (going w) = length w.group_packets ≤ sm.fec_k - 1
  IsSmall (ended w) = Unit

  cond-IsSmall :
      (b : Bool) (x y : Pass)
      → (b ≡ true → IsSmall x)
      → (b ≡ false → IsSmall y)
      → IsSmall (if b then x else y)
  cond-IsSmall true x y p q = p refl
  cond-IsSmall false x y p q = q refl

  cleared-IsSmall :
      (p : Pass) → IsSmall (and_then p (λ w. going (clear_group encrypt clock write sm w)))
  cleared-IsSmall (going w) = omega arith
  cleared-IsSmall (ended w) = tt

  join_group-IsSmall :
      (bytes : List ℕ) (w : Worker)
      → length w.group_packets ≤ sm.fec_k - 1
      → IsSmall (join_group encrypt clock write sm bytes w)
  unfolding join_group
  join_group-IsSmall bytes w h =
      let count = length-append w.group_packets (bytes ∷ []) in
      cond-IsSmall (fec_on encrypt clock write sm) _ _
        (λ on.
          let sizes = on_sizes sm.fec_enabled sm.fec_k sm.fec_n on in
          cond-IsSmall (length (w.group_packets ++ (bytes ∷ [])) == sm.fec_k) _ _
            (λ full. cleared-IsSmall _) (λ part. ground (arith, h, count, sizes.0, part)))
        (λ off. h)

  written-IsSmall :
      (o : Written) (sized bytes : List ℕ) (w : Worker)
      → length w.group_packets ≤ sm.fec_k - 1
      → IsSmall (and_then (after_write o sized w) (join_group encrypt clock write sm bytes))
  written-IsSmall no_socket sized bytes w h = join_group-IsSmall bytes w h
  written-IsSmall sent sized bytes w h = join_group-IsSmall bytes _ h
  written-IsSmall failed sized bytes w h = join_group-IsSmall bytes w h
  written-IsSmall failed_done sized bytes w h = tt

  send_payload-IsSmall :
      (seq : ℕ) (w : Worker) (payload : Option (List ℕ))
      → length w.group_packets ≤ sm.fec_k - 1
      → IsSmall (send_payload encrypt clock write sm seq w payload)
  send_payload-IsSmall seq w none h = h
  send_payload-IsSmall seq w (some payload) h = written-IsSmall _ _ _ w h

  pub send_packet-IsSmall :
      (s : Session A) (bytes : List ℕ) (w : Worker)
      → length w.group_packets ≤ sm.fec_k - 1
      → IsSmall (send_packet encrypt clock write sm s bytes w)
  unfolding send_packet
  send_packet-IsSmall s bytes w h = send_payload-IsSmall w.seq_num (next_number w) _ h
