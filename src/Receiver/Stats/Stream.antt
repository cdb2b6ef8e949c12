-- ===== src/Receiver/Stats/Stream.antt =====
-- cmd/recv.go: whole runs of `StreamStats.Update`, against the contract in Spec.
use native.Mathlib.Decide.{ℕ_discrete, dec_lt}
use multicast_bridge.Common.{
  ℕ, ◌+◌, ◌-◌, ◌%◌, ◌^◌, ◌<◌, ◌≡◌, refl, sym, ap, ◌∙◌, ltb, ◌==◌, ◌&&◌, Bool, true, false, List, [],
  ◌∷◌, length, Option, none, some, arith, Bool-cases, inl, inr,
}
use multicast_bridge.Common.Int.{ℤ, pos}
use multicast_bridge.Receiver.Stats.{
  StreamStats, reset_stats, move, to_i32, latency_noted, place, only_newest, note_shift,
  note_latency, update, valid_latency, elapsed,
}
use multicast_bridge.Receiver.Stats.Diff.{
  move_ahead, move_half, move_behind, place_move, place_start,
}
use multicast_bridge.Receiver.Stats.Spec.{Stream, start, arrive, lost, missing}
use multicast_bridge.Receiver.Stats.Window.{bit-only_newest, length-only_newest}
use multicast_bridge.Receiver.Stats.Refinement.{Follows, InReach, place-Follows}

-- A packet of the stream: its number, its time stamp, and the clock when it comes.
pub record Arrival : Type 0 where
  pub number : ℕ
  pub stamp : ℤ
  pub clock : ℕ

-- The packets of a stream, one after the other; the wire carries the low 32 bits of the number.
abbrev updated : Arrival → Option StreamStats → Option StreamStats
updated p none = none
updated p (some s) = update s (p.number % 2 ^ 32) p.stamp p.clock

unfoldable pub update_all : List Arrival → Option StreamStats → Option StreamStats
update_all [] o = o
update_all (p ∷ ps) o = update_all ps (updated p o)

-- The contract's view of the same packets.
unfoldable pub arrive_all : List Arrival → Stream → Stream
arrive_all [] a = a
arrive_all (p ∷ ps) a = arrive_all ps (arrive a p.number)

-- Each packet comes in reach of those before it.
unfoldable pub AllInReach : List Arrival → Stream → Type 0
AllInReach [] a = Unit
AllInReach (p ∷ ps) a = InReach a p.number × AllInReach ps (arrive a p.number)

-- The clock warning, the total and the latencies leave the loss figures alone.
pub record Alike (s s' : StreamStats) : Type 0 where
  pub started : s'.has_last_seq ≡ s.has_last_seq
  pub latest : s'.last_seq ≡ s.last_seq
  pub window : s'.window ≡ s.window
  pub losses : s'.lost_packets ≡ s.lost_packets

Alike-Follows : (s s' : StreamStats) (a : Stream) → Alike s s' → Follows s a → Follows s' a
Alike-Follows s s' a e v = record {
  started = e.started ∙ v.started;
  latest = e.latest ∙ v.latest;
  ordered = v.ordered;
  width = ap length e.window ∙ v.width;
  bits = λ i h. rw e.window (v.bits i h);
  beyond = v.beyond;
  losses = e.losses ∙ v.losses;
  small = v.small;
}

note_shift-Alike :
    (s : StreamStats) (now : ℕ) (latency : Option ℕ) → Alike s (note_shift s now latency)
note_shift-Alike s now (some l) = record {
  started = refl;
  latest = refl;
  window = refl;
  losses = refl;
}
note_shift-Alike s now none = elim (Bool-cases (ltb 10_000_000_000 (now - s.last_shift_warn))) [
  | inl e ↦ rw e (record { started = refl; latest = refl; window = refl; losses = refl })
  | inr e ↦ rw e (record { started = refl; latest = refl; window = refl; losses = refl })
]

note_latency-Alike : (latency : Option ℕ) (s : StreamStats) → Alike s (note_latency latency s)
unfolding note_latency
note_latency-Alike none s = record { started = refl; latest = refl; window = refl; losses = refl }
note_latency-Alike (some l) s = record {
  started = refl;
  latest = refl;
  window = refl;
  losses = refl;
}

-- The state `place` is applied to in `update`.
abbrev counted : StreamStats → ℕ → ℤ → StreamStats
counted s now stamp =
    let warned = note_shift s now (valid_latency (elapsed (pos now) stamp)) in
    record warned { total_packets = (warned.total_packets + 1) % 2 ^ 64 }

counted-Alike : (s : StreamStats) (now : ℕ) (stamp : ℤ) → Alike s (counted s now stamp)
counted-Alike s now stamp =
    let e = note_shift-Alike s now (valid_latency (elapsed (pos now) stamp)) in
    record { started = e.started; latest = e.latest; window = e.window; losses = e.losses }

update_returns :
    (s s' : StreamStats) (seq : ℕ) (stamp : ℤ) (now : ℕ)
    → place (counted s now stamp) seq ≡ some s'
    → update s seq stamp now ≡ some (note_latency (valid_latency (elapsed (pos now) stamp)) s')
unfolding update
update_returns s s' seq stamp now e = rw e

pub update-Follows :
    (s : StreamStats) (a : Stream) (t : ℕ) (stamp : ℤ) (now : ℕ)
    → Follows s a
    → InReach a t
    → (s' : StreamStats) × (update s (t % 2 ^ 32) stamp now ≡ some s') × Follows s' (arrive a t)
update-Follows s a t stamp now v r =
    let before = Alike-Follows s (counted s now stamp) a (counted-Alike s now stamp) v in
    let placed = place-Follows (counted s now stamp) a t before r in
    (
      _,
      update_returns s placed.0 (t % 2 ^ 32) stamp now placed.1,
      Alike-Follows placed.0 _ (arrive a t) (note_latency-Alike _ placed.0) placed.2,
    )

pub update_all-Follows :
    (ps : List Arrival) (s : StreamStats) (a : Stream)
    → Follows s a
    → AllInReach ps a
    → (s' : StreamStats) × (update_all ps (some s) ≡ some s') × Follows s' (arrive_all ps a)
unfolding update_all arrive_all AllInReach
update_all-Follows [] s a v r = (s, refl, v)
update_all-Follows (p ∷ ps) s a v r =
    let one = update-Follows s a p.number p.stamp p.clock v r.0 in
    let rest = update_all-Follows ps one.0 (arrive a p.number) one.2 r.1 in
    (rest.0, ap (update_all ps) one.1 ∙ rest.1, rest.2)

module _ (t : ℕ) (small : t < 2 ^ 63) where
  missing_none : missing (start t).seen t (t + 1 - t) ≡ 0
  unfolding start missing
  missing_none = let one : t + 1 - t ≡ 1 = omega arith in rw one (ground arith)

  first-Follows :
      (s : StreamStats)
      → s.lost_packets ≡ 0
      → Follows
          (record s { has_last_seq = true; last_seq = t % 2 ^ 32; window = only_newest })
          (start t)
  unfolding start lost
  first-Follows s zero_loss = record {
    started = refl;
    latest = refl;
    ordered = omega arith;
    width = length-only_newest;
    bits = λ i h. bit-only_newest i ∙ ground arith;
    beyond = λ j h. ground arith;
    losses = zero_loss ∙ sym missing_none;
    small = small;
  }

  place_first :
      (s : StreamStats)
      → s.has_last_seq ≡ false
      → place s (t % 2 ^ 32)
        ≡ some (record s { has_last_seq = true; last_seq = t % 2 ^ 32; window = only_newest })
  place_first s e = place_start s (t % 2 ^ 32) e

  update_first :
      (s : StreamStats) (stamp : ℤ) (now : ℕ)
      → s.has_last_seq ≡ false
      → s.lost_packets ≡ 0
      → (s' : StreamStats) × (update s (t % 2 ^ 32) stamp now ≡ some s') × Follows s' (start t)
  update_first s stamp now e zero_loss =
      let before = counted-Alike s now stamp in
      (
        _,
        update_returns s _ (t % 2 ^ 32) stamp now
            (place_first (counted s now stamp) (before.started ∙ e)),
        Alike-Follows _ _ (start t) (note_latency-Alike _ _)
            (first-Follows (counted s now stamp) (before.losses ∙ zero_loss)),
      )

-- For packet numbers below 2^63, after a reset, if each packet after the first comes in reach of those before it (not before the
-- first, less than 64 numbers behind the latest, less than 2^31 ahead of it), with duplicates and
-- any reordering, no `Update` panics and at the end `lostPackets` is the number of packets between
-- the first and the latest that have not come.
pub update_all-lost :
    (p : Arrival) (ps : List Arrival)
    → p.number < 2 ^ 63
    → AllInReach ps (start p.number)
    → (s : StreamStats) × (update_all (p ∷ ps) (some reset_stats) ≡ some s)
      × (s.lost_packets ≡ lost (arrive_all ps (start p.number)))
unfolding update_all reset_stats
update_all-lost p ps small r =
    let one = update_first p.number small reset_stats p.stamp p.clock refl refl in
    let rest = update_all-Follows ps one.0 (start p.number) one.2 r in
    (rest.0, ap (update_all ps) one.1 ∙ rest.1, rest.2.losses)

-- Whether a run-time panic has ended the call.
abbrev pub panics : {A : Type 0} → Option A → Bool
panics none = true
panics (some a) = false

move-panics :
    (s : StreamStats) (seq d : ℕ) → d < 2 ^ 32 → panics (move s seq (to_i32 d)) ≡ (d == 2 ^ 31)
move-panics s seq d below = elim (dec_lt d (2 ^ 31)) [
  | yes ahead ↦ elim (ℕ_discrete d 0) [
    | yes e ↦ rw e refl
    | no more ↦ rw (move_ahead s seq d (omega (arith, more)) ahead) (ground (arith, ahead))
  ]
  | no behind ↦ elim (ℕ_discrete d (2 ^ 31)) [
    | yes e ↦ rw (move_half s seq d e) (ground (arith, e))
    | no other ↦
        rw (move_behind s seq d (omega (arith, behind, other)) below) (ground (arith, other))
  ]
]

-- Whether the packet is 2^31 numbers from the latest, forwards and backwards.
abbrev pub is_opposite : StreamStats → ℕ → Bool
is_opposite s seq = s.has_last_seq && (seq + 2 ^ 32 - s.last_seq) % 2 ^ 32 == 2 ^ 31

place-panics : (s : StreamStats) (seq : ℕ) → panics (place s seq) ≡ is_opposite s seq
place-panics s seq =
    let d = (seq + 2 ^ 32 - s.last_seq) % 2 ^ 32 in
    elim (Bool-cases s.has_last_seq) [
      | inl e ↦
          ap panics (place_move s seq d e refl)
          ∙ move-panics s seq d (omega arith)
          ∙ sym (ap (λ b. b && d == 2 ^ 31) e)
      | inr e ↦ ap panics (place_start s seq e) ∙ sym (ap (λ b. b && d == 2 ^ 31) e)
    ]

latency_noted-panics :
    (latency : Option ℕ) (o : Option StreamStats) → panics (latency_noted latency o) ≡ panics o
latency_noted-panics latency none = refl
latency_noted-panics latency (some s) = refl

-- In every state and for every packet, `Update` ends in a run-time panic exactly if it has seen a packet
-- before and the sequence number is 2^31 away from the latest, modulo 2^32.
pub update-panics :
    (s : StreamStats) (seq : ℕ) (stamp : ℤ) (now : ℕ)
    → panics (update s seq stamp now) ≡ is_opposite s seq
unfolding update
update-panics s seq stamp now =
    let e = counted-Alike s now stamp in
    latency_noted-panics _ (place (counted s now stamp) seq)
    ∙ place-panics (counted s now stamp) seq
    ∙ ap (λ b. b && (seq + 2 ^ 32 - (counted s now stamp).last_seq) % 2 ^ 32 == 2 ^ 31) e.started
    ∙ ap (λ l. s.has_last_seq && (seq + 2 ^ 32 - l) % 2 ^ 32 == 2 ^ 31) e.latest
