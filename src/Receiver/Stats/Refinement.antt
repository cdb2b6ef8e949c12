-- ===== src/Receiver/Stats/Refinement.antt =====
-- cmd/recv.go: `StreamStats.Update` against the contract in Spec.
use native.Mathlib.Decide.{dec_lt, ℕ_discrete}
use mathlib.Core.Path.{subst}
use multicast_bridge.Common.{
  ℕ, ◌+◌, ◌-◌, ◌%◌, ◌^◌, ◌≤◌, ◌<◌, ◌≡◌, refl, sym, ap, ◌∙◌, inl, inr, if◌then◌else◌, ltb, ◌==◌,
  true, false, length, get_or, set, some, arith, length-set, Bool-cases,
}
use multicast_bridge.Receiver.Stats.{
  StreamStats, advance, fall_back, place, shift_window, only_newest,
}
use multicast_bridge.Receiver.Stats.Diff.{move_same, move_ahead, move_behind, place_move}
use multicast_bridge.Receiver.Stats.Spec.{
  Stream, arrive, mark, lost, lost-le, lost-arrive_ahead, lost-arrive_new, lost-arrive_again,
  arrive_ahead, arrive_behind, mark_again,
}
use multicast_bridge.Receiver.Stats.Window.{
  bit-shift_window, bit-set, length-shift_window, bit-only_newest,
}

-- What the figures say of the stream. Bit i of the window is set exactly if the packet i numbers
-- before the latest has come.
pub record Follows (s : StreamStats) (a : Stream) : Type 0 where
  pub started : s.has_last_seq ≡ true
  pub latest : s.last_seq ≡ a.top % 2 ^ 32
  pub ordered : a.first ≤ a.top
  pub width : length s.window ≡ 64
  pub bits :
      (i : ℕ)
      → i < 64
      → get_or s.window i false ≡ (if ltb a.top i then false else a.seen (a.top - i))
  pub beyond : (j : ℕ) → a.top < j → a.seen j ≡ false
  pub losses : s.lost_packets ≡ lost a
  pub small : a.top < 2 ^ 63

-- A packet that is not before the first, less than 64 behind the latest and less than 2 ^ 31 ahead.
pub record InReach (a : Stream) (t : ℕ) : Type 0 where
  pub not_before : a.first ≤ t
  pub not_late : a.top < t + 64
  pub not_ahead : t < a.top + 2 ^ 31
  pub small : t < 2 ^ 63

module _ (s : StreamStats) (a : Stream) (t : ℕ) (v : Follows s a) (r : InReach a t) where
  module _ (newer : a.top < t) where
    -- The new contract at bit i, by the distance of the packet.
    seen_zero : (i : ℕ) → i ≡ 0 → (if ltb t i then false else mark a.seen t (t - i)) ≡ true
    seen_zero i e = ground arith

    seen_low :
        (i : ℕ) → 1 ≤ i → i < t - a.top → (if ltb t i then false else mark a.seen t (t - i)) ≡ false
    seen_low i h k = ground (arith, v.beyond (t - i))

    seen_high :
        (i : ℕ)
        → 1 ≤ i
        → t - a.top ≤ i
        → (if ltb t i then false else mark a.seen t (t - i))
          ≡ (if ltb a.top (i - (t - a.top)) then false else a.seen (a.top - (i - (t - a.top))))
    seen_high i h k = elim (dec_lt t i) [
      | yes p ↦ ground arith
      | no p ↦
          let same : t - i ≡ a.top - (i - (t - a.top)) = omega arith in
          ground (arith, ap a.seen same)
    ]

    advance_near :
        (i : ℕ)
        → i < 64
        → get_or (set (shift_window (t - a.top) s.window) 0 true) i false
          ≡ (if ltb t i then false else mark a.seen t (t - i))
    advance_near i h =
        bit-set (shift_window (t - a.top) s.window) 0 i
          (omega (arith, length-shift_window (t - a.top) s.window v.width))
        ∙ rest
      where
        rest :
            (if i == 0 then true else get_or (shift_window (t - a.top) s.window) i false)
            ≡ (if ltb t i then false else mark a.seen t (t - i))
        rest = elim (ℕ_discrete i 0) [
          | yes z ↦ ground (arith, seen_zero i)
          | no z ↦ elim (dec_lt i (t - a.top)) [
            | yes p ↦ ground (arith, bit-shift_window (t - a.top) i s.window h, seen_low i)
            | no p ↦ rw (seen_high i (omega arith) (omega arith)) (
                rw (← v.bits (i - (t - a.top)) (omega arith))
                  (ground (arith, bit-shift_window (t - a.top) i s.window h)))
          ]
        ]

    advance_far :
        (i : ℕ)
        → i < 64
        → 64 ≤ t - a.top
        → get_or only_newest i false ≡ (if ltb t i then false else mark a.seen t (t - i))
    advance_far i h far = bit-only_newest i ∙ elim (ℕ_discrete i 0) [
      | yes z ↦ ground (arith, seen_zero i)
      | no z ↦ ground (arith, seen_low i)
    ]

    advance-bits :
        (i : ℕ)
        → i < 64
        → get_or (advance s (t % 2 ^ 32) (t - a.top)).window i false
          ≡ (if ltb t i then false else mark a.seen t (t - i))
    unfolding advance
    advance-bits i h = elim (Bool-cases (ltb (t - a.top) 64)) [
      | inl e ↦ rw e (advance_near i h)
      | inr e ↦ rw e (advance_far i h (ground arith))
    ]

    advance-lost : (advance s (t % 2 ^ 32) (t - a.top)).lost_packets ≡ lost (arrive a t)
    unfolding advance
    advance-lost = omega (
      arith,
      v.losses,
      lost-arrive_ahead a t v.ordered newer v.beyond,
      lost-le a,
      r.small,
      r.not_before,
    )

    advance-width : length (advance s (t % 2 ^ 32) (t - a.top)).window ≡ 64
    unfolding advance
    advance-width = elim (Bool-cases (ltb (t - a.top) 64)) [
      | inl e ↦ rw e (
          length-set (shift_window (t - a.top) s.window) 0 true
          ∙ length-shift_window (t - a.top) s.window v.width)
      | inr e ↦ rw e
    ]

    advance-started : (advance s (t % 2 ^ 32) (t - a.top)).has_last_seq ≡ true
    unfolding advance
    advance-started = v.started

    advance-latest : (advance s (t % 2 ^ 32) (t - a.top)).last_seq ≡ t % 2 ^ 32
    unfolding advance
    advance-latest = refl

    pub advance-Follows : Follows (advance s (t % 2 ^ 32) (t - a.top)) (arrive a t)
    advance-Follows =
        subst (Follows (advance s (t % 2 ^ 32) (t - a.top))) (sym (arrive_ahead a t newer))
          (record {
            started = advance-started;
            latest = advance-latest;
            ordered = r.not_before;
            width = advance-width;
            bits = advance-bits;
            beyond = λ j h. ground (arith, v.beyond j (omega arith));
            losses = advance-lost ∙ ap lost (arrive_ahead a t newer);
            small = r.small;
          })

    pub place_ahead : place s (t % 2 ^ 32) ≡ some (advance s (t % 2 ^ 32) (t - a.top))
    place_ahead =
        let gap : (t % 2 ^ 32 + 2 ^ 32 - s.last_seq) % 2 ^ 32 ≡ t - a.top =
          omega (arith, v.latest, r.not_ahead) in
        place_move s (t % 2 ^ 32) (t - a.top) v.started gap
        ∙ move_ahead s (t % 2 ^ 32) (t - a.top) (omega arith) (omega (arith, r.not_ahead))

  module _ (older : t ≤ a.top) where
    offset_lem : a.top - (a.top - t) ≡ t
    offset_lem = omega arith

    bit_there : get_or s.window (a.top - t) false ≡ a.seen t
    bit_there =
        v.bits (a.top - t) (omega (arith, r.not_late)) ∙ ground (arith, ap a.seen offset_lem)

    again-Follows : a.seen t ≡ true → Follows s (arrive a t)
    again-Follows e = subst (Follows s) (sym (arrive_behind a t older)) (record {
      started = v.started;
      latest = v.latest;
      ordered = v.ordered;
      width = v.width;
      bits = λ i h. rw (mark_again a.seen t (a.top - i) e) (v.bits i h);
      beyond = λ j h. rw (mark_again a.seen t j e) (v.beyond j h);
      losses = v.losses ∙ sym (lost-arrive_again a t older e) ∙ ap lost (arrive_behind a t older);
      small = v.small;
    })

    late_bits :
        (i : ℕ)
        → i < 64
        → get_or (set s.window (a.top - t) true) i false
          ≡ (if ltb a.top i then false else mark a.seen t (a.top - i))
    late_bits i h =
        bit-set s.window (a.top - t) i (omega (arith, v.width, r.not_late))
        ∙ ground (arith, v.bits i h)

    late-Follows :
        a.seen t ≡ false
        → Follows
            (record s { window = set s.window (a.top - t) true; lost_packets = s.lost_packets - 1 })
            (arrive a t)
    late-Follows e = subst (Follows _) (sym (arrive_behind a t older)) (record {
      started = v.started;
      latest = v.latest;
      ordered = v.ordered;
      width = length-set s.window (a.top - t) true ∙ v.width;
      bits = late_bits;
      beyond = λ j h. ground (arith, v.beyond j h);
      losses =
          omega (arith, v.losses, lost-arrive_new a t r.not_before older e)
          ∙ ap lost (arrive_behind a t older);
      small = v.small;
    })

    fall_back_again : a.seen t ≡ true → fall_back s (a.top - t) ≡ s
    unfolding fall_back
    fall_back_again e = ground (arith, bit_there)

    fall_back_new :
        a.seen t ≡ false
        → fall_back s (a.top - t)
          ≡ record s { window = set s.window (a.top - t) true; lost_packets = s.lost_packets - 1 }
    unfolding fall_back
    fall_back_new e = ground (arith, bit_there, r.not_late)

    pub fall_back-Follows : Follows (fall_back s (a.top - t)) (arrive a t)
    fall_back-Follows = elim (Bool-cases (a.seen t)) [
      | inl e ↦ rw (fall_back_again e) (again-Follows e)
      | inr e ↦ rw (fall_back_new e) (late-Follows e)
    ]

    pub place_behind : place s (t % 2 ^ 32) ≡ some (fall_back s (a.top - t))
    place_behind = elim (ℕ_discrete t a.top) [
      | yes e ↦
          let zero_gap : a.top - t ≡ 0 = omega arith in
          let gap : (t % 2 ^ 32 + 2 ^ 32 - s.last_seq) % 2 ^ 32 ≡ 0 = omega (arith, v.latest) in
          rw zero_gap (place_move s (t % 2 ^ 32) 0 v.started gap ∙ move_same s (t % 2 ^ 32))
      | no e ↦
          let gap : (t % 2 ^ 32 + 2 ^ 32 - s.last_seq) % 2 ^ 32 ≡ 2 ^ 32 - (a.top - t) =
            omega (arith, v.latest, r.not_late) in
          let back : 2 ^ 32 - (2 ^ 32 - (a.top - t)) ≡ a.top - t = omega (arith, r.not_late) in
          place_move s (t % 2 ^ 32) (2 ^ 32 - (a.top - t)) v.started gap
          ∙ move_behind s (t % 2 ^ 32) (2 ^ 32 - (a.top - t)) (omega (arith, r.not_late))
              (omega arith)
          ∙ ap (λ o. some (fall_back s o)) back
    ]

  -- Where the packet is put, by its distance to the latest.
  pub place-Follows :
      (s' : StreamStats) × (place s (t % 2 ^ 32) ≡ some s') × Follows s' (arrive a t)
  place-Follows = elim (dec_lt a.top t) [
    | yes h ↦ (_, place_ahead h, advance-Follows h)
    | no h ↦ (_, place_behind (omega arith), fall_back-Follows (omega arith))
  ]
