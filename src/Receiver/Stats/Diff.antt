-- ===== src/Receiver/Stats/Diff.antt =====
-- cmd/recv.go: `StreamStats.Update`, the signed difference of two sequence numbers.
use multicast_bridge.Common.{
  ℕ, zero, suc, ◌+◌, ◌-◌, ◌%◌, ◌^◌, ◌≤◌, ◌<◌, ◌≡◌, refl, ap, ◌∙◌, if◌then◌else◌, ltb, true, false,
  not, none, some, arith,
}
use multicast_bridge.Common.Int.{pos, negsuc}
use multicast_bridge.Receiver.Stats.{
  StreamStats, fall_back, advance, to_i32, neg_i32, late_by, move, place, only_newest,
}

neg_i32_zero : neg_i32 (pos 0) ≡ pos 0
neg_i32_zero = ground arith

neg_i32_negsuc :
    (d : ℕ) → 2 ^ 31 < d → d < 2 ^ 32 → neg_i32 (negsuc (2 ^ 32 - 1 - d)) ≡ pos (2 ^ 32 - d)
neg_i32_negsuc d h below =
    let pattern : (2 ^ 32 - (2 ^ 32 - 1 - (2 ^ 32 - 1 - d) % 2 ^ 32)) % 2 ^ 32 ≡ 2 ^ 32 - d =
      omega arith in
    rw pattern (ground arith)

-- The least int32 is its own negation.
neg_i32_least : neg_i32 (negsuc (2 ^ 31 - 1)) ≡ negsuc (2 ^ 31 - 1)
neg_i32_least = ground arith

pub move_same : (s : StreamStats) (seq : ℕ) → move s seq (to_i32 0) ≡ some (fall_back s 0)
move_same s seq = refl

pub move_ahead :
    (s : StreamStats) (seq d : ℕ)
    → 1 ≤ d
    → d < 2 ^ 31
    → move s seq (to_i32 d) ≡ some (advance s seq d)
move_ahead s seq zero h below = absurd (omega (arith, h))
move_ahead s seq (suc d) h below =
    let small : ltb (suc d) (2 ^ 31) ≡ true = ground arith in rw small refl

pub move_half : (s : StreamStats) (seq d : ℕ) → d ≡ 2 ^ 31 → move s seq (to_i32 d) ≡ none
move_half s seq d e = rw e refl

pub move_behind :
    (s : StreamStats) (seq d : ℕ)
    → 2 ^ 31 < d
    → d < 2 ^ 32
    → move s seq (to_i32 d) ≡ some (fall_back s (2 ^ 32 - d))
move_behind s seq d h below =
    let great : ltb d (2 ^ 31) ≡ false = ground arith in
    rw great (ap (late_by s) (neg_i32_negsuc d h below))

-- After the first packet, the difference decides.
pub place_move :
    (s : StreamStats) (seq d : ℕ)
    → s.has_last_seq ≡ true
    → (seq + 2 ^ 32 - s.last_seq) % 2 ^ 32 ≡ d
    → place s seq ≡ move s seq (to_i32 d)
unfolding place
place_move s seq d e gap =
    ap
      (λ b.
        if not b
        then some (record s { has_last_seq = true; last_seq = seq; window = only_newest })
        else move s seq (to_i32 ((seq + 2 ^ 32 - s.last_seq) % 2 ^ 32)))
      e
    ∙ ap (λ x. move s seq (to_i32 x)) gap

-- The first packet is only noted.
pub place_start :
    (s : StreamStats) (seq : ℕ)
    → s.has_last_seq ≡ false
    → place s seq ≡ some (record s { has_last_seq = true; last_seq = seq; window = only_newest })
unfolding place
place_start s seq e = rw e
