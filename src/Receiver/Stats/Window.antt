-- ===== src/Receiver/Stats/Window.antt =====
-- cmd/recv.go: the bits of the reception window under a shift and a write.
use multicast_bridge.Common.{
  ℕ, zero, suc, ◌-◌, ◌≤◌, ◌<◌, ◌≡◌, refl, if◌then◌else◌, ltb, ◌==◌, Bool, true, false, List, [],
  ◌∷◌, ◌++◌, length, take, replicate, get_or, set, arith, length-take, length-append,
  length-replicate,
}
use multicast_bridge.Receiver.Stats.{shift_window, only_newest}

bit-take :
    (n i : ℕ) (bs : List Bool)
    → get_or (take n bs) i false ≡ (if ltb i n then get_or bs i false else false)
bit-take zero i bs = ground arith
bit-take (suc n) i [] = ground arith
bit-take (suc n) zero (b ∷ bs) = ground arith
bit-take (suc n) (suc i) (b ∷ bs) = ground (arith, bit-take n i bs)

bit_behind :
    (d i : ℕ) (bs : List Bool)
    → get_or (replicate d false ++ bs) i false
      ≡ (if ltb i d then false else get_or bs (i - d) false)
bit_behind zero i bs = let e : i - 0 ≡ i = omega arith in rw e (ground arith)
bit_behind (suc d) zero bs = ground arith
bit_behind (suc d) (suc i) bs = ground (arith, bit_behind d i bs)

bit_shift :
    (n d i : ℕ) (w : List Bool)
    → i < n
    → get_or (take n (replicate d false ++ w)) i false
      ≡ (if ltb i d then false else get_or w (i - d) false)
bit_shift n d i w h = ground (arith, bit-take n i (replicate d false ++ w), bit_behind d i w)

pub bit-shift_window :
    (d i : ℕ) (w : List Bool)
    → i < 64
    → get_or (shift_window d w) i false ≡ (if ltb i d then false else get_or w (i - d) false)
bit-shift_window = bit_shift 64

pub bit-set :
    (w : List Bool) (j i : ℕ)
    → j < length w
    → get_or (set w j true) i false ≡ (if i == j then true else get_or w i false)
bit-set [] j i h = absurd (omega arith)
bit-set (b ∷ w) zero zero h = ground arith
bit-set (b ∷ w) zero (suc i) h = ground arith
bit-set (b ∷ w) (suc j) zero h = ground arith
bit-set (b ∷ w) (suc j) (suc i) h = ground (arith, bit-set w j i (omega arith))

pub length-shift_window : (d : ℕ) (w : List Bool) → length w ≡ 64 → length (shift_window d w) ≡ 64
length-shift_window d w e = omega (
  arith,
  length-take 64 (replicate d false ++ w),
  length-append (replicate d false) w,
  length-replicate d false,
)

bit_blank : (n i : ℕ) → get_or (replicate n false) i false ≡ false
bit_blank zero i = refl
bit_blank (suc n) zero = refl
bit_blank (suc n) (suc i) = bit_blank n i

bit_newest : (n i : ℕ) → 1 ≤ n → get_or (set (replicate n false) 0 true) i false ≡ (i == 0)
bit_newest zero i h = absurd (omega arith)
bit_newest (suc n) zero h = refl
bit_newest (suc n) (suc i) h = ground (arith, bit_blank n i)

pub bit-only_newest : (i : ℕ) → get_or only_newest i false ≡ (i == 0)
bit-only_newest i = bit_newest 64 i (omega arith)

pub length-only_newest : length only_newest ≡ 64
length-only_newest = refl
