-- ===== src/Receiver/Stats/Spec.antt =====
-- The contract of `StreamStats`: over the unbounded numbers of a stream's packets, which the wire
-- gives modulo 2 ^ 32, the loss is the number of those between the first and the latest that have
-- not come.
use native.Mathlib.Nat.{add-zero, add-suc}
use native.Mathlib.Decide.{ℕ_discrete}
use multicast_bridge.Common.{
  ℕ, zero, suc, ◌+◌, ◌-◌, ◌≤◌, ◌<◌, ◌≡◌, refl, ap, if◌then◌else◌, ltb, ◌==◌, Bool, true, false,
  arith,
}

-- The first number, the greatest so far, and which have come.
pub record Stream : Type 0 where
  pub first : ℕ
  pub top : ℕ
  pub seen : ℕ → Bool

abbrev pub mark : (ℕ → Bool) → ℕ → ℕ → Bool
mark seen t j = if j == t then true else seen j

unfoldable pub start : ℕ → Stream
start t = record { first = t; top = t; seen = λ j. j == t }

unfoldable pub arrive : Stream → ℕ → Stream
arrive a t = record a { top = if ltb a.top t then t else a.top; seen = mark a.seen t }

-- How many of the `n` numbers from `from` on have not come.
unfoldable pub missing : (ℕ → Bool) → ℕ → ℕ → ℕ
missing seen from zero = 0
missing seen from (suc n) = missing seen from n + (if seen (from + n) then 0 else 1)

unfoldable pub lost : Stream → ℕ
lost a = missing a.seen a.first (a.top + 1 - a.first)

pub missing-le : (seen : ℕ → Bool) (from n : ℕ) → missing seen from n ≤ n
unfolding missing
missing-le seen from zero = omega arith
missing-le seen from (suc n) = ground (arith, missing-le seen from n)

-- A mark outside the range changes nothing.
pub missing-mark_outside :
    (seen : ℕ → Bool) (t from n : ℕ)
    → from + n ≤ t
    → missing (mark seen t) from n ≡ missing seen from n
unfolding missing
missing-mark_outside seen t from zero h = refl
missing-mark_outside seen t from (suc n) h =
    ground (arith, missing-mark_outside seen t from n (omega arith))

-- A new mark inside it takes one away.
pub missing-mark_new :
    (seen : ℕ → Bool) (t from n : ℕ)
    → from ≤ t
    → t < from + n
    → seen t ≡ false
    → missing (mark seen t) from n + 1 ≡ missing seen from n
unfolding missing
missing-mark_new seen t from zero h k e = absurd (omega arith)
missing-mark_new seen t from (suc n) h k e = elim (ℕ_discrete (from + n) t) [
  | yes q ↦ ground (arith, ap seen q, missing-mark_outside seen t from n (omega arith))
  | no q ↦ ground (arith, missing-mark_new seen t from n h (omega arith) e)
]

pub missing-mark_old :
    (seen : ℕ → Bool) (t from n : ℕ)
    → seen t ≡ true
    → missing (mark seen t) from n ≡ missing seen from n
unfolding missing
missing-mark_old seen t from zero e = refl
missing-mark_old seen t from (suc n) e = elim (ℕ_discrete (from + n) t) [
  | yes q ↦ ground (arith, ap seen q, missing-mark_old seen t from n e)
  | no q ↦ ground (arith, missing-mark_old seen t from n e)
]

-- Numbers beyond the greatest that came are all missing.
pub missing_beyond :
    (seen : ℕ → Bool) (from n k : ℕ)
    → ((j : ℕ) → from + n ≤ j → seen j ≡ false)
    → missing seen from (n + k) ≡ missing seen from n + k
unfolding missing
missing_beyond seen from n zero h = rw (add-zero n, add-zero (missing seen from n))
missing_beyond seen from n (suc k) h =
    rw (add-suc n k)
      (ground (arith, missing_beyond seen from n k h, h (from + (n + k)) (omega arith)))

-- A number beyond the greatest so far: those skipped are missing.
pub lost-arrive_ahead :
    (a : Stream) (t : ℕ)
    → a.first ≤ a.top
    → a.top < t
    → ((j : ℕ) → a.top < j → a.seen j ≡ false)
    → lost (arrive a t) ≡ lost a + (t - a.top - 1)
unfolding lost arrive
lost-arrive_ahead a t h newer beyond =
    rw (top_then, range)
      (unfold missing in
        ground (
          arith,
          missing-mark_outside a.seen t a.first (t - a.first) (omega arith),
          ap (missing a.seen a.first) split,
          missing_beyond a.seen a.first (a.top + 1 - a.first) (t - a.top - 1)
              (λ j k. beyond j (omega arith)),
        ))
  where
    top_then : (if ltb a.top t then t else a.top) ≡ t
    top_then = ground arith

    range : t + 1 - a.first ≡ suc (t - a.first)
    range = omega arith

    split : t - a.first ≡ a.top + 1 - a.first + (t - a.top - 1)
    split = omega arith

-- A number that was missing.
pub lost-arrive_new :
    (a : Stream) (t : ℕ)
    → a.first ≤ t
    → t ≤ a.top
    → a.seen t ≡ false
    → lost (arrive a t) + 1 ≡ lost a
unfolding lost arrive
lost-arrive_new a t h k e =
    ground (arith, missing-mark_new a.seen t a.first (a.top + 1 - a.first) h (omega arith) e)

-- A number that had come already.
pub lost-arrive_again :
    (a : Stream) (t : ℕ) → t ≤ a.top → a.seen t ≡ true → lost (arrive a t) ≡ lost a
unfolding lost arrive
lost-arrive_again a t k e =
    ground (arith, missing-mark_old a.seen t a.first (a.top + 1 - a.first) e)

pub lost-le : (a : Stream) → lost a ≤ a.top + 1 - a.first
unfolding lost
lost-le a = missing-le a.seen a.first (a.top + 1 - a.first)

pub arrive_ahead :
    (a : Stream) (t : ℕ) → a.top < t → arrive a t ≡ record a { top = t; seen = mark a.seen t }
unfolding arrive
arrive_ahead a t h = rw test
  where
    test : ltb a.top t ≡ true
    test = ground arith

pub arrive_behind :
    (a : Stream) (t : ℕ) → t ≤ a.top → arrive a t ≡ record a { seen = mark a.seen t }
unfolding arrive
arrive_behind a t h = rw test
  where
    test : ltb a.top t ≡ false
    test = ground arith

pub mark_again : (seen : ℕ → Bool) (t j : ℕ) → seen t ≡ true → mark seen t j ≡ seen j
mark_again seen t j e = elim (ℕ_discrete j t) [
  | yes q ↦ ground (arith, ap seen q)
  | no q ↦ ground arith
]
