-- ===== src/Fec/Manager/Slots.antt =====
-- The reception and release flags of a group: lemmas on the loops over them.
use mathlib.Core.List.{Perm}
use mathlib.Core.List.Perm
use multicast_bridge.Common.{
  ℕ, zero, suc, ◌+◌, ◌≤◌, ◌<◌, ◌≡◌, refl, ap, ◌≢◌, Bool, true, false, List, [], ◌∷◌, length, take,
  drop, replicate, get_or, get_elem?, set, some, arith,
}
use multicast_bridge.Fec.Manager.Group.{all_sent, lost_count, collect_unsent, mark_sent}

-- How many flags are set.
abbrev pub count_true : List Bool → ℕ
count_true [] = 0
count_true (true ∷ bs) = suc (count_true bs)
count_true (false ∷ bs) = count_true bs

pub count_true-set :
    (bs : List Bool) (i : ℕ)
    → i < length bs
    → get_or bs i false ≡ false
    → count_true (set bs i true) ≡ suc (count_true bs)
count_true-set [] i h e = elim h [ ]
count_true-set (true ∷ bs) zero h e = cc
count_true-set (false ∷ bs) zero h e = refl
count_true-set (true ∷ bs) (suc i) h e = ap suc (count_true-set bs i (omega arith) e)
count_true-set (false ∷ bs) (suc i) h e = count_true-set bs i (omega arith) e

pub count_true-take-drop :
    (k : ℕ) (bs : List Bool) → count_true (take k bs) + count_true (drop k bs) ≡ count_true bs
count_true-take-drop zero bs = omega arith
count_true-take-drop (suc k) [] = omega arith
count_true-take-drop (suc k) (true ∷ bs) = omega (arith, count_true-take-drop k bs)
count_true-take-drop (suc k) (false ∷ bs) = count_true-take-drop k bs

pub count_true-replicate : (n : ℕ) → count_true (replicate n false) ≡ 0
count_true-replicate zero = refl
count_true-replicate (suc n) = count_true-replicate n

pub all_sent_of_count : (bs : List Bool) → length bs ≤ count_true bs → all_sent bs ≡ true
unfolding all_sent
all_sent_of_count [] h = refl
all_sent_of_count (true ∷ bs) h = all_sent_of_count bs (omega arith)
all_sent_of_count (false ∷ bs) h = absurd (omega (arith, count_true-le bs))
  where
    count_true-le : (cs : List Bool) → count_true cs ≤ length cs
    count_true-le [] = omega arith
    count_true-le (true ∷ cs) = omega (arith, count_true-le cs)
    count_true-le (false ∷ cs) = omega (arith, count_true-le cs)

pub all_sent-count : (bs : List Bool) → all_sent bs ≡ true → count_true bs ≡ length bs
unfolding all_sent
all_sent-count [] h = refl
all_sent-count (true ∷ bs) h = ap suc (all_sent-count bs h)
all_sent-count (false ∷ bs) h = cc

pub all_sent-mark_sent : (bs : List Bool) → all_sent (mark_sent bs) ≡ true
unfolding all_sent mark_sent
all_sent-mark_sent [] = refl
all_sent-mark_sent (b ∷ bs) = all_sent-mark_sent bs

pub lost_count-count_true : (bs : List Bool) → lost_count bs + count_true bs ≡ length bs
unfolding lost_count
lost_count-count_true [] = omega arith
lost_count-count_true (true ∷ bs) = omega (arith, lost_count-count_true bs)
lost_count-count_true (false ∷ bs) = omega (arith, lost_count-count_true bs)

module _ {ℓ} {A : Type ℓ} where
  pub take-set_lt :
      (k : ℕ) (xs : List A) (i : ℕ) (v : A) → i < k → take k (set xs i v) ≡ set (take k xs) i v
  take-set_lt zero xs i v h = elim h [ ]
  take-set_lt (suc k) [] i v h = refl
  take-set_lt (suc k) (x ∷ xs) zero v h = refl
  take-set_lt (suc k) (x ∷ xs) (suc i) v h = ap (◌∷◌ x) (take-set_lt k xs i v (omega arith))

  pub take-set_le : (k : ℕ) (xs : List A) (i : ℕ) (v : A) → k ≤ i → take k (set xs i v) ≡ take k xs
  take-set_le zero xs i v h = refl
  take-set_le (suc k) [] i v h = refl
  take-set_le (suc k) (x ∷ xs) zero v h = absurd (omega arith)
  take-set_le (suc k) (x ∷ xs) (suc i) v h = ap (◌∷◌ x) (take-set_le k xs i v (omega arith))

  pub drop-set_lt : (k : ℕ) (xs : List A) (i : ℕ) (v : A) → i < k → drop k (set xs i v) ≡ drop k xs
  drop-set_lt zero xs i v h = elim h [ ]
  drop-set_lt (suc k) [] i v h = refl
  drop-set_lt (suc k) (x ∷ xs) zero v h = refl
  drop-set_lt (suc k) (x ∷ xs) (suc i) v h = drop-set_lt k xs i v (omega arith)

  pub get_or-take :
      (k : ℕ) (xs : List A) (i : ℕ) (d : A) → i < k → get_or (take k xs) i d ≡ get_or xs i d
  get_or-take zero xs i d h = elim h [ ]
  get_or-take (suc k) [] i d h = refl
  get_or-take (suc k) (x ∷ xs) zero d h = refl
  get_or-take (suc k) (x ∷ xs) (suc i) d h = get_or-take k xs i d (omega arith)

  pub get_or-set_ne :
      (xs : List A) (i j : ℕ) (v d : A) → i ≢ j → get_or (set xs i v) j d ≡ get_or xs j d
  get_or-set_ne [] i j v d h = refl
  get_or-set_ne (x ∷ xs) zero zero v d h = absurd (h refl)
  get_or-set_ne (x ∷ xs) zero (suc j) v d h = refl
  get_or-set_ne (x ∷ xs) (suc i) zero v d h = refl
  get_or-set_ne (x ∷ xs) (suc i) (suc j) v d h = get_or-set_ne xs i j v d (λ e. h (ap suc e))

  pub get_or-replicate : (n i : ℕ) (v : A) → get_or (replicate n v) i v ≡ v
  get_or-replicate zero i v = refl
  get_or-replicate (suc n) zero v = refl
  get_or-replicate (suc n) (suc i) v = get_or-replicate n i v

  pub take-replicate : (k n : ℕ) (v : A) → k ≤ n → take k (replicate n v) ≡ replicate k v
  take-replicate zero n v h = refl
  take-replicate (suc k) zero v h = elim h [ ]
  take-replicate (suc k) (suc n) v h = ap (◌∷◌ v) (take-replicate k n v (omega arith))

-- Setting a flag takes one packet out of those that are not sent.
pub collect_unsent-set :
    (bs : List Bool) (i : ℕ) (ws : List (List ℕ)) (w : List ℕ)
    → i < length bs
    → get_or bs i false ≡ false
    → get_elem? ws i ≡ some w
    → Perm (w ∷ collect_unsent (set bs i true) ws) (collect_unsent bs ws)
unfolding collect_unsent
collect_unsent-set [] i ws w h e g = elim h [ ]
collect_unsent-set (b ∷ bs) i [] w h e g = cc
collect_unsent-set (true ∷ bs) zero (x ∷ ws) w h e g = cc
collect_unsent-set (false ∷ bs) zero (x ∷ ws) w h e g = Perm.cons' (ground arith) Perm.rfl
collect_unsent-set (true ∷ bs) (suc i) (x ∷ ws) w h e g =
    collect_unsent-set bs i ws w (omega arith) e g
collect_unsent-set (false ∷ bs) (suc i) (x ∷ ws) w h e g =
    Perm.trans (Perm.swap x w _) (Perm.cons x (collect_unsent-set bs i ws w (omega arith) e g))

pub collect_unsent-replicate :
    (k : ℕ) (ws : List (List ℕ)) → collect_unsent (replicate k false) ws ≡ take k ws
unfolding collect_unsent
collect_unsent-replicate zero ws = refl
collect_unsent-replicate (suc k) [] = refl
collect_unsent-replicate (suc k) (w ∷ ws) = ap (◌∷◌ w) (collect_unsent-replicate k ws)

pub collect_unsent-all_sent :
    (bs : List Bool) (ws : List (List ℕ)) → all_sent bs ≡ true → collect_unsent bs ws ≡ []
unfolding collect_unsent all_sent
collect_unsent-all_sent [] ws h = refl
collect_unsent-all_sent (b ∷ bs) [] h = refl
collect_unsent-all_sent (true ∷ bs) (w ∷ ws) h = collect_unsent-all_sent bs ws h
collect_unsent-all_sent (false ∷ bs) (w ∷ ws) h = cc
