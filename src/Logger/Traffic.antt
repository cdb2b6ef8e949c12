-- ===== src/Logger/Traffic.antt =====
-- internal/logger/stats.go: `TrafficStats`, the throughput over the last second.
use mathlib.Core.List.{append_assoc, append-nil}
use mathlib.Core.Path.{subst}
use multicast_bridge.Common.{
  ℕ, ◌+◌, ◌-◌, ◌*◌, ◌%◌, ◌^◌, ◌≤◌, ◌≡◌, refl, sym, ap, ◌∙◌, if◌then◌else◌, ltb, List, [], ◌∷◌, ◌++◌,
  All, arith, inl, inr, Bool-cases,
}
use multicast_bridge.Common.Int.{ℤ, to_i64}

-- A record of the traffic; sizes are not negative.
pub record Entry : Type 0 where
  pub timestamp : ℕ
  pub bytes : ℕ

unfoldable pub clean_old : ℕ → List Entry → List Entry
clean_old cutoff [] = []
clean_old cutoff (e ∷ history) =
    if ltb e.timestamp cutoff then clean_old cutoff history else e ∷ history

abbrev pub second : ℕ
second = 1_000_000_000

unfoldable pub add_traffic : ℕ → ℕ → List Entry → List Entry
add_traffic now bytes history =
    clean_old (now - second) (history ++ (record { timestamp = now; bytes = bytes } ∷ []))

abbrev pub total_bytes : List Entry → ℕ
total_bytes [] = 0
total_bytes (e ∷ history) = e.bytes + total_bytes history

-- The history that `Bps` leaves and the throughput, whose arithmetic is on int64.
unfoldable pub bps : ℕ → List Entry → List Entry × ℤ
bps now history =
    let recent = clean_old (now - second) history in
    (recent, to_i64 (total_bytes recent * 8 % 2 ^ 64))

-- The calls of `Add`, one after the other.
unfoldable pub add_all : List Entry → List Entry → List Entry
add_all [] history = history
add_all (e ∷ es) history = add_all es (add_traffic e.timestamp e.bytes history)

-- The specification: the entries that are not before the cutoff.
unfoldable pub since : ℕ → List Entry → List Entry
since cutoff [] = []
since cutoff (e ∷ es) = if ltb e.timestamp cutoff then since cutoff es else e ∷ since cutoff es

-- The clock does not go back.
unfoldable pub Rising : ℕ → List Entry → Type 0
Rising low [] = Unit
Rising low (e ∷ es) = (low ≤ e.timestamp) × Rising e.timestamp es

since_all : (cutoff low : ℕ) (es : List Entry) → cutoff ≤ low → Rising low es → since cutoff es ≡ es
unfolding since Rising
since_all cutoff low [] h v = refl
since_all cutoff low (e ∷ es) h v =
    ground (arith, v.0, since_all cutoff e.timestamp es (omega (arith, v.0)) v.1)

clean_old-since :
    (cutoff low : ℕ) (es : List Entry) → Rising low es → clean_old cutoff es ≡ since cutoff es
unfolding clean_old since Rising
clean_old-since cutoff low [] v = refl
clean_old-since cutoff low (e ∷ es) v = elim (Bool-cases (ltb e.timestamp cutoff)) [
  | inl b ↦ rw b (clean_old-since cutoff e.timestamp es v.1)
  | inr b ↦ rw b (ap (λ r. e ∷ r) (sym (since_all cutoff e.timestamp es (ground (arith, b)) v.1)))
]

since-since : (c d : ℕ) (es : List Entry) → c ≤ d → since d (since c es) ≡ since d es
unfolding since
since-since c d [] h = refl
since-since c d (e ∷ es) h = ground (arith, since-since c d es h)

since-append : (c : ℕ) (xs ys : List Entry) → since c (xs ++ ys) ≡ since c xs ++ since c ys
unfolding since
since-append c [] ys = refl
since-append c (x ∷ xs) ys = ground (arith, since-append c xs ys)

Rising-lower : (low low' : ℕ) (es : List Entry) → low' ≤ low → Rising low es → Rising low' es
unfolding Rising
Rising-lower low low' [] h v = tt
Rising-lower low low' (e ∷ es) h v = (omega (arith, v.0), v.1)

Rising-since : (c low : ℕ) (es : List Entry) → Rising low es → Rising low (since c es)
unfolding since Rising
Rising-since c low [] v = tt
Rising-since c low (e ∷ es) v = elim (Bool-cases (ltb e.timestamp c)) [
  | inl b ↦ rw b (Rising-lower e.timestamp low (since c es) v.0 (Rising-since c e.timestamp es v.1))
  | inr b ↦ rw b (v.0, Rising-since c e.timestamp es v.1)
]

Rising-front : (low : ℕ) (xs ys : List Entry) → Rising low (xs ++ ys) → Rising low xs
unfolding Rising
Rising-front low [] ys v = tt
Rising-front low (x ∷ xs) ys v = (v.0, Rising-front x.timestamp xs ys v.1)

-- One call keeps what is not too old of all that was added.
add_traffic-since :
    (c low : ℕ) (xs : List Entry) (e : Entry)
    → Rising low (xs ++ (e ∷ []))
    → c ≤ e.timestamp - second
    → add_traffic e.timestamp e.bytes (since c xs) ≡ since (e.timestamp - second) (xs ++ (e ∷ []))
unfolding add_traffic
add_traffic-since c low xs e v h =
    ap (clean_old (e.timestamp - second)) kept
    ∙ clean_old-since (e.timestamp - second) low (since c (xs ++ (e ∷ [])))
        (Rising-since c low (xs ++ (e ∷ [])) v)
    ∙ since-since c (e.timestamp - second) (xs ++ (e ∷ [])) h
  where
    last : since c (e ∷ []) ≡ e ∷ []
    last = unfold since in ground (arith, h)

    kept : since c xs ++ (e ∷ []) ≡ since c (xs ++ (e ∷ []))
    kept = ap (λ r. since c xs ++ r) (sym last) ∙ sym (since-append c xs (e ∷ []))

All-later :
    (low cutoff : ℕ) (es : List Entry)
    → Rising low es
    → cutoff ≤ low
    → All (λ f. cutoff - second ≤ f.timestamp - second) es
unfolding Rising
All-later low cutoff [] v h = tt
All-later low cutoff (e ∷ es) v h =
    (omega (arith, v.0), All-later e.timestamp cutoff es v.1 (omega (arith, v.0)))

Rising-later :
    (low : ℕ) (xs : List Entry) (e : Entry) (es : List Entry)
    → Rising low (xs ++ (e ∷ es))
    → All (λ f. e.timestamp - second ≤ f.timestamp - second) es
unfolding Rising
Rising-later low [] e es v = All-later e.timestamp e.timestamp es v.1 (omega arith)
Rising-later low (x ∷ xs) e es v = Rising-later x.timestamp xs e es v.1

-- The history is what is not before some cutoff, which is old enough.
add_all-since :
    (es xs : List Entry) (c d low : ℕ)
    → Rising low (xs ++ es)
    → c ≤ d
    → All (λ e. c ≤ e.timestamp - second) es
    → All (λ e. e.timestamp - second ≤ d) es
    → (c' : ℕ) × (add_all es (since c xs) ≡ since c' (xs ++ es)) × (c' ≤ d)
unfolding add_all
add_all-since [] xs c d low v h lo hi = (c, ap (since c) (sym (append-nil xs)), h)
add_all-since (e ∷ es) xs c d low v h lo hi =
    let assoc : (xs ++ (e ∷ [])) ++ es ≡ xs ++ (e ∷ es) = append_assoc xs (e ∷ []) es in
    let rising : Rising low ((xs ++ (e ∷ [])) ++ es) = subst (Rising low) (sym assoc) v in
    let (c', same, old) =
      add_all-since es (xs ++ (e ∷ [])) (e.timestamp - second) d low rising hi.0
        (Rising-later low xs e es v) hi.1 in
    (
      c',
      ap (add_all es)
            (add_traffic-since c low xs e (Rising-front low (xs ++ (e ∷ [])) es rising) lo.0)
          ∙ same
          ∙ ap (since c') assoc,
      old,
    )

-- If the clock does not go back, then after any calls of `Add` on a new `TrafficStats`, `Bps` is
-- eight times the bytes of all those that are at most a second old, on int64, and the history is left
-- with these.
pub bps-since :
    (es : List Entry) (now : ℕ)
    → Rising 0 es
    → All (λ e. e.timestamp ≤ now) es
    → bps now (add_all es [])
      ≡ (since (now - second) es, to_i64 (total_bytes (since (now - second) es) * 8 % 2 ^ 64))
unfolding bps since
bps-since es now v h =
    let (c, same, old) =
      add_all-since es [] 0 (now - second) 0 v (omega arith) (all_from_zero es) (all_old es h) in
    let recent : clean_old (now - second) (add_all es []) ≡ since (now - second) es =
      ap (clean_old (now - second)) same
      ∙ clean_old-since (now - second) 0 (since c es) (Rising-since c 0 es v)
      ∙ since-since c (now - second) es old in
    ap (λ r. (r, to_i64 (total_bytes r * 8 % 2 ^ 64))) recent
  where
    all_from_zero : (es : List Entry) → All (λ e. 0 ≤ e.timestamp - second) es
    all_from_zero [] = tt
    all_from_zero (e ∷ es) = (omega arith, all_from_zero es)

    all_old :
        (es : List Entry)
        → All (λ e. e.timestamp ≤ now) es
        → All (λ e. e.timestamp - second ≤ now - second) es
    all_old [] h = tt
    all_old (e ∷ es) h = (omega (arith, h.0), all_old es h.1)
