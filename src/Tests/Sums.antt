-- ===== src/Tests/Sums.antt =====
-- A codec of two data shards and one parity shard that holds their sums: the assumptions on the
-- Reed-Solomon library can be met.
use multicast_bridge.Common.{
  ℕ, ◌+◌, ◌-◌, ◌≤◌, ◌≡◌, refl, ap, inl, inr, List, [], ◌∷◌, ◌++◌, length, Option, none, some, arith,
}
use mathlib.Core.Path.{subst}
use multicast_bridge.Fec.Codec.{Codec, IsCodec, PartOf, AllOfLength, present}

abbrev sum : List ℕ → List ℕ → List ℕ
sum [] ys = []
sum (x ∷ xs) [] = []
sum (x ∷ xs) (y ∷ ys) = (x + y) ∷ sum xs ys

abbrev diff : List ℕ → List ℕ → List ℕ
diff [] ys = []
diff (x ∷ xs) [] = []
diff (x ∷ xs) (y ∷ ys) = (x - y) ∷ diff xs ys

length-sum : (l : ℕ) (xs ys : List ℕ) → length xs ≡ l → length ys ≡ l → length (sum xs ys) ≡ l
length-sum l [] ys p q = p
length-sum l (x ∷ xs) [] p q = q
length-sum l (x ∷ xs) (y ∷ ys) p q = omega (arith, length-sum (length xs) xs ys refl (omega arith))

diff-sum_right : (xs ys : List ℕ) → length xs ≡ length ys → diff (sum xs ys) ys ≡ xs
diff-sum_right [] ys h = refl
diff-sum_right (x ∷ xs) [] h = absurd (omega arith)
diff-sum_right (x ∷ xs) (y ∷ ys) h =
    let e : x + y - y ≡ x = omega arith in λ i. e i ∷ diff-sum_right xs ys (omega arith) i

diff-sum_left : (xs ys : List ℕ) → length xs ≡ length ys → diff (sum xs ys) xs ≡ ys
diff-sum_left [] [] h = refl
diff-sum_left [] (y ∷ ys) h = absurd (omega arith)
diff-sum_left (x ∷ xs) [] h = absurd (omega arith)
diff-sum_left (x ∷ xs) (y ∷ ys) h =
    let e : x + y - x ≡ y = omega arith in λ i. e i ∷ diff-sum_left xs ys (omega arith) i

abbrev encode_sums : List (List ℕ) → Option (List (List ℕ))
encode_sums (a ∷ b ∷ s ∷ []) = some (a ∷ b ∷ sum a b ∷ [])
encode_sums _ = none

abbrev rebuild_sums : List (List ℕ) → Option (List (List ℕ))
rebuild_sums ((x ∷ xs) ∷ (y ∷ ys) ∷ s ∷ []) =
    some ((x ∷ xs) ∷ (y ∷ ys) ∷ sum (x ∷ xs) (y ∷ ys) ∷ [])
rebuild_sums ([] ∷ (y ∷ ys) ∷ (z ∷ zs) ∷ []) =
    some (diff (z ∷ zs) (y ∷ ys) ∷ (y ∷ ys) ∷ (z ∷ zs) ∷ [])
rebuild_sums ((x ∷ xs) ∷ [] ∷ (z ∷ zs) ∷ []) =
    some ((x ∷ xs) ∷ diff (z ∷ zs) (x ∷ xs) ∷ (z ∷ zs) ∷ [])
rebuild_sums _ = none

abbrev pub sums : Codec
sums = record { encode = encode_sums; reconstruct = rebuild_sums }

present_one : (s : List ℕ) → present (s ∷ []) ≤ 1
present_one [] = omega arith
present_one (x ∷ xs) = omega arith

present_three :
    {p q r p' q' r' : List ℕ}
    → p ≡ p'
    → q ≡ q'
    → r ≡ r'
    → present (p ∷ q ∷ r ∷ []) ≡ present (p' ∷ q' ∷ r' ∷ [])
present_three e f g = λ i. present (e i ∷ f i ∷ g i ∷ [])

rebuild_sums_lem :
    (x : ℕ) (xs : List ℕ) (y : ℕ) (ys : List ℕ) (p q r : List ℕ)
    → length xs ≡ length ys
    → PartOf (p ∷ q ∷ r ∷ []) ((x ∷ xs) ∷ (y ∷ ys) ∷ sum (x ∷ xs) (y ∷ ys) ∷ [])
    → 2 ≤ present (p ∷ q ∷ r ∷ [])
    → rebuild_sums (p ∷ q ∷ r ∷ []) ≡ some ((x ∷ xs) ∷ (y ∷ ys) ∷ sum (x ∷ xs) (y ∷ ys) ∷ [])
rebuild_sums_lem x xs y ys p q r h (inr e, (inr f, (g, _))) enough = rw (e, f)
rebuild_sums_lem x xs y ys p q r h (inr e, (inl f, (inr g, _))) enough =
    rw (e, f, g)
      (ap (λ d. some ((x ∷ xs) ∷ d ∷ sum (x ∷ xs) (y ∷ ys) ∷ []))
        (diff-sum_left (x ∷ xs) (y ∷ ys) (omega arith)))
rebuild_sums_lem x xs y ys p q r h (inl e, (inr f, (inr g, _))) enough =
    rw (e, f, g)
      (ap (λ d. some (d ∷ (y ∷ ys) ∷ sum (x ∷ xs) (y ∷ ys) ∷ []))
        (diff-sum_right (x ∷ xs) (y ∷ ys) (omega arith)))
rebuild_sums_lem x xs y ys p q r h (inl e, (inl f, (g, _))) enough =
    absurd (omega (arith, present_three {r = r} e f refl, present_one r))
rebuild_sums_lem x xs y ys p q r h (inl e, (inr f, (inl g, _))) enough =
    absurd (omega (arith, present_three e f g))
rebuild_sums_lem x xs y ys p q r h (inr e, (inl f, (inl g, _))) enough =
    absurd (omega (arith, present_three e f g))

rebuild_word :
    (a b : List ℕ) (part : List (List ℕ)) (l : ℕ)
    → 1 ≤ l
    → length a ≡ l
    → length b ≡ l
    → PartOf part (a ∷ b ∷ sum a b ∷ [])
    → 2 ≤ present part
    → rebuild_sums part ≡ some (a ∷ b ∷ sum a b ∷ [])
rebuild_word [] b part l h p q o enough = absurd (omega arith)
rebuild_word (x ∷ xs) [] part l h p q o enough = absurd (omega arith)
rebuild_word (x ∷ xs) (y ∷ ys) (s ∷ t ∷ u ∷ []) l h p q o enough =
    rebuild_sums_lem x xs y ys s t u (omega arith) o enough
rebuild_word (x ∷ xs) (y ∷ ys) [] l h p q o enough = absurd o
rebuild_word (x ∷ xs) (y ∷ ys) (s ∷ []) l h p q o enough = absurd o.1
rebuild_word (x ∷ xs) (y ∷ ys) (s ∷ t ∷ []) l h p q o enough = absurd o.1.1
rebuild_word (x ∷ xs) (y ∷ ys) (s ∷ t ∷ u ∷ v ∷ r) l h p q o enough = absurd o.1.1.1

sums_total :
    (shards : List (List ℕ))
    → length shards ≡ 3
    → (word : List (List ℕ)) × (encode_sums shards ≡ some word)
sums_total (a ∷ b ∷ s ∷ []) e = (a ∷ b ∷ sum a b ∷ [], refl)
sums_total _ e = absurd (omega arith)

sums_shape :
    (xs ys word : List (List ℕ)) (l : ℕ)
    → length xs ≡ 2
    → length ys ≡ 1
    → AllOfLength l (xs ++ ys)
    → encode_sums (xs ++ ys) ≡ some word
    → (zs : List (List ℕ)) × (word ≡ xs ++ zs) × (length zs ≡ 1) × AllOfLength l zs
sums_shape (a ∷ b ∷ []) (s ∷ []) word l p q even e =
    (sum a b ∷ [], cc, refl, (length-sum l a b even.0 even.1.0, tt))
sums_shape (a ∷ b ∷ []) [] word l p q even e = absurd (omega arith)
sums_shape (a ∷ b ∷ []) (s ∷ t ∷ ys) word l p q even e = absurd (omega arith)
sums_shape [] ys word l p q even e = absurd (omega arith)
sums_shape (a ∷ []) ys word l p q even e = absurd (omega arith)
sums_shape (a ∷ b ∷ c ∷ xs) ys word l p q even e = absurd (omega arith)

sums_rebuild :
    (shards word part : List (List ℕ)) (l : ℕ)
    → 1 ≤ l
    → length shards ≡ 3
    → AllOfLength l shards
    → encode_sums shards ≡ some word
    → PartOf part word
    → 2 ≤ present part
    → rebuild_sums part ≡ some word
sums_rebuild (a ∷ b ∷ s ∷ []) word part l h p even e o enough =
    let same : word ≡ a ∷ b ∷ sum a b ∷ [] = cc in
    rw same (rebuild_word a b part l h even.0 even.1.0 (subst (PartOf part) same o) enough)
sums_rebuild _ word part l h p even e o enough = absurd (omega arith)

pub sums-IsCodec : IsCodec sums 2 1
sums-IsCodec = record {
  encode_total = λ shards l h e even. sums_total shards e;
  encode_shape = sums_shape;
  reconstruct_word = sums_rebuild;
}
