-- ===== src/Fec/Codec.antt =====
-- github.com/klauspost/reedsolomon, which the sources call and do not hold: a parameter.
use multicast_bridge.Common.{ℕ, ◌+◌, ◌≤◌, ◌≡◌, ◌⊎◌, List, [], ◌∷◌, ◌++◌, length, Option, some, suc}

-- A `reedsolomon.Encoder`. Both methods work in place on the shards; `none` is their error. An
-- empty shard is a missing one.
pub record Codec : Type 0 where
  pub encode : List (List ℕ) → Option (List (List ℕ))
  pub reconstruct : List (List ℕ) → Option (List (List ℕ))

-- How many shards are present.
abbrev pub present : List (List ℕ) → ℕ
present [] = 0
present ([] ∷ ss) = present ss
present ((b ∷ bs) ∷ ss) = suc (present ss)

-- Each shard is missing or is that of the codeword.
abbrev pub PartOf : List (List ℕ) → List (List ℕ) → Type 0
PartOf [] [] = Unit
PartOf [] (w ∷ ws) = ⊥
PartOf (s ∷ ss) [] = ⊥
PartOf (s ∷ ss) (w ∷ ws) = ((s ≡ []) ⊎ (s ≡ w)) × PartOf ss ws

abbrev pub AllOfLength : ℕ → List (List ℕ) → Type 0
AllOfLength l [] = Unit
AllOfLength l (s ∷ ss) = (length s ≡ l) × AllOfLength l ss

-- What its documentation says of an encoder for `k` data shards and `parity` others:
-- `Encode` keeps the data shards and the common length, which is not 0, and fills the others; `Reconstruct` fills
-- in the missing shards of an encoded word, if `k` at least are there.
pub record IsCodec (c : Codec) (k parity : ℕ) : Type 0 where
  pub encode_total :
      (shards : List (List ℕ)) (l : ℕ)
      → 1 ≤ l
      → length shards ≡ k + parity
      → AllOfLength l shards
      → (word : List (List ℕ)) × (c.encode shards ≡ some word)
  pub encode_shape :
      (xs ys word : List (List ℕ)) (l : ℕ)
      → length xs ≡ k
      → length ys ≡ parity
      → AllOfLength l (xs ++ ys)
      → c.encode (xs ++ ys) ≡ some word
      → (zs : List (List ℕ)) × (word ≡ xs ++ zs) × (length zs ≡ parity) × AllOfLength l zs
  pub reconstruct_word :
      (shards word part : List (List ℕ)) (l : ℕ)
      → 1 ≤ l
      → length shards ≡ k + parity
      → AllOfLength l shards
      → c.encode shards ≡ some word
      → PartOf part word
      → k ≤ present part
      → c.reconstruct part ≡ some word
