-- ===== src/Fec/Parity.antt =====
-- internal/fec/fec.go: what `EncodeFECWithEncoder` returns, over an encoder that does as its
-- documentation says.
use mathlib.Core.List.{Memᴰ}
use mathlib.Core.List.Memᴰ
use multicast_bridge.Common.{
  ℕ, zero, suc, ◌+◌, ◌-◌, ◌≤◌, ◌≡◌, sym, ap, ◌∙◌, if◌then◌else◌, ltb, List, [], ◌∷◌, ◌++◌, length,
  take, drop, replicate, All, some, arith, map, length-map, length-replicate, length-append,
  take_all, drop-append,
}
use multicast_bridge.Common.Bytes.{make}
use multicast_bridge.Common.Results.{ok}
use multicast_bridge.Fec.Codec.{Codec, IsCodec, AllOfLength, PartOf, present}
use multicast_bridge.Fec.Encode.{pad, max_len_from, encode_fec_with_encoder}
use multicast_bridge.Fec.Manager.Word.{length-pad}

abbrev pub max_len : List (List ℕ) → ℕ
max_len = max_len_from 0

le-max_len_from : (acc : ℕ) (ps : List (List ℕ)) → acc ≤ max_len_from acc ps
unfolding max_len_from
le-max_len_from acc [] = omega arith
le-max_len_from acc (p ∷ ps) = ground (arith, le-max_len_from (length p) ps, le-max_len_from acc ps)

pub length-le-max_len_from :
    (acc : ℕ) (ps : List (List ℕ)) → All (λ p. length p ≤ max_len_from acc ps) ps
unfolding max_len_from
length-le-max_len_from acc [] = tt
length-le-max_len_from acc (p ∷ ps) = (
  ground (arith, le-max_len_from (length p) ps, le-max_len_from acc ps),
  length-le-max_len_from (if ltb acc (length p) then length p else acc) ps,
)

-- The length of the longest packet.
pub record IsLongest (l : ℕ) (ps : List (List ℕ)) : Type 0 where
  pub bound : All (λ p. length p ≤ l) ps
  pub packet : List ℕ
  pub member : Memᴰ packet ps
  pub reached : length packet ≡ l

pub max_len-le :
    (most acc : ℕ) (ps : List (List ℕ))
    → acc ≤ most
    → All (λ p. length p ≤ most) ps
    → max_len_from acc ps ≤ most
unfolding max_len_from
max_len-le most acc [] h v = h
max_len-le most acc (p ∷ ps) h v =
    max_len-le most (if ltb acc (length p) then length p else acc) ps (ground (arith, h, v.0)) v.1

pub AllOfLength-append :
    (l : ℕ) (xs ys : List (List ℕ)) → AllOfLength l xs → AllOfLength l ys → AllOfLength l (xs ++ ys)
AllOfLength-append l [] ys a b = b
AllOfLength-append l (x ∷ xs) ys a b = (a.0, AllOfLength-append l xs ys a.1 b)

pub AllOfLength-map-pad : (l : ℕ) (ps : List (List ℕ)) → AllOfLength l (map (pad l) ps)
AllOfLength-map-pad l [] = tt
AllOfLength-map-pad l (p ∷ ps) = (length-pad l p, AllOfLength-map-pad l ps)

AllOfLength-replicate : (l n : ℕ) → AllOfLength l (replicate n (make l))
AllOfLength-replicate l zero = tt
AllOfLength-replicate l (suc n) = (length-replicate l 0, AllOfLength-replicate l n)

-- The parity packets, and the encoded word that they complete.
pub record Parity (c : Codec) (k n l : ℕ) (ps red : List (List ℕ)) : Type 0 where
  pub result : encode_fec_with_encoder (some c) k n ps ≡ ok red
  pub count : length red ≡ n - k
  pub even : AllOfLength l red
  pub rebuild :
      (part : List (List ℕ))
      → PartOf part (map (pad l) ps ++ red)
      → k ≤ present part
      → c.reconstruct part ≡ some (map (pad l) ps ++ red)

module _ (c : Codec) (k n : ℕ) (codec : IsCodec c k (n - k)) (ps : List (List ℕ))
    (size : length ps ≡ k) (room : k ≤ n) (some_bytes : 1 ≤ max_len ps) where
  data_shards : List (List ℕ)
  data_shards = map (pad (max_len ps)) ps

  blank_shards : List (List ℕ)
  blank_shards = replicate (n - k) (make (max_len ps))

  shards-even : AllOfLength (max_len ps) (data_shards ++ blank_shards)
  unfolding data_shards blank_shards
  shards-even =
      AllOfLength-append (max_len ps) data_shards blank_shards (AllOfLength-map-pad (max_len ps) ps)
        (AllOfLength-replicate (max_len ps) (n - k))

  length-data_shards : length data_shards ≡ k
  unfolding data_shards
  length-data_shards = length-map ps (pad (max_len ps)) ∙ size

  length-blank_shards : length blank_shards ≡ n - k
  unfolding blank_shards
  length-blank_shards = length-replicate (n - k) (make (max_len ps))

  length-shards : length (data_shards ++ blank_shards) ≡ k + (n - k)
  length-shards =
      omega (arith, length-append data_shards blank_shards, length-data_shards, length-blank_shards)

  encode_lem :
      (word : List (List ℕ))
      → c.encode (data_shards ++ blank_shards) ≡ some word
      → encode_fec_with_encoder (some c) k n ps ≡ ok (take (n - k) (drop k word))
  unfolding encode_fec_with_encoder data_shards blank_shards
  encode_lem word e = ground (arith, size, e, take_all k ps)

  word-Parity :
      (word : List (List ℕ))
      → c.encode (data_shards ++ blank_shards) ≡ some word
      → (zs : List (List ℕ)) → word ≡ data_shards ++ zs
      → length zs ≡ n - k
      → AllOfLength (max_len ps) zs
      → Parity c k n (max_len ps) ps zs
  unfolding data_shards
  word-Parity word e zs split zs_count zs_even = record {
    result = encode_lem word e ∙ ap ok parity;
    count = zs_count;
    even = zs_even;
    rebuild = λ part p enough.
        codec.reconstruct_word (data_shards ++ blank_shards) (data_shards ++ zs) part (max_len ps)
          some_bytes length-shards shards-even (e ∙ ap some split) p enough;
  }
    where
      parity : take (n - k) (drop k word) ≡ zs
      parity =
          ap (λ ws. take (n - k) (drop k ws)) split
          ∙ ap (λ i. take (n - k) (drop i (data_shards ++ zs))) (sym length-data_shards)
          ∙ ap (take (n - k)) (drop-append data_shards zs)
          ∙ take_all (n - k) zs (omega arith)

  pub encode_fec-max_len : (red : List (List ℕ)) × Parity c k n (max_len ps) ps red
  encode_fec-max_len =
      let (word, e) =
        codec.encode_total (data_shards ++ blank_shards) (max_len ps) some_bytes length-shards
          shards-even in
      let (zs, split, zs_count, zs_even) =
        codec.encode_shape data_shards blank_shards word (max_len ps) length-data_shards
          length-blank_shards shards-even e in
      (zs, word-Parity word e zs split zs_count zs_even)
