-- ===== src/Common/Bytes.antt =====
-- Byte slices as lists of numbers, with what the source uses of Go's `make`, `copy`, slicing and
-- encoding/binary's big-endian numbers.
use Prim.Native.Nat.{ℕ, zero, suc, ◌+◌, ◌-◌, ◌*◌, ◌/◌, ◌%◌, ◌^◌, ◌<◌}
use Prim.Native.Nat.add
use mathlib.Core.Path.{◌≡◌, refl, ap}
use mathlib.Core.List.{List, [], ◌∷◌, ◌++◌}
use native.Mathlib.Omega.{arith}
use multicast_bridge.Common.Lists.{
  length, drop-append, take-append, set, take, drop, replicate, length-append,
}

abbrev pub IsByte : ℕ → Type 0
IsByte b = b < 256

-- `make([]byte, n)`
abbrev pub make : ℕ → List ℕ
make n = replicate n 0

-- `buf[lo:hi]`, for lo ≤ hi ≤ len(buf).
abbrev pub slice : List ℕ → ℕ → ℕ → List ℕ
slice buf lo hi = take (hi - lo) (drop lo buf)

-- `copy(dst[at:], src)`: writes as many bytes as both sides have.
abbrev pub copy_at : List ℕ → ℕ → List ℕ → List ℕ
copy_at [] at src = []
copy_at (d ∷ ds) zero [] = d ∷ ds
copy_at (d ∷ ds) zero (s ∷ ss) = s ∷ copy_at ds zero ss
copy_at (d ∷ ds) (suc at) src = d ∷ copy_at ds at src

-- The `k` low bytes of `v`, the highest first: `binary.BigEndian.PutUint16/32/64`.
abbrev pub put_uint : ℕ → ℕ → List ℕ
put_uint zero v = []
put_uint (suc k) v = put_uint k (v / 256) ++ (v % 256) ∷ []

abbrev pub get_uint_from : ℕ → List ℕ → ℕ
get_uint_from acc [] = acc
get_uint_from acc (b ∷ bs) = get_uint_from (acc * 256 + b) bs

-- `binary.BigEndian.Uint16/32/64`
abbrev pub get_uint : List ℕ → ℕ
get_uint = get_uint_from 0

get_uint_from-append :
    (acc : ℕ) (xs ys : List ℕ)
    → get_uint_from acc (xs ++ ys) ≡ get_uint_from (get_uint_from acc xs) ys
get_uint_from-append acc [] ys = refl
get_uint_from-append acc (x ∷ xs) ys = get_uint_from-append (acc * 256 + x) xs ys

pub get_uint-put_uint : (k v : ℕ) → v < 256 ^ k → get_uint (put_uint k v) ≡ v
get_uint-put_uint zero v h = omega arith
get_uint-put_uint (suc k) v h = omega (
  arith,
  get_uint_from-append 0 (put_uint k (v / 256)) ((v % 256) ∷ []),
  get_uint-put_uint k (v / 256) (omega arith),
)

pub length-put_uint : (k v : ℕ) → length (put_uint k v) ≡ k
length-put_uint zero v = refl
length-put_uint (suc k) v =
    omega
      (arith, length-append (put_uint k (v / 256)) ((v % 256) ∷ []), length-put_uint k (v / 256))

-- A write of the whole length replaces the buffer.
pub copy_at-make : (src : List ℕ) → copy_at (make (length src)) 0 src ≡ src
copy_at-make [] = refl
copy_at-make (s ∷ ss) = ap (◌∷◌ s) (copy_at-make ss)

pub length-copy_at :
    (dst : List ℕ) (at : ℕ) (src : List ℕ) → length (copy_at dst at src) ≡ length dst
length-copy_at [] at src = refl
length-copy_at (d ∷ ds) zero [] = refl
length-copy_at (d ∷ ds) zero (s ∷ ss) = ap suc (length-copy_at ds zero ss)
length-copy_at (d ∷ ds) (suc at) src = ap suc (length-copy_at ds at src)

pub copy_at-nil : (dst : List ℕ) → copy_at dst 0 [] ≡ dst
copy_at-nil [] = refl
copy_at-nil (d ∷ ds) = refl

-- Two bytes are what is written for the number that they spell.
pub two_bytes : (a b n : ℕ) → IsByte a → IsByte b → n ≡ a * 256 + b → put_uint 2 n ≡ a ∷ b ∷ []
two_bytes a b n ha hb e = ground arith

-- A write into the zeros that follow what is written already.
pub copy_at-append :
    (xs src : List ℕ) (m : ℕ)
    → copy_at (xs ++ make (length src + m)) (length xs) src ≡ xs ++ (src ++ make m)
copy_at-append [] [] m = rw (add.zero m) (copy_at-nil (make m))
copy_at-append [] (s ∷ ss) m = rw (add.suc (length ss) m) (ap (◌∷◌ s) (copy_at-append [] ss m))
copy_at-append (x ∷ xs) src m = ap (◌∷◌ x) (copy_at-append xs src m)

pub set-append :
    (xs : List ℕ) (b m : ℕ) → set (xs ++ make (suc m)) (length xs) b ≡ xs ++ (b ∷ make m)
set-append [] b m = refl
set-append (x ∷ xs) b m = ap (◌∷◌ x) (set-append xs b m)

-- A write of the rest of the buffer, behind one byte more.
pub copy_at-append_suc :
    (xs : List ℕ) (b : ℕ) (src : List ℕ)
    → copy_at (xs ++ (b ∷ make (length src))) (suc (length xs)) src ≡ xs ++ (b ∷ src)
copy_at-append_suc [] b src = ap (◌∷◌ b) (copy_at-make src)
copy_at-append_suc (x ∷ xs) b src = ap (◌∷◌ x) (copy_at-append_suc xs b src)

-- The three writes once more, at a size and a place that are given by equations.
pub copy_at_front :
    (src : List ℕ) (n m : ℕ) → n ≡ length src + m → copy_at (make n) 0 src ≡ src ++ make m
copy_at_front src n m e = rw e (copy_at-append [] src m)

pub copy_at_next :
    (xs src : List ℕ) (at n m : ℕ)
    → at ≡ length xs
    → n ≡ length src + m
    → copy_at (xs ++ make n) at src ≡ xs ++ (src ++ make m)
copy_at_next xs src at n m p q = rw (p, q) (copy_at-append xs src m)

pub slice-append :
    (xs ys zs : List ℕ) (lo hi : ℕ)
    → lo ≡ length xs
    → hi ≡ length xs + length ys
    → slice (xs ++ (ys ++ zs)) lo hi ≡ ys
slice-append xs ys zs lo hi p q = rw (size, p, drop-append xs (ys ++ zs)) (take-append ys zs)
  where
    size : hi - lo ≡ length ys
    size = omega arith
