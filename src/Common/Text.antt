-- ===== src/Common/Text.antt =====
-- Go strings as lists of bytes, and their equality.
use Prim.Native.Nat.{ℕ}
use Prim.Native.Char.{code}
use Prim.Native.String.{String}
use mathlib.Core.Path.{◌≡◌, refl, subst}
use mathlib.Core.Logic.{◌↔◌}
use mathlib.Core.Bool.{Bool, true, false, ◌&&◌}
use mathlib.Core.List.{List, [], ◌∷◌}
use native.Mathlib.Omega.{arith}
use multicast_bridge.Common.Tests.{◌==◌, ==_iff}

-- The bytes of a literal, which is ASCII.
abbrev pub text : String → List ℕ
text String.[] = []
text (String.◌∷◌ c s) = code c ∷ text s

abbrev pub same_text : List ℕ → List ℕ → Bool
same_text [] [] = true
same_text [] (b ∷ bs) = false
same_text (a ∷ as_) [] = false
same_text (a ∷ as_) (b ∷ bs) = (a == b) && same_text as_ bs

and-true : (x y : Bool) → (x && y) ≡ true → (x ≡ true) × (y ≡ true)
and-true true y e = (refl, e)
and-true false y e = cc

same_text-true : (s t : List ℕ) → same_text s t ≡ true → s ≡ t
same_text-true [] [] e = refl
same_text-true [] (b ∷ bs) e = cc
same_text-true (a ∷ s) [] e = cc
same_text-true (a ∷ s) (b ∷ t) e =
    let (p, q) = and-true (a == b) (same_text s t) e in
    let h : a ≡ b = (==_iff a b).0 p in let k : s ≡ t = same_text-true s t q in cc

same_text_refl : (s : List ℕ) → same_text s s ≡ true
same_text_refl [] = refl
same_text_refl (a ∷ s) = ground (arith, same_text_refl s)

pub same_text_iff : (s t : List ℕ) → (same_text s t ≡ true) ↔ (s ≡ t)
same_text_iff s t =
    (same_text-true s t, λ e. subst (λ u. same_text s u ≡ true) e (same_text_refl s))
