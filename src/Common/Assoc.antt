-- ===== src/Common/Assoc.antt =====
-- Go maps with number keys, as association lists. The order of the list stands for the order in
-- which `range` visits the map.
use multicast_bridge.Common.Tests.{◌==◌, if◌then◌else◌}
use Prim.Native.Nat.{ℕ}
use mathlib.Core.Path.{◌≡◌}
use mathlib.Core.List.{List, [], ◌∷◌}
use mathlib.Core.Option.{Option, none, some}
use native.Mathlib.Omega.{arith}

module _ {ℓ} {V : Type ℓ} where
  unfoldable pub lookup : ℕ → List (ℕ × V) → Option V
  lookup k [] = none
  lookup k ((j, v) ∷ m) = if j == k then some v else lookup k m

  unfoldable pub insert : ℕ → V → List (ℕ × V) → List (ℕ × V)
  insert k v [] = (k, v) ∷ []
  insert k v ((j, w) ∷ m) = if j == k then (k, v) ∷ m else (j, w) ∷ insert k v m

  unfoldable pub delete : ℕ → List (ℕ × V) → List (ℕ × V)
  delete k [] = []
  delete k ((j, w) ∷ m) = if j == k then delete k m else (j, w) ∷ delete k m

  pub lookup-insert :
      (key other : ℕ) (value : V) (entries : List (ℕ × V))
      → lookup other (insert key value entries)
        ≡ (if other == key then some value else lookup other entries)
  unfolding lookup insert
  lookup-insert key other value [] = ground arith
  lookup-insert key other value (e ∷ entries) =
      ground (arith, lookup-insert key other value entries)

  pub lookup-delete :
      (k j : ℕ) (m : List (ℕ × V)) → lookup j (delete k m) ≡ (if k == j then none else lookup j m)
  unfolding lookup delete
  lookup-delete k j [] = ground arith
  lookup-delete k j ((i, w) ∷ m) = ground (arith, lookup-delete k j m)
