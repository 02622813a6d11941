-- ===== src/Base/IntMap.antt =====
-- `std::map<int, …>`, by ascending keys.
pub mod Laws
pub mod Keys
use Prim.Native.Nat.{ℕ}
use mathlib.Core.Bool.{Bool, true, false}
use mathlib.Core.Option.{Option, none, some}
use mathlib.Core.List.{List, [], ◌∷◌}
use ice_adapter.Base.Tests.{ltb, if◌then◌else◌}
use ice_adapter.Base.Words.{ℤ, pos, negsuc, ℤ_eq}

abbrev pub ℤ_ltb : ℤ → ℤ → Bool
ℤ_ltb (pos m) (pos n) = ltb m n
ℤ_ltb (pos m) (negsuc n) = false
ℤ_ltb (negsuc m) (pos n) = true
ℤ_ltb (negsuc m) (negsuc n) = ltb n m

-- `std::map<int, …>`, by ascending keys: `find`, `m[key] = v`, `erase`.
module _ {ℓ} {A : Type ℓ} where
  unfoldable pub find : ℤ → List (ℤ × A) → Option A
  find k [] = none
  find k ((j, v) ∷ m) = if ℤ_eq j k then some v else find k m

  unfoldable pub assign : ℤ → A → List (ℤ × A) → List (ℤ × A)
  assign k v [] = (k, v) ∷ []
  assign k v ((j, w) ∷ m) =
      if ℤ_eq j k
      then (k, v) ∷ m
      else if ℤ_ltb k j
      then (k, v) ∷ ((j, w) ∷ m)
      else (j, w) ∷ assign k v m

  unfoldable pub erase : ℤ → List (ℤ × A) → List (ℤ × A)
  erase k [] = []
  erase k ((j, w) ∷ m) = if ℤ_eq j k then m else (j, w) ∷ erase k m
