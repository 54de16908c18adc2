-- ===== src/Base/Dict.antt =====
-- `std::map` with integer keys: an association list in the order of the keys, which is the order in
-- which the source iterates.
use mathlib.Core.Path.{◌≡◌, refl}
use mathlib.Core.Bool.{Bool, true, false}
use mathlib.Core.Option.{Option, none, some}
use mathlib.Core.List.{List, [], ◌∷◌}
use native.Mathlib.Omega.{arith}
use Prim.Native.Nat.{ℕ, ◌<◌}
use j1939_framework.Base.Tests.{ltb, ◌==◌, if◌then◌else◌}

module _ {ℓ} {V : Type ℓ} where
  unfoldable pub find : ℕ → List (ℕ × V) → Option V
  find k [] = none
  find k ((j, v) ∷ m) = if j == k then some v else find k m

  -- `m[k] = v`
  unfoldable pub insert : ℕ → V → List (ℕ × V) → List (ℕ × V)
  insert k v [] = (k, v) ∷ []
  insert k v ((j, w) ∷ m) =
      if j == k then (k, v) ∷ m else if ltb k j then (k, v) ∷ (j, w) ∷ m else (j, w) ∷ insert k v m

  unfoldable pub erase : ℕ → List (ℕ × V) → List (ℕ × V)
  erase k [] = []
  erase k ((j, w) ∷ m) = let rest = erase k m in if j == k then rest else (j, w) ∷ rest

  abbrev pub has : ℕ → List (ℕ × V) → Bool
  has k m = elim (find k m) [ none ↦ false | some v ↦ true ]

  -- Keys rise along the list, from above `lo`.
  abbrev pub Rising : ℕ → List (ℕ × V) → Type 0
  Rising lo [] = Unit {0}
  Rising lo ((j, v) ∷ m) = (lo < j) × Rising j m

  abbrev pub IsSorted : List (ℕ × V) → Type 0
  IsSorted [] = Unit {0}
  IsSorted ((j, v) ∷ m) = Rising j m

module _ {ℓ} {V : Type ℓ} where
  pub find-insert :
      (k j : ℕ) (v : V) (m : List (ℕ × V))
      → find j (insert k v m) ≡ (if k == j then some v else find j m)
  unfolding find insert
  find-insert k j v [] = refl
  find-insert k j v ((i, w) ∷ m) = ground (arith, find-insert k j v m)

  pub find-erase :
      (k j : ℕ) (m : List (ℕ × V)) → find j (erase k m) ≡ (if k == j then none else find j m)
  unfolding find erase
  find-erase k j [] = ground arith
  find-erase k j ((i, w) ∷ m) = ground (arith, find-erase k j m)

  pub insert-Rising :
      (k lo : ℕ) (v : V) (m : List (ℕ × V)) → lo < k → Rising lo m → Rising lo (insert k v m)
  unfolding insert
  insert-Rising k lo v [] h r = (h, tt)
  insert-Rising k lo v ((j, w) ∷ m) h r = ground (arith, insert-Rising k j v m)

  pub insert-IsSorted : (k : ℕ) (v : V) (m : List (ℕ × V)) → IsSorted m → IsSorted (insert k v m)
  unfolding insert
  insert-IsSorted k v [] s = tt
  insert-IsSorted k v ((j, w) ∷ m) s = ground (arith, insert-Rising k j v m)

pub ruleset laws = (find-insert, find-erase)
