-- ===== src/Base/Map/Keys.antt =====
-- How many different keys a map can have.
use Prim.Native.Nat.{ℕ, ◌<◌, ◌≤◌}
use mathlib.Core.Logic.{◌≢◌}
use mathlib.Core.List.{List, [], ◌∷◌}
use mathlib.Core.Option.{none}
use native.Mathlib.Omega.{arith}
use rpl.Base.Lists.{length, All}
use rpl.Base.Map.{find, erase}
use rpl.Base.Map.Laws.{find-erase}

abbrev pub Distinct : List ℕ → Type 0
Distinct [] = Unit {0}
Distinct (x ∷ xs) = All (λ y. y ≢ x) xs × Distinct xs

module _ {ℓ} {V : Type ℓ} where
  abbrev pub IsKey : List (ℕ × V) → ℕ → Type ℓ
  IsKey m k = find k m ≢ none

  length-erase_le : (k : ℕ) (m : List (ℕ × V)) → length (erase k m) ≤ length m
  unfolding erase
  length-erase_le k [] = omega arith
  length-erase_le k ((j, v) ∷ m) = ground (arith, length-erase_le k m)

  length-erase : (k : ℕ) (m : List (ℕ × V)) → IsKey m k → length (erase k m) < length m
  unfolding erase find
  length-erase k [] h = ground arith
  length-erase k ((j, v) ∷ m) h = ground (arith, length-erase k m, length-erase_le k m)

  keys-erase :
      (k : ℕ) (m : List (ℕ × V)) (xs : List ℕ)
      → All (λ y. y ≢ k) xs
      → All (IsKey m) xs
      → All (IsKey (erase k m)) xs
  keys-erase k m [] d h = tt
  keys-erase k m (x ∷ xs) d h = ground (arith, find-erase k x m, keys-erase k m xs d.1 h.1)

  -- Different keys are at most as many as the entries.
  pub Distinct-length :
      (xs : List ℕ) (m : List (ℕ × V)) → Distinct xs → All (IsKey m) xs → length xs ≤ length m
  Distinct-length [] m d h = omega arith
  Distinct-length (x ∷ xs) m d h =
      omega (
        arith,
        length-erase x m h.0,
        Distinct-length xs (erase x m) d.1 (keys-erase x m xs d.0 h.1),
      )
