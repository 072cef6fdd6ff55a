-- ===== src/Base/Map/Laws.antt =====
-- What a map answers after each change, and that its order is kept.
use Prim.Native.Nat.{ℕ, ◌<◌, ◌≤◌}
use mathlib.Core.Path.{◌≡◌, refl}
use mathlib.Core.Bool.{Bool}
use mathlib.Core.Option.{Option, none, some}
use mathlib.Core.List.{List, [], ◌∷◌}
use native.Mathlib.Omega.{arith}
use rpl.Base.Tests.{◌==◌, if◌then◌else◌}
use rpl.Base.Lists.{length}
use rpl.Base.Map.{find, insert, erase, keep}

module _ {ℓ} {V : Type ℓ} where
  pub find-insert :
      (k j : ℕ) (v : V) (m : List (ℕ × V))
      → find j (insert k v m) ≡ (if k == j then some v else find j m)
  unfolding find insert
  find-insert k j v [] = refl
  find-insert k j v ((i, w) ∷ m) = ground (arith, find-insert k j v m)

  pub find-erase :
      (k j : ℕ) (m : List (ℕ × V)) → find j (erase k m) ≡ (if k == j then none else find j m)
  unfolding find erase
  find-erase k j [] = ground arith
  find-erase k j ((i, w) ∷ m) = ground (arith, find-erase k j m)

  -- Ascending keys, all of them above `lo`.
  abbrev pub Above : ℕ → List (ℕ × V) → Type 0
  Above lo [] = Unit {0}
  Above lo ((j, w) ∷ m) = (lo < j) × Above j m

  abbrev pub IsSorted : List (ℕ × V) → Type 0
  IsSorted [] = Unit {0}
  IsSorted ((j, w) ∷ m) = Above j m

  Above-weaken : (lo hi : ℕ) (m : List (ℕ × V)) → lo ≤ hi → Above hi m → Above lo m
  Above-weaken lo hi [] h s = tt
  Above-weaken lo hi ((j, w) ∷ m) h s = (omega arith, s.1)

  pub IsSorted-of : (j : ℕ) (m : List (ℕ × V)) → Above j m → IsSorted m
  IsSorted-of j [] s = tt
  IsSorted-of j ((i, w) ∷ m) s = s.1

  insert-Above :
      (lo k : ℕ) (v : V) (m : List (ℕ × V)) → lo < k → Above lo m → Above lo (insert k v m)
  unfolding insert
  insert-Above lo k v [] h s = (h, tt)
  insert-Above lo k v ((j, w) ∷ m) h s = ground (arith, insert-Above j k v m)

  erase-Above : (lo k : ℕ) (m : List (ℕ × V)) → Above lo m → Above lo (erase k m)
  unfolding erase
  erase-Above lo k [] s = tt
  erase-Above lo k ((j, w) ∷ m) s = ground (arith, erase-Above j k m, Above-weaken lo j (erase k m))

  keep-Above : (lo : ℕ) (p : V → Bool) (m : List (ℕ × V)) → Above lo m → Above lo (keep p m)
  unfolding keep
  keep-Above lo p [] s = tt
  keep-Above lo p ((j, w) ∷ m) s = ground (arith, keep-Above j p m, Above-weaken lo j (keep p m))

  pub find-Above : (lo k : ℕ) (m : List (ℕ × V)) → Above lo m → k ≤ lo → find k m ≡ none
  unfolding find
  find-Above lo k [] s h = refl
  find-Above lo k ((j, w) ∷ m) s h = ground (arith, find-Above j k m)

  abbrev pub checked : (V → Bool) → Option V → Option V
  checked p none = none
  checked p (some v) = if p v then some v else none

  -- In a sorted map the entries that pass the test are found as before, and the others are gone.
  pub find-keep :
      (p : V → Bool) (k : ℕ) (m : List (ℕ × V))
      → IsSorted m
      → find k (keep p m) ≡ checked p (find k m)
  unfolding find keep
  find-keep p k [] s = refl
  find-keep p k ((j, w) ∷ m) s =
      ground
        (arith, find-keep p k m (IsSorted-of j m s), find-Above j k (keep p m) (keep-Above j p m s))

  pub insert-IsSorted : (k : ℕ) (v : V) (m : List (ℕ × V)) → IsSorted m → IsSorted (insert k v m)
  unfolding insert
  insert-IsSorted k v [] s = tt
  insert-IsSorted k v ((j, w) ∷ m) s = ground (arith, insert-Above j k v m)

  pub erase-IsSorted : (k : ℕ) (m : List (ℕ × V)) → IsSorted m → IsSorted (erase k m)
  unfolding erase
  erase-IsSorted k [] s = tt
  erase-IsSorted k ((j, w) ∷ m) s = ground (arith, erase-Above j k m s, IsSorted-of j (erase k m))

  pub length-keep : (p : V → Bool) (m : List (ℕ × V)) → length (keep p m) ≤ length m
  unfolding keep
  length-keep p [] = omega arith
  length-keep p ((j, w) ∷ m) = ground (arith, length-keep p m)
