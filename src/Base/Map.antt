-- ===== src/Base/Map.antt =====
-- A `HashMap` with keys that are numbers, as an association list: at most one entry for a key, as
-- `insert` keeps it. The order of the entries is not the program's.
use Prim.Native.Nat.{ℕ, ◌+◌, ◌≤◌}
use mathlib.Core.Path.{◌≡◌, refl}
use mathlib.Core.Bool.{Bool, false}
use mathlib.Core.Option.{Option, none, some}
use mathlib.Core.List.{List, [], ◌∷◌}
use native.Mathlib.Omega.{arith}
use yuri.Base.Tests.{◌==◌, if◌then◌else◌}
use yuri.Base.Lists.{length}

module _ {ℓ} {V : Type ℓ} where
  unfoldable pub lookup : ℕ → List (ℕ × V) → Option V
  lookup k [] = none
  lookup k ((key, val) ∷ rest) = if key == k then some val else lookup k rest

  unfoldable pub insert : ℕ → V → List (ℕ × V) → List (ℕ × V)
  insert k v [] = (k, v) ∷ []
  insert k v ((key, old) ∷ rest) =
      if key == k then (key, v) ∷ rest else (key, old) ∷ insert k v rest

  unfoldable pub remove : ℕ → List (ℕ × V) → List (ℕ × V)
  remove k [] = []
  remove k ((j, w) ∷ m) = if j == k then m else (j, w) ∷ remove k m

  -- `retain`, by a test on the value.
  unfoldable pub retain : (V → Bool) → List (ℕ × V) → List (ℕ × V)
  retain keep [] = []
  retain keep ((j, w) ∷ m) = if keep w then (j, w) ∷ retain keep m else retain keep m

  -- No key stands twice.
  abbrev pub Distinct : List (ℕ × V) → Type ℓ
  Distinct [] = Unit
  Distinct ((j, w) ∷ m) = (lookup j m ≡ none) × Distinct m

  -- What was put in under a key is found under it, and nothing else changes.
  pub lookup-insert :
      (k other : ℕ) (v : V) (m : List (ℕ × V))
      → lookup other (insert k v m) ≡ (if k == other then some v else lookup other m)
  unfolding insert lookup
  lookup-insert k other v [] = refl
  lookup-insert k other v (e ∷ rest) = ground (arith, lookup-insert k other v rest)

  pub insert-Distinct : (k : ℕ) (v : V) (m : List (ℕ × V)) → Distinct m → Distinct (insert k v m)
  unfolding lookup insert
  insert-Distinct k v [] d = (refl, tt)
  insert-Distinct k v ((j, w) ∷ m) d =
      ground (arith, insert-Distinct k v m d.1, lookup-insert k j v m)

  pub lookup-retain-none :
      (keep : V → Bool) (k : ℕ) (m : List (ℕ × V))
      → lookup k m ≡ none
      → lookup k (retain keep m) ≡ none
  unfolding lookup retain
  lookup-retain-none keep k [] h = refl
  lookup-retain-none keep k ((j, w) ∷ m) h = ground (arith, lookup-retain-none keep k m)

  pub retain-Distinct : (keep : V → Bool) (m : List (ℕ × V)) → Distinct m → Distinct (retain keep m)
  unfolding retain
  retain-Distinct keep [] d = tt
  retain-Distinct keep ((j, w) ∷ m) d =
      ground (arith, retain-Distinct keep m d.1, lookup-retain-none keep j m d.0)

  -- An entry is kept if it passes the test.
  abbrev pub filtered : (V → Bool) → Option V → Option V
  filtered keep none = none
  filtered keep (some v) = if keep v then some v else none

  pub lookup-retain :
      (keep : V → Bool) (k : ℕ) (m : List (ℕ × V))
      → Distinct m
      → lookup k (retain keep m) ≡ filtered keep (lookup k m)
  unfolding lookup retain
  lookup-retain keep k [] d = refl
  lookup-retain keep k ((j, w) ∷ m) d =
      ground (arith, lookup-retain keep k m d.1, lookup-retain-none keep k m)

  pub length-insert : (k : ℕ) (v : V) (m : List (ℕ × V)) → length (insert k v m) ≤ length m + 1
  unfolding insert
  length-insert k v [] = omega arith
  length-insert k v ((j, t) ∷ m) = ground (arith, length-insert k v m)

  pub length-remove : (k : ℕ) (m : List (ℕ × V)) → length (remove k m) ≤ length m
  unfolding remove
  length-remove k [] = omega arith
  length-remove k ((j, t) ∷ m) = ground (arith, length-remove k m)

  -- Removing a key leaves the others, and adds none.
  pub lookup-remove_ne :
      (k other : ℕ) (m : List (ℕ × V))
      → (k == other) ≡ false
      → lookup other (remove k m) ≡ lookup other m
  unfolding lookup remove
  lookup-remove_ne k other [] h = refl
  lookup-remove_ne k other ((j, w) ∷ m) h = ground (arith, h, lookup-remove_ne k other m h)

  pub lookup-remove-none :
      (k other : ℕ) (m : List (ℕ × V)) → lookup other m ≡ none → lookup other (remove k m) ≡ none
  unfolding lookup remove
  lookup-remove-none k other [] h = refl
  lookup-remove-none k other ((j, w) ∷ m) h = ground (arith, h, lookup-remove-none k other m)
