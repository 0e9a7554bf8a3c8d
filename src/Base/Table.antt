-- ===== src/Base/Table.antt =====
-- std::map with numbers for keys, as the list of its entries in the order of the keys.
use Prim.Native.Nat.{ℕ, suc, ◌≤◌, ◌<◌}
use mathlib.Core.Path.{◌≡◌, refl}
use mathlib.Core.Bool.{Bool, false, ◌||◌}
use mathlib.Core.List.{List, [], ◌∷◌, ◌++◌}
use mathlib.Core.Option.{Option, none, some}
use native.Mathlib.Omega.{arith}
use umaa_cpp.Base.Tests.{ltb, ◌==◌, if◌then◌else◌}
use umaa_cpp.Base.Lists.{length}

abbrev pub contains : ℕ → List ℕ → Bool
contains k [] = false
contains k (j ∷ js) = j == k || contains k js

abbrev pub NoRepeat : List ℕ → Type 0
NoRepeat [] = Unit
NoRepeat (k ∷ ks) = (contains k ks ≡ false) × NoRepeat ks

module _ {ℓ} {V : Type ℓ} where
  abbrev pub lookup : ℕ → List (ℕ × V) → Option V
  lookup k [] = none
  lookup k ((j, v) ∷ m) = if j == k then some v else lookup k m

  -- insert_or_assign, and `m[k] = v`.
  abbrev pub insert : ℕ → V → List (ℕ × V) → List (ℕ × V)
  insert k v [] = (k, v) ∷ []
  insert k v ((j, w) ∷ m) =
      if j == k
      then (k, v) ∷ m
      else (if ltb k j then (k, v) ∷ (j, w) ∷ m else (j, w) ∷ insert k v m)

  abbrev pub erase : ℕ → List (ℕ × V) → List (ℕ × V)
  erase k [] = []
  erase k ((j, w) ∷ m) = if j == k then erase k m else (j, w) ∷ erase k m

  pub lookup-insert :
      (k j : ℕ) (v : V) (m : List (ℕ × V))
      → lookup j (insert k v m) ≡ (if k == j then some v else lookup j m)
  lookup-insert k j v [] = refl
  lookup-insert k j v ((i, w) ∷ m) = ground (arith, lookup-insert k j v m)

  pub lookup-erase :
      (k j : ℕ) (m : List (ℕ × V)) → lookup j (erase k m) ≡ (if k == j then none else lookup j m)
  lookup-erase k j [] = ground arith
  lookup-erase k j ((i, w) ∷ m) = ground (arith, lookup-erase k j m)

  -- The entries whose key is not among `visited`.
  abbrev pub unvisited : List (ℕ × V) → List ℕ → ℕ
  unvisited [] visited = 0
  unvisited ((k, v) ∷ m) visited =
      if contains k visited then unvisited m visited else suc (unvisited m visited)

  pub unvisited-nil : (m : List (ℕ × V)) → unvisited m [] ≡ length m
  unvisited-nil [] = refl
  unvisited-nil ((k, v) ∷ m) = omega (arith, unvisited-nil m)

  pub unvisited-le :
      (k : ℕ) (m : List (ℕ × V)) (visited : List ℕ)
      → unvisited m (k ∷ visited) ≤ unvisited m visited
  unvisited-le k [] visited = omega arith
  unvisited-le k ((j, v) ∷ m) visited = ground (arith, unvisited-le k m visited)

  pub unvisited-lt :
      (k : ℕ) (m : List (ℕ × V)) (visited : List ℕ) (v : V)
      → lookup k m ≡ some v
      → contains k visited ≡ false
      → unvisited m (k ∷ visited) < unvisited m visited
  unvisited-lt k [] visited v h n = ground arith
  unvisited-lt k ((j, w) ∷ m) visited v h n =
      ground (arith, unvisited-lt k m visited v, unvisited-le k m visited)

pub contains-append :
    (k : ℕ) (is js : List ℕ) → contains k (is ++ js) ≡ contains k is || contains k js
contains-append k [] js = refl
contains-append k (i ∷ is) js = ground (arith, contains-append k is js)
