-- ===== src/RingBuffer/Items.antt =====
-- Lists indexed by numbers: what a write, an item at the end and a dropped item do to an index.
use mathlib.Core.List.{tail}
use umaa_cpp.Base.{
  ℕ, zero, suc, ◌-◌, ◌<◌, ◌≤◌, ◌≡◌, refl, ap, none, some, List, [], ◌∷◌, ◌++◌, length, get_elem?,
  set, replicate, ◌==◌, if◌then◌else◌, arith,
}

module _ {A : Type 0} where
  pub get_elem?-set :
      (xs : List A) (i j : ℕ) (v : A)
      → i < length xs
      → get_elem? (set xs i v) j ≡ (if i == j then some v else get_elem? xs j)
  get_elem?-set [] i j v h = absurd (omega (arith, h))
  get_elem?-set (x ∷ xs) zero zero v h = refl
  get_elem?-set (x ∷ xs) zero (suc j) v h = ground arith
  get_elem?-set (x ∷ xs) (suc i) zero v h = ground arith
  get_elem?-set (x ∷ xs) (suc i) (suc j) v h =
      ground (arith, get_elem?-set xs i j v (omega (arith, h)))

  pub get_elem?-push :
      (xs : List A) (k : ℕ) (v : A)
      → k ≤ length xs
      → get_elem? (xs ++ (v ∷ [])) k ≡ (if k == length xs then some v else get_elem? xs k)
  get_elem?-push [] k v h = ground arith
  get_elem?-push (x ∷ xs) zero v h = ground arith
  get_elem?-push (x ∷ xs) (suc k) v h = ground (arith, get_elem?-push xs k v (omega (arith, h)))

  pub get_elem?-over : (xs : List A) (k : ℕ) → length xs ≤ k → get_elem? xs k ≡ none
  get_elem?-over [] k h = refl
  get_elem?-over (x ∷ xs) zero h = absurd (omega (arith, h))
  get_elem?-over (x ∷ xs) (suc k) h = get_elem?-over xs k (omega (arith, h))

  pub get_elem?-tail : (xs : List A) (k : ℕ) → get_elem? (tail xs) k ≡ get_elem? xs (suc k)
  get_elem?-tail [] k = refl
  get_elem?-tail (x ∷ xs) k = refl

  pub length-tail : (xs : List A) → length (tail xs) ≡ length xs - 1
  length-tail [] = refl
  length-tail (x ∷ xs) = omega arith

  pub length-replicate : (n : ℕ) (v : A) → length (replicate n v) ≡ n
  length-replicate zero v = refl
  length-replicate (suc n) v = ap suc (length-replicate n v)
