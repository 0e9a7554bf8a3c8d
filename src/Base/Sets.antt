-- ===== src/Base/Sets.antt =====
-- std::unordered_set, as the list of its items without repetition, and equality of their type.
use Prim.Native.Nat.{ℕ, suc, ◌≤◌}
use mathlib.Core.Path.{◌≡◌, refl}
use mathlib.Core.Logic.{◌↔◌, inl, inr}
use mathlib.Core.Bool.{Bool, true, false, ◌||◌}
use mathlib.Core.List.{List, [], ◌∷◌, ◌++◌}
use native.Mathlib.Omega.{arith}
use umaa_cpp.Base.Tests.{if◌then◌else◌, Bool-cases, ◌==◌, ==_iff}
use umaa_cpp.Base.Lists.{length}

-- The `==` of a generated message type: that of its fields.
pub record Equality (A : Type 0) : Type 0 where
  pub same : A → A → Bool
  pub same_iff : (a b : A) → (same a b ≡ true) ↔ (a ≡ b)

module _ {A : Type 0} (q : Equality A) where
  open q use {same}

  abbrev pub has : A → List A → Bool
  has x [] = false
  has x (y ∷ ys) = same y x || has x ys

  abbrev pub add : A → List A → List A
  add x xs = if has x xs then xs else xs ++ x ∷ []

  abbrev pub remove : A → List A → List A
  remove x [] = []
  remove x (y ∷ ys) = if same y x then remove x ys else y ∷ remove x ys

  abbrev pub Distinct : List A → Type 0
  Distinct [] = Unit
  Distinct (x ∷ xs) = (has x xs ≡ false) × Distinct xs

  abbrev pub Within : List A → List A → Type 0
  Within xs ys = (x : A) → has x xs ≡ true → has x ys ≡ true

  -- The same members, in whatever order and number.
  abbrev pub SameMembers : List A → List A → Type 0
  SameMembers xs ys = (x : A) → has x xs ≡ has x ys

  pub has-append : (x : A) (xs ys : List A) → has x (xs ++ ys) ≡ has x xs || has x ys
  has-append x [] ys = refl
  has-append x (y ∷ xs) ys = ground (arith, has-append x xs ys)

  pub has-remove :
      (x y : A) (xs : List A) → has x (remove y xs) ≡ (if same x y then false else has x xs)
  has-remove x y [] = ground arith
  has-remove x y (z ∷ zs) =
      ground (arith, has-remove x y zs, q.same_iff z y, q.same_iff z x, q.same_iff x y)

  pub has-add : (x y : A) (xs : List A) → has x (add y xs) ≡ has x xs || same y x
  has-add x y xs = ground (arith, has-append x xs (y ∷ []), q.same_iff y x)

  pub Distinct-snoc :
      (y : A) (xs : List A) → has y xs ≡ false → Distinct xs → Distinct (xs ++ y ∷ [])
  Distinct-snoc y [] h d = (refl, tt)
  Distinct-snoc y (x ∷ xs) h d = (
    ground (arith, has-append x xs (y ∷ []), q.same_iff y x, q.same_iff x y),
    Distinct-snoc y xs (ground arith) d.1,
  )

  pub Distinct-add : (y : A) (xs : List A) → Distinct xs → Distinct (add y xs)
  Distinct-add y xs d = elim (Bool-cases (has y xs)) [
    | inl h ↦ rw h d
    | inr h ↦ rw h (Distinct-snoc y xs h d)
  ]

  pub remove_absent : (y : A) (xs : List A) → has y xs ≡ false → remove y xs ≡ xs
  remove_absent y [] h = refl
  remove_absent y (x ∷ xs) h = ground (arith, remove_absent y xs)

  length-remove :
      (y : A) (xs : List A) → Distinct xs → has y xs ≡ true → suc (length (remove y xs)) ≡ length xs
  length-remove y [] d h = ground arith
  length-remove y (x ∷ xs) d h =
      ground (arith, length-remove y xs d.1, remove_absent y xs, q.same_iff x y)

  pub Distinct-remove : (y : A) (xs : List A) → Distinct xs → Distinct (remove y xs)
  Distinct-remove y [] d = tt
  Distinct-remove y (x ∷ xs) d = elim (Bool-cases (same x y)) [
    | inl h ↦ rw h (Distinct-remove y xs d.1)
    | inr h ↦ rw h (ground (arith, has-remove x y xs), Distinct-remove y xs d.1)
  ]

  Within-length :
      (xs ys : List A) → Distinct xs → Distinct ys → Within xs ys → length xs ≤ length ys
  Within-length [] ys d e w = omega arith
  Within-length (x ∷ xs) ys d e w =
      let here = w x (ground (arith, q.same_iff x x)) in
      let rest =
        Within-length xs (remove x ys) d.1 (Distinct-remove x ys e)
          (λ z h. ground (arith, w z, has-remove z x ys, q.same_iff x z, q.same_iff z x)) in
      omega (arith, rest, length-remove x ys e here)

  -- The number of items of a set does not depend on their order.
  pub SameMembers-length :
      (xs ys : List A) → Distinct xs → Distinct ys → SameMembers xs ys → length xs ≡ length ys
  SameMembers-length xs ys d e m =
      let le = Within-length xs ys d e (λ x h. ground (arith, m x)) in
      let ge = Within-length ys xs e d (λ x h. ground (arith, m x)) in omega (arith, le, ge)

abbrev pub number_equality : Equality ℕ
number_equality = record { same = λ a b. a == b; same_iff = ==_iff }
