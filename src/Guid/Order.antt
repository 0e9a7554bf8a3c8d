-- ===== src/Guid/Order.antt =====
-- The order on GUIDs is that of the numbers that they spell.
use umaa_cpp.Base.{ℕ, ◌+◌, ◌*◌, ◌<◌, ◌≡◌, refl, not, [], ◌∷◌, ltb, ◌==◌, length, All, arith, ap}
use umaa_cpp.Guid.{Guid, IsGuid, same_bytes, bytes_before, eq, ne, lt, gt, le, ge}

-- The weight of the first byte of a list that `bytes` follow.
abbrev weight : Guid → ℕ
weight [] = 1
weight (b ∷ bytes) = 256 * weight bytes

-- The number that the bytes spell, the first of them the highest.
abbrev pub number : Guid → ℕ
number [] = 0
number (b ∷ bytes) = b * weight bytes + number bytes

number_lt : (g : Guid) → All (λ b. b < 256) g → number g < weight g
number_lt [] a = omega arith
number_lt (b ∷ g) a = grind (arith, number_lt g a.1)

weight_same : (a b : Guid) → length a ≡ length b → weight a ≡ weight b
weight_same [] [] e = refl
weight_same [] (y ∷ b) e = absurd (omega (arith, e))
weight_same (x ∷ a) [] e = absurd (omega (arith, e))
weight_same (x ∷ a) (y ∷ b) e = omega (arith, weight_same a b (omega (arith, e)))

-- A smaller first byte decides.
first_lt : (x y w p r : ℕ) → x < y → p < w → x * w + p < y * w + r
first_lt x y w p r l h = grind arith

same_first : (x w p r : ℕ) → ltb (x * w + p) (x * w + r) ≡ ltb p r
same_first x w p r = ground arith

first_eq : (x y w p r : ℕ) → p < w → r < w → x * w + p ≡ y * w + r → (x ≡ y) × (p ≡ r)
first_eq x y w p r l m e =
    let same : x ≡ y = ground (arith, first_lt x y w p r, first_lt y x w r p) in
    (same, ground (arith, e, same))

before_lem :
    (a b : Guid)
    → length a ≡ length b
    → All (λ x. x < 256) a
    → All (λ x. x < 256) b
    → bytes_before a b ≡ ltb (number a) (number b)
before_lem [] [] e h k = refl
before_lem [] (y ∷ b) e h k = absurd (omega (arith, e))
before_lem (x ∷ a) [] e h k = absurd (omega (arith, e))
before_lem (x ∷ a) (y ∷ b) e h k =
    let rest = before_lem a b (omega (arith, e)) h.1 k.1 in
    let w = weight_same a b (omega (arith, e)) in
    ground (
      arith,
      rest,
      w,
      number_lt a h.1,
      number_lt b k.1,
      first_lt x y (weight b) (number a) (number b),
      first_lt y x (weight b) (number b) (number a),
    )

same_lem :
    (a b : Guid)
    → length a ≡ length b
    → All (λ x. x < 256) a
    → All (λ x. x < 256) b
    → same_bytes a b ≡ (number a == number b)
same_lem [] [] e h k = refl
same_lem [] (y ∷ b) e h k = absurd (omega (arith, e))
same_lem (x ∷ a) [] e h k = absurd (omega (arith, e))
same_lem (x ∷ a) (y ∷ b) e h k =
    let rest = same_lem a b (omega (arith, e)) h.1 k.1 in
    let w = weight_same a b (omega (arith, e)) in
    ground (
      arith,
      rest,
      w,
      number_lt a h.1,
      number_lt b k.1,
      first_eq x y (weight b) (number a) (number b),
    )

-- On GUIDs the six operators compare the numbers that the bytes spell, the first byte the highest,
-- and GUIDs with the same number are the same.
pub order_is_numeric :
    (a b : Guid)
    → IsGuid a
    → IsGuid b
    → (lt a b ≡ ltb (number a) (number b))
      × (gt a b ≡ ltb (number b) (number a))
      × (le a b ≡ not (ltb (number b) (number a)))
      × (ge a b ≡ not (ltb (number a) (number b)))
      × (eq a b ≡ (number a == number b))
      × (ne a b ≡ not (number a == number b))
unfolding lt gt le ge eq ne
order_is_numeric a b (n, h) (m, k) =
    let same : length a ≡ length b = omega (arith, n, m) in
    let before = before_lem a b same h k in
    let after = before_lem b a (omega (arith, same)) k h in
    let equal = same_lem a b same h k in
    (before, after, ap not after, ap not before, equal, ap not equal)
