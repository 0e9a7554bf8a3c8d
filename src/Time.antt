-- ===== src/Time.antt =====
-- umaa/UmaaUtils.cpp: the order on UMAA time stamps. The fields are the signed numbers of
-- common/SystemClock.h; equality of the generated DateTime is that of its fields.
mod Examples
use umaa_cpp.Base.{
  ℕ, ◌+◌, ◌*◌, ◌<◌, ◌≡◌, ◌∙◌, sym, ap, ◌↔◌, ◌⊎◌, Bool, true, false, not, ◌&&◌, ◌||◌, arith, ◌==◌,
  if◌then◌else◌,
}
use umaa_cpp.Base.Int.{ℤ, pos_part, neg_part, ltb_ℤ, eq_of_parts}

pub record DateTime : Type 0 where
  pub seconds : ℤ
  pub nanoseconds : ℤ

abbrev eqb_ℤ : ℤ → ℤ → Bool
eqb_ℤ a b = pos_part a + neg_part b == pos_part b + neg_part a

unfoldable pub gt : DateTime → DateTime → Bool
gt lhs rhs =
    if ltb_ℤ rhs.seconds lhs.seconds
    then true
    else (if eqb_ℤ lhs.seconds rhs.seconds then ltb_ℤ rhs.nanoseconds lhs.nanoseconds else false)

unfoldable pub eq : DateTime → DateTime → Bool
eq lhs rhs = eqb_ℤ lhs.seconds rhs.seconds && eqb_ℤ lhs.nanoseconds rhs.nanoseconds

unfoldable pub ge : DateTime → DateTime → Bool
unfolding gt eq
ge lhs rhs = gt lhs rhs || eq lhs rhs

unfoldable pub lt : DateTime → DateTime → Bool
lt lhs rhs =
    if ltb_ℤ lhs.seconds rhs.seconds
    then true
    else (if eqb_ℤ lhs.seconds rhs.seconds then ltb_ℤ lhs.nanoseconds rhs.nanoseconds else false)

unfoldable pub le : DateTime → DateTime → Bool
unfolding lt eq
le lhs rhs = lt lhs rhs || eq lhs rhs

pub gt_irrefl : (a : DateTime) → gt a a ≡ false
unfolding gt
gt_irrefl a = ground arith

pub eq_iff : (a b : DateTime) → (eq a b ≡ true) ↔ (a ≡ b)
unfolding eq
eq_iff a b = (
  λ h. ground (arith, eq_of_parts a.seconds b.seconds, eq_of_parts a.nanoseconds b.nanoseconds),
  λ e. ground arith,
)

pub not-gt_trans : (a b c : DateTime) → gt a b ≡ false → gt b c ≡ false → gt a c ≡ false
unfolding gt
not-gt_trans a b c h k = ground arith

abbrev LtInt : ℤ → ℤ → Type 0
LtInt a b = pos_part a + neg_part b < pos_part b + neg_part a

-- The lexicographic order: the seconds decide, and the nanoseconds where they are the same.
abbrev pub Earlier : DateTime → DateTime → Type 0
Earlier a b =
    LtInt a.seconds b.seconds ⊎ ((a.seconds ≡ b.seconds) × LtInt a.nanoseconds b.nanoseconds)

gt-Earlier : (a b : DateTime) → (gt a b ≡ true) ↔ Earlier b a
unfolding gt
gt-Earlier a b = (λ h. ground (arith, h, eq_of_parts b.seconds a.seconds), λ h. ground (arith, h))

lt-gt : (a b : DateTime) → lt a b ≡ gt b a
unfolding lt gt
lt-gt a b = ground arith

ge-gt : (a b : DateTime) → ge a b ≡ not (gt b a)
unfolding ge gt eq
ge-gt a b = ground arith

le-gt : (a b : DateTime) → le a b ≡ not (gt a b)
unfolding le lt gt eq
le-gt a b = ground arith

neither_later : (a b : DateTime) → ((gt a b ≡ false) × (gt b a ≡ false)) ↔ (a ≡ b)
unfolding gt
neither_later a b = (
  λ (h, k).
      ground (arith, eq_of_parts a.seconds b.seconds, eq_of_parts a.nanoseconds b.nanoseconds),
  λ e. ground (arith, gt_irrefl a),
)

transitive : (a b c : DateTime) → (gt a b && gt b c && not (gt a c)) ≡ false
unfolding gt
transitive a b c = ground arith

-- The four operators are one total order, in which the seconds decide, and the nanoseconds where the
-- seconds are the same: `>` and `<` say just that one time stamp is later or earlier so, `>=` and
-- `<=` are the negations of `<` and `>`, no time stamps a > b > c lack a > c, and neither of two
-- time stamps is greater exactly when they are the same time stamp.
pub operators_agree :
    (a b c : DateTime)
    → ((gt a b ≡ true) ↔ Earlier b a)
      × ((lt a b ≡ true) ↔ Earlier a b)
      × (ge a b ≡ not (lt a b))
      × (le a b ≡ not (gt a b))
      × ((gt a b && gt b c && not (gt a c)) ≡ false)
      × (((gt a b ≡ false) × (gt b a ≡ false)) ↔ (a ≡ b))
operators_agree a b c = (
  gt-Earlier a b,
  rw (lt-gt a b) (gt-Earlier b a),
  ge-gt a b ∙ ap not (sym (lt-gt a b)),
  le-gt a b,
  transitive a b c,
  neither_later a b,
)

-- The nanoseconds of a normal time stamp.
abbrev pub nano : DateTime → ℕ
nano t = pos_part t.nanoseconds

abbrev pub IsNormal : DateTime → Type 0
IsNormal t = (neg_part t.nanoseconds ≡ 0) × (pos_part t.nanoseconds < 1_000_000_000)

-- For time stamps with 0 <= nanoseconds < 10^9, `>` compares the total counts of nanoseconds.
gt_iff_later :
    (a b : DateTime)
    → IsNormal a
    → IsNormal b
    → (gt a b ≡ true) ↔ (
        pos_part b.seconds * 1_000_000_000 + nano b + neg_part a.seconds * 1_000_000_000
        < pos_part a.seconds * 1_000_000_000 + nano a + neg_part b.seconds * 1_000_000_000)
unfolding gt
gt_iff_later a b h k = ground arith
