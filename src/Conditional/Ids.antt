-- ===== src/Conditional/Ids.antt =====
-- Conditionals by their ids.
use umaa_cpp.Base.{
  ℕ, ◌≡◌, refl, Bool, true, false, ◌||◌, Option, none, some, List, [], ◌∷◌, ◌++◌, ◌==◌,
  if◌then◌else◌, arith, Bool-cases, inl, inr,
}
use umaa_cpp.Base.Sets.{Equality, has, add, remove}
use umaa_cpp.LargeSet.{SetElement}
use umaa_cpp.LargeSet.Writer.Elements.{values}
use umaa_cpp.Conditional.{ConditionalType, find_id}

module _ {P : Type 0} where
  abbrev pub has_id : ℕ → List (ConditionalType P) → Bool
  has_id id [] = false
  has_id id (c ∷ cs) = c.conditional_id == id || has_id id cs

  -- No two conditionals share an id.
  abbrev pub UniqueIds : List (ConditionalType P) → Type 0
  UniqueIds [] = Unit
  UniqueIds (c ∷ cs) = (has_id c.conditional_id cs ≡ false) × UniqueIds cs

  abbrev pub by_id : ℕ → List (ConditionalType P) → Option (ConditionalType P)
  by_id id [] = none
  by_id id (c ∷ cs) = if c.conditional_id == id then some c else by_id id cs

  pub find_id-values :
      (id : ℕ) (es : List (SetElement (ConditionalType P))) → find_id id es ≡ by_id id (values es)
  find_id-values id [] = refl
  find_id-values id (e ∷ es) = ground (arith, find_id-values id es)

  pub by_id-missing :
      (id : ℕ) (cs : List (ConditionalType P)) → by_id id cs ≡ none → has_id id cs ≡ false
  by_id-missing id [] h = refl
  by_id-missing id (c ∷ cs) h = ground (arith, by_id-missing id cs)

  by_id-snoc :
      (c : ConditionalType P) (cs : List (ConditionalType P))
      → has_id c.conditional_id cs ≡ false
      → by_id c.conditional_id (cs ++ c ∷ []) ≡ some c
  by_id-snoc c [] h = ground arith
  by_id-snoc c (d ∷ cs) h = ground (arith, by_id-snoc c cs)

  has_id-snoc :
      (id : ℕ) (c : ConditionalType P) (cs : List (ConditionalType P))
      → has_id id (cs ++ c ∷ []) ≡ has_id id cs || c.conditional_id == id
  has_id-snoc id c [] = ground arith
  has_id-snoc id c (d ∷ cs) = ground (arith, has_id-snoc id c cs)

  UniqueIds-snoc :
      (c : ConditionalType P) (cs : List (ConditionalType P))
      → has_id c.conditional_id cs ≡ false
      → UniqueIds cs
      → UniqueIds (cs ++ c ∷ [])
  UniqueIds-snoc c [] h u = (refl, tt)
  UniqueIds-snoc c (d ∷ cs) h u =
      (ground (arith, has_id-snoc d.conditional_id c cs), UniqueIds-snoc c cs (ground arith) u.1)

  module _ (q : Equality (ConditionalType P)) where
    pub by_id-found :
        (id : ℕ) (cs : List (ConditionalType P)) (c : ConditionalType P)
        → by_id id cs ≡ some c
        → (c.conditional_id ≡ id) × (has q c cs ≡ true)
    by_id-found id [] c h = absurd (cc)
    by_id-found id (d ∷ cs) c h = ground (arith, by_id-found id cs c, q.same_iff d c)

    has-has_id :
        (c : ConditionalType P) (cs : List (ConditionalType P))
        → has q c cs ≡ true
        → has_id c.conditional_id cs ≡ true
    has-has_id c [] h = cc
    has-has_id c (d ∷ cs) h = ground (arith, has-has_id c cs, q.same_iff d c)

    -- Conditionals of such a list with the same id are the same.
    pub same_by_id :
        (c d : ConditionalType P) (cs : List (ConditionalType P))
        → UniqueIds cs
        → has q c cs ≡ true
        → has q d cs ≡ true
        → c.conditional_id ≡ d.conditional_id
        → q.same c d ≡ true
    same_by_id c d [] u h k e = cc
    same_by_id c d (x ∷ cs) u h k e = ground (
      arith,
      same_by_id c d cs u.1,
      has-has_id c cs,
      has-has_id d cs,
      q.same_iff x c,
      q.same_iff x d,
      q.same_iff c d,
    )

    pub add-UniqueIds :
        (c : ConditionalType P) (cs : List (ConditionalType P))
        → has_id c.conditional_id cs ≡ false
        → UniqueIds cs
        → UniqueIds (add q c cs) × (by_id c.conditional_id (add q c cs) ≡ some c)
    add-UniqueIds c cs h u =
        let new : add q c cs ≡ cs ++ c ∷ [] = ground (arith, has-has_id c cs) in
        rw new (UniqueIds-snoc c cs h u, by_id-snoc c cs h)

    has_id-remove :
        (id : ℕ) (c : ConditionalType P) (cs : List (ConditionalType P))
        → has_id id cs ≡ false
        → has_id id (remove q c cs) ≡ false
    has_id-remove id c [] h = refl
    has_id-remove id c (d ∷ cs) h = ground (arith, has_id-remove id c cs)

    pub remove-UniqueIds :
        (c : ConditionalType P) (cs : List (ConditionalType P))
        → UniqueIds cs
        → UniqueIds (remove q c cs)
    remove-UniqueIds c [] u = tt
    remove-UniqueIds c (d ∷ cs) u = elim (Bool-cases (q.same d c)) [
      | inl h ↦ rw h (remove-UniqueIds c cs u.1)
      | inr h ↦ rw h (has_id-remove d.conditional_id c cs u.0, remove-UniqueIds c cs u.1)
    ]

    -- Without a conditional its id is gone.
    pub id_removed :
        (c : ConditionalType P) (cs : List (ConditionalType P))
        → UniqueIds cs
        → has q c cs ≡ true
        → has_id c.conditional_id (remove q c cs) ≡ false
    id_removed c [] u h = cc
    id_removed c (d ∷ cs) u h = ground (
      arith,
      id_removed c cs u.1,
      has_id-remove c.conditional_id c cs,
      has-has_id c cs,
      q.same_iff d c,
    )
