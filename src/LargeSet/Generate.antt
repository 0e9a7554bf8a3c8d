-- ===== src/LargeSet/Generate.antt =====
-- What `generateSet` and `receive` return, and the cache of LargeSet.h.
use umaa_cpp.Base.{
  ℕ, ◌≡◌, ◌≢◌, ◌↔◌, refl, sym, ◌∙◌, Bool, true, false, ◌||◌, Option, none, some, List, [], ◌∷◌,
  length, arith, inl, inr, Bool-cases, Option-cases, ◌==◌, if◌then◌else◌,
}
use mathlib.Core.Option.{some-injective}
use mathlib.Core.Path.{subst}
use umaa_cpp.Base.Sets.{
  Equality, has, add, Distinct, SameMembers, has-add, Distinct-add, SameMembers-length,
}
use umaa_cpp.Time.{DateTime}
use umaa_cpp.LargeList.{is_late}
use umaa_cpp.LargeSet.{
  SetElement, LargeSetResult, valid_set, empty_set, invalid_set, LargeSetStatus, LargeSet,
  receive_element, dispose, collect, generate_set,
}

module _ {E : Type 0} where
  -- The elements that a table holds, in the order of their ids.
  abbrev pub values : List (ℕ × SetElement E) → List E
  values [] = []
  values ((id, e) ∷ table) = e.element ∷ values table

  abbrev pub any_late : Option DateTime → List (ℕ × SetElement E) → Bool
  any_late limit [] = false
  any_late limit ((id, e) ∷ table) = is_late limit e.element_timestamp || any_late limit table

module _ {E : Type 0} (q : Equality E) where
  -- What the loop does: it stops at an element that is late, and otherwise has inserted the elements
  -- of the table and nothing else, each once.
  collect_late :
      (limit : Option DateTime) (table : List (ℕ × SetElement E)) (set : List E)
      → (collect q limit table set ≡ none) ↔ (any_late limit table ≡ true)
  unfolding collect
  collect_late limit [] set = (λ h. cc, λ h. cc)
  collect_late limit ((id, e) ∷ table) set =
      ground (arith, collect_late limit table (add q e.element set))

  -- The set `xs` has the members of `set` and the elements of the table.
  abbrev Collected : List E → List (ℕ × SetElement E) → List E → Type 0
  Collected set table xs =
      Distinct q xs × ((x : E) → has q x xs ≡ has q x set || has q x (values table))

  collect-Collected :
      (limit : Option DateTime) (table : List (ℕ × SetElement E)) (set xs : List E)
      → Distinct q set
      → collect q limit table set ≡ some xs
      → Collected set table xs
  unfolding collect
  collect-Collected limit [] set xs d h =
      subst (Collected set []) (some-injective _ _ h) (d, λ x. ground arith)
  collect-Collected limit ((id, e) ∷ table) set xs d h =
      let (d', m) =
        collect-Collected limit table (add q e.element set) xs (Distinct-add q e.element set d)
          (ground (arith, h)) in
      (d', λ x. ground (arith, m x, has-add q x e.element set))

  -- A result with a set says VALID_SET and has just the members of `vs`, each once; one without says
  -- something else.
  abbrev pub Holds : List E → LargeSetResult E → Type 0
  Holds vs r = elim r.set [
    | none ↦ r.status ≢ valid_set
    | some xs ↦ (r.status ≡ valid_set) × Distinct q xs × SameMembers q xs vs
  ]

  -- What `generateSet` has to report when the different elements of the table are `vs`.
  abbrev pub status_of : LargeSet E → List E → LargeSetStatus
  status_of l vs =
      if l.latest_metadata.size == 0
      then empty_set
      else (if any_late l.latest_metadata.update_element_timestamp l.element_table
          then invalid_set
          else (if length vs == l.latest_metadata.size then valid_set else invalid_set))

  module _ (l : LargeSet E) where
    abbrev collected : Option (List E)
    collected = collect q l.latest_metadata.update_element_timestamp l.element_table []

    collected-Holds :
        (vs xs : List E)
        → Distinct q vs
        → SameMembers q vs (values l.element_table)
        → collected ≡ some xs
        → Distinct q xs × SameMembers q xs vs × (length xs ≡ length vs)
    collected-Holds vs xs d m h =
        let (d', m') =
          collect-Collected l.latest_metadata.update_element_timestamp l.element_table [] xs tt h in
        let same : SameMembers q xs vs = λ x. m' x ∙ sym (m x) in
        (d', same, SameMembers-length q xs vs d' d same)

    -- For any listing `vs` of the different elements that the table holds, in whatever order:
    -- `generateSet` reports EMPTY_SET when the metadata states the size 0; INVALID_SET when some
    -- element is newer than the metadata or the number of different elements is not the stated size;
    -- and else VALID_SET. In the last case alone it returns a set, which has just the members of `vs`.
    pub generate_set_report :
        (vs : List E)
        → Distinct q vs
        → SameMembers q vs (values l.element_table)
        → ((generate_set q l).0.status ≡ status_of l vs) × Holds vs (generate_set q l).0
    unfolding generate_set
    generate_set_report vs d m = elim (Bool-cases (l.latest_metadata.size == 0)) [
      | inl z ↦ (ground (arith, z), rw z (λ e. cc))
      | inr z ↦ elim (Option-cases collected) [
        | inl h ↦ (
          ground (
            arith,
            z,
            collect_late l.latest_metadata.update_element_timestamp l.element_table [],
          ),
          rw (z, h) (λ e. cc),
        )
        | inr (xs, h) ↦
            let (d', same, size) = collected-Holds vs xs d m h in
            let late = collect_late l.latest_metadata.update_element_timestamp l.element_table [] in
            elim (Bool-cases (length xs == l.latest_metadata.size)) [
              | inl k ↦ (ground (arith, z, h, k, size, late), rw (z, h, k) (refl, d', same))
              | inr k ↦ (ground (arith, z, h, k, size, late), rw (z, h, k) (λ e. cc))
            ]
      ]
    ]

-- An element message.
pub data Sample (E : Type 0) : Type 0 where
  alive disposed : SetElement E → Sample E

module _ {E : Type 0} where
  unfoldable pub accept : LargeSet E → Sample E → LargeSet E
  unfolding receive_element dispose
  accept l (alive e) = (receive_element l e).1
  accept l (disposed e) = (dispose l e).1

  unfoldable pub accept_all : LargeSet E → List (Sample E) → LargeSet E
  unfolding accept
  accept_all l [] = l
  accept_all l (s ∷ ss) = accept_all (accept l s) ss
