-- ===== src/LargeSet/Writer/Elements.antt =====
-- The writer's list of elements: by value, by id, and without one of its values.
use umaa_cpp.Base.{
  ℕ, ◌≡◌, refl, sym, ◌∙◌, ap, subst, true, false, ◌||◌, none, some, List, [], ◌∷◌, ◌++◌, arith,
  ◌==◌, if◌then◌else◌, is_some, All, Bool-cases, inl, inr,
}
use mathlib.Core.Option.{some-injective}
use umaa_cpp.Base.Table.{contains, NoRepeat}
use umaa_cpp.Base.Sets.{Equality, has, add, remove as take_out, Distinct, remove_absent}
use umaa_cpp.LargeSet.{SetElement}
use umaa_cpp.LargeSet.Writer.{
  element_equality, same_element, same_element_iff, find, erase, emplace, assign,
}
use umaa_cpp.LargeSet.Writer.Ids.{ids, find_id}

module _ {E : Type 0} where
  abbrev pub values : List (SetElement E) → List E
  values [] = []
  values (e ∷ es) = e.element ∷ values es

  -- The table of a list of elements.
  abbrev pub by_value : List (SetElement E) → List (E × SetElement E)
  by_value [] = []
  by_value (e ∷ es) = (e.element, e) ∷ by_value es

  contains-snoc :
      (k : ℕ) (e : SetElement E) (es : List (SetElement E))
      → contains k (ids (es ++ e ∷ [])) ≡ contains k (ids es) || e.element_id == k
  contains-snoc k e [] = ground arith
  contains-snoc k e (f ∷ es) = ground (arith, contains-snoc k e es)

  pub NoRepeat-snoc :
      (e : SetElement E) (es : List (SetElement E))
      → contains e.element_id (ids es) ≡ false
      → NoRepeat (ids es)
      → NoRepeat (ids (es ++ e ∷ []))
  NoRepeat-snoc e [] h n = (refl, tt)
  NoRepeat-snoc e (f ∷ es) h n =
      (ground (arith, contains-snoc f.element_id e es), NoRepeat-snoc e es (ground arith) n.1)

  pub find_id-snoc :
      (k : ℕ) (e : SetElement E) (es : List (SetElement E))
      → contains e.element_id (ids es) ≡ false
      → find_id k (es ++ e ∷ []) ≡ (if e.element_id == k then some e else find_id k es)
  find_id-snoc k e [] h = refl
  find_id-snoc k e (f ∷ es) h = ground (arith, find_id-snoc k e es)

  absent_id : (k : ℕ) (es : List (SetElement E)) → contains k (ids es) ≡ false → find_id k es ≡ none
  absent_id k [] h = refl
  absent_id k (e ∷ es) h = ground (arith, absent_id k es)

  pub All-snoc :
      (P : SetElement E → Type 0) (e : SetElement E) (es : List (SetElement E))
      → P e
      → All P es
      → All P (es ++ e ∷ [])
  All-snoc P e [] p a = (p, tt)
  All-snoc P e (f ∷ es) p (h, a) = (h, All-snoc P e es p a)

  pub values-snoc :
      (e : SetElement E) (es : List (SetElement E))
      → values (es ++ e ∷ []) ≡ values es ++ e.element ∷ []
  values-snoc e [] = refl
  values-snoc e (f ∷ es) = ap (λ xs. f.element ∷ xs) (values-snoc e es)

  by_value-snoc :
      (e : SetElement E) (es : List (SetElement E))
      → by_value (es ++ e ∷ []) ≡ by_value es ++ (e.element, e) ∷ []
  by_value-snoc e [] = refl
  by_value-snoc e (f ∷ es) = ap (λ xs. (f.element, f) ∷ xs) (by_value-snoc e es)

module _ {E : Type 0} (q : Equality E) where
  -- The elements of other values.
  abbrev pub without : E → List (SetElement E) → List (SetElement E)
  without v [] = []
  without v (e ∷ es) = if q.same e.element v then without v es else e ∷ without v es

  pub found_has :
      (v : E) (es : List (SetElement E)) → is_some (find q v (by_value es)) ≡ has q v (values es)
  found_has v [] = refl
  found_has v (e ∷ es) = ground (arith, found_has v es)

  pub found_lem :
      (v : E) (es : List (SetElement E)) (old : SetElement E)
      → find q v (by_value es) ≡ some old
      → (old.element ≡ v) × (contains old.element_id (ids es) ≡ true)
  found_lem v [] old h = absurd (cc)
  found_lem v (e ∷ es) old h = ground (arith, found_lem v es old, q.same_iff e.element v)

  pub found-All :
      (P : SetElement E → Type 0) (v : E) (es : List (SetElement E)) (old : SetElement E)
      → find q v (by_value es) ≡ some old
      → All P es
      → P old
  found-All P v [] old h a = absurd (cc)
  found-All P v (e ∷ es) old h a = elim (Bool-cases (q.same e.element v)) [
    | inl t ↦ subst P (some-injective _ _ (ground (arith, t, h))) a.0
    | inr t ↦ found-All P v es old (ground (arith, t, h)) a.1
  ]

  pub values-without :
      (v : E) (es : List (SetElement E)) → values (without v es) ≡ take_out q v (values es)
  values-without v [] = refl
  values-without v (e ∷ es) = ground (arith, values-without v es)

  pub erase_lem :
      (v : E) (es : List (SetElement E)) → erase q v (by_value es) ≡ by_value (without v es)
  erase_lem v [] = refl
  erase_lem v (e ∷ es) = ground (arith, erase_lem v es)

  pub without_absent :
      (v : E) (es : List (SetElement E)) → has q v (values es) ≡ false → without v es ≡ es
  without_absent v [] h = refl
  without_absent v (e ∷ es) h = ground (arith, without_absent v es)

  pub All-without :
      (P : SetElement E → Type 0) (v : E) (es : List (SetElement E))
      → All P es
      → All P (without v es)
  All-without P v [] a = tt
  All-without P v (e ∷ es) a = elim (Bool-cases (q.same e.element v)) [
    | inl t ↦ rw t (All-without P v es a.1)
    | inr t ↦ rw t (a.0, All-without P v es a.1)
  ]

  contains-without :
      (k : ℕ) (v : E) (es : List (SetElement E))
      → contains k (ids es) ≡ false
      → contains k (ids (without v es)) ≡ false
  contains-without k v [] h = refl
  contains-without k v (e ∷ es) h = ground (arith, contains-without k v es)

  pub NoRepeat-without :
      (v : E) (es : List (SetElement E)) → NoRepeat (ids es) → NoRepeat (ids (without v es))
  NoRepeat-without v [] n = tt
  NoRepeat-without v (e ∷ es) n = elim (Bool-cases (q.same e.element v)) [
    | inl t ↦ rw t (NoRepeat-without v es n.1)
    | inr t ↦ rw t (contains-without e.element_id v es n.0, NoRepeat-without v es n.1)
  ]

  -- Without the value of an element, its id is gone and nothing else.
  pub find_id-without :
      (k : ℕ) (v : E) (es : List (SetElement E)) (old : SetElement E)
      → Distinct q (values es)
      → NoRepeat (ids es)
      → find q v (by_value es) ≡ some old
      → find_id k (without v es) ≡ (if old.element_id == k then none else find_id k es)
  find_id-without k v [] old d n h = absurd (cc)
  find_id-without k v (e ∷ es) old d n h = ground (
    arith,
    find_id-without k v es old d.1 n.1,
    without_absent v es,
    q.same_iff e.element v,
    absent_id e.element_id es,
    found_lem v es old,
  )

  pub id_without :
      (v : E) (es : List (SetElement E)) (old : SetElement E)
      → Distinct q (values es)
      → NoRepeat (ids es)
      → find q v (by_value es) ≡ some old
      → contains old.element_id (ids (without v es)) ≡ false
  id_without v [] old d n h = absurd (cc)
  id_without v (e ∷ es) old d n h = ground (
    arith,
    id_without v es old d.1 n.1,
    without_absent v es,
    q.same_iff e.element v,
    found_lem v es old,
  )

  absent_element :
      (e : SetElement E) (es : List (SetElement E))
      → has q e.element (values es) ≡ false
      → has (element_equality q) e es ≡ false
  absent_element e [] h = refl
  absent_element e (f ∷ es) h = ground (arith, absent_element e es)

  -- What the calls do to the two containers.
  pub add_lem :
      (e : SetElement E) (es : List (SetElement E))
      → has q e.element (values es) ≡ false
      → add (element_equality q) e es ≡ es ++ e ∷ []
  add_lem e es h = ground (arith, absent_element e es h)

  other :
      (v : E) (e : SetElement E) (es : List (SetElement E)) (old : SetElement E)
      → q.same e.element v ≡ false
      → find q v (by_value (e ∷ es)) ≡ some old
      → same_element q e old ≡ false
  other v e es old t h = elim (Bool-cases (same_element q e old)) [
    | inl x ↦
        let same = (same_element_iff q e old).0 x in
        let at = found_lem v es old (ground (arith, t, h)) in
        absurd (ground (arith, same, at, t, (q.same_iff e.element v).1))
    | inr x ↦ x
  ]

  pub take_out_lem :
      (v : E) (es : List (SetElement E)) (old : SetElement E)
      → Distinct q (values es)
      → find q v (by_value es) ≡ some old
      → take_out (element_equality q) old es ≡ without v es
  take_out_lem v [] old d h = absurd (cc)
  take_out_lem v (e ∷ es) old d h = elim (Bool-cases (q.same e.element v)) [
    | inl t ↦
        let same : e ≡ old = some-injective _ _ (ground (arith, t, h)) in
        subst (λ o. take_out (element_equality q) o (e ∷ es) ≡ without v (e ∷ es)) same
          (rw ((same_element_iff q e e).1 refl, t)
            (remove_absent (element_equality q) e es (absent_element e es d.0)
              ∙ sym (without_absent v es (ground (arith, d, (q.same_iff e.element v).0 t)))))
    | inr t ↦
        rw (other v e es old t h, t)
          (ap (λ fs. e ∷ fs) (take_out_lem v es old d.1 (ground (arith, t, h))))
  ]

  pub assign_lem :
      (e : SetElement E) (es : List (SetElement E))
      → has q e.element (values es) ≡ false
      → assign q e.element e (by_value es) ≡ by_value (es ++ e ∷ [])
  assign_lem e [] h = refl
  assign_lem e (f ∷ es) h = ground (arith, assign_lem e es)

  pub emplace_lem :
      (e : SetElement E) (es : List (SetElement E))
      → has q e.element (values es) ≡ false
      → emplace q e.element e (by_value es) ≡ by_value (es ++ e ∷ [])
  emplace_lem e es h = ground (arith, found_has e.element es, by_value-snoc e es)

  contains-has :
      (e : SetElement E) (es : List (SetElement E))
      → contains e.element_id (ids es) ≡ false
      → has (element_equality q) e es ≡ false
  contains-has e [] h = refl
  contains-has e (f ∷ es) h = ground (arith, contains-has e es)

  -- An element with the id of one that was taken out is added.
  pub add_other :
      (v : E) (es : List (SetElement E)) (old e : SetElement E)
      → Distinct q (values es)
      → NoRepeat (ids es)
      → find q v (by_value es) ≡ some old
      → e.element_id ≡ old.element_id
      → add (element_equality q) e (without v es) ≡ without v es ++ e ∷ []
  add_other v es old e d n h i =
      let out : contains e.element_id (ids (without v es)) ≡ false =
        rw i (id_without v es old d n h) in
      ground (arith, contains-has e (without v es) out)
