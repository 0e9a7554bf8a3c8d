-- ===== src/LargeSet/Writer/Ids.antt =====
-- Set elements by their ids, on the side of the writer and on that of its readers.
use umaa_cpp.Base.{
  ℕ, ◌<◌, ◌≡◌, refl, sym, ◌∙◌, Bool, true, false, ◌||◌, Option, none, some, List, [], ◌∷◌, arith,
  ◌==◌, if◌then◌else◌, Bool-cases, ltb, ltb→lt, inl, inr,
}
use umaa_cpp.Base.Table.{lookup, contains, NoRepeat, insert, erase}
use umaa_cpp.LargeSet.{SetElement}

module _ {E : Type 0} where
  abbrev pub ids : List (SetElement E) → List ℕ
  ids [] = []
  ids (e ∷ es) = e.element_id ∷ ids es

  abbrev pub find_id : ℕ → List (SetElement E) → Option (SetElement E)
  find_id id [] = none
  find_id id (e ∷ es) = if e.element_id == id then some e else find_id id es

  abbrev pub any : (SetElement E → Bool) → List (SetElement E) → Bool
  any p [] = false
  any p (e ∷ es) = p e || any p es

  find_id-contains :
      (id : ℕ) (es : List (SetElement E)) (e : SetElement E)
      → find_id id es ≡ some e
      → contains id (ids es) ≡ true
  find_id-contains id [] e h = cc
  find_id-contains id (f ∷ es) e h = ground (arith, find_id-contains id es e)

  find_id-any :
      (p : SetElement E → Bool) (id : ℕ) (es : List (SetElement E)) (e : SetElement E)
      → find_id id es ≡ some e
      → p e ≡ true
      → any p es ≡ true
  find_id-any p id [] e h t = cc
  find_id-any p id (f ∷ es) e h t = ground (arith, find_id-any p id es e)

  any-find_id :
      (p : SetElement E → Bool) (es : List (SetElement E))
      → NoRepeat (ids es)
      → any p es ≡ true
      → (id : ℕ) × (e : SetElement E) × (find_id id es ≡ some e) × (p e ≡ true)
  any-find_id p [] n h = absurd (cc)
  any-find_id p (e ∷ es) n h = elim (Bool-cases (p e)) [
    | inl t ↦ (e.element_id, e, ground arith, t)
    | inr t ↦
        let (id, f, found, holds) = any-find_id p es n.1 (ground (arith, t)) in
        (id, f, ground (arith, found, find_id-contains id es f found), holds)
  ]

  any_le :
      (p : SetElement E → Bool) (es fs : List (SetElement E))
      → NoRepeat (ids es)
      → ((id : ℕ) → find_id id es ≡ find_id id fs)
      → any p es ≡ true
      → any p fs ≡ true
  any_le p es fs n same h =
      let (id, e, found, holds) = any-find_id p es n h in
      find_id-any p id fs e (sym (same id) ∙ found) holds

  -- Two stores that give the same element for every id have elements of the same kinds.
  pub any_by_ids :
      (p : SetElement E → Bool) (es fs : List (SetElement E))
      → NoRepeat (ids es)
      → NoRepeat (ids fs)
      → ((id : ℕ) → find_id id es ≡ find_id id fs)
      → any p es ≡ any p fs
  any_by_ids p es fs n m same =
      let there = any_le p es fs n same in
      let back = any_le p fs es m (λ id. sym (same id)) in ground (arith, there, back)

  -- The ids of a table rise.
  abbrev pub Above : ℕ → List (ℕ × SetElement E) → Type 0
  Above k [] = Unit
  Above k ((j, e) ∷ table) = k < j

  -- A table of a reader: each element under its id, and the ids in order.
  abbrev pub Ordered : List (ℕ × SetElement E) → Type 0
  Ordered [] = Unit
  Ordered ((k, e) ∷ table) = (e.element_id ≡ k) × Above k table × Ordered table

  Above-insert :
      (j k : ℕ) (e : SetElement E) (table : List (ℕ × SetElement E))
      → j < k
      → Above j table
      → Above j (insert k e table)
  Above-insert j k e [] l a = l
  Above-insert j k e ((i, f) ∷ table) l a = ground arith

  Above-same : (j k : ℕ) (table : List (ℕ × SetElement E)) → j ≡ k → Above j table → Above k table
  Above-same j k [] e a = tt
  Above-same j k ((i, f) ∷ table) e a = omega (arith, e)

  Above-mono : (j k : ℕ) (table : List (ℕ × SetElement E)) → j < k → Above k table → Above j table
  Above-mono j k [] l a = tt
  Above-mono j k ((i, f) ∷ table) l a = omega (arith, l)

  pub Ordered-insert :
      (e : SetElement E) (table : List (ℕ × SetElement E))
      → Ordered table
      → Ordered (insert e.element_id e table)
  Ordered-insert e [] o = (refl, tt, tt)
  Ordered-insert e ((k, f) ∷ table) o = elim (Bool-cases (k == e.element_id)) [
    | inl h ↦ rw h (refl, Above-same k e.element_id table (ground arith) o.1, o.2)
    | inr h ↦ elim (Bool-cases (ltb e.element_id k)) [
      | inl l ↦ rw (h, l) (refl, ltb→lt e.element_id k l, o)
      | inr l ↦
          rw (h, l)
            (
              o.0,
              Above-insert k e.element_id e table (ground arith) o.1,
              Ordered-insert e table o.2,
            )
    ]
  ]

  Above-erase :
      (j k : ℕ) (table : List (ℕ × SetElement E))
      → Ordered table
      → Above j table
      → Above j (erase k table)
  Above-erase j k [] o a = tt
  Above-erase j k ((i, f) ∷ table) o a = elim (Bool-cases (i == k)) [
    | inl h ↦ rw h (Above-erase j k table o.2 (Above-mono j i table a o.1))
    | inr h ↦ rw h a
  ]

  pub Ordered-erase :
      (k : ℕ) (table : List (ℕ × SetElement E)) → Ordered table → Ordered (erase k table)
  Ordered-erase k [] o = tt
  Ordered-erase k ((j, f) ∷ table) o = elim (Bool-cases (j == k)) [
    | inl h ↦ rw h (Ordered-erase k table o.2)
    | inr h ↦ rw h (o.0, Above-erase j k table o.2 o.1, Ordered-erase k table o.2)
  ]

  abbrev pub entries : List (ℕ × SetElement E) → List (SetElement E)
  entries [] = []
  entries ((k, e) ∷ table) = e ∷ entries table

  pub lookup-find_id :
      (id : ℕ) (table : List (ℕ × SetElement E))
      → Ordered table
      → lookup id table ≡ find_id id (entries table)
  lookup-find_id id [] o = refl
  lookup-find_id id ((k, e) ∷ table) o = ground (arith, lookup-find_id id table o.2)

  Above-absent :
      (k : ℕ) (table : List (ℕ × SetElement E))
      → Ordered table
      → Above k table
      → contains k (ids (entries table)) ≡ false
  Above-absent k [] o a = refl
  Above-absent k ((j, e) ∷ table) o a =
      ground (arith, Above-absent k table o.2 (Above-mono k j table a o.1))

  pub Ordered-NoRepeat :
      (table : List (ℕ × SetElement E)) → Ordered table → NoRepeat (ids (entries table))
  Ordered-NoRepeat [] o = tt
  Ordered-NoRepeat ((k, e) ∷ table) o =
      (ground (arith, Above-absent k table o.2 o.1), Ordered-NoRepeat table o.2)
