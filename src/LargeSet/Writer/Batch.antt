-- ===== src/LargeSet/Writer/Batch.antt =====
-- LargeSetWriter.h: `insert` of a vector, the second constructor and the destructor.
use umaa_cpp.Base.{
  ℕ, ◌+◌, Bool, true, false, not, Option, none, some, List, [], ◌∷◌, ◌++◌, length, ◌==◌,
  if◌then◌else◌, is_some, get_elem?,
}
use umaa_cpp.Base.Sets.{Equality}
use umaa_cpp.Transport.{SendStatus, success, error, is_error}
use umaa_cpp.LargeList.Writer.{Env}
use umaa_cpp.LargeSet.{SetElement}
use umaa_cpp.LargeSet.Writer.{Writer, find, new_set_element, new_writer, add_element, insert, clear}

module _ {E : Type 0} where
  -- The id for the value at `i`: the vector is as long as that of the values, so that `at` finds it.
  abbrev pub take_id : Bool → ℕ → Option (List ℕ) → SetElement E → SetElement E
  take_id generate i none e = e
  take_id true i (some ids) e = e
  take_id false i (some ids) e = elim (get_elem? ids i) [
    | none ↦ e
    | some given ↦ record e { element_id = given }
  ]

  abbrev pub put_id : Bool → Option (List ℕ) → SetElement E → Option (List ℕ)
  put_id generate none e = none
  put_id true (some ids) e = some (ids ++ e.element_id ∷ [])
  put_id false (some ids) e = some ids

module _ {E : Type 0} (q : Equality E) (env : Env) where
  -- The `for` loop, from the value at `i` on.
  unfoldable pub insert_each :
      Bool → ℕ → List E → Option (List ℕ) → Writer E → SendStatus × Option (List ℕ) × Writer E
  unfolding add_element
  insert_each generate i [] ids w = (success, ids, w)
  insert_each generate i (v ∷ vs) ids w =
      let (e, w') = new_set_element env v w in
      let ids' = put_id generate ids e in
      let (answer, w2) = add_element q env v (take_id generate i ids e) w' in
      let rest = insert_each generate (i + 1) vs ids' w2 in
      if is_some (find q v w.element_table)
      then (error, ids, w)
      else (if is_error answer then (error, ids', w2) else rest)

  abbrev pub is_mismatch : Bool → List E → Option (List ℕ) → Bool
  is_mismatch true values ids = false
  is_mismatch false values none = true
  is_mismatch false values (some ids) = not (length ids == length values)

  unfoldable pub insert_all :
      List E → Option (List ℕ) → Bool → Writer E → SendStatus × Option (List ℕ) × Writer E
  unfolding insert_each
  insert_all values ids generate w =
      if length values == 0
      then (error, ids, w)
      else (if is_mismatch generate values ids
          then (error, ids, w)
          else insert_each generate 0 values ids w)

  -- The loop of the second constructor, which does not look at what `insert` returns.
  unfoldable pub fill : List E → Writer E → Writer E
  unfolding insert
  fill [] w = w
  fill (v ∷ vs) w = fill vs (insert q env v none true w).2

  unfoldable pub new_with : List E → Writer E
  unfolding fill new_writer
  new_with elements = fill elements (new_writer env)

  -- The messages that the destructor leaves on the bus.
  unfoldable pub destroy : Writer E → Writer E
  unfolding clear
  destroy w = (clear q env w).1
