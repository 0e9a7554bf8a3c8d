-- ===== src/LargeList/Writer/Add.antt =====
-- The calls of umaa/LargeListWriter.h that change or add elements. Where the source dereferences
-- an iterator past the end, or the back of an empty list, the outcome is `undefined`.
use umaa_cpp.Base.{
  ℕ, zero, suc, ◌-◌, false, Option, none, some, List, [], ◌∷◌, ◌++◌, length, reverse, ◌==◌, ltb,
  if◌then◌else◌, get_elem?, set,
}
use mathlib.Core.Option
use umaa_cpp.LargeList.{ListElement}
use umaa_cpp.LargeList.Generate.{alive}
use umaa_cpp.LargeList.Writer.{
  Env, M, ok, failed, undefined, ◌>>=◌, ◌>>◌, fails, change, get_timestamp, publish,
  new_list_element, update_metadata, head_id,
}

module _ {ℓ} {A : Type ℓ} where
  abbrev pub get_last? : List A → Option A
  get_last? [] = none
  get_last? (x ∷ []) = some x
  get_last? (x ∷ y ∷ ys) = get_last? (y ∷ ys)

  -- Changes the last element in place.
  abbrev pub map_last : (A → A) → List A → List A
  map_last f [] = []
  map_last f (x ∷ []) = f x ∷ []
  map_last f (x ∷ y ∷ ys) = x ∷ map_last f (y ∷ ys)

  -- Inserts before an index.
  abbrev pub insert_at : ℕ → List A → List A → List A
  insert_at zero new xs = new ++ xs
  insert_at (suc i) new [] = new
  insert_at (suc i) new (x ∷ xs) = x ∷ insert_at i new xs

module _ {E : Type 0} (env : Env) where
  unfoldable pub update : E → ℕ → M E (Unit {0})
  unfolding get_timestamp publish update_metadata
  update value pos w = elim (get_elem? w.elements pos) [
    | none ↦ failed w
    | some it ↦
        (do
          t ← get_timestamp env
          let e = record it { element = value; element_timestamp = t }
          publish env (alive e)
          change (λ v. record v { elements = set v.elements pos e })
          update_metadata env e false)
          w
  ]

  unfoldable pub prepend : E → M E (Unit {0})
  unfolding get_timestamp publish update_metadata new_list_element
  prepend value w =
      (do
        new ← new_list_element env value
        t ← get_timestamp env
        let e = record new { next_element_id = head_id w.elements; element_timestamp = t }
        publish env (alive e)
        change (λ v. record v { elements = e ∷ v.elements })
        update_metadata env e false)
        w

  -- The loop over the values from the last to the first; each round is what `prepend` does.
  unfoldable pub prepend_each : List E → M E (Unit {0})
  prepend_each [] = change (λ w. w)
  prepend_each (v ∷ vs) = prepend v >> prepend_each vs

  unfoldable pub prepend_all : List E → M E (Unit {0})
  unfolding prepend prepend_each
  prepend_all [] = fails
  prepend_all (v ∷ []) = prepend v
  prepend_all (v ∷ u ∷ us) = prepend_each (reverse (v ∷ u ∷ us))

  -- Links the last element to the id, stamps it and sends it again.
  unfoldable pub link_back : ℕ → M E (Unit {0})
  unfolding get_timestamp publish
  link_back id w = elim (get_last? w.elements) [
    | none ↦ undefined
    | some back ↦
        (do
          t ← get_timestamp env
          let e = record back { next_element_id = some id; element_timestamp = t }
          change (λ v. record v { elements = map_last (λ _. e) v.elements })
          publish env (alive e))
          w
  ]

  -- Stamps, sends and pushes the new last element.
  unfoldable pub push_back : ListElement E → M E (ListElement E)
  unfolding get_timestamp publish
  push_back new = do
    t ← get_timestamp env
    let e = record new { element_timestamp = t }
    publish env (alive e)
    change (λ v. record v { elements = v.elements ++ e ∷ [] })
    ok e

  unfoldable pub append : E → M E (Unit {0})
  unfolding link_back push_back update_metadata new_list_element
  append value w =
      (do
        new ← new_list_element env value
        elim w.elements [ [] ↦ change (λ v. v) | _ ↦ link_back new.element_id ]
        e ← push_back new
        update_metadata env e false)
        w

  -- The new elements for the values, linked in order. The last value gets the first id; the
  -- source's vector holds them in the reverse order.
  unfoldable pub new_elements : List E → M E (List (ListElement E))
  unfolding new_list_element
  new_elements [] = ok []
  new_elements (v ∷ vs) = do
    rest ← new_elements vs
    new ← new_list_element env v
    ok (record new { next_element_id = head_id rest } ∷ rest)

  -- The publishing loop of `append`; the metadata then names the last element.
  unfoldable pub push_each : List (ListElement E) → M E (Unit {0})
  unfolding push_back update_metadata
  push_each [] = change (λ w. w)
  push_each (new ∷ []) = do e ← push_back new; update_metadata env e false
  push_each (new ∷ n ∷ ns) = do _ ← push_back new; push_each (n ∷ ns)

  unfoldable pub append_all : List E → M E (Unit {0})
  unfolding append new_elements link_back push_each
  append_all [] = fails
  append_all (v ∷ []) = append v
  append_all (v ∷ u ∷ us) = do
    new ← new_elements (v ∷ u ∷ us)
    elim (head_id new) [ none ↦ (λ _. undefined) | some id ↦ link_back id ]
    push_each new

  -- Links the element at an index to the id, stamps it and sends it again.
  unfoldable pub link_at : ℕ → ℕ → M E (Unit {0})
  unfolding get_timestamp publish
  link_at i id w = elim (get_elem? w.elements i) [
    | none ↦ undefined
    | some it ↦
        (do
          t ← get_timestamp env
          let e = record it { next_element_id = some id; element_timestamp = t }
          change (λ v. record v { elements = set v.elements i e })
          publish env (alive e))
          w
  ]

  -- `elements_.insert(it, e)` with `it` at `pos - 1`.
  unfoldable pub insert : E → ℕ → M E (Unit {0})
  unfolding append prepend link_at update_metadata new_list_element get_timestamp publish
  insert value pos w =
      if ltb (length w.elements) pos
      then failed w
      else (if pos == length w.elements
          then append value w
          else (if pos == 0
              then prepend value w
              else (do
                new ← new_list_element env value
                link_at (pos - 1) new.element_id
                t ← get_timestamp env
                elim (get_elem? w.elements pos) [
                  | none ↦ (λ _. undefined)
                  | some next ↦ (do
                    let e = record new {
                      next_element_id = some next.element_id;
                      element_timestamp = t;
                    }
                    publish env (alive e)
                    change (λ v. record v { elements = insert_at (pos - 1) (e ∷ []) v.elements })
                    update_metadata env e false)
                ])
                  w))

  -- The publishing loop of `insert`, which stamps the new elements where they are.
  unfoldable pub stamp_each : List (ListElement E) → M E (List (ListElement E))
  unfolding get_timestamp publish
  stamp_each [] = ok []
  stamp_each (new ∷ ns) = do
    t ← get_timestamp env
    let e = record new { element_timestamp = t }
    publish env (alive e)
    es ← stamp_each ns
    ok (e ∷ es)

  -- `elements_.insert(++it, newElements.begin(), newElements.end())`, the vector being the reverse
  -- of the order in which the new elements are linked.
  unfoldable pub insert_all : List E → ℕ → M E (Unit {0})
  unfolding insert append_all prepend_all new_elements link_at stamp_each update_metadata
  insert_all [] pos w = failed w
  insert_all (v ∷ []) pos w = insert v pos w
  insert_all (v ∷ u ∷ us) pos w =
      if ltb (length w.elements) pos
      then failed w
      else (if pos == length w.elements
          then append_all (v ∷ u ∷ us) w
          else (if pos == 0
              then prepend_all (v ∷ u ∷ us) w
              else (do
                new ← new_elements (v ∷ u ∷ us)
                elim (head_id new) [ none ↦ (λ _. undefined) | some id ↦ link_at (pos - 1) id ]
                let next = Option.map (λ e. e.element_id) (get_elem? w.elements pos)
                es ← stamp_each (map_last (λ e. record e { next_element_id = next }) new)
                change (λ v. record v { elements = insert_at pos (reverse es) v.elements })
                elim (get_last? es) [
                  | none ↦ (λ _. undefined)
                  | some e ↦ update_metadata env e false
                ])
                  w))
