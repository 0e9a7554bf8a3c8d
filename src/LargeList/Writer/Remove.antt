-- ===== src/LargeList/Writer/Remove.antt =====
-- The calls of umaa/LargeListWriter.h that remove elements. Where the source dereferences an
-- iterator past the end the outcome is `undefined`.
use umaa_cpp.Base.{
  ℕ, zero, suc, ◌+◌, ◌-◌, true, none, some, List, [], ◌∷◌, length, ◌==◌, ltb, if◌then◌else◌,
  get_elem?, ◌||◌,
}
use umaa_cpp.LargeList.Generate.{alive, disposed}
use umaa_cpp.LargeList.Writer.{
  Env, M, ok, failed, undefined, ◌>>=◌, ◌>>◌, change, get_timestamp, publish, update_metadata,
}
use umaa_cpp.LargeList.Writer.Add.{get_last?, map_last, link_at}

module _ {ℓ} {A : Type ℓ} where
  abbrev pub drop_last : List A → List A
  drop_last [] = []
  drop_last (x ∷ []) = []
  drop_last (x ∷ y ∷ ys) = x ∷ drop_last (y ∷ ys)

  abbrev pub remove_at : ℕ → List A → List A
  remove_at i [] = []
  remove_at zero (x ∷ xs) = xs
  remove_at (suc i) (x ∷ xs) = x ∷ remove_at i xs

module _ {E : Type 0} (env : Env) where
  -- `auto newLast = elements_.rbegin()++` is the last element: the increment comes too late.
  unfoldable pub reset_new_last : M E (Unit {0})
  unfolding get_timestamp publish
  reset_new_last w = elim (get_last? w.elements) [
    | none ↦ undefined
    | some new_last ↦
        (do
          t ← get_timestamp env
          let e = record new_last { next_element_id = none; element_timestamp = t }
          publish env (alive e)
          change (λ v. record v { elements = map_last (λ _. e) v.elements }))
          w
  ]

  -- Disposes the last element and drops it.
  unfoldable pub dispose_back : M E (Unit {0})
  unfolding publish update_metadata
  dispose_back w = elim (get_last? w.elements) [
    | none ↦ undefined
    | some removed ↦
        (do
          publish env (disposed removed)
          change (λ v. record v { elements = drop_last v.elements })
          update_metadata env removed true)
          w
  ]

  unfoldable pub pop_back : M E (Unit {0})
  unfolding reset_new_last dispose_back
  pop_back w =
      if length w.elements == 0
      then failed w
      else (if ltb 1 (length w.elements)
          then (reset_new_last >> dispose_back) w
          else dispose_back w)

  unfoldable pub pop_front : M E (Unit {0})
  unfolding publish update_metadata
  pop_front w = elim w.elements [
    | [] ↦ failed w
    | removed ∷ rest ↦
        (do
          publish env (disposed removed)
          change (λ v. record v { elements = rest })
          update_metadata env removed true)
          w
  ]

  unfoldable pub remove : ℕ → M E (Unit {0})
  unfolding pop_front pop_back link_at publish update_metadata
  remove pos w =
      if length w.elements == 0 || ltb (length w.elements) pos
      then failed w
      else (if pos == 0
          then pop_front w
          else (if pos == length w.elements - 1
              then pop_back w
              else (elim (get_elem? w.elements (pos + 1)) [
                | none ↦ undefined
                | some next ↦ elim (get_elem? w.elements pos) [
                  | none ↦ undefined
                  | some removed ↦
                      (do
                        link_at env (pos - 1) next.element_id
                        publish env (disposed removed)
                        change (λ v. record v { elements = remove_at pos v.elements })
                        update_metadata env removed true)
                        w
                ]
              ])))

  -- The loop of `clear`: each round removes an element or ends it, so that the number of elements
  -- is fuel enough.
  unfoldable pub clear_loop : ℕ → M E (Unit {0})
  unfolding pop_front
  clear_loop zero w = ok tt w
  clear_loop (suc n) w =
      let next = pop_front >> clear_loop n in elim w.elements [ [] ↦ ok tt w | _ ↦ next w ]

  unfoldable pub clear : M E (Unit {0})
  unfolding clear_loop
  clear w = clear_loop (length w.elements) w
