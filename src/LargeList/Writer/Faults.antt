-- ===== src/LargeList/Writer/Faults.antt =====
-- popBack, insert, remove and append of umaa/LargeListWriter.h in corner cases.
use umaa_cpp.Base.{
  ℕ, zero, suc, ◌+◌, ◌-◌, ◌<◌, ◌≤◌, ◌≡◌, refl, ◌∙◌, ap, false, none, some, List, [], ◌∷◌, length,
  get_elem?, set, arith,
}
use umaa_cpp.LargeList.{ListElement}
use umaa_cpp.LargeList.Generate.{alive}
use umaa_cpp.Transport.{success}
use umaa_cpp.LargeList.Writer.{described, Env, Writer, ok, undefined, head_id}
use umaa_cpp.LargeList.Writer.Add.{insert, insert_at, append_all, new_elements}
use umaa_cpp.LargeList.Writer.Remove.{remove}
use umaa_cpp.LargeList.Writer.Sound.{values}

module _ {ℓ} {A : Type ℓ} where
  get_elem?-none : (xs : List A) (i : ℕ) → length xs ≤ i → get_elem? xs i ≡ none
  get_elem?-none [] i h = refl
  get_elem?-none (x ∷ xs) zero h = elim h [ ]
  get_elem?-none (x ∷ xs) (suc i) h = get_elem?-none xs i (omega arith)

  get_elem?-some : (xs : List A) (i : ℕ) → i < length xs → (x : A) × (get_elem? xs i ≡ some x)
  get_elem?-some [] i h = elim h [ ]
  get_elem?-some (x ∷ xs) zero h = (x, refl)
  get_elem?-some (x ∷ xs) (suc i) h = get_elem?-some xs i (omega arith)

module _ {E : Type 0} where
  values-insert_at :
      (i : ℕ) (e : ListElement E) (es : List (ListElement E))
      → values (insert_at i (e ∷ []) es) ≡ insert_at i (e.element ∷ []) (values es)
  values-insert_at zero e es = refl
  values-insert_at (suc i) e [] = refl
  values-insert_at (suc i) e (x ∷ xs) = ap (◌∷◌ x.element) (values-insert_at i e xs)

  values-relink :
      (es : List (ListElement E)) (i : ℕ) (e old : ListElement E)
      → get_elem? es i ≡ some old
      → e.element ≡ old.element
      → values (set es i e) ≡ values es
  values-relink [] i e old h p = refl
  values-relink (x ∷ xs) zero e old h p = ground arith
  values-relink (x ∷ xs) (suc i) e old h p = ap (◌∷◌ x.element) (values-relink xs i e old h p)

module _ {E : Type 0} (env : Env) where
  -- `remove` at the position one past the last element of a nonempty list passes its guard and
  -- dereferences the end of the list.
  remove_at_size :
      (w : Writer E) → 0 < length w.elements → remove env (length w.elements) w ≡ undefined
  unfolding remove
  remove_at_size w h =
      ground (arith, h, get_elem?-none w.elements (length w.elements + 1) (omega arith))

  new_elements_run :
      (vs : List E) (w : Writer E)
      → (es : List (ListElement E)) × (w' : Writer E) × (new_elements env vs w ≡ ok es w')
        × (w'.elements ≡ w.elements)
        × (length es ≡ length vs)
  unfolding new_elements
  new_elements_run [] w = ([], w, refl, refl, refl)
  new_elements_run (v ∷ vs) w =
      let (es, w', r, e, l) = new_elements_run vs w in
      (
        record {
          list_id = w'.list_id;
          element_id = env.guid w'.guids_used;
          element = v;
          next_element_id = head_id es;
          element_timestamp = env.no_time;
        }
            ∷ es,
        record w' { guids_used = suc w'.guids_used },
        ground (arith, r),
        e,
        ap suc l,
      )

  -- `append` of two or more values to an empty list reads the back of the empty list.
  append_all_to_empty :
      (w : Writer E) (v u : E) (us : List E)
      → w.elements ≡ []
      → append_all env (v ∷ u ∷ us) w ≡ undefined
  unfolding append_all
  append_all_to_empty w v u us h =
      let (es, w', r, e, l) = new_elements_run (v ∷ u ∷ us) w in to_empty es w' r (e ∙ h) l
    where
      to_empty :
          (es : List (ListElement E)) (w' : Writer E)
          → new_elements env (v ∷ u ∷ us) w ≡ ok es w'
          → w'.elements ≡ []
          → length es ≡ suc (suc (length us))
          → append_all env (v ∷ u ∷ us) w ≡ undefined
      to_empty [] w' r e l = absurd (omega arith)
      to_empty (x ∷ xs) w' r e l = ground (arith, r, e)

  -- `insert` of one value inside a list whose messages are sent succeeds, and puts the value one
  -- position before the one asked for in the writer's own list.
  pub insert_misplaces :
      (w : Writer E) (v : E) (pos : ℕ)
      → 0 < pos
      → pos < length w.elements
      → ((n : ℕ) → env.outcome n ≡ success)
      → (w' : Writer E) × (insert env v pos w ≡ ok tt w')
        × (values w'.elements ≡ insert_at (pos - 1) (v ∷ []) (values w.elements))
  insert_misplaces w v pos p q s =
      let (it, hi) = get_elem?-some w.elements (pos - 1) (omega arith) in
      let (next, hn) = get_elem?-some w.elements pos q in
      let it' : ListElement E = record it {
        next_element_id = some (env.guid w.guids_used);
        element_timestamp = env.clock w.stamps_used;
      } in
      let e : ListElement E = record {
        list_id = w.list_id;
        element_id = env.guid w.guids_used;
        element = v;
        next_element_id = some next.element_id;
        element_timestamp = env.clock (suc w.stamps_used);
      } in
      (
        described e false (record w {
          elements = insert_at (pos - 1) (e ∷ []) (set w.elements (pos - 1) it');
          guids_used = suc w.guids_used;
          stamps_used = suc (suc w.stamps_used);
          sends = suc (suc w.sends);
          bus = alive e ∷ alive it' ∷ w.bus;
        }),
        unfold insert in ground (arith, hi, hn, s w.sends, s (suc w.sends)),
        values-insert_at (pos - 1) e (set w.elements (pos - 1) it')
            ∙ ap (insert_at (pos - 1) (v ∷ [])) (values-relink w.elements (pos - 1) it' it hi refl),
      )
