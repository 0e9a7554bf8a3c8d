-- ===== src/LargeSet/Writer/History.antt =====
-- Histories of calls of a set's writer, and the sets that they spell.
use umaa_cpp.Base.{
  ℕ, ◌+◌, ◌≡◌, refl, sym, ◌∙◌, ap, subst, Bool, true, not, ◌&&◌, none, List, [], ◌∷◌, arith,
  if◌then◌else◌, Bool-cases, inl, inr,
}
use umaa_cpp.Base.Sets.{Equality, has, add, remove as take_out}
use umaa_cpp.LargeList.Writer.{Env}
use umaa_cpp.LargeList.Writer.Stores.{IsReliable}
use umaa_cpp.LargeSet.Writer.{Writer, new_writer, update, insert, add_element, remove, clear}
use umaa_cpp.LargeSet.Writer.Batch.{insert_each, insert_all, fill, new_with}
use umaa_cpp.LargeSet.Writer.Elements.{values, found_has}
use umaa_cpp.LargeSet.Writer.Steps.{Sync, collides, insert-Sync, insert-values}
use umaa_cpp.LargeSet.Writer.Update.{update-Sync}
use umaa_cpp.LargeSet.Writer.Removal.{remove-Sync, clear-Sync}

-- The calls that draw the ids of their elements.
pub data Call (E : Type 0) : Type 0 where
  inserts removes : E → Call E
  inserts_all : List E → Call E
  updates : E → E → Call E
  clears : Call E

module _ {E : Type 0} (q : Equality E) where
  -- `insert` of a vector stops at the first value that is there.
  abbrev add_until : List E → List E → List E
  add_until [] xs = xs
  add_until (v ∷ vs) xs = if has q v xs then xs else add_until vs (add q v xs)

  abbrev pub add_each : List E → List E → List E
  add_each [] xs = xs
  add_each (v ∷ vs) xs = add_each vs (add q v xs)

  -- What a call does to the set.
  abbrev pub spec : Call E → List E → List E
  spec (inserts v) xs = add q v xs
  spec (removes v) xs = take_out q v xs
  spec (inserts_all vs) xs = add_until vs xs
  spec (updates prev v) xs = if has q prev xs then add q v (take_out q prev xs) else xs
  spec clears xs = []

  abbrev pub spec_all : List (Call E) → List E → List E
  spec_all [] xs = xs
  spec_all (c ∷ cs) xs = spec_all cs (spec c xs)

  abbrev pub is_plain : Call E → List E → Bool
  is_plain (updates prev v) xs = not (collides q prev v xs)
  is_plain _ xs = true

  -- No update moves a value onto another one that is there.
  abbrev pub are_plain : List (Call E) → List E → Bool
  are_plain [] xs = true
  are_plain (c ∷ cs) xs = is_plain c xs && are_plain cs (spec c xs)

module _ {E : Type 0} (q : Equality E) (env : Env) where
  abbrev pub call : Call E → Writer E → Writer E
  call (inserts v) w = (insert q env v none true w).2
  call (removes v) w = (remove q env v w).1
  call (inserts_all vs) w = (insert_all q env vs none true w).2
  call (updates prev v) w = (update q env prev v w).1
  call clears w = (clear q env w).1

  abbrev pub perform_all : List (Call E) → Writer E → Writer E
  perform_all [] w = w
  perform_all (c ∷ cs) w = perform_all cs (call c w)

module _ {E : Type 0} (q : Equality E) (env : Env) (rely : IsReliable env) where
  -- The writer keeps up and has the values `xs`.
  abbrev pub Spelled : List E → Writer E → Type 0
  Spelled xs w = Sync q env w × (values w.elements ≡ xs)

  insert-Spelled :
      (v : E) (w : Writer E)
      → Sync q env w
      → Spelled (add q v (values w.elements)) (insert q env v none true w).2
  insert-Spelled v w y = (insert-Sync q env rely v w y, insert-values q env rely v w y)

  insert_each_step :
      (i : ℕ) (v : E) (vs : List E) (w : Writer E)
      → Sync q env w
      → (insert_each q env true i (v ∷ vs) none w).2 ≡ (
          if has q v (values w.elements)
          then w
          else (insert_each q env true (i + 1) vs none (insert q env v none true w).2).2)
  unfolding insert_each insert add_element
  insert_each_step i v vs w y = ground (arith, y.table, found_has q v w.elements, rely.sent w.sends)

  insert_each-Spelled :
      (i : ℕ) (vs : List E) (w : Writer E)
      → Sync q env w
      → Spelled (add_until q vs (values w.elements)) (insert_each q env true i vs none w).2
  insert_each-Spelled i [] w y = unfold insert_each in (y, refl)
  insert_each-Spelled i (v ∷ vs) w y =
      rw (insert_each_step i v vs w y) (elim (Bool-cases (has q v (values w.elements))) [
        | inl h ↦ rw h (y, refl)
        | inr h ↦
            let w' = (insert q env v none true w).2 in
            let (y', e) = insert-Spelled v w y in
            let (y2, e2) = insert_each-Spelled (i + 1) vs w' y' in
            rw h (y2, e2 ∙ ap (add_until q vs) (e ∙ ground (arith, h)))
      ])

  insert_all_lem :
      (v : E) (vs : List E) (w : Writer E)
      → insert_all q env (v ∷ vs) none true w ≡ insert_each q env true 0 (v ∷ vs) none w
  unfolding insert_all
  insert_all_lem v vs w = ground arith

  call-Spelled :
      (c : Call E) (w : Writer E)
      → Sync q env w
      → is_plain q c (values w.elements) ≡ true
      → Spelled (spec q c (values w.elements)) (call q env c w)
  call-Spelled (inserts v) w y p = insert-Spelled v w y
  call-Spelled (removes v) w y p = remove-Sync q env rely v w y
  call-Spelled (inserts_all []) w y p = unfold insert_all in (y, refl)
  call-Spelled (inserts_all (v ∷ vs)) w y p =
      rw (insert_all_lem v vs w, call) (insert_each-Spelled 0 (v ∷ vs) w y)
  call-Spelled (updates prev v) w y p = update-Sync q env rely prev v w y (ground arith)
  call-Spelled clears w y p = clear-Sync q env rely w y

  perform_all-Spelled :
      (cs : List (Call E)) (w : Writer E)
      → Sync q env w
      → are_plain q cs (values w.elements) ≡ true
      → Spelled (spec_all q cs (values w.elements)) (perform_all q env cs w)
  perform_all-Spelled [] w y p = (y, refl)
  perform_all-Spelled (c ∷ cs) w y p =
      let (y', e) = call-Spelled c w y (ground arith) in
      let p' = subst (λ xs. are_plain q cs xs ≡ true) (sym e) (ground arith) in
      let (y2, e2) = perform_all-Spelled cs (call q env c w) y' p' in
      (y2, e2 ∙ ap (spec_all q cs) e)

  fill-Spelled :
      (vs : List E) (w : Writer E)
      → Sync q env w
      → Spelled (add_each q vs (values w.elements)) (fill q env vs w)
  unfolding fill
  fill-Spelled [] w y = (y, refl)
  fill-Spelled (v ∷ vs) w y =
      let (y', e) = insert-Spelled v w y in
      let (y2, e2) = fill-Spelled vs (insert q env v none true w).2 y' in
      (y2, e2 ∙ ap (add_each q vs) e)

  new_writer-Sync : Sync q env (new_writer env)
  unfolding new_writer
  new_writer-Sync = record {
    table = refl;
    held = record { different = tt; kept = record { unique = tt; made = tt; known = λ k. refl } };
    meta_id = refl;
    meta_size = refl;
    meta_time = refl;
  }

  pub new_with-Spelled : (vs : List E) → Spelled (add_each q vs []) (new_with q env vs)
  unfolding new_with new_writer
  new_with-Spelled vs = fill-Spelled vs (new_writer env) new_writer-Sync

  pub history-Spelled :
      (start : List E) (cs : List (Call E))
      → are_plain q cs (add_each q start []) ≡ true
      → Spelled (spec_all q cs (add_each q start [])) (perform_all q env cs (new_with q env start))
  history-Spelled start cs plain =
      let (y, e) = new_with-Spelled start in
      let (y', e') = perform_all-Spelled cs (new_with q env start) y (rw e plain) in
      (y', e' ∙ ap (spec_all q cs) e)
