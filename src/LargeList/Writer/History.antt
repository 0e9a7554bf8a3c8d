-- ===== src/LargeList/Writer/History.antt =====
-- Any sequence of the calls that keep the writer synchronised, against the list that it stands for.
use umaa_cpp.Base.{
  ℕ, zero, suc, ◌≤◌, ◌≡◌, refl, sym, ◌∙◌, ap, none, List, [], ◌∷◌, ◌++◌, length, length-map,
  reverse, get_elem?, set, arith, inl, inr, Option-cases, subst,
}
use mathlib.Core.List.{reverse-cons, reverse-reverse, append_assoc}
use native.Mathlib.Nat.{le_refl}
use umaa_cpp.LargeList.{LargeListResult, ListElement, empty_list}
use umaa_cpp.LargeList.Generate.{valid}
use umaa_cpp.LargeList.Writer.{Env, Writer, M, ok, failed, undefined}
use umaa_cpp.LargeList.Writer.Add.{update, prepend, append, prepend_each, prepend_all, get_last?}
use umaa_cpp.LargeList.Writer.Remove.{pop_front, clear, clear_loop}
use umaa_cpp.LargeList.Writer.Stores.{IsReliable}
use umaa_cpp.LargeList.Writer.Sync.{Synced}
use umaa_cpp.LargeList.Writer.Sound.{
  values, Leaves, prepend-Leaves, pop_front-Leaves, update-Leaves,
}
use umaa_cpp.LargeList.Writer.Append.{append_to_empty, append_to_list, get_last?-cons}

pub data Call (E : Type 0) : Type 0 where
  prepends appends : E → Call E
  prepends_all : List E → Call E
  updates : E → ℕ → Call E
  pops clears : Call E

-- What the calls do to a list.
abbrev pub spec : {E : Type 0} → Call E → List E → List E
spec (prepends v) xs = v ∷ xs
spec (appends v) xs = xs ++ v ∷ []
spec (prepends_all vs) xs = vs ++ xs
spec (updates v pos) xs = set xs pos v
spec pops [] = []
spec pops (x ∷ xs) = xs
spec clears xs = []

abbrev pub spec_all : {E : Type 0} → List (Call E) → List E → List E
spec_all [] xs = xs
spec_all (c ∷ cs) xs = spec_all cs (spec c xs)

-- What a reader reports of a list.
abbrev pub report : {E : Type 0} → List E → LargeListResult E
report [] = record { status = empty_list; list = none }
report (x ∷ xs) = valid (x ∷ xs)

module _ {E : Type 0} (env : Env) where
  abbrev call : Call E → M E (Unit {0})
  call (prepends v) = prepend env v
  call (appends v) = append env v
  call (prepends_all vs) = prepend_all env vs
  call (updates v pos) = update env v pos
  call pops = pop_front env
  call clears = clear env

  -- The writer after a call, also one that returned ERROR.
  abbrev pub perform : Writer E → Call E → Writer E
  perform w c = elim (call c w) [ ok _ w' ↦ w' | failed w' ↦ w' | undefined ↦ w ]

  abbrev pub perform_all : Writer E → List (Call E) → Writer E
  perform_all w [] = w
  perform_all w (c ∷ cs) = perform_all (perform w c) cs

module _ {E : Type 0} (env : Env) (rely : IsReliable env) where
  -- The writer after a call stands for the list `xs`.
  abbrev pub Becomes : Writer E → Writer E → List E → Type 0
  Becomes w w' xs = Synced env rely w' × (w'.list_id ≡ w.list_id) × (values w'.elements ≡ xs)

  of_Leaves :
      (c : Call E) (w : Writer E) (xs : List E)
      → Leaves env rely (call env c) w xs
      → Becomes w (perform env w c) xs
  of_Leaves c w xs l = rw (l.runs, perform) (l.synced, l.same_id, l.left)

  of_failed :
      (c : Call E) (w : Writer E) (xs : List E)
      → call env c w ≡ failed w
      → values w.elements ≡ xs
      → Synced env rely w
      → Becomes w (perform env w c) xs
  of_failed c w xs h e s = rw (h, perform) (s, refl, e)

  prepend_then :
      (v : E) (vs : List E) (w : Writer E) (xs ys : List E)
      → (first : Leaves env rely (prepend env v) w xs)
      → Leaves env rely (prepend_each env vs) first.after ys
      → Leaves env rely (prepend_each env (v ∷ vs)) w ys
  unfolding prepend_each
  prepend_then v vs w xs ys first others = record {
    after = others.after;
    runs = ground (arith, first.runs, others.runs);
    synced = others.synced;
    same_id = others.same_id ∙ first.same_id;
    left = others.left;
  }

  prepend_each-Leaves :
      (vs : List E) (w : Writer E) (xs : List E)
      → values w.elements ≡ xs
      → Synced env rely w
      → Leaves env rely (prepend_each env vs) w (reverse vs ++ xs)
  prepend_each-Leaves [] w xs h s = record {
    after = w;
    runs = unfold prepend_each in refl;
    synced = s;
    same_id = refl;
    left = h;
  }
  prepend_each-Leaves (v ∷ vs) w xs h s =
      let first = prepend-Leaves env rely w v s in
      let others =
        prepend_each-Leaves vs first.after (v ∷ xs) (first.left ∙ ap (◌∷◌ v) h) first.synced in
      let same : reverse vs ++ v ∷ xs ≡ reverse (v ∷ vs) ++ xs =
        sym (append_assoc (reverse vs) (v ∷ []) xs)
        ∙ ap (λ ys. ys ++ xs) (sym (reverse-cons v vs)) in
      prepend_then v vs w (v ∷ values w.elements) (reverse (v ∷ vs) ++ xs) first
        (subst (Leaves env rely (prepend_each env vs) first.after) same others)

  no_elements : (es : List (ListElement E)) → length es ≤ 0 → values es ≡ []
  no_elements [] h = refl
  no_elements (e ∷ es) h = elim h [ ]

  clear_then :
      (n : ℕ) (w : Writer E) (x : ListElement E) (xs : List (ListElement E))
      → w.elements ≡ x ∷ xs
      → (first : Leaves env rely (pop_front env) w (values xs))
      → Leaves env rely (clear_loop env n) first.after []
      → Leaves env rely (clear_loop env (suc n)) w []
  unfolding clear_loop
  clear_then n w x xs h first others = record {
    after = others.after;
    runs = ground (arith, h, first.runs, others.runs);
    synced = others.synced;
    same_id = others.same_id ∙ first.same_id;
    left = others.left;
  }

  clear_loop-Leaves :
      (n : ℕ) (es : List (ListElement E)) (w : Writer E)
      → w.elements ≡ es
      → length es ≤ n
      → Synced env rely w
      → Leaves env rely (clear_loop env n) w []
  clear_loop-Leaves zero es w h l s = record {
    after = w;
    runs = unfold clear_loop in refl;
    synced = s;
    same_id = refl;
    left = ap values h ∙ no_elements es l;
  }
  clear_loop-Leaves (suc n) [] w h l s = record {
    after = w;
    runs = unfold clear_loop in ground (arith, h);
    synced = s;
    same_id = refl;
    left = ap values h;
  }
  clear_loop-Leaves (suc n) (x ∷ xs) w h l s =
      let first = pop_front-Leaves env rely w x xs h s in
      let shorter : length first.after.elements ≡ length xs =
        sym (length-map first.after.elements (λ e. e.element))
        ∙ ap length first.left
        ∙ length-map xs (λ e. e.element) in
      clear_then n w x xs h first (
        clear_loop-Leaves n first.after.elements first.after refl (omega (arith, shorter))
          first.synced)

  set-none :
      (es : List (ListElement E)) (pos : ℕ) (v : E)
      → get_elem? es pos ≡ none
      → values es ≡ set (values es) pos v
  set-none [] pos v h = refl
  set-none (x ∷ xs) zero v h = cc
  set-none (x ∷ xs) (suc pos) v h = ap (◌∷◌ x.element) (set-none xs pos v h)

  append-Becomes :
      (v : E) (w : Writer E) (es : List (ListElement E))
      → w.elements ≡ es
      → Synced env rely w
      → Becomes w (perform env w (appends v)) (values w.elements ++ v ∷ [])
  append-Becomes v w [] h s =
      of_Leaves (appends v) w (values w.elements ++ v ∷ []) (append_to_empty env rely w v s h)
  append-Becomes v w (x ∷ xs) h s =
      let (back, e) = get_last?-cons x xs in
      of_Leaves (appends v) w (values w.elements ++ v ∷ [])
        (append_to_list env rely w v s back (ap get_last? h ∙ e))

  prepend_all-Becomes :
      (vs : List E) (w : Writer E)
      → Synced env rely w
      → Becomes w (perform env w (prepends_all vs)) (vs ++ values w.elements)
  prepend_all-Becomes [] w s =
      of_failed (prepends_all []) w (values w.elements) (unfold prepend_all in refl) refl s
  prepend_all-Becomes (v ∷ []) w s =
      let p = prepend-Leaves env rely w v s in
      of_Leaves (prepends_all (v ∷ [])) w (v ∷ values w.elements) (record {
        after = p.after;
        runs = unfold prepend_all in p.runs;
        synced = p.synced;
        same_id = p.same_id;
        left = p.left;
      })
  prepend_all-Becomes (v ∷ u ∷ us) w s =
      let vs = v ∷ u ∷ us in
      let p = prepend_each-Leaves (reverse vs) w (values w.elements) refl s in
      of_Leaves (prepends_all vs) w (vs ++ values w.elements) (record {
        after = p.after;
        runs = unfold prepend_all in p.runs;
        synced = p.synced;
        same_id = p.same_id;
        left = p.left ∙ ap (λ ys. ys ++ values w.elements) (reverse-reverse vs);
      })

  pop-Becomes :
      (w : Writer E) (es : List (ListElement E))
      → w.elements ≡ es
      → Synced env rely w
      → Becomes w (perform env w pops) (spec pops (values w.elements))
  pop-Becomes w [] h s =
      rw (ap values h) (of_failed pops w [] (unfold pop_front in ground (arith, h)) (ap values h) s)
  pop-Becomes w (x ∷ xs) h s =
      rw (ap values h) (of_Leaves pops w (values xs) (pop_front-Leaves env rely w x xs h s))

  pub perform-Becomes :
      (c : Call E) (w : Writer E)
      → Synced env rely w
      → Becomes w (perform env w c) (spec c (values w.elements))
  perform-Becomes (prepends v) w s =
      of_Leaves (prepends v) w (v ∷ values w.elements) (prepend-Leaves env rely w v s)
  perform-Becomes (appends v) w s = append-Becomes v w w.elements refl s
  perform-Becomes (prepends_all vs) w s = prepend_all-Becomes vs w s
  perform-Becomes (updates v pos) w s = elim (Option-cases (get_elem? w.elements pos)) [
    | inl out ↦
        of_failed (updates v pos) w (set (values w.elements) pos v)
          (unfold update in ground (arith, out)) (set-none w.elements pos v out) s
    | inr (old, h) ↦
        of_Leaves (updates v pos) w (set (values w.elements) pos v)
          (update-Leaves env rely w v pos old h s)
  ]
  perform-Becomes pops w s = pop-Becomes w w.elements refl s
  perform-Becomes clears w s =
      let p =
        clear_loop-Leaves (length w.elements) w.elements w refl (le_refl (length w.elements)) s in
      of_Leaves clears w [] (record {
        after = p.after;
        runs = unfold clear in p.runs;
        synced = p.synced;
        same_id = p.same_id;
        left = p.left;
      })
