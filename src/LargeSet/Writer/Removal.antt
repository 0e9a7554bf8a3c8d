-- ===== src/LargeSet/Writer/Removal.antt =====
-- `remove` and `clear` of a set's writer when every message is sent.
use umaa_cpp.Base.{
  suc, ◌≡◌, refl, sym, ◌∙◌, ap, true, false, none, some, List, [], ◌∷◌, map, arith, if◌then◌else◌,
  Option-cases, inl, inr,
}
use umaa_cpp.Base.Sets.{Equality, has, remove as take_out, has-remove, remove_absent, Within}
use umaa_cpp.Transport.{SendStatus, success, error, is_success}
use umaa_cpp.LargeList.Writer.{Env}
use umaa_cpp.LargeList.Writer.Stores.{IsReliable}
use umaa_cpp.LargeSet.{SetElement}
use umaa_cpp.LargeSet.Generate.{disposed}
use umaa_cpp.LargeSet.Writer.{Writer, described, find, remove, remove_each, clear}
use umaa_cpp.LargeSet.Writer.Elements.{
  values, by_value, without, values-without, found_has, take_out_lem, erase_lem,
}
use umaa_cpp.LargeSet.Writer.Sync.{Held-remove}
use umaa_cpp.LargeSet.Writer.Steps.{Sync, no_limit}

module _ {E : Type 0} (q : Equality E) (env : Env) (rely : IsReliable env) where
  abbrev removed : E → SetElement E → Writer E → Writer E
  removed v old w = described old true (record w {
    elements = without q v w.elements;
    element_table = by_value (without q v w.elements);
    sends = suc w.sends;
    bus = disposed old ∷ w.bus;
  })

  remove_missing :
      (v : E) (w : Writer E)
      → Sync q env w
      → find q v (by_value w.elements) ≡ none
      → (remove q env v w).1 ≡ w
  unfolding remove
  remove_missing v w y h = ground (arith, y.table, h)

  remove_found :
      (v : E) (w : Writer E) (old : SetElement E)
      → Sync q env w
      → find q v (by_value w.elements) ≡ some old
      → (remove q env v w).1 ≡ removed v old w
  unfolding remove
  remove_found v w old y h = ground (
    arith,
    y.table,
    h,
    rely.sent w.sends,
    take_out_lem q v w.elements old y.held.different h,
    erase_lem q v w.elements,
  )

  take_out_absent : (v : E) (vs : List E) → has q v vs ≡ false → take_out q v vs ≡ vs
  take_out_absent = remove_absent q

  pub remove-Sync :
      (v : E) (w : Writer E)
      → Sync q env w
      → Sync q env (remove q env v w).1
        × (values (remove q env v w).1.elements ≡ take_out q v (values w.elements))
  remove-Sync v w y = elim (Option-cases (find q v (by_value w.elements))) [
    | inl h ↦ rw (remove_missing v w y h) (
      y,
      sym (take_out_absent v (values w.elements) (ground (arith, found_has q v w.elements, h))),
    )
    | inr (old, h) ↦ rw (remove_found v w old y h) (
      record {
        table = refl;
        held =
            Held-remove q env rely w.set_id w.bus w.guids_used w.stamps_used w.elements v old h
              y.held;
        meta_id = y.meta_id;
        meta_size = refl;
        meta_time = no_limit q env rely (without q v w.elements);
      },
      values-without q v w.elements,
    )
  ]

  abbrev take_each : List E → List E → List E
  take_each [] xs = xs
  take_each (v ∷ vs) xs = take_each vs (take_out q v xs)

  take_each-nil : (vs xs : List E) → Within q xs vs → take_each vs xs ≡ []
  take_each-nil [] [] i = refl
  take_each-nil [] (x ∷ xs) i = absurd (ground (arith, i x, q.same_iff x x))
  take_each-nil (v ∷ vs) xs i =
      take_each-nil vs (take_out q v xs)
        (λ z h. ground (arith, i z, has-remove q z v xs, q.same_iff z v, q.same_iff v z))

  remove_each-Sync :
      (vs : List E) (s : SendStatus) (w : Writer E)
      → Sync q env w
      → Sync q env (remove_each q env vs s w).1
        × (values (remove_each q env vs s w).1.elements ≡ take_each vs (values w.elements))
  unfolding remove_each
  remove_each-Sync [] s w y = (y, refl)
  remove_each-Sync (v ∷ vs) s w y =
      let (y', e) = remove-Sync v w y in
      let (y2, e2) =
        remove_each-Sync vs (if is_success (remove q env v w).0 then s else error)
          (remove q env v w).1 y' in
      (y2, e2 ∙ ap (take_each vs) e)

  keys_values : (es : List (SetElement E)) → map (λ x. x.0) (by_value es) ≡ values es
  keys_values [] = refl
  keys_values (e ∷ es) = ap (λ vs. e.element ∷ vs) (keys_values es)

  pub clear-Sync :
      (w : Writer E)
      → Sync q env w
      → Sync q env (clear q env w).1 × (values (clear q env w).1.elements ≡ [])
  unfolding clear
  clear-Sync w y =
      let keys = map (λ x. x.0) w.element_table in
      let same : keys ≡ values w.elements = ap (map (λ x. x.0)) y.table ∙ keys_values w.elements in
      let (y', e) = remove_each-Sync keys success w y in
      (y', e ∙ take_each-nil keys (values w.elements) (λ z h. ap (has q z) same ∙ h))
