-- ===== src/LargeSet/Writer/Collision.antt =====
-- An update of a set's writer that moves a value onto another one that is there.
use umaa_cpp.Base.{
  suc, ◌+◌, ◌≡◌, refl, sym, ◌∙◌, ap, subst, true, false, some, List, [], ◌∷◌, ◌++◌, arith,
  Option-cases, inl, inr, length, length-append,
}
use umaa_cpp.Base.Sets.{
  Equality, has, has-remove, has-append, SameMembers, Distinct, Distinct-remove,
}
use umaa_cpp.Transport.{success}
use umaa_cpp.LargeList.Writer.{Env}
use umaa_cpp.LargeList.Writer.Stores.{IsReliable}
use umaa_cpp.LargeSet.{SetElement, invalid_set}
use umaa_cpp.LargeSet.Generate.{alive, generate_set_report}
use umaa_cpp.LargeSet.Generate as G
use umaa_cpp.LargeSet.Writer.{Writer, described, find, update}
use umaa_cpp.LargeSet.Writer.Elements.{
  values, by_value, without, values-snoc, values-without, found_has, take_out_lem, erase_lem,
  add_other,
}
use umaa_cpp.LargeSet.Writer.Received.{received}
use umaa_cpp.LargeSet.Writer.Sync.{Kept-update}
use umaa_cpp.LargeSet.Writer.Steps.{Sync, collides, not_late}
use umaa_cpp.LargeSet.Writer.Update.{renewed}
use umaa_cpp.LargeSet.Writer.Batch.{new_with}
use umaa_cpp.LargeSet.Writer.History.{
  Call, spec_all, add_each, are_plain, perform_all, history-Spelled,
}
use umaa_cpp.LargeSet.Writer.Refinement.{
  read_back, informed, read_back_lem, members_lem, late_lem, length-values,
}

module _ {E : Type 0} (q : Equality E) (env : Env) (rely : IsReliable env) where
  -- The writer after such an update: the value keeps its old entry in the table, and both elements
  -- that carry it are in the set of elements.
  abbrev collided : E → SetElement E → E → Writer E → Writer E
  collided prev old v w =
      let e = renewed q env rely old v w in
      described e false (record w {
        elements = without q prev w.elements ++ e ∷ [];
        element_table = by_value (without q prev w.elements);
        stamps_used = suc w.stamps_used;
        sends = suc w.sends;
        bus = alive e ∷ w.bus;
      })

  stays :
      (prev v : E) (es : List (SetElement E))
      → collides q prev v (values es) ≡ true
      → has q v (values (without q prev es)) ≡ true
  stays prev v es c =
      rw (values-without q prev es) (ground (arith, has-remove q v prev (values es)))

  collided_lem :
      (prev v : E) (w : Writer E) (old : SetElement E)
      → Sync q env w
      → find q prev (by_value w.elements) ≡ some old
      → has q v (values (without q prev w.elements)) ≡ true
      → update q env prev v w ≡ (success, collided prev old v w)
  unfolding update
  collided_lem prev v w old y h there =
      let e = renewed q env rely old v w in
      ground (
        arith,
        y.table,
        h,
        rely.sent w.sends,
        take_out_lem q prev w.elements old y.held.different h,
        erase_lem q prev w.elements,
        found_has q v (without q prev w.elements),
        there,
        add_other q prev w.elements old e y.held.different y.held.kept.unique h refl,
      )

  collision :
      (prev v : E) (w : Writer E) (old : SetElement E)
      → Sync q env w
      → find q prev (by_value w.elements) ≡ some old
      → has q v (values (without q prev w.elements)) ≡ true
      → (read_back q (collided prev old v w)).status ≡ invalid_set
  collision prev v w old y h there =
      let e = renewed q env rely old v w in
      let fs = without q prev w.elements in
      let w' = collided prev old v w in
      let k =
        Kept-update q env rely w.set_id w.bus w.guids_used w.stamps_used w.elements prev old e h
          refl refl refl y.held in
      let members : SameMembers q (values fs) (G.values (received w.set_id w'.bus)) = λ x. ground (
        arith,
        members_lem q env w' x k,
        values-snoc e fs,
        has-append q x (values fs) (v ∷ []),
        there,
        q.same_iff v x,
      ) in
      let different : Distinct q (values fs) =
        rw (values-without q prev w.elements)
          (Distinct-remove q prev (values w.elements) y.held.different) in
      let (status, holds) = generate_set_report q (informed w') (values fs) different members in
      let size : length (fs ++ e ∷ []) ≡ length fs + 1 = length-append fs (e ∷ []) in
      ap (λ r. r.status) (read_back_lem q env w' y.meta_id)
      ∙ status
      ∙ ground (
        arith,
        size,
        length-values fs,
        late_lem q env w' (some e.element_timestamp) k,
        not_late q env rely w.set_id w.guids_used w.stamps_used (fs ++ e ∷ []) k.made,
      )

  -- After a history of calls as before, an update of a value of the set to another value that is in
  -- the set as well returns SUCCESS, and its messages and its metadata make a reader report
  -- INVALID_SET.
  pub update-collides :
      (start : List E) (cs : List (Call E)) (prev v : E)
      → are_plain q cs (add_each q start []) ≡ true
      → collides q prev v (spec_all q cs (add_each q start [])) ≡ true
      → ((update q env prev v (perform_all q env cs (new_with q env start))).0 ≡ success)
        × ((read_back q
              (update q env prev v (perform_all q env cs (new_with q env start))).1).status
            ≡ invalid_set)
  update-collides start cs prev v plain c =
      let w = perform_all q env cs (new_with q env start) in
      let (y, e) = history-Spelled q env rely start cs plain in
      let c' = subst (λ vs. collides q prev v vs ≡ true) (sym e) c in
      let there = stays prev v w.elements c' in
      elim (Option-cases (find q prev (by_value w.elements))) [
        | inl h ↦ absurd (ground (arith, h, found_has q prev w.elements, c'))
        | inr (old, h) ↦
            rw (collided_lem prev v w old y h there) (refl, collision prev v w old y h there)
      ]
