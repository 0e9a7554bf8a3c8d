-- ===== src/LargeSet/Writer/Update.antt =====
-- `update` of a set's writer when every message is sent.
use umaa_cpp.Base.{
  suc, ◌≡◌, refl, true, false, none, some, List, [], ◌∷◌, ◌++◌, arith, if◌then◌else◌, Option-cases,
  inl, inr,
}
use umaa_cpp.Base.Sets.{Equality, has, add, remove as take_out, has-remove}
use umaa_cpp.LargeList.Writer.{Env}
use umaa_cpp.LargeList.Writer.Stores.{IsReliable}
use umaa_cpp.LargeSet.{SetElement}
use umaa_cpp.LargeSet.Generate.{alive}
use umaa_cpp.LargeSet.Writer.{Writer, described, find, update}
use umaa_cpp.LargeSet.Writer.Elements.{
  values, by_value, without, values-snoc, values-without, found_has, add_lem, take_out_lem,
  emplace_lem, erase_lem,
}
use umaa_cpp.LargeSet.Writer.Sync.{Held-update}
use umaa_cpp.LargeSet.Writer.Steps.{Sync, collides, not_late}

module _ {E : Type 0} (q : Equality E) (env : Env) (rely : IsReliable env) where
  -- The element that an update makes of `old`, and the writer after it.
  abbrev pub renewed : SetElement E → E → Writer E → SetElement E
  renewed old v w = record old { element = v; element_timestamp = env.clock w.stamps_used }

  abbrev updated : E → SetElement E → E → Writer E → Writer E
  updated prev old v w =
      let e = renewed old v w in
      described e false (record w {
        elements = without q prev w.elements ++ e ∷ [];
        element_table = by_value (without q prev w.elements ++ e ∷ []);
        stamps_used = suc w.stamps_used;
        sends = suc w.sends;
        bus = alive e ∷ w.bus;
      })

  new_value :
      (prev v : E) (es : List (SetElement E))
      → has q prev (values es) ≡ true
      → collides q prev v (values es) ≡ false
      → has q v (values (without q prev es)) ≡ false
  new_value prev v es h c =
      rw (values-without q prev es) (ground (arith, has-remove q v prev (values es)))

  update_missing :
      (prev v : E) (w : Writer E)
      → Sync q env w
      → find q prev (by_value w.elements) ≡ none
      → (update q env prev v w).1 ≡ w
  unfolding update
  update_missing prev v w y h = ground (arith, y.table, h)

  update_found :
      (prev v : E) (w : Writer E) (old : SetElement E)
      → Sync q env w
      → find q prev (by_value w.elements) ≡ some old
      → has q v (values (without q prev w.elements)) ≡ false
      → (update q env prev v w).1 ≡ updated prev old v w
  unfolding update
  update_found prev v w old y h new =
      let e = renewed old v w in
      ground (
        arith,
        y.table,
        h,
        rely.sent w.sends,
        take_out_lem q prev w.elements old y.held.different h,
        erase_lem q prev w.elements,
        add_lem q e (without q prev w.elements) new,
        emplace_lem q e (without q prev w.elements) new,
      )

  pub update-Sync :
      (prev v : E) (w : Writer E)
      → Sync q env w
      → collides q prev v (values w.elements) ≡ false
      → Sync q env (update q env prev v w).1
        × (values (update q env prev v w).1.elements ≡ (
            if has q prev (values w.elements)
            then add q v (take_out q prev (values w.elements))
            else values w.elements))
  update-Sync prev v w y c = elim (Option-cases (find q prev (by_value w.elements))) [
    | inl h ↦ rw (update_missing prev v w y h) (y, ground (arith, found_has q prev w.elements, h))
    | inr (old, h) ↦
        let there : has q prev (values w.elements) ≡ true =
          ground (arith, found_has q prev w.elements, h) in
        let new = new_value prev v w.elements there c in
        let e = renewed old v w in
        let k =
          Held-update q env rely w.set_id w.bus w.guids_used w.stamps_used w.elements prev old e h
            refl refl refl new y.held in
        rw (update_found prev v w old y h new) (
          record {
            table = refl;
            held = k;
            meta_id = y.meta_id;
            meta_size = refl;
            meta_time =
                not_late q env rely w.set_id w.guids_used w.stamps_used
                  (without q prev w.elements ++ e ∷ []) k.kept.made;
          },
          ground (
            arith,
            there,
            values-snoc e (without q prev w.elements),
            values-without q prev w.elements,
            new,
          ),
        )
  ]
