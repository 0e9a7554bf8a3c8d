-- ===== src/LargeSet/Writer/Steps.antt =====
-- What the calls of a set's writer do to its elements when every message is sent, and that its
-- containers, its metadata and its readers keep up.
use umaa_cpp.Base.{
  ℕ, suc, ◌≡◌, refl, Bool, true, false, not, ◌&&◌, none, some, List, [], ◌∷◌, ◌++◌, arith,
  if◌then◌else◌, All, Bool-cases, inl, inr, length,
}
use umaa_cpp.Base.Sets.{Equality, has, add}
use umaa_cpp.LargeList.{is_late}
use umaa_cpp.LargeList.Writer.{Env}
use umaa_cpp.LargeList.Writer.Stores.{IsReliable}
use umaa_cpp.LargeSet.{SetElement}
use umaa_cpp.LargeSet.Generate.{alive}
use umaa_cpp.LargeSet.Writer.{Writer, described, insert, add_element, new_set_element}
use umaa_cpp.LargeSet.Writer.Ids.{any}
use umaa_cpp.LargeSet.Writer.Elements.{
  values, by_value, values-snoc, found_has, add_lem, assign_lem,
}
use umaa_cpp.LargeSet.Writer.Sync.{Made-mono, Made, Held, Held-insert}

-- Whether an element of the writer is newer than its metadata.
abbrev pub is_ahead : {E : Type 0} → Writer E → Bool
is_ahead w = any (λ e. is_late w.metadata.update_element_timestamp e.element_timestamp) w.elements

-- Whether an update would move a value onto another one that is there.
abbrev pub collides : {E : Type 0} → Equality E → E → E → List E → Bool
collides q prev v vs = has q prev vs && (not (q.same v prev) && has q v vs)

module _ {E : Type 0} (q : Equality E) (env : Env) where
  pub record Sync (w : Writer E) : Type 0 where
    pub table : w.element_table ≡ by_value w.elements
    pub held : Held q env w.set_id w.bus w.guids_used w.stamps_used w.elements
    pub meta_id : w.metadata.set_id ≡ w.set_id
    pub meta_size : w.metadata.size ≡ length w.elements
    pub meta_time : is_ahead w ≡ false

module _ {E : Type 0} (q : Equality E) (env : Env) (rely : IsReliable env) where
  pub not_late :
      (id g s : ℕ) (es : List (SetElement E))
      → All (Made env id g (suc s)) es
      → any (λ e. is_late (some (env.clock s)) e.element_timestamp) es ≡ false
  not_late id g s [] a = refl
  not_late id g s (e ∷ es) (a, rest) =
      let (k, l, o) = a.moment in
      rw o (ground (arith, rely.forward k s (omega (arith, l)), not_late id g s es rest))

  pub no_limit : (es : List (SetElement E)) → any (λ e. is_late none e.element_timestamp) es ≡ false
  no_limit [] = refl
  no_limit (e ∷ es) = no_limit es

  -- The writer after an insertion that succeeds.
  abbrev inserted : E → Writer E → Writer E
  inserted v w =
      let e = (new_set_element env v w).0 in
      described e false (record w {
        elements = w.elements ++ e ∷ [];
        element_table = by_value (w.elements ++ e ∷ []);
        guids_used = suc w.guids_used;
        stamps_used = suc w.stamps_used;
        sends = suc w.sends;
        bus = alive e ∷ w.bus;
      })

  insert_lem :
      (v : E) (w : Writer E)
      → Sync q env w
      → (insert q env v none true w).2 ≡ (if has q v (values w.elements) then w else inserted v w)
  unfolding insert add_element
  insert_lem v w y =
      let e = (new_set_element env v w).0 in
      ground (
        arith,
        y.table,
        found_has q v w.elements,
        rely.sent w.sends,
        add_lem q e w.elements,
        assign_lem q e w.elements,
      )

  pub insert-Sync :
      (v : E) (w : Writer E) → Sync q env w → Sync q env (insert q env v none true w).2
  insert-Sync v w y = rw (insert_lem v w y) (elim (Bool-cases (has q v (values w.elements))) [
    | inl h ↦ rw h y
    | inr h ↦
        let e = (new_set_element env v w).0 in
        let k =
          Held-insert q env rely w.set_id w.bus w.guids_used w.stamps_used w.elements e refl refl
            refl h y.held in
        rw h (record {
          table = refl;
          held = k;
          meta_id = y.meta_id;
          meta_size = refl;
          meta_time =
              not_late w.set_id (suc w.guids_used) w.stamps_used (w.elements ++ e ∷ []) k.kept.made;
        })
  ])

  pub insert-values :
      (v : E) (w : Writer E)
      → Sync q env w
      → values (insert q env v none true w).2.elements ≡ add q v (values w.elements)
  insert-values v w y =
      let e = (new_set_element env v w).0 in
      ground (arith, insert_lem v w y, values-snoc e w.elements)

  -- GUIDs and time stamps that are drawn for something else.
  pub drawn-Sync :
      (w : Writer E)
      → Sync q env w
      → Sync q env (record w { guids_used = suc w.guids_used; stamps_used = suc w.stamps_used })
  drawn-Sync w y =
      let k = y.held.kept in
      record {
        table = y.table;
        held = record {
          different = y.held.different;
          kept = record {
            unique = k.unique;
            made =
                Made-mono q env rely w.set_id w.guids_used (suc w.guids_used) w.stamps_used
                  (suc w.stamps_used) w.elements (omega arith) (omega arith) k.made;
            known = k.known;
          };
        };
        meta_id = y.meta_id;
        meta_size = y.meta_size;
        meta_time = y.meta_time;
      }
