-- ===== src/Conditional/Upsert.antt =====
-- ConditionalAddProvider.cpp keeps one conditional for each id in the report.
use umaa_cpp.Base.{
  ℕ, suc, ◌≡◌, refl, sym, ◌∙◌, ap, subst, true, false, Option, none, some, arith, Bool-cases,
  Option-cases, inl, inr,
}
use umaa_cpp.Base.Sets.{Equality, add, remove}
use umaa_cpp.Transport.{is_success}
use umaa_cpp.LargeList.Writer.Stores.{IsReliable}
use umaa_cpp.LargeSet.Writer.{Writer, update, insert}
use umaa_cpp.LargeSet.Writer.Elements.{values}
use umaa_cpp.LargeSet.Writer.Steps.{Sync, collides, insert-Sync, insert-values, drawn-Sync}
use umaa_cpp.LargeSet.Writer.Update.{update-Sync}
use umaa_cpp.Provider.{StateResult, stay, advance, err}
use umaa_cpp.Conditional.{
  ConditionalType, Specialized, Env, Service, is_known, drawn_guid, drawn_time, hand_out, find_id,
  get_conditional_by_id, add_conditional, update_conditional, dispose_conditional_specialization,
  send_report,
}
use umaa_cpp.Conditional.Add.{place, upsert, publish_payload, dispatch_resolve}
use umaa_cpp.Conditional.Ids.{
  UniqueIds, by_id, has_id, find_id-values, by_id-missing, by_id-found, same_by_id, add-UniqueIds,
  remove-UniqueIds, id_removed,
}

module _ {P S : Type 0} (q : Equality (ConditionalType P)) (env : Env P S) where
  -- The set of the service is in order, and no two of its conditionals share an id.
  abbrev pub Keyed : Service P S → Type 0
  Keyed r = Sync q env.set r.set × UniqueIds (values r.set.elements)

  -- Its conditional under the id of `c` is `c`.
  abbrev pub Lists : ConditionalType P → Service P S → Type 0
  Lists c r = get_conditional_by_id c.conditional_id r ≡ some c

module _ {P S : Type 0} (q : Equality (ConditionalType P)) (env : Env P S)
    (rely : IsReliable env.set) where
  add-Keyed :
      (c : ConditionalType P) (r : Service P S)
      → get_conditional_by_id c.conditional_id r ≡ none
      → Keyed q env r
      → Keyed q env (add_conditional q env c r).1 × Lists q env c (add_conditional q env c r).1
  unfolding get_conditional_by_id add_conditional
  add-Keyed c r h (y, u) =
      let vs = values r.set.elements in
      let w' = (insert q env.set c none true r.set).2 in
      let y' = insert-Sync q env.set rely c r.set y in
      let e = insert-values q env.set rely c r.set y in
      let missing =
        by_id-missing c.conditional_id vs
          (sym (find_id-values c.conditional_id r.set.elements) ∙ h) in
      let (u', found) = add-UniqueIds q c vs missing u in
      (
        (y', subst UniqueIds (sym e) u'),
        find_id-values c.conditional_id w'.elements ∙ ap (by_id c.conditional_id) e ∙ found,
      )

  update_lem :
      (c old : ConditionalType P) (r : Service P S)
      → get_conditional_by_id c.conditional_id r ≡ some old
      → (update_conditional q env c r).1 ≡ record r { set = (update q env.set old c r.set).1 }
  unfolding update_conditional
  update_lem c old r h = ground (arith, h)

  update-Keyed :
      (c old : ConditionalType P) (r : Service P S)
      → get_conditional_by_id c.conditional_id r ≡ some old
      → Keyed q env r
      → Keyed q env (update_conditional q env c r).1
        × Lists q env c (update_conditional q env c r).1
  unfolding get_conditional_by_id
  update-Keyed c old r h (y, u) =
      let vs = values r.set.elements in
      let w' = (update q env.set old c r.set).1 in
      let (i, there) =
        by_id-found q c.conditional_id vs old
          (sym (find_id-values c.conditional_id r.set.elements) ∙ h) in
      let apart : collides q old c vs ≡ false = ground (arith, same_by_id q c old vs u, there, i) in
      let (y', e) = update-Sync q env.set rely old c r.set y apart in
      let gone : has_id c.conditional_id (remove q old vs) ≡ false =
        subst (λ id. has_id id (remove q old vs) ≡ false) i (id_removed q old vs u there) in
      let (u', found) = add-UniqueIds q c (remove q old vs) gone (remove-UniqueIds q old vs u) in
      let e' : values w'.elements ≡ add q c (remove q old vs) = e ∙ ground (arith, there) in
      rw (update_lem c old r h) (
        (y', subst UniqueIds (sym e') u'),
        find_id-values c.conditional_id w'.elements ∙ ap (by_id c.conditional_id) e' ∙ found,
      )

  -- The disposal of an old specialization leaves the set alone.
  pub dispose_lem :
      (c : ConditionalType P) (r : Service P S)
      → (dispose_conditional_specialization env c r).1.set ≡ r.set
  unfolding dispose_conditional_specialization
  dispose_lem c r = ground arith

  -- A service with the same set is keyed alike.
  pub Keyed-set : (r r' : Service P S) → r'.set ≡ r.set → Keyed q env r → Keyed q env r'
  Keyed-set r r' e k =
      subst (λ (w : Writer (ConditionalType P)). Sync q env.set w × UniqueIds (values w.elements))
        (sym e) k

  pub by_id_set :
      (id : ℕ) (r r' : Service P S)
      → r'.set ≡ r.set
      → get_conditional_by_id id r' ≡ get_conditional_by_id id r
  unfolding get_conditional_by_id
  by_id_set id r r' e = ap (λ (w : Writer (ConditionalType P)). find_id id w.elements) e

  place-Keyed :
      (c : ConditionalType P) (existing : Option (ConditionalType P)) (r : Service P S)
      → get_conditional_by_id c.conditional_id r ≡ existing
      → Keyed q env r
      → Keyed q env (place q env c existing r).1 × Lists q env c (place q env c existing r).1
  unfolding place
  place-Keyed c none r h k = add-Keyed c r h k
  place-Keyed c (some old) r h k =
      let r' = (dispose_conditional_specialization env old r).1 in
      let same = dispose_lem old r in
      update-Keyed c old r' (by_id_set c.conditional_id r r' same ∙ h) (Keyed-set r r' same k)

  -- A result ADVANCE means that the conditional is listed.
  abbrev Placed : ConditionalType P → StateResult × Service P S → Type 0
  Placed c (advance, r) = Keyed q env r × Lists q env c r
  Placed c (stay, r) = Keyed q env r
  Placed c (err, r) = Keyed q env r

  upsert-Placed :
      (c : ConditionalType P) (existing : Option (ConditionalType P)) (r : Service P S)
      → get_conditional_by_id c.conditional_id r ≡ existing
      → Keyed q env r
      → Placed c (upsert q env c existing r)
  unfolding upsert send_report
  upsert-Placed c existing r h k =
      let (k', l) = place-Keyed c existing r h k in
      let r1 = (place q env c existing r).1 in
      elim (Bool-cases (is_success (place q env c existing r).0)) [
        | inr f ↦ rw f k'
        | inl t ↦ elim (Bool-cases (is_success (env.send r1.sends))) [
          | inr f ↦ rw (t, f) k'
          | inl u ↦ rw (t, u) (k', unfold get_conditional_by_id in l)
        ]
      ]

  -- The conditional with the id and the time stamp of the specialization that is published for it.
  abbrev pub renewed : ConditionalType P → Service P S → ConditionalType P
  renewed requested r = record requested {
    specialization_id = env.set.guid r.set.guids_used;
    specialization_timestamp = env.set.clock r.set.stamps_used;
  }

  publish-Placed :
      (payload : Specialized S) (requested : ConditionalType P) (r : Service P S)
      → Keyed q env r
      → Placed (renewed requested r) (publish_payload q env payload requested r)
  unfolding publish_payload
  publish-Placed payload requested r (y, u) =
      let r1 = drawn_time (drawn_guid r) in
      let k1 : Keyed q env r1 = (drawn-Sync q env.set rely r.set y, u) in
      let existing = get_conditional_by_id requested.conditional_id r1 in
      elim (Bool-cases (is_success (env.send r.sends))) [
        | inr f ↦ rw f k1
        | inl t ↦ rw t (
            upsert-Placed (renewed requested r) existing (hand_out env _ r1).1
              (unfold get_conditional_by_id in refl) k1)
      ]

  dispatch-Placed :
      (requested : ConditionalType P) (r : Service P S)
      → Keyed q env r
      → Placed (renewed requested r) (dispatch_resolve q env requested r)
  unfolding dispatch_resolve
  dispatch-Placed requested r k = elim (Bool-cases (is_known requested.specialization_topic)) [
    | inr n ↦ rw n k
    | inl n ↦ elim (Option-cases (env.payload r.asked requested.specialization_topic requested)) [
      | inl h ↦ rw (n, h) k
      | inr (payload, h) ↦
          rw (n, h) (publish-Placed payload requested (record r { asked = suc r.asked }) k)
    ]
  ]

  Placed-Keyed :
      (c : ConditionalType P) (x : StateResult × Service P S) → Placed c x → Keyed q env x.1
  Placed-Keyed c (advance, r) p = p.0
  Placed-Keyed c (stay, r) p = p
  Placed-Keyed c (err, r) p = p

  Placed-Lists :
      (c : ConditionalType P) (x : StateResult × Service P S)
      → x.0 ≡ advance
      → Placed c x
      → Lists q env c x.1
  Placed-Lists c (advance, r) h p = p.1
  Placed-Lists c (stay, r) h p = absurd (cc)
  Placed-Lists c (err, r) h p = absurd (cc)

  -- With a set writer that draws new GUIDs, reads a clock that does not go back and sends its
  -- elements, and senders of specializations and reports that answer as they like: an add command
  -- keeps the report's set in order and its conditionals of different ids, whatever comes of it.
  pub dispatch-Keyed :
      (requested : ConditionalType P) (r : Service P S)
      → Keyed q env r
      → Keyed q env (dispatch_resolve q env requested r).1
  dispatch-Keyed requested r k =
      Placed-Keyed (renewed requested r) (dispatch_resolve q env requested r)
        (dispatch-Placed requested r k)

  -- Under the same conditions, once an add command advances, the report's conditional of the
  -- requested id is the requested one with the id and the time stamp of its new specialization,
  -- whether there was one before or not.
  pub dispatch-Lists :
      (requested : ConditionalType P) (r : Service P S)
      → Keyed q env r
      → (dispatch_resolve q env requested r).0 ≡ advance
      → get_conditional_by_id requested.conditional_id (dispatch_resolve q env requested r).1
        ≡ some (renewed requested r)
  dispatch-Lists requested r k h =
      Placed-Lists (renewed requested r) (dispatch_resolve q env requested r) h
        (dispatch-Placed requested r k)
