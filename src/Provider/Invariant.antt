-- ===== src/Provider/Invariant.antt =====
-- What every cycle keeps: sessions stand under their own ids, and those in the queue are new.
use umaa_cpp.Base.{
  ◌⊎◌, ℕ, ◌≡◌, refl, sym, ◌∙◌, subst, List, [], ◌∷◌, ◌++◌, ◌==◌, All, arith, Bool-cases, inl, inr,
}
use umaa_cpp.Base.Table.{insert, erase}
use umaa_cpp.StateMachine.Command as C
use umaa_cpp.Provider.{send_status, Session, World, Env, ask, new_session}
use umaa_cpp.Provider.Handlers.{handle_update, handle_cancel}
use umaa_cpp.Provider.Incoming.{
  Provider, add_command, while_busy, enqueue, reject, cancel_active, remove_queued,
}
use umaa_cpp.Provider.Sessions.{cancel-Follows, issued-Follows}
use umaa_cpp.Provider.Sweep.{Keyed, insert-All, erase-All}

abbrev pub AllNew : {A : Type 0} → List (Session A) → Type 0
AllNew = All (λ s. s.state ≡ C.initial)

pub record WellFormed {A : Type 0} (p : Provider A) : Type 0 where
  pub keyed : Keyed p.active
  pub fresh : AllNew p.queue

module _ {A : Type 0} where
  AllNew-append :
      (xs : List (Session A)) (s : Session A)
      → AllNew xs
      → s.state ≡ C.initial
      → AllNew (xs ++ s ∷ [])
  AllNew-append [] s a h = (h, tt)
  AllNew-append (x ∷ xs) s (b, a) h = (b, AllNew-append xs s a h)

  pub remove_queued-AllNew :
      (id : ℕ) (xs : List (Session A)) → AllNew xs → AllNew (remove_queued id xs)
  remove_queued-AllNew id [] a = tt
  remove_queued-AllNew id (x ∷ xs) (b, a) = elim (Bool-cases (x.id == id)) [
    | inl h ↦ rw h a
    | inr h ↦ rw h (b, remove_queued-AllNew id xs a)
  ]

  pub of_parts :
      (p : Provider A) (ss : List (ℕ × Session A)) (qs : List (Session A))
      → p.active ≡ ss
      → p.queue ≡ qs
      → Keyed ss
      → AllNew qs
      → WellFormed p
  of_parts p ss qs a q k n = record {
    keyed = subst Keyed (sym a) k;
    fresh = subst AllNew (sym q) n;
  }

  pub Keyed-insert :
      (id : ℕ) (s : Session A) (ss : List (ℕ × Session A))
      → s.id ≡ id
      → Keyed ss
      → Keyed (insert id s ss)
  Keyed-insert id s ss h k = insert-All (λ e. e.1.id ≡ e.0) id s ss h k

module _ {A : Type 0} (env : Env A) where
  pub add_command-parts :
      (id : ℕ) (command : A) (p : Provider A)
      → ((add_command env id command p).1.active ≡ insert id (new_session id command) p.active)
        × ((add_command env id command p).1.queue ≡ p.queue)
  unfolding add_command
  add_command-parts id command p = (ground arith, ground arith)

  pub add_command-WellFormed :
      (id : ℕ) (command : A) (p : Provider A)
      → WellFormed p
      → WellFormed (add_command env id command p).1
  add_command-WellFormed id command p wf =
      let (a, q) = add_command-parts id command p in
      of_parts (add_command env id command p).1 _ _ a q
        (Keyed-insert id (new_session id command) p.active refl wf.keyed) wf.fresh

  -- What the switch on the behavior leaves.
  abbrev pub BusyParts : ℕ → A → Provider A → Provider A → Type 0
  BusyParts id command p q =
      let s = new_session id command in
      ((q.active ≡ p.active) × (q.queue ≡ p.queue ++ s ∷ []))
      ⊎ ((q.active ≡ insert id s p.active) × (q.queue ≡ p.queue))
      ⊎ ((q.active ≡ (id, s) ∷ []) × (q.queue ≡ p.queue))
      ⊎ ((q.active ≡ []) × (q.queue ≡ p.queue))
      ⊎ ((q.active ≡ p.active) × (q.queue ≡ p.queue))

  while_busy-parts :
      (id : ℕ) (command : A) (p : Provider A)
      → BusyParts id command p (while_busy env id command p).1
  unfolding while_busy add_command reject enqueue
  while_busy-parts id command p = ground arith

  pub while_busy-WellFormed :
      (id : ℕ) (command : A) (p : Provider A)
      → WellFormed p
      → WellFormed (while_busy env id command p).1
  while_busy-WellFormed id command p wf =
      let s = new_session id command in
      let q = (while_busy env id command p).1 in
      elim (while_busy-parts id command p) [
        | inl (a, b) ↦ of_parts q _ _ a b wf.keyed (AllNew-append p.queue s wf.fresh refl)
        | inr (inl (a, b)) ↦ of_parts q _ _ a b (Keyed-insert id s p.active refl wf.keyed) wf.fresh
        | inr (inr (inl (a, b))) ↦ of_parts q _ _ a b (refl, tt) wf.fresh
        | inr (inr (inr (inl (a, b)))) ↦ of_parts q _ _ a b tt wf.fresh
        | inr (inr (inr (inr (a, b)))) ↦ of_parts q _ _ a b wf.keyed wf.fresh
      ]

  pub update-same_id :
      (command : A) (id : ℕ) (s : Session A) (w : World A)
      → (handle_update env command id s w).session.id ≡ s.id
  unfolding handle_update
  update-same_id command id s w =
      let s' = record s { state = (C.update s.state).0; command = command } in
      let follows = issued-Follows env s' (send_status env s' (ask w)).1 in
      ground (arith, follows.same_id)

  cancel_empty :
      (id : ℕ) (s : Session A) (p : Provider A)
      → p.queue ≡ []
      → let t = handle_cancel env s p.world in
        let q = (cancel_active env id s p).1 in
        ((q.active ≡ erase id p.active) ⊎ (q.active ≡ insert id t.session p.active))
        × (q.queue ≡ [])
  unfolding cancel_active
  cancel_empty id s p h = (ground (arith, h), ground (arith, h))

  cancel_waiting :
      (id : ℕ) (s : Session A) (p : Provider A) (first : Session A) (rest : List (Session A))
      → p.queue ≡ first ∷ rest
      → let t = handle_cancel env s p.world in
        let q = (cancel_active env id s p).1 in
        ((q.active ≡ erase id p.active)
          ⊎ ((first.id ≡ id) × (q.active ≡ insert id first p.active))
          ⊎ (q.active ≡ erase id (insert first.id first p.active))
          ⊎ (q.active ≡ insert id t.session (insert first.id first p.active)))
        × (q.queue ≡ rest)
  unfolding cancel_active
  cancel_waiting id s p first rest h = (ground (arith, h), ground (arith, h))

  pub cancel_active-WellFormed :
      (id : ℕ) (s : Session A) (p : Provider A)
      → s.id ≡ id
      → WellFormed p
      → (qs : List (Session A)) → p.queue ≡ qs
      → WellFormed (cancel_active env id s p).1
  cancel_active-WellFormed id s p same wf [] h =
      let follows = cancel-Follows env s p.world in
      let t = handle_cancel env s p.world in
      let (a, b) = cancel_empty id s p h in
      elim a [
        | inl e ↦ of_parts _ _ [] e b (erase-All _ id p.active wf.keyed) tt
        | inr e ↦
            of_parts _ _ [] e b
              (Keyed-insert id t.session p.active (follows.same_id ∙ same) wf.keyed) tt
      ]
  cancel_active-WellFormed id s p same wf (q ∷ qs) h =
      let follows = cancel-Follows env s p.world in
      let t = handle_cancel env s p.world in
      let (_, n) = subst AllNew h wf.fresh in
      let k = Keyed-insert q.id q p.active refl wf.keyed in
      let (a, b) = cancel_waiting id s p q qs h in
      elim a [
        | inl e ↦ of_parts _ _ qs e b (erase-All _ id p.active wf.keyed) n
        | inr (inl (i, e)) ↦ of_parts _ _ qs e b (Keyed-insert id q p.active i wf.keyed) n
        | inr (inr (inl e)) ↦ of_parts _ _ qs e b (erase-All _ id (insert q.id q p.active) k) n
        | inr (inr (inr e)) ↦
            of_parts _ _ qs e b
              (Keyed-insert id t.session (insert q.id q p.active) (follows.same_id ∙ same) k) n
      ]
