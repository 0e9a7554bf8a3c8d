-- ===== src/Provider/Settled.antt =====
-- What a whole cycle keeps, and what it leaves active.
use umaa_cpp.Base.{
  ℕ, ◌≡◌, refl, sym, ◌∙◌, ap, subst, Bool, true, false, List, [], ◌∷◌, not, ◌&&◌, All, arith,
  Bool-cases, inl, inr, ◌⊎◌,
}
use umaa_cpp.StateMachine.Command as C
use umaa_cpp.Provider.{Session, Env, ask}
use umaa_cpp.Provider.Incoming.{Provider, handle_incoming}
use umaa_cpp.Provider.Cycle.{cycle_all, erase_all, promote, give_up, work, cycle, is_idle, promotes}
use umaa_cpp.Provider.Sweep.{Listed, erase_all-Listed, erase_all-Keyed, cycle_all-Swept}
use umaa_cpp.Provider.Invariant.{WellFormed, AllNew, of_parts}
use umaa_cpp.Provider.Upkeep.{handle_incoming-WellFormed}

-- No session is in a final state.
abbrev pub NoFinal : {A : Type 0} → List (ℕ × Session A) → Type 0
NoFinal = All (λ e. C.is_state_final e.1.state.current_state ≡ false)

module _ {A : Type 0} where
  Listed-NoFinal : (ss : List (ℕ × Session A)) → Listed [] ss → NoFinal ss
  Listed-NoFinal [] l = tt
  Listed-NoFinal ((id, s) ∷ ss) (l, ls) = (ground (arith, l), Listed-NoFinal ss ls)

  -- Either nothing is promoted, or the front of the queue alone becomes active.
  abbrev Promoted : Provider A → Type 0
  Promoted p =
      (promote p ≡ p)
      ⊎ ((q : Session A) × (qs : List (Session A)) × (p.queue ≡ q ∷ qs)
          × ((promote p).active ≡ (q.id, q) ∷ [])
          × ((promote p).queue ≡ qs))

  promote-cases :
      (p : Provider A) (ss : List (ℕ × Session A)) (qs : List (Session A))
      → p.active ≡ ss
      → p.queue ≡ qs
      → Promoted p
  unfolding promote
  promote-cases p (x ∷ xs) qs h k = inl (ground (arith, h))
  promote-cases p [] [] h k = inl (ground (arith, h, k))
  promote-cases p [] (q ∷ qs) h k = elim (Bool-cases (promotes p.behavior)) [
    | inl b ↦ inr (q, qs, k, ground (arith, h, k, b), ground (arith, h, k, b))
    | inr b ↦ inl (ground (arith, h, k, b))
  ]

  promote-WellFormed : (p : Provider A) → WellFormed p → WellFormed (promote p)
  promote-WellFormed p wf = elim (promote-cases p p.active p.queue refl refl) [
    | inl same ↦ subst WellFormed (sym same) wf
    | inr (q, qs, k, a, b) ↦
        of_parts (promote p) ((q.id, q) ∷ []) qs a b (refl, tt) (subst AllNew k wf.fresh).1
  ]

  promote-NoFinal :
      (p : Provider A) → AllNew p.queue → NoFinal p.active → NoFinal (promote p).active
  promote-NoFinal p new f = elim (promote-cases p p.active p.queue refl refl) [
    | inl same ↦ subst (λ (r : Provider A). NoFinal r.active) (sym same) f
    | inr (q, qs, k, a, b) ↦ subst NoFinal (sym a) (
      ap (λ (m : C.CommandStateMachine). C.is_state_final m.current_state) (subst AllNew k new).0,
      tt,
    )
  ]

module _ {A : Type 0} (env : Env A) where
  work-WellFormed : (p : Provider A) → WellFormed p → WellFormed (work env p).1
  unfolding work
  work-WellFormed p wf =
      let sweep = cycle_all env p.active [] p.world in
      let swept = cycle_all-Swept env p.active [] p.world wf.keyed in
      let erased = erase_all env sweep.finals sweep.sessions sweep.world in
      promote-WellFormed (record p { active = erased.0; world = erased.1 })
        (record {
          keyed = erase_all-Keyed env sweep.finals sweep.sessions sweep.world swept.keyed;
          fresh = wf.fresh;
        })

  work-NoFinal :
      (p : Provider A) → WellFormed p → (work env p).0 ≡ true → NoFinal (work env p).1.active
  unfolding work
  work-NoFinal p wf h =
      let sweep = cycle_all env p.active [] p.world in
      let swept = cycle_all-Swept env p.active [] p.world wf.keyed in
      let erased = erase_all env sweep.finals sweep.sessions sweep.world in
      promote-NoFinal (record p { active = erased.0; world = erased.1 }) wf.fresh
        (Listed-NoFinal erased.0
          (erase_all-Listed env sweep.finals sweep.sessions sweep.world (swept.listed h)))

  give_up-WellFormed : (p : Provider A) → WellFormed p → WellFormed (give_up env p)
  unfolding give_up
  give_up-WellFormed p wf = record { keyed = tt; fresh = wf.fresh }

  cycle-cases :
      (p : Provider A)
      → let p1 = record p { world = ask p.world } in
        let q = handle_incoming env p1 in
        (cycle env p ≡ (false, give_up env p1))
        ⊎ (cycle env p ≡ (false, give_up env q.1))
        ⊎ ((cycle env p ≡ (true, q.1)) × (is_idle q.1 ≡ true))
        ⊎ (cycle env p ≡ work env q.1)
  unfolding cycle
  cycle-cases p =
      let p1 = record p { world = ask p.world } in
      let q = handle_incoming env p1 in
      elim (Bool-cases (not (env.on_cycle p.world.asked) && not (is_idle p))) [
        | inl a ↦ inl (ground (arith, a))
        | inr a ↦ elim (Bool-cases q.0) [
          | inr b ↦ inr (inl (ground (arith, a, b)))
          | inl b ↦ elim (Bool-cases (is_idle q.1)) [
            | inl c ↦ inr (inr (inl (ground (arith, a, b, c), c)))
            | inr c ↦ inr (inr (inr (ground (arith, a, b, c))))
          ]
        ]
      ]

  incoming-WellFormed :
      (p : Provider A)
      → WellFormed p
      → WellFormed (handle_incoming env (record p { world = ask p.world })).1
  incoming-WellFormed p wf =
      handle_incoming-WellFormed env (record p { world = ask p.world })
        (record { keyed = wf.keyed; fresh = wf.fresh })

  -- Every cycle keeps the provider well formed: each active session stands under its own id, and
  -- each session in the queue is in its first state.
  pub cycle-WellFormed : (p : Provider A) → WellFormed p → WellFormed (cycle env p).1
  cycle-WellFormed p wf =
      let p1 = record p { world = ask p.world } in
      let q = handle_incoming env p1 in
      let wq = incoming-WellFormed p wf in
      let Fine : Bool × Provider A → Type 0 = λ r. WellFormed r.1 in
      elim (cycle-cases p) [
        | inl e ↦
            subst Fine (sym e)
              (give_up-WellFormed p1 (record { keyed = wf.keyed; fresh = wf.fresh }))
        | inr (inl e) ↦ subst Fine (sym e) (give_up-WellFormed q.1 wq)
        | inr (inr (inl (e, _))) ↦ subst Fine (sym e) wq
        | inr (inr (inr e)) ↦ subst Fine (sym e) (work-WellFormed q.1 wq)
      ]

  give_up-active : (p : Provider A) → NoFinal (give_up env p).active
  unfolding give_up
  give_up-active p = tt

  idle-NoFinal :
      (p : Provider A) (ss : List (ℕ × Session A))
      → p.active ≡ ss
      → is_idle p ≡ true
      → NoFinal p.active
  idle-NoFinal p [] h i = subst NoFinal (sym h) tt
  idle-NoFinal p (x ∷ xs) h i = absurd (ground (arith, h, i))

  -- A cycle that succeeds leaves no session active that is completed, canceled or failed: those
  -- that come to an end in the cycle are dropped in the same cycle.
  pub cycle-NoFinal :
      (p : Provider A) → WellFormed p → (cycle env p).0 ≡ true → NoFinal (cycle env p).1.active
  cycle-NoFinal p wf ok =
      let p1 = record p { world = ask p.world } in
      let q = handle_incoming env p1 in
      let wq = incoming-WellFormed p wf in
      elim (cycle-cases p) [
        | inl e ↦ absurd (cc)
        | inr (inl e) ↦ absurd (cc)
        | inr (inr (inl (e, i))) ↦
            subst (λ (r : Bool × Provider A). NoFinal r.1.active) (sym e)
              (idle-NoFinal q.1 q.1.active refl i)
        | inr (inr (inr e)) ↦
            subst (λ (r : Bool × Provider A). NoFinal r.1.active) (sym e)
              (work-NoFinal q.1 wq (ap (λ (r : Bool × Provider A). r.0) (sym e) ∙ ok))
      ]
