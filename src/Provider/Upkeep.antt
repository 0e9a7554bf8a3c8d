-- ===== src/Provider/Upkeep.antt =====
-- Whole cycles of the provider: what they keep and what they leave active.
use umaa_cpp.Base.{
  ℕ, ◌≡◌, refl, ◌∙◌, subst, Bool, true, false, List, [], ◌∷◌, arith, Option-cases, inl, inr,
}
use umaa_cpp.Base.Table.{lookup}
use umaa_cpp.Provider.{
  Session, World, Env, Read, received, disposed, read_error, read_not_implemented, no_data,
  invalid_data, ask,
}
use umaa_cpp.Provider.Handlers.{handle_update}
use umaa_cpp.Provider.Incoming.{
  Provider, while_busy, cancel_queued, update_active, take_command, take_disposal, handle_incoming,
  find_queued,
}
use umaa_cpp.Provider.Sweep.{lookup-All}
use umaa_cpp.Provider.Invariant.{
  WellFormed, Keyed-insert, add_command-WellFormed, while_busy-WellFormed, update-same_id,
  cancel_active-WellFormed, remove_queued-AllNew,
}

module _ {A : Type 0} (env : Env A) where
  update_active-WellFormed :
      (id : ℕ) (command : A) (s : Session A) (p : Provider A)
      → s.id ≡ id
      → WellFormed p
      → WellFormed (update_active env id command s p).1
  unfolding update_active
  update_active-WellFormed id command s p same wf = record {
    keyed =
        Keyed-insert id (handle_update env command id s p.world).session p.active
          (update-same_id env command id s p.world ∙ same) wf.keyed;
    fresh = wf.fresh;
  }

  cancel_queued-WellFormed :
      (id : ℕ) (s : Session A) (p : Provider A)
      → WellFormed p
      → WellFormed (cancel_queued env id s p).1
  unfolding cancel_queued
  cancel_queued-WellFormed id s p wf = record {
    keyed = wf.keyed;
    fresh = remove_queued-AllNew id p.queue wf.fresh;
  }

  take_command-WellFormed :
      (id : ℕ) (command : A) (p : Provider A)
      → WellFormed p
      → (ss : List (ℕ × Session A)) → p.active ≡ ss
      → WellFormed (take_command env id command p).1
  unfolding take_command
  take_command-WellFormed id command p wf [] h =
      rw (h, take_command) (add_command-WellFormed env id command p wf)
  take_command-WellFormed id command p wf (x ∷ xs) h = elim (Option-cases (lookup id p.active)) [
    | inl n ↦
        let same : while_busy env id command p ≡ take_command env id command p =
          ground (arith, h, n) in
        subst (λ (q : Bool × Provider A). WellFormed q.1) same
          (while_busy-WellFormed env id command p wf)
    | inr (s, f) ↦
        let same : update_active env id command s p ≡ take_command env id command p =
          ground (arith, h, f) in
        subst (λ (q : Bool × Provider A). WellFormed q.1) same
          (update_active-WellFormed id command s p
            (lookup-All (λ e. e.1.id ≡ e.0) id s p.active f wf.keyed) wf)
  ]

  take_disposal-WellFormed :
      (id : ℕ) (p : Provider A) → WellFormed p → WellFormed (take_disposal env id p).1
  unfolding take_disposal
  take_disposal-WellFormed id p wf = elim (Option-cases (lookup id p.active)) [
    | inl n ↦ elim (Option-cases (find_queued id p.queue)) [
      | inl m ↦ rw (n, m, take_disposal) wf
      | inr (s, m) ↦ rw (n, m, take_disposal) (cancel_queued-WellFormed id s p wf)
    ]
    | inr (s, f) ↦
        rw (f, take_disposal)
          (cancel_active-WellFormed env id s p
            (lookup-All (λ e. e.1.id ≡ e.0) id s p.active f wf.keyed) wf p.queue refl)
  ]

  -- The provider after its world has changed.
  moved : (p : Provider A) (w : World A) → WellFormed p → WellFormed (record p { world = w })
  moved p w wf = record { keyed = wf.keyed; fresh = wf.fresh }

  pub handle_incoming-WellFormed :
      (p : Provider A) → WellFormed p → WellFormed (handle_incoming env p).1
  unfolding handle_incoming
  handle_incoming-WellFormed p wf = by_read (env.read p.world.asked)
    where
      by_read :
          (r : Read A)
          → WellFormed
              (elim r as (λ _. Bool × Provider A) [
                | read_error ↦ (false, record p { world = ask p.world })
                | read_not_implemented ↦ (false, record p { world = ask p.world })
                | no_data ↦ (true, record p { world = ask p.world })
                | invalid_data ↦ (true, record p { world = ask p.world })
                | disposed id command ↦ take_disposal env id (record p { world = ask p.world })
                | received id command ↦
                    take_command env id command (record p { world = ask p.world })
              ]).1
      by_read (received id command) =
          take_command-WellFormed id command (record p { world = ask p.world })
            (moved p (ask p.world) wf) p.active refl
      by_read (disposed id command) =
          take_disposal-WellFormed id (record p { world = ask p.world }) (moved p (ask p.world) wf)
      by_read _ = moved p (ask p.world) wf
