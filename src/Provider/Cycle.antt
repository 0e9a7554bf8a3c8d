-- ===== src/Provider/Cycle.antt =====
-- `cycle` of CommandProviderBase.h.
use umaa_cpp.Base.{ℕ, Bool, true, false, none, some, List, [], ◌∷◌, not, ◌&&◌, if◌then◌else◌}
use umaa_cpp.Base.Table.{lookup, erase}
use umaa_cpp.Provider.{Session, World, Env, Behavior, queue_incoming, ask, destroy, destroy_all}
use umaa_cpp.Provider.Handlers.{cycle_rounds}
use umaa_cpp.Provider.Incoming.{Provider, fail_all, handle_incoming}

-- The rounds of one session: ISSUED, COMMANDED, EXECUTING and one that changes nothing.
abbrev pub max_rounds : ℕ
max_rounds = 4

-- What the `all_of` over the sessions leaves.
pub record Sweep (A : Type 0) : Type 0 where
  pub result : Bool
  pub sessions : List (ℕ × Session A)
  pub finals : List ℕ
  pub world : World A

abbrev pub promotes : Behavior → Bool
promotes queue_incoming = true
promotes _ = false

module _ {A : Type 0} where
  -- The front of the queue becomes active when no session is.
  unfoldable pub promote : Provider A → Provider A
  promote p = elim p.active [
    | _ ∷ _ ↦ p
    | [] ↦ elim p.queue [
      | [] ↦ p
      | q ∷ qs ↦ if promotes p.behavior then record p { active = (q.id, q) ∷ []; queue = qs } else p
    ]
  ]

  abbrev pub is_idle : Provider A → Bool
  is_idle p = elim p.active [ [] ↦ true | _ ↦ false ]

module _ {A : Type 0} (env : Env A) where
  -- `all_of` over the active sessions, which stops at the first failure.
  unfoldable pub cycle_all : List (ℕ × Session A) → List ℕ → World A → Sweep A
  unfolding cycle_rounds
  cycle_all [] finals w = record { result = true; sessions = []; finals = finals; world = w }
  cycle_all ((id, s) ∷ ss) finals w = elim (cycle_rounds env max_rounds finals s w) [
    | none ↦ record { result = false; sessions = (id, s) ∷ ss; finals = finals; world = w }
    | some (t, finals') ↦
        let rest = cycle_all ss finals' t.world in
        if t.result
        then record {
          result = rest.result;
          sessions = (id, t.session) ∷ rest.sessions;
          finals = rest.finals;
          world = rest.world;
        }
        else record {
          result = false;
          sessions = (id, t.session) ∷ ss;
          finals = finals';
          world = t.world;
        }
  ]

  -- The erasure of the final sessions.
  unfoldable pub erase_all :
      List ℕ → List (ℕ × Session A) → World A → List (ℕ × Session A) × World A
  erase_all [] ss w = (ss, w)
  erase_all (id ∷ ids) ss w = elim (lookup id ss) [
    | none ↦ erase_all ids ss w
    | some s ↦ erase_all ids (erase id ss) (destroy env s w)
  ]

  -- The failure of every active session, after which none is left.
  unfoldable pub give_up : Provider A → Provider A
  unfolding fail_all
  give_up p =
      let (sessions, w) = fail_all env p.active p.world in
      record p { active = []; world = destroy_all env sessions w }

  unfoldable pub work : Provider A → Bool × Provider A
  unfolding cycle_all erase_all promote
  work p =
      let sweep = cycle_all p.active [] p.world in
      let (left, w) = erase_all sweep.finals sweep.sessions sweep.world in
      (sweep.result, promote (record p { active = left; world = w }))

  unfoldable pub cycle : Provider A → Bool × Provider A
  unfolding handle_incoming give_up work
  cycle p =
      let p1 = record p { world = ask p.world } in
      let (result, p2) = handle_incoming env p1 in
      if not (env.on_cycle p.world.asked) && not (is_idle p)
      then (false, give_up p1)
      else (if not result
          then (false, give_up p2)
          else (if is_idle p2 then (true, p2) else work p2))
