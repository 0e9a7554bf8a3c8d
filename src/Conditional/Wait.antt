-- ===== src/Conditional/Wait.antt =====
-- How long ConditionalAddProvider.cpp waits for a payload.
use umaa_cpp.Base.{
  ℕ, zero, suc, ◌+◌, ◌<◌, ◌^◌, ◌≡◌, true, false, none, ltb, if◌then◌else◌, arith, Option-cases,
  Bool-cases, inl, inr,
}
use umaa_cpp.Base.Sets.{Equality}
use umaa_cpp.Base.Table as T
use umaa_cpp.StateMachine.Command as C
use umaa_cpp.Provider.{stay}
use umaa_cpp.Conditional.{is_known, ConditionalType, Env, Service}
use umaa_cpp.Conditional.Add.{
  PendingAdd, AddProvider, pending_of, settle, dispatch_resolve, on_executing, is_command_completed,
  is_command_failed,
}

module _ {P S : Type 0} (q : Equality (ConditionalType P)) (env : Env P S) (max_wait : ℕ) (id : ℕ)
    (requested : ConditionalType P) where
  -- The provider after onExecuting was called `n` times for the session.
  abbrev pub cycles : ℕ → AddProvider P S → AddProvider P S
  cycles zero a = a
  cycles (suc n) a = (on_executing q env max_wait id requested (cycles n a)).1

  -- What the session's entry is after `n` calls that find no payload.
  abbrev waited : ℕ → PendingAdd
  waited n = record {
    wait_cycles = if ltb max_wait n then max_wait + 1 else n;
    published = false;
    timed_out = ltb max_wait n;
  }

  unanswered :
      (r : Service P S)
      → ((k : ℕ) → env.payload k requested.specialization_topic requested ≡ none)
      → is_known requested.specialization_topic ≡ true
      → (dispatch_resolve q env requested r).0 ≡ stay
  unfolding dispatch_resolve
  unanswered r dry known = ground (arith, dry r.asked, known)

  settle_lem :
      (n : ℕ)
      → max_wait + 1 < 2 ^ 32
      → ltb max_wait n ≡ false
      → (settle max_wait stay (waited n)).1 ≡ waited (suc n)
  settle_lem n l h = ground arith

  step :
      (n : ℕ) (a : AddProvider P S)
      → ((k : ℕ) → env.payload k requested.specialization_topic requested ≡ none)
      → is_known requested.specialization_topic ≡ true
      → max_wait + 1 < 2 ^ 32
      → pending_of id a.pending ≡ waited n
      → pending_of id (on_executing q env max_wait id requested a).1.pending ≡ waited (suc n)
  unfolding on_executing
  step n a dry known l h =
      let answer = unanswered a.report dry known in
      let p' =
        (settle max_wait (dispatch_resolve q env requested a.report).0
          (pending_of id a.pending)).1 in
      elim (Bool-cases (ltb max_wait n)) [
        | inl late ↦
            ground (arith, h, late, T.lookup-insert id id (pending_of id a.pending) a.pending)
        | inr early ↦
            let moved : p' ≡ waited (suc n) = rw (answer, h) (settle_lem n l early) in
            ground (arith, h, early, moved, T.lookup-insert id id p' a.pending)
      ]

  entry :
      (n : ℕ) (a : AddProvider P S)
      → ((k : ℕ) → env.payload k requested.specialization_topic requested ≡ none)
      → is_known requested.specialization_topic ≡ true
      → max_wait + 1 < 2 ^ 32
      → T.lookup id a.pending ≡ none
      → pending_of id (cycles n a).pending ≡ waited n
  entry zero a dry known l h = ground (arith, h)
  entry (suc n) a dry known l h = step n (cycles n a) dry known l (entry n a dry known l h)

  -- While no payload of a known topic arrives for the conditional of a new command, the command is
  -- not completed, and it fails with TIMEOUT exactly after more calls of onExecuting than
  -- maxSpecializationWaitCycles, which is below 2^32 - 1.
  pub waits_then_fails :
      (n : ℕ) (a : AddProvider P S)
      → ((k : ℕ) → env.payload k requested.specialization_topic requested ≡ none)
      → is_known requested.specialization_topic ≡ true
      → max_wait + 1 < 2 ^ 32
      → T.lookup id a.pending ≡ none
      → (is_command_completed id (cycles n a) ≡ false)
        × (is_command_failed id (cycles n a) ≡ (if ltb max_wait n then C.timeout else C.succeeded))
  unfolding is_command_completed is_command_failed
  waits_then_fails n a dry known l h =
      let e = entry n a dry known l h in
      elim (Option-cases (T.lookup id (cycles n a).pending)) [
        | inl x ↦ (ground (arith, x), ground (arith, e, x))
        | inr (p, x) ↦ (ground (arith, e, x), ground (arith, e, x))
      ]
