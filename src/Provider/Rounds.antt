-- ===== src/Provider/Rounds.antt =====
-- The loop of `cycle` over one session: it ends, and what it leaves.
use umaa_cpp.Base.{
  sym, ◌∙◌, subst, Option-cases, ◌||◌, Bool-cases, ℕ, zero, suc, ◌+◌, ◌<◌, ◌≤◌, ◌≡◌, ◌≢◌, refl,
  true, false, none, some, List, ◌++◌, ◌==◌, not, inl, inr, ◌&&◌, arith,
}
use umaa_cpp.Base.Table.{contains, contains-append}
use mathlib.Core.Option.{some-injective}
use umaa_cpp.Provider.Cycle.{max_rounds}
use umaa_cpp.Base.Machine.{run}
use umaa_cpp.StateMachine.Command as C
use umaa_cpp.Provider.{Session, World, Env, Turn}
use umaa_cpp.Provider.Handlers.{code, cycle_session, cycle_rounds, finals_of}
use umaa_cpp.Provider.Sessions.{Leads, Leads-trans, Follows, cycle_session-Follows, is_listed}

module _ {A : Type 0} (env : Env A) where
  final_unmoved :
      (s : Session A) (w : World A)
      → 3 ≤ code s.state.current_state
      → cycle_session env s w ≡ record { result = true; session = s; world = w }
  unfolding cycle_session
  final_unmoved s w h = ground (arith, h)

  rounds_end :
      (n : ℕ) (finals : List ℕ) (s : Session A) (w : World A)
      → 3 < suc n + code s.state.current_state
      → cycle_rounds env (suc n) finals s w ≢ none
  unfolding cycle_rounds
  rounds_end zero finals s w h =
      let final = final_unmoved s w (omega (arith, h)) in ground (arith, final)
  rounds_end (suc n) finals s w h =
      let t = cycle_session env s w in
      let follows = cycle_session-Follows env s w in
      let up = follows.onward in
      let rest = rounds_end n (finals ++ finals_of env s) t.session t.world in
      ground (arith, up, rest)

  -- What the rounds of one session leave.
  pub record Settles (finals : List ℕ) (s : Session A) (t : Turn A) (finals' : List ℕ)
      : Type 0 where
    pub same_id : t.session.id ≡ s.id
    pub leads : Leads s.state t.session.state
    pub listed : (not t.result || is_listed t.session.id t.session finals') ≡ true
    pub kept : (k : ℕ) → (not (contains k finals) || contains k finals') ≡ true

  stop-Settles :
      (finals : List ℕ) (s : Session A) (u : Turn A)
      → Follows env s u
      → u.result && not (code s.state.current_state == code u.session.state.current_state) ≡ false
      → Settles finals s u (finals ++ finals_of env s)
  stop-Settles finals s u follows stop = record {
    same_id = follows.same_id;
    leads = follows.leads;
    listed =
        ground
          (arith, stop, follows.same_id, contains-append u.session.id finals (finals_of env s));
    kept = λ k. ground (arith, contains-append k finals (finals_of env s));
  }

  go-Settles :
      (finals : List ℕ) (s : Session A) (u t : Turn A) (finals' : List ℕ)
      → Follows env s u
      → Settles (finals ++ finals_of env s) u.session t finals'
      → Settles finals s t finals'
  go-Settles finals s u t finals' follows settles = record {
    same_id = settles.same_id ∙ follows.same_id;
    leads = Leads-trans follows.leads settles.leads;
    listed = settles.listed;
    kept = λ k. ground (arith, settles.kept k, contains-append k finals (finals_of env s));
  }

  rounds_go :
      (n : ℕ) (finals : List ℕ) (s : Session A) (w : World A)
      → let u = cycle_session env s w in
        u.result && not (code s.state.current_state == code u.session.state.current_state) ≡ true
        → cycle_rounds env (suc n) finals s w
          ≡ cycle_rounds env n (finals ++ finals_of env s) u.session u.world
  unfolding cycle_rounds
  rounds_go n finals s w go = ground (arith, go)

  rounds_stop :
      (n : ℕ) (finals : List ℕ) (s : Session A) (w : World A)
      → let u = cycle_session env s w in
        u.result && not (code s.state.current_state == code u.session.state.current_state) ≡ false
        → cycle_rounds env (suc n) finals s w ≡ some (u, finals ++ finals_of env s)
  unfolding cycle_rounds
  rounds_stop n finals s w stop = ground (arith, stop)

  no_rounds : (finals : List ℕ) (s : Session A) (w : World A) → cycle_rounds env 0 finals s w ≡ none
  unfolding cycle_rounds
  no_rounds finals s w = refl

  pub rounds_settle :
      (n : ℕ) (finals : List ℕ) (s : Session A) (w : World A) (t : Turn A) (finals' : List ℕ)
      → cycle_rounds env n finals s w ≡ some (t, finals')
      → Settles finals s t finals'
  rounds_settle zero finals s w t finals' h = let e = no_rounds finals s w in absurd (cc)
  rounds_settle (suc n) finals s w t finals' h =
      let u = cycle_session env s w in
      let follows = cycle_session-Follows env s w in
      elim (Bool-cases
        (u.result && not (code s.state.current_state == code u.session.state.current_state))) [
          | inl go ↦ go-Settles finals s u t finals' follows (
              rounds_settle n (finals ++ finals_of env s) u.session u.world t finals'
                (sym (rounds_go n finals s w go) ∙ h))
          | inr stop ↦
              subst (λ (p : Turn A × List ℕ). Settles finals s p.0 p.1)
                (some-injective _ _ (sym (rounds_stop n finals s w stop) ∙ h))
                (stop-Settles finals s u follows stop)
        ]

  -- The loop of `cycle` over one session always ends by itself, within the four rounds of the
  -- fuel. It keeps the session's id, and what it leaves of the session's state some calls of the
  -- command state machine leave.
  pub session_rounds :
      (finals : List ℕ) (s : Session A) (w : World A)
      → (t : Turn A) × (finals' : List ℕ) × (cycle_rounds env max_rounds finals s w
          ≡ some (t, finals'))
        × (t.session.id ≡ s.id)
        × ((es : List C.Event) × (run C.step s.state es ≡ t.session.state))
  session_rounds finals s w = elim (Option-cases (cycle_rounds env max_rounds finals s w)) [
    | inl out ↦ absurd (rounds_end 3 finals s w (omega arith) out)
    | inr ((t, finals'), h) ↦
        let settles = rounds_settle max_rounds finals s w t finals' h in
        (t, finals', h, settles.same_id, settles.leads)
  ]
