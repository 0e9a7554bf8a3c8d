-- ===== src/Consumer/Open.antt =====
-- The session that is open, against the messages on the bus.
use umaa_cpp.Base.{
  ℕ, suc, ◌<◌, ◌≡◌, ◌≢◌, inl, inr, refl, subst, Bool, true, false, arith, Bool-cases, List, [], ◌∷◌,
}
use umaa_cpp.Transport.{is_error, is_success}
use umaa_cpp.Consumer.{
  Message, command, cancel, Consumer, Env, close_command_session, dispose_command,
}
use umaa_cpp.Consumer.Sessions.{send_command}
use umaa_cpp.Consumer.Calls.{session_of, cancelled, Orderly}

module _ {A B D : Type 0} (env : Env B D) where
  -- Every session on the bus is one of the first `g` GUIDs.
  abbrev pub Drawn : ℕ → List (Message A) → Type 0
  Drawn g [] = Unit
  Drawn g (m ∷ bus) = ((i : ℕ) × (i < g) × (session_of m ≡ env.guid i)) × Drawn g bus

  -- The open session is drawn and not cancelled.
  abbrev pub Live : Bool → ℕ → ℕ → List (Message A) → Type 0
  Live true id g bus = ((i : ℕ) × (i < g) × (id ≡ env.guid i)) × (cancelled id bus ≡ false)
  Live false id g bus = Unit

  abbrev pub Inv : Consumer A → Type 0
  Inv c =
      Orderly c.bus
      × Drawn c.guids_used c.bus
      × Live c.is_session_open c.header.session_id c.guids_used c.bus

  pub Drawn-suc : (g : ℕ) (bus : List (Message A)) → Drawn g bus → Drawn (suc g) bus
  Drawn-suc g [] d = tt
  Drawn-suc g (m ∷ bus) ((i, l, e), d) = ((i, omega (arith, l), e), Drawn-suc g bus d)

  pub fresh :
      (g : ℕ) (bus : List (Message A))
      → ((i j : ℕ) → i < j → env.guid i ≢ env.guid j)
      → Drawn g bus
      → cancelled (env.guid g) bus ≡ false
  fresh g [] new d = refl
  fresh g (command h a ∷ bus) new d = fresh g bus new d.1
  fresh g (cancel h ∷ bus) new ((i, l, e), d) = ground (arith, fresh g bus new d, new i g l, e)

  pub Live-of :
      (c : Consumer A)
      → c.is_session_open ≡ true
      → Inv c
      → Live true c.header.session_id c.guids_used c.bus
  Live-of c o i = subst (λ b. Live b c.header.session_id c.guids_used c.bus) o i.2

  pub close-Inv : (c : Consumer A) → Inv c → Inv (close_command_session env c).1
  unfolding close_command_session dispose_command
  close-Inv c i = elim (Bool-cases c.is_session_open) [
    | inr closed ↦ rw closed (i.0, i.1, tt)
    | inl o ↦
        let live = Live-of c o i in
        elim (Bool-cases (is_error (env.session_tear_down c.asked))) [
          | inl t ↦ rw (o, t) (i.0, i.1, live)
          | inr t ↦ elim (Bool-cases (is_success (env.send c.sends))) [
            | inl d ↦ rw (o, t, d) ((live.1, i.0), (live.0, i.1), tt)
            | inr d ↦ rw (o, t, d) (i.0, i.1, live)
          ]
        ]
  ]

  pub send_command-Inv :
      (fuel : ℕ) (cmd : A) (c : Consumer A)
      → c.is_session_open ≡ true
      → Inv c
      → Inv (send_command env fuel cmd c).1
  unfolding send_command
  send_command-Inv fuel cmd c o i =
      let live = Live-of c o i in
      elim (Bool-cases (is_success (env.send c.sends))) [
        | inl t ↦ rw (t, o) ((live.1, i.0), (live.0, i.1), live)
        | inr t ↦ rw (t, o) (i.0, i.1, live)
      ]
