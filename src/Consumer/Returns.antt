-- ===== src/Consumer/Returns.antt =====
-- The methods of CommandConsumerBase.h that read statuses return, where the reader runs dry.
use umaa_cpp.Base.{
  ℕ, zero, suc, ◌+◌, ◌<◌, ◌≡◌, ◌⊎◌, inl, inr, sym, ◌∙◌, subst, Bool, true, false, Option, none,
  some, arith, if◌then◌else◌, Bool-cases, ap,
}
use umaa_cpp.Transport.{error}
use umaa_cpp.Transport.Reading.{ReadStatus, is_sample, is_no_data}
use umaa_cpp.Transport.Reading as R
use umaa_cpp.StateMachine.Command as C
use umaa_cpp.Consumer.{
  Report, Consumer, Env, read_loop, read_status, take_status, close_command_session,
  dispose_command,
}
use umaa_cpp.Consumer.Reads.{loop_returns}
use umaa_cpp.Consumer.Sessions.{
  terminated_loop, has_command_terminated, set_up, open_command_session, send_in_session,
  send_command, send,
}

-- A result is there.
abbrev pub Returns {ℓ} : {X : Type ℓ} → Option X → Type ℓ
Returns {X} o = (x : X) × (o ≡ some x)

module _ {A B D : Type 0} (env : Env B D) (fuel : ℕ) where
  -- The status sample `k` further on says NO_DATA.
  abbrev pub RunsDry : ℕ → Consumer A → Type 0
  RunsDry k c = is_no_data (env.next_status (c.statuses_read + k)).0 ≡ true

  -- The session is open, or no command is alive in it.
  abbrev Settled : Consumer A → Type 0
  Settled c = (c.is_session_open ≡ true) ⊎ (c.is_command_alive ≡ false)

  taken :
      (s : ReadStatus) (m : Report C.CommandStatus) (c : Consumer A)
      → ((take_status env fuel s m c).2.statuses_read ≡ c.statuses_read)
        × (((take_status env fuel s m c).0 ≡ s) ⊎ ((take_status env fuel s m c).0 ≡ R.error))
  unfolding take_status close_command_session dispose_command
  taken s m c = ground arith

  taken-Settled :
      (s : ReadStatus) (m : Report C.CommandStatus) (c : Consumer A)
      → Settled c
      → Settled (take_status env fuel s m c).2
  unfolding take_status close_command_session dispose_command
  taken-Settled s m c h = ground arith

  -- A read gives a sample before the one that says NO_DATA, or none.
  abbrev Read : ℕ → Consumer A → Type 0
  Read k c =
      (s : ReadStatus) × (m : Option (Report C.CommandStatus)) × (c' : Consumer A) × (read_status
          env fuel true c
        ≡ some (s, m, c'))
      × (Settled c → Settled c')
      × (((is_sample s ≡ true) × ((j : ℕ) × (j < k) × (c'.statuses_read + j ≡ c.statuses_read + k)))
          ⊎ (is_sample s ≡ false))

  loop_Read :
      (k j : ℕ) (c : Consumer A) (s : ReadStatus) (m : Option (Report C.CommandStatus)) (at : ℕ)
      → c.is_command_alive ≡ true
      → read_loop env.next_status c.header fuel c.statuses_read ≡ some (s, m, at)
      → ((m ≡ none) × (is_sample s ≡ false))
        ⊎ ((j < k) × (at + j ≡ c.statuses_read + k) × (is_sample s ≡ true))
      → Read k c
  unfolding read_status
  loop_Read k j c s none at alive h (inl x) =
      (s, none, record c { statuses_read = at }, ground (arith, alive, h), λ y. y, inr x.1)
  loop_Read k j c s none at alive h (inr x) = (
    s,
    none,
    record c { statuses_read = at },
    ground (arith, alive, h),
    λ y. y,
    inl (x.2, (j, x.0, x.1)),
  )
  loop_Read k j c s (some r) at alive h (inl x) = absurd (cc)
  loop_Read k j c s (some r) at alive h (inr x) =
      let c' = record c { statuses_read = at } in
      let t = take_status env fuel s r c' in
      let (pos, cases) = taken s r c' in
      (
        t.0,
        t.1,
        t.2,
        ground (arith, alive, h),
        taken-Settled s r c',
        elim cases [
          | inl same ↦ inl (ap is_sample same ∙ x.2, (j, x.0, ap (λ i. i + j) pos ∙ x.1))
          | inr failed ↦ inr (ap is_sample failed)
        ],
      )

  status_Read :
      (k : ℕ) (c : Consumer A) → k < fuel → RunsDry k c → c.is_command_alive ≡ true → Read k c
  status_Read k c l dry alive =
      let (j, (s, m, at), h, x) =
        loop_returns env.next_status c.header fuel k c.statuses_read l dry in
      loop_Read k j c s m at alive h x

  -- hasCommandTerminated returns, and says true only of a command that is no longer alive.
  abbrev Decides : ℕ → Consumer A → Type 0
  Decides rounds c =
      (b : Bool) × (c' : Consumer A) × (terminated_loop env fuel rounds c ≡ some (b, c'))
      × (Settled c → Settled c')
      × (if b then c'.is_command_alive ≡ false else Unit)

  loop-Decides :
      (rounds k : ℕ) (c : Consumer A) → k < fuel → k < rounds → RunsDry k c → Decides rounds c
  unfolding terminated_loop
  loop-Decides zero k c l m dry = absurd (omega (arith, m))
  loop-Decides (suc rounds) k c l m dry = elim (Bool-cases c.is_command_alive) [
    | inr dead ↦ (true, c, ground (arith, dead), λ y. y, dead)
    | inl alive ↦
        let (s, r, c', h, keep, cases) = status_Read k c l dry alive in
        elim cases [
          | inr other ↦ (false, c', ground (arith, alive, h, other), keep, tt)
          | inl (sample, (j, less, pos)) ↦
              let dry' = subst (λ i. is_no_data (env.next_status i).0 ≡ true) (sym pos) dry in
              let (b, c2, e, keep', x) =
                loop-Decides rounds j c' (omega (arith, less, l)) (omega (arith, less, m)) dry' in
              (b, c2, ground (arith, alive, h, sample, e), λ y. keep' (keep y), x)
        ]
  ]

  terminated-Decides : (k : ℕ) (c : Consumer A) → k < fuel → RunsDry k c → Decides fuel c
  terminated-Decides k c l dry = loop-Decides fuel k c l l dry

  loop_at_once :
      (rounds : ℕ) (c : Consumer A)
      → 0 < rounds
      → c.is_command_alive ≡ false
      → terminated_loop env fuel rounds c ≡ some (true, c)
  unfolding terminated_loop
  loop_at_once zero c l dead = absurd (omega (arith, l))
  loop_at_once (suc rounds) c l dead = ground (arith, dead)

  open-Returns :
      (k : ℕ) (c : Consumer A) → k < fuel → RunsDry k c → Returns (open_command_session env fuel c)
  unfolding open_command_session has_command_terminated
  open-Returns k c l dry =
      let (b, c', h, _, _) = terminated-Decides k c l dry in
      elim (Bool-cases c.is_session_open) [
        | inl o ↦ ((false, c), ground (arith, o))
        | inr o ↦ elim (Bool-cases b) [
          | inl t ↦ (set_up env fuel c', ground (arith, o, h, t))
          | inr t ↦ ((false, c'), ground (arith, o, h, t))
        ]
      ]

  -- Where no command is alive there is nothing to read.
  open_at_once :
      (c : Consumer A)
      → 0 < fuel
      → c.is_command_alive ≡ false
      → c.is_session_open ≡ false
      → open_command_session env fuel c ≡ some (set_up env fuel c)
  unfolding open_command_session has_command_terminated
  open_at_once c l dead closed = ground (arith, dead, closed, loop_at_once fuel c l dead)

  send-Returns :
      (k : ℕ) (cmd : A) (c : Consumer A)
      → k < fuel
      → RunsDry k c
      → Returns (send env fuel (some cmd) c)
  unfolding send send_in_session has_command_terminated
  send-Returns k cmd c l dry = elim (Bool-cases c.is_session_open) [
    | inr closed ↦
        let ((b, c'), h) = open-Returns k c l dry in
        elim (Bool-cases b) [
          | inl t ↦ (send_command env fuel cmd c', ground (arith, closed, h, t))
          | inr t ↦ ((error, c'), ground (arith, closed, h, t))
        ]
    | inl o ↦
        let (b, c', h, keep, _) = terminated-Decides k c l dry in
        elim (Bool-cases c'.is_session_open) [
          | inl o' ↦ (send_command env fuel cmd c', ground (arith, o, h, o'))
          | inr closed ↦
              let dead : c'.is_command_alive ≡ false = ground (arith, keep (inl o), closed) in
              let at_once = open_at_once c' (omega (arith, l)) dead closed in
              let (b2, c2) = set_up env fuel c' in
              elim (Bool-cases b2) [
                | inl t ↦ (send_command env fuel cmd c2, ground (arith, o, h, closed, at_once, t))
                | inr t ↦ ((error, c2), ground (arith, o, h, closed, at_once, t))
              ]
        ]
  ]

  read-Returns :
      (k : ℕ) (given : Bool) (c : Consumer A)
      → k < fuel
      → RunsDry k c
      → Returns (read_status env fuel given c)
  unfolding read_status
  read-Returns k given c l dry = elim (Bool-cases given) [
    | inr g ↦ ((R.error, none, c), ground (arith, g))
    | inl g ↦ elim (Bool-cases c.is_command_alive) [
      | inr dead ↦ ((R.invalid_data, none, c), ground (arith, g, dead))
      | inl alive ↦ let (s, m, c', h, _, _) = status_Read k c l dry alive in ((s, m, c'), rw g h)
    ]
  ]

  -- Where the status reader says NO_DATA `k` samples on, the read of a status, hasCommandTerminated,
  -- openCommandSession and send return, with no more than `k` and one samples for each read.
  pub consumer-Returns :
      (k : ℕ) (given : Bool) (cmd : A) (c : Consumer A)
      → k < fuel
      → RunsDry k c
      → Returns (read_status env fuel given c)
        × Returns (has_command_terminated env fuel c)
        × Returns (open_command_session env fuel c)
        × Returns (send env fuel (some cmd) c)
  unfolding has_command_terminated
  consumer-Returns k given cmd c l dry =
      let (b, c', h, _, _) = terminated-Decides k c l dry in
      (
        read-Returns k given c l dry,
        ((b, c'), h),
        open-Returns k c l dry,
        send-Returns k cmd c l dry,
      )
