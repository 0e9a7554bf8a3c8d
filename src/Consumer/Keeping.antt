-- ===== src/Consumer/Keeping.antt =====
-- What every method of CommandConsumerBase.h that reads statuses keeps.
use umaa_cpp.Base.{
  ℕ, zero, suc, ◌≡◌, inl, inr, subst, Bool, true, false, not, Option, none, some, if◌then◌else◌,
  Option-cases,
}
use umaa_cpp.Transport.Reading.{ReadStatus, is_sample}
use umaa_cpp.StateMachine.Command as C
use umaa_cpp.Consumer.{Report, Consumer, Env, read_loop, read_status, take_status}
use umaa_cpp.Consumer.Sessions.{terminated_loop}
use umaa_cpp.Consumer.Calls.{after, after_read}

-- A call that returns leaves a consumer that satisfies `P`.
abbrev pub Keeps : {A : Type 0} → (Consumer A → Type 0) → Option (Consumer A) → Type 0
Keeps P none = Unit
Keeps P (some c) = P c

pub if-Keeps :
    {A X : Type 0} (P : Consumer A → Type 0) (f : X → Option (Consumer A)) (b : Bool) (x y : X)
    → Keeps P (f x)
    → Keeps P (f y)
    → Keeps P (f (if b then x else y))
if-Keeps P f true x y h k = h
if-Keeps P f false x y h k = k

pub if_true-Keeps :
    {A X : Type 0} (P : Consumer A → Type 0) (f : X → Option (Consumer A)) (b : Bool) (x y : X)
    → b ≡ true
    → Keeps P (f x)
    → Keeps P (f (if b then x else y))
if_true-Keeps P f b x y e h = rw e h

pub if_false-Keeps :
    {A X : Type 0} (P : Consumer A → Type 0) (f : X → Option (Consumer A)) (b : Bool) (x y : X)
    → b ≡ false
    → Keeps P (f y)
    → Keeps P (f (if b then x else y))
if_false-Keeps P f b x y e h = rw e h

module _ {A B D : Type 0} (env : Env B D) (fuel : ℕ) (P : Consumer A → Type 0)
    (take : (s : ReadStatus) (m : Report C.CommandStatus) (c : Consumer A)
      → P c
      → P (take_status env fuel s m c).2)
    (skip : (at : ℕ) (c : Consumer A) → P c → P (record c { statuses_read = at })) where
  -- What reads and the statuses that they take keep, every method that reads statuses keeps.
  pub read_status-Keeps :
      (given : Bool) (c : Consumer A) → P c → Keeps P (after_read (read_status env fuel given c))
  unfolding read_status
  read_status-Keeps given c i = if-Keeps P after_read (not given) _ _ i (
      if-Keeps P after_read (not c.is_command_alive) _ _ i
        (elim (Option-cases (read_loop env.next_status c.header fuel c.statuses_read)) [
          | inl h ↦ rw h tt
          | inr ((s, none, at), h) ↦ rw h (skip at c i)
          | inr ((s, some m, at), h) ↦
              rw h (take s m (record c { statuses_read = at }) (skip at c i))
        ]))

  pub loop-Keeps :
      (rounds : ℕ) (c : Consumer A) → P c → Keeps P (after (terminated_loop env fuel rounds c))
  unfolding terminated_loop
  loop-Keeps zero c i = tt
  loop-Keeps (suc rounds) c i =
      if-Keeps P after (not c.is_command_alive) _ _ i
        (elim (Option-cases (read_status env fuel true c)) [
          | inl h ↦ rw h tt
          | inr ((s, m, c'), h) ↦
              let i' : P c' = subst (λ o. Keeps P (after_read o)) h (read_status-Keeps true c i) in
              rw h (if-Keeps P after (is_sample s) _ _ (loop-Keeps rounds c' i') i')
        ])
