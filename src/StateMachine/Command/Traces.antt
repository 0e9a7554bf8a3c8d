-- ===== src/StateMachine/Command/Traces.antt =====
-- What holds of a command after any sequence of calls, resets included.
use umaa_cpp.Base.{
  ℕ, suc, ◌+◌, ◌≤◌, ◌≡◌, ◌≢◌, ◌∙◌, refl, ap, true, List, [], ◌∷◌, ◌++◌, arith, ◌⊎◌, inl,
}
use umaa_cpp.Base.Machine.{run, run-Inv, run-append}
use umaa_cpp.StateMachine.Command.{
  CommandStatus, issued, commanded, executing, completed, failed, Reason, succeeded, updated,
  is_valid, CommandStateMachine, advances, step, Call, answers, resets, call, reset, initial,
  is_state_final,
}

-- The reasons that a reachable state can carry.
abbrev pub Consistent : CommandStateMachine → Type 0
Consistent m = Fits m.current_state m.current_reason
  where
    Fits : CommandStatus → Reason → Type 0
    Fits issued r = (r ≡ succeeded) ⊎ (r ≡ updated)
    Fits CommandStatus.canceled r = r ≡ Reason.canceled
    Fits failed r =
        (is_valid issued r ≡ true) ⊎ (is_valid commanded r ≡ true) ⊎ (is_valid executing r ≡ true)
    Fits _ r = r ≡ succeeded

call-Consistent : (m : CommandStateMachine) (c : Call) → Consistent m → Consistent (call m c).0
unfolding call step reset
call-Consistent m c h = ground arith

-- After any calls, resets included, the reason fits the state: a failed command carries a reason
-- that some active state accepts, a canceled one the reason CANCELED, an issued one SUCCEEDED or
-- UPDATED, and every other one SUCCEEDED.
pub run-Consistent : (cs : List Call) → Consistent (run call initial cs)
run-Consistent cs = run-Inv call Consistent call-Consistent initial cs (inl refl)

abbrev pub NoReset : List Call → Type 0
NoReset [] = Unit
NoReset (c ∷ cs) = (c ≢ resets) × NoReset cs

final_fixed :
    (m : CommandStateMachine) (c : Call)
    → is_state_final m.current_state ≡ true
    → c ≢ resets
    → (call m c).0 ≡ m
unfolding call step
final_fixed m c h n = ground arith

final_run :
    (m : CommandStateMachine) (cs : List Call)
    → is_state_final m.current_state ≡ true
    → NoReset cs
    → run call m cs ≡ m
final_run m [] h n = refl
final_run m (c ∷ cs) h (n, ns) = rw (final_fixed m c h n) (final_run m cs h ns)

reset-initial : (m : CommandStateMachine) → (call m resets).0 ≡ initial
unfolding call reset
reset-initial m = refl

-- A completed, canceled or failed command does not change under any calls other than `reset`; a
-- reset after them makes it a new one, so that whatever follows goes as from the initial state.
pub final_absorbs :
    (m : CommandStateMachine) (cs ds : List Call)
    → is_state_final m.current_state ≡ true
    → NoReset cs
    → (run call m cs ≡ m) × (run call m (cs ++ resets ∷ ds) ≡ run call initial ds)
final_absorbs m cs ds h n = (
  final_run m cs h n,
  run-append call m cs (resets ∷ ds) ∙ ap (λ k. run call k ds) (reset-initial (run call m cs)),
)

abbrev pub count_advances : List Call → ℕ
count_advances [] = 0
count_advances (answers advances ∷ cs) = suc (count_advances cs)
count_advances (c ∷ cs) = count_advances cs

abbrev rank : CommandStatus → ℕ
rank commanded = 1
rank executing = 2
rank completed = 3
rank _ = 0

rank-call :
    (m : CommandStateMachine) (c : Call) (cs : List Call)
    → rank (call m c).0.current_state + count_advances cs
      ≤ rank m.current_state + count_advances (c ∷ cs)
unfolding call step reset
rank-call m c cs = ground arith

rank-run :
    (m : CommandStateMachine) (cs : List Call)
    → rank (run call m cs).current_state ≤ rank m.current_state + count_advances cs
rank-run m [] = omega arith
rank-run m (c ∷ cs) = omega (arith, rank-call m c cs, rank-run (call m c).0 cs)

-- A command is reported completed only after at least three calls of `advanceState`: no update,
-- cancellation, failure or reset completes it.
pub completed_needs_advances :
    (cs : List Call) → (run call initial cs).current_state ≡ completed → 3 ≤ count_advances cs
completed_needs_advances cs h = ground (arith, rank-run initial cs)
