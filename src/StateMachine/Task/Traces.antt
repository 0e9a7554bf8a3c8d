-- ===== src/StateMachine/Task/Traces.antt =====
-- What holds of a task after any sequence of calls, resets included.
use umaa_cpp.Base.{
  ℕ, suc, ◌+◌, ◌≡◌, ◌≢◌, ◌∙◌, refl, ap, Bool, true, false, ◌⊎◌, List, [], ◌∷◌, ◌++◌, arith, take,
  replicate,
}
use umaa_cpp.Base.Machine.{run, run-append}
use umaa_cpp.StateMachine.Task.{
  TaskState, completed, executing, execution_approved, not_planned, not_queued, planning, queued,
  queuing, advances, restarts, step, Call, answers, resets, call, reset, is_state_final, initial,
}

-- Whether the task has been queued, started or finished, which comes after its approval.
abbrev pub is_past_approval : TaskState → Bool
is_past_approval not_queued = true
is_past_approval queuing = true
is_past_approval queued = true
is_past_approval executing = true
is_past_approval completed = true
is_past_approval _ = false

-- What the calls of a history have gone through: states past the approval alone, or the approval
-- and after it such states alone.
abbrev Cleared : TaskState → List Call → Type 0
Cleared s cs =
    ((k : ℕ) → is_past_approval (run call s (take k cs)) ≡ true)
    ⊎ ((n : ℕ) × (run call s (take n cs) ≡ execution_approved)
        × ((k : ℕ) → is_past_approval (run call s (take (n + suc k) cs)) ≡ true))

-- From every state but NOT_PLANNED a restart is accepted, and it with ten advances completes the
-- task.
restart_completes :
    (s : TaskState)
    → s ≢ not_planned
    → ((step s restarts).1 ≡ true) × (run step s (restarts ∷ replicate 10 advances) ≡ completed)
unfolding step
restart_completes not_planned h = absurd (h refl)
restart_completes planning h = (refl, refl)
restart_completes _ h = (refl, refl)

-- Calls other than a restart and a reset.
abbrev pub NoRenewal : List Call → Type 0
NoRenewal [] = Unit
NoRenewal (c ∷ cs) = (c ≢ answers restarts) × (c ≢ resets) × NoRenewal cs

final_call :
    (s : TaskState) (c : Call)
    → is_state_final s ≡ true
    → c ≢ answers restarts
    → c ≢ resets
    → (call s c).0 ≡ s
unfolding call step
final_call s c h n m = ground arith

final_run :
    (s : TaskState) (cs : List Call) → is_state_final s ≡ true → NoRenewal cs → run call s cs ≡ s
final_run s [] h n = refl
final_run s (c ∷ cs) h (n, m, ns) = rw (final_call s c h n m) (final_run s cs h ns)

reset-initial : (s : TaskState) → (call s resets).0 ≡ initial
unfolding call reset
reset-initial s = refl

-- A canceled, completed or failed task does not change under any calls other than `restart` and
-- `reset`; a reset after them makes it a new one, so that whatever follows goes as from the initial
-- state.
pub final_until_restart :
    (s : TaskState) (cs ds : List Call)
    → is_state_final s ≡ true
    → NoRenewal cs
    → (run call s cs ≡ s) × (run call s (cs ++ resets ∷ ds) ≡ run call initial ds)
final_until_restart s cs ds h n = (
  final_run s cs h n,
  run-append call s cs (resets ∷ ds) ∙ ap (λ t. run call t ds) (reset-initial (run call s cs)),
)
