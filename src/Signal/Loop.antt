-- ===== src/Signal/Loop.antt =====
-- `signalhandler` of kernel/proc.c, which runs on the way back to user space.
use risc_v_operating_system.Base.{
  ℕ, zero, suc, ◌+◌, Option, some, none, List, [], ◌∷◌, ◌==◌, if◌then◌else◌, Run, ok, ◌>>=◌,
}
use risc_v_operating_system.Proc.{Proc, ProcState}
use risc_v_operating_system.Signal.{
  UserMemory, sig_dfl, sig_ign, sigkill, sigstop, sigcont, sigcont_func, sigstop_func, sigkill_func,
  is_pending_and_not_masked, turnoff_sigbit, search_cont_signals, usersignalhandler,
}

-- What the rest of the system does to a process that has yielded, until it runs again.
abbrev pub Others : Type 0
Others = List (Proc → Proc)

-- `yield`: the process is runnable, then the scheduler makes it running.
abbrev pub resume : (Proc → Proc) → Proc → Proc
resume others p = record (others (record p { state = ProcState.runnable })) {
  state = ProcState.running;
}

-- `while(p->stopped)`: `none` if the process is still stopped when the list of others ends.
unfoldable pub wait_stopped : Others → Proc → Run (Option (Others × Proc))
wait_stopped [] p =
    if p.stopped
    then (do (found, p) ← search_cont_signals p; ok (if found then some ([], p) else none))
    else ok (some ([], p))
wait_stopped (o ∷ others) p =
    if p.stopped
    then (do
      (found, p) ← search_cont_signals p
      if found then ok (some (o ∷ others, p)) else wait_stopped others (resume o p))
    else ok (some (o ∷ others, p))

-- The kernel's own handler, or the user's.
unfoldable pub run_handler : ℕ → UserMemory → Proc → ℕ → Run (UserMemory × Proc)
run_handler func_size u p i =
    if p.signal_handlers i == sig_dfl
    then (if i == sigstop
        then ok (u, sigstop_func p)
        else if i == sigcont
        then ok (u, sigcont_func p)
        else (do p ← sigkill_func p; ok (u, p)))
    else if p.signal_handlers i == sigstop
    then ok (u, sigstop_func p)
    else if p.signal_handlers i == sigcont
    then ok (u, sigcont_func p)
    else if p.signal_handlers i == sigkill
    then (do p ← sigkill_func p; ok (u, p))
    else usersignalhandler func_size u p i

-- How one round of the loop ends: on to the next signal, by `return`, or still stopped.
pub data Turn : Type 0 where
  onward : Others → UserMemory → Proc → Turn
  return : UserMemory → Proc → Turn
  asleep : Turn

-- One round, after the wait.
unfoldable pub deliver : ℕ → ℕ → Others → UserMemory → Proc → Run Turn
deliver func_size i others u p =
    if is_pending_and_not_masked i p
    then (if p.signal_handling
        then ok (return u p)
        else if p.signal_handlers i == sig_ign
        then ok (onward others u p)
        else (do
          (u, p) ← run_handler func_size u p i
          p ← turnoff_sigbit p i
          ok (onward others u p)))
    else ok (onward others u p)

unfoldable pub signal_round : ℕ → ℕ → Others → UserMemory → Proc → Run Turn
signal_round func_size i others u p = if p.killed then ok (return u p) else (do
  r ← wait_stopped others p
  elim r [ none ↦ ok asleep | some (others', p') ↦ deliver func_size i others' u p' ])

-- The loop over the signals from `i` on; `none` if the process stays stopped.
unfoldable pub signal_loop :
    ℕ → (rounds i : ℕ) → Others → UserMemory → Proc → Run (Option (UserMemory × Proc))
signal_loop func_size zero i others u p = ok (some (u, p))
signal_loop func_size (suc rounds) i others u p = do
  turn ← signal_round func_size i others u p
  elim turn [
    | onward others' u' p' ↦ signal_loop func_size rounds (i + 1) others' u' p'
    | return u' p' ↦ ok (some (u', p'))
    | asleep ↦ ok none
  ]

unfoldable pub signalhandler : ℕ → Others → UserMemory → Proc → Run (Option (UserMemory × Proc))
signalhandler func_size others u p =
    if p.signal_handling then ok (some (u, p)) else signal_loop func_size 32 0 others u p
