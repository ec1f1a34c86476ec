-- ===== src/Signal/Tests.antt =====
-- The signal code at small inputs, and its theorems there.
use risc_v_operating_system.Base.{ℕ, ◌+◌, ◌≡◌, refl, true, false, [], ◌∷◌, arith, ok, panic, Safely}
use risc_v_operating_system.Base.Word.{one_shl, land, lor, lnot, bit}
use risc_v_operating_system.Proc.{Proc, running, zombie}
use risc_v_operating_system.Signal.{
  UserMemory, minus_one, kill, sigprocmask, sigaction, sigret, usersignalhandler,
}
use risc_v_operating_system.Signal.Kill.{kill-dead}
use risc_v_operating_system.Signal.Handler.{
  Entered, usersignalhandler-Entered, sigret-usersignalhandler,
}
use risc_v_operating_system.Signal.Uncatchable.{
  here, next, mask, action, Uncatchable, Reach-Uncatchable,
}
use risc_v_operating_system.Signal.Doomed.{Doomed}
use risc_v_operating_system.Signal.Loop.{signalhandler}
use risc_v_operating_system.Signal.Deliver.{Killed, signalhandler-Killed}

abbrev proc : ℕ → Proc
proc pid = record {
  locked = false;
  state = running;
  chan = 0;
  killed = false;
  pid = pid;
  trapframe = λ i. i + 1000;
  pending_signals = 0x200;
  signals_mask = 0x8;
  signals_mask_backup = 0;
  signal_handlers = λ i. 0;
  user_tf_backup = 0;
  stopped = true;
  signal_handling = false;
}

abbrev dead : ℕ → Proc
dead pid = record (proc pid) { state = zombie }

abbrev memory : UserMemory
memory = record {
  action = λ a. record { sa_handler = a + 4; sigmask = 0x20201 };
  frame = λ a i. 0;
  sigret_code = λ a. false;
}

kill-dead_example :
    (kill 2 5 (proc 1 ∷ dead 2 ∷ [])
      ≡ ok (minus_one, proc 1 ∷ record (dead 2) { locked = true } ∷ []))
    × (kill 2 5 (proc 1 ∷ record (dead 2) { locked = true } ∷ []) ≡ panic)
kill-dead_example =
    kill-dead 2 5 (omega arith) (proc 1 ∷ []) [] (dead 2) (refl, (refl, tt)) (omega arith) refl refl

mask_value : (sigprocmask 0xffff_ffff (proc 1)).1.signals_mask ≡ 0xfffd_fdff
unfolding sigprocmask land lor lnot one_shl
mask_value = refl

entered :
    (v : UserMemory) × (q : Proc) × (usersignalhandler 8 memory (proc 1) 3 ≡ ok (v, q))
    × Entered 8 memory (proc 1) 3 v q
entered = usersignalhandler-Entered 8 memory (proc 1) 3 refl

sigret-usersignalhandler_example :
    sigret entered.0 entered.1
    ≡ ok (record entered.1 {
      trapframe = λ i. i + 1000;
      signals_mask = 0x8;
      user_tf_backup = 0;
      signal_handling = false;
    })
sigret-usersignalhandler_example =
    sigret-usersignalhandler 8 memory (proc 1) 3 entered.0 entered.0 entered.1 entered.1 refl
      entered.2 refl refl entered.3.free refl

proc-Uncatchable : Uncatchable (proc 1)
unfolding bit
proc-Uncatchable = record {
  kill_handler = refl;
  stop_handler = refl;
  kill_mask = refl;
  stop_mask = refl;
  kill_backup = refl;
  stop_backup = refl;
}

Reach-Uncatchable_example : Uncatchable (sigprocmask 0xffff_ffff (sigaction 9 77 0 (proc 1)).1).1
Reach-Uncatchable_example =
    Reach-Uncatchable (next (next here (action 9 77 0)) (mask 0xffff_ffff)) proc-Uncatchable

proc-Doomed : Doomed (proc 1)
unfolding bit
proc-Doomed = record { free = refl; calm = refl; default = refl; plain = λ i lt. refl; due = refl }

signalhandler-Killed_example : Safely Killed (signalhandler 8 [] memory (proc 1))
signalhandler-Killed_example = signalhandler-Killed 8 [] memory (proc 1) proc-Doomed
