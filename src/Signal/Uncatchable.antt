-- ===== src/Signal/Uncatchable.antt =====
-- SIGKILL and SIGSTOP can be neither caught nor masked.
use risc_v_operating_system.Base.{ℕ, ◌≡◌, false, arith, update_lem, ok}
use risc_v_operating_system.Base.Word.{bit}
use risc_v_operating_system.Proc.{Proc}
use risc_v_operating_system.Signal.{
  UserMemory, sig_dfl, sigkill, sigstop, sigprocmask, sigaction, sigret, enter_handler,
}
use risc_v_operating_system.Signal.Mask.{sigprocmask_lem}

-- What a process and the user's handlers can do to its masks and handlers.
pub data Step (p : Proc) : Proc → Type 0 where
  mask : (m : ℕ) → Step p (sigprocmask m p).1
  action : (signum act oldact : ℕ) → Step p (sigaction signum act oldact p).1
  ret : (u : UserMemory) {q : Proc} → sigret u p ≡ ok q → Step p q
  enter :
      (func_size : ℕ) (u : UserMemory) (signum : ℕ) → Step p (enter_handler func_size u p signum).1

pub data Reach (p : Proc) : Proc → Type 0 where
  here : Reach p p
  next : {q r : Proc} → Reach p q → Step q r → Reach p r

pub record Uncatchable (p : Proc) : Type 0 where
  pub kill_handler : p.signal_handlers sigkill ≡ sig_dfl
  pub stop_handler : p.signal_handlers sigstop ≡ sig_dfl
  pub kill_mask : bit sigkill p.signals_mask ≡ false
  pub stop_mask : bit sigstop p.signals_mask ≡ false
  pub kill_backup : bit sigkill p.signals_mask_backup ≡ false
  pub stop_backup : bit sigstop p.signals_mask_backup ≡ false

sigprocmask-Uncatchable : (m : ℕ) (p : Proc) → Uncatchable p → Uncatchable (sigprocmask m p).1
sigprocmask-Uncatchable m p u = record {
  kill_handler = unfold sigprocmask in u.kill_handler;
  stop_handler = unfold sigprocmask in u.stop_handler;
  kill_mask = ground (arith, sigprocmask_lem m p sigkill);
  stop_mask = ground (arith, sigprocmask_lem m p sigstop);
  kill_backup = unfold sigprocmask in u.kill_backup;
  stop_backup = unfold sigprocmask in u.stop_backup;
}

sigaction-Uncatchable :
    (signum act oldact : ℕ) (p : Proc)
    → Uncatchable p
    → Uncatchable (sigaction signum act oldact p).1
unfolding sigaction
sigaction-Uncatchable signum act oldact p u = ground (
  arith,
  update_lem p.signal_handlers signum sigkill act,
  update_lem p.signal_handlers signum sigstop act,
)

sigret-Uncatchable :
    (v : UserMemory) (p q : Proc) → sigret v p ≡ ok q → Uncatchable p → Uncatchable q
unfolding sigret
sigret-Uncatchable v p q e u = ground arith

enter_handler-Uncatchable :
    (func_size : ℕ) (v : UserMemory) (p : Proc) (signum : ℕ)
    → Uncatchable p
    → Uncatchable (enter_handler func_size v p signum).1
unfolding enter_handler
enter_handler-Uncatchable func_size v p signum u =
    let w = sigprocmask-Uncatchable (v.action (p.signal_handlers signum)).sigmask p u in
    record {
      kill_handler = w.kill_handler;
      stop_handler = w.stop_handler;
      kill_mask = w.kill_mask;
      stop_mask = w.stop_mask;
      kill_backup =
          rw (sigprocmask_lem (v.action (p.signal_handlers signum)).sigmask p 0 (omega arith)).0
            u.kill_mask;
      stop_backup =
          rw (sigprocmask_lem (v.action (p.signal_handlers signum)).sigmask p 0 (omega arith)).0
            u.stop_mask;
    }

Step-Uncatchable : {p q : Proc} → Step p q → Uncatchable p → Uncatchable q
Step-Uncatchable {p} (mask m) u = sigprocmask-Uncatchable m p u
Step-Uncatchable {p} (action s a o) u = sigaction-Uncatchable s a o p u
Step-Uncatchable {p} {q} (ret v e) u = sigret-Uncatchable v p q e u
Step-Uncatchable {p} (enter f v s) u = enter_handler-Uncatchable f v p s u

-- From a process with the default actions for SIGKILL and SIGSTOP, with neither of them masked and
-- neither in the mask that is saved for `sigret`, no sequence of `sigprocmask`, `sigaction`, handler
-- entries and `sigret` leads to one that catches or masks either, or has either in its saved mask.
pub Reach-Uncatchable : {p q : Proc} → Reach p q → Uncatchable p → Uncatchable q
Reach-Uncatchable here u = u
Reach-Uncatchable (next path st) u = Step-Uncatchable st (Reach-Uncatchable path u)
