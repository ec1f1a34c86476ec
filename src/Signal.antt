-- ===== src/Signal.antt =====
-- The signals of kernel/proc.c. What the functions print is left out.
pub mod Mask
pub mod Kill
pub mod Handler
pub mod Loop
pub mod Uncatchable
pub mod Doomed
pub mod Deliver
mod Tests
use risc_v_operating_system.Base.{
  ℕ, zero, suc, ◌+◌, ◌-◌, ◌^◌, Bool, true, false, ◌&&◌, ◌||◌, not, Option, some, none, List, [],
  ◌∷◌, ltb, ◌==◌, if◌then◌else◌, update, Run, ok, panic, ◌>>=◌, ◌>>◌,
}
use risc_v_operating_system.Base.Word.{u64, is_negative, one_shl, land, lor, lnot}
use risc_v_operating_system.Proc.{Proc, ProcState, Trapframe, is_unused, is_sleeping, is_zombie}
use risc_v_operating_system.Proc.Lock.{acquire, release}

abbrev pub sig_dfl : ℕ
sig_dfl = 0

abbrev pub sig_ign : ℕ
sig_ign = 1

abbrev pub sigkill : ℕ
sigkill = 9

abbrev pub sigstop : ℕ
sigstop = 17

abbrev pub sigcont : ℕ
sigcont = 19

-- The `int` value -1.
abbrev pub minus_one : ℕ
minus_one = 2 ^ 32 - 1

-- `struct sigaction`
pub record SigAction : Type 0 where
  pub sa_handler : ℕ
  pub sigmask : ℕ

-- What the signal code reads and writes in the memory of a user: the `struct sigaction` at an
-- address, the trap frame saved at an address, and where a copy of `callsigret` stands.
-- Every address is taken to be mapped: the code ignores what `copyin` and `copyout` return.
pub record UserMemory : Type 0 where
  pub action : ℕ → SigAction
  pub frame : ℕ → Trapframe
  pub sigret_code : ℕ → Bool

abbrev pub is_dead : Proc → Bool
is_dead p = p.killed || is_zombie p.state || is_unused p.state

-- The end of `kill` at the process that it looks for.
abbrev mark : ℕ → Proc → List Proc → Run (ℕ × List Proc)
mark op p ps = do
  p ← release (record p { pending_signals = lor 32 p.pending_signals op })
  ok (0, p ∷ ps)

-- The loop of `kill` over the process table.
unfoldable pub kill_loop : (pid op : ℕ) → List Proc → Run (ℕ × List Proc)
kill_loop pid op [] = ok (minus_one, [])
kill_loop pid op (p ∷ ps) = do
  p ← acquire p
  if p.pid == pid
      then (if is_dead p then ok (minus_one, p ∷ ps) else mark op p ps)
      else (do p ← release p; (r, ps') ← kill_loop pid op ps; ok (r, p ∷ ps'))

unfoldable pub kill : (pid signum : ℕ) → List Proc → Run (ℕ × List Proc)
unfolding kill_loop
kill pid signum ps =
    if is_negative signum || ltb 31 signum
    then ok (minus_one, ps)
    else kill_loop pid (one_shl signum) ps

-- The result beside the process.
unfoldable pub sigprocmask : ℕ → Proc → ℕ × Proc
sigprocmask mask p = (
  p.signals_mask,
  record p { signals_mask = land 32 mask (lnot 32 (lor 32 (one_shl sigkill) (one_shl sigstop))) },
)

-- `act` is the user's pointer. `memmove(&oldact, …)` writes the parameter `oldact`, which nothing
-- reads after it; the branch for `act == SIG_DFL` cannot be reached behind the test of `act == 0`.
unfoldable pub sigaction : (signum act oldact : ℕ) → Proc → ℕ × Proc
sigaction signum act oldact p =
    if is_negative signum || ltb 31 signum
    then (minus_one, p)
    else if signum == sigkill || signum == sigstop
    then (minus_one, p)
    else if act == 0
    then (minus_one, p)
    else (0, record p { signal_handlers = update p.signal_handlers signum act })

unfoldable pub sigret : UserMemory → Proc → Run Proc
sigret u p = do
  p ← acquire p
  release (record p {
    trapframe = u.frame p.user_tf_backup;
    signals_mask = p.signals_mask_backup;
    user_tf_backup = 0;
    signal_handling = false;
  })

unfoldable pub sigcont_func : Proc → Proc
sigcont_func p = record p { stopped = false }

unfoldable pub sigstop_func : Proc → Proc
sigstop_func p = record p { stopped = true }

unfoldable pub sigkill_func : Proc → Run Proc
sigkill_func p = do
  p ← acquire p
  release (record p {
    killed = true;
    state = if is_sleeping p.state then ProcState.runnable else p.state;
  })

-- `non_maskable` is a `uint64` of sign-extended `int`s; the mask is a `uint`, whose upper half is 0.
unfoldable pub is_pending_and_not_masked : ℕ → Proc → Bool
is_pending_and_not_masked signum p =
    let non_maskable = land 64 (lnot 64 (one_shl sigkill)) (lnot 64 (one_shl sigstop)) in
    not (land 32 p.pending_signals (one_shl signum) == 0)
    && (land 64 (land 64 p.signals_mask non_maskable) (one_shl signum) == 0)

unfoldable pub turnoff_sigbit : Proc → ℕ → Run Proc
turnoff_sigbit p i = do
  p ← acquire p
  release (record p { pending_signals = land 32 p.pending_signals (lnot 32 (one_shl i)) })

-- The loop of `search_cont_signals`, with the rounds that are left.
unfoldable pub search_cont_loop : (rounds i : ℕ) → Proc → Run (Bool × Proc)
unfolding is_pending_and_not_masked sigcont_func turnoff_sigbit
search_cont_loop zero i p = ok (false, p)
search_cont_loop (suc rounds) i p =
    if is_pending_and_not_masked i p && (p.signal_handlers i == sigcont)
    then (do p ← turnoff_sigbit (sigcont_func p) i; ok (true, p))
    else search_cont_loop rounds (i + 1) p

unfoldable pub search_cont_signals : Proc → Run (Bool × Proc)
unfolding search_cont_loop sigkill_func
search_cont_signals p =
    if is_pending_and_not_masked sigcont p
    then (do p ← turnoff_sigbit (sigcont_func p) sigcont; ok (true, p))
    else if is_pending_and_not_masked sigkill p
    then (do p ← sigkill_func p; p ← turnoff_sigbit p sigkill; ok (true, p))
    else search_cont_loop 32 0 p

abbrev pub trapframe_size : ℕ
trapframe_size = 288

-- The body of `usersignalhandler`, between the calls for the lock. `func_size` is
-- `endcallsigret - callsigret`, of kernel/trampoline.S.
unfoldable pub enter_handler : (func_size : ℕ) → UserMemory → Proc → ℕ → UserMemory × Proc
unfolding sigprocmask
enter_handler func_size u p signum =
    let handler = u.action (p.signal_handlers signum) in
    let (backup_mask, p1) = sigprocmask handler.sigmask p in
    let backup = u64 (p.trapframe 6 + 2 ^ 64 - trapframe_size) in
    let sp = u64 (backup + 2 ^ 64 - func_size) in
    let t3 = update p.trapframe 3 handler.sa_handler in
    let t6 = update t3 6 sp in
    let t14 = update t6 14 signum in
    let t5 = update t14 5 sp in
    (
      record u {
        frame = update u.frame backup p.trapframe;
        sigret_code = update u.sigret_code sp true;
      },
      record p1 {
        signals_mask_backup = backup_mask;
        signal_handling = true;
        user_tf_backup = backup;
        trapframe = t5;
      },
    )

unfoldable pub usersignalhandler : (func_size : ℕ) → UserMemory → Proc → ℕ → Run (UserMemory × Proc)
unfolding enter_handler
usersignalhandler func_size u p signum = do
  p ← acquire p
  let (v, q) = enter_handler func_size u p signum
  q ← release q
  ok (v, q)
