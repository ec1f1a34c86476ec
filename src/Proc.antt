-- ===== src/Proc.antt =====
-- kernel/proc.h: a process, with the fields that the modules here use. A pointer field is a number,
-- 0 for the null pointer, and a flag is a truth value.
pub mod Lock
use risc_v_operating_system.Base.{ℕ, Bool, true, false, if◌then◌else◌}

pub data ProcState : Type 0 where
  unused used sleeping runnable running zombie : ProcState

-- The 64-bit word at each eighth byte: `epc` is word 3, `ra` 5, `sp` 6 and `a0` 14.
abbrev pub Trapframe : Type 0
Trapframe = ℕ → ℕ

-- `locked` says that the CPU at hand holds `p->lock`.
pub record Proc : Type 0 where
  pub locked : Bool
  pub state : ProcState
  pub chan : ℕ
  pub killed : Bool
  pub pid : ℕ
  pub trapframe : Trapframe
  pub pending_signals : ℕ
  pub signals_mask : ℕ
  pub signals_mask_backup : ℕ
  pub signal_handlers : ℕ → ℕ
  pub user_tf_backup : ℕ
  pub stopped : Bool
  pub signal_handling : Bool

abbrev pub is_unused : ProcState → Bool
is_unused ProcState.unused = true
is_unused _ = false

abbrev pub is_sleeping : ProcState → Bool
is_sleeping ProcState.sleeping = true
is_sleeping _ = false

abbrev pub is_zombie : ProcState → Bool
is_zombie ProcState.zombie = true
is_zombie _ = false
