-- ===== src/Spinlock.antt =====
-- kernel/spinlock.c: one spin lock, and the CPUs that take it. The two reads of `holding` are one
-- step here; every other access to the lock is a step of its own.
pub mod Interrupts
pub mod Exclusion
pub mod Steps
pub mod Runs
mod Tests
use risc_v_operating_system.Base.{
  ℕ, zero, suc, ◌+◌, ◌-◌, ◌^◌, ◌≤◌, ◌<◌, ◌≡◌, ◌≢◌, Bool, true, false, ◌&&◌, ◌||◌, not, ◌==◌,
  if◌then◌else◌, update, Run, ok, panic, ◌>>=◌, ◌>>◌, panic_if,
}
use risc_v_operating_system.Base.Word.{u32, is_negative}

-- Where a CPU is in `acquire` and `release`.
pub data Phase : Type 0 where
  -- before `acquire`, or after `release`
  outside : Phase
  -- in the `while` of `acquire`
  spinning : Phase
  -- after it, before `lk->cpu = mycpu()`
  taken : Phase
  -- in the critical section
  held : Phase
  -- in `release`, after `lk->cpu = 0`
  leaving : Phase

-- the fields of `struct cpu` that locks use, the bit SIE of the CPU's `sstatus`, and its phase
pub record Cpu : Type 0 where
  pub interrupts : Bool
  pub noff : ℕ
  pub intena : Bool
  pub phase : Phase

-- `cpu` is 0, or the pointer to the CPU that holds the lock.
pub record Spinlock : Type 0 where
  pub locked : ℕ
  pub cpu : ℕ

-- `mycpu()` on CPU `i`
abbrev pub mycpu : ℕ → ℕ
mycpu i = i + 1

abbrev pub initlock : Spinlock
initlock = record { locked = 0; cpu = 0 }

unfoldable pub push_off : Cpu → Cpu
push_off c = record c {
  interrupts = false;
  noff = u32 (c.noff + 1);
  intena = if c.noff == 0 then c.interrupts else c.intena;
}

unfoldable pub pop_off : Cpu → Run Cpu
pop_off c =
    let noff = u32 (c.noff + (2 ^ 32 - 1)) in
    panic_if c.interrupts
    >> panic_if (is_negative c.noff || c.noff == 0)
    >> ok (record c { noff = noff; interrupts = noff == 0 && c.intena })

abbrev pub holding : ℕ → Spinlock → Bool
holding i lk = not (lk.locked == 0) && lk.cpu == mycpu i

pub record State : Type 0 where
  pub lock : Spinlock
  pub cpus : ℕ → Cpu

abbrev pub put_cpu : ℕ → State → Spinlock → Cpu → State
put_cpu i s lk c = record { lock = lk; cpus = update s.cpus i c }

-- the next step of CPU `i` in `acquire` and `release`
unfoldable pub advance : ℕ → State → Run State
advance i s =
    let lk = s.lock in
    let c = s.cpus i in
    elim c.phase [
      | outside ↦
          panic_if (holding i lk) >> ok (put_cpu i s lk (record (push_off c) { phase = spinning }))
      | spinning ↦
          let next : Phase = if lk.locked == 0 then taken else spinning in
          ok (put_cpu i s (record lk { locked = 1 }) (record c { phase = next }))
      | taken ↦ ok (put_cpu i s (record lk { cpu = mycpu i }) (record c { phase = held }))
      | held ↦
          panic_if (not (holding i lk))
          >> ok (put_cpu i s (record lk { cpu = 0 }) (record c { phase = leaving }))
      | leaving ↦ pop_off c >>= λ c'.
          ok (put_cpu i s (record lk { locked = 0 }) (record c' { phase = outside }))
    ]
