-- ===== src/Proc/Lock.antt =====
-- `acquire(&p->lock)` and `release(&p->lock)` as the CPU that calls them sees them. Other CPUs that
-- hold the lock only delay `acquire`; kernel/spinlock.c is modelled in Spinlock.
use risc_v_operating_system.Base.{true, false, Run, ok, panic, if◌then◌else◌}
use risc_v_operating_system.Proc.{Proc}

abbrev pub acquire : Proc → Run Proc
acquire p = if p.locked then panic else ok (record p { locked = true })

abbrev pub release : Proc → Run Proc
release p = if p.locked then ok (record p { locked = false }) else panic
