-- ===== src/Spinlock/Tests.antt =====
-- Two CPUs and one lock.
use risc_v_operating_system.Base.{
  zero, ◌≡◌, refl, true, false, arith, update, Run, ok, ◌>>=◌, Safely,
}
use risc_v_operating_system.Spinlock.{
  outside, spinning, taken, Cpu, initlock, State, push_off, pop_off, put_cpu, advance,
}
use risc_v_operating_system.Spinlock.Exclusion.{is_inside, Excluded}
use risc_v_operating_system.Spinlock.Runs.{here, step, IsFresh, Reach-exclusive}

-- a CPU whose interrupts are on
abbrev idle_cpu : Cpu
idle_cpu = record { interrupts = true; noff = 0; intena = false; phase = outside }

abbrev start : State
start = record { lock = initlock; cpus = λ i. idle_cpu }

start-IsFresh : IsFresh start
start-IsFresh = record {
  lock_lem = refl;
  unused = λ i. refl;
  depth = λ i. omega arith;
  off = λ i h. absurd (omega arith);
}

abbrev begun : State
begun = put_cpu 0 start initlock (record (push_off idle_cpu) { phase = spinning })

begin : advance 0 start ≡ ok begun
unfolding advance
begin = refl

Reach-exclusive_example :
    (is_inside (begun.cpus 0).phase ≡ true → is_inside (begun.cpus 1).phase ≡ true → zero ≡ 1)
    × Safely Excluded (advance 0 begun)
Reach-exclusive_example = Reach-exclusive (step here 0 begin) start-IsFresh 0 1

-- CPU 0 takes the lock while CPU 1 spins, and CPU 1 gets it afterwards.
abbrev both : Run State
both =
    advance 0 start
    >>= advance 1
    >>= advance 0
    >>= advance 1
    >>= advance 0
    >>= advance 1
    >>= advance 0
    >>= advance 0
    >>= advance 1

handed_over : (both >>= λ s. ok (s.cpus 1).phase) ≡ ok taken
unfolding advance push_off pop_off update
handed_over = refl
