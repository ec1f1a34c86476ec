-- ===== src/Life/Tests.antt =====
-- A child that exits, and its parent.
use mathlib.Core.Path.{subst}
use risc_v_operating_system.Base.{
  ℕ, ◌+◌, ◌≡◌, refl, ◌⊎◌, inl, inr, Bool, Bool-cases, true, false, some, [], arith, ◌==◌,
  if◌then◌else◌, Safely,
}
use risc_v_operating_system.Proc.{ProcState, is_zombie}
use risc_v_operating_system.Kalloc.{Kmem, kfree}
use risc_v_operating_system.Life.{Task, ProcTable, exit}
use risc_v_operating_system.Life.Free.{MemoryFreed}
use risc_v_operating_system.Life.Ended.{Ended, exit-Ended}
use risc_v_operating_system.Life.Wait.{Reaps, wait-exit}

-- process 1 sleeps in `wait`, and process 2 is its child
abbrev parent_task : Task
parent_task = record {
  state = ProcState.sleeping;
  chan = 5001;
  killed = false;
  xstate = 0;
  pid = 11;
  parent = some 0;
  sz = 4096;
  pagetable = 0;
  trapframe = 0;
  name = 97;
}

abbrev child_task : Task
child_task = record parent_task {
  state = ProcState.running;
  chan = 0;
  pid = 12;
  parent = some 1;
  trapframe = 0x87ff_e000;
}

abbrev family : ProcTable
family = record {
  task = λ i. if i == 2 then child_task else parent_task;
  initproc = 0;
  nextpid = 13;
  mem = record { freelist = 0; ram = λ i. 0 };
}

abbrev at : ℕ → ℕ
at i = 5000 + i

exit-Ended_example : Safely (Ended 0 at 2 7 family) (exit 0 at 2 7 family)
exit-Ended_example = exit-Ended 0 at 2 7 family (omega arith)

abbrev no_copy : (pagetable dst xstate : ℕ) → Kmem → Bool × Kmem
no_copy pagetable dst xstate k = (true, k)

-- The child has a trapframe, and no page table.
child_memory :
    (i : ℕ)
    → (2 ≡ i) ⊎ (is_zombie (family.task i).state ≡ true)
    → (m' : Kmem) × MemoryFreed 0
        (family.task i).trapframe
        (family.task i).pagetable
        (family.task i).sz
        family.mem
        m'
unfolding kfree
child_memory i (inl e) =
    subst
      (λ i.
        (m' : Kmem) × MemoryFreed 0 (family.task i).trapframe (family.task i).pagetable
          (family.task i).sz family.mem m')
      e (_, record { between = _; frame = inr (omega arith, refl); table = inl (refl, refl) })
child_memory i (inr gone) = elim (Bool-cases (i == 2)) [
  | inl e ↦ absurd (ground arith)
  | inr e ↦ absurd (ground arith)
]

wait-exit_example : Safely (Reaps 0 at no_copy [] 1 8000) (exit 0 at 2 7 family)
wait-exit_example =
    wait-exit 0 at no_copy [] 2 1 7 8000 family (omega arith) (omega arith) (omega arith) refl
      (inr (λ x. refl)) (λ i x lt was. child_memory i was)
