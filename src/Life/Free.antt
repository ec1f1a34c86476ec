-- ===== src/Life/Free.antt =====
-- `freeproc`: what it gives back, and the slot that it leaves.
use risc_v_operating_system.Base.{
  ℕ, ◌-◌, ◌≡◌, refl, sym, ◌≢◌, ◌⊎◌, inl, inr, true, false, none, arith, ◌==◌, if◌then◌else◌, update,
  ok,
}
use risc_v_operating_system.Proc.{ProcState}
use risc_v_operating_system.Kalloc.{Kmem, page_size, kfree}
use risc_v_operating_system.Vm.{maxva, uvmunmap}
use risc_v_operating_system.Vm.Space.{uvmfree}
use risc_v_operating_system.Life.{Task, ProcTable, proc_freepagetable, free_memory, freeproc}

module _ (kernel_end : ℕ) where
  -- The trampoline and the trapframe are unmapped, and then the process's memory and the table itself
  -- are given back.
  pub record TableFreed (pagetable sz : ℕ) (m m' : Kmem) : Type 0 where
    pub without_trampoline : Kmem
    pub without_frame : Kmem
    pub trampoline :
        uvmunmap kernel_end pagetable (maxva - page_size) 1 false m ≡ ok without_trampoline
    pub frame :
        uvmunmap kernel_end pagetable (maxva - page_size - page_size) 1 false without_trampoline
        ≡ ok without_frame
    pub rest : uvmfree kernel_end pagetable sz without_frame ≡ ok m'

  -- The page of the trapframe is given back, and then the page table with what it maps; an address 0
  -- is none.
  pub record MemoryFreed (trapframe pagetable sz : ℕ) (m m' : Kmem) : Type 0 where
    pub between : Kmem
    pub frame :
        ((trapframe ≡ 0) × (between ≡ m))
        ⊎ ((trapframe ≢ 0) × (kfree kernel_end trapframe m ≡ ok between))
    pub table :
        ((pagetable ≡ 0) × (m' ≡ between)) ⊎ ((pagetable ≢ 0) × TableFreed pagetable sz between m')

  module _ (address : ℕ → ℕ) where
    free_table :
        (pagetable sz : ℕ) (m m' : Kmem)
        → TableFreed pagetable sz m m'
        → proc_freepagetable kernel_end address pagetable sz m ≡ ok m'
    unfolding proc_freepagetable
    free_table pagetable sz m m' f = rw (f.trampoline, f.frame, f.rest) refl

    memory-freed :
        (p : Task) (m m' : Kmem)
        → MemoryFreed p.trapframe p.pagetable p.sz m m'
        → free_memory kernel_end address p m ≡ ok m'
    unfolding free_memory
    memory-freed p m m' f = by_case f.frame f.table
      where
        after :
            ((p.pagetable ≡ 0) × (m' ≡ f.between))
              ⊎ ((p.pagetable ≢ 0) × TableFreed p.pagetable p.sz f.between m')
            → (if p.pagetable == 0
                then ok f.between
                else proc_freepagetable kernel_end address p.pagetable p.sz f.between)
              ≡ ok m'
        after (inl (z, e)) =
            let test : (p.pagetable == 0) ≡ true = ground arith in rw (test, e) refl
        after (inr (nz, e)) =
            let test : (p.pagetable == 0) ≡ false = ground arith in
            rw test (free_table p.pagetable p.sz f.between m' e)

        by_case :
            ((p.trapframe ≡ 0) × (f.between ≡ m))
              ⊎ ((p.trapframe ≢ 0) × (kfree kernel_end p.trapframe m ≡ ok f.between))
            → ((p.pagetable ≡ 0) × (m' ≡ f.between))
              ⊎ ((p.pagetable ≢ 0) × TableFreed p.pagetable p.sz f.between m')
            → free_memory kernel_end address p m ≡ ok m'
        by_case (inl (z, e)) t =
            let test : (p.trapframe == 0) ≡ true = ground arith in rw (test, sym e) (after t)
        by_case (inr (nz, e)) t =
            let test : (p.trapframe == 0) ≡ false = ground arith in rw (test, e) (after t)

    -- If the memory of a process can be given back, `freeproc` gives it back and clears its slot.
    pub freeproc_lem :
        (np : ℕ) (t : ProcTable) (m' : Kmem)
        → MemoryFreed (t.task np).trapframe (t.task np).pagetable (t.task np).sz t.mem m'
        → freeproc kernel_end address np t
          ≡ ok (record t {
            task = update t.task np (record {
              state = ProcState.unused;
              chan = 0;
              killed = false;
              xstate = 0;
              pid = 0;
              parent = none;
              sz = 0;
              pagetable = 0;
              trapframe = 0;
              name = 0;
            });
            mem = m';
          })
    unfolding freeproc
    freeproc_lem np t m' f = rw (memory-freed (t.task np) t.mem m' f) refl
