-- ===== src/Life.antt =====
-- kernel/proc.c: how processes sleep, wake, end and are waited for. Each access to the table is
-- under the locks that the code takes for it, and is one step here.
pub mod Wake
pub mod Reparent
pub mod Ended
pub mod Free
pub mod Scan
pub mod Wait
mod Tests
use risc_v_operating_system.Base.{
  ℕ, zero, suc, ◌+◌, ◌-◌, ◌*◌, ◌/◌, ◌%◌, ◌^◌, ◌≤◌, ◌<◌, ◌≡◌, refl, sym, ap, ◌∙◌, fun_ext, ◌≢◌, ◌↔◌,
  ◌⊎◌, inl, inr, Bool, true, false, ◌&&◌, ◌||◌, not, Option, none, some, List, [], ◌∷◌, ◌++◌, map,
  arith, ltb, leb, ◌==◌, if◌then◌else◌, ==_iff, Bool-cases, Option-cases, occurrences, remove,
  occurrences-remove, length, get_or, take, drop, update, update_self, update_ne, update_lem, Run,
  ok, panic, ◌>>=◌, ◌>>◌, panic_if, Safely, safely, Safely-bind, Safely-mono,
}
use risc_v_operating_system.Base.Word.{u32}
use risc_v_operating_system.Proc.{ProcState, is_unused, is_sleeping, is_zombie}
use risc_v_operating_system.Kalloc.{Kmem, page_size, kfree}
use risc_v_operating_system.Vm.{maxva, minus_one, uvmunmap}
use risc_v_operating_system.Vm.Space.{uvmfree}

-- `NPROC`
abbrev pub nproc : ℕ
nproc = 64

-- The fields of a process that are about its life. `parent` is an index of the table, and `trapframe`
-- and `pagetable` are addresses, 0 for none; `name` is the first character of the name.
pub record Task : Type 0 where
  pub state : ProcState
  pub chan : ℕ
  pub killed : Bool
  pub xstate : ℕ
  pub pid : ℕ
  pub parent : Option ℕ
  pub sz : ℕ
  pub pagetable : ℕ
  pub trapframe : ℕ
  pub name : ℕ

-- `proc`, `initproc` and `nextpid`, with the memory of the page allocator
pub record ProcTable : Type 0 where
  pub task : ℕ → Task
  pub initproc : ℕ
  pub nextpid : ℕ
  pub mem : Kmem

abbrev pub set_task : ℕ → Task → ProcTable → ProcTable
set_task i p t = record t { task = update t.task i p }

unfoldable pub allocpid : ProcTable → ℕ × ProcTable
allocpid t = (t.nextpid, record t { nextpid = u32 (t.nextpid + 1) })

abbrev pub is_self : Option ℕ → ℕ → Bool
is_self none i = false
is_self (some p) i = p == i

-- What `wakeup` does to the process in a slot.
abbrev pub woken : (chan : ℕ) → Task → Task
woken chan p =
    if is_sleeping p.state && p.chan == chan then record p { state = ProcState.runnable } else p

-- The loop of `wakeup` over the first `n` slots, where `self` is `myproc()`.
unfoldable pub wakeup_loop : (n : ℕ) → (self : Option ℕ) → (chan : ℕ) → ProcTable → ProcTable
wakeup_loop zero self chan t = t
wakeup_loop (suc n) self chan t =
    let before = wakeup_loop n self chan t in
    if is_self self n then before else set_task n (woken chan (before.task n)) before

unfoldable pub wakeup : (self : Option ℕ) → (chan : ℕ) → ProcTable → ProcTable
wakeup self chan t = wakeup_loop nproc self chan t

abbrev pub is_child_of : ℕ → Task → Bool
is_child_of p pp = is_self pp.parent p

-- What `sleep` leaves before `sched`, and what it does after.
unfoldable pub falls_asleep : (p chan : ℕ) → ProcTable → ProcTable
falls_asleep p chan t = set_task p (record (t.task p) { chan = chan; state = ProcState.sleeping }) t

unfoldable pub tidy_up : (p : ℕ) → ProcTable → ProcTable
tidy_up p t = set_task p (record (t.task p) { chan = 0 }) t

-- `kernel_end` is the address `end` of the linker script, and `address` gives the address of a slot.
module _ (kernel_end : ℕ) (address : ℕ → ℕ) where
  -- The loop of `reparent` over the first `n` slots.
  unfoldable pub reparent_loop : (n : ℕ) → (p : ℕ) → ProcTable → ProcTable
  reparent_loop zero p t = t
  reparent_loop (suc n) p t =
      let before = reparent_loop n p t in
      if is_child_of p (before.task n)
      then wakeup (some p) (address before.initproc)
          (set_task n (record (before.task n) { parent = some before.initproc }) before)
      else before

  unfoldable pub reparent : (p : ℕ) → ProcTable → ProcTable
  reparent p t = reparent_loop nproc p t

  -- `wakeup(p->parent)`
  unfoldable pub wake_parent : (p : ℕ) → ProcTable → ProcTable
  wake_parent p t = elim (t.task p).parent [
    | none ↦ wakeup (some p) 0 t
    | some q ↦ wakeup (some p) (address q) t
  ]

  -- `exit` from the point on where its files are closed, up to `sched`
  unfoldable pub exit : (p status : ℕ) → ProcTable → Run ProcTable
  exit p status t =
      panic_if (p == t.initproc)
      >> ok (
          let told = wake_parent p (reparent p t) in
          set_task p (record (told.task p) { xstate = status; state = ProcState.zombie }) told)

  unfoldable pub proc_freepagetable : (pagetable sz : ℕ) → Kmem → Run Kmem
  proc_freepagetable pagetable sz k =
      uvmunmap kernel_end pagetable (maxva - page_size) 1 false k
      >>= uvmunmap kernel_end pagetable (maxva - page_size - page_size) 1 false
      >>= uvmfree kernel_end pagetable sz

  -- what `freeproc` gives back
  unfoldable pub free_memory : Task → Kmem → Run Kmem
  free_memory p k = (if p.trapframe == 0 then ok k else kfree kernel_end p.trapframe k) >>= λ k'.
      if p.pagetable == 0 then ok k' else proc_freepagetable p.pagetable p.sz k'

  unfoldable pub freeproc : (p : ℕ) → ProcTable → Run ProcTable
  freeproc p t = free_memory (t.task p) t.mem >>= λ k'. ok (record t {
    task = update t.task p (record {
      state = ProcState.unused;
      chan = 0;
      killed = false;
      xstate = 0;
      pid = 0;
      parent = none;
      sz = 0;
      pagetable = 0;
      trapframe = 0;
      name = 0;
    });
    mem = k';
  })

  -- The scan of `wait` over the first `n` slots: an exited child, and `havekids`.
  unfoldable pub scan : (n : ℕ) → (p : ℕ) → ProcTable → Option ℕ × Bool
  scan zero p t = (none, false)
  scan (suc n) p t =
      let before = scan n p t in
      elim before.0 [
        | some np ↦ before
        | none ↦
            if is_child_of p (t.task n)
            then ((if is_zombie (t.task n).state then some n else none), true)
            else before
      ]

  -- `copyout`, which returns whether it succeeds
  module _ (copyout : (pagetable dst xstate : ℕ) → Kmem → Bool × Kmem) where
    -- What `wait` does with the exited child that it found.
    unfoldable pub reap : (p addr np : ℕ) → ProcTable → Run (ℕ × ProcTable)
    reap p addr np t =
        let out = copyout (t.task p).pagetable addr (t.task np).xstate t.mem in
        let pid = (t.task np).pid in
        if addr == 0
        then (freeproc np t >>= λ t'. ok (pid, t'))
        else if not out.0
        then ok (minus_one, record t { mem = out.1 })
        else (freeproc np (record t { mem = out.1 }) >>= λ t'. ok (pid, t'))

    -- A round of `wait` after its scan; `slept` is what it returns if it sleeps.
    unfoldable pub wait_round :
        (found : Option ℕ × Bool)
        → (p addr : ℕ) → ProcTable
        → (slept : Run (Option (ℕ × ProcTable))) → Run (Option (ℕ × ProcTable))
    wait_round (some np, havekids) p addr t slept =
        reap p addr np t >>= λ (r : ℕ × ProcTable). ok (some r)
    wait_round (none, havekids) p addr t slept =
        if not havekids || (t.task p).killed then ok (some (minus_one, t)) else slept

    -- By the process `p`; `none` if it still sleeps when the list of others ends.
    unfoldable pub wait :
        (others : List (ProcTable → ProcTable))
        → (p addr : ℕ) → ProcTable
        → Run (Option (ℕ × ProcTable))
    wait [] p addr t = wait_round (scan nproc p t) p addr t (ok none)
    wait (o ∷ others) p addr t =
        let slept = wait others p addr (tidy_up p (o (falls_asleep p (address p) t))) in
        wait_round (scan nproc p t) p addr t slept
