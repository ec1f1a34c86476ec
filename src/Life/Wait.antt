-- ===== src/Life/Wait.antt =====
-- `wait`: the exited child that it finds.
use risc_v_operating_system.Base.{
  ℕ, ◌<◌, ◌≡◌, refl, sym, ap, ◌∙◌, ◌≢◌, ◌⊎◌, inl, inr, Bool, true, false, ◌||◌, not, Option, none,
  some, List, [], ◌∷◌, arith, ◌==◌, if◌then◌else◌, Bool-cases, update, update_self, update_ne, ok,
  ◌>>=◌, Safely, Safely-mono,
}
use risc_v_operating_system.Proc.{ProcState, is_zombie}
use risc_v_operating_system.Kalloc.{Kmem}
use risc_v_operating_system.Vm.{minus_one}
use risc_v_operating_system.Life.{
  nproc, ProcTable, is_self, is_child_of, exit, scan, reap, wait_round, wait,
}
use risc_v_operating_system.Life.Ended.{exit-Ended, keeps_parent, same_memory, exited_before}
use risc_v_operating_system.Life.Free.{MemoryFreed, freeproc_lem}
use risc_v_operating_system.Life.Scan.{is_exited_child, Scanned, scan-Scanned}

-- the table without the process in a slot
abbrev without : (np : ℕ) → Kmem → ProcTable → ProcTable
without np m t = record t {
  task = update t.task np (record {
    state = ProcState.unused;
    chan = 0;
    killed = false;
    xstate = 0;
    pid = 0;
    parent = none;
    sz = 0;
    pagetable = 0;
    trapframe = 0;
    name = 0;
  });
  mem = m;
}

module _ (kernel_end : ℕ) (address : ℕ → ℕ) where
  module _ (copyout : (pagetable dst xstate : ℕ) → Kmem → Bool × Kmem) where
    -- the memory once a child's status is passed on to `addr` of the process `q`
    abbrev pub passed_on : (q addr status : ℕ) → ProcTable → Kmem
    passed_on q addr status t =
        if addr == 0 then t.mem else (copyout (t.task q).pagetable addr status t.mem).1

    -- If the status can be passed on and the child's memory can be given back, `reap` succeeds.
    reap-freeproc :
        (q addr np : ℕ) (t : ProcTable) (m' : Kmem)
        → ((addr ≡ 0) ⊎ ((copyout (t.task q).pagetable addr (t.task np).xstate t.mem).0 ≡ true))
        → MemoryFreed kernel_end
            (t.task np).trapframe
            (t.task np).pagetable
            (t.task np).sz
            (passed_on q addr (t.task np).xstate t)
            m'
        → reap kernel_end address copyout q addr np t ≡ ok ((t.task np).pid, without np m' t)
    unfolding reap
    reap-freeproc q addr np t m' passed f = elim (Bool-cases (addr == 0)) [
      | inl z ↦ rw (z, freeproc_lem kernel_end address np t m' (rw z at f)) refl
      | inr nz ↦
          let copied : (copyout (t.task q).pagetable addr (t.task np).xstate t.mem).0 ≡ true =
            elim passed [ inl z ↦ absurd (ground arith) | inr c ↦ c ] in
          let t' : ProcTable = record t {
            mem = (copyout (t.task q).pagetable addr (t.task np).xstate t.mem).1;
          } in
          rw (nz, copied, freeproc_lem kernel_end address np t' m' (rw nz at f)) refl
    ]

    -- `wait` with an exited child goes on to `reap`, without a sleep.
    wait_found :
        (others : List (ProcTable → ProcTable)) (p addr np : ℕ) (have : Bool) (t : ProcTable)
        → scan kernel_end address nproc p t ≡ (some np, have)
        → wait kernel_end address copyout others p addr t
          ≡ (reap kernel_end address copyout p addr np t >>= λ (r : ℕ × ProcTable). ok (some r))
    unfolding wait wait_round
    wait_found [] p addr np have t e = rw e refl
    wait_found (o ∷ others) p addr np have t e = rw e refl

    -- `wait` without one returns -1 where there is no child, or where the process is killed.
    wait_gives_up :
        (others : List (ProcTable → ProcTable)) (p addr : ℕ) (have : Bool) (t : ProcTable)
        → scan kernel_end address nproc p t ≡ (none, have)
        → (not have || (t.task p).killed) ≡ true
        → wait kernel_end address copyout others p addr t ≡ ok (some (minus_one, t))
    unfolding wait wait_round
    wait_gives_up [] p addr have t e stop = rw (e, stop) refl
    wait_gives_up (o ∷ others) p addr have t e stop = rw (e, stop) refl

    -- `wait` of `q` without a sleep: it returns the pid of an exited child, whose slot is cleared then
    -- and whose memory is given back. Unless `addr` is 0, its status was copied there before.
    pub record Reaps (others : List (ProcTable → ProcTable)) (q addr : ℕ) (t : ProcTable)
        : Type 0 where
      pub np : ℕ
      pub inside : np < nproc
      pub exited : is_exited_child q (t.task np) ≡ true
      pub last : ProcTable
      pub result :
          wait kernel_end address copyout others q addr t ≡ ok (some ((t.task np).pid, last))
      pub cleared : last.task np ≡ record {
        state = ProcState.unused;
        chan = 0;
        killed = false;
        xstate = 0;
        pid = 0;
        parent = none;
        sz = 0;
        pagetable = 0;
        trapframe = 0;
        name = 0;
      }
      pub kept : (i : ℕ) → np ≢ i → last.task i ≡ t.task i
      pub rest : last ≡ record t { task = last.task; mem = last.mem }
      pub memory :
          MemoryFreed kernel_end
            (t.task np).trapframe
            (t.task np).pagetable
            (t.task np).sz
            (passed_on q addr (t.task np).xstate t)
            last.mem

    -- what `wait` needs of an exited child in slot `i`
    abbrev CanReap : (q addr i : ℕ) → ProcTable → Type 0
    CanReap q addr i t =
        ((addr ≡ 0) ⊎ ((copyout (t.task q).pagetable addr (t.task i).xstate t.mem).0 ≡ true))
        × (m' : Kmem) × MemoryFreed kernel_end (t.task i).trapframe (t.task i).pagetable
            (t.task i).sz (passed_on q addr (t.task i).xstate t) m'

    exited-Reaps :
        (others : List (ProcTable → ProcTable)) (p q addr : ℕ) (t : ProcTable)
        → p < nproc
        → is_exited_child q (t.task p) ≡ true
        → ((i : ℕ) → i < nproc → is_exited_child q (t.task i) ≡ true → CanReap q addr i t)
        → Reaps others q addr t
    exited-Reaps others p q addr t lt child can =
        by_scan (scan kernel_end address nproc q t) refl (scan-Scanned kernel_end address nproc q t)
      where
        by_scan :
            (r : Option ℕ × Bool)
            → scan kernel_end address nproc q t ≡ r
            → Scanned nproc q t r
            → Reaps others q addr t
        by_scan (some np, have) e s =
            let c = can np s.0 s.1 in
            record {
              np = np;
              inside = s.0;
              exited = s.1;
              last = without np c.1 t;
              result =
                  wait_found others q addr np have t e
                  ∙ (rw (reap-freeproc q addr np t c.1 c.0 c.2) refl);
              cleared = update_self t.task np _;
              kept = λ i ne. update_ne t.task np i _ ne;
              rest = refl;
              memory = c.2;
            }
        by_scan (none, have) e s = let clash : false ≡ true = sym (s.0 p lt) ∙ child in absurd (cc)

    -- After `exit` of a process that is neither the first nor its own parent, `wait` by its parent
    -- does not sleep. Where `addr` is 0 or every status can be copied to it, and the memory of every
    -- exited process can be given back then, `wait` copies the status of a child that has exited to
    -- `addr`, unless that is 0, gives the child's memory back, clears its slot and no other, and
    -- returns its pid.
    pub wait-exit :
        (others : List (ProcTable → ProcTable)) (p q status addr : ℕ) (t : ProcTable)
        → p < nproc
        → p ≢ t.initproc
        → p ≢ q
        → (t.task p).parent ≡ some q
        → ((addr ≡ 0) ⊎ ((x : ℕ) → (copyout (t.task q).pagetable addr x t.mem).0 ≡ true))
        → ((i x : ℕ)
            → i < nproc
            → ((p ≡ i) ⊎ (is_zombie (t.task i).state ≡ true))
            → (m' : Kmem) × MemoryFreed kernel_end
                (t.task i).trapframe
                (t.task i).pagetable
                (t.task i).sz
                (passed_on q addr x t)
                m')
        → Safely (Reaps others q addr) (exit kernel_end address p status t)
    wait-exit others p q status addr t lt ne other parent passed freeable =
        Safely-mono (exit-Ended kernel_end address p status t ne) (λ t' e.
          let own : (t'.task p).parent ≡ some q =
            e.parents p ∙ keeps_parent p q t.initproc (t.task p) parent other in
          let child : is_child_of q (t'.task p) ≡ true =
            ap (λ o. is_self o q) own ∙ (let same : (q == q) ≡ true = ground arith in same) in
          let table : (t'.task q).pagetable ≡ (t.task q).pagetable =
            (same_memory kernel_end address p status t t' e q).pagetable in
          exited-Reaps others p q addr t' lt (rw (child, e.ended) refl) (λ i i_lt gone.
            let was = exited_before kernel_end address p status t t' e i (ground arith) in
            let s = same_memory kernel_end address p status t t' e i in
            let f = freeable i (t'.task i).xstate i_lt was in
            (
              elim passed [
                | inl z ↦ inl z
                | inr c ↦ inr (rw (table, e.mem) (c (t'.task i).xstate))
              ],
              f.0,
              rw (s.trapframe, s.pagetable, s.sz, table, e.mem) f.1,
            )))

    -- `wait` by a process without children returns -1 at once and changes nothing.
    pub wait_childless :
        (others : List (ProcTable → ProcTable)) (p addr : ℕ) (t : ProcTable)
        → ((i : ℕ) → i < nproc → is_child_of p (t.task i) ≡ false)
        → wait kernel_end address copyout others p addr t ≡ ok (some (minus_one, t))
    wait_childless others p addr t alone =
        by_scan (scan kernel_end address nproc p t) refl (scan-Scanned kernel_end address nproc p t)
      where
        by_scan :
            (r : Option ℕ × Bool)
            → scan kernel_end address nproc p t ≡ r
            → Scanned nproc p t r
            → wait kernel_end address copyout others p addr t ≡ ok (some (minus_one, t))
        by_scan (some np, have) e s =
            let clash : true ≡ false = sym s.1 ∙ rw (alone np s.0) refl in absurd (cc)
        by_scan (none, have) e s = wait_gives_up others p addr have t e (rw (s.2 alone) refl)
