-- ===== src/Life/Ended.antt =====
-- `exit`: what it leaves to the other processes.
use mathlib.Core.Path.{subst}
use risc_v_operating_system.Base.{
  ℕ, ◌<◌, ◌≡◌, refl, sym, ap, ◌∙◌, ◌≢◌, ◌⊎◌, inl, inr, Bool, true, false, ◌&&◌, not, Option, none,
  some, arith, ltb, ◌==◌, Bool-cases, update, update_self, update_ne, Safely, safely,
}
use risc_v_operating_system.Proc.{ProcState, is_sleeping, is_zombie}
use risc_v_operating_system.Life.{
  nproc, Task, ProcTable, is_self, woken, wakeup, is_child_of, reparent_loop, reparent, wake_parent,
  exit,
}
use risc_v_operating_system.Life.Wake.{awake, wakeup_lem}
use risc_v_operating_system.Life.Reparent.{
  Stirred, Stirred-trans, awake-Stirred, new_parent, reparent_loop-Reparented,
}

-- The process is not asleep on the channel.
abbrev pub is_awake : (chan : ℕ) → Task → Bool
is_awake chan p = not (is_sleeping p.state && p.chan == chan)

pub keeps_parent :
    (p q init : ℕ) (pp : Task) → pp.parent ≡ some q → p ≢ q → new_parent nproc p init p pp ≡ some q
keeps_parent p q init pp e ne =
    let other : (q == p) ≡ false = ground arith in
    let no_child : is_child_of p pp ≡ false = ap (λ o. is_self o p) e ∙ other in rw no_child e

awake_near :
    (p chan q : ℕ) (x : Task) → p ≢ q → q < nproc → awake nproc (some p) chan q x ≡ woken chan x
awake_near p chan q x ne lt =
    let in_reach : (not (p == q) && ltb q nproc) ≡ true = ground arith in rw in_reach refl

module _ (kernel_end : ℕ) (address : ℕ → ℕ) where
  -- What an exit of `p` leaves: `p` as it was but for its state, its status and its parent, none of
  -- whose children is left, and a parent that is not asleep in `wait`. Others may be woken from their
  -- sleep or get another parent, and no more; nothing else of the table changes.
  pub record Ended (p status : ℕ) (t t' : ProcTable) : Type 0 where
    pub initproc : t'.initproc ≡ t.initproc
    pub nextpid : t'.nextpid ≡ t.nextpid
    pub mem : t'.mem ≡ t.mem
    pub ended : t'.task p ≡ record (t.task p) {
      xstate = status;
      state = ProcState.zombie;
      parent = (t'.task p).parent;
    }
    pub parents : (i : ℕ) → (t'.task i).parent ≡ new_parent nproc p t.initproc i (t.task i)
    pub others : (i : ℕ) → p ≢ i → Stirred (t.task i) (t'.task i)
    pub told :
        (q : ℕ)
        → (t.task p).parent ≡ some q
        → p ≢ q
        → q < nproc
        → is_awake (address q) (t'.task q) ≡ true

  abbrev parent_chan : Option ℕ → ℕ
  parent_chan none = 0
  parent_chan (some q) = address q

  wake_parent_lem :
      (p : ℕ) (t : ProcTable)
      → wake_parent kernel_end address p t ≡ wakeup (some p) (parent_chan (t.task p).parent) t
  unfolding wake_parent
  wake_parent_lem p t = either (t.task p).parent
    where
      either :
          (o : Option ℕ)
          → elim o [ none ↦ wakeup (some p) 0 t | some q ↦ wakeup (some p) (address q) t ]
            ≡ wakeup (some p) (parent_chan o) t
      either none = refl
      either (some q) = refl

  woken-awake : (chan : ℕ) (p : Task) → is_awake chan (woken chan p) ≡ true
  woken-awake chan p = elim (Bool-cases (is_sleeping p.state && p.chan == chan)) [
    | inl asleep ↦ rw asleep refl
    | inr other ↦ rw (other, other) refl
  ]

  -- `exit` of a process that is not the first one leaves it a zombie with its status. Its children become those of
  -- the first process, its parent does not sleep in `wait` any more, and other processes are at most
  -- woken from a sleep. All other fields of all processes, `nextpid` and the memory are as before.
  pub exit-Ended :
      (p status : ℕ) (t : ProcTable)
      → p ≢ t.initproc
      → Safely (Ended p status t) (exit kernel_end address p status t)
  unfolding exit reparent
  exit-Ended p status t ne =
      let r = reparent_loop-Reparented kernel_end address nproc p t in
      let given = reparent_loop kernel_end address nproc p t in
      let chan = parent_chan (given.task p).parent in
      let stirred : (i : ℕ) → Stirred (t.task i) (awake nproc (some p) chan i (given.task i)) =
        λ i. Stirred-trans (r.stirred i) (awake-Stirred nproc (some p) chan i (given.task i)).0 in
      let parents : (i : ℕ)
          → (awake nproc (some p) chan i (given.task i)).parent
            ≡ new_parent nproc p t.initproc i (t.task i) =
        λ i. (awake-Stirred nproc (some p) chan i (given.task i)).1 ∙ r.parents i in
      let f : ℕ → Task = λ i. awake nproc (some p) chan i (given.task i) in
      let z : Task = record (f p) { xstate = status; state = ProcState.zombie } in
      let test : (p == t.initproc) ≡ false = ground arith in
      let here = update_self f p z in
      rw (test, wake_parent_lem p given, wakeup_lem (some p) chan given)
        (safely (record {
          initproc = r.initproc;
          nextpid = r.nextpid;
          mem = r.mem;
          ended = rw here (
              ap (λ (x : Task). record x { xstate = status; state = ProcState.zombie })
                (stirred p).rest);
          parents = λ i. elim (Bool-cases (p == i)) [
            | inl e ↦
                let same : p ≡ i = ground arith in
                subst (λ j. (update f p z j).parent ≡ new_parent nproc p t.initproc j (t.task j))
                  same (ap (λ x. x.parent) here ∙ parents p)
            | inr other ↦ ap (λ x. x.parent) (update_ne f p i z (ground arith)) ∙ parents i
          ];
          others = λ i other. rw (update_ne f p i z other) (stirred i);
          told = λ q e other lt.
              let own : (given.task p).parent ≡ some q =
                r.parents p ∙ keeps_parent p q t.initproc (t.task p) e other in
              let c : chan ≡ address q = ap parent_chan own in
              rw (update_ne f p q z other) (
                ap (λ x. is_awake (address q) x) (awake_near p chan q (given.task q) other lt)
                ∙ subst (λ x. is_awake x (woken chan (given.task q)) ≡ true) c
                    (woken-awake chan (given.task q)));
        }))

  -- the memory that a process holds
  pub record SameMemory (x y : Task) : Type 0 where
    pub trapframe : y.trapframe ≡ x.trapframe
    pub pagetable : y.pagetable ≡ x.pagetable
    pub sz : y.sz ≡ x.sz

  -- `exit` leaves every process the memory that it had.
  pub same_memory :
      (p status : ℕ) (t t' : ProcTable)
      → Ended p status t t'
      → (i : ℕ) → SameMemory (t.task i) (t'.task i)
  same_memory p status t t' e i = elim (Bool-cases (p == i)) [
    | inl here ↦
        let same : p ≡ i = ground arith in
        subst (λ j. SameMemory (t.task j) (t'.task j)) same
          (record {
            trapframe = ap (λ (x : Task). x.trapframe) e.ended;
            pagetable = ap (λ (x : Task). x.pagetable) e.ended;
            sz = ap (λ (x : Task). x.sz) e.ended;
          })
    | inr other ↦
        let r = (e.others i (ground arith)).rest in
        record {
          trapframe = ap (λ (x : Task). x.trapframe) r;
          pagetable = ap (λ (x : Task). x.pagetable) r;
          sz = ap (λ (x : Task). x.sz) r;
        }
  ]

  -- Who has exited afterwards is `p`, or had exited before.
  pub exited_before :
      (p status : ℕ) (t t' : ProcTable)
      → Ended p status t t'
      → (i : ℕ) → is_zombie (t'.task i).state ≡ true
      → (p ≡ i) ⊎ (is_zombie (t.task i).state ≡ true)
  exited_before p status t t' e i gone = elim (Bool-cases (p == i)) [
    | inl here ↦ inl (ground arith)
    | inr other ↦ elim (e.others i (ground arith)).woke [
      | inl same ↦ inr (ap is_zombie (sym same) ∙ gone)
      | inr w ↦ let clash : false ≡ true = ap is_zombie (sym w.1) ∙ gone in absurd (cc)
    ]
  ]
