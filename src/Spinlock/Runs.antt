-- ===== src/Spinlock/Runs.antt =====
-- Runs of any number of CPUs, from a new lock on.
use risc_v_operating_system.Base.{
  ℕ, ◌+◌, ◌^◌, ◌<◌, ◌≡◌, sym, ap, ◌∙◌, true, false, arith, ◌==◌, Run, ok, panic, Safely, safely,
}
use mathlib.Core.Path.{subst}
use risc_v_operating_system.Spinlock.{
  outside, Cpu, Spinlock, mycpu, initlock, State, put_cpu, advance,
}
use risc_v_operating_system.Spinlock.Exclusion.{
  is_inside, is_held, depth_fits, Excluded, update-Good, Excluded-unique,
}
use risc_v_operating_system.Spinlock.Steps.{advance-Excluded}

-- What may happen after `s`: a step of a CPU in `acquire` or `release`, or anything else on a CPU
-- that leaves this lock alone, for instance the use of other locks.
pub data Reach (s : State) : State → Type 0 where
  here : Reach s s
  step : {t u : State} → Reach s t → (i : ℕ) → advance i t ≡ ok u → Reach s u
  elsewhere :
      {t : State}
      → Reach s t
      → (i : ℕ) (c : Cpu) → c.phase ≡ (t.cpus i).phase
      → depth_fits c.phase c.noff ≡ true
      → (0 < c.noff → c.interrupts ≡ false)
      → Reach s (put_cpu i t t.lock c)

-- a lock after `initlock`, which no CPU uses yet
pub record IsFresh (s : State) : Type 0 where
  pub lock_lem : s.lock ≡ initlock
  pub unused : (i : ℕ) → (s.cpus i).phase ≡ outside
  pub depth : (i : ℕ) → (s.cpus i).noff + 1 < 2 ^ 31
  pub off : (i : ℕ) → 0 < (s.cpus i).noff → (s.cpus i).interrupts ≡ false

nobody : (i : ℕ) → (0 == mycpu i) ≡ false
nobody i = ground arith

fresh-Excluded : (s : State) → IsFresh s → Excluded s
fresh-Excluded s f = record {
  owner = 0;
  locked_lem = ap (λ (lk : Spinlock). lk.locked) f.lock_lem;
  all = λ i. record {
    inside = ap is_inside (f.unused i) ∙ sym (nobody i);
    named =
        ap (λ (lk : Spinlock). lk.cpu == mycpu i) f.lock_lem
        ∙ nobody i
        ∙ sym (ap is_held (f.unused i));
    depth = ap (λ p. depth_fits p (s.cpus i).noff) (f.unused i) ∙ ground (arith, f.depth i);
    off = f.off i;
  };
}

-- what is true of the result, if there is one
abbrev IfReturns : (State → Type 0) → Run State → Type 0
IfReturns P (ok t) = P t
IfReturns P panic = Unit {0}

Safely-IfReturns : {P : State → Type 0} {r : Run State} → Safely P r → IfReturns P r
Safely-IfReturns (safely p) = p

Safely-result : {P : State → Type 0} {r : Run State} {u : State} → Safely P r → r ≡ ok u → P u
Safely-result {P} s e = subst (IfReturns P) e (Safely-IfReturns s)

Reach-Excluded : {s t : State} → Reach s t → Excluded s → Excluded t
Reach-Excluded here x = x
Reach-Excluded (step {t} r i e) x = Safely-result (advance-Excluded i t (Reach-Excluded r x)) e
Reach-Excluded (elsewhere {t} r i c same deep off) x =
    let y = Reach-Excluded r x in
    record {
      owner = y.owner;
      locked_lem = y.locked_lem;
      all =
          update-Good y.owner t.lock.cpu y.owner t.lock.cpu i t.cpus c y.all
            (record {
              inside = ap is_inside same ∙ (y.all i).inside;
              named = (y.all i).named ∙ sym (ap is_held same);
              depth = deep;
              off = off;
            })
            (λ j ne g. g);
    }

-- However the CPUs' steps are interleaved after `initlock`, and whatever they do elsewhere that
-- leaves interrupts off inside a `push_off`, two CPUs that are between the successful swap of
-- `acquire` and the store of `release` are the same one, and the next step of any CPU does not
-- panic.
pub Reach-exclusive :
    {s t : State}
    → Reach s t
    → IsFresh s
    → (i j : ℕ)
    → (is_inside (t.cpus i).phase ≡ true → is_inside (t.cpus j).phase ≡ true → i ≡ j)
      × Safely Excluded (advance i t)
Reach-exclusive {t} r f i j =
    let x = Reach-Excluded r (fresh-Excluded _ f) in
    (Excluded-unique t x i j, advance-Excluded i t x)
