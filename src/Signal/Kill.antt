-- ===== src/Signal/Kill.antt =====
-- `kill`: which process gets the signal, and which lock it leaves held.
use risc_v_operating_system.Base.{
  ℕ, ◌<◌, ◌≡◌, ◌≢◌, refl, true, false, ◌||◌, arith, ltb, ◌==◌, List, [], ◌∷◌, ◌++◌, ok, panic,
}
use risc_v_operating_system.Base.Word.{is_negative, one_shl, lor, bit, bit-lor, bit-one_shl}
use risc_v_operating_system.Proc.{Proc}
use risc_v_operating_system.Signal.{minus_one, is_dead, kill_loop, kill}

-- No lock of the table is held by this CPU.
abbrev pub Unlocked : List Proc → Type 0
Unlocked [] = Unit {0}
Unlocked (p ∷ ps) = (p.locked ≡ false) × Unlocked ps

-- No process of the list has this id.
abbrev pub Lacks : ℕ → List Proc → Type 0
Lacks pid [] = Unit {0}
Lacks pid (p ∷ ps) = (p.pid ≢ pid) × Lacks pid ps

-- the process that was signalled, with its new pending set
abbrev pub signalled : ℕ → Proc → Proc
signalled op p = record p { pending_signals = lor 32 p.pending_signals op }

-- A signal number from 0 to 31, as the test of `kill` sees it.
in_range : (signum : ℕ) → signum < 32 → (is_negative signum || ltb 31 signum) ≡ false
in_range signum h = ground arith

kill_loop-missing :
    (pid op : ℕ) (ps : List Proc)
    → Unlocked ps
    → Lacks pid ps
    → kill_loop pid op ps ≡ ok (minus_one, ps)
unfolding kill_loop
kill_loop-missing pid op [] free none_has = refl
kill_loop-missing pid op (p ∷ ps) free none_has =
    ground (arith, kill_loop-missing pid op ps free.1 none_has.1)

kill_loop-live :
    (pid op : ℕ) (front back : List Proc) (p : Proc)
    → Unlocked (front ++ (p ∷ back))
    → Lacks pid front
    → p.pid ≡ pid
    → is_dead p ≡ false
    → kill_loop pid op (front ++ (p ∷ back)) ≡ ok (0, front ++ (signalled op p ∷ back))
unfolding kill_loop
kill_loop-live pid op [] back p free none_has e live = ground arith
kill_loop-live pid op (q ∷ front) back p free none_has e live =
    ground (arith, kill_loop-live pid op front back p free.1 none_has.1 e live)

kill_loop-dead :
    (pid op : ℕ) (front back : List Proc) (p : Proc)
    → Unlocked (front ++ (p ∷ back))
    → Lacks pid front
    → p.pid ≡ pid
    → is_dead p ≡ true
    → kill_loop pid op (front ++ (p ∷ back))
      ≡ ok (minus_one, front ++ (record p { locked = true } ∷ back))
unfolding kill_loop
kill_loop-dead pid op [] back p free none_has e dead = ground arith
kill_loop-dead pid op (q ∷ front) back p free none_has e dead =
    ground (arith, kill_loop-dead pid op front back p free.1 none_has.1 e dead)

-- a table whose lock of `p` is held stops a search that reaches it
kill_loop-held :
    (pid op : ℕ) (front back : List Proc) (p : Proc)
    → Unlocked front
    → Lacks pid front
    → p.locked ≡ true
    → kill_loop pid op (front ++ (p ∷ back)) ≡ panic
unfolding kill_loop
kill_loop-held pid op [] back p free none_has held = ground arith
kill_loop-held pid op (q ∷ front) back p free none_has held =
    ground (arith, kill_loop-held pid op front back p free.1 none_has.1 held)

Unlocked-front : (front back : List Proc) → Unlocked (front ++ back) → Unlocked front
Unlocked-front [] back free = tt
Unlocked-front (q ∷ front) back free = (free.0, Unlocked-front front back free.1)

module _ (pid signum : ℕ) (h : signum < 32) where
  module _ (front back : List Proc) (p : Proc) (free : Unlocked (front ++ (p ∷ back)))
      (earlier : Lacks pid front) (e : p.pid ≡ pid) where
    -- With no lock held, a signal from 0 to 31 and a first process with the id that is alive,
    -- `kill` returns 0 and changes only the pending set of that process, to which it adds the
    -- signal.
    pub kill-live :
        (i : ℕ)
        → is_dead p ≡ false
        → i < 32
        → (kill pid signum (front ++ (p ∷ back))
            ≡ ok (0, front ++ (signalled (one_shl signum) p ∷ back)))
          × (bit i (signalled (one_shl signum) p).pending_signals
              ≡ (bit i p.pending_signals || i == signum))
    unfolding kill
    kill-live i live lt = (
      rw (in_range signum h) (kill_loop-live pid (one_shl signum) front back p free earlier e live),
      ground (arith, bit-lor 32 i p.pending_signals (one_shl signum), bit-one_shl i signum),
    )

    -- With no lock held, where the first process with the id has been killed, or is a zombie or
    -- unused, `kill` returns -1 and leaves the lock of that process held, so that a second
    -- such call on the same CPU panics.
    pub kill-dead :
        is_dead p ≡ true
        → (kill pid signum (front ++ (p ∷ back))
            ≡ ok (minus_one, front ++ (record p { locked = true } ∷ back)))
          × (kill pid signum (front ++ (record p { locked = true } ∷ back)) ≡ panic)
    unfolding kill
    kill-dead dead = (
      rw (in_range signum h) (kill_loop-dead pid (one_shl signum) front back p free earlier e dead),
      rw (in_range signum h) (
          kill_loop-held pid (one_shl signum) front back (record p { locked = true })
            (Unlocked-front front (p ∷ back) free) earlier refl),
    )

  -- With no lock held, a signal from 0 to 31 and no process with the id, `kill` returns -1 and
  -- changes nothing.
  pub kill-missing :
      (ps : List Proc) → Unlocked ps → Lacks pid ps → kill pid signum ps ≡ ok (minus_one, ps)
  unfolding kill
  kill-missing ps free lacks =
      rw (in_range signum h) (kill_loop-missing pid (one_shl signum) ps free lacks)
