-- ===== src/Log/Ends.antt =====
-- How a run over a device ends: by returning, or by a loss of power, and never by a panic.
use mathlib.Core.Path.{subst₂}
use risc_v_operating_system.Base.{ap, ℕ, ◌-◌, ◌<◌, ◌≡◌, ◌==◌, arith, inl, inr, Bool-cases, update}
use risc_v_operating_system.Log.Device.{
  Disk, Machine, Outcome, done, crashed, Cmd, and_then, bwrite,
}

pub data Ends {A : Type 0} (P : A → Machine → Type 0) (Q : Disk → Type 0) : Outcome A → Type 0 where
  ended : {a : A} {m : Machine} → P a m → Ends P Q (done a m)
  cut : {d : Disk} → Q d → Ends P Q (crashed d)

module _ {A : Type 0} {P : A → Machine → Type 0} {Q : Disk → Type 0} where
  pub bind :
      {B : Type 0} {R : B → Machine → Type 0} {o : Outcome A} {k : A → Cmd B}
      → Ends P Q o
      → ((a : A) (m : Machine) → P a m → Ends R Q (k a m))
      → Ends R Q (and_then o k)
  bind (ended p) next = next _ _ p
  bind (cut q) next = cut q

  pub mono :
      {R : A → Machine → Type 0} {S : Disk → Type 0} {o : Outcome A}
      → Ends P Q o
      → ((a : A) (m : Machine) → P a m → R a m)
      → ((d : Disk) → Q d → S d)
      → Ends R S o
  mono (ended p) on_end on_cut = ended (on_end _ _ p)
  mono (cut q) on_end on_cut = cut (on_cut _ q)

-- the device once block `b` is on the disk
abbrev pub written : ℕ → Machine → Machine
written b m = record m { disk = update m.disk b (m.cache b); power = m.power - 1 }

pub bwrite-Ends :
    {P : Unit {0} → Machine → Type 0} {Q : Disk → Type 0} (b : ℕ) (m : Machine)
    → (m.power ≡ 0 → Q m.disk)
    → (0 < m.power → P tt (written b m))
    → Ends P Q (bwrite b m)
unfolding bwrite
bwrite-Ends b m failed wrote = elim (Bool-cases (m.power == 0)) [
  | inl off ↦ rw off (cut (failed (ground arith)))
  | inr on ↦ rw on (ended (wrote (ground arith)))
]

abbrev result : {A : Type 0} → A → Outcome A → A
result a (done b m) = b
result a _ = a

abbrev device : {A : Type 0} → Machine → Outcome A → Machine
device m (done b k) = k
device m _ = m

module _ {A : Type 0} {P : A → Machine → Type 0} {Q : Disk → Type 0} where
  -- What is true of each way to end is true of a run that returned.
  pub of_done : {o : Outcome A} {a : A} {m : Machine} → Ends P Q o → o ≡ done a m → P a m
  of_done (ended {a} {m} p) e = subst₂ P (ap (λ o. result a o) e) (ap (λ o. device m o) e) p
  of_done (cut q) e = cc
