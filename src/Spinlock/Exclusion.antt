-- ===== src/Spinlock/Exclusion.antt =====
-- Mutual exclusion, for any number of CPUs and any order of their steps.
use risc_v_operating_system.Base.{
  ℕ, ◌+◌, ◌^◌, ◌<◌, ◌≡◌, refl, ◌≢◌, ◌⊎◌, inl, inr, Bool, true, false, ◌&&◌, arith, ltb, ◌==◌,
  if◌then◌else◌, Bool-cases, update, update_lem,
}
use risc_v_operating_system.Spinlock.{
  Phase, outside, spinning, taken, held, leaving, Cpu, mycpu, holding, State,
}

-- between the successful swap of `acquire` and the store of 0 in `release`
abbrev pub is_inside : Phase → Bool
is_inside outside = false
is_inside spinning = false
is_inside taken = true
is_inside held = true
is_inside leaving = true

abbrev pub is_held : Phase → Bool
is_held outside = false
is_held spinning = false
is_held taken = false
is_held held = true
is_held leaving = false

abbrev pub is_outside : Phase → Bool
is_outside outside = true
is_outside spinning = false
is_outside taken = false
is_outside held = false
is_outside leaving = false

-- How deep a CPU is in `push_off`: at least once from the start of `acquire` to the end of
-- `release`, and little enough to be counted.
abbrev pub depth_fits : Phase → ℕ → Bool
depth_fits ph noff =
    if is_outside ph then ltb (noff + 1) (2 ^ 31) else (ltb 0 noff && ltb noff (2 ^ 31))

-- CPU `i`, where `owner` is 0 or the CPU inside, and `cpu` is the lock's field
pub record Good (owner cpu i : ℕ) (c : Cpu) : Type 0 where
  pub inside : is_inside c.phase ≡ (owner == mycpu i)
  pub named : (cpu == mycpu i) ≡ is_held c.phase
  pub depth : depth_fits c.phase c.noff ≡ true
  pub off : 0 < c.noff → c.interrupts ≡ false

pub record Excluded (s : State) : Type 0 where
  pub owner : ℕ
  pub locked_lem : s.lock.locked ≡ (if owner == 0 then 0 else 1)
  pub all : (i : ℕ) → Good owner s.lock.cpu i (s.cpus i)

-- All CPUs are good if the one that moves is, and the others are still.
pub update-Good :
    (owner cpu owner' cpu' i : ℕ) (f : ℕ → Cpu) (c : Cpu)
    → ((j : ℕ) → Good owner cpu j (f j))
    → Good owner' cpu' i c
    → ((j : ℕ) → i ≢ j → Good owner cpu j (f j) → Good owner' cpu' j (f j))
    → (j : ℕ) → Good owner' cpu' j (update f i c j)
update-Good owner cpu owner' cpu' i f c all one others j = elim (Bool-cases (i == j)) [
  | inl e ↦ let same : i ≡ j = ground arith in rw (update_lem f i j c, e) (rw same at one)
  | inr e ↦ rw (update_lem f i j c, e) (others j (ground arith) (all j))
]

pub held-inside : (p : Phase) → is_inside p ≡ false → is_held p ≡ false
held-inside outside e = refl
held-inside spinning e = refl
held-inside taken e = refl
held-inside held e = ground (arith, e)
held-inside leaving e = refl

-- Two CPUs that are inside are one.
pub Excluded-unique :
    (s : State)
    → Excluded s
    → (i j : ℕ) → is_inside (s.cpus i).phase ≡ true
    → is_inside (s.cpus j).phase ≡ true
    → i ≡ j
Excluded-unique s x i j a b =
    let p = (x.all i).inside in let q = (x.all j).inside in ground (arith, p, q)

-- `holding` tells a CPU whether it is in its critical section.
pub Excluded-holding :
    (s : State) (i : ℕ) → Excluded s → holding i s.lock ≡ is_held (s.cpus i).phase
Excluded-holding s i x =
    let h = held-inside (s.cpus i).phase in
    let g = x.all i in ground (arith, h, g.inside, g.named, x.locked_lem)

pub phase-cases :
    (p : Phase) → (p ≡ outside) ⊎ (p ≡ spinning) ⊎ (p ≡ taken) ⊎ (p ≡ held) ⊎ (p ≡ leaving)
phase-cases outside = inl refl
phase-cases spinning = inr (inl refl)
phase-cases taken = inr (inr (inl refl))
phase-cases held = inr (inr (inr (inl refl)))
phase-cases leaving = inr (inr (inr (inr refl)))
