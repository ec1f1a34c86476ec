-- ===== src/Sleeplock/Holding.antt =====
-- Who holds a sleep lock.
use risc_v_operating_system.Base.{
  ℕ, ◌+◌, ◌≡◌, refl, sym, ap, ◌∙◌, ◌↔◌, ◌⊎◌, inl, inr, true, false, not, some, [], ◌∷◌, arith, ◌==◌,
  Bool-cases,
}
use risc_v_operating_system.Base.{remove, length, get_or}
use risc_v_operating_system.Sleeplock.{
  World, Others, enter, acquiresleep, releasesleep, holdingsleep,
}

-- Nobody is inside a free lock, and one process inside a taken one, which bears its id.
pub data Exclusive (w : World) : Type 0 where
  free : w.lock.locked ≡ 0 → w.inside ≡ [] → Exclusive w
  taken : w.lock.locked ≡ 1 → w.inside ≡ w.lock.pid ∷ [] → Exclusive w

-- The other processes keep the lock exclusive.
abbrev pub Fair : Others → Type 0
Fair [] = Unit {0}
Fair (o ∷ others) = ((w : World) → Exclusive w → Exclusive (o w)) × Fair others

-- The lock is free, or is so when the process wakes up once.
abbrev pub BecomesFree : Others → World → Type 0
BecomesFree [] w = w.lock.locked ≡ 0
BecomesFree (o ∷ others) w = (w.lock.locked ≡ 0) ⊎ BecomesFree others (o w)

-- The process alone is inside.
abbrev pub HeldBy : ℕ → World → Type 0
HeldBy pid v = (v.inside ≡ pid ∷ []) × (holdingsleep pid v.lock ≡ true) × Exclusive v

enter-HeldBy : (pid : ℕ) (w : World) → Exclusive w → w.lock.locked ≡ 0 → HeldBy pid (enter pid w)
unfolding holdingsleep
enter-HeldBy pid w (free z none_in) open_lock =
    let alone : pid ∷ w.inside ≡ pid ∷ [] = ap (λ l. pid ∷ l) none_in in
    (alone, ground arith, taken refl alone)
enter-HeldBy pid w (taken one by) open_lock = absurd (omega arith)

-- If the others keep the lock exclusive and it becomes free, `acquiresleep` returns, with the process
-- alone inside, and `holdingsleep` tells it so.
pub acquiresleep-HeldBy :
    (others : Others) (pid : ℕ) (w : World)
    → Fair others
    → Exclusive w
    → BecomesFree others w
    → (v : World) × (acquiresleep others pid w ≡ some v) × HeldBy pid v
unfolding acquiresleep
acquiresleep-HeldBy [] pid w fair x becomes =
    let go : not (w.lock.locked == 0) ≡ false = ground (arith, becomes) in
    rw go (enter pid w, refl, enter-HeldBy pid w x becomes)
acquiresleep-HeldBy (o ∷ others) pid w fair x becomes =
    elim (Bool-cases (not (w.lock.locked == 0))) [
      | inl busy ↦
          let later : BecomesFree others (o w) = elim becomes [
            | inl now ↦ absurd (ground (arith, now))
            | inr b ↦ b
          ] in
          rw busy (acquiresleep-HeldBy others pid (o w) fair.1 (fair.0 w x) later)
      | inr go ↦ rw go (enter pid w, refl, enter-HeldBy pid w x (ground arith))
    ]

-- `holdingsleep` is true for a process exactly if that process is inside.
pub holdingsleep_iff :
    (pid : ℕ) (w : World) → Exclusive w → (holdingsleep pid w.lock ≡ true) ↔ (w.inside ≡ pid ∷ [])
unfolding holdingsleep
holdingsleep_iff pid w (free z none_in) = (
  λ h. absurd (ground (arith, z, h)),
  λ e. let long : 0 ≡ 1 = ap length (sym none_in ∙ e) in absurd (omega arith),
)
holdingsleep_iff pid w (taken one by) = (
  λ h. let mine : w.lock.pid ≡ pid = ground (arith, one, h) in by ∙ ap (λ i. i ∷ []) mine,
  λ e.
      let mine : w.lock.pid ≡ pid = ap (λ l. get_or l 0 0) (sym by ∙ e) in
      ground (arith, one, mine),
)

-- A process that holds the lock gives it back by `releasesleep`: nobody is inside then, and those
-- who wait are woken once.
pub releasesleep-free :
    (pid : ℕ) (w : World)
    → HeldBy pid w
    → ((releasesleep pid w).lock.locked ≡ 0)
      × ((releasesleep pid w).inside ≡ [])
      × ((releasesleep pid w).lock.wakeups ≡ w.lock.wakeups + 1)
      × Exclusive (releasesleep pid w)
unfolding releasesleep remove
releasesleep-free pid w h =
    let same : (pid == pid) ≡ true = ground arith in
    let empty : remove pid w.inside ≡ [] = ap (remove pid) h.0 ∙ rw same refl in
    (refl, empty, refl, free refl empty)
