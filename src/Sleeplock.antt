-- ===== src/Sleeplock.antt =====
-- kernel/sleeplock.c: a lock whose waiters sleep. The spin lock `lk->lk` makes what runs between
-- two sleeps one step; it is not a field here.
pub mod Holding
mod Tests
use risc_v_operating_system.Base.{
  ℕ, ◌+◌, Bool, ◌&&◌, not, Option, none, some, List, [], ◌∷◌, ◌==◌, if◌then◌else◌, remove,
}

-- `struct sleeplock`. The last field counts the calls of `wakeup(lk)`.
pub record Sleeplock : Type 0 where
  pub locked : ℕ
  pub pid : ℕ
  pub wakeups : ℕ

-- `inside` lists the processes between `acquiresleep` and `releasesleep`; no code reads it.
pub record World : Type 0 where
  pub lock : Sleeplock
  pub inside : List ℕ

-- What the other processes do, each time that this one sleeps.
abbrev pub Others : Type 0
Others = List (World → World)

abbrev pub initsleeplock : Sleeplock
initsleeplock = record { locked = 0; pid = 0; wakeups = 0 }

abbrev pub enter : (pid : ℕ) → World → World
enter pid w = record { lock = record w.lock { locked = 1; pid = pid }; inside = pid ∷ w.inside }

-- By the process `pid`; `none` if it still sleeps when the list of others ends.
unfoldable pub acquiresleep : Others → (pid : ℕ) → World → Option World
acquiresleep [] pid w = if not (w.lock.locked == 0) then none else some (enter pid w)
acquiresleep (o ∷ others) pid w =
    let slept = acquiresleep others pid (o w) in
    if not (w.lock.locked == 0) then slept else some (enter pid w)

unfoldable pub releasesleep : (pid : ℕ) → World → World
releasesleep pid w = record {
  lock = record { locked = 0; pid = 0; wakeups = w.lock.wakeups + 1 };
  inside = remove pid w.inside;
}

unfoldable pub holdingsleep : (pid : ℕ) → Sleeplock → Bool
holdingsleep pid lk = not (lk.locked == 0) && lk.pid == pid
