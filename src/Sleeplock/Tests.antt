-- ===== src/Sleeplock/Tests.antt =====
-- A sleep lock and two processes.
use risc_v_operating_system.Base.{◌≡◌, refl, inr, some, [], ◌∷◌}
use risc_v_operating_system.Sleeplock.{World, initsleeplock, acquiresleep, enter}
use risc_v_operating_system.Sleeplock.Holding.{Exclusive, taken, free, HeldBy, acquiresleep-HeldBy}

-- Process 7 holds the lock.
abbrev world : World
world = enter 7 (record { lock = initsleeplock; inside = [] })

world-Exclusive : Exclusive world
world-Exclusive = taken refl refl

-- Whoever holds the lock gives it back while process 8 sleeps.
abbrev give_back : World → World
give_back w = record { lock = initsleeplock; inside = [] }

give_back-Exclusive : (w : World) → Exclusive w → Exclusive (give_back w)
give_back-Exclusive w x = free refl refl

acquiresleep-HeldBy_example :
    (v : World) × (acquiresleep (give_back ∷ []) 8 world ≡ some v) × HeldBy 8 v
acquiresleep-HeldBy_example =
    acquiresleep-HeldBy (give_back ∷ []) 8 world (give_back-Exclusive, tt) world-Exclusive
      (inr refl)
