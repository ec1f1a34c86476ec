-- ===== src/Log/Tests.antt =====
-- Runs of log.c at small inputs, and its theorems there.
use risc_v_operating_system.Base.{
  ℕ, zero, suc, ◌+◌, ◌*◌, ◌≤◌, ◌<◌, ◌≡◌, refl, ◌⊎◌, ◌↔◌, false, [], ◌∷◌, ◌==◌, arith, if◌then◌else◌,
  update, fun_ext,
}
use risc_v_operating_system.Log.Device.{Disk, Machine, Block, Outcome, done, crashed, panic, bwrite}
use risc_v_operating_system.Log.Ends.{Ends}
use risc_v_operating_system.Log.Crash.{after, mentions, WellFormed}
use risc_v_operating_system.Log.Reserve.{
  Running, Step, begin, here, next, Reserved, Step-Reserved, log_write-panic_iff,
}
use risc_v_operating_system.Log.Safety.{SameHomes, Recovers, all_logged, recover_lem, commit_atomic}
use risc_v_operating_system.Log.Recover.{boot}
use risc_v_operating_system.Log.{Log, log_size, clear, commit, initlog, begin_op, end_op, log_write}

-- one operation, which has logged blocks 40 and 50
abbrev l : Log
l = record {
  start = 2;
  size = 31;
  outstanding = 1;
  committing = false;
  lh = record { n = 2; block = λ i. if i == 0 then 40 else 50 };
  wakeups = 0;
}

-- a log that no operation uses
abbrev idle : Log
idle = record l { outstanding = 0; lh = record { n = 0; block = λ _. 0 } }

abbrev machine : ℕ → Machine
machine power = record {
  disk = λ b w. 0;
  cache = λ b w. if b == 2 then 0 else b + w;
  refcnt = λ b. 1;
  power = power;
}

abbrev disk_of : {A : Type 0} → Outcome A → ℕ → Block
disk_of (done a m) = m.disk
disk_of (crashed d) = d
disk_of panic = λ b w. 7

-- A loss of power before the header leaves block 40; after it, recovery brings the new block.
crash_points :
    (disk_of (initlog 2 31 idle (boot (disk_of (commit l (machine 2))) 31)) 40 3 ≡ 0)
    × (disk_of (initlog 2 31 idle (boot (disk_of (commit l (machine 3))) 31)) 40 3 ≡ 43)
    × (disk_of (commit l (machine 6)) 50 0 ≡ 50)
unfolding commit initlog bwrite update
crash_points = (refl, refl, refl)

end_op_commits : disk_of (end_op l (machine 9)) 40 1 ≡ 41
unfolding end_op bwrite update
end_op_commits = refl

l-WellFormed : WellFormed l
l-WellFormed = record { few = omega arith; fits = omega arith; homes = λ i lt. ground arith }

commit_atomic_example :
    Ends
      (λ l' m'.
        (l' ≡ clear l)
        × (m'.disk 2 0 ≡ 0)
        × SameHomes l m'.disk (after l (machine 4).cache (machine 4).disk))
      (λ d.
        (Recovers l (machine 4).disk d ⊎ Recovers l (after l (machine 4).cache (machine 4).disk) d)
        × (4 < 2 * 2 + 2))
      (commit l (machine 4))
commit_atomic_example = commit_atomic l (machine 4) l-WellFormed refl

-- the disk of a commit that was cut short after its header
abbrev logged_disk : Disk
logged_disk b w =
    if b == 2
    then (if w == 0 then 2 else if w == 1 then 40 else if w == 2 then 50 else 0)
    else if b == 3
    then 40 + w
    else if b == 4
    then 50 + w
    else 0

logged_disk-Recovers : Recovers l (after l (machine 0).cache (machine 0).disk) logged_disk
unfolding mentions
logged_disk-Recovers =
    all_logged (machine 0).cache (machine 0).disk
      (record {
        header = record { count = refl; entries = entries };
        copies = copies;
        kept = λ b o absent. fun_ext λ w. ground arith;
      })
      refl
  where
    entries : (i : ℕ) → i < 2 → logged_disk 2 (i + 1) ≡ l.lh.block i
    entries zero h = refl
    entries (suc zero) h = refl
    entries (suc (suc i)) h = absurd (omega arith)

    copies : (i : ℕ) → i < 2 → logged_disk (2 + i + 1) ≡ (machine 0).cache (l.lh.block i)
    copies zero h = refl
    copies (suc zero) h = refl
    copies (suc (suc i)) h = absurd (omega arith)

recover_lem_example :
    Ends
      (λ l' m'.
        (l'.lh.n ≡ 0)
        × (m'.disk 2 0 ≡ 0)
        × SameHomes l m'.disk (after l (machine 0).cache (machine 0).disk))
      (λ d'. Recovers l (after l (machine 0).cache (machine 0).disk) d' × (1 < log_size + 1))
      (initlog 2 31 idle (boot logged_disk 1))
recover_lem_example =
    recover_lem l idle (after l (machine 0).cache (machine 0).disk) logged_disk 1 l-WellFormed
      logged_disk-Recovers

-- an idle file system, and the same with one operation
abbrev quiet : Running
quiet = record { log = idle; quotas = [] }

abbrev busy : Running
busy = record { log = record idle { outstanding = 1 }; quotas = 10 ∷ [] }

quiet-Reserved : Reserved quiet
quiet-Reserved = record {
  room = omega arith;
  each = tt;
  counted = refl;
  few = omega arith;
  idle = refl;
  empty = λ _. refl;
}

first_begin : Step quiet busy
unfolding begin_op
first_begin = begin refl refl

Step-Reserved_example : Reserved busy
Step-Reserved_example = Step-Reserved first_begin quiet-Reserved

log_write-panic_iff_example : (log_write 40 busy.log (machine 0) ≡ panic) ↔ (31 ≤ 1)
log_write-panic_iff_example =
    log_write-panic_iff [] [] 9 40 (machine 0) quiet-Reserved (next here first_begin) refl

-- A log of 30 blocks, as mkfs makes it: the operation may log 1 more block, and the call panics.
mkfs_log_panics :
    log_write 40 (record l { size = 30; lh = record { n = 29; block = λ i. i + 50 } }) (machine 0)
    ≡ panic
unfolding log_write
mkfs_log_panics = refl
