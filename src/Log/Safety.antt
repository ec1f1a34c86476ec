-- ===== src/Log/Safety.antt =====
-- The promise of the log: a transaction is on the disk whole or not at all, whenever the power fails.
use risc_v_operating_system.Base.{ℕ, ◌+◌, ◌*◌, ◌<◌, ◌≡◌, refl, ◌⊎◌, inl, inr, arith}
use risc_v_operating_system.Log.Device.{Disk, Machine}
use risc_v_operating_system.Log.Ends
use risc_v_operating_system.Log.Ends.{Ends}
use risc_v_operating_system.Log.Commit.{commit-Ends}
use risc_v_operating_system.Log.Recover.{boot, recover-Committed, recover-Uncommitted}
use risc_v_operating_system.Log.Crash.{Outside, after, WellFormed, Uncommitted, Committed}
use risc_v_operating_system.Log.{Log, log_size, clear, commit, initlog}

-- Every home block of `d` is that of `e`.
abbrev pub SameHomes : Log → (d e : Disk) → Type 0
SameHomes l d e = (b : ℕ) → Outside l b → d b ≡ e b

-- The disks after a crash of a commit, or of a recovery from such a crash: a later recovery
-- that has power for 31 writes ends, and one that is cut short leaves such a disk again.
pub data Recovers (l : Log) (e : Disk) (d : Disk) : Type 0 where
  nothing_logged : Uncommitted l e d → Recovers l e d
  all_logged : (c old : Disk) → Committed l c old d → e ≡ after l c old → Recovers l e d

-- Recovery of a disk that `Recovers`: with power for `log_size + 1` writes it returns, with the
-- log empty and every home block that of `e`; with less it may be cut short, and the disk it
-- leaves `Recovers` to the same blocks.
pub recover_lem :
    (l l0 : Log) (e d : Disk) (power : ℕ)
    → WellFormed l
    → Recovers l e d
    → Ends
        (λ l' m'. (l'.lh.n ≡ 0) × (m'.disk l.start 0 ≡ 0) × SameHomes l m'.disk e)
        (λ d'. Recovers l e d' × (power < log_size + 1))
        (initlog l.start l.size l0 (boot d power))
recover_lem l l0 e d power wf (nothing_logged u) =
    Ends.mono (recover-Uncommitted l wf e d l0 power u) (λ l' m' q. (q.0, q.1.empty, q.1.kept))
      (λ d' q. (nothing_logged q.0, omega (arith, q.1)))
recover_lem l l0 e d power wf (all_logged c old g same) =
    Ends.mono (recover-Committed l wf c old d l0 power g)
      (λ l' m' q. (q.0, q.1.empty, λ b o. rw same (q.1.kept b o)))
      (λ d' q. (all_logged c old q.0 same, omega (arith, q.1, wf.few)))

-- A commit of a well-formed log whose header on the disk is empty either returns, with the log
-- empty and each listed home block on the disk as the cache has it and every other as it was, or
-- the power fails; then the disk recovers to the old home blocks or to all the new ones. With
-- power for `2 * n + 2` writes it returns.
pub commit_atomic :
    (l : Log) (m : Machine)
    → WellFormed l
    → m.disk l.start 0 ≡ 0
    → Ends
        (λ l' m'.
          (l' ≡ clear l) × (m'.disk l.start 0 ≡ 0) × SameHomes l m'.disk (after l m.cache m.disk))
        (λ d.
          (Recovers l m.disk d ⊎ Recovers l (after l m.cache m.disk) d)
          × (m.power < 2 * l.lh.n + 2))
        (commit l m)
commit_atomic l m wf clean =
    Ends.mono (commit-Ends l wf m clean) (λ l' m' q. (q.0, q.1.empty, q.1.kept))
      (λ d q. (either d q.0, q.1))
  where
    either :
        (d : Disk)
        → Uncommitted l m.disk d ⊎ Committed l m.cache m.disk d
        → Recovers l m.disk d ⊎ Recovers l (after l m.cache m.disk) d
    either d (inl u) = inl (nothing_logged u)
    either d (inr g) = inr (all_logged m.cache m.disk g refl)
