-- ===== src/Log/Commit.antt =====
-- `commit`: the phases of a transaction, and the disk at a loss of power in each.
use risc_v_operating_system.Base.{
  ℕ, ◌+◌, ◌*◌, ◌≤◌, ◌<◌, ◌≡◌, refl, ◌∙◌, ◌≢◌, ◌⊎◌, false, arith, ltb, inl, inr, Bool-cases,
  update_self, update_ne,
}
use risc_v_operating_system.Log.Device.{Disk, Machine}
use risc_v_operating_system.Log.Header.{write_entries-HoldsHeader}
use risc_v_operating_system.Log.Ends
use risc_v_operating_system.Log.Ends.{Ends, ended, cut, bwrite-Ends}
use risc_v_operating_system.Log.WriteLog.{Logging, write_log_loop-Logging}
use risc_v_operating_system.Log.Install.{Installing, install_trans-clear}
use risc_v_operating_system.Log.Crash.{
  Outside, after, WellFormed, Uncommitted, Committed, mentions-empty,
}
use risc_v_operating_system.Log.{Log, clear, write_log, write_head, commit}

module _ (l : Log) (wf : WellFormed l) (c old : Disk) where
  open l.lh use {n, block}
  open l use {start}

  write_head-Installing :
      (p : ℕ) (m : Machine)
      → Logging l wf c old p n m
      → Ends
          (λ _ m'. Installing l wf c old m'.power 0 m' × (m'.power + (n + 1) ≡ p))
          (λ d. Uncommitted l old d × (p < n + 1))
          (write_head l m)
  unfolding write_head
  write_head-Installing p m g =
      bwrite-Ends start _
        (λ off. (record { empty = g.empty; kept = g.old_homes }, omega (arith, g.spent)))
        λ on. (
          record {
            committed = record {
              header =
                  rw (update_self m.disk start, update_self m.cache start)
                    (write_entries-HoldsHeader (m.cache start) n block);
              copies =
                  λ i h. update_ne m.disk start (start + i + 1) _ (omega arith) ∙ g.on_disk i h;
              kept = λ b o absent. update_ne m.disk start b _ (apart b o) ∙ g.old_homes b o;
            };
            in_cache =
                λ i h. update_ne m.cache start (start + i + 1) _ (omega arith) ∙ g.in_cache i h;
            installed = λ i h. elim h [ ];
            spent = omega arith;
          },
          omega (arith, g.spent),
        )
    where
      apart : (b : ℕ) → Outside l b → start ≢ b
      apart b (inl o) = omega arith
      apart b (inr o) = omega (arith, wf.fits)

module _ (l : Log) (wf : WellFormed l) (m : Machine) (clean : m.disk l.start 0 ≡ 0) where
  open l.lh use {n, block}

  fresh-Logging : Logging l wf m.cache m.disk m.power 0 m
  fresh-Logging = record {
    on_disk = λ i h. elim h [ ];
    in_cache = λ i h. elim h [ ];
    old_homes = λ b o. refl;
    new_homes = λ b o. refl;
    empty = clean;
    spent = omega arith;
  }

  -- the two sides of the commit point
  abbrev pub Either : Disk → Type 0
  Either d = (Uncommitted l m.disk d ⊎ Committed l m.cache m.disk d) × (m.power < 2 * n + 2)

  abbrev pub Finished : Log → Machine → Type 0
  Finished l' m' =
      (l' ≡ clear l)
      × Uncommitted l (after l m.cache m.disk) m'.disk
      × (m.power ≤ m'.power + (2 * n + 2))

  pub commit-Ends : Ends Finished Either (commit l m)
  unfolding commit write_log
  commit-Ends = elim (Bool-cases (ltb 0 n)) [
    | inl some_blocks ↦ rw some_blocks (
        Ends.bind
          (Ends.mono
            (write_log_loop-Logging l wf m.cache m.disk m.power n 0 m (omega arith) fresh-Logging)
            (λ _ m' g. g) (λ d q. (inl q.0, omega (arith, q.1))))
          λ _ m1 g1.
            Ends.bind
              (Ends.mono (write_head-Installing l wf m.cache m.disk m.power m1 g1) (λ _ m' g. g)
                (λ d q. (inl q.0, omega (arith, q.1))))
              λ _ m2 g2.
                Ends.mono (install_trans-clear l wf m.cache m.disk false m2.power m2 g2.0)
                  (λ l' m' q. (q.0, q.1, omega (arith, q.2, g2.1)))
                  (λ d q. (inr q.0, omega (arith, q.1, g2.1))))
    | inr nothing ↦ rw nothing (
        ended (
          ground arith,
          record { empty = clean; kept = λ b o. rw (mentions-empty block n b nothing) },
          omega arith,
        ))
  ]
