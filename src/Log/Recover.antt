-- ===== src/Log/Recover.antt =====
-- `initlog` after a loss of power: what recovery makes of the disk, and a loss of power within it.
use risc_v_operating_system.Base.{ℕ, ◌+◌, ◌<◌, ◌≡◌, refl, sym, ap, ◌∙◌, true, arith, if◌then◌else◌}
use risc_v_operating_system.Log.Device.{Disk, Machine}
use risc_v_operating_system.Log.Header.{read_entries-lt}
use risc_v_operating_system.Log.Ends
use risc_v_operating_system.Log.Ends.{Ends, ended, cut, bwrite-Ends}
use risc_v_operating_system.Log.Install.{install_trans-clear}
use risc_v_operating_system.Log.Crash.{
  mentions, after, WellFormed, Uncommitted, Committed, mentions-congr,
}
use risc_v_operating_system.Log.{
  Log, LogHeader, clear, read_entries, read_head, recover_from_log, initlog,
}

-- The machine when it starts again: every buffer holds what is on the disk.
abbrev pub boot : Disk → ℕ → Machine
boot d power = record { disk = d; cache = d; refcnt = λ _. 0; power = power }

-- `l` with the fields that `initlog` leaves alone, and the header that it reads.
abbrev loaded : Log → (initial : Log) → LogHeader → Log
loaded l initial h = record initial { start = l.start; size = l.size; lh = h }

-- A header read from the disk lists the same blocks.
module _ (l initial : Log) (h : LogHeader) (same_n : h.n ≡ l.lh.n)
    (same : (i : ℕ) → i < l.lh.n → h.block i ≡ l.lh.block i) where
  mentions-same : (b : ℕ) → mentions h.block h.n b ≡ mentions l.lh.block l.lh.n b
  mentions-same b = rw same_n (mentions-congr h.block l.lh.block l.lh.n b same)

  loaded-WellFormed : WellFormed l → WellFormed (loaded l initial h)
  loaded-WellFormed wf = record {
    few = rw same_n wf.few;
    fits = rw same_n wf.fits;
    homes = λ i lt. let lt' : i < l.lh.n = omega arith in rw (same i lt') (wf.homes i lt');
  }

  loaded-Committed : {c old d : Disk} → Committed l c old d → Committed (loaded l initial h) c old d
  loaded-Committed g = record {
    header = record {
      count = g.header.count ∙ sym same_n;
      entries =
          λ i lt. let lt' : i < l.lh.n = omega arith in g.header.entries i lt' ∙ sym (same i lt');
    };
    copies = λ i lt. let lt' : i < l.lh.n = omega arith in rw (same i lt') (g.copies i lt');
    kept = λ b o absent. g.kept b o (sym (mentions-same b) ∙ absent);
  }

  unloaded-Committed :
      {c old d : Disk} → Committed (loaded l initial h) c old d → Committed l c old d
  unloaded-Committed g = record {
    header = record {
      count = g.header.count ∙ same_n;
      entries = λ i lt. let lt' : i < h.n = omega arith in g.header.entries i lt' ∙ same i lt;
    };
    copies = λ i lt. let lt' : i < h.n = omega arith in rw (sym (same i lt)) (g.copies i lt');
    kept = λ b o absent. g.kept b o (mentions-same b ∙ absent);
  }

  unloaded-Uncommitted :
      (c old : Disk) {d : Disk}
      → Uncommitted (loaded l initial h) (after (loaded l initial h) c old) d
      → Uncommitted l (after l c old) d
  unloaded-Uncommitted c old g = record {
    empty = g.empty;
    kept = λ b o. g.kept b o ∙ ap (λ t. if t then c b else old b) (mentions-same b);
  }

module _ (l : Log) (wf : WellFormed l) (c old d : Disk) (l0 : Log) (p : ℕ)
    (g : Committed l c old d) where
  open l.lh use {n, block}

  abbrev h : LogHeader
  h = record { n = d l.start 0; block = read_entries (d l.start) (d l.start 0) 0 l0.lh.block }

  same : (i : ℕ) → i < n → h.block i ≡ block i
  same i lt =
      read_entries-lt (d l.start) (d l.start 0) l0.lh.block i (omega (arith, g.header.count))
      ∙ g.header.entries i lt

  loaded_lem : Committed (loaded l l0 h) c old d
  loaded_lem = loaded-Committed l l0 h g.header.count same g

  -- After the commit point recovery installs the transaction; cut short, it can start again.
  pub recover-Committed :
      Ends
        (λ l' m'. (l'.lh.n ≡ 0) × Uncommitted l (after l c old) m'.disk)
        (λ d'. Committed l c old d' × (p < n + 1))
        (initlog l.start l.size l0 (boot d p))
  unfolding initlog recover_from_log read_head
  recover-Committed =
      Ends.mono
        (install_trans-clear (loaded l l0 h) (loaded-WellFormed l l0 h g.header.count same wf) c old
          true p (boot d p)
          (record {
            committed = loaded_lem;
            in_cache = loaded_lem.copies;
            installed = λ i lt. elim lt [ ];
            spent = omega arith;
          }))
        (λ l' m' q.
          (ap (λ (x : Log). x.lh.n) q.0, unloaded-Uncommitted l l0 h g.header.count same c old q.1))
        (λ d' q.
          (unloaded-Committed l l0 h g.header.count same q.0, omega (arith, q.1, g.header.count)))

clear-WellFormed : (l : Log) → WellFormed l → WellFormed (clear l)
clear-WellFormed l wf = record {
  few = omega arith;
  fits = omega (arith, wf.fits);
  homes = λ i lt. elim lt [ ];
}

-- Before the commit point recovery leaves every home block as it was.
pub recover-Uncommitted :
    (l : Log)
    → WellFormed l
    → (old d : Disk) (l0 : Log) (p : ℕ) → Uncommitted l old d
    → Ends
        (λ l' m'. (l'.lh.n ≡ 0) × Uncommitted l old m'.disk)
        (λ d'. Uncommitted l old d' × (p < 1))
        (initlog l.start l.size l0 (boot d p))
unfolding mentions
recover-Uncommitted l wf old d l0 p g =
    Ends.mono
      (recover-Committed (clear l) (clear-WellFormed l wf) old old d l0 p (record {
        header = record { count = g.empty; entries = λ i lt. elim lt [ ] };
        copies = λ i lt. elim lt [ ];
        kept = λ b o absent. g.kept b o;
      }))
      (λ l' m' q. (q.0, record { empty = q.1.empty; kept = q.1.kept }))
      (λ d' q. (record { empty = q.0.header.count; kept = λ b o. q.0.kept b o refl }, q.1))
