-- ===== src/Log/Install.antt =====
-- `install_trans`: the home blocks get the contents of the log, in a commit and in a recovery.
use risc_v_operating_system.Base.{
  ℕ, zero, suc, ◌+◌, ◌<◌, ◌≡◌, refl, sym, ap, ◌∙◌, ◌≢◌, Bool, true, false, arith, ◌==◌, inl, inr,
  Bool-cases, update, update_self, update_ne,
}
use risc_v_operating_system.Log.Device.{Disk, Machine, pure, ◌>>◌}
use risc_v_operating_system.Log.WriteLog.{home_ne}
use risc_v_operating_system.Log.Ends
use risc_v_operating_system.Log.Ends.{Ends, ended, cut, bwrite-Ends}
use risc_v_operating_system.Log.Crash.{
  Outside, mentions, after, WellFormed, Uncommitted, Committed, mentions-index, mentions-lt,
}
use risc_v_operating_system.Log.{Log, write_entries, clear, write_head, install_loop, install_trans}

module _ (l : Log) (wf : WellFormed l) (c old : Disk) where
  open l.lh use {n, block}
  open l use {start}

  -- The log and the header are on the disk, and the first `tail` entries are installed.
  pub record Installing (p tail : ℕ) (m : Machine) : Type 0 where
    pub committed : Committed l c old m.disk
    pub in_cache : (i : ℕ) → i < n → m.cache (start + i + 1) ≡ c (block i)
    pub installed : (i : ℕ) → i < tail → m.disk (block i) ≡ c (block i)
    pub spent : m.power + tail ≡ p

  start_ne : (b : ℕ) → Outside l b → b ≢ start
  start_ne b (inl o) = omega arith
  start_ne b (inr o) = omega (arith, wf.fits)

  copy-Committed :
      (d : Disk) (tail : ℕ) (x : ℕ → ℕ)
      → tail < n
      → Committed l c old d
      → Committed l c old (update d (block tail) x)
  copy-Committed d tail x lt g = record {
    header = rw (update_ne d (block tail) start x (start_ne (block tail) home)) g.header;
    copies = λ i h.
        update_ne d (block tail) (start + i + 1) x
          (λ e. home_ne l wf c old i (block tail) h home (sym e))
        ∙ g.copies i h;
    kept = λ b o absent.
        update_ne d (block tail) b x
          (λ e. ground (arith, mentions-lt block n tail lt, ap (mentions block n) e))
        ∙ g.kept b o absent;
  }
    where
      home : Outside l (block tail)
      home = wf.homes tail lt

  Installing-step :
      (p tail : ℕ) (m : Machine) (refcnt : ℕ → ℕ)
      → tail < n
      → Installing p tail m
      → 0 < m.power
      → let cache' = update m.cache (block tail) (m.cache (start + tail + 1)) in
        Installing p
          (tail + 1)
          (record (Ends.written (block tail) (record m { cache = cache' })) { refcnt = refcnt })
  Installing-step p tail m refcnt lt g on = record {
    committed = copy-Committed m.disk tail _ lt g.committed;
    in_cache = λ i h.
        update_ne m.cache (block tail) (start + i + 1) _
          (λ e. home_ne l wf c old i (block tail) h (wf.homes tail lt) (sym e))
        ∙ g.in_cache i h;
    installed = λ i h. elim (Bool-cases (block tail == block i)) [
      | inl same ↦
          let q : block tail ≡ block i = ground arith in
          rw (← q) (
            update_self m.disk (block tail) _
            ∙ update_self m.cache (block tail) _
            ∙ g.in_cache tail lt)
      | inr other ↦
          update_ne m.disk (block tail) (block i) _ (ground arith) ∙ g.installed i (ground arith)
    ];
    spent = omega (arith, g.spent);
  }

  pub install_loop-Installing :
      (recovering : Bool) (p rounds tail : ℕ) (m : Machine)
      → rounds + tail ≡ n
      → Installing p tail m
      → Ends
          (λ _ m'. Installing p n m')
          (λ d. Committed l c old d × (p < n))
          (install_loop l recovering rounds tail m)
  unfolding install_loop
  install_loop-Installing recovering p zero tail m e g =
      ended (let q : tail ≡ n = omega arith in rw (← q) g)
  install_loop-Installing true p (suc rounds) tail m e g =
      Ends.bind {P = λ _ m'. Installing p (tail + 1) m'}
        (bwrite-Ends (block tail) _ (λ off. (g.committed, omega (arith, g.spent)))
          (λ on. Installing-step p tail m m.refcnt (omega arith) g on))
        (λ _ m' g'. install_loop-Installing true p rounds (tail + 1) m' (omega arith) g')
  install_loop-Installing false p (suc rounds) tail m e g =
      Ends.bind
        {P = λ _ m'. (refcnt : ℕ → ℕ) → Installing p (tail + 1) (record m' { refcnt = refcnt })}
        (bwrite-Ends (block tail) _ (λ off. (g.committed, omega (arith, g.spent)))
          (λ on refcnt. Installing-step p tail m refcnt (omega arith) g on))
        (λ _ m' g'. install_loop-Installing false p rounds (tail + 1) _ (omega arith) (g' _))

  -- every home block, once all entries are installed
  installed-after :
      (p : ℕ) (m : Machine) → Installing p n m → (b : ℕ) → Outside l b → m.disk b ≡ after l c old b
  installed-after p m g b o = elim (Bool-cases (mentions block n b)) [
    | inl listed ↦
        let (i, lt, e) = mentions-index block n b listed in rw (listed, ← e) (g.installed i lt)
    | inr absent ↦ rw absent (g.committed.kept b o absent)
  ]

  clear-Uncommitted :
      (p : ℕ) (m : Machine)
      → Installing p n m
      → Ends
          (λ _ m'. Uncommitted l (after l c old) m'.disk × (m'.power + (n + 1) ≡ p))
          (λ d. Committed l c old d × (p < n + 1))
          (write_head (clear l) m)
  unfolding write_head write_entries
  clear-Uncommitted p m g =
      bwrite-Ends start _ (λ off. (g.committed, omega (arith, g.spent)))
        λ on. (
          record {
            empty =
                rw (update_self m.disk start, update_self m.cache start)
                  (update_self (m.cache start) 0 0);
            kept = λ b o.
                update_ne m.disk start b _ (λ e. start_ne b o (sym e)) ∙ installed-after p m g b o;
          },
          omega (arith, g.spent),
        )

  -- The last two phases of a commit, and of a recovery.
  pub install_trans-clear :
      (recovering : Bool) (p : ℕ) (m : Machine)
      → Installing p 0 m
      → Ends
          (λ (l' : Log) m'.
            (l' ≡ clear l) × Uncommitted l (after l c old) m'.disk × (m'.power + (n + 1) ≡ p))
          (λ d. Committed l c old d × (p < n + 1))
          ((install_trans l recovering >> (write_head (clear l) >> pure (clear l))) m)
  unfolding install_trans
  install_trans-clear recovering p m g =
      Ends.bind
        (Ends.mono (install_loop-Installing recovering p n 0 m (omega arith) g) (λ _ m' g'. g')
          (λ d q. (q.0, omega (arith, q.1))))
        (λ _ m' g'. Ends.bind (clear-Uncommitted p m' g') (λ _ m' q. ended (refl, q.0, q.1)))
