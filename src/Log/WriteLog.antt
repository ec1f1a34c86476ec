-- ===== src/Log/WriteLog.antt =====
-- `write_log`: the first phase of a commit.
use risc_v_operating_system.Base.{
  ℕ, zero, suc, ◌+◌, ◌<◌, ◌≡◌, ◌∙◌, ◌≢◌, arith, ◌==◌, inl, inr, Bool-cases, update, update_self,
  update_ne,
}
use risc_v_operating_system.Log.Device.{Disk, Machine}
use risc_v_operating_system.Log.Ends
use risc_v_operating_system.Log.Ends.{Ends, ended, cut, bwrite-Ends}
use risc_v_operating_system.Log.Crash.{Outside, WellFormed, Uncommitted}
use risc_v_operating_system.Log.{Log, write_log_loop}

module _ (l : Log) (wf : WellFormed l) (c old : Disk) where
  open l.lh use {n, block}
  open l use {start}

  -- after `tail` rounds of `write_log`, of a run that began with power `p`
  pub record Logging (p tail : ℕ) (m : Machine) : Type 0 where
    pub on_disk : (i : ℕ) → i < tail → m.disk (start + i + 1) ≡ c (block i)
    pub in_cache : (i : ℕ) → i < tail → m.cache (start + i + 1) ≡ c (block i)
    pub old_homes : (b : ℕ) → Outside l b → m.disk b ≡ old b
    pub new_homes : (b : ℕ) → Outside l b → m.cache b ≡ c b
    pub empty : m.disk start 0 ≡ 0
    pub spent : m.power + tail ≡ p

  pub home_ne : (i : ℕ) (b : ℕ) → i < n → Outside l b → start + i + 1 ≢ b
  home_ne i b lt (inl o) = omega (arith, wf.fits)
  home_ne i b lt (inr o) = omega (arith, wf.fits)

  -- one more slot of the log
  slot :
      (f : Disk) (tail : ℕ) (x : ℕ → ℕ)
      → ((i : ℕ) → i < tail → f (start + i + 1) ≡ c (block i))
      → x ≡ c (block tail)
      → (i : ℕ) → i < tail + 1
      → update f (start + tail + 1) x (start + i + 1) ≡ c (block i)
  slot f tail x filled e i h = elim (Bool-cases (tail == i)) [
    | inl same ↦
        let q : tail ≡ i = ground arith in rw (← q) (update_self f (start + tail + 1) x ∙ e)
    | inr other ↦
        update_ne f (start + tail + 1) (start + i + 1) x (ground arith) ∙ filled i (ground arith)
  ]

  Logging-step :
      (p tail : ℕ) (m : Machine)
      → tail < n
      → Logging p tail m
      → 0 < m.power
      → let cache' = update m.cache (start + tail + 1) (m.cache (block tail)) in
        Logging p (tail + 1) (Ends.written (start + tail + 1) (record m { cache = cache' }))
  Logging-step p tail m lt g on = record {
    on_disk = slot m.disk tail _ g.on_disk (update_self m.cache (start + tail + 1) _ ∙ new);
    in_cache = slot m.cache tail _ g.in_cache new;
    old_homes =
        λ b o. update_ne m.disk (start + tail + 1) b _ (home_ne tail b lt o) ∙ g.old_homes b o;
    new_homes =
        λ b o. update_ne m.cache (start + tail + 1) b _ (home_ne tail b lt o) ∙ g.new_homes b o;
    empty = rw (update_ne m.disk (start + tail + 1) start _ (omega arith)) g.empty;
    spent = omega (arith, g.spent);
  }
    where
      new : m.cache (block tail) ≡ c (block tail)
      new = g.new_homes (block tail) (wf.homes tail lt)

  pub write_log_loop-Logging :
      (p rounds tail : ℕ) (m : Machine)
      → rounds + tail ≡ n
      → Logging p tail m
      → Ends
          (λ _ m'. Logging p n m')
          (λ d. Uncommitted l old d × (p < n))
          (write_log_loop l rounds tail m)
  unfolding write_log_loop
  write_log_loop-Logging p zero tail m e g = ended (let q : tail ≡ n = omega arith in rw (← q) g)
  write_log_loop-Logging p (suc rounds) tail m e g =
      Ends.bind {P = λ _ m'. Logging p (tail + 1) m'}
        (bwrite-Ends (start + tail + 1) _
          (λ off. (record { empty = g.empty; kept = g.old_homes }, omega (arith, g.spent)))
          (λ on. Logging-step p tail m (omega arith) g on))
        (λ _ m' g'. write_log_loop-Logging p rounds (tail + 1) m' (omega arith) g')
