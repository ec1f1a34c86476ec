-- ===== src/Inode/Rows.antt =====
-- The blocks of a file as two rows: the direct ones, and those in the list.
use risc_v_operating_system.Base.{ℕ, ◌+◌, ◌*◌, ◌≤◌, ◌≡◌, sym, ◌∙◌, ◌≢◌, true, false, arith}
use risc_v_operating_system.Fs.{Superblock, Store}
use risc_v_operating_system.Fs.Words.{word}
use risc_v_operating_system.Fs.Alloc.{used}
use risc_v_operating_system.Inode.{Inode, ndirect, nindirect}
use risc_v_operating_system.Inode.Slots.{slot, IsFile}
use risc_v_operating_system.Inode.Bmap.{indirect-entry}
use risc_v_operating_system.Inode.Freeing.{among, among-false, RowFreed, IsRow}

module _ (sb : Superblock) where
  -- the other blocks of a file
  abbrev pub listed : Inode → Store → ℕ → ℕ
  listed ip s k = word (s.blocks (ip.addrs ndirect)) (4 * k)

  pub slot-direct : (ip : Inode) (s : Store) (k : ℕ) → k ≤ ndirect → slot ip s k ≡ ip.addrs k
  unfolding slot
  slot-direct ip s k le = ground arith

  pub direct-IsRow : (ip : Inode) (s : Store) → IsFile sb ip s → IsRow sb ip.addrs ndirect s
  direct-IsRow ip s f = record {
    inside = λ k lt. rw (slot-direct ip s k (omega arith)) at (f.inside k (omega arith));
    in_use = λ k lt. rw (slot-direct ip s k (omega arith)) at (f.in_use k (omega arith));
    distinct = λ j k lt k_lt nz e.
        let d = f.distinct j k (omega arith) (omega arith) in
        let d' : (ip.addrs j ≢ 0) → ip.addrs j ≡ ip.addrs k → j ≡ k =
          rw (slot-direct ip s j (omega arith), slot-direct ip s k (omega arith)) at d in
        absurd (omega (arith, d' (λ z. nz (sym e ∙ z)) e));
  }

  -- The list's blocks, after the direct ones are gone.
  pub listed-IsRow :
      (ip : Inode) (s s1 : Store)
      → IsFile sb ip s
      → ip.addrs ndirect ≢ 0
      → RowFreed sb ip.addrs ndirect s s1
      → IsRow sb (listed ip s) nindirect s1
  listed-IsRow ip s s1 f nz r =
      let entry = λ (k : ℕ). indirect-entry sb k ip s nz in
      record {
        inside = λ k lt. rw (entry k) at (f.inside (k + 13) (omega arith));
        in_use = λ k lt k_nz.
            let busy : used sb s (listed ip s k) ≡ true =
              (rw (entry k) at (f.in_use (k + 13) (omega arith))) k_nz in
            let new : among ip.addrs ndirect (listed ip s k) ≡ false =
              among-false ip.addrs ndirect (listed ip s k) (λ j j_lt e.
                let d = f.distinct j (k + 13) (omega arith) (omega arith) in
                let d' : (ip.addrs j ≢ 0) → ip.addrs j ≡ listed ip s k → j ≡ k + 13 =
                  rw (slot-direct ip s j (omega arith), entry k) at d in
                absurd (omega (arith, d' (λ z. k_nz (sym e ∙ z)) e))) in
            ground (arith, r.map (listed ip s k) k_nz, busy, new);
        distinct = λ j k lt k_lt k_nz e.
            let d = f.distinct (j + 13) (k + 13) (omega arith) (omega arith) in
            let d' : (listed ip s j ≢ 0) → listed ip s j ≡ listed ip s k → j + 13 ≡ k + 13 =
              rw (entry j, entry k) at d in
            absurd (omega (arith, d' (λ z. k_nz (sym e ∙ z)) e));
      }
