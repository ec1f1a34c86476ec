-- ===== src/Inode/Trunc.antt =====
-- `itrunc`: all blocks of a file are given back, and no others.
use risc_v_operating_system.Base.{
  ℕ, ◌+◌, ◌-◌, ◌*◌, ◌≤◌, ◌<◌, ◌≡◌, refl, sym, ap, ◌∙◌, ◌≢◌, inl, inr, true, false, arith, ltb, leb,
  ◌==◌, if◌then◌else◌, Bool-cases, update, update_lem, ok, ◌>>=◌, Safely, safely, Safely-bind,
}
use risc_v_operating_system.Fs.{Superblock, Store, bblock, bfree}
use risc_v_operating_system.Fs.Words.{word}
use risc_v_operating_system.Fs.Alloc.{used}
use risc_v_operating_system.Fs.Free.{Freed, bfree-Freed}
use risc_v_operating_system.Inode.{
  Inode, ndirect, nindirect, iblock, iupdate, free_indirect, itrunc, write_dinode, dip,
}
use risc_v_operating_system.Inode.Slots.{slots, slot, IsFile}
use risc_v_operating_system.Inode.Bmap.{indirect-entry, used-keep, slot-list}
use risc_v_operating_system.Inode.Freeing.{
  among, among-false, among-true, RowFreed, IsRow, RowFreed-zero, free_indirect-RowFreed,
  DirectFreed, free_direct-DirectFreed,
}
use risc_v_operating_system.Inode.Rows.{listed, slot-direct, direct-IsRow, listed-IsRow}

module _ (sb : Superblock) where
  -- before the last `iupdate`
  record Cleared (ip : Inode) (s : Store) (q : Inode × Store) : Type 0 where
    zero_addrs : (k : ℕ) → k ≤ ndirect → q.0.addrs k ≡ 0
    only : q.0 ≡ record ip { addrs = q.0.addrs }
    freed : (k : ℕ) → k < slots → slot ip s k ≢ 0 → used sb q.1 (slot ip s k) ≡ false
    kept :
        (c : ℕ)
        → ((k : ℕ) → k < slots → slot ip s k ≢ 0 → slot ip s k ≢ c)
        → used sb q.1 c ≡ used sb s c

  no_slot :
      (ip : Inode) (s : Store) (c : ℕ)
      → c ≢ 0
      → ((k : ℕ) → k < slots → slot ip s k ≢ 0 → slot ip s k ≢ c)
      → (k : ℕ) → k < slots
      → slot ip s k ≢ c
  no_slot ip s c nz h k lt e = h k lt (λ z. nz (sym e ∙ z)) e

  none_of_direct :
      (ip : Inode) (s : Store) (c : ℕ)
      → ((k : ℕ) → k < slots → slot ip s k ≢ c)
      → among ip.addrs ndirect c ≡ false
  none_of_direct ip s c h =
      among-false ip.addrs ndirect c
        (λ j lt. rw (slot-direct sb ip s j (omega arith)) at (h j (omega arith)))

  -- a file without a list
  slot-no_list :
      (ip : Inode) (s : Store) (k : ℕ) → ip.addrs ndirect ≡ 0 → ndirect ≤ k → slot ip s k ≡ 0
  unfolding slot
  slot-no_list ip s k z le = ground arith

  direct-Cleared :
      (ip : Inode) (s : Store) (r : Inode × Store)
      → ip.addrs ndirect ≡ 0
      → DirectFreed sb ndirect ip s r
      → Cleared ip s r
  direct-Cleared ip s r z d = record {
    zero_addrs = λ k le. ground (arith, d.addrs k);
    only = d.only;
    freed = λ k lt nz. elim (Bool-cases (ltb k ndirect)) [
      | inl low ↦
          let here = slot-direct sb ip s k (ground arith) in
          let mine = among-true ip.addrs ndirect (slot ip s k) k (ground arith) (sym here) in
          ground (arith, d.row.map (slot ip s k) nz, mine)
      | inr high ↦ absurd (nz (slot-no_list ip s k z (ground arith)))
    ];
    kept = λ c h. elim (Bool-cases (c == 0)) [
      | inl zero_c ↦ let same : c ≡ 0 = ground arith in rw same d.row.boot
      | inr other ↦
          let nz : c ≢ 0 = ground arith in
          ground (arith, d.row.map c nz, none_of_direct ip s c (no_slot ip s c nz h))
    ];
  }

  listed-Cleared :
      (ip : Inode) (s : Store) (r : Inode × Store) (s1 s2 : Store)
      → IsFile sb ip s
      → ip.addrs ndirect ≢ 0
      → DirectFreed sb ndirect ip s r
      → RowFreed sb (listed sb ip s) nindirect r.1 s1
      → Freed sb (ip.addrs ndirect) s1 s2
      → Cleared ip s (record r.0 { addrs = update r.0.addrs ndirect 0 }, s2)
  listed-Cleared ip s r s1 s2 f some_list d row last = record {
    zero_addrs = λ k le. ground (arith, update_lem r.0.addrs ndirect k 0, d.addrs k);
    only = ap (λ (jp : Inode). record jp { addrs = update r.0.addrs ndirect 0 }) d.only;
    freed = λ k lt nz. elim (Bool-cases (ltb k ndirect)) [
      | inl low ↦
          let here = slot-direct sb ip s k (ground arith) in
          let mine = among-true ip.addrs ndirect (slot ip s k) k (ground arith) (sym here) in
          ground (
            arith,
            d.row.map (slot ip s k) nz,
            row.map (slot ip s k) nz,
            last.map (slot ip s k),
            mine,
          )
      | inr high ↦ elim (Bool-cases (k == ndirect)) [
        | inl e ↦
            let same : k ≡ ndirect = ground arith in
            let here : slot ip s k ≡ ip.addrs ndirect = rw same (slot-list sb ip s) in
            ground (arith, last.map (slot ip s k), here)
        | inr ne ↦
            let place : k ≡ k - 13 + 13 = ground arith in
            let here : slot ip s k ≡ listed sb ip s (k - 13) =
              ap (slot ip s) place ∙ indirect-entry sb (k - 13) ip s some_list in
            let mine =
              among-true (listed sb ip s) nindirect (slot ip s k) (k - 13) (ground arith)
                (sym here) in
            ground (arith, row.map (slot ip s k) nz, last.map (slot ip s k), mine)
      ]
    ];
    kept = λ c used_for. elim (Bool-cases (c == 0)) [
      | inl zero_c ↦
          let same : c ≡ 0 = ground arith in
          rw same (ground (arith, last.map 0, row.boot, d.row.boot))
      | inr other ↦
          let nz : c ≢ 0 = ground arith in
          let h = no_slot ip s c nz used_for in
          let no_list : ip.addrs ndirect ≢ c = rw (slot-list sb ip s) at (h 12 (omega arith)) in
          let not_listed =
            among-false (listed sb ip s) nindirect c
              (λ j lt. rw (indirect-entry sb j ip s some_list) at (h (j + 13) (omega arith))) in
          ground (
            arith,
            d.row.map c nz,
            row.map c nz,
            last.map c,
            none_of_direct ip s c h,
            no_list,
            not_listed,
          )
    ];
  }

  -- what `itrunc` promises
  pub record Emptied (ip : Inode) (s : Store) (q : Inode × Store) : Type 0 where
    pub empty : (k : ℕ) → k < slots → slot q.0 q.1 k ≡ 0
    pub only : q.0 ≡ record ip { addrs = q.0.addrs; size = 0 }
    pub freed : (k : ℕ) → k < slots → slot ip s k ≢ 0 → used sb q.1 (slot ip s k) ≡ false
    pub kept :
        (c : ℕ)
        → c < sb.size
        → ((k : ℕ) → k < slots → slot ip s k ≢ 0 → slot ip s k ≢ c)
        → used sb q.1 c ≡ used sb s c

  -- the last step
  empty-Emptied :
      (ip ip' : Inode) (s s' : Store)
      → IsFile sb ip s
      → ((c : ℕ) → c < sb.size → iblock sb ip.inum ≢ bblock sb c)
      → Cleared ip s (ip', s')
      → Emptied ip s (record ip' { size = 0 }, iupdate sb (record ip' { size = 0 }) s')
  unfolding iupdate
  empty-Emptied ip ip' s s' f apart q =
      let ip'' = record ip' { size = 0 } in
      let bytes = write_dinode (dip ip'.inum) ip'' (s'.blocks (iblock sb ip'.inum)) in
      let same : (c : ℕ) → c < sb.size → used sb (iupdate sb ip'' s') c ≡ used sb s' c = λ c lt.
        used-keep sb (iblock sb ip'.inum) bytes s' c
          (λ e. apart c lt (ap (λ (jp : Inode). iblock sb jp.inum) (sym q.only) ∙ e)) in
      record {
        empty = λ k lt. elim (Bool-cases (leb k ndirect)) [
          | inl low ↦ slot-direct sb ip'' _ k (ground arith) ∙ q.zero_addrs k (ground arith)
          | inr high ↦ slot-no_list ip'' _ k (q.zero_addrs ndirect (omega arith)) (ground arith)
        ];
        only = ap (λ (jp : Inode). record jp { size = 0 }) q.only;
        freed = λ k lt nz. same (slot ip s k) (f.inside k lt) ∙ q.freed k lt nz;
        kept = λ c lt h. same c lt ∙ q.kept c h;
      }

  -- The list is still in use when its entries are gone.
  list-in_use :
      (ip : Inode) (s : Store) (r : Inode × Store) (s1 : Store)
      → IsFile sb ip s
      → ip.addrs ndirect ≢ 0
      → DirectFreed sb ndirect ip s r
      → RowFreed sb (listed sb ip s) nindirect r.1 s1
      → used sb s1 (ip.addrs ndirect) ≡ true
  unfolding slot
  list-in_use ip s r s1 f nz d row =
      let here = slot-list sb ip s in
      let busy : used sb s (ip.addrs ndirect) ≡ true = f.in_use 12 (omega arith) nz' in
      let not_direct = among-false ip.addrs ndirect (ip.addrs ndirect) (λ j lt e.
        let same : slot ip s j ≡ slot ip s 12 =
          slot-direct sb ip s j (omega arith) ∙ e ∙ sym here in
        absurd (
          omega
            (arith, f.distinct j 12 (omega arith) (omega arith) (λ z. nz' (sym same ∙ z)) same))) in
      let not_listed = among-false (listed sb ip s) nindirect (ip.addrs ndirect) (λ j lt e.
        let same : slot ip s (j + 13) ≡ slot ip s 12 = indirect-entry sb j ip s nz ∙ e ∙ sym here in
        absurd (
          omega (
            arith,
            f.distinct (j + 13) 12 (omega arith) (omega arith) (λ z. nz' (sym same ∙ z)) same,
          ))) in
      ground (
        arith,
        row.map (ip.addrs ndirect) nz,
        d.row.map (ip.addrs ndirect) nz,
        busy,
        not_direct,
        not_listed,
      )
    where
      nz' : slot ip s 12 ≢ 0
      nz' = rw (slot-list sb ip s) nz

  list-Cleared :
      (ip : Inode) (s : Store) (r : Inode × Store)
      → IsFile sb ip s
      → DirectFreed sb ndirect ip s r
      → Safely (Cleared ip s) (
          if r.0.addrs ndirect == 0
          then ok r
          else (free_indirect sb nindirect 0 (r.0.addrs ndirect) r.1 >>= λ s1.
              bfree sb (r.0.addrs ndirect) s1 >>= λ s2.
              ok (record r.0 { addrs = update r.0.addrs ndirect 0 }, s2)))
  list-Cleared ip s r f d =
      let list : r.0.addrs ndirect ≡ ip.addrs ndirect = ground (arith, d.addrs ndirect) in
      elim (Bool-cases (ip.addrs ndirect == 0)) [
        | inl z ↦ rw (list, z) (safely (direct-Cleared ip s r (ground arith) d))
        | inr n ↦
            let nz : ip.addrs ndirect ≢ 0 = ground arith in
            let apart = λ (c : ℕ) (lt : c < sb.size) (e : ip.addrs ndirect ≡ bblock sb c).
              f.apart 12 c (omega arith) (rw (slot-list sb ip s) nz) lt (slot-list sb ip s ∙ e) in
            let same : r.1.blocks (ip.addrs ndirect) ≡ s.blocks (ip.addrs ndirect) =
              d.row.others (ip.addrs ndirect) apart in
            let row : IsRow sb (λ k. word (r.1.blocks (ip.addrs ndirect)) (4 * k)) nindirect r.1 =
              rw same (listed-IsRow sb ip s r.1 f nz d.row) in
            rw (list, n)
              (Safely-bind
                (free_indirect-RowFreed sb nindirect 0 (ip.addrs ndirect) r.1 r.1 apart refl row
                  (RowFreed-zero sb _ r.1))
                (λ s1 q.
                  let q' : RowFreed sb (listed sb ip s) nindirect r.1 s1 = rw same at q in
                  Safely-bind
                    (bfree-Freed sb (ip.addrs ndirect) s1 (list-in_use ip s r s1 f nz d q'))
                    (λ s2 last. safely (listed-Cleared ip s r s1 s2 f nz d q' last))))
      ]

  -- For a file in order, and an inode outside the free map, `itrunc` does not panic. The file has no
  -- block and the size 0 then, its other fields are as before, all its blocks are free, and no
  -- other block's use changes, that of the boot block 0 included.
  pub itrunc-Emptied :
      (ip : Inode) (s : Store)
      → IsFile sb ip s
      → ((c : ℕ) → c < sb.size → iblock sb ip.inum ≢ bblock sb c)
      → Safely (Emptied ip s) (itrunc sb ip s)
  unfolding itrunc
  itrunc-Emptied ip s f apart =
      Safely-bind
        (free_direct-DirectFreed sb ndirect 0 ip ip s s refl (direct-IsRow sb ip s f)
          (record { addrs = λ k. ground arith; only = refl; row = RowFreed-zero sb ip.addrs s }))
        (λ r d.
          Safely-bind (list-Cleared ip s r f d)
            (λ q c. safely (empty-Emptied ip q.0 s q.1 f apart c)))
