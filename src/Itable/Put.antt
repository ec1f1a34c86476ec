-- ===== src/Itable/Put.antt =====
-- `iput`: a reference is given back, and with the last one a file without links.
use risc_v_operating_system.Base.{
  ℕ, ◌+◌, ◌-◌, ◌^◌, ◌<◌, ◌≡◌, refl, sym, ap, ◌∙◌, ◌≢◌, inl, inr, Bool, false, ◌&&◌, List, arith,
  ◌==◌, if◌then◌else◌, Bool-cases, occurrences, remove, occurrences-remove, update_self, update_ne,
  Safely, safely, Safely-bind,
}
use risc_v_operating_system.Base.Word.{u32}
use risc_v_operating_system.Fs.{Superblock, Store, bblock, keep}
use risc_v_operating_system.Fs.Alloc.{used}
use risc_v_operating_system.Inode.{Inode, iblock, dip, read_dinode, write_dinode, iupdate}
use risc_v_operating_system.Inode.Disk.{on_disk, write_dinode-file_type}
use risc_v_operating_system.Inode.Bmap.{used-keep}
use risc_v_operating_system.Inode.Slots.{slots, slot, IsFile}
use risc_v_operating_system.Inode.Trunc.{itrunc-Emptied}
use risc_v_operating_system.Itable.{Itable, set_inode, free_inode, iput}
use risc_v_operating_system.Itable.Counts.{IsOrdered, recount-IsOrdered}

-- the count after `ref--`
abbrev fewer : Inode → Inode
fewer ip = record ip { ref = u32 (ip.ref + (2 ^ 32 - 1)) }

-- A reference is given back, whatever became of the inode's contents before.
drop-IsOrdered :
    (t t1 : Itable) (refs : List ℕ) (i : ℕ)
    → IsOrdered t refs
    → 0 < occurrences i refs
    → (t1.inodes i).ref ≡ (t.inodes i).ref
    → (t1.inodes i).dev ≡ (t.inodes i).dev
    → (t1.inodes i).inum ≡ (t.inodes i).inum
    → ((j : ℕ) → i ≢ j → t1.inodes j ≡ t.inodes j)
    → IsOrdered (set_inode i (fewer (t1.inodes i)) t1) (remove i refs)
drop-IsOrdered t t1 refs i o h ref dev inum same =
    let exact = o.counts.exact i in
    let few = o.counts.few i in
    let here = update_self t1.inodes i (fewer (t1.inodes i)) in
    let left = occurrences-remove i i refs h in
    let next : u32 ((t1.inodes i).ref + (2 ^ 32 - 1)) ≡ occurrences i (remove i refs) =
      ground (arith, exact, few, left, ref) in
    recount-IsOrdered t (set_inode i (fewer (t1.inodes i)) t1) refs (remove i refs) i o
      (ground (arith, o.counts.inside i)) (ground (arith, exact))
      (ap (λ (ip : Inode). ip.dev) here ∙ dev) (ap (λ (ip : Inode). ip.inum) here ∙ inum)
      (ap (λ (ip : Inode). ip.ref) here ∙ next) (ground (arith, left, few))
      (λ j ne. update_ne t1.inodes i j (fewer (t1.inodes i)) ne ∙ same j ne)
      (λ j ne. ground (arith, occurrences-remove j i refs h))

-- the last reference to a valid inode without links
abbrev pub is_lost : Itable → ℕ → Bool
is_lost t i = (t.inodes i).ref == 1 && ((t.inodes i).valid && (t.inodes i).nlink == 0)

module _ (sb : Superblock) where
  -- The file of inode `i` is gone from the disk: its blocks are free, and its type there is zero.
  pub record Gone (t : Itable) (s : Store) (i : ℕ) (s' : Store) : Type 0 where
    pub freed :
        (k : ℕ) → k < slots → slot (t.inodes i) s k ≢ 0 → used sb s' (slot (t.inodes i) s k) ≡ false
    pub kept :
        (c : ℕ)
        → c < sb.size
        → ((k : ℕ) → k < slots → slot (t.inodes i) s k ≢ 0 → slot (t.inodes i) s k ≢ c)
        → used sb s' c ≡ used sb s c
    pub no_type : (any : Inode) → (on_disk sb s' (t.inodes i).inum any).file_type ≡ 0

  -- what `iput` promises of the store
  abbrev pub IsPut : Itable → Store → ℕ → Store → Type 0
  IsPut t s i s' = if is_lost t i then Gone t s i s' else s' ≡ s

  -- The inode with its type cleared is put on the disk.
  zero_type :
      (ip any : Inode) (s : Store)
      → ip.file_type ≡ 0
      → (on_disk sb (iupdate sb ip s) ip.inum any).file_type ≡ 0
  unfolding iupdate keep read_dinode
  zero_type ip any s z =
      let b = iblock sb ip.inum in
      rw (update_self s.blocks b (write_dinode (dip ip.inum) ip (s.blocks b)))
        (write_dinode-file_type (dip ip.inum) ip (s.blocks b) (ground arith) ∙ z)

  same_used :
      (ip : Inode) (s : Store) (c : ℕ)
      → iblock sb ip.inum ≢ bblock sb c
      → used sb (iupdate sb ip s) c ≡ used sb s c
  unfolding iupdate
  same_used ip s c ne =
      used-keep sb (iblock sb ip.inum)
        (write_dinode (dip ip.inum) ip (s.blocks (iblock sb ip.inum))) s c ne

  -- what `free_inode` leaves, and what it does
  record FreedInode (t : Itable) (s : Store) (i : ℕ) (r : Itable × Store) : Type 0 where
    ref : (r.0.inodes i).ref ≡ (t.inodes i).ref
    dev : (r.0.inodes i).dev ≡ (t.inodes i).dev
    inum : (r.0.inodes i).inum ≡ (t.inodes i).inum
    others : (j : ℕ) → i ≢ j → r.0.inodes j ≡ t.inodes j
    gone : Gone t s i r.1

  free_inode-FreedInode :
      (t : Itable) (s : Store) (i : ℕ)
      → IsFile sb (t.inodes i) s
      → ((c : ℕ) → c < sb.size → iblock sb (t.inodes i).inum ≢ bblock sb c)
      → t.held i ≡ false
      → Safely (FreedInode t s i) (free_inode sb i t s)
  unfolding free_inode
  free_inode-FreedInode t s i f apart idle = rw idle (
      Safely-bind (itrunc-Emptied sb (t.inodes i) s f apart) (λ r e.
        let ip : Inode = record r.0 { file_type = 0 } in
        let here = update_self t.inodes i (record ip { valid = false }) in
        let same : (c : ℕ) → c < sb.size → used sb (iupdate sb ip r.1) c ≡ used sb r.1 c = λ c lt.
          same_used ip r.1 c
            (λ x. apart c lt (ap (λ (jp : Inode). iblock sb jp.inum) (sym e.only) ∙ x)) in
        safely (record {
          ref = ap (λ (jp : Inode). jp.ref) here ∙ ap (λ (jp : Inode). jp.ref) e.only;
          dev = ap (λ (jp : Inode). jp.dev) here ∙ ap (λ (jp : Inode). jp.dev) e.only;
          inum = ap (λ (jp : Inode). jp.inum) here ∙ ap (λ (jp : Inode). jp.inum) e.only;
          others = λ j ne. update_ne t.inodes i j (record ip { valid = false }) ne;
          gone = record {
            freed = λ k lt nz. same _ (f.inside k lt) ∙ e.freed k lt nz;
            kept = λ c lt h. same c lt ∙ e.kept c lt h;
            no_type = λ any.
                ap (λ (jp : Inode). (on_disk sb (iupdate sb ip r.1) jp.inum any).file_type)
                  (sym e.only)
                ∙ zero_type ip any r.1 refl;
          };
        })))

  -- Where the counts are exact and no two inodes in use stand for one file, a reference in use can
  -- be given back without a panic, and all this holds without it. The last reference to an inode
  -- without links frees all its blocks and no others, and the inode on the disk; with any other
  -- the disk stays as it is. The file's blocks must be in use, once each, the inode's own block
  -- must not be one of the bitmap, and nobody may hold its lock.
  pub iput-IsPut :
      (t : Itable) (s : Store) (refs : List ℕ) (i : ℕ)
      → IsOrdered t refs
      → 0 < occurrences i refs
      → IsFile sb (t.inodes i) s
      → ((c : ℕ) → c < sb.size → iblock sb (t.inodes i).inum ≢ bblock sb c)
      → t.held i ≡ false
      → Safely (λ r. IsOrdered r.0 (remove i refs) × IsPut t s i r.1) (iput sb i t s)
  unfolding iput
  iput-IsPut t s refs i o h f apart idle = elim (Bool-cases (is_lost t i)) [
    | inl lost ↦ rw lost (
        Safely-bind (free_inode-FreedInode t s i f apart idle)
          (λ r g. safely (drop-IsOrdered t r.0 refs i o h g.ref g.dev g.inum g.others, g.gone)))
    | inr keeps ↦
        rw keeps (safely (drop-IsOrdered t t refs i o h refl refl refl (λ j ne. refl), refl))
  ]
