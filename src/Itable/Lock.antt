-- ===== src/Itable/Lock.antt =====
-- `ilock`: what is on the disk of a file is in memory once its inode is locked.
use risc_v_operating_system.Base.{
  ℕ, ◌<◌, ◌≡◌, refl, ◌≢◌, true, false, some, List, arith, ◌==◌, occurrences, update_self, update_ne,
  Safely, safely, Safely-bind, Safely-else,
}
use risc_v_operating_system.Fs.{Superblock, Store}
use risc_v_operating_system.Inode.{Inode, read_dinode, load, iupdate}
use risc_v_operating_system.Inode.Disk.{Fits, SameDinode, on_disk, iupdate-SameDinode}
use risc_v_operating_system.Itable.{Itable, positive, ilock}
use risc_v_operating_system.Itable.Counts.{IsOrdered}

-- what `ilock` leaves, where `on` is the inode on the disk
pub record Locked (on : Inode) (t : Itable) (i : ℕ) (t' : Itable) : Type 0 where
  pub read : SameDinode (t'.inodes i) on
  pub valid : (t'.inodes i).valid ≡ true
  pub count : (t'.inodes i).ref ≡ (t.inodes i).ref
  pub held : t'.held i ≡ true
  pub others : (j : ℕ) → i ≢ j → (t'.inodes j ≡ t.inodes j) × (t'.held j ≡ t.held j)

module _ (sb : Superblock) where
  load-SameDinode :
      (ip on : Inode) (s : Store)
      → ip.valid ≡ false
      → SameDinode (on_disk sb s ip.inum ip) on
      → on.file_type ≢ 0
      → Safely (λ jp. SameDinode jp on × (jp.valid ≡ true) × (jp.ref ≡ ip.ref)) (load sb ip s)
  unfolding load read_dinode
  load-SameDinode ip on s invalid same typed =
      let nz : ((on_disk sb s ip.inum ip).file_type == 0) ≡ false =
        ground (arith, same.file_type) in
      Safely-else _ invalid (
        Safely-else _ nz (
          safely (
            record {
              file_type = same.file_type;
              major = same.major;
              minor = same.minor;
              nlink = same.nlink;
              size = same.size;
              addrs = same.addrs;
            },
            refl,
            refl,
          )))

  written :
      (ip any : Inode) (s : Store) (inum : ℕ)
      → inum ≡ ip.inum
      → Fits ip
      → SameDinode (on_disk sb (iupdate sb ip s) inum any) ip
  written ip any s inum same f = rw same (iupdate-SameDinode sb ip any s f).0

  -- A file's inode is written by `iupdate`, and later read by `ilock` into a slot of the table for
  -- this file that is not valid. Then `ilock` does not panic, the lock is held, and the slot has the
  -- type, the device numbers, the links, the size and the block addresses that were written. The
  -- fields must fit their types on the disk, the type must not be zero, and the slot must be in use
  -- with its lock free.
  pub ilock-iupdate :
      (ip : Inode) (t : Itable) (s : Store) (refs : List ℕ) (i : ℕ)
      → Fits ip
      → ip.file_type ≢ 0
      → IsOrdered t refs
      → 0 < occurrences i refs
      → (t.inodes i).inum ≡ ip.inum
      → (t.inodes i).valid ≡ false
      → t.held i ≡ false
      → Safely (Locked ip t i) (ilock sb (some i) t (iupdate sb ip s))
  unfolding ilock
  ilock-iupdate ip t s refs i f typed o h same invalid idle =
      let used : positive (t.inodes i).ref ≡ true =
        ground (arith, o.counts.exact i, o.counts.few i) in
      let on : SameDinode (on_disk sb (iupdate sb ip s) (t.inodes i).inum (t.inodes i)) ip =
        written ip (t.inodes i) s (t.inodes i).inum same f in
      rw (used, idle)
        (Safely-bind (load-SameDinode (t.inodes i) ip (iupdate sb ip s) invalid on typed) (λ jp l.
          let here = update_self t.inodes i jp in
          safely (record {
            read = rw here l.0;
            valid = rw here l.1;
            count = rw here l.2;
            held = update_self t.held i true;
            others = λ j ne. (update_ne t.inodes i j jp ne, update_ne t.held i j true ne);
          })))
