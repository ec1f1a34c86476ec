-- ===== src/Itable.antt =====
-- The inode table of kernel/fs.c. `itable.lock` makes each critical section one step; it is not a
-- field here. A pointer to an inode is its index in the table, and `none` is the null pointer.
pub mod Counts
pub mod Get
pub mod Put
pub mod Lock
pub mod Make
mod Tests
use risc_v_operating_system.Base.{
  ℕ, zero, suc, ◌+◌, ◌-◌, ◌*◌, ◌/◌, ◌%◌, ◌^◌, ◌<◌, Bool, ◌&&◌, ◌||◌, not, Option, none, some, ltb,
  ◌==◌, if◌then◌else◌, true, false, update, Run, ok, panic, ◌>>=◌, ◌>>◌, panic_if,
}
use risc_v_operating_system.Base.Word.{u32, is_negative}
use risc_v_operating_system.Fs.{Superblock, Block, Store, keep}
use risc_v_operating_system.Fs.Words.{half, put_half}
use risc_v_operating_system.Inode.{Inode, iblock, dip, iupdate, load, itrunc}

-- `NINODE`
abbrev pub ninode : ℕ
ninode = 50

-- `itable.inode`; `held i` says that the process at hand holds the sleep lock of inode `i`.
pub record Itable : Type 0 where
  pub inodes : ℕ → Inode
  pub held : ℕ → Bool

abbrev pub set_inode : ℕ → Inode → Itable → Itable
set_inode i ip t = record t { inodes = update t.inodes i ip }

-- How the loop of `iget` ends: at the inode, or with the slot to recycle.
pub data Search : Type 0 where
  found : ℕ → Search
  empty : Option ℕ → Search

abbrev pub is_none : Option ℕ → Bool
is_none none = true
is_none (some i) = false

-- `ref > 0` for an `int`
abbrev pub positive : ℕ → Bool
positive ref = not (is_negative ref) && not (ref == 0)

-- The loop of `iget`, from slot `i` on; `slot` is its variable `empty`.
unfoldable pub iget_loop : (rounds i : ℕ) (slot : Option ℕ) (dev inum : ℕ) → Itable → Search
iget_loop zero i slot dev inum t = empty slot
iget_loop (suc rounds) i slot dev inum t =
    let ip = t.inodes i in
    let slot' = if is_none slot && ip.ref == 0 then some i else slot in
    if positive ip.ref && (ip.dev == dev && ip.inum == inum)
    then found i
    else iget_loop rounds (i + 1) slot' dev inum t

-- What `iget` does with the end of its loop.
unfoldable pub take_slot : (dev inum : ℕ) → Search → Itable → Run (ℕ × Itable)
take_slot dev inum (found i) t =
    ok (i, set_inode i (record (t.inodes i) { ref = u32 ((t.inodes i).ref + 1) }) t)
take_slot dev inum (empty none) t = panic
take_slot dev inum (empty (some i)) t =
    ok (i, set_inode i (record (t.inodes i) { dev = dev; inum = inum; ref = 1; valid = false }) t)

unfoldable pub iget : (dev inum : ℕ) → Itable → Run (ℕ × Itable)
iget dev inum t = take_slot dev inum (iget_loop ninode 0 none dev inum t) t

unfoldable pub idup : ℕ → Itable → Itable
idup i t = set_inode i (record (t.inodes i) { ref = u32 ((t.inodes i).ref + 1) }) t

-- `acquiresleep(&ip->lock)`; a process that waits for its own lock counts as a panic.
abbrev pub acquire_inode : ℕ → Itable → Run Itable
acquire_inode i t = panic_if (t.held i) >> ok (record t { held = update t.held i true })

abbrev pub release_inode : ℕ → Itable → Itable
release_inode i t = record t { held = update t.held i false }

-- `memset(dip, 0, sizeof(*dip))`
unfoldable pub clear_dinode : (rounds off : ℕ) → Block → Block
clear_dinode zero off bytes = bytes
clear_dinode (suc rounds) off bytes = clear_dinode rounds (off + 1) (update bytes off 0)

module _ (sb : Superblock) where
  unfoldable pub ilock : Option ℕ → Itable → Store → Run Itable
  ilock none t s = panic
  ilock (some i) t s = panic_if (not (positive (t.inodes i).ref)) >> acquire_inode i t >>= λ t'.
      load sb (t'.inodes i) s >>= λ ip. ok (set_inode i ip t')

  unfoldable pub iunlock : Option ℕ → Itable → Run Itable
  iunlock none t = panic
  iunlock (some i) t =
      panic_if (not (t.held i) || not (positive (t.inodes i).ref)) >> ok (release_inode i t)

  -- What `iput` does to an inode with no links before it drops the last reference.
  unfoldable pub free_inode : ℕ → Itable → Store → Run (Itable × Store)
  free_inode i t s = acquire_inode i t >>= λ t1.
      itrunc sb (t1.inodes i) s >>= λ (r : Inode × Store).
      (let ip = record r.0 { file_type = 0 } in
        ok (release_inode i (set_inode i (record ip { valid = false }) t1), iupdate sb ip r.1))

  unfoldable pub iput : ℕ → Itable → Store → Run (Itable × Store)
  iput i t s =
      let ip = t.inodes i in
      (if ip.ref == 1 && (ip.valid && ip.nlink == 0) then free_inode i t s else ok (t, s))
      >>= λ (r : Itable × Store).
          (let jp = r.0.inodes i in
            ok (set_inode i (record jp { ref = u32 (jp.ref + (2 ^ 32 - 1)) }) r.0, r.1))

  unfoldable pub iunlockput : Option ℕ → Itable → Store → Run (Itable × Store)
  iunlockput none t s = panic
  iunlockput (some i) t s = iunlock (some i) t >>= λ t'. iput i t' s

  -- The loop of `ialloc`, from `inum` on; one that outlasts its fuel counts as a panic.
  unfoldable pub ialloc_loop :
      (fuel inum : ℕ) → (dev file_type : ℕ) → Itable → Store → Run (ℕ × Itable × Store)
  ialloc_loop zero inum dev file_type t s = panic
  ialloc_loop (suc fuel) inum dev file_type t s =
      let b = iblock sb inum in
      let rest = ialloc_loop fuel (inum + 1) dev file_type t s in
      if not (ltb inum sb.ninodes)
      then panic
      else if half (s.blocks b) (dip inum) == 0
      then (iget dev inum t >>= λ (r : ℕ × Itable). ok (
        r.0,
        r.1,
        keep b (put_half (clear_dinode 64 (dip inum) (s.blocks b)) (dip inum) file_type) s,
      ))
      else rest

  unfoldable pub ialloc : (dev file_type : ℕ) → Itable → Store → Run (ℕ × Itable × Store)
  ialloc dev file_type t s = ialloc_loop sb.ninodes 1 dev file_type t s
