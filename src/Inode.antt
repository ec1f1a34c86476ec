-- ===== src/Inode.antt =====
-- The inodes of kernel/fs.c: a file's metadata in memory and on the disk, and its block map.
pub mod Disk
pub mod Slots
pub mod Fill
pub mod Bmap
pub mod Freeing
pub mod Rows
pub mod Trunc
pub mod Sample
mod Tests
use risc_v_operating_system.Base.{
  ℕ, zero, suc, ◌+◌, ◌-◌, ◌*◌, ◌/◌, ◌%◌, ◌<◌, ◌≡◌, Bool, ltb, ◌==◌, if◌then◌else◌, update, Run, ok,
  panic, ◌>>=◌, true, false,
}
use risc_v_operating_system.Fs.{Superblock, Block, Store, keep, balloc, bfree}
use risc_v_operating_system.Fs.Words.{half, word, put_half, put_word}

abbrev pub ndirect : ℕ
ndirect = 12

-- `NINDIRECT`
abbrev pub nindirect : ℕ
nindirect = 256

-- `struct inode`, without its sleep lock. `valid` says that it has been read from the disk. The first
-- 12 of `addrs` are the file's first blocks, and number 12 is the block that lists the others.
pub record Inode : Type 0 where
  pub dev : ℕ
  pub inum : ℕ
  pub ref : ℕ
  pub valid : Bool
  pub file_type : ℕ
  pub major : ℕ
  pub minor : ℕ
  pub nlink : ℕ
  pub size : ℕ
  pub addrs : ℕ → ℕ

-- `struct dinode` is 64 bytes, so that there are 16 in a block.
abbrev pub ipb : ℕ
ipb = 16

-- `IBLOCK`
abbrev pub iblock : Superblock → ℕ → ℕ
iblock sb inum = inum / ipb + sb.inodestart

-- where `dip` points to in its block
abbrev pub dip : ℕ → ℕ
dip inum = inum % ipb * 64

-- `memmove(dip->addrs, ip->addrs, sizeof(ip->addrs))`, from entry `j` on
unfoldable pub write_addrs : (rounds j off : ℕ) → (addrs : ℕ → ℕ) → Block → Block
write_addrs zero j off addrs bytes = bytes
write_addrs (suc rounds) j off addrs bytes =
    write_addrs rounds (j + 1) off addrs (put_word bytes (off + 12 + 4 * j) (addrs j))

-- the stores of `iupdate` through `dip`
unfoldable pub write_dinode : (off : ℕ) → Inode → Block → Block
write_dinode off ip bytes =
    let b1 = put_half bytes off ip.file_type in
    let b2 = put_half b1 (off + 2) ip.major in
    let b3 = put_half b2 (off + 4) ip.minor in
    let b4 = put_half b3 (off + 6) ip.nlink in
    let b5 = put_word b4 (off + 8) ip.size in write_addrs (ndirect + 1) 0 off ip.addrs b5

-- the loads of `ilock` through `dip`
unfoldable pub read_dinode : (off : ℕ) → Block → Inode → Inode
read_dinode off bytes ip = record ip {
  file_type = half bytes off;
  major = half bytes (off + 2);
  minor = half bytes (off + 4);
  nlink = half bytes (off + 6);
  size = word bytes (off + 8);
  addrs = λ j. word bytes (off + 12 + 4 * j);
}

module _ (sb : Superblock) where
  unfoldable pub iupdate : Inode → Store → Store
  iupdate ip s = let b = iblock sb ip.inum in keep b (write_dinode (dip ip.inum) ip (s.blocks b)) s

  -- What `ilock` does once it holds the lock.
  unfoldable pub load : Inode → Store → Run Inode
  load ip s =
      if ip.valid
      then ok ip
      else (let ip' = record (read_dinode (dip ip.inum) (s.blocks (iblock sb ip.inum)) ip) {
        valid = true;
      } in
          if ip'.file_type == 0 then panic else ok ip')

  -- `if((addr = ip->addrs[k]) == 0) ip->addrs[k] = addr = balloc(ip->dev);`
  unfoldable pub direct : (k : ℕ) → Inode → Store → Run (ℕ × Inode × Store)
  direct k ip s =
      if ip.addrs k == 0
      then (balloc sb s >>= λ (r : ℕ × Store).
          ok (r.0, record ip { addrs = update ip.addrs k r.0 }, r.1))
      else ok (ip.addrs k, ip, s)

  -- The same for entry `bn` of the block `addr`, where a change is logged.
  unfoldable pub indirect : (addr bn : ℕ) → Inode → Store → Run (ℕ × Inode × Store)
  indirect addr bn ip s =
      let a = word (s.blocks addr) (4 * bn) in
      if a == 0
      then (balloc sb s >>= λ (r : ℕ × Store).
          ok (r.0, ip, keep addr (put_word (r.1.blocks addr) (4 * bn) r.0) r.1))
      else ok (a, ip, s)

  unfoldable pub bmap : (bn : ℕ) → Inode → Store → Run (ℕ × Inode × Store)
  bmap bn ip s =
      if ltb bn ndirect
      then direct bn ip s
      else if ltb (bn - ndirect) nindirect
      then (direct ndirect ip s >>= λ (r : ℕ × Inode × Store). indirect r.0 (bn - ndirect) r.1 r.2)
      else panic

  -- The first loop of `itrunc`, from entry `i` on.
  unfoldable pub free_direct : (rounds i : ℕ) → Inode → Store → Run (Inode × Store)
  free_direct zero i ip s = ok (ip, s)
  free_direct (suc rounds) i ip s =
      (if ip.addrs i == 0
        then ok (ip, s)
        else (bfree sb (ip.addrs i) s >>= λ s'. ok (record ip { addrs = update ip.addrs i 0 }, s')))
      >>= λ (r : Inode × Store). free_direct rounds (i + 1) r.0 r.1

  -- The second loop, over the entries of the block `addr` from `j` on.
  unfoldable pub free_indirect : (rounds j addr : ℕ) → Store → Run Store
  free_indirect zero j addr s = ok s
  free_indirect (suc rounds) j addr s =
      let a = word (s.blocks addr) (4 * j) in
      (if a == 0 then ok s else bfree sb a s) >>= λ s'. free_indirect rounds (j + 1) addr s'

  unfoldable pub itrunc : Inode → Store → Run (Inode × Store)
  itrunc ip s = free_direct ndirect 0 ip s >>= λ (r : Inode × Store).
      (if r.0.addrs ndirect == 0
        then ok r
        else (free_indirect nindirect 0 (r.0.addrs ndirect) r.1 >>= λ s1.
            bfree sb (r.0.addrs ndirect) s1 >>= λ s2.
            ok (record r.0 { addrs = update r.0.addrs ndirect 0 }, s2)))
      >>= λ (q : Inode × Store). (let ip' = record q.0 { size = 0 } in ok (ip', iupdate ip' q.1))
