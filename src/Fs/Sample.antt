-- ===== src/Fs/Sample.antt =====
-- A small disk for the tests of the file system's layers: of its 20 blocks the first nine are used,
-- inodes are from block 4 on, and the free map is block 6.
use risc_v_operating_system.Base.{ℕ, ◌<◌, ◌≡◌, refl, true, false, [], arith, ◌==◌, if◌then◌else◌}
use risc_v_operating_system.Fs.{Superblock, Block, Store, bblock, is_free}
use risc_v_operating_system.Fs.Alloc.{used, IsMapped}
use risc_v_operating_system.Base.Word.{land, one_shl}

abbrev pub sb : Superblock
sb = record {
  magic = 0x10203040;
  size = 20;
  nblocks = 10;
  ninodes = 32;
  nlog = 0;
  logstart = 2;
  inodestart = 4;
  bmapstart = 6;
}

abbrev pub map_bytes : Block
map_bytes i = if i == 0 then 255 else if i == 1 then 1 else 0

abbrev pub disk : Store
disk = record { blocks = λ b. if b == 6 then map_bytes else (λ i. 0); logged = [] }

abbrev pub file_slot : ℕ → ℕ
file_slot k = if k == 0 then 7 else if k == 12 then 8 else 0

pub map_used : (b : ℕ) → b < 20 → used sb disk (bblock sb b) ≡ true
unfolding is_free land one_shl
map_used b lt = let at : bblock sb b ≡ 6 = omega arith in rw at refl

pub disk-IsMapped : IsMapped sb disk
disk-IsMapped = record {
  small = omega arith;
  map_inside = λ b lt. omega arith;
  map_used = map_used;
}

pub free_at : (used sb disk 9 ≡ false) × (used sb disk 10 ≡ false)
unfolding is_free land one_shl
free_at = (refl, refl)

pub used_at : (used sb disk 0 ≡ true) × (used sb disk 7 ≡ true) × (used sb disk 8 ≡ true)
unfolding is_free land one_shl
used_at = (refl, refl, refl)
