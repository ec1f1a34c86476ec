-- ===== src/Inode/Sample.antt =====
-- A file for the tests: it has block 7, and block 8 lists further blocks, of which there are none.
use risc_v_operating_system.Base.{ℕ, ◌≡◌, ◌∙◌, ◌≢◌, inl, inr, true, arith, ◌==◌, Bool-cases}
use risc_v_operating_system.Fs.Sample.{sb, disk, file_slot, used_at}
use risc_v_operating_system.Fs.Alloc.{used}
use risc_v_operating_system.Inode.{Inode}
use risc_v_operating_system.Inode.Disk.{Fits}
use risc_v_operating_system.Inode.Slots.{slot, IsFile}

abbrev pub file : Inode
file = record {
  dev = 1;
  inum = 3;
  ref = 1;
  valid = true;
  file_type = 2;
  major = 0;
  minor = 0;
  nlink = 0;
  size = 1000;
  addrs = file_slot;
}

pub file-Fits : Fits file
file-Fits = record {
  file_type = omega arith;
  major = omega arith;
  minor = omega arith;
  nlink = omega arith;
  size = omega arith;
  addrs = λ j. ground arith;
}

pub slot_lem : (k : ℕ) → slot file disk k ≡ file_slot k
unfolding slot
slot_lem k = ground arith

in_use : (k : ℕ) → file_slot k ≢ 0 → used sb disk (file_slot k) ≡ true
in_use k nz = elim (Bool-cases (k == 0)) [
  | inl first ↦ rw first used_at.1
  | inr more ↦ elim (Bool-cases (k == 12)) [
    | inl list ↦ rw (more, list) used_at.2
    | inr other ↦ absurd (nz (ground arith))
  ]
]

pub file-IsFile : IsFile sb file disk
file-IsFile = record {
  boot = used_at.0;
  inside = λ k lt. ground (arith, slot_lem k);
  in_use = λ k lt nz. rw (slot_lem k) (in_use k (λ z. nz (slot_lem k ∙ z)));
  apart = λ k c lt nz c_lt. ground (arith, slot_lem k);
  distinct = λ j k j_lt k_lt nz e. ground (arith, slot_lem j, slot_lem k);
}
