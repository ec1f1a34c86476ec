-- ===== src/Itable/Tests.antt =====
-- A table with the file of the samples, which one process has open.
use risc_v_operating_system.Base.{
  ℕ, ◌≡◌, refl, inl, inr, false, [], ◌∷◌, arith, ◌==◌, if◌then◌else◌, Bool-cases, occurrences,
  remove, Safely,
}
use risc_v_operating_system.Fs.Sample.{sb, disk}
use risc_v_operating_system.Inode.Sample.{file, file-IsFile}
use risc_v_operating_system.Itable.{Itable, iget, iput, ialloc}
use risc_v_operating_system.Itable.Counts.{IsOrdered}
use risc_v_operating_system.Itable.Get.{IsGot, iget-IsGot}
use risc_v_operating_system.Itable.Put.{IsPut, iput-IsPut}
use risc_v_operating_system.Itable.Make.{IsMade, ialloc-IsMade}

-- inode 3 of the disk is in slot 0
abbrev one_file : Itable
one_file = record {
  inodes = λ i. if i == 0 then file else record file { ref = 0 };
  held = λ i. false;
}

one_ref : (i : ℕ) → (one_file.inodes i).ref ≡ occurrences i (0 ∷ [])
one_ref i = elim (Bool-cases (i == 0)) [
  | inl z ↦ rw z (ground arith)
  | inr nz ↦ rw nz (ground arith)
]

one_file-IsOrdered : IsOrdered one_file (0 ∷ [])
one_file-IsOrdered = record {
  counts = record { exact = one_ref; few = λ i. ground arith; inside = λ i le. ground arith };
  unique = λ i j ri rj d n. ground (arith, one_ref i, one_ref j);
}

-- the last reference to a file without links
iput-IsPut_example :
    Safely
      (λ r. IsOrdered r.0 (remove 0 (0 ∷ [])) × IsPut sb one_file disk 0 r.1)
      (iput sb 0 one_file disk)
iput-IsPut_example =
    iput-IsPut sb one_file disk (0 ∷ []) 0 one_file-IsOrdered (omega arith) file-IsFile
      (λ c lt. ground arith) refl

iget-IsGot_example : IsGot 1 5 one_file (0 ∷ []) (iget 1 5 one_file)
iget-IsGot_example = iget-IsGot 1 5 one_file (0 ∷ []) one_file-IsOrdered (λ i. ground arith)

ialloc-IsMade_example : IsMade sb 1 2 one_file (0 ∷ []) disk (ialloc sb 1 2 one_file disk)
ialloc-IsMade_example =
    ialloc-IsMade sb 1 2 one_file (0 ∷ []) disk (omega arith) one_file-IsOrdered (λ i. ground arith)

-- the same table, before the inode is read
abbrev unread : Itable
unread = record one_file { inodes = λ i. record (one_file.inodes i) { valid = false } }

unread-IsOrdered : IsOrdered unread (0 ∷ [])
unread-IsOrdered = record { counts = one_file-IsOrdered.counts; unique = one_file-IsOrdered.unique }
