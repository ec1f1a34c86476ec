-- ===== src/Files/Tests.antt =====
-- The table of open files at small inputs.
use risc_v_operating_system.Base.{
  ℕ, ◌≡◌, refl, ◌≢◌, ◌⊎◌, inl, inr, false, List, [], ◌∷◌, arith, ◌==◌, if◌then◌else◌, Bool-cases,
  update, ok, ◌>>=◌, Safely,
}
use risc_v_operating_system.Base.{occurrences, remove}
use risc_v_operating_system.Files.{File, Table, fd_none, fd_inode, fileclose, nothing, put_inode}
use risc_v_operating_system.Files.Counts.{Counted, LetsGo, fileclose-Counted}
use risc_v_operating_system.Files.PipeAlloc.{Allocated, pipealloc, pipealloc-Allocated}
use risc_v_operating_system.Kalloc.{Kmem}

abbrev free_file : File
free_file = record {
  file_type = fd_none;
  ref = 0;
  readable = false;
  writable = false;
  pipe = 0;
  ip = 0;
  off = 0;
  major = 0;
}

-- File 0 has two references, and no other file has any.
abbrev table : Table
table f = if f == 0 then record free_file { file_type = fd_inode; ref = 2; ip = 77 } else free_file

abbrev refs : List ℕ
refs = 0 ∷ 0 ∷ []

table-Counted : Counted table refs
table-Counted = record {
  exact = λ f. elim (Bool-cases (f == 0)) [ inl e ↦ rw e refl | inr e ↦ rw e refl ];
  few = λ f. ground arith;
  inside = λ f le. ground arith;
}

fileclose-Counted_example :
    Safely
      (λ r.
        (((occurrences 0 refs ≢ 1) × (r.0 ≡ nothing))
          ⊎ ((occurrences 0 refs ≡ 1) × LetsGo (table 0) r.0))
        × Counted r.1 (remove 0 refs))
      (fileclose 0 table)
fileclose-Counted_example = fileclose-Counted table refs 0 table-Counted (omega arith)

abbrev mem : Kmem
mem = record { freelist = 0x87ff_e000; ram = λ i. 0 }

pipealloc-Allocated_example : Safely (Allocated refs) (pipealloc table mem)
pipealloc-Allocated_example = pipealloc-Allocated table mem refs table-Counted

-- The last reference gives the inode back.
closed_twice : (fileclose 0 table >>= λ r. fileclose 0 r.1 >>= λ q. ok q.0) ≡ ok (put_inode 77)
unfolding fileclose update
closed_twice = refl
