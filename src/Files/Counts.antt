-- ===== src/Files/Counts.antt =====
-- The reference counts: each file's is the number of references that its users hold.
use risc_v_operating_system.Base.{
  ℕ, zero, suc, ◌+◌, ◌-◌, ◌^◌, ◌<◌, ◌≡◌, refl, ◌∙◌, ◌≢◌, ◌⊎◌, inl, inr, true, false, not, Option,
  none, some, List, ◌∷◌, arith, ◌==◌, Bool-cases, update, panic, Safely, safely,
}
use risc_v_operating_system.Base.{
  occurrences, remove, occurrences-remove, ap, update_self, update_ne,
}
use risc_v_operating_system.Base.{RefCounts, RefCounts-change}
use risc_v_operating_system.Base.Word.{u32}
use risc_v_operating_system.Files.{
  nfile, FileType, fd_none, fd_pipe, fd_inode, fd_device, File, Closing, close_pipe, put_inode,
  Table, alloc_loop, filealloc, below_one, filedup, nothing, closing, fileclose,
}

-- `refs` lists the references in use, each as the index of its file.
abbrev pub Counted : Table → List ℕ → Type 0
Counted t refs = RefCounts nfile (λ f. (t f).ref) refs

-- one file's count is changed
pub update-Counted :
    (t : Table) (refs refs' : List ℕ) (f : ℕ) (file : File)
    → Counted t refs
    → f < nfile
    → file.ref ≡ occurrences f refs'
    → occurrences f refs' < 2 ^ 31
    → ((g : ℕ) → f ≢ g → occurrences g refs' ≡ occurrences g refs)
    → Counted (update t f file) refs'
update-Counted t refs refs' f file c lt here fits others =
    RefCounts-change (λ g. (update t f file g).ref) refs' f c lt
      (ap (λ (x : File). x.ref) (update_self t f file) ∙ here) fits
      (λ g ne. (ap (λ (x : File). x.ref) (update_ne t f g file ne), others g ne))

-- what `filealloc` promises of its result
abbrev pub IsAllocated : Table → List ℕ → Option (ℕ × Table) → Type 0
IsAllocated t refs none = (f : ℕ) → f < nfile → 0 < occurrences f refs
IsAllocated t refs (some (f, t')) = (f < nfile) × (occurrences f refs ≡ 0) × Counted t' (f ∷ refs)

alloc_loop-IsAllocated :
    (rounds f : ℕ) (t : Table) (refs : List ℕ)
    → f + rounds ≡ nfile
    → Counted t refs
    → ((g : ℕ) → g < f → 0 < occurrences g refs)
    → IsAllocated t refs (alloc_loop rounds f t)
unfolding alloc_loop
alloc_loop-IsAllocated zero f t refs e c before = λ g lt. before g (omega arith)
alloc_loop-IsAllocated (suc rounds) f t refs e c before =
    let exact = c.exact f in
    elim (Bool-cases ((t f).ref == 0)) [
      | inl free ↦
          let unused : occurrences f refs ≡ 0 = ground (arith, exact) in
          rw free (
            omega arith,
            unused,
            update-Counted t refs (f ∷ refs) f (record (t f) { ref = 1 }) c (omega arith)
                (ground arith) (ground arith) (λ g ne. ground arith),
          )
      | inr busy ↦ rw busy (
          alloc_loop-IsAllocated rounds (f + 1) t refs (omega arith) c (λ g lt.
            elim (Bool-cases (g == f)) [
              | inl same ↦ ground (arith, c.exact g)
              | inr ne ↦ before g (ground arith)
            ]))
    ]

-- Where the counts are exact, `filealloc` fails only if every file is referred to. Otherwise it
-- returns a file that nobody refers to, and with the reference that it gives the counts are
-- exact again.
pub filealloc-IsAllocated :
    (t : Table) (refs : List ℕ) → Counted t refs → IsAllocated t refs (filealloc t)
unfolding filealloc
filealloc-IsAllocated t refs c =
    alloc_loop-IsAllocated nfile 0 t refs refl c (λ g lt. absurd (omega arith))

-- Where the counts are exact, a reference in use can be doubled without a panic, if the new count
-- fits an `int`, and the counts are exact again.
pub filedup-Counted :
    (t : Table) (refs : List ℕ) (f : ℕ)
    → Counted t refs
    → 0 < occurrences f refs
    → occurrences f refs + 1 < 2 ^ 31
    → Safely (λ t'. Counted t' (f ∷ refs)) (filedup f t)
unfolding filedup
filedup-Counted t refs f c h fits =
    let exact = c.exact f in
    let go : below_one (t f).ref ≡ false = ground (arith, exact) in
    rw go (
      safely (
        update-Counted t refs (f ∷ refs) f _ c (ground (arith, c.inside f)) (ground (arith, exact))
          (ground arith) (λ g ne. ground arith)))

-- what goes with the last reference: an end of the pipe, the inode, or nothing
abbrev pub LetsGo : File → Closing → Type 0
LetsGo ff c =
    ((ff.file_type ≡ fd_pipe) × (c ≡ close_pipe ff.pipe ff.writable))
    ⊎ ((((ff.file_type ≡ fd_inode) ⊎ (ff.file_type ≡ fd_device)) × (c ≡ put_inode ff.ip))
        ⊎ ((ff.file_type ≡ fd_none) × (c ≡ nothing)))

closing-LetsGo : (ff : File) → LetsGo ff (closing ff)
closing-LetsGo ff = by_type ff.file_type refl
  where
    by_type : (ft : FileType) → ff.file_type ≡ ft → LetsGo ff (closing ff)
    by_type fd_none e = inr (inr (e, rw e refl))
    by_type fd_pipe e = inl (e, rw e refl)
    by_type fd_inode e = inr (inl (inl e, rw e refl))
    by_type fd_device e = inr (inl (inr e, rw e refl))

-- Where the counts are exact, a reference in use can be closed without a panic, and the counts are
-- exact again without it. With the last reference the file's end of its pipe is closed or its inode
-- is given back, by the type of the file, and before that neither.
pub fileclose-Counted :
    (t : Table) (refs : List ℕ) (f : ℕ)
    → Counted t refs
    → 0 < occurrences f refs
    → Safely
        (λ r.
          (((occurrences f refs ≢ 1) × (r.0 ≡ nothing))
            ⊎ ((occurrences f refs ≡ 1) × LetsGo (t f) r.0))
          × Counted r.1 (remove f refs))
        (fileclose f t)
unfolding fileclose
fileclose-Counted t refs f c h =
    let exact = c.exact f in
    let few = c.few f in
    let left = occurrences-remove f f refs h in
    let others = λ (g : ℕ). occurrences-remove g f refs h in
    let room : f < nfile = ground (arith, c.inside f) in
    let go : below_one (t f).ref ≡ false = ground (arith, exact) in
    elim (Bool-cases (occurrences f refs == 1)) [
      | inl last ↦
          let gone : not (below_one (u32 ((t f).ref + (2 ^ 32 - 1)))) ≡ false =
            ground (arith, exact) in
          rw (go, gone)
            (safely (
              inr (ground arith, closing-LetsGo (t f)),
              update-Counted t refs (remove f refs) f _ c room (ground (arith, left))
                  (ground (arith, left)) (λ g ne. ground (arith, others g)),
            ))
      | inr more ↦
          let kept : not (below_one (u32 ((t f).ref + (2 ^ 32 - 1)))) ≡ true =
            ground (arith, exact) in
          rw (go, kept)
            (safely (
              inl (ground arith, refl),
              update-Counted t refs (remove f refs) f _ c room (ground (arith, exact, left))
                  (ground (arith, left)) (λ g ne. ground (arith, others g)),
            ))
    ]

-- Where the counts are exact, `filedup` and `fileclose` panic at a file that nobody refers to.
pub unused-panic :
    (t : Table) (refs : List ℕ) (f : ℕ)
    → Counted t refs
    → occurrences f refs ≡ 0
    → (filedup f t ≡ panic) × (fileclose f t ≡ panic)
unfolding filedup fileclose
unused-panic t refs f c none_left =
    let stop : below_one (t f).ref ≡ true = ground (arith, c.exact f) in
    (rw stop refl, rw stop refl)
