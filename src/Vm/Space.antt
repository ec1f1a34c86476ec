-- ===== src/Vm/Space.antt =====
-- kernel/vm.c: the address space of a process, as it grows, shrinks, is copied and freed.
use risc_v_operating_system.Base.{
  ℕ, zero, suc, ◌+◌, ◌-◌, ◌*◌, ◌/◌, ◌%◌, ◌^◌, Bool, true, false, ◌&&◌, not, Option, none, some, ltb,
  leb, ◌==◌, if◌then◌else◌, update, Run, ok, panic, ◌>>=◌, ◌>>◌, panic_if,
}
use risc_v_operating_system.Base.Word.{u64, land, lnot}
use risc_v_operating_system.Kalloc.{Kmem, page_size, page_round_up, fill_page, kalloc, kfree}
use risc_v_operating_system.Vm.{
  pte2pa, pte_flags, is_valid, entry, set_entry, minus_one, walk, mappages, uvmunmap,
}

-- `PTE_W | PTE_X | PTE_R | PTE_U`
abbrev pub user_perm : ℕ
user_perm = 30

-- An `int` as an argument of type `uint64`.
abbrev pub int_to_u64 : ℕ → ℕ
int_to_u64 n = if ltb (n % 2 ^ 32) (2 ^ 31) then n % 2 ^ 32 else 2 ^ 64 - 2 ^ 32 + n % 2 ^ 32

-- `(pte & (PTE_R | PTE_W | PTE_X)) == 0`
abbrev pub leads_on : ℕ → Bool
leads_on pte = pte / 2 % 8 == 0

-- `memmove` of a page, in words
unfoldable pub copy_words : (ram : ℕ → ℕ) → (dst src n : ℕ) → ℕ → ℕ
copy_words ram dst src zero = ram
copy_words ram dst src (suc n) = update (copy_words ram dst src n) (dst + n) (ram (src + n))

module _ (kernel_end : ℕ) where
  unfoldable pub uvmdealloc : (pagetable oldsz newsz : ℕ) → Kmem → Run (ℕ × Kmem)
  uvmdealloc pagetable oldsz newsz k =
      if leb oldsz newsz
      then ok (oldsz, k)
      else (if ltb (page_round_up newsz) (page_round_up oldsz)
          then (uvmunmap kernel_end pagetable (page_round_up newsz)
              (int_to_u64 ((page_round_up oldsz - page_round_up newsz) / page_size)) true k)
          else ok k)
        >>= λ k'. ok (newsz, k')

  -- What `uvmalloc` does at a page, which it maps to `mem`; `false` where the loop ends with 0.
  unfoldable pub grow_page : (pagetable a oldsz mem : ℕ) → Kmem → Run (Bool × Kmem)
  grow_page pagetable a oldsz mem k =
      mappages pagetable a page_size mem user_perm (record k { ram = fill_page k.ram mem 0 })
      >>= λ (r : ℕ × Kmem).
          if r.0 == 0
          then ok (true, r.1)
          else (kfree kernel_end mem r.1 >>= λ k'.
              uvmdealloc pagetable a oldsz k' >>= λ (d : ℕ × Kmem). ok (false, d.1))

  -- The loop of `uvmalloc`, which counts as a panic if it outlasts its fuel.
  unfoldable pub grow_loop : (fuel : ℕ) → (pagetable a oldsz newsz : ℕ) → Kmem → Run (ℕ × Kmem)
  grow_loop zero pagetable a oldsz newsz k = panic
  grow_loop (suc fuel) pagetable a oldsz newsz k =
      let mem = kalloc k in
      if not (ltb a newsz)
      then ok (newsz, k)
      else if mem.0 == 0
      then (uvmdealloc pagetable a oldsz mem.1 >>= λ (d : ℕ × Kmem). ok (0, d.1))
      else (grow_page pagetable a oldsz mem.0 mem.1 >>= λ (g : Bool × Kmem).
          if g.0
          then grow_loop fuel pagetable (u64 (a + page_size)) oldsz newsz g.1
          else ok (0, g.1))

  -- Each round is a page of the new size, and there is a last test.
  unfoldable pub uvmalloc : (pagetable oldsz newsz : ℕ) → Kmem → Run (ℕ × Kmem)
  uvmalloc pagetable oldsz newsz k =
      if ltb newsz oldsz
      then ok (oldsz, k)
      else grow_loop (newsz / page_size + 2) pagetable (page_round_up oldsz) (page_round_up oldsz)
          newsz k

  -- What `freewalk` does with entry `i`, where `freewalk` of a table below is `below`.
  unfoldable pub free_entry : (below : ℕ → Kmem → Run Kmem) → (pagetable i : ℕ) → Kmem → Run Kmem
  free_entry below pagetable i k =
      let pte = entry k (pagetable + 8 * i) in
      if is_valid pte && leads_on pte
      then (below (pte2pa pte) k >>= λ k'. ok (set_entry (pagetable + 8 * i) 0 k'))
      else (panic_if (is_valid pte) >> ok k)

  -- The loop of `freewalk`, with `count` entries left.
  unfoldable pub free_entries :
      (below : ℕ → Kmem → Run Kmem) → (pagetable count : ℕ) → Kmem → Run Kmem
  free_entries below pagetable zero k = ok k
  free_entries below pagetable (suc count) k =
      free_entry below pagetable (512 - suc count) k >>= free_entries below pagetable count

  -- `level` bounds the depth of the recursion; one that goes deeper counts as a panic.
  unfoldable pub freewalk : (level : ℕ) → (pagetable : ℕ) → Kmem → Run Kmem
  freewalk zero pagetable k = panic
  freewalk (suc level) pagetable k =
      free_entries (freewalk level) pagetable 512 k >>= kfree kernel_end pagetable

  -- A page table has three levels.
  unfoldable pub uvmfree : (pagetable sz : ℕ) → Kmem → Run Kmem
  uvmfree pagetable sz k =
      (if ltb 0 sz
        then uvmunmap kernel_end pagetable 0 (page_round_up sz / page_size) true k
        else ok k)
      >>= freewalk 3 pagetable

  -- What `uvmcopy` does with the page at `i`; `false` where it goes to `err`.
  unfoldable pub copy_page : (new i pte : ℕ) → Kmem → Run (Bool × Kmem)
  copy_page new i pte k =
      let mem = kalloc k in
      if mem.0 == 0
      then ok (false, mem.1)
      else (mappages new i page_size mem.0 (pte_flags pte) (record mem.1 {
        ram = copy_words mem.1.ram (mem.0 / 8) (pte2pa pte / 8) (page_size / 8);
      })
          >>= λ (r : ℕ × Kmem).
              if r.0 == 0
              then ok (true, r.1)
              else (kfree kernel_end mem.0 r.1 >>= λ k'. ok (false, k')))

  unfoldable pub copy_entry : (new i : ℕ) → Option ℕ → Kmem → Run (Bool × Kmem)
  copy_entry new i none k = panic
  copy_entry new i (some pte) k =
      panic_if (not (is_valid (entry k pte))) >> copy_page new i (entry k pte) k

  -- The loop of `uvmcopy`, which counts as a panic if it outlasts its fuel.
  unfoldable pub copy_loop : (fuel : ℕ) → (old new i sz : ℕ) → Kmem → Run (ℕ × Kmem)
  copy_loop zero old new i sz k = panic
  copy_loop (suc fuel) old new i sz k =
      if not (ltb i sz)
      then ok (0, k)
      else (walk false old i k >>= λ (r : Option ℕ × Kmem).
          copy_entry new i r.0 r.1 >>= λ (c : Bool × Kmem).
          if c.0
          then copy_loop fuel old new (u64 (i + page_size)) sz c.1
          else (uvmunmap kernel_end new 0 (i / page_size) true c.1 >>= λ k'. ok (minus_one, k')))

  unfoldable pub uvmcopy : (old new sz : ℕ) → Kmem → Run (ℕ × Kmem)
  uvmcopy old new sz k = copy_loop (sz / page_size + 2) old new 0 sz k

-- What `uvmclear` does at the entry.
unfoldable pub clear_user : Option ℕ → Kmem → Run Kmem
clear_user none k = panic
clear_user (some pte) k = ok (set_entry pte (land 64 (entry k pte) (lnot 64 16)) k)

unfoldable pub uvmclear : (pagetable va : ℕ) → Kmem → Run Kmem
uvmclear pagetable va k = walk false pagetable va k >>= λ (r : Option ℕ × Kmem). clear_user r.0 r.1
