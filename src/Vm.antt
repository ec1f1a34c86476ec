-- ===== src/Vm.antt =====
-- kernel/vm.c: three-level page tables in RAM, over the page allocator of Kalloc. An address is a
-- number of bytes, and RAM is in words of 8 bytes. A null pointer to an entry is `none`.
pub mod Entry
pub mod View
pub mod Store
pub mod Grow
pub mod Table
pub mod Step
pub mod Walk
pub mod Reach
pub mod Leaf
pub mod Map
pub mod Mapping
pub mod Mappages
pub mod Lookup
pub mod Free
pub mod Unmap
pub mod Unmapping
pub mod Uvmunmap
pub mod Create
pub mod Space
pub mod Shrink
pub mod Fresh
pub mod Extend
pub mod Back
pub mod Restore
pub mod Uvmalloc
mod Tests
use risc_v_operating_system.Base.{
  ℕ, zero, suc, ◌+◌, ◌-◌, ◌*◌, ◌/◌, ◌%◌, ◌^◌, Bool, true, false, ◌&&◌, ◌||◌, not, Option, none,
  some, ltb, leb, ◌==◌, if◌then◌else◌, update, Run, ok, panic, ◌>>=◌, ◌>>◌, panic_if,
}
use risc_v_operating_system.Base.Word.{u64, lor, land, lnot, bit}
use risc_v_operating_system.Kalloc.{Kmem, page_size, page_round_up, fill_page, kalloc, kfree}

-- `MAXVA`
abbrev pub maxva : ℕ
maxva = 2 ^ 38

-- `PA2PTE`, `PTE2PA` and `PTE_FLAGS`
abbrev pub pa2pte : ℕ → ℕ
pa2pte pa = pa / 2 ^ 12 * 2 ^ 10

abbrev pub pte2pa : ℕ → ℕ
pte2pa pte = u64 (pte / 2 ^ 10 * 2 ^ 12)

abbrev pub pte_flags : ℕ → ℕ
pte_flags pte = pte % 2 ^ 10

-- `PTE_V`, and the tests `pte & PTE_V` and `pte & PTE_U`
abbrev pub pte_v : ℕ
pte_v = 1

abbrev pub is_valid : ℕ → Bool
is_valid pte = bit 0 pte

abbrev pub is_user : ℕ → Bool
is_user pte = bit 4 pte

-- `PX`
abbrev pub px : (level va : ℕ) → ℕ
px level va = va / 2 ^ (12 + 9 * level) % 512

-- `PGROUNDDOWN`
abbrev pub page_round_down : ℕ → ℕ
page_round_down a = a / page_size * page_size

-- `*pte`, and a store to it
abbrev pub entry : Kmem → ℕ → ℕ
entry k pte = k.ram (pte / 8)

abbrev pub set_entry : ℕ → ℕ → Kmem → Kmem
set_entry pte v k = record k { ram = update k.ram (pte / 8) v }

-- A round of the loop of `walk`, at the entry `pte`.
unfoldable pub walk_step : (alloc : Bool) → (pte : ℕ) → Kmem → Option ℕ × Kmem
walk_step alloc pte k =
    let new = kalloc k in
    if is_valid (entry k pte)
    then (some (pte2pa (entry k pte)), k)
    else if not alloc
    then (none, k)
    else if new.0 == 0
    then (none, new.1)
    else (
      some new.0,
      set_entry pte (lor 64 (pa2pte new.0) pte_v)
          (record new.1 { ram = fill_page new.1.ram new.0 0 }),
    )

-- The loop of `walk`, with `level` rounds left.
unfoldable pub walk_loop :
    (level : ℕ) → (alloc : Bool) → (pagetable va : ℕ) → Kmem → Option ℕ × Kmem
walk_loop zero alloc pagetable va k = (some (pagetable + 8 * px 0 va), k)
walk_loop (suc level) alloc pagetable va k =
    let r = walk_step alloc (pagetable + 8 * px (suc level) va) k in
    elim r.0 [ none ↦ (none, r.1) | some next ↦ walk_loop level alloc next va r.1 ]

unfoldable pub walk : (alloc : Bool) → (pagetable va : ℕ) → Kmem → Run (Option ℕ × Kmem)
walk alloc pagetable va k = panic_if (leb maxva va) >> ok (walk_loop 2 alloc pagetable va k)

unfoldable pub walkaddr_entry : Option ℕ → Kmem → ℕ
walkaddr_entry none k = 0
walkaddr_entry (some pte) k =
    if not (is_valid (entry k pte))
    then 0
    else if not (is_user (entry k pte))
    then 0
    else pte2pa (entry k pte)

unfoldable pub walkaddr : (pagetable va : ℕ) → Kmem → Run ℕ
walkaddr pagetable va k =
    if leb maxva va
    then ok 0
    else (walk false pagetable va k >>= λ (r : Option ℕ × Kmem). ok (walkaddr_entry r.0 k))

-- What `mappages` does at one entry; `false` where the loop ends with -1.
unfoldable pub map_entry : (pa perm : ℕ) → Option ℕ → Kmem → Run (Bool × Kmem)
map_entry pa perm none k = ok (false, k)
map_entry pa perm (some pte) k =
    panic_if (is_valid (entry k pte))
    >> ok (true, set_entry pte (lor 64 (lor 64 (pa2pte pa) perm) pte_v) k)

abbrev pub minus_one : ℕ
minus_one = 2 ^ 32 - 1

-- The loop of `mappages`; one that outlasts its fuel counts as a panic.
unfoldable pub map_loop : (fuel : ℕ) → (pagetable a last pa perm : ℕ) → Kmem → Run (ℕ × Kmem)
map_loop zero pagetable a last pa perm k = panic
map_loop (suc fuel) pagetable a last pa perm k =
    walk true pagetable a k >>= λ (r : Option ℕ × Kmem).
    map_entry pa perm r.0 r.1 >>= λ (m : Bool × Kmem).
    (if not m.0
      then ok (minus_one, m.1)
      else if a == last
      then ok (0, m.1)
      else map_loop fuel pagetable (u64 (a + page_size)) last (u64 (pa + page_size)) perm m.1)

-- Each round is a page below `MAXVA`, or the last one.
unfoldable pub mappages : (pagetable va size pa perm : ℕ) → Kmem → Run (ℕ × Kmem)
mappages pagetable va size pa perm k =
    map_loop (2 ^ 26 + 1) pagetable (page_round_down va)
      (page_round_down (u64 (va + size + (2 ^ 64 - 1)))) pa perm k

unfoldable pub kvmmap : (kpgtbl va pa sz perm : ℕ) → Kmem → Run Kmem
kvmmap kpgtbl va pa sz perm k =
    mappages kpgtbl va sz pa perm k >>= λ (r : ℕ × Kmem). panic_if (not (r.0 == 0)) >> ok r.1

unfoldable pub uvmcreate : Kmem → ℕ × Kmem
uvmcreate k =
    let new = kalloc k in
    if new.0 == 0 then (0, new.1) else (new.0, record new.1 { ram = fill_page new.1.ram new.0 0 })

module _ (kernel_end : ℕ) where
  -- What `uvmunmap` does at one entry.
  unfoldable pub unmap_entry : (do_free : Bool) → Option ℕ → Kmem → Run Kmem
  unmap_entry do_free none k = panic
  unmap_entry do_free (some pte) k =
      panic_if (not (is_valid (entry k pte)))
      >> panic_if (pte_flags (entry k pte) == pte_v)
      >> (if do_free then kfree kernel_end (pte2pa (entry k pte)) k else ok k)
      >>= λ k'. ok (set_entry pte 0 k')

  -- The loop of `uvmunmap`, which counts as a panic if it outlasts its fuel.
  unfoldable pub unmap_loop :
      (fuel : ℕ) → (pagetable a end_ : ℕ) → (do_free : Bool) → Kmem → Run Kmem
  unmap_loop zero pagetable a end_ do_free k = panic
  unmap_loop (suc fuel) pagetable a end_ do_free k =
      if ltb a end_
      then (walk false pagetable a k >>= λ (r : Option ℕ × Kmem).
          unmap_entry do_free r.0 r.1 >>= λ k'.
          unmap_loop fuel pagetable (u64 (a + page_size)) end_ do_free k')
      else ok k

  unfoldable pub uvmunmap : (pagetable va npages : ℕ) → (do_free : Bool) → Kmem → Run Kmem
  uvmunmap pagetable va npages do_free k =
      panic_if (not (va % page_size == 0))
      >> unmap_loop (npages + 1) pagetable va (u64 (va + npages * page_size)) do_free k
