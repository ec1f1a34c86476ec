-- ===== src/Vm/Uvmunmap.antt =====
-- `uvmunmap` on a range of pages that are mapped.
use risc_v_operating_system.Base.{
  ℕ, zero, suc, ◌+◌, ◌*◌, ◌%◌, ◌≤◌, ◌<◌, ◌≡◌, refl, ap, Bool, true, false, ◌&&◌, List, arith, ltb,
  leb, ◌==◌, ok, ◌>>=◌, Safely, safely, Safely-bind, Safely-mono,
}
use risc_v_operating_system.Base.Word.{u64}
use risc_v_operating_system.Kalloc.{Kmem, page_size}
use risc_v_operating_system.Vm.{maxva, pte2pa, walk_loop, walk, unmap_entry, unmap_loop, uvmunmap}
use risc_v_operating_system.Vm.View.{part, view, Layout}
use risc_v_operating_system.Vm.Table.{IsTable, IsOnWay-root}
use risc_v_operating_system.Vm.Walk.{walk_loop-Found}
use risc_v_operating_system.Vm.Unmap.{Leaves, Owned, Apart, left, found-Round}
use risc_v_operating_system.Vm.Unmapping.{
  Unmapping, Unmapping-suc, later-Leaves, later-Owned, later-Apart,
}

module _ (kernel_end : ℕ) where
  unmap_loop-suc :
      (fuel root a end_ : ℕ) (do_free : Bool) (k : Kmem)
      → a < end_
      → a < maxva
      → (walk_loop 2 false root a k).1 ≡ k
      → unmap_loop kernel_end (suc fuel) root a end_ do_free k ≡ (
          unmap_entry kernel_end do_free (walk_loop 2 false root a k).0 k >>= λ k'.
          unmap_loop kernel_end fuel root (u64 (a + page_size)) end_ do_free k')
  unfolding unmap_loop walk
  unmap_loop-suc fuel root a end_ do_free k lt below same =
      let test : ltb a end_ ≡ true = ground arith in
      let low : leb maxva a ≡ false = ground arith in
      rw (test, low)
        (ap
          (λ x. unmap_entry kernel_end do_free (walk_loop 2 false root a k).0 x >>= λ k'.
            unmap_loop kernel_end fuel root (u64 (a + page_size)) end_ do_free k')
          same)

  unmap_loop_done :
      (fuel root a end_ : ℕ) (do_free : Bool) (k : Kmem)
      → a ≡ end_
      → unmap_loop kernel_end (suc fuel) root a end_ do_free k ≡ ok k
  unfolding unmap_loop
  unmap_loop_done fuel root a end_ do_free k e =
      let test : ltb a end_ ≡ false = ground arith in rw test refl

  pub Unmapping-none :
      (k : Kmem) (used : List ℕ) (root : ℕ) (t : Layout) (a : ℕ) (do_free : Bool)
      → IsTable kernel_end k used root t
      → Unmapping kernel_end k used root t a 0 do_free k
  Unmapping-none k used root t a do_free b = record {
    used' = used;
    table = b;
    views = λ va z.
        let out : (leb a va && ltb va (a + 0 * page_size)) ≡ false = ground arith in rw out refl;
    freed = λ va freeing le lt. absurd (omega arith);
    others = λ p other. refl;
  }

  unmap_loop-Unmapping :
      (n fuel root a end_ : ℕ) (do_free : Bool) (k : Kmem) (used : List ℕ) (t : Layout)
      → 0 < kernel_end
      → n < fuel
      → IsTable kernel_end k used root t
      → a % page_size ≡ 0
      → end_ ≡ a + n * page_size
      → end_ ≤ maxva
      → Leaves k root a n
      → (do_free ≡ true → Owned k used root t a n × Apart k root a n)
      → Safely
          (Unmapping kernel_end k used root t a n do_free)
          (unmap_loop kernel_end fuel root a end_ do_free k)
  unmap_loop-Unmapping n zero root a end_ do_free k used t low enough b aligned is_end fits leaves
        own =
      absurd (omega arith)
  unmap_loop-Unmapping zero (suc fuel) root a end_ do_free k used t low enough b aligned is_end fits
        leaves own =
      rw (unmap_loop_done fuel root a end_ do_free k (omega arith))
        (safely (Unmapping-none k used root t a do_free b))
  unmap_loop-Unmapping (suc n) (suc fuel) root a end_ do_free k used t low enough b aligned is_end
        fits leaves own =
      let z : part 3 a ≡ 0 = omega arith in
      let found =
        walk_loop-Found 2 root a k t (omega arith) b.tree
          (IsOnWay-root kernel_end k used root t a b z) in
      let here = leaves a (omega arith) (omega arith) in
      let next : u64 (a + page_size) ≡ a + page_size = omega arith in
      let room : a + suc n * page_size ≤ maxva = omega arith in
      rw (unmap_loop-suc fuel root a end_ do_free k (omega arith) (omega arith) found.0, next)
        (Safely-bind
          (found-Round kernel_end do_free k used root t a low b z here.0 here.1
            (λ freeing. (own freeing).0 a (omega arith) (omega arith)) _ found.1)
          (λ k1 step.
            Safely-mono
              (unmap_loop-Unmapping n fuel root (a + page_size) end_ do_free k1
                (left do_free (pte2pa (view 2 k.ram root a)) used) t low (omega arith) step.0
                (omega arith) (omega arith) fits
                (later-Leaves kernel_end k k1 used root t a n do_free b aligned room own step
                  leaves)
                (λ freeing. (
                  later-Owned kernel_end k k1 used root t a n do_free b aligned room own step
                      freeing,
                  later-Apart kernel_end k k1 used root t a n do_free b aligned room own step
                      freeing,
                )))
              (λ k' m.
                Unmapping-suc kernel_end k k1 used root t a n do_free b aligned room own step k'
                  m)))

-- In a page table, for whole pages below `MAXVA` that are all mapped by leaves, `uvmunmap` ends
-- without a panic and takes them out; every other page is mapped as before, and the same pages hold the
-- table. Where it also frees, the pages that they were mapped to must be different pages in use
-- without a table: these are then free, and all others in use are still so. Else all are.
pub uvmunmap-Unmapping :
    (kernel_end root va npages : ℕ) (do_free : Bool) (k : Kmem) (used : List ℕ) (t : Layout)
    → 0 < kernel_end
    → IsTable kernel_end k used root t
    → va % page_size ≡ 0
    → va + npages * page_size ≤ maxva
    → Leaves k root va npages
    → (do_free ≡ true → Owned k used root t va npages × Apart k root va npages)
    → Safely
        (Unmapping kernel_end k used root t va npages do_free)
        (uvmunmap kernel_end root va npages do_free k)
unfolding uvmunmap
uvmunmap-Unmapping kernel_end root va npages do_free k used t low b aligned fits leaves own =
    let test : (va % page_size == 0) ≡ true = ground arith in
    let last : u64 (va + npages * page_size) ≡ va + npages * page_size = omega arith in
    rw (test, last)
      (unmap_loop-Unmapping kernel_end npages (npages + 1) root va (va + npages * page_size) do_free
        k used t low (omega arith) b aligned refl fits leaves own)
