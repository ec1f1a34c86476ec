-- ===== src/Kalloc/Init.antt =====
-- `kinit`: all pages from the end of the kernel on become free.
use risc_v_operating_system.Base.{
  occurrences, ℕ, zero, suc, ◌+◌, ◌*◌, ◌/◌, ◌%◌, ◌≤◌, ◌<◌, ◌≡◌, inl, inr, true, ◌&&◌, List, [], ◌∷◌,
  arith, ltb, leb, if◌then◌else◌, Bool-cases, Safely, safely, Safely-bind,
}
use risc_v_operating_system.Kalloc.{Kmem, page_size, phystop, kfree, free_loop, freerange, kinit}
use risc_v_operating_system.Base.Word.{u64}
use risc_v_operating_system.Kalloc.Round.{page_round_up_lem}
use risc_v_operating_system.Kalloc.Chain.{is_page, IsChain}
use risc_v_operating_system.Kalloc.Own.{Sound, push-IsChain, kfree-page}

module _ (kernel_end : ℕ) where
  -- The free list holds the pages below `p`, once each.
  record FreeBelow (p : ℕ) (k : Kmem) : Type 0 where
    free : List ℕ
    chain : IsChain k.ram k.freelist free
    counted : (q : ℕ) → occurrences q free ≡ (if is_page kernel_end q && ltb q p then 1 else 0)

  kfree-FreeBelow :
      (p : ℕ) (k : Kmem)
      → 0 < kernel_end
      → is_page kernel_end p ≡ true
      → FreeBelow p k
      → Safely (FreeBelow (p + page_size)) (kfree kernel_end p k)
  kfree-FreeBelow p k low page f = rw (kfree-page kernel_end k p page) (
      safely (record {
        free = p ∷ f.free;
        chain =
            push-IsChain kernel_end k f.free p (ground arith) (ground arith)
              (λ q h. (ground (arith, f.counted q), ground (arith, f.counted q))) f.chain;
        counted = λ q. ground (arith, f.counted q);
      }))

  free_loop-Sound :
      (fuel p : ℕ) (k : Kmem)
      → 0 < kernel_end
      → p % page_size ≡ 0
      → kernel_end ≤ p
      → p ≤ phystop
      → phystop / page_size < p / page_size + fuel
      → FreeBelow p k
      → Safely (λ k'. Sound kernel_end k' []) (free_loop kernel_end phystop fuel p k)
  unfolding free_loop
  free_loop-Sound zero p k low a above below enough f = absurd (omega arith)
  free_loop-Sound (suc fuel) p k low a above below enough f =
      let next : u64 (p + page_size) ≡ p + page_size = omega arith in
      elim (Bool-cases (leb (p + page_size) phystop)) [
        | inl more ↦
            rw (next, more)
              (Safely-bind (kfree-FreeBelow p k low (ground arith) f) (λ k' f'.
                free_loop-Sound fuel (p + page_size) k' low (omega arith) (omega arith)
                  (ground arith) (omega arith) f'))
        | inr last ↦
            rw (next, last)
              (safely (record {
                free = f.free;
                chain = f.chain;
                exclusive = λ q. ground (arith, f.counted q);
              }))
      ]

  -- If the kernel ends below `PHYSTOP`, and the free list is empty, `kinit` returns without a panic,
  -- whatever RAM holds, and then each page between the two is on the free list once and none is
  -- in use.
  pub kinit-Sound :
      (k : Kmem)
      → 0 < kernel_end
      → kernel_end ≤ phystop
      → k.freelist ≡ 0
      → Safely (λ k'. Sound kernel_end k' []) (kinit kernel_end k)
  unfolding kinit freerange
  kinit-Sound k low high none_yet =
      let first = page_round_up_lem kernel_end (omega arith) in
      rw first (
        free_loop-Sound (phystop / page_size + 1) ((kernel_end + 4095) / 4096 * 4096) k low
          (omega arith) (omega arith) (omega arith) (omega arith)
          (record { free = []; chain = none_yet; counted = λ q. ground arith }))
