-- ===== src/Kalloc/Tests.antt =====
-- The allocator on a machine with two pages above the kernel.
use risc_v_operating_system.Base.{ℕ, ◌+◌, ◌/◌, ◌≡◌, refl, [], ◌∷◌, arith, update, ok, ◌>>=◌, Safely}
use risc_v_operating_system.Kalloc.{Kmem, kfree, kalloc}
use risc_v_operating_system.Kalloc.{kinit}
use risc_v_operating_system.Kalloc.Own.{Sound, IsAllocated, kalloc-new, store-Sound}
use risc_v_operating_system.Kalloc.Init.{kinit-Sound}

abbrev kernel_end : ℕ
kernel_end = 0x87ff_dff8

abbrev low : ℕ
low = 0x87ff_e000

abbrev high : ℕ
high = 0x87ff_f000

-- one page is free and one is in use
abbrev mem : Kmem
mem = record { freelist = low; ram = λ i. 0 }

mem-Sound : Sound kernel_end mem (high ∷ [])
mem-Sound = record {
  free = low ∷ [];
  chain = (refl, omega arith, refl);
  exclusive = λ q. ground arith;
}

kinit-Sound_example :
    Safely (λ k'. Sound kernel_end k' []) (kinit kernel_end (record { freelist = 0; ram = λ i. i }))
kinit-Sound_example =
    kinit-Sound kernel_end (record { freelist = 0; ram = λ i. i }) (omega arith) (omega arith) refl

kalloc-new_example : IsAllocated kernel_end mem (high ∷ []) (kalloc mem)
kalloc-new_example = kalloc-new kernel_end mem (high ∷ []) mem-Sound

-- A store into the page in use does not touch the free list.
store_in_used : Sound kernel_end (record mem { ram = update mem.ram (high / 8 + 5) 77 }) (high ∷ [])
store_in_used =
    store-Sound kernel_end mem (high ∷ []) high (high / 8 + 5) 77 mem-Sound (omega arith) refl

-- The page freed last is given out first.
last_freed_first : (kfree kernel_end high mem >>= λ k. ok (kalloc k).0) ≡ ok high
unfolding kfree kalloc
last_freed_first = refl
