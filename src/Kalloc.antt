-- ===== src/Kalloc.antt =====
-- kernel/kalloc.c: the allocator of physical pages, whose free list runs through the free pages.
-- `kmem.lock` makes each list operation one step; it is not a field here. An address is a number
-- of bytes, and RAM is read and written in words of 8 bytes: word `a / 8` is the one at `a`.
pub mod Round
pub mod Chain
pub mod Own
pub mod Init
mod Tests
use risc_v_operating_system.Base.{
  ℕ, zero, suc, ◌+◌, ◌-◌, ◌*◌, ◌/◌, ◌%◌, ◌^◌, ◌≤◌, ◌<◌, ◌≡◌, refl, Bool, true, false, ◌&&◌, ◌||◌,
  not, ltb, leb, ◌==◌, if◌then◌else◌, update, Run, ok, panic, ◌>>=◌, ◌>>◌, panic_if,
}
use risc_v_operating_system.Base.Word.{u64, land, lnot}

abbrev pub page_size : ℕ
page_size = 4096

-- `PHYSTOP`
abbrev pub phystop : ℕ
phystop = 0x8000_0000 + 128 * 1024 * 1024

-- `kmem`, with all of RAM: `freelist` is 0 or the address of a free page, whose first word is the
-- next such address.
pub record Kmem : Type 0 where
  pub freelist : ℕ
  pub ram : ℕ → ℕ

-- `PGROUNDUP`
unfoldable pub page_round_up : ℕ → ℕ
page_round_up a = land 64 (u64 (a + page_size - 1)) (lnot 64 (page_size - 1))

-- `memset` on whole words: `n` words from word `first` on become `v`.
unfoldable pub fill : (ℕ → ℕ) → (first n v : ℕ) → ℕ → ℕ
fill ram first zero v = ram
fill ram first (suc n) v = update (fill ram first n v) (first + n) v

-- `memset(pa, c, PGSIZE)`: each word holds the byte `c` eight times.
unfoldable pub fill_page : (ℕ → ℕ) → (pa c : ℕ) → ℕ → ℕ
fill_page ram pa c = fill ram (pa / 8) (page_size / 8) (c * 0x0101_0101_0101_0101)

-- `kernel_end` is the address `end` of the linker script.
module _ (kernel_end : ℕ) where
  unfoldable pub kfree : ℕ → Kmem → Run Kmem
  kfree pa k =
      panic_if (not (pa % page_size == 0) || ltb pa kernel_end || leb phystop pa)
      >> ok (
          let junk = fill_page k.ram pa 1 in
          record { freelist = pa; ram = update junk (pa / 8) k.freelist })

  -- The loop of `freerange`; one that outlasts its fuel counts as a panic.
  unfoldable pub free_loop : (pa_end fuel p : ℕ) → Kmem → Run Kmem
  free_loop pa_end zero p k = panic
  free_loop pa_end (suc fuel) p k =
      if leb (u64 (p + page_size)) pa_end
      then (kfree p k >>= λ k'. free_loop pa_end fuel (u64 (p + page_size)) k')
      else ok k

  -- Each round is a page, so that there are at most `pa_end / PGSIZE` of them, and a last test.
  unfoldable pub freerange : (pa_start pa_end : ℕ) → Kmem → Run Kmem
  freerange pa_start pa_end k = free_loop pa_end (pa_end / page_size + 1) (page_round_up pa_start) k

  unfoldable pub kinit : Kmem → Run Kmem
  kinit k = freerange kernel_end phystop k

-- the page's address, or 0
unfoldable pub kalloc : Kmem → ℕ × Kmem
kalloc k = if k.freelist == 0 then (0, k) else (
  k.freelist,
  record { freelist = k.ram (k.freelist / 8); ram = fill_page k.ram k.freelist 5 },
)
