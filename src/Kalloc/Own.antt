-- ===== src/Kalloc/Own.antt =====
-- Who owns which page: each page of RAM is on the free list once, or is in use once.
use risc_v_operating_system.Base.{
  occurrences, remove, occurrences-remove, ℕ, ◌+◌, ◌/◌, ◌%◌, ◌<◌, ◌≡◌, refl, ◌∙◌, ◌≢◌, ◌↔◌, ◌⊎◌,
  inl, inr, true, false, ◌||◌, not, List, [], ◌∷◌, arith, ltb, leb, ◌==◌, if◌then◌else◌, Bool-cases,
  update, update_self, update_ne, ok, panic, Safely, safely,
}
use risc_v_operating_system.Kalloc.{Kmem, page_size, phystop, fill_page, kfree, kalloc}
use risc_v_operating_system.Kalloc.Chain.{is_page, IsChain, IsChain-frame, fill_page-ne}

module _ (kernel_end : ℕ) where
  -- Each page is in one of the lists, once, and nothing else is.
  abbrev pub Exclusive : List ℕ → List ℕ → Type 0
  Exclusive free used =
      (p : ℕ) → occurrences p free + occurrences p used ≡ (if is_page kernel_end p then 1 else 0)

  -- The free list is a list of pages, and each page is either in it or among those in use, once.
  pub record Sound (k : Kmem) (used : List ℕ) : Type 0 where
    pub free : List ℕ
    pub chain : IsChain k.ram k.freelist free
    pub exclusive : Exclusive free used

  -- the list after its first page is taken
  kalloc-Sound :
      (ram : ℕ → ℕ) (used : List ℕ) (r p : ℕ) (ps : List ℕ)
      → r ≡ p
      → IsChain ram (ram (p / 8)) ps
      → Exclusive (p ∷ ps) used
      → Sound (record { freelist = ram (r / 8); ram = fill_page ram r 5 }) (r ∷ used)
  kalloc-Sound ram used r p ps e c x = rw e (record {
    free = ps;
    chain =
        IsChain-frame ram (fill_page ram p 5) (ram (p / 8)) ps
          (λ q h. fill_page-ne ram p 5 (q / 8) (ground (arith, x p)) (ground (arith, x p, x q))) c;
    exclusive = λ q. ground (arith, x q);
  })

  -- what `kalloc` promises of its result
  abbrev pub IsAllocated : Kmem → List ℕ → ℕ × Kmem → Type 0
  IsAllocated k used (r, k') =
      ((r ≡ 0) × (k' ≡ k) × ((p : ℕ) → is_page kernel_end p ≡ true → occurrences p used ≡ 1))
      ⊎ ((is_page kernel_end r ≡ true) × (occurrences r used ≡ 0) × Sound k' (r ∷ used))

  kalloc-IsAllocated :
      (k : Kmem) (used free : List ℕ)
      → IsChain k.ram k.freelist free
      → Exclusive free used
      → IsAllocated k used (kalloc k)
  unfolding kalloc
  kalloc-IsAllocated k used [] c x =
      let none_left : (k.freelist == 0) ≡ true = ground arith in
      rw none_left (inl (refl, refl, λ p h. ground (arith, x p)))
  kalloc-IsAllocated k used (p ∷ ps) c x =
      let some_left : (k.freelist == 0) ≡ false = ground (arith, c.0, c.1) in
      rw some_left (
        inr (
          ground (arith, c.0, x k.freelist),
          ground (arith, c.0, x k.freelist),
          kalloc-Sound k.ram used k.freelist p ps c.0 c.2 x,
        ))

  -- Where each page is free or in use, `kalloc` returns 0 and changes nothing if all pages are in
  -- use. Otherwise it returns a page that nobody uses, and each page is again free or in use,
  -- with the new page among those in use.
  pub kalloc-new : (k : Kmem) (used : List ℕ) → Sound k used → IsAllocated k used (kalloc k)
  kalloc-new k used s = kalloc-IsAllocated k used s.free s.chain s.exclusive

  -- the list with a page put in front
  pub push-IsChain :
      (k : Kmem) (free : List ℕ) (p : ℕ)
      → p ≢ 0
      → p % page_size ≡ 0
      → ((q : ℕ) → 0 < occurrences q free → (q % page_size ≡ 0) × (q ≢ p))
      → IsChain k.ram k.freelist free
      → IsChain (update (fill_page k.ram p 1) (p / 8) k.freelist) p (p ∷ free)
  push-IsChain k free p nz a others c = (
    refl,
    nz,
    rw (update_self (fill_page k.ram p 1) (p / 8) k.freelist) (
        IsChain-frame k.ram (update (fill_page k.ram p 1) (p / 8) k.freelist) k.freelist free
          (λ q h.
            let o = others q h in
            update_ne (fill_page k.ram p 1) (p / 8) (q / 8) k.freelist (omega (arith, o.0, o.1))
            ∙ fill_page-ne k.ram p 1 (q / 8) a (omega (arith, o.0, o.1)))
          c),
  )

  -- `kfree` goes on to its list exactly with a page.
  pub kfree-page :
      (k : Kmem) (p : ℕ)
      → is_page kernel_end p ≡ true
      → kfree kernel_end p k
        ≡ ok (record { freelist = p; ram = update (fill_page k.ram p 1) (p / 8) k.freelist })
  unfolding kfree
  kfree-page k p h =
      let pass : (not (p % page_size == 0) || ltb p kernel_end || leb phystop p) ≡ false =
        ground arith in
      rw pass refl

  -- `kfree` panics exactly where its argument is not the address of a page between the end of the
  -- kernel and `PHYSTOP`.
  pub kfree-panic_iff :
      (k : Kmem) (p : ℕ) → (kfree kernel_end p k ≡ panic) ↔ (is_page kernel_end p ≡ false)
  unfolding kfree
  kfree-panic_iff k p = (
    λ e. elim (Bool-cases (is_page kernel_end p)) [
      | inl page ↦ ground (arith, kfree-page k p page)
      | inr no_page ↦ no_page
    ],
    λ no_page.
        let stop : (not (p % page_size == 0) || ltb p kernel_end || leb phystop p) ≡ true =
          ground arith in
        rw stop refl,
  )

  -- Where each page is free or in use and 0 is no page, a page in use can be freed without a
  -- panic, and each page is again free or in use, with the freed one among the free.
  pub kfree-used :
      (k : Kmem) (used : List ℕ) (p : ℕ)
      → 0 < kernel_end
      → Sound k used
      → 0 < occurrences p used
      → Safely (λ k'. Sound k' (remove p used)) (kfree kernel_end p k)
  kfree-used k used p low s h =
      let page : is_page kernel_end p ≡ true = ground (arith, s.exclusive p) in
      rw (kfree-page k p page) (
        safely (record {
          free = p ∷ s.free;
          chain =
              push-IsChain k s.free p (ground arith) (ground arith)
                (λ q in_use. (ground (arith, s.exclusive q), ground (arith, s.exclusive q)))
                s.chain;
          exclusive = λ q. ground (arith, s.exclusive q, occurrences-remove q p used h);
        }))

  -- A store into a page in use leaves every page free or in use as it was.
  pub store-Sound :
      (k : Kmem) (used : List ℕ) (p i v : ℕ)
      → Sound k used
      → 0 < occurrences p used
      → i / 512 ≡ p / page_size
      → Sound (record k { ram = update k.ram i v }) used
  store-Sound k used p i v s h inside = record {
    free = s.free;
    chain =
        IsChain-frame k.ram (update k.ram i v) k.freelist s.free
          (λ q in_list. update_ne k.ram i (q / 8) v (ground (arith, s.exclusive p, s.exclusive q)))
          s.chain;
    exclusive = s.exclusive;
  }

  -- So does a fill of one.
  pub fill_page-Sound :
      (k : Kmem) (used : List ℕ) (p v : ℕ)
      → Sound k used
      → 0 < occurrences p used
      → Sound (record k { ram = fill_page k.ram p v }) used
  fill_page-Sound k used p v s h = record {
    free = s.free;
    chain =
        IsChain-frame k.ram (fill_page k.ram p v) k.freelist s.free
          (λ q in_list.
            fill_page-ne k.ram p v (q / 8) (ground (arith, s.exclusive p))
              (ground (arith, s.exclusive p, s.exclusive q)))
          s.chain;
    exclusive = s.exclusive;
  }

-- What `kalloc` gives is filled with the byte 5, and no other word changes.
pub kalloc-ram : (k : Kmem) → (kalloc k).0 ≢ 0 → (kalloc k).1.ram ≡ fill_page k.ram (kalloc k).0 5
unfolding kalloc
kalloc-ram k some_page = elim (Bool-cases (k.freelist == 0)) [
  | inl z ↦ absurd (some_page (rw z refl))
  | inr nz ↦ rw nz refl
]
