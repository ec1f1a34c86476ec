-- ===== src/Vm/Unmapping.antt =====
-- `uvmunmap`: a range of pages that is taken out of a page table.
use risc_v_operating_system.Base.{
  ℕ, suc, ◌+◌, ◌*◌, ◌%◌, ◌≤◌, ◌<◌, ◌≡◌, refl, sym, ap, ◌∙◌, ◌≢◌, ◌⊎◌, inl, inr, Bool, true, false,
  ◌&&◌, List, arith, ltb, leb, ◌==◌, if◌then◌else◌, Bool-cases, occurrences, remove,
  occurrences-remove,
}
use risc_v_operating_system.Kalloc.{Kmem, page_size}
use risc_v_operating_system.Vm.{maxva, pte2pa}
use risc_v_operating_system.Vm.View.{part, view, Layout}
use risc_v_operating_system.Vm.Table.{IsTable}
use risc_v_operating_system.Vm.Leaf.{view-page}
use risc_v_operating_system.Vm.Unmap.{Leaves, Owned, Apart, left, Round}

-- What a map has for an address after `n` pages from `a` on are taken out.
abbrev pub without : (a n : ℕ) → (ℕ → ℕ) → ℕ → ℕ
without a n before va = if leb a va && ltb va (a + n * page_size) then 0 else before va

without-suc :
    (a n : ℕ) (f f' : ℕ → ℕ) (va : ℕ)
    → a % page_size ≡ 0
    → f' va ≡ (if part 0 a == part 0 va then 0 else f va)
    → without (a + page_size) n f' va ≡ without a (suc n) f va
without-suc a n f f' va aligned e = elim (Bool-cases (part 0 a == part 0 va)) [
  | inl here ↦
      let out : (leb (a + page_size) va && ltb va (a + page_size + n * page_size)) ≡ false =
        ground arith in
      let in_ : (leb a va && ltb va (a + suc n * page_size)) ≡ true = ground arith in
      rw (out, in_, e, here) refl
  | inr other ↦
      let same : (leb (a + page_size) va && ltb va (a + page_size + n * page_size))
          ≡ (leb a va && ltb va (a + suc n * page_size)) =
        ground arith in
      rw (same, e, other) refl
]

module _ (kernel_end : ℕ) where
  -- What `uvmunmap` leaves: a page table without the pages of the range, and with every other page as
  -- before. The pages that the range was mapped to are free if `do_free` says so, and no other page is.
  pub record Unmapping (k : Kmem) (used : List ℕ) (root : ℕ) (t : Layout) (a n : ℕ) (do_free : Bool)
      (k' : Kmem) : Type 0 where
    pub used' : List ℕ
    pub table : IsTable kernel_end k' used' root t
    pub views :
        (va : ℕ) → part 3 va ≡ 0 → view 2 k'.ram root va ≡ without a n (view 2 k.ram root) va
    pub freed :
        (va : ℕ)
        → do_free ≡ true
        → a ≤ va
        → va < a + n * page_size
        → occurrences (pte2pa (view 2 k.ram root va)) used' ≡ 0
    pub others :
        (p : ℕ)
        → (do_free ≡ false)
          ⊎ ((va : ℕ) → a ≤ va → va < a + n * page_size → pte2pa (view 2 k.ram root va) ≢ p)
        → occurrences p used' ≡ occurrences p used

  -- the page of a range that is unmapped first, and the rest
  module _ (k k1 : Kmem) (used : List ℕ) (root : ℕ) (t : Layout) (a n : ℕ) (do_free : Bool)
      (b : IsTable kernel_end k used root t) (aligned : a % page_size ≡ 0)
      (fits : a + suc n * page_size ≤ maxva)
      (own : do_free ≡ true → Owned k used root t a (suc n) × Apart k root a (suc n))
      (step : Round kernel_end k
        (left do_free (pte2pa (view 2 k.ram root a)) used)
        root
        t
        a
        k1) where
    abbrev first : ℕ
    first = pte2pa (view 2 k.ram root a)

    later_view :
        (va : ℕ)
        → a + page_size ≤ va
        → va < a + page_size + n * page_size
        → view 2 k1.ram root va ≡ view 2 k.ram root va
    later_view va le lt =
        let other : (part 0 a == part 0 va) ≡ false = ground arith in
        let e = step.1 va (omega arith) in e ∙ ap (λ c. if c then 0 else view 2 k.ram root va) other

    later_ne :
        (va : ℕ)
        → do_free ≡ true
        → a + page_size ≤ va
        → va < a + page_size + n * page_size
        → pte2pa (view 2 k.ram root va) ≢ first
    later_ne va freeing le lt e =
        (own freeing).1 a va (omega arith) (omega arith) (omega arith) (omega arith) (sym e)

    left_other :
        (p : ℕ)
        → (do_free ≡ false) ⊎ (first ≢ p)
        → occurrences p (left do_free first used) ≡ occurrences p used
    left_other p other = elim (Bool-cases do_free) [
      | inr keeping ↦ rw keeping refl
      | inl freeing ↦
          let o = ((own freeing).0 a (omega arith) (omega arith)).0 in
          let ne : first ≢ p = λ e. elim other [ inl keeping ↦ absurd (cc) | inr d ↦ d e ] in
          let count : occurrences p (remove first used) ≡ occurrences p used =
            ground (arith, occurrences-remove p first used o) in
          rw freeing count
    ]

    left_first : do_free ≡ true → occurrences first (left do_free first used) ≡ 0
    left_first freeing =
        let o = ((own freeing).0 a (omega arith) (omega arith)).0 in
        rw freeing (ground (arith, occurrences-remove first first used o, b.sound.exclusive first))

    pub Unmapping-suc :
        (k' : Kmem)
        → Unmapping k1 (left do_free first used) root t (a + page_size) n do_free k'
        → Unmapping k used root t a (suc n) do_free k'
    Unmapping-suc k' m = record {
      used' = m.used';
      table = m.table;
      views = λ va z.
          m.views va z
          ∙ without-suc a n (view 2 k.ram root) (view 2 k1.ram root) va aligned (step.1 va z);
      freed = λ va freeing le lt. elim (Bool-cases (ltb va (a + page_size))) [
        | inl here ↦
            let near : va < a + page_size = ground arith in
            let same = ap pte2pa (view-page 2 k.ram root va a (omega arith)) in
            rw same (
              m.others first (
                inr (λ va' le' lt' e.
                  later_ne va' freeing le' lt' (sym (ap pte2pa (later_view va' le' lt')) ∙ e)))
              ∙ left_first freeing)
        | inr later ↦
            let le' : a + page_size ≤ va = ground arith in
            let lt' : va < a + page_size + n * page_size = omega arith in
            ap (λ x. occurrences (pte2pa x) m.used') (sym (later_view va le' lt'))
            ∙ m.freed va freeing le' lt'
      ];
      others = λ p other.
          m.others p (elim other [
            | inl keeping ↦ inl keeping
            | inr ne ↦ inr (λ va le lt e.
                ne va (omega arith) (omega arith) (sym (ap pte2pa (later_view va le lt)) ∙ e))
          ])
          ∙ left_other p (elim other [
            | inl keeping ↦ inl keeping
            | inr ne ↦ inr (ne a (omega arith) (omega arith))
          ]);
    }

    -- the range without its first page is again one that can be unmapped
    pub later-Leaves : Leaves k root a (suc n) → Leaves k1 root (a + page_size) n
    later-Leaves leaves va le lt =
        let e = later_view va le lt in let l = leaves va (omega arith) (omega arith) in rw e l

    pub later-Owned : do_free ≡ true → Owned k1 (left do_free first used) root t (a + page_size) n
    later-Owned freeing va le lt =
        let e = later_view va le lt in
        let o = (own freeing).0 va (omega arith) (omega arith) in
        let count =
          left_other (pte2pa (view 2 k.ram root va))
            (inr (λ d. later_ne va freeing le lt (sym d))) in
        rw e (omega (arith, count, o.0), o.1)

    pub later-Apart : do_free ≡ true → Apart k1 root (a + page_size) n
    later-Apart freeing va va' le between lt ne e =
        (own freeing).1 va va' (omega arith) between (omega arith) ne (
          sym (ap pte2pa (later_view va le (omega arith)))
          ∙ e
          ∙ ap pte2pa (later_view va' (omega arith) lt))
