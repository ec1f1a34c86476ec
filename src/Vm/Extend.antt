-- ===== src/Vm/Extend.antt =====
-- `uvmalloc`: the pages that it has added.
use risc_v_operating_system.Base.{
  ℕ, suc, ◌+◌, ◌-◌, ◌*◌, ◌/◌, ◌%◌, ◌≤◌, ◌<◌, ◌≡◌, ap, ◌∙◌, ◌⊎◌, inl, inr, true, false, ◌&&◌, List,
  ◌∷◌, arith, ltb, leb, if◌then◌else◌, Bool-cases, occurrences,
}
use risc_v_operating_system.Base.Word.{lor}
use risc_v_operating_system.Kalloc.{Kmem, page_size}
use risc_v_operating_system.Vm.{maxva, pa2pte, pte2pa}
use risc_v_operating_system.Vm.View.{part, view, Layout}
use risc_v_operating_system.Vm.Table.{IsTable}
use risc_v_operating_system.Vm.Entry.{pte2pa-pa2pte, is_valid-pte_v}
use risc_v_operating_system.Vm.Map.{leaf_entry}
use risc_v_operating_system.Vm.Mapping.{Mapping}
use risc_v_operating_system.Vm.Unmap.{Leaves, Owned, Apart}
use risc_v_operating_system.Vm.Space.{user_perm}
use risc_v_operating_system.Vm.Fresh.{leaf_entry-flags, NewPage}

module _ (kernel_end root old : ℕ) (k0 : Kmem) (used0 : List ℕ) where
  -- A page table that has `n` pages more than the one in `k0`, from `old` on. They are different pages
  -- in use, which were not in use before and hold no table, and all else is mapped as it was. Pages in use
  -- are still so.
  pub record Extended (n : ℕ) (k : Kmem) : Type 0 where
    pub used : List ℕ
    pub layout : Layout
    pub table : IsTable kernel_end k used root layout
    pub views :
        (va : ℕ)
        → part 3 va ≡ 0
        → (va < old) ⊎ (old + n * page_size ≤ va)
        → view 2 k.ram root va ≡ view 2 k0.ram root va
    pub leaves : Leaves k root old n
    pub owned : Owned k used root layout old n
    pub apart : Apart k root old n
    pub fresh :
        (va : ℕ)
        → old ≤ va
        → va < old + n * page_size
        → occurrences (pte2pa (view 2 k.ram root va)) used0 ≡ 0
    pub grows : (p : ℕ) → occurrences p used0 ≤ occurrences p used

  -- one page more
  module _ (n : ℕ) (k k1 k2 : Kmem) (mem r : ℕ) (aligned : old % page_size ≡ 0)
      (fits : old + suc n * page_size ≤ maxva) (x : Extended n k)
      (new : NewPage kernel_end k x.used root x.layout mem k1)
      (m : Mapping kernel_end k1
        (mem ∷ x.used)
        root
        x.layout
        (old + n * page_size)
        1
        mem
        user_perm
        r
        k2)
      (all : m.count ≡ 1) where
    view-old :
        (va : ℕ)
        → part 3 va ≡ 0
        → (va < old + n * page_size) ⊎ (old + suc n * page_size ≤ va)
        → view 2 k2.ram root va ≡ view 2 k.ram root va
    view-old va z out =
        let a = old + n * page_size in
        let test : (leb a va && ltb va (a + m.count * page_size)) ≡ false = ground (arith, all) in
        m.views va z
        ∙ ap
            (λ c.
              if c
              then leaf_entry (mem + (va - a) / page_size * page_size) user_perm
              else view 2 k1.ram root va)
            test
        ∙ new.views va z

    view-new :
        (va : ℕ)
        → old + n * page_size ≤ va
        → va < old + suc n * page_size
        → view 2 k2.ram root va ≡ leaf_entry mem user_perm
    view-new va le lt =
        let a = old + n * page_size in
        let test : (leb a va && ltb va (a + m.count * page_size)) ≡ true = ground (arith, all) in
        let first : mem + (va - a) / page_size * page_size ≡ mem = omega arith in
        m.views va (omega arith)
        ∙ ap
            (λ c.
              if c
              then leaf_entry (mem + (va - a) / page_size * page_size) user_perm
              else view 2 k1.ram root va)
            test
        ∙ ap (λ p. leaf_entry p user_perm) first

    new_address : pte2pa (leaf_entry mem user_perm) ≡ mem
    new_address =
        pte2pa-pa2pte mem user_perm (ground (arith, new.page)) (ground (arith, new.page))
          (omega arith)

    -- an old page, or the new one
    old_page :
        (va : ℕ)
        → old ≤ va
        → va < old + n * page_size
        → view 2 k2.ram root va ≡ view 2 k.ram root va
    old_page va le lt = view-old va (omega arith) (inl lt)

    pub Extended-suc : Extended (suc n) k2
    Extended-suc = record {
      used = m.used';
      layout = m.layout;
      table = m.table;
      views = λ va z out.
          view-old va z (elim out [ inl before ↦ inl (omega arith) | inr behind ↦ inr behind ])
          ∙ x.views va z (elim out [ inl before ↦ inl before | inr behind ↦ inr (omega arith) ]);
      leaves = λ va le lt. elim (Bool-cases (ltb va (old + n * page_size))) [
        | inl before ↦
            let e = old_page va le (ground arith) in let l = x.leaves va le (ground arith) in rw e l
        | inr behind ↦
            let e = view-new va (ground arith) lt in
            rw e (is_valid-pte_v (lor 64 (pa2pte mem) user_perm), leaf_entry-flags mem)
      ];
      owned = λ va le lt. elim (Bool-cases (ltb va (old + n * page_size))) [
        | inl before ↦
            let e = old_page va le (ground arith) in
            let o = x.owned va le (ground arith) in
            let p = pte2pa (view 2 k.ram root va) in
            let here : 0 < occurrences p (mem ∷ x.used) = omega (arith, o.0) in
            rw e (omega (arith, m.grows p, here), (m.keeps p 0 here o.1 (omega arith)).0)
        | inr behind ↦
            let e = ap pte2pa (view-new va (ground arith) lt) ∙ new_address in
            let here : 0 < occurrences mem (mem ∷ x.used) = ground arith in
            rw e
              (omega (arith, m.grows mem, here), (m.keeps mem 0 here new.no_table (omega arith)).0)
      ];
      apart = λ va va' le between lt ne. elim (Bool-cases (ltb va' (old + n * page_size))) [
        | inl before ↦
            let e = old_page va le (ground arith) in
            let e' = old_page va' (omega arith) (ground arith) in
            let d = x.apart va va' le between (ground arith) ne in rw (e, e') d
        | inr behind ↦
            let near : old + n * page_size ≤ va' = ground arith in
            let lt' : va < old + n * page_size = omega arith in
            let e = old_page va le lt' in
            let e' = ap pte2pa (view-new va' (ground arith) lt) ∙ new_address in
            let o = (x.owned va le lt').0 in
            rw (e, e')
              (λ same.
                let c = ap (λ p. occurrences p x.used) same in omega (arith, c, o, new.unused))
      ];
      fresh = λ va le lt. elim (Bool-cases (ltb va (old + n * page_size))) [
        | inl before ↦
            let e = old_page va le (ground arith) in let l = x.fresh va le (ground arith) in rw e l
        | inr behind ↦
            let e = ap pte2pa (view-new va (ground arith) lt) ∙ new_address in
            rw e (omega (arith, x.grows mem, new.unused))
      ];
      grows = λ p. omega (arith, x.grows p, m.grows p);
    }
