-- ===== src/Vm/Create.antt =====
-- `uvmcreate`: a page table without entries.
use risc_v_operating_system.Base.{
  ℕ, ◌+◌, ◌/◌, ◌%◌, ◌<◌, ◌≡◌, refl, sym, ap, ◌∙◌, ◌⊎◌, inl, inr, true, false, List, ◌∷◌, arith,
  ◌==◌, Bool-cases, occurrences, update, update_self, update_ne,
}
use risc_v_operating_system.Base.Word.{bit-zero}
use risc_v_operating_system.Kalloc.{Kmem, fill_page, kalloc}
use risc_v_operating_system.Kalloc.Chain.{is_page, fill-inside}
use risc_v_operating_system.Kalloc.Own.{Sound, kalloc-new, fill_page-Sound}
use risc_v_operating_system.Vm.{is_valid, uvmcreate}
use risc_v_operating_system.Vm.View.{part, view, Layout}
use risc_v_operating_system.Vm.Table.{IsTable}
use risc_v_operating_system.Vm.Walk.{view-none}

abbrev pub no_height : ℕ → ℕ
no_height p = 0

-- the page `root` as a table, and no others
abbrev pub only : (root : ℕ) → Layout
only root = record { height = update no_height root 3; prefix = λ p. 0 }

empty_word : (ram : ℕ → ℕ) (p i : ℕ) → i < 512 → fill_page ram p 0 (p / 8 + i) ≡ 0
unfolding fill_page
empty_word ram p i lt = fill-inside ram (p / 8) 512 0 (p / 8 + i) (omega arith) (omega arith)

module _ (kernel_end : ℕ) where
  -- what `uvmcreate` returns
  abbrev pub IsCreated : Kmem → List ℕ → ℕ × Kmem → Type 0
  IsCreated k used (r, k') =
      ((r ≡ 0) × (k' ≡ k) × ((p : ℕ) → is_page kernel_end p ≡ true → occurrences p used ≡ 1))
      ⊎ ((occurrences r used ≡ 0)
          × IsTable kernel_end k' (r ∷ used) r (only r)
          × ((va : ℕ) → view 2 k'.ram r va ≡ 0))

  -- Where each page is free or in use, `uvmcreate` returns 0 and changes nothing if all pages are in
  -- use. Otherwise it returns a page that nobody used, now a page table that maps no address.
  pub uvmcreate-IsCreated :
      (k : Kmem) (used : List ℕ)
      → 0 < kernel_end
      → Sound kernel_end k used
      → IsCreated k used (uvmcreate k)
  unfolding uvmcreate
  uvmcreate-IsCreated k used low s = elim (kalloc-new kernel_end k used s) [
    | inl out ↦ rw out.0 (inl (refl, out.1, out.2))
    | inr got ↦
        let r = (kalloc k).0 in
        let ram = fill_page (kalloc k).1.ram r 0 in
        let test : (r == 0) ≡ false = ground arith in
        let word : (i : ℕ) → i < 512 → is_valid (ram (r / 8 + i)) ≡ false =
          λ i lt. ap is_valid (empty_word (kalloc k).1.ram r i lt) ∙ bit-zero 0 in
        rw test (
          inr (
            got.1,
            record {
              sound = fill_page-Sound kernel_end (kalloc k).1 (r ∷ used) r 0 got.2 (ground arith);
              tree = λ p i high lt valid. elim (Bool-cases (r == p)) [
                | inl e ↦
                    let same : p ≡ r = ground arith in
                    let clash =
                      sym (word i lt) ∙ ap (λ x. is_valid (ram (x / 8 + i))) (sym same) ∙ valid in
                    absurd (cc)
                | inr ne ↦
                    let h = update_ne no_height r p 3 (ground arith) in
                    absurd (omega (arith, h, high))
              ];
              owned = λ p h. elim (Bool-cases (r == p)) [
                | inl e ↦ ground arith
                | inr ne ↦ absurd (h (update_ne no_height r p 3 (ground arith)))
              ];
              top = (update_self no_height r 3, refl);
            },
            λ va. view-none 1 ram r va (word (part 2 va % 512) (omega arith)),
          ))
  ]
