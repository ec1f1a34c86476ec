-- ===== src/Vm/Fresh.antt =====
-- A new page beside a page table, and the entry that maps it.
use risc_v_operating_system.Base.{
  ℕ, ◌+◌, ◌/◌, ◌%◌, ◌<◌, ◌≡◌, refl, ap, ◌∙◌, ◌≢◌, inl, inr, true, List, ◌∷◌, arith, ◌==◌,
  Bool-cases, occurrences,
}
use risc_v_operating_system.Base.Word.{bit}
use risc_v_operating_system.Kalloc.{Kmem, page_size, fill_page, kalloc}
use risc_v_operating_system.Kalloc.Chain.{is_page, fill_page-ne}
use risc_v_operating_system.Kalloc.Own.{kalloc-new, fill_page-Sound, kalloc-ram}
use risc_v_operating_system.Vm.{pte_flags, pte_v, is_user}
use risc_v_operating_system.Vm.View.{part, view, Layout, view-frame}
use risc_v_operating_system.Vm.Table.{IsTable, IsTable-IsAligned, IsOnWay-root}
use risc_v_operating_system.Vm.Entry.{is_user-perm}
use risc_v_operating_system.Vm.Map.{leaf_entry}
use risc_v_operating_system.Vm.Free.{SameTables, IsTree-frame}
use risc_v_operating_system.Vm.Space.{user_perm}

-- what a leaf open to processes has among its flags
user-no_table : (pte : ℕ) → is_user pte ≡ true → pte_flags pte ≢ pte_v
unfolding bit
user-no_table pte user e = absurd (ground arith)

pub leaf_entry-flags : (pa : ℕ) → pte_flags (leaf_entry pa user_perm) ≢ pte_v
unfolding bit
leaf_entry-flags pa = user-no_table (leaf_entry pa user_perm) (is_user-perm pa user_perm)

module _ (kernel_end : ℕ) where
  -- what `kalloc` and `memset` leave to a page table
  pub record NewPage (k : Kmem) (used : List ℕ) (root : ℕ) (t : Layout) (mem : ℕ) (k' : Kmem)
      : Type 0 where
    pub page : is_page kernel_end mem ≡ true
    pub unused : occurrences mem used ≡ 0
    pub no_table : t.height mem ≡ 0
    pub table : IsTable kernel_end k' (mem ∷ used) root t
    pub views : (va : ℕ) → part 3 va ≡ 0 → view 2 k'.ram root va ≡ view 2 k.ram root va

  pub kalloc-NewPage :
      (k : Kmem) (used : List ℕ) (root : ℕ) (t : Layout)
      → 0 < kernel_end
      → IsTable kernel_end k used root t
      → (kalloc k).0 ≢ 0
      → NewPage k used root t
          (kalloc k).0
          (record (kalloc k).1 { ram = fill_page (kalloc k).1.ram (kalloc k).0 0 })
  kalloc-NewPage k used root t low b nz = elim (kalloc-new kernel_end k used b.sound) [
    | inl out ↦ absurd (nz out.0)
    | inr got ↦
        let mem = (kalloc k).0 in
        let k1 = (kalloc k).1 in
        let ram = fill_page k1.ram mem 0 in
        let apart : (c : ℕ) → t.height c ≢ 0 → mem ≢ c = λ c h e.
          let o = b.owned c h in
          let same = ap (λ x. occurrences x used) e in omega (arith, same, got.1) in
        let aligned : mem % page_size ≡ 0 = ground (arith, got.0) in
        let same : SameTables t k.ram ram = λ c i h lt.
          let c_aligned = IsTable-IsAligned kernel_end k used root t b c h in
          let ne = apart c h in
          fill_page-ne k1.ram mem 0 (c / 8 + i) aligned (omega arith)
          ∙ ap (λ f. f (c / 8 + i)) (kalloc-ram k nz)
          ∙ fill_page-ne k.ram mem 5 (c / 8 + i) aligned (omega arith) in
        record {
          page = got.0;
          unused = got.1;
          no_table = elim (Bool-cases (t.height mem == 0)) [
            | inl z ↦ ground arith
            | inr h ↦ absurd (apart mem (ground arith) refl)
          ];
          table = record {
            sound = fill_page-Sound kernel_end k1 (mem ∷ used) mem 0 got.2 (ground arith);
            tree = IsTree-frame k.ram ram t b.tree same;
            owned = λ c h. let o = b.owned c h in omega arith;
            top = b.top;
          };
          views = λ va z.
              view-frame k.ram ram t 2 root va b.tree (IsOnWay-root kernel_end k used root t va b z)
                same;
        }
  ]
