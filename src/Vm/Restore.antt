-- ===== src/Vm/Restore.antt =====
-- `uvmdealloc` after pages were added.
use mathlib.Core.Path.{subst}
use risc_v_operating_system.Base.{
  ℕ, ◌+◌, ◌*◌, ◌%◌, ◌≤◌, ◌<◌, ◌≡◌, refl, sym, ap, ◌∙◌, ◌⊎◌, inl, inr, true, false, ◌&&◌, List,
  arith, ltb, leb, ◌==◌, Bool-cases, occurrences, Safely, Safely-mono,
}
use risc_v_operating_system.Kalloc.{Kmem, page_size, page_round_up}
use risc_v_operating_system.Kalloc.Round.{page_round_up_lem}
use risc_v_operating_system.Vm.{maxva}
use risc_v_operating_system.Vm.View.{part, view, Layout}
use risc_v_operating_system.Vm.Table.{IsTable}
use risc_v_operating_system.Vm.Unmap.{Leaves, Owned, Apart}
use risc_v_operating_system.Vm.Unmapping.{Unmapping, without}
use risc_v_operating_system.Vm.Shrink.{uvmdealloc-Shrunk, pages_between}
use risc_v_operating_system.Vm.Space.{uvmdealloc}
use risc_v_operating_system.Vm.Extend.{Extended}

module _ (kernel_end root old a : ℕ) (k : Kmem) (used : List ℕ) (t : Layout) where
  -- `uvmdealloc` back to `old`, in terms of the first page `u` and the number `c` of pages
  abbrev Deallocates : (u c : ℕ) → Type 0
  Deallocates u c =
      Leaves k root u c
      → Owned k used root t u c
      → Apart k root u c
      → Safely
          (λ (r : ℕ × Kmem).
            ((a ≤ old) × (r.0 ≡ a) × (r.1 ≡ k))
            ⊎ ((old < a) × (r.0 ≡ old) × Unmapping kernel_end k used root t u c true r.1))
          (uvmdealloc kernel_end root a old k)

  uvmdealloc-Deallocates :
      (n : ℕ)
      → 0 < kernel_end
      → IsTable kernel_end k used root t
      → old % page_size ≡ 0
      → a ≡ old + n * page_size
      → a ≤ maxva
      → Deallocates old n
  uvmdealloc-Deallocates n low b aligned is_end fits =
      let up_old : page_round_up old ≡ old = page_round_up_lem old (omega arith) ∙ omega arith in
      let up_a : page_round_up a ≡ a = page_round_up_lem a (omega arith) ∙ omega arith in
      let count : pages_between old a ≡ n = omega (arith, up_old, up_a) in
      subst (λ u. Deallocates u n) up_old
        (subst (λ c. Deallocates (page_round_up old) c) count
          (uvmdealloc-Shrunk kernel_end k used root t a old low b fits (omega arith)))

module _ (kernel_end root old : ℕ) (k0 : Kmem) (used0 : List ℕ) where
  -- The page table maps every address as in `k0`, but for `n` pages that it does not map. Pages in use
  -- are still so.
  pub record Restored (n : ℕ) (k : Kmem) : Type 0 where
    pub used : List ℕ
    pub layout : Layout
    pub table : IsTable kernel_end k used root layout
    pub views :
        (va : ℕ) → part 3 va ≡ 0 → view 2 k.ram root va ≡ without old n (view 2 k0.ram root) va
    pub grows : (p : ℕ) → occurrences p used0 ≤ occurrences p used

  -- what `uvmdealloc` makes of pages that were added
  pub dealloc-Restored :
      (n a : ℕ) (k : Kmem)
      → 0 < kernel_end
      → old % page_size ≡ 0
      → a ≡ old + n * page_size
      → a ≤ maxva
      → Extended kernel_end root old k0 used0 n k
      → Safely (λ (r : ℕ × Kmem). Restored n r.1) (uvmdealloc kernel_end root a old k)
  dealloc-Restored n a k low aligned is_end fits x =
      let same : (va : ℕ)
          → part 3 va ≡ 0
          → without old n (view 2 k.ram root) va ≡ without old n (view 2 k0.ram root) va =
        λ va z. elim (Bool-cases (leb old va && ltb va (old + n * page_size))) [
          | inl inside ↦ rw inside refl
          | inr outside ↦ rw outside (
              x.views va z (elim (Bool-cases (ltb va old)) [
                | inl before ↦ inl (ground arith)
                | inr behind ↦ inr (ground arith)
              ]))
        ] in
      Safely-mono
        (uvmdealloc-Deallocates kernel_end root old a k x.used x.layout n low x.table aligned is_end
          fits x.leaves x.owned x.apart)
        (λ r s. elim s [
          | inl none_added ↦ record {
            used = x.used;
            layout = x.layout;
            table =
                subst (λ q. IsTable kernel_end q x.used root x.layout) (sym none_added.2) x.table;
            views = λ va z.
                let out : (leb old va && ltb va (old + n * page_size)) ≡ false =
                  ground (arith, none_added.0) in
                ap (λ q. view 2 q.ram root va) none_added.2
                ∙ x.views va z (elim (Bool-cases (ltb va old)) [
                  | inl before ↦ inl (ground arith)
                  | inr behind ↦ inr (ground (arith, none_added.0))
                ])
                ∙ rw out refl;
            grows = x.grows;
          }
          | inr freed ↦ record {
            used = freed.2.used';
            layout = x.layout;
            table = freed.2.table;
            views = λ va z. freed.2.views va z ∙ same va z;
            grows = λ p. elim (Bool-cases (occurrences p used0 == 0)) [
              | inl unused ↦ ground arith
              | inr in_use ↦
                  let e = freed.2.others p (
                    inr (λ va le lt e.
                      let f = x.fresh va le lt in
                      let c = ap (λ q. occurrences q used0) e in ground (arith, c, f, in_use))) in
                  omega (arith, e, x.grows p)
            ];
          }
        ])
