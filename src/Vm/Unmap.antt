-- ===== src/Vm/Unmap.antt =====
-- `uvmunmap`: what a round of its loop leaves.
use risc_v_operating_system.Base.{
  ℕ, ◌+◌, ◌*◌, ◌≤◌, ◌<◌, ◌≡◌, refl, sym, ap, ◌∙◌, ◌≢◌, Bool, true, false, Option, none, some, List,
  arith, ◌==◌, if◌then◌else◌, occurrences, remove, Safely, safely, Safely-bind,
}
use mathlib.Core.Path.{subst}
use risc_v_operating_system.Base.Word.{bit-zero}
use risc_v_operating_system.Kalloc.{Kmem, page_size}
use risc_v_operating_system.Vm.{pte2pa, pte_flags, pte_v, is_valid, entry, set_entry, unmap_entry}
use risc_v_operating_system.Vm.View.{part, view, Layout, view-frame}
use risc_v_operating_system.Vm.Table.{IsTable, IsOnWay-root}
use risc_v_operating_system.Vm.Walk.{Slot, Found}
use risc_v_operating_system.Vm.Leaf.{set_entry-view}
use risc_v_operating_system.Vm.Free.{SameTables, Slot-frame, Kept, kfree-Kept}

-- The pages of the range are mapped.
abbrev pub Leaves : Kmem → (root a n : ℕ) → Type 0
Leaves k root a n =
    (va : ℕ)
    → a ≤ va
    → va < a + n * page_size
    → (is_valid (view 2 k.ram root va) ≡ true) × (pte_flags (view 2 k.ram root va) ≢ pte_v)

-- They are mapped to pages in use that hold no table.
abbrev pub Owned : Kmem → List ℕ → (root : ℕ) → Layout → (a n : ℕ) → Type 0
Owned k used root t a n =
    (va : ℕ)
    → a ≤ va
    → va < a + n * page_size
    → (0 < occurrences (pte2pa (view 2 k.ram root va)) used)
      × (t.height (pte2pa (view 2 k.ram root va)) ≡ 0)

-- They are mapped to different pages.
abbrev pub Apart : Kmem → (root a n : ℕ) → Type 0
Apart k root a n =
    (va va' : ℕ)
    → a ≤ va
    → va < va'
    → va' < a + n * page_size
    → part 0 va ≢ part 0 va'
    → pte2pa (view 2 k.ram root va) ≢ pte2pa (view 2 k.ram root va')

-- the pages in use after `pa` was freed, or not
abbrev pub left : (do_free : Bool) → (pa : ℕ) → List ℕ → List ℕ
left true pa used = remove pa used
left false pa used = used

module _ (kernel_end : ℕ) where
  -- one page unmapped
  abbrev pub Round : (k : Kmem) (used : List ℕ) (root : ℕ) (t : Layout) (a : ℕ) → Kmem → Type 0
  Round k used root t a k' =
      IsTable kernel_end k' used root t
      × ((va : ℕ)
          → part 3 va ≡ 0
          → view 2 k'.ram root va ≡ (if part 0 a == part 0 va then 0 else view 2 k.ram root va))

  Kept-view :
      (k k' : Kmem) (used used' : List ℕ) (root : ℕ) (t : Layout)
      → IsTable kernel_end k used root t
      → SameTables t k.ram k'.ram
      → (va : ℕ) → part 3 va ≡ 0
      → view 2 k'.ram root va ≡ view 2 k.ram root va
  Kept-view k k' used used' root t b same va z =
      view-frame k.ram k'.ram t 2 root va b.tree (IsOnWay-root kernel_end k used root t va b z) same

  Kept-Round :
      (k k' : Kmem) (used used' : List ℕ) (root : ℕ) (t : Layout) (a p : ℕ)
      → IsTable kernel_end k used root t
      → part 3 a ≡ 0
      → Slot k.ram t 2 root a p
      → Kept kernel_end k used' root t k'
      → Round k used' root t a (set_entry p 0 k')
  Kept-Round k k' used used' root t a p b z s kept =
      let slot =
        Slot-frame k.ram k'.ram t 2 root a p b.tree (IsOnWay-root kernel_end k used root t a b z)
          kept.1 s in
      let e = set_entry-view kernel_end k' used' root t a p 0 kept.0 z slot in
      (
        e.0,
        λ va zva.
            e.1 va zva
            ∙ ap (λ x. if part 0 a == part 0 va then 0 else x)
                (Kept-view k k' used used' root t b kept.1 va zva),
      )

  unmap_entry-Round :
      (do_free : Bool) (k : Kmem) (used : List ℕ) (root : ℕ) (t : Layout) (a p : ℕ)
      → 0 < kernel_end
      → IsTable kernel_end k used root t
      → part 3 a ≡ 0
      → Slot k.ram t 2 root a p
      → is_valid (entry k p) ≡ true
      → pte_flags (entry k p) ≢ pte_v
      → (do_free ≡ true
          → (0 < occurrences (pte2pa (entry k p)) used) × (t.height (pte2pa (entry k p)) ≡ 0))
      → Safely
          (Round k (left do_free (pte2pa (entry k p)) used) root t a)
          (unmap_entry kernel_end do_free (some p) k)
  unfolding unmap_entry
  unmap_entry-Round false k used root t a p low b z s valid leaf own =
      let test : (pte_flags (entry k p) == pte_v) ≡ false = ground arith in
      rw (valid, test) (safely (Kept-Round k k used used root t a p b z s (b, λ c i h lt. refl)))
  unmap_entry-Round true k used root t a p low b z s valid leaf own =
      let test : (pte_flags (entry k p) == pte_v) ≡ false = ground arith in
      let o = own refl in
      rw (valid, test)
        (Safely-bind (kfree-Kept kernel_end k used root t (pte2pa (entry k p)) low b o.0 o.1)
          (λ k' kept.
            safely (Kept-Round k k' used (remove (pte2pa (entry k p)) used) root t a p b z s kept)))

  -- what the round does at the entry that `walk` finds
  pub found-Round :
      (do_free : Bool) (k : Kmem) (used : List ℕ) (root : ℕ) (t : Layout) (a : ℕ)
      → 0 < kernel_end
      → IsTable kernel_end k used root t
      → part 3 a ≡ 0
      → is_valid (view 2 k.ram root a) ≡ true
      → pte_flags (view 2 k.ram root a) ≢ pte_v
      → (do_free ≡ true
          → (0 < occurrences (pte2pa (view 2 k.ram root a)) used)
            × (t.height (pte2pa (view 2 k.ram root a)) ≡ 0))
      → (r : Option ℕ) → Found k t 2 root a r
      → Safely
          (Round k (left do_free (pte2pa (view 2 k.ram root a)) used) root t a)
          (unmap_entry kernel_end do_free r k)
  found-Round do_free k used root t a low b z valid leaf own none f =
      let clash : false ≡ true = sym (bit-zero 0) ∙ sym (ap is_valid f) ∙ valid in absurd (cc)
  found-Round do_free k used root t a low b z valid leaf own (some p) f =
      let e = sym f.1 in
      subst
        (λ x.
          Safely (Round k (left do_free (pte2pa x) used) root t a)
            (unmap_entry kernel_end do_free (some p) k))
        f.1
        (unmap_entry-Round do_free k used root t a p low b z f.0 (ap is_valid f.1 ∙ valid)
          (λ x. leaf (ap pte_flags e ∙ x))
          (subst
            (λ x. do_free ≡ true → (0 < occurrences (pte2pa x) used) × (t.height (pte2pa x) ≡ 0)) e
            own))
