-- ===== src/Vm/Table.antt =====
-- A page table among the pages in use, and how it grows.
use risc_v_operating_system.Base.{
  ℕ, ◌+◌, ◌/◌, ◌≤◌, ◌<◌, ◌≡◌, refl, sym, ◌∙◌, ◌≢◌, ◌⊎◌, inl, inr, true, List, arith, occurrences,
}
use risc_v_operating_system.Kalloc.{Kmem}
use risc_v_operating_system.Kalloc.Chain.{is_page}
use risc_v_operating_system.Kalloc.Own.{Sound}
use risc_v_operating_system.Vm.View.{part, view, Layout, IsTree, IsOnWay}
use risc_v_operating_system.Vm.Store.{IsAligned}

module _ (kernel_end : ℕ) where
  -- Each page is free or in use once, and the tables below `root` are pages in use.
  pub record IsTable (k : Kmem) (used : List ℕ) (root : ℕ) (t : Layout) : Type 0 where
    pub sound : Sound kernel_end k used
    pub tree : IsTree k.ram t
    pub owned : (p : ℕ) → t.height p ≢ 0 → 0 < occurrences p used
    pub top : (t.height root ≡ 3) × (t.prefix root ≡ 0)

  pub page_of :
      (k : Kmem) (used : List ℕ) (p : ℕ)
      → Sound kernel_end k used
      → 0 < occurrences p used
      → is_page kernel_end p ≡ true
  page_of k used p s h = ground (arith, s.exclusive p)

  pub IsTable-IsAligned :
      (k : Kmem) (used : List ℕ) (root : ℕ) (t : Layout) → IsTable k used root t → IsAligned t
  IsTable-IsAligned k used root t b p h =
      let page = page_of k used p b.sound (b.owned p h) in ground arith

  pub IsOnWay-root :
      (k : Kmem) (used : List ℕ) (root : ℕ) (t : Layout) (va : ℕ)
      → IsTable k used root t
      → part 3 va ≡ 0
      → IsOnWay t 2 root va
  IsOnWay-root k used root t va b z = (b.top.0, b.top.1 ∙ sym z)

  -- A table that has grown maps every address as before. Pages that were in use keep their place and
  -- their contents, but for tables of at most the given height.
  pub record Grew (k : Kmem) (used : List ℕ) (root : ℕ) (t : Layout) (limit : ℕ) (k' : Kmem)
      : Type 0 where
    pub used' : List ℕ
    pub layout : Layout
    pub table : IsTable k' used' root layout
    pub views : (va : ℕ) → part 3 va ≡ 0 → view 2 k'.ram root va ≡ view 2 k.ram root va
    pub grows : (p : ℕ) → occurrences p used ≤ occurrences p used'
    pub place :
        (p : ℕ)
        → 0 < occurrences p used
        → (layout.height p ≡ t.height p) × (layout.prefix p ≡ t.prefix p)
    pub keeps :
        (p i : ℕ)
        → 0 < occurrences p used
        → (t.height p ≡ 0) ⊎ (limit < t.height p)
        → i < 512
        → k'.ram (p / 8 + i) ≡ k.ram (p / 8 + i)

  abbrev pub grew_refl :
      (k : Kmem) (used : List ℕ) (root : ℕ) (t : Layout) (limit : ℕ)
      → IsTable k used root t
      → Grew k used root t limit k
  grew_refl k used root t limit b = record {
    used' = used;
    layout = t;
    table = b;
    views = λ va z. refl;
    grows = λ p. omega arith;
    place = λ p h. (refl, refl);
    keeps = λ p i h l lt. refl;
  }

  abbrev pub grew_trans :
      (k : Kmem) (used : List ℕ) (root : ℕ) (t : Layout) (limit low : ℕ) (k1 k2 : Kmem)
      → low ≤ limit
      → (g : Grew k used root t limit k1) → Grew k1 g.used' root g.layout low k2
      → Grew k used root t limit k2
  grew_trans k used root t limit low k1 k2 le g h = record {
    used' = h.used';
    layout = h.layout;
    table = h.table;
    views = λ va z. h.views va z ∙ g.views va z;
    grows = λ p. omega (arith, g.grows p, h.grows p);
    place = λ p in_use.
        let a = g.place p in_use in
        let b = h.place p (omega (arith, g.grows p, in_use)) in (b.0 ∙ a.0, b.1 ∙ a.1);
    keeps = λ p i in_use l lt.
        let a = g.place p in_use in
        let l' : (g.layout.height p ≡ 0) ⊎ (low < g.layout.height p) = elim l [
          | inl z ↦ inl (a.0 ∙ z)
          | inr gt ↦ inr (omega (arith, a.0))
        ] in
        h.keeps p i (omega (arith, g.grows p, in_use)) l' lt ∙ g.keeps p i in_use l lt;
  }
