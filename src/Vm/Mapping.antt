-- ===== src/Vm/Mapping.antt =====
-- `mappages`: what a range of pages maps to, and how the loop ends.
use risc_v_operating_system.Base.{
  ℕ, suc, ◌+◌, ◌*◌, ◌/◌, ◌%◌, ◌≤◌, ◌<◌, ◌≡◌, refl, ap, ◌∙◌, ◌⊎◌, inl, inr, true, false, ◌&&◌, List,
  arith, ltb, leb, ◌==◌, if◌then◌else◌, occurrences,
}
use risc_v_operating_system.Kalloc.{Kmem, page_size}
use risc_v_operating_system.Kalloc.Chain.{is_page}
use risc_v_operating_system.Vm.{maxva, is_valid, set_entry, minus_one}
use risc_v_operating_system.Vm.View.{part, view, Layout}
use risc_v_operating_system.Vm.Table.{IsTable}
use risc_v_operating_system.Vm.Reach.{Exhausted, Reached}
use risc_v_operating_system.Vm.Leaf.{set_entry-view, set_entry-contents}
use risc_v_operating_system.Vm.Map.{leaf_entry, remapped, remapped-suc}

-- No page of the range is mapped.
abbrev pub Unmapped : Kmem → (root a n : ℕ) → Type 0
Unmapped k root a n =
    (va : ℕ) → a ≤ va → va < a + n * page_size → is_valid (view 2 k.ram root va) ≡ false

module _ (kernel_end : ℕ) where
  -- What `mappages` leaves: a table that maps the first `count` pages of the range, and every other
  -- page as before. Either these are all, or no page is left for a table. Pages in use keep their
  -- contents, but for tables.
  pub record Mapping (k : Kmem) (used : List ℕ) (root : ℕ) (t : Layout) (a n pa perm r : ℕ)
      (k' : Kmem) : Type 0 where
    pub used' : List ℕ
    pub layout : Layout
    pub table : IsTable kernel_end k' used' root layout
    pub count : ℕ
    pub views :
        (va : ℕ)
        → part 3 va ≡ 0
        → view 2 k'.ram root va ≡ remapped a count pa perm (view 2 k.ram root) va
    pub outcome :
        ((r ≡ 0) × (count ≡ n))
        ⊎ ((r ≡ minus_one)
            × (count < n)
            × ((p : ℕ) → is_page kernel_end p ≡ true → occurrences p used' ≡ 1))
    pub grows : (p : ℕ) → occurrences p used ≤ occurrences p used'
    pub keeps :
        (p i : ℕ)
        → 0 < occurrences p used
        → t.height p ≡ 0
        → i < 512
        → (layout.height p ≡ 0) × (k'.ram (p / 8 + i) ≡ k.ram (p / 8 + i))

  pub Mapping-none :
      (k k' : Kmem) (used : List ℕ) (root : ℕ) (t : Layout) (a n pa perm limit : ℕ)
      → Exhausted kernel_end k used root t limit k'
      → Mapping k used root t a (suc n) pa perm minus_one k'
  Mapping-none k k' used root t a n pa perm limit x = record {
    used' = x.grew.used';
    layout = x.grew.layout;
    table = x.grew.table;
    count = 0;
    views = λ va z.
        let out : (leb a va && ltb va (a + 0 * page_size)) ≡ false = ground arith in
        rw out (x.grew.views va z);
    outcome = inr (refl, omega arith, x.full);
    grows = x.grew.grows;
    keeps = λ p i u h lt. ((x.grew.place p u).0 ∙ h, x.grew.keeps p i u (inl h) lt);
  }

  -- the page that a round maps
  module _ (k k1 : Kmem) (used : List ℕ) (root : ℕ) (t : Layout) (a pa perm p : ℕ)
      (aligned : a % page_size ≡ 0) (z : part 3 a ≡ 0)
      (x : Reached kernel_end k used root t 2 root a p k1) where
    abbrev pub stored : Kmem
    stored = set_entry p (leaf_entry pa perm) k1

    pub Mapping-some :
        (n r : ℕ) (k' : Kmem)
        → Mapping stored x.grew.used' root x.grew.layout
            (a + page_size)
            n
            (pa + page_size)
            perm
            r
            k'
        → Mapping k used root t a (suc n) pa perm r k'
    Mapping-some n r k' m =
        let s =
          set_entry-view kernel_end k1 x.grew.used' root x.grew.layout a p (leaf_entry pa perm)
            x.grew.table z x.slot in
        record {
          used' = m.used';
          layout = m.layout;
          table = m.table;
          count = suc m.count;
          views = λ va zva.
              m.views va zva
              ∙ remapped-suc a m.count pa perm (view 2 k.ram root) (view 2 stored.ram root) va
                  aligned
                  (s.1 va zva
                    ∙ ap (λ w. if part 0 a == part 0 va then leaf_entry pa perm else w)
                        (x.grew.views va zva));
          outcome = elim m.outcome [
            | inl all ↦ inl (all.0, ap suc all.1)
            | inr out ↦ inr (out.0, omega (arith, out.1), out.2)
          ];
          grows = λ q. omega (arith, x.grew.grows q, m.grows q);
          keeps = λ q i u h lt.
              let u' : 0 < occurrences q x.grew.used' = omega (arith, x.grew.grows q, u) in
              let h' = (x.grew.place q u).0 ∙ h in
              let rest = m.keeps q i u' h' lt in
              (
                rest.0,
                rest.1
                    ∙ set_entry-contents kernel_end k1 x.grew.used' root x.grew.layout a p
                        (leaf_entry pa perm) q i x.grew.table x.slot u' h' lt
                    ∙ x.grew.keeps q i u (inl h) lt,
              );
        }

    Mapping-done : Mapping k used root t a 1 pa perm 0 stored
    Mapping-done =
        let s =
          set_entry-view kernel_end k1 x.grew.used' root x.grew.layout a p (leaf_entry pa perm)
            x.grew.table z x.slot in
        Mapping-some 0 0 stored (record {
          used' = x.grew.used';
          layout = x.grew.layout;
          table = s.0;
          count = 0;
          views = λ va zva.
              let out : (leb (a + page_size) va && ltb va (a + page_size + 0 * page_size)) ≡ false =
                ground arith in
              rw out refl;
          outcome = inl (refl, refl);
          grows = λ q. omega arith;
          keeps = λ q i u h lt. (h, refl);
        })

    pub Mapping-last : (n : ℕ) → n ≡ 0 → Mapping k used root t a (suc n) pa perm 0 stored
    Mapping-last n e = rw e Mapping-done

    -- the next page is still unmapped
    pub stored-Unmapped :
        (n : ℕ)
        → IsTable kernel_end k used root t
        → a + suc n * page_size ≤ maxva
        → Unmapped k root a (suc n)
        → Unmapped stored root (a + page_size) n
    stored-Unmapped n b fits free va le lt =
        let s =
          set_entry-view kernel_end k1 x.grew.used' root x.grew.layout a p (leaf_entry pa perm)
            x.grew.table z x.slot in
        let zva : part 3 va ≡ 0 = omega arith in
        let other : (part 0 a == part 0 va) ≡ false = ground arith in
        let same : view 2 stored.ram root va ≡ view 2 k.ram root va =
          s.1 va zva
          ∙ ap (λ c. if c then leaf_entry pa perm else view 2 k1.ram root va) other
          ∙ x.grew.views va zva in
        ap is_valid same ∙ free va (omega arith) (omega arith)
