-- ===== src/Vm/Leaf.antt =====
-- A store to the entry that `walk` found, and what the hardware's view of the table becomes.
use risc_v_operating_system.Base.{
  ℕ, zero, suc, ◌+◌, ◌/◌, ◌%◌, ◌<◌, ◌≡◌, refl, sym, ap, ◌∙◌, ◌≢◌, inl, inr, List, arith, ◌==◌,
  if◌then◌else◌, Bool-cases, occurrences, update, update_ne,
}
use risc_v_operating_system.Kalloc.{Kmem, page_size}
use risc_v_operating_system.Kalloc.Own.{store-Sound}
use risc_v_operating_system.Vm.{pte2pa, is_valid, set_entry}
use risc_v_operating_system.Vm.View.{part, view, Layout, IsTree}
use risc_v_operating_system.Vm.Store.{leaf_word, IsAligned, view-store_same, view-store_other}
use risc_v_operating_system.Vm.Table.{IsTable, page_of, IsTable-IsAligned, IsOnWay-root}
use risc_v_operating_system.Vm.Walk.{Slot, Slot-word}

-- addresses on the same page
pub view-page :
    (level : ℕ) (ram : ℕ → ℕ) (p va va' : ℕ)
    → part 0 va ≡ part 0 va'
    → view level ram p va ≡ view level ram p va'
unfolding view
view-page zero ram p va va' e = ap (λ x. ram (p / 8 + x % 512)) e
view-page (suc level) ram p va va' e =
    let w = part-page (suc level) va va' e in
    rw w (elim (Bool-cases (is_valid (ram (p / 8 + part (suc level) va' % 512)))) [
      | inr invalid ↦ rw invalid refl
      | inl valid ↦
          rw valid
            (view-page level ram (pte2pa (ram (p / 8 + part (suc level) va' % 512))) va va' e)
    ])
  where
    part-page : (level va va' : ℕ) → part 0 va ≡ part 0 va' → part level va ≡ part level va'
    part-page zero va va' e = e
    part-page (suc level) va va' e = ap (λ x. x / 512) (part-page level va va' e)

-- A table of leaves has no entries that lead on.
IsTree-store :
    (ram : ℕ → ℕ) (t : Layout) (q va v : ℕ)
    → IsTree ram t
    → IsAligned t
    → t.height q ≡ 1
    → IsTree (update ram (leaf_word q va) v) t
IsTree-store ram t q va v tree aligned low p i high lt valid =
    let ap_ = aligned p (omega arith) in
    let aq = aligned q (omega (arith, low)) in
    let ne : leaf_word q va ≢ p / 8 + i = λ e.
      let same : p ≡ q = omega (arith, e) in let h = ap t.height same in omega (arith, h, low) in
    let word = update_ne ram (leaf_word q va) (p / 8 + i) v ne in
    let c = tree p i high lt (ap is_valid (sym word) ∙ valid) in rw word c

module _ (kernel_end : ℕ) where
  -- A store to the entry that was found changes the view of the page of `va`, and of no other.
  pub set_entry-view :
      (k : Kmem) (used : List ℕ) (root : ℕ) (t : Layout) (va a v : ℕ)
      → IsTable kernel_end k used root t
      → part 3 va ≡ 0
      → (s : Slot k.ram t 2 root va a)
      → IsTable kernel_end (set_entry a v k) used root t
        × ((va' : ℕ)
            → part 3 va' ≡ 0
            → view 2 (set_entry a v k).ram root va'
              ≡ (if part 0 va == part 0 va' then v else view 2 k.ram root va'))
  set_entry-view k used root t va a v b z s =
      let aligned = IsTable-IsAligned kernel_end k used root t b in
      let low = s.way.0 in
      let word = Slot-word s in
      let inside : leaf_word s.leaf va / 512 ≡ s.leaf / page_size =
        let x = aligned s.leaf (omega (arith, low)) in omega arith in
      rw word (
        record {
          sound =
              store-Sound kernel_end k used s.leaf (leaf_word s.leaf va) v b.sound
                (b.owned s.leaf (omega (arith, low))) inside;
          tree = IsTree-store k.ram t s.leaf va v b.tree aligned low;
          owned = b.owned;
          top = b.top;
        },
        λ va' z'. elim (Bool-cases (part 0 va == part 0 va')) [
          | inl e ↦
              let same : part 0 va ≡ part 0 va' = ground arith in
              rw e (
                view-page 2 (update k.ram (leaf_word s.leaf va) v) root va' va (sym same)
                ∙ view-store_same k.ram t 2 root va s.leaf v b.tree aligned
                    (IsOnWay-root kernel_end k used root t va b z) low s.leads)
          | inr e ↦ rw e (
              view-store_other k.ram t 2 root va va' s.leaf v b.tree aligned
                (IsOnWay-root kernel_end k used root t va' b z') low s.way.1 (ground arith))
        ],
      )

  -- Pages in use that are no tables keep their contents.
  pub set_entry-contents :
      (k : Kmem) (used : List ℕ) (root : ℕ) (t : Layout) (va a v p i : ℕ)
      → IsTable kernel_end k used root t
      → Slot k.ram t 2 root va a
      → 0 < occurrences p used
      → t.height p ≡ 0
      → i < 512
      → (set_entry a v k).ram (p / 8 + i) ≡ k.ram (p / 8 + i)
  set_entry-contents k used root t va a v p i b s in_use no_table lt =
      let low = s.way.0 in
      let word = Slot-word s in
      let aligned = IsTable-IsAligned kernel_end k used root t b s.leaf (omega (arith, low)) in
      let page = page_of kernel_end k used p b.sound in_use in
      let p_aligned : p % page_size ≡ 0 = ground arith in
      update_ne k.ram (a / 8) (p / 8 + i) v (λ e.
        let same : s.leaf ≡ p = omega (arith, e, word) in
        let h = ap t.height same in omega (arith, h, no_table, low))
