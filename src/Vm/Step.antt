-- ===== src/Vm/Step.antt =====
-- A round of `walk` that allocates a table.
use mathlib.Core.Path.{subst}
use risc_v_operating_system.Base.{
  ℕ, ◌+◌, ◌-◌, ◌*◌, ◌/◌, ◌%◌, ◌≤◌, ◌<◌, ◌≡◌, refl, sym, ap, ◌∙◌, ◌≢◌, ◌⊎◌, inl, inr, true, false,
  Option, none, some, List, ◌∷◌, arith, ◌==◌, Bool-cases, occurrences, update, update_self,
  update_ne,
}
use risc_v_operating_system.Base.Word.{lor}
use risc_v_operating_system.Kalloc.{Kmem, page_size, fill_page, kalloc}
use risc_v_operating_system.Kalloc.Chain.{is_page, fill-inside, fill_page-ne}
use risc_v_operating_system.Kalloc.Own.{Sound, kalloc-new, fill_page-Sound, store-Sound, kalloc-ram}
use risc_v_operating_system.Vm.{pa2pte, pte2pa, pte_v, is_valid, entry, walk_step}
use risc_v_operating_system.Vm.Entry.{pte2pa-pa2pte_table, is_valid-pte_v}
use risc_v_operating_system.Vm.View.{Layout}
use risc_v_operating_system.Vm.Grow.{grown, Grown, view-Grown, IsTree-Grown}
use risc_v_operating_system.Vm.Table.{IsTable, page_of, IsTable-IsAligned, IsOnWay-root, Grew}

-- the memory after a new table `q` is put below the word `i`
abbrev pub with_table : Kmem → (q i : ℕ) → Kmem
with_table k q i = record k { ram = update (fill_page k.ram q 0) i (lor 64 (pa2pte q) pte_v) }

zeros_in : (ram : ℕ → ℕ) (q j : ℕ) → j < 512 → fill_page ram q 0 (q / 8 + j) ≡ 0
unfolding fill_page
zeros_in ram q j lt = fill-inside ram (q / 8) 512 0 (q / 8 + j) (omega arith) (omega arith)

other_word_same :
    (k k1 : Kmem) (p i q c j : ℕ)
    → p % page_size ≡ 0
    → q % page_size ≡ 0
    → c % page_size ≡ 0
    → i < 512
    → j < 512
    → c ≢ q
    → (c ≢ p) ⊎ (j ≢ i)
    → k1.ram ≡ fill_page k.ram q 5
    → (with_table k1 q (p / 8 + i)).ram (c / 8 + j) ≡ k.ram (c / 8 + j)
other_word_same k k1 p i q c j ap_ aq ac ilt jlt ne other filled =
    let apart : p / 8 + i ≢ c / 8 + j =
      λ e. elim other [ inl n ↦ n (omega arith) | inr n ↦ n (omega arith) ] in
    update_ne (fill_page k1.ram q 0) (p / 8 + i) (c / 8 + j) (lor 64 (pa2pte q) pte_v) apart
    ∙ fill_page-ne k1.ram q 0 (c / 8 + j) aq (omega arith)
    ∙ ap (λ f. f (c / 8 + j)) filled
    ∙ fill_page-ne k.ram q 5 (c / 8 + j) aq (omega arith)

module _ (kernel_end : ℕ) where
  -- what a new page and a store to entry `i` of `p` make of memory
  alloc-Grown :
      (k k1 : Kmem) (used : List ℕ) (root : ℕ) (t : Layout) (p i q : ℕ)
      → IsTable kernel_end k used root t
      → 2 ≤ t.height p
      → i < 512
      → is_valid (k.ram (p / 8 + i)) ≡ false
      → is_page kernel_end q ≡ true
      → occurrences q used ≡ 0
      → k1.ram ≡ fill_page k.ram q 5
      → Grown k.ram (with_table k1 q (p / 8 + i)).ram t p i q
  alloc-Grown k k1 used root t p i q b high lt invalid page fresh filled =
      let w = p / 8 + i in
      let v = lor 64 (pa2pte q) pte_v in
      let ram1 = fill_page k1.ram q 0 in
      let aligned_q : q % page_size ≡ 0 = ground arith in
      let aligned = IsTable-IsAligned kernel_end k used root t b in
      let apart : (c : ℕ) → t.height c ≢ 0 → c ≢ q =
        λ c h e. let o = b.owned c h in let same = ap (λ x. occurrences x used) e in omega arith in
      let p_ne_q = apart p (omega arith) in
      let p_aligned = aligned p (omega arith) in
      record {
        high = high;
        index = lt;
        new = elim (Bool-cases (t.height q == 0)) [
          | inl z ↦ ground arith
          | inr nz ↦ absurd (apart q (ground arith) refl)
        ];
        was_invalid = invalid;
        valid = ap is_valid (update_self ram1 w v) ∙ is_valid-pte_v (pa2pte q);
        leads =
            ap pte2pa (update_self ram1 w v) ∙ pte2pa-pa2pte_table q (omega arith) (ground arith);
        zeros = λ j jlt. update_ne ram1 w (q / 8 + j) v (omega arith) ∙ zeros_in k1.ram q j jlt;
        others = λ c j hc jlt other.
            other_word_same k k1 p i q c j p_aligned aligned_q (aligned c hc) lt jlt (apart c hc)
              other filled;
      }

  -- A new table below entry `i` of `p`.
  pub record Added (k : Kmem) (used : List ℕ) (root : ℕ) (t : Layout) (p i q : ℕ) (k' : Kmem)
      : Type 0 where
    pub grew : Grew kernel_end k used root t (t.height p) k'
    pub valid : is_valid (k'.ram (p / 8 + i)) ≡ true
    pub leads : pte2pa (k'.ram (p / 8 + i)) ≡ q

  with_table-Added :
      (k k1 : Kmem) (used : List ℕ) (root : ℕ) (t : Layout) (p i q : ℕ)
      → IsTable kernel_end k used root t
      → 2 ≤ t.height p
      → i < 512
      → is_valid (k.ram (p / 8 + i)) ≡ false
      → is_page kernel_end q ≡ true
      → occurrences q used ≡ 0
      → k1.ram ≡ fill_page k.ram q 5
      → Sound kernel_end k1 (q ∷ used)
      → Added k used root t p i q (with_table k1 q (p / 8 + i))
  with_table-Added k k1 used root t p i q b high lt invalid page fresh filled s =
      let g = alloc-Grown k k1 used root t p i q b high lt invalid page fresh filled in
      let owned_p = b.owned p (omega arith) in
      let new_ne : (c : ℕ) → 0 < occurrences c used → q ≢ c =
        λ c h e. let same = ap (λ x. occurrences x used) e in omega (arith, same) in
      let aligned : (c : ℕ) → 0 < occurrences c used → c % page_size ≡ 0 =
        λ c h. let pg = page_of kernel_end k used c b.sound h in ground arith in
      record {
        grew = record {
          used' = q ∷ used;
          layout = grown t p i q;
          table = record {
            sound =
                store-Sound kernel_end (record k1 { ram = fill_page k1.ram q 0 }) (q ∷ used) p
                  (p / 8 + i) (lor 64 (pa2pte q) pte_v)
                  (fill_page-Sound kernel_end k1 (q ∷ used) q 0 s (ground arith)) (omega arith)
                  (let x = aligned p owned_p in omega arith);
            tree = IsTree-Grown k.ram (with_table k1 q (p / 8 + i)).ram t p i q b.tree g;
            owned = λ c h. elim (Bool-cases (c == q)) [
              | inl e ↦ ground arith
              | inr ne ↦
                  let old = update_ne t.height q c (t.height p - 1) (ground arith) in
                  let o = b.owned c (λ z. h (old ∙ z)) in omega arith
            ];
            top =
                (let r = b.top.0 in
                  let ne = new_ne root (b.owned root (omega arith)) in
                  (
                    update_ne t.height q root (t.height p - 1) ne ∙ r,
                    update_ne t.prefix q root (t.prefix p * 512 + i) ne ∙ b.top.1,
                  ));
          };
          views = λ va z.
              view-Grown k.ram (with_table k1 q (p / 8 + i)).ram t p i q 2 root va b.tree g
                (IsOnWay-root kernel_end k used root t va b z);
          grows = λ c. omega arith;
          place = λ c h. (
            update_ne t.height q c (t.height p - 1) (new_ne c h),
            update_ne t.prefix q c (t.prefix p * 512 + i) (new_ne c h),
          );
          keeps = λ c j h l jlt.
              other_word_same k k1 p i q c j (aligned p owned_p) (ground arith) (aligned c h) lt jlt
                (λ e. new_ne c h (sym e))
                (inl (λ e.
                  let same = ap t.height e in
                  elim l [ inl z ↦ omega arith | inr gt ↦ omega arith ]))
                filled;
        };
        valid = g.valid;
        leads = g.leads;
      }

  -- what a round of `walk` leaves where the entry is not valid
  abbrev pub Stepped :
      (k : Kmem) (used : List ℕ) (root : ℕ) (t : Layout) (p i : ℕ) → Option ℕ × Kmem → Type 0
  Stepped k used root t p i (none, k') =
      (k' ≡ k) × ((p : ℕ) → is_page kernel_end p ≡ true → occurrences p used ≡ 1)
  Stepped k used root t p i (some q, k') = Added k used root t p i q k'

  pub walk_step-Stepped :
      (k : Kmem) (used : List ℕ) (root : ℕ) (t : Layout) (p i pte : ℕ)
      → 0 < kernel_end
      → IsTable kernel_end k used root t
      → 2 ≤ t.height p
      → i < 512
      → pte / 8 ≡ p / 8 + i
      → is_valid (k.ram (p / 8 + i)) ≡ false
      → Stepped k used root t p i (walk_step true pte k)
  unfolding walk_step
  walk_step-Stepped k used root t p i pte low b high lt at_ invalid =
      let no_entry : is_valid (entry k pte) ≡ false = ap (λ x. is_valid (k.ram x)) at_ ∙ invalid in
      rw no_entry (elim (kalloc-new kernel_end k used b.sound) [
        | inl out ↦ rw out.0 (out.1, out.2)
        | inr got ↦
            let nz : (kalloc k).0 ≢ 0 = ground arith in
            let test : ((kalloc k).0 == 0) ≡ false = ground arith in
            rw test (
              subst
                (λ w. Added k used root t p i (kalloc k).0 (with_table (kalloc k).1 (kalloc k).0 w))
                (sym at_)
                (with_table-Added k (kalloc k).1 used root t p i (kalloc k).0 b high lt invalid
                  got.0 got.1 (kalloc-ram k nz) got.2))
      ])
