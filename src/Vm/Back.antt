-- ===== src/Vm/Back.antt =====
-- A page that could not be mapped is given back.
use mathlib.Core.Path.{subst}
use risc_v_operating_system.Base.{
  ℕ, suc, ◌+◌, ◌*◌, ◌%◌, ◌≤◌, ◌<◌, ◌≡◌, ap, ◌∙◌, inl, inr, true, false, ◌&&◌, List, ◌∷◌, arith, ltb,
  leb, ◌==◌, Bool-cases, occurrences, remove, occurrences-remove, Safely,
}
use risc_v_operating_system.Kalloc.{Kmem, page_size}
use risc_v_operating_system.Kalloc.Chain.{is_page}
use risc_v_operating_system.Vm.{maxva, pte2pa, is_valid, page_round_down, mappages}
use risc_v_operating_system.Vm.View.{part, view, Layout, view-frame}
use risc_v_operating_system.Vm.Table.{IsTable, IsOnWay-root}
use risc_v_operating_system.Vm.Mapping.{Unmapped, Mapping}
use risc_v_operating_system.Vm.Mappages.{page_count, mappages-Mapping}
use risc_v_operating_system.Vm.Leaf.{view-page}
use risc_v_operating_system.Vm.Free.{Kept}
use risc_v_operating_system.Vm.Space.{user_perm}
use risc_v_operating_system.Vm.Fresh.{NewPage}
use risc_v_operating_system.Vm.Extend.{Extended}

-- `mappages` of one page
pub map_one :
    (kernel_end root : ℕ) (k : Kmem) (used : List ℕ) (t : Layout) (a mem : ℕ)
    → 0 < kernel_end
    → IsTable kernel_end k used root t
    → a % page_size ≡ 0
    → a + page_size ≤ maxva
    → is_page kernel_end mem ≡ true
    → is_valid (view 2 k.ram root a) ≡ false
    → Safely
        (λ (r : ℕ × Kmem). Mapping kernel_end k used root t a 1 mem user_perm r.0 r.1)
        (mappages root a page_size mem user_perm k)
map_one kernel_end root k used t a mem low b aligned fits page free =
    let down : page_round_down a ≡ a = omega arith in
    let one_page : page_count a page_size ≡ 1 = omega arith in
    let maps : (u c : ℕ) → Type 0 = λ u c.
      Unmapped k root u c
      → Safely (λ (r : ℕ × Kmem). Mapping kernel_end k used root t u c mem user_perm r.0 r.1)
          (mappages root a page_size mem user_perm k) in
    subst (λ u. maps u 1) down
      (subst (λ c. maps (page_round_down a) c) one_page
        (mappages-Mapping kernel_end root user_perm k used t a page_size mem low b (omega arith)
          fits (ground arith)))
      (λ va le lt. ap is_valid (view-page 2 k.ram root va a (omega arith)) ∙ free)

module _ (kernel_end root old : ℕ) (k0 : Kmem) (used0 : List ℕ) (n : ℕ) (k k1 k2 k3 : Kmem)
    (mem r : ℕ) (aligned : old % page_size ≡ 0) (fits : old + suc n * page_size ≤ maxva)
    (x : Extended kernel_end root old k0 used0 n k)
    (new : NewPage kernel_end k x.used root x.layout mem k1)
    (m : Mapping kernel_end k1
      (mem ∷ x.used)
      root
      x.layout
      (old + n * page_size)
      1
      mem
      user_perm
      r
      k2)
    (nothing : m.count ≡ 0) (kept : Kept kernel_end k2 (remove mem m.used') root m.layout k3) where
  same_view : (va : ℕ) → part 3 va ≡ 0 → view 2 k3.ram root va ≡ view 2 k.ram root va
  same_view va z =
      let a = old + n * page_size in
      let out : (leb a va && ltb va (a + m.count * page_size)) ≡ false = ground (arith, nothing) in
      view-frame k2.ram k3.ram m.layout 2 root va m.table.tree
        (IsOnWay-root kernel_end k2 m.used' root m.layout va m.table z) kept.1
      ∙ m.views va z
      ∙ rw out (new.views va z)

  still_in_use : (p : ℕ) → 0 < occurrences p x.used → 0 < occurrences p (remove mem m.used')
  still_in_use p h =
      let here : 0 < occurrences p (mem ∷ x.used) = omega (arith, h) in
      let mem_here : 0 < occurrences mem m.used' =
        (let o : 0 < occurrences mem (mem ∷ x.used) = ground arith in
          omega (arith, m.grows mem, o)) in
      let ne : (p == mem) ≡ false = elim (Bool-cases (p == mem)) [
        | inr other ↦ other
        | inl e ↦
            let same : p ≡ mem = ground arith in
            let c = ap (λ q. occurrences q x.used) same in absurd (omega (arith, c, h, new.unused))
      ] in
      ground (arith, occurrences-remove p mem m.used' mem_here, m.grows p, here, ne)

  pub Extended-back : Extended kernel_end root old k0 used0 n k3
  Extended-back = record {
    used = remove mem m.used';
    layout = m.layout;
    table = kept.0;
    views = λ va z out. same_view va z ∙ x.views va z out;
    leaves = λ va le lt. let e = same_view va (omega arith) in let l = x.leaves va le lt in rw e l;
    owned = λ va le lt.
        let e = same_view va (omega arith) in
        let o = x.owned va le lt in
        let p = pte2pa (view 2 k.ram root va) in
        let here : 0 < occurrences p (mem ∷ x.used) = omega (arith, o.0) in
        rw e (still_in_use p o.0, (m.keeps p 0 here o.1 (omega arith)).0);
    apart = λ va va' le between lt ne.
        let e = same_view va (omega arith) in
        let e' = same_view va' (omega arith) in
        let d = x.apart va va' le between lt ne in rw (e, e') d;
    fresh = λ va le lt. let e = same_view va (omega arith) in let l = x.fresh va le lt in rw e l;
    grows = λ p.
        let mem_here : 0 < occurrences mem m.used' =
          (let o : 0 < occurrences mem (mem ∷ x.used) = ground arith in
            omega (arith, m.grows mem, o)) in
        omega (arith, x.grows p, m.grows p, occurrences-remove p mem m.used' mem_here);
  }
