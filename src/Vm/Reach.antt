-- ===== src/Vm/Reach.antt =====
-- `walk` with allocation.
use mathlib.Core.Path.{subst}
use risc_v_operating_system.Base.{
  ℕ, zero, suc, ◌+◌, ◌*◌, ◌/◌, ◌%◌, ◌≤◌, ◌<◌, ◌≡◌, refl, ap, ◌∙◌, inl, inr, true, Option, none,
  some, List, arith, Bool-cases, occurrences,
}
use risc_v_operating_system.Kalloc.{Kmem}
use risc_v_operating_system.Kalloc.Chain.{is_page}
use risc_v_operating_system.Vm.{pte2pa, is_valid, px, entry, walk_step, walk_loop}
use risc_v_operating_system.Vm.View.{part, Layout, IsOnWay, IsOnWay-child}
use risc_v_operating_system.Vm.Table.{IsTable, Grew, grew_refl, grew_trans}
use risc_v_operating_system.Vm.Step.{Added, Stepped, walk_step-Stepped}
use risc_v_operating_system.Vm.Walk.{slot_word, Slot, next_round, walk_loop-suc, walk_step-valid}

module _ (kernel_end : ℕ) where
  -- No page is left.
  pub record Exhausted (k : Kmem) (used : List ℕ) (root : ℕ) (t : Layout) (limit : ℕ) (k' : Kmem)
      : Type 0 where
    pub grew : Grew kernel_end k used root t limit k'
    pub full : (p : ℕ) → is_page kernel_end p ≡ true → occurrences p grew.used' ≡ 1

  -- The entry is there.
  pub record Reached (k : Kmem) (used : List ℕ) (root : ℕ) (t : Layout) (level p va a : ℕ)
      (k' : Kmem) : Type 0 where
    pub grew : Grew kernel_end k used root t (t.height p) k'
    pub slot : Slot k'.ram grew.layout level p va a

  abbrev pub Walked :
      (k : Kmem) (used : List ℕ) (root : ℕ) (t : Layout) (level p va : ℕ) → Option ℕ × Kmem → Type 0
  Walked k used root t level p va (none, k') = Exhausted k used root t (t.height p) k'
  Walked k used root t level p va (some a, k') = Reached k used root t level p va a k'

  -- what the rest of the loop does after a first round
  Walked-trans :
      (k k1 : Kmem) (used : List ℕ) (root : ℕ) (t : Layout) (level p va q : ℕ)
      (g : Grew kernel_end k used root t (t.height p) k1)
      → IsTable kernel_end k used root t
      → IsOnWay t (suc level) p va
      → IsOnWay g.layout level q va
      → is_valid (k1.ram (p / 8 + part (suc level) va % 512)) ≡ true
      → pte2pa (k1.ram (p / 8 + part (suc level) va % 512)) ≡ q
      → (r : Option ℕ × Kmem) → Walked k1 g.used' root g.layout level q va r
      → Walked k used root t (suc level) p va r
  Walked-trans k k1 used root t level p va q g b way child valid leads (none, k2) w = record {
    grew =
        grew_trans kernel_end k used root t (t.height p) (g.layout.height q) k1 k2
          (omega (arith, way.0, child.0)) g w.grew;
    full = w.full;
  }
  Walked-trans k k1 used root t level p va q g b way child valid leads (some a, k2) w =
      let owned = b.owned p (omega (arith, way.0)) in
      let place = (g.place p owned).0 in
      let same =
        w.grew.keeps p (part (suc level) va % 512) (omega (arith, g.grows p, owned))
          (inr (omega (arith, way.0, child.0, place))) (omega arith) in
      record {
        grew =
            grew_trans kernel_end k used root t (t.height p) (g.layout.height q) k1 k2
              (omega (arith, way.0, child.0)) g w.grew;
        slot = record {
          leaf = w.slot.leaf;
          way = w.slot.way;
          leads = (ap is_valid same ∙ valid, rw (same, leads) w.slot.leads);
          address = w.slot.address;
        };
      }

  -- a first round that allocates
  Walked-Added :
      (level p va : ℕ) (k : Kmem) (used : List ℕ) (root : ℕ) (t : Layout)
      → IsTable kernel_end k used root t
      → IsOnWay t (suc level) p va
      → (r : Option ℕ × Kmem) → Stepped kernel_end k used root t p (part (suc level) va % 512) r
      → ((q : ℕ) (k1 : Kmem) (g : Added kernel_end k used root t p (part (suc level) va % 512) q k1)
          → IsOnWay g.grew.layout level q va
          → Walked k1 g.grew.used' root g.grew.layout level q va (walk_loop level true q va k1))
      → Walked k used root t (suc level) p va (next_round level true va r)
  Walked-Added level p va k used root t b way (none, k1) (same, full) rest =
      rw same (record { grew = grew_refl kernel_end k used root t (t.height p) b; full = full })
  Walked-Added level p va k used root t b way (some q, k1) added rest =
      let g = added.grew in
      let owned = b.owned p (omega (arith, way.0)) in
      let place = g.place p owned in
      let i = part (suc level) va % 512 in
      let way' : IsOnWay g.layout (suc level) p va = (place.0 ∙ way.0, place.1 ∙ way.1) in
      let child : IsOnWay g.layout level q va =
        subst (λ x. IsOnWay g.layout level x va) added.leads
          (IsOnWay-child k1.ram g.layout level p va g.table.tree way' added.valid) in
      Walked-trans k k1 used root t level p va q g b way child added.valid added.leads _
        (rest q k1 added child)

  pub walk_loop-Walked :
      (level p va : ℕ) (k : Kmem) (used : List ℕ) (root : ℕ) (t : Layout)
      → 0 < kernel_end
      → level ≤ 2
      → IsTable kernel_end k used root t
      → IsOnWay t level p va
      → Walked k used root t level p va (walk_loop level true p va k)
  unfolding walk_loop
  walk_loop-Walked zero p va k used root t low le b way = record {
    grew = grew_refl kernel_end k used root t (t.height p) b;
    slot = record { leaf = p; way = way; leads = refl; address = refl };
  }
  walk_loop-Walked (suc level) p va k used root t low le b way =
      let i = part (suc level) va % 512 in
      let a = p + 8 * px (suc level) va in
      let word = slot_word p (suc level) va le in
      let same : entry k a ≡ k.ram (p / 8 + i) = ap k.ram word in
      elim (Bool-cases (is_valid (k.ram (p / 8 + i)))) [
        | inl valid ↦
            let c = pte2pa (k.ram (p / 8 + i)) in
            let child = IsOnWay-child k.ram t level p va b.tree way valid in
            let step =
              walk_step-valid true a k (ap is_valid same ∙ valid)
              ∙ ap (λ x. (some (pte2pa x), k)) same in
            rw (walk_loop-suc level true p va k _ step) (
              Walked-trans k k used root t level p va c
                (grew_refl kernel_end k used root t (t.height p) b) b way child valid refl _
                (walk_loop-Walked level c va k used root t low (omega arith) b child))
        | inr invalid ↦ rw (walk_loop-suc level true p va k _ refl) (
            Walked-Added level p va k used root t b way (walk_step true a k)
              (walk_step-Stepped kernel_end k used root t p i a low b (omega (arith, way.0))
                (omega arith) word invalid)
              (λ q k1 g child.
                walk_loop-Walked level q va k1 g.grew.used' root g.grew.layout low (omega arith)
                  g.grew.table child))
      ]
