-- ===== src/Vm/Walk.antt =====
-- `walk`: the entry it finds.
use risc_v_operating_system.Base.{
  ℕ, zero, suc, ◌+◌, ◌*◌, ◌/◌, ◌%◌, ◌≤◌, ◌≡◌, refl, sym, ap, ◌∙◌, inl, inr, Bool, true, false,
  Option, none, some, arith, Bool-cases,
}
use risc_v_operating_system.Kalloc.{Kmem}
use risc_v_operating_system.Vm.{pte2pa, is_valid, px, entry, walk_step, walk_loop}
use risc_v_operating_system.Vm.View.{part, view, Layout, IsTree, IsOnWay, IsOnWay-child}
use risc_v_operating_system.Vm.Store.{Leads, leaf_word}

pub px-part : (level va : ℕ) → level ≤ 2 → px level va ≡ part level va % 512
px-part zero va le = refl
px-part (suc zero) va le = omega arith
px-part (suc (suc zero)) va le = omega arith
px-part (suc (suc (suc level))) va le = absurd (omega arith)

pub slot_word :
    (p level va : ℕ) → level ≤ 2 → (p + 8 * px level va) / 8 ≡ p / 8 + part level va % 512
slot_word p level va le = let e = px-part level va le in omega (arith, e)

pub view-Leads :
    (level : ℕ) (ram : ℕ → ℕ) (p va q : ℕ)
    → Leads level ram p va q
    → view level ram p va ≡ ram (leaf_word q va)
unfolding view
view-Leads zero ram p va q l = ap (λ x. ram (leaf_word x va)) l
view-Leads (suc level) ram p va q l =
    rw l.0 (view-Leads level ram (pte2pa (ram (p / 8 + part (suc level) va % 512))) va q l.1)

-- `a` is the address of the entry for `va` in a table of leaves below `p`.
pub record Slot (ram : ℕ → ℕ) (t : Layout) (level p va a : ℕ) : Type 0 where
  pub leaf : ℕ
  pub way : IsOnWay t 0 leaf va
  pub leads : Leads level ram p va leaf
  pub address : a ≡ leaf + 8 * px 0 va

pub Slot-word :
    {ram : ℕ → ℕ} {t : Layout} {level p va a : ℕ} (s : Slot ram t level p va a)
    → a / 8 ≡ leaf_word s.leaf va
Slot-word s = omega (arith, s.address)

pub Slot-view :
    {ram : ℕ → ℕ} {t : Layout} {level p va a : ℕ} (s : Slot ram t level p va a)
    → ram (a / 8) ≡ view level ram p va
Slot-view {ram} {t} {level} {p} {va} s =
    ap ram (Slot-word s) ∙ sym (view-Leads level ram p va s.leaf s.leads)

-- What `walk` returns without allocation.
abbrev pub Found : Kmem → Layout → (level p va : ℕ) → Option ℕ → Type 0
Found k t level p va none = view level k.ram p va ≡ 0
Found k t level p va (some a) = Slot k.ram t level p va a × (entry k a ≡ view level k.ram p va)

pub view-none :
    (level : ℕ) (ram : ℕ → ℕ) (p va : ℕ)
    → is_valid (ram (p / 8 + part (suc level) va % 512)) ≡ false
    → view (suc level) ram p va ≡ 0
unfolding view
view-none level ram p va v = rw v refl

Found-up :
    (level p va : ℕ) (k : Kmem) (t : Layout) (r : Option ℕ)
    → is_valid (k.ram (p / 8 + part (suc level) va % 512)) ≡ true
    → Found k t level (pte2pa (k.ram (p / 8 + part (suc level) va % 512))) va r
    → Found k t (suc level) p va r
unfolding view
Found-up level p va k t none valid f = rw valid f
Found-up level p va k t (some a) valid f = (
  record { leaf = f.0.leaf; way = f.0.way; leads = (valid, f.0.leads); address = f.0.address },
  rw valid f.1,
)

-- A round of the loop, and the rest of it.
abbrev pub next_round : (level : ℕ) → (alloc : Bool) → (va : ℕ) → Option ℕ × Kmem → Option ℕ × Kmem
next_round level alloc va r = elim r.0 [
  | none ↦ (none, r.1)
  | some next ↦ walk_loop level alloc next va r.1
]

pub walk_loop-suc :
    (level : ℕ) (alloc : Bool) (p va : ℕ) (k : Kmem) (r : Option ℕ × Kmem)
    → walk_step alloc (p + 8 * px (suc level) va) k ≡ r
    → walk_loop (suc level) alloc p va k ≡ next_round level alloc va r
unfolding walk_loop
walk_loop-suc level alloc p va k r e = ap (next_round level alloc va) e

Found-zero :
    (p va : ℕ) (k : Kmem) (t : Layout)
    → IsOnWay t 0 p va
    → ((walk_loop 0 false p va k).1 ≡ k) × Found k t 0 p va (walk_loop 0 false p va k).0
unfolding walk_loop view
Found-zero p va k t way = (
  refl,
  (
    record { leaf = p; way = way; leads = refl; address = refl },
    ap k.ram (slot_word p 0 va (omega arith)),
  ),
)

-- What a round does to an entry that is valid, and to one that is not.
pub walk_step-valid :
    (alloc : Bool) (a : ℕ) (k : Kmem)
    → is_valid (entry k a) ≡ true
    → walk_step alloc a k ≡ (some (pte2pa (entry k a)), k)
unfolding walk_step
walk_step-valid alloc a k v = rw v refl

walk_step_stops :
    (a : ℕ) (k : Kmem) → is_valid (entry k a) ≡ false → walk_step false a k ≡ (none, k)
unfolding walk_step
walk_step_stops a k v = rw v refl

pub walk_loop-Found :
    (level p va : ℕ) (k : Kmem) (t : Layout)
    → level ≤ 2
    → IsTree k.ram t
    → IsOnWay t level p va
    → ((walk_loop level false p va k).1 ≡ k) × Found k t level p va (walk_loop level false p va k).0
walk_loop-Found zero p va k t le tree way = Found-zero p va k t way
walk_loop-Found (suc level) p va k t le tree way =
    let w = p / 8 + part (suc level) va % 512 in
    let a = p + 8 * px (suc level) va in
    let same : entry k a ≡ k.ram w = ap k.ram (slot_word p (suc level) va le) in
    elim (Bool-cases (is_valid (k.ram w))) [
      | inr invalid ↦
          rw (walk_loop-suc level false p va k _ (walk_step_stops a k (ap is_valid same ∙ invalid)))
            (refl, view-none level k.ram p va invalid)
      | inl valid ↦
          let h =
            walk_loop-Found level (pte2pa (k.ram w)) va k t (omega arith) tree
              (IsOnWay-child k.ram t level p va tree way valid) in
          let step =
            walk_step-valid false a k (ap is_valid same ∙ valid)
            ∙ ap (λ x. (some (pte2pa x), k)) same in
          rw (walk_loop-suc level false p va k _ step) (h.0, Found-up level p va k t _ valid h.1)
    ]
