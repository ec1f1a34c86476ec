-- ===== src/Vm/Store.antt =====
-- A store to an entry for an address, and what the table has for this page and for others.
use risc_v_operating_system.Base.{
  ℕ, zero, suc, ◌+◌, ◌/◌, ◌%◌, ◌<◌, ◌≡◌, refl, ap, ◌∙◌, ◌≢◌, inl, inr, true, arith, ◌==◌,
  Bool-cases, update, update_self, update_ne,
}
use risc_v_operating_system.Kalloc.{page_size}
use risc_v_operating_system.Vm.{pte2pa, is_valid}
use risc_v_operating_system.Vm.View.{part, view, Layout, IsTree, IsOnWay, IsOnWay-child}

-- The way from `p` to the table of leaves `q`.
abbrev pub Leads : (level : ℕ) → (ram : ℕ → ℕ) → (p va q : ℕ) → Type 0
Leads zero ram p va q = p ≡ q
Leads (suc level) ram p va q =
    (is_valid (ram (p / 8 + part (suc level) va % 512)) ≡ true)
    × Leads level ram (pte2pa (ram (p / 8 + part (suc level) va % 512))) va q

-- Tables are pages.
abbrev pub IsAligned : Layout → Type 0
IsAligned t = (p : ℕ) → t.height p ≢ 0 → p % page_size ≡ 0

-- the entry for `va` in a table of leaves
abbrev pub leaf_word : (q va : ℕ) → ℕ
leaf_word q va = q / 8 + part 0 va % 512

other_word :
    (t : Layout) (p q i va : ℕ)
    → IsAligned t
    → t.height p ≢ 0
    → t.height q ≢ 0
    → p ≢ q
    → i < 512
    → leaf_word q va ≢ p / 8 + i
other_word t p q i va a hp hq ne lt e = let ap_ = a p hp in let aq = a q hq in ne (omega arith)

not_low : (t : Layout) (level p q : ℕ) → t.height p ≡ suc (suc level) → t.height q ≡ 1 → p ≢ q
not_low t level p q high low e = let same = ap t.height e in omega (arith, same)

pub view-store_same :
    (ram : ℕ → ℕ) (t : Layout) (level p va q v : ℕ)
    → IsTree ram t
    → IsAligned t
    → IsOnWay t level p va
    → t.height q ≡ 1
    → Leads level ram p va q
    → view level (update ram (leaf_word q va) v) p va ≡ v
unfolding view
view-store_same ram t zero p va q v tree a way low leads =
    rw leads (update_self ram (leaf_word q va) v)
view-store_same ram t (suc level) p va q v tree a way low leads =
    let i = part (suc level) va % 512 in
    let apart : leaf_word q va ≢ p / 8 + i =
      other_word t p q i va a (omega (arith, way.0)) (omega (arith, low))
        (λ e. not_low t level p q way.0 low e) (omega arith) in
    rw (update_ne ram (leaf_word q va) (p / 8 + i) v apart, leads.0)
      (view-store_same ram t level (pte2pa (ram (p / 8 + i))) va q v tree a
        (IsOnWay-child ram t level p va tree way leads.0) low leads.1)

pub view-store_other :
    (ram : ℕ → ℕ) (t : Layout) (level p va va' q v : ℕ)
    → IsTree ram t
    → IsAligned t
    → IsOnWay t level p va'
    → t.height q ≡ 1
    → t.prefix q ≡ part 1 va
    → part 0 va ≢ part 0 va'
    → view level (update ram (leaf_word q va) v) p va' ≡ view level ram p va'
unfolding view
view-store_other ram t zero p va va' q v tree a way low place ne =
    update_ne ram (leaf_word q va) (p / 8 + part 0 va' % 512) v (λ e. elim (Bool-cases (p == q)) [
      | inl one ↦
          let same : p ≡ q = ground arith in
          let word : leaf_word p va ≡ p / 8 + part 0 va' % 512 =
            ap (λ x. leaf_word x va) same ∙ e in
          let prefix : t.prefix p ≡ t.prefix q = ap t.prefix same in
          ne (omega (arith, word, prefix, way.1))
      | inr two ↦
          other_word t p q (part 0 va' % 512) va a (omega (arith, way.0)) (omega (arith, low))
            (ground arith) (omega arith) e
    ])
view-store_other ram t (suc level) p va va' q v tree a way low place ne =
    let i = part (suc level) va' % 512 in
    let apart : leaf_word q va ≢ p / 8 + i =
      other_word t p q i va a (omega (arith, way.0)) (omega (arith, low))
        (λ e. not_low t level p q way.0 low e) (omega arith) in
    rw (update_ne ram (leaf_word q va) (p / 8 + i) v apart)
      (elim (Bool-cases (is_valid (ram (p / 8 + i)))) [
        | inr invalid ↦ rw invalid refl
        | inl valid ↦ rw valid (
            view-store_other ram t level (pte2pa (ram (p / 8 + i))) va va' q v tree a
              (IsOnWay-child ram t level p va' tree way valid) low place ne)
      ])
