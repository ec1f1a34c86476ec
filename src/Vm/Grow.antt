-- ===== src/Vm/Grow.antt =====
-- A new table, all zeros, below an entry that was not valid.
use risc_v_operating_system.Base.{
  ℕ, zero, suc, ◌+◌, ◌-◌, ◌*◌, ◌/◌, ◌%◌, ◌≤◌, ◌<◌, ◌≡◌, refl, sym, ap, ◌∙◌, ◌≢◌, ◌⊎◌, inl, inr,
  true, false, ◌&&◌, arith, ◌==◌, Bool-cases, update, update_self, update_ne,
}
use risc_v_operating_system.Base.Word.{bit-zero}
use risc_v_operating_system.Vm.{pte2pa, is_valid}
use risc_v_operating_system.Vm.View.{part, view, Layout, IsTree, IsOnWay, IsOnWay-child}

-- the tables and the new one, `q`, below entry `i` of the table `p`
abbrev pub grown : Layout → (p i q : ℕ) → Layout
grown t p i q = record {
  height = update t.height q (t.height p - 1);
  prefix = update t.prefix q (t.prefix p * 512 + i);
}

-- what the store of the new entry leaves
pub record Grown (ram ram' : ℕ → ℕ) (t : Layout) (p i q : ℕ) : Type 0 where
  pub high : 2 ≤ t.height p
  pub index : i < 512
  pub new : t.height q ≡ 0
  pub was_invalid : is_valid (ram (p / 8 + i)) ≡ false
  pub valid : is_valid (ram' (p / 8 + i)) ≡ true
  pub leads : pte2pa (ram' (p / 8 + i)) ≡ q
  pub zeros : (j : ℕ) → j < 512 → ram' (q / 8 + j) ≡ 0
  pub others :
      (c j : ℕ) → t.height c ≢ 0 → j < 512 → (c ≢ p) ⊎ (j ≢ i) → ram' (c / 8 + j) ≡ ram (c / 8 + j)

-- A table of zeros has no entries.
view_zeros :
    (level : ℕ) (ram : ℕ → ℕ) (q va : ℕ)
    → ((j : ℕ) → j < 512 → ram (q / 8 + j) ≡ 0)
    → view level ram q va ≡ 0
unfolding view
view_zeros zero ram q va z = z (part 0 va % 512) (omega arith)
view_zeros (suc level) ram q va z =
    let zero_word = z (part (suc level) va % 512) (omega arith) in
    let invalid : is_valid (ram (q / 8 + part (suc level) va % 512)) ≡ false =
      rw zero_word (bit-zero 0) in
    rw invalid refl

-- Which words are the entry's, and which are others.
entry-cases : (p i c j : ℕ) → ((c ≡ p) × (j ≡ i)) ⊎ ((c ≢ p) ⊎ (j ≢ i))
entry-cases p i c j = elim (Bool-cases (c == p && j == i)) [
  | inl same ↦ inl (ground arith, ground arith)
  | inr other ↦ elim (Bool-cases (c == p)) [
    | inl one ↦ inr (inr (λ e. ground arith))
    | inr two ↦ inr (inl (λ e. ground arith))
  ]
]

pub view-Grown :
    (ram ram' : ℕ → ℕ) (t : Layout) (p0 i0 q : ℕ) (level p va : ℕ)
    → IsTree ram t
    → Grown ram ram' t p0 i0 q
    → IsOnWay t level p va
    → view level ram' p va ≡ view level ram p va
unfolding view
view-Grown ram ram' t p0 i0 q zero p va tree g way =
    g.others p (part 0 va % 512) (omega (arith, way.0)) (omega arith)
      (inl (λ e. let same = ap t.height e in omega (arith, same, way.0, g.high)))
view-Grown ram ram' t p0 i0 q (suc level) p va tree g way =
    let i = part (suc level) va % 512 in
    elim (entry-cases p0 i0 p i) [
      | inl e ↦
          let w : p / 8 + i ≡ p0 / 8 + i0 = ground (arith, e.0, e.1) in
          let now_valid = ap (λ x. is_valid (ram' x)) w ∙ g.valid in
          let invalid = ap (λ x. is_valid (ram x)) w ∙ g.was_invalid in
          let leads = ap (λ x. pte2pa (ram' x)) w ∙ g.leads in
          rw (now_valid, invalid, leads) (view_zeros level ram' q va g.zeros)
      | inr ne ↦
          rw (g.others p i (omega (arith, way.0)) (omega arith) ne)
            (elim (Bool-cases (is_valid (ram (p / 8 + i)))) [
              | inr invalid ↦ rw invalid refl
              | inl valid ↦ rw valid (
                  view-Grown ram ram' t p0 i0 q level (pte2pa (ram (p / 8 + i))) va tree g
                    (IsOnWay-child ram t level p va tree way valid))
            ])
    ]

pub IsTree-Grown :
    (ram ram' : ℕ → ℕ) (t : Layout) (p0 i0 q : ℕ)
    → IsTree ram t
    → Grown ram ram' t p0 i0 q
    → IsTree ram' (grown t p0 i0 q)
IsTree-Grown ram ram' t p0 i0 q tree g p i high lt valid = elim (Bool-cases (q == p)) [
  | inl new ↦
      let same : p ≡ q = ground arith in
      let zero_word : ram' (p / 8 + i) ≡ 0 = ap (λ x. ram' (x / 8 + i)) same ∙ g.zeros i lt in
      let clash : false ≡ true = sym (bit-zero 0) ∙ sym (ap is_valid zero_word) ∙ valid in
      absurd (cc)
  | inr old ↦
      let ne : q ≢ p = ground arith in
      let hp = update_ne t.height q p (t.height p0 - 1) ne in
      let pp = update_ne t.prefix q p (t.prefix p0 * 512 + i0) ne in
      elim (entry-cases p0 i0 p i) [
        | inl e ↦
            let w : p / 8 + i ≡ p0 / 8 + i0 = ground (arith, e.0, e.1) in
            let leads = ap (λ x. pte2pa (ram' x)) w ∙ g.leads in
            let h =
              ap (update t.height q (t.height p0 - 1)) leads
              ∙ update_self t.height q (t.height p0 - 1) in
            let n =
              ap (update t.prefix q (t.prefix p0 * 512 + i0)) leads
              ∙ update_self t.prefix q (t.prefix p0 * 512 + i0) in
            let height = ap t.height e.0 in
            let prefix = ap t.prefix e.0 in
            (omega (arith, h, hp, height, g.high), omega (arith, n, pp, prefix, e.1))
        | inr ne_entry ↦
            let high_p : 2 ≤ t.height p = omega (arith, high, hp) in
            let word = g.others p i (omega arith) lt ne_entry in
            let c = tree p i high_p lt (ap is_valid (sym word) ∙ valid) in
            let child = ap pte2pa word in
            let apart : q ≢ pte2pa (ram (p / 8 + i)) =
              λ x. let same = ap t.height x in omega (arith, same, g.new, c.0) in
            let h =
              ap (update t.height q (t.height p0 - 1)) child
              ∙ update_ne t.height q (pte2pa (ram (p / 8 + i))) (t.height p0 - 1) apart in
            let n =
              ap (update t.prefix q (t.prefix p0 * 512 + i0)) child
              ∙ update_ne t.prefix q (pte2pa (ram (p / 8 + i))) (t.prefix p0 * 512 + i0) apart in
            (omega (arith, h, hp, c.0), omega (arith, n, pp, c.1))
      ]
]
