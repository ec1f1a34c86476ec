-- ===== src/Life/Scan.antt =====
-- `scan` of `wait`: whether there is an exited child, or any child.
use mathlib.Core.Path.{subst}
use risc_v_operating_system.Base.{
  ℕ, zero, suc, ◌<◌, ◌≡◌, refl, sym, ◌∙◌, inl, inr, Bool, true, false, ◌&&◌, Option, none, some,
  arith, ◌==◌, if◌then◌else◌, Bool-cases,
}
use risc_v_operating_system.Proc.{is_zombie}
use risc_v_operating_system.Life.{Task, ProcTable, is_child_of, scan}

abbrev pub is_exited_child : (p : ℕ) → Task → Bool
is_exited_child p pp = is_child_of p pp && is_zombie pp.state

-- what a scan of the first `n` slots says
abbrev pub Scanned : (n p : ℕ) → ProcTable → Option ℕ × Bool → Type 0
Scanned n p t (some np, have) = (np < n) × (is_exited_child p (t.task np) ≡ true)
Scanned n p t (none, have) =
    ((i : ℕ) → i < n → is_exited_child p (t.task i) ≡ false)
    × ((i : ℕ) → i < n → is_child_of p (t.task i) ≡ true → have ≡ true)
    × (((i : ℕ) → i < n → is_child_of p (t.task i) ≡ false) → have ≡ false)

all_below : (n : ℕ) (P : ℕ → Type 0) → ((i : ℕ) → i < n → P i) → P n → (i : ℕ) → i < suc n → P i
all_below n P below here i lt = elim (Bool-cases (n == i)) [
  | inl e ↦ let same : n ≡ i = ground arith in subst P same here
  | inr ne ↦ below i (ground arith)
]

module _ (kernel_end : ℕ) (address : ℕ → ℕ) where
  pub scan-Scanned : (n p : ℕ) (t : ProcTable) → Scanned n p t (scan kernel_end address n p t)
  unfolding scan
  scan-Scanned zero p t =
      (λ i lt. absurd (omega arith), λ i lt child. absurd (omega arith), λ none_is. refl)
  scan-Scanned (suc n) p t = next (scan kernel_end address n p t) (scan-Scanned n p t)
    where
      next :
          (r : Option ℕ × Bool)
          → Scanned n p t r
          → Scanned (suc n) p t (elim r.0 [
            | some np ↦ r
            | none ↦
                if is_child_of p (t.task n)
                then ((if is_zombie (t.task n).state then some n else none), true)
                else r
          ])
      next (some np, have) s = (omega (arith, s.0), s.1)
      next (none, have) s = elim (Bool-cases (is_child_of p (t.task n))) [
        | inr no_child ↦
            let here : is_exited_child p (t.task n) ≡ false = rw no_child refl in
            rw no_child (
              all_below n (λ i. is_exited_child p (t.task i) ≡ false) s.0 here,
              all_below n (λ i. is_child_of p (t.task i) ≡ true → have ≡ true) s.1
                  (λ child. let clash : false ≡ true = sym no_child ∙ child in absurd (cc)),
              λ alone. s.2 (λ i lt. alone i (omega arith)),
            )
        | inl child ↦ elim (Bool-cases (is_zombie (t.task n).state)) [
          | inl exited ↦ rw (child, exited) (omega arith, rw (child, exited) refl)
          | inr alive ↦
              let here : is_exited_child p (t.task n) ≡ false = rw (child, alive) refl in
              rw (child, alive)
                (
                  all_below n (λ i. is_exited_child p (t.task i) ≡ false) s.0 here,
                  λ i lt is_child. refl,
                  λ alone.
                      let clash : true ≡ false = sym child ∙ alone n (omega arith) in absurd (cc),
                )
        ]
      ]
