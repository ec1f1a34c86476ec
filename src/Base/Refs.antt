-- ===== src/Base/Refs.antt =====
-- Reference counts: each of `n` things counts the references that its users hold.
use Prim.Native.Nat.{ℕ, ◌^◌, ◌≤◌, ◌<◌}
use mathlib.Core.Path.{◌≡◌, sym, ◌∙◌}
use mathlib.Core.Logic.{◌≢◌, inl, inr}
use mathlib.Core.List.{List}
use native.Mathlib.Omega.{arith}
use risc_v_operating_system.Base.Tests.{◌==◌, Bool-cases}
use risc_v_operating_system.Base.Count.{occurrences}

-- `refs` lists the references in use, each as the index of what it refers to.
pub record RefCounts (n : ℕ) (ref : ℕ → ℕ) (refs : List ℕ) : Type 0 where
  pub exact : (f : ℕ) → ref f ≡ occurrences f refs
  pub few : (f : ℕ) → occurrences f refs < 2 ^ 31
  pub inside : (f : ℕ) → n ≤ f → occurrences f refs ≡ 0

-- one count is changed
pub RefCounts-change :
    {n : ℕ} {ref : ℕ → ℕ} {refs : List ℕ} (ref' : ℕ → ℕ) (refs' : List ℕ) (f : ℕ)
    → RefCounts n ref refs
    → f < n
    → ref' f ≡ occurrences f refs'
    → occurrences f refs' < 2 ^ 31
    → ((g : ℕ) → f ≢ g → (ref' g ≡ ref g) × (occurrences g refs' ≡ occurrences g refs))
    → RefCounts n ref' refs'
RefCounts-change ref' refs' f c lt here fits others = record {
  exact = λ g. elim (Bool-cases (f == g)) [
    | inl e ↦ let same : f ≡ g = ground arith in rw same at here
    | inr e ↦ let o = others g (ground arith) in o.0 ∙ c.exact g ∙ sym o.1
  ];
  few = λ g. elim (Bool-cases (f == g)) [
    | inl e ↦ let same : f ≡ g = ground arith in rw same at fits
    | inr e ↦ rw (others g (ground arith)).1 (c.few g)
  ];
  inside = λ g le. (others g (omega arith)).1 ∙ c.inside g le;
}
