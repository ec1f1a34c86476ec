-- ===== src/Base/Count.antt =====
-- How often a list of numbers holds a number, and the list without one of them.
use Prim.Native.Nat.{ℕ, ◌+◌, ◌<◌}
use mathlib.Core.Path.{◌≡◌}
use mathlib.Core.Logic.{inl, inr}
use mathlib.Core.List.{List, [], ◌∷◌}
use native.Mathlib.Omega.{arith}
use risc_v_operating_system.Base.Tests.{◌==◌, if◌then◌else◌, Bool-cases}

abbrev pub occurrences : ℕ → List ℕ → ℕ
occurrences p [] = 0
occurrences p (q ∷ qs) = (if p == q then 1 else 0) + occurrences p qs

unfoldable pub remove : ℕ → List ℕ → List ℕ
remove p [] = []
remove p (q ∷ qs) = if p == q then qs else q ∷ remove p qs

pub occurrences-remove :
    (q p : ℕ) (ps : List ℕ)
    → 0 < occurrences p ps
    → (if q == p then 1 else 0) + occurrences q (remove p ps) ≡ occurrences q ps
unfolding remove
occurrences-remove q p [] h = absurd (omega arith)
occurrences-remove q p (r ∷ rs) h = elim (Bool-cases (p == r)) [
  | inl e ↦ rw e (ground arith)
  | inr e ↦
      let fewer : 0 < occurrences p rs = ground arith in
      rw e (ground (arith, occurrences-remove q p rs fewer))
]
