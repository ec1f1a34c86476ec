-- ===== src/Base/Update.antt =====
-- Arrays and memories as functions, changed at one index.
use Prim.Native.Nat.{ℕ}
use mathlib.Core.Path.{◌≡◌, refl}
use mathlib.Core.Logic.{◌≢◌}
use native.Mathlib.Omega.{arith}
use risc_v_operating_system.Base.Tests.{◌==◌, if◌then◌else◌}

module _ {ℓ} {A : Type ℓ} where
  unfoldable pub update : (ℕ → A) → ℕ → A → ℕ → A
  update f i a j = if i == j then a else f j

module _ {ℓ} {A : Type ℓ} where
  pub update_self : (f : ℕ → A) (i : ℕ) (a : A) → update f i a i ≡ a
  unfolding update
  update_self f i a = ground arith

  pub update_ne : (f : ℕ → A) (i j : ℕ) (a : A) → i ≢ j → update f i a j ≡ f j
  unfolding update
  update_ne f i j a h = ground arith

  pub update_lem : (f : ℕ → A) (i j : ℕ) (a : A) → update f i a j ≡ (if i == j then a else f j)
  unfolding update
  update_lem f i j a = refl

  pub update-update_lem :
      (f : ℕ → A) (i j : ℕ) (a b : A) (k : ℕ)
      → update (update f i a) j b k ≡ (if j == k then b else if i == k then a else f k)
  unfolding update
  update-update_lem f i j a b k = refl
