-- ===== src/Base/Word.antt =====
-- Machine words: wrap-around, and the bit operations of a `w`-bit word, a bit at a time.
use Prim.Native.Nat.{ℕ, zero, suc, ◌+◌, ◌-◌, ◌*◌, ◌/◌, ◌%◌, ◌^◌, ◌<◌, min, max}
use mathlib.Core.Path.{◌≡◌, refl}
use mathlib.Core.Bool.{Bool, false, ◌&&◌, ◌||◌, not}
use native.Mathlib.Omega.{arith}
use risc_v_operating_system.Base.Tests.{◌==◌, leb}

-- The value of a `uint` and of a `uint64` expression.
abbrev pub u32 : ℕ → ℕ
u32 n = n % 2 ^ 32

abbrev pub u64 : ℕ → ℕ
u64 n = n % 2 ^ 64

-- `x < 0` for an `int` given by its 32 bits.
abbrev pub is_negative : ℕ → Bool
is_negative x = leb (2 ^ 31) x

-- `1 << i`
unfoldable pub one_shl : ℕ → ℕ
one_shl zero = 1
one_shl (suc i) = 2 * one_shl i

-- `x & y`, `x | y` and `~x` on words of `w` bits
unfoldable pub land : ℕ → ℕ → ℕ → ℕ
land zero x y = 0
land (suc w) x y = min (x % 2) (y % 2) + 2 * land w (x / 2) (y / 2)

unfoldable pub lor : ℕ → ℕ → ℕ → ℕ
lor zero x y = 0
lor (suc w) x y = max (x % 2) (y % 2) + 2 * lor w (x / 2) (y / 2)

unfoldable pub lnot : ℕ → ℕ → ℕ
lnot zero x = 0
lnot (suc w) x = 1 - x % 2 + 2 * lnot w (x / 2)

-- bit `i` of `x`
unfoldable pub bit : ℕ → ℕ → Bool
bit zero x = x % 2 == 1
bit (suc i) x = bit i (x / 2)

pub bit-land : (w i x y : ℕ) → i < w → bit i (land w x y) ≡ (bit i x && bit i y)
unfolding bit land
bit-land zero i x y h = absurd (omega arith)
bit-land (suc w) zero x y h = ground arith
bit-land (suc w) (suc i) x y h = rw half (bit-land w i (x / 2) (y / 2) (omega arith))
  where
    half : (min (x % 2) (y % 2) + 2 * land w (x / 2) (y / 2)) / 2 ≡ land w (x / 2) (y / 2)
    half = omega arith

pub bit-lor : (w i x y : ℕ) → i < w → bit i (lor w x y) ≡ (bit i x || bit i y)
unfolding bit lor
bit-lor zero i x y h = absurd (omega arith)
bit-lor (suc w) zero x y h = ground arith
bit-lor (suc w) (suc i) x y h = rw half (bit-lor w i (x / 2) (y / 2) (omega arith))
  where
    half : (max (x % 2) (y % 2) + 2 * lor w (x / 2) (y / 2)) / 2 ≡ lor w (x / 2) (y / 2)
    half = omega arith

pub bit-lnot : (w i x : ℕ) → i < w → bit i (lnot w x) ≡ not (bit i x)
unfolding bit lnot
bit-lnot zero i x h = absurd (omega arith)
bit-lnot (suc w) zero x h = ground arith
bit-lnot (suc w) (suc i) x h = rw half (bit-lnot w i (x / 2) (omega arith))
  where
    half : (1 - x % 2 + 2 * lnot w (x / 2)) / 2 ≡ lnot w (x / 2)
    half = omega arith

pub bit-zero : (i : ℕ) → bit i 0 ≡ false
unfolding bit
bit-zero zero = refl
bit-zero (suc i) = bit-zero i

pub bit-one_shl : (i j : ℕ) → bit i (one_shl j) ≡ (i == j)
unfolding bit one_shl
bit-one_shl zero zero = refl
bit-one_shl zero (suc j) = ground arith
bit-one_shl (suc i) zero = rw (bit-zero i) (ground arith)
bit-one_shl (suc i) (suc j) = rw half (ground (arith, bit-one_shl i j))
  where
    half : 2 * one_shl j / 2 ≡ one_shl j
    half = omega arith

-- `x & (1 << i)` is not 0 exactly when bit `i` of `x` is set.
pub land-one_shl : (w i x : ℕ) → i < w → (land w x (one_shl i) == 0) ≡ not (bit i x)
unfolding bit land one_shl
land-one_shl zero i x h = absurd (omega arith)
land-one_shl (suc w) zero x h = rw none_left (ground arith)
  where
    zeros : (v y : ℕ) → land v y 0 ≡ 0
    zeros zero y = refl
    zeros (suc v) y = omega (arith, zeros v (y / 2))

    none_left : land w (x / 2) (1 / 2) ≡ 0
    none_left = zeros w (x / 2)
land-one_shl (suc w) (suc i) x h = rw half (ground (arith, land-one_shl w i (x / 2)))
  where
    half : 2 * one_shl i / 2 ≡ one_shl i
    half = omega arith
