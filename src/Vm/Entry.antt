-- ===== src/Vm/Entry.antt =====
-- The fields of a page-table entry.
use risc_v_operating_system.Base.{
  ℕ, zero, suc, ◌/◌, ◌%◌, ◌^◌, ◌<◌, ◌≡◌, ap, ◌∙◌, true, false, ◌||◌, arith,
}
use risc_v_operating_system.Base.Word.{lor, bit, bit-lor, one_shl}
use risc_v_operating_system.Vm.{pa2pte, pte2pa, pte_v, is_valid, is_user}

lor-zero : (w x : ℕ) → x < one_shl w → lor w x 0 ≡ x
unfolding lor one_shl
lor-zero zero x h = omega arith
lor-zero (suc w) x h = omega (arith, lor-zero w (x / 2) (omega arith))

lor-half : (w x y : ℕ) → lor (suc w) x y / 2 ≡ lor w (x / 2) (y / 2)
unfolding lor
lor-half w x y = omega arith

-- five bits at a time
lor-five : (w x y : ℕ) → lor (suc (suc (suc (suc (suc w))))) x y / 32 ≡ lor w (x / 32) (y / 32)
lor-five w x y =
    let w1 = suc w in
    let w2 = suc w1 in
    let w3 = suc w2 in
    let w4 = suc w3 in
    let z : lor (suc w4) x y / 32 ≡ lor (suc w4) x y / 2 / 2 / 2 / 2 / 2 = omega arith in
    let x5 : x / 2 / 2 / 2 / 2 / 2 ≡ x / 32 = omega arith in
    let y5 : y / 2 / 2 / 2 / 2 / 2 ≡ y / 32 = omega arith in
    z
    ∙ ap (λ n. n / 2 / 2 / 2 / 2) (lor-half w4 x y)
    ∙ ap (λ n. n / 2 / 2 / 2) (lor-half w3 (x / 2) (y / 2))
    ∙ ap (λ n. n / 2 / 2) (lor-half w2 (x / 2 / 2) (y / 2 / 2))
    ∙ ap (λ n. n / 2) (lor-half w1 (x / 2 / 2 / 2) (y / 2 / 2 / 2))
    ∙ lor-half w (x / 2 / 2 / 2 / 2) (y / 2 / 2 / 2 / 2)
    ∙ ap (λ n. lor w n (y / 2 / 2 / 2 / 2 / 2)) x5
    ∙ ap (λ n. lor w (x / 32) n) y5

lor-ten : (x y : ℕ) → lor 64 x y / 2 ^ 10 ≡ lor 54 (x / 2 ^ 10) (y / 2 ^ 10)
lor-ten x y =
    let z : lor 64 x y / 2 ^ 10 ≡ lor 64 x y / 32 / 32 = omega arith in
    let x10 : x / 32 / 32 ≡ x / 2 ^ 10 = omega arith in
    let y10 : y / 32 / 32 ≡ y / 2 ^ 10 = omega arith in
    z
    ∙ ap (λ n. n / 32) (lor-five 59 x y)
    ∙ lor-five 54 (x / 32) (y / 32)
    ∙ ap (λ n. lor 54 n (y / 32 / 32)) x10
    ∙ ap (λ n. lor 54 (x / 2 ^ 10) n) y10

-- Flags do not reach the address above them.
lor-address : (x y : ℕ) → x < 2 ^ 64 → y < 2 ^ 10 → lor 64 x y / 2 ^ 10 ≡ x / 2 ^ 10
unfolding one_shl
lor-address x y fits small =
    let flags : y / 2 ^ 10 ≡ 0 = omega arith in
    lor-ten x y ∙ ap (λ n. lor 54 (x / 2 ^ 10) n) flags ∙ lor-zero 54 (x / 2 ^ 10) (omega arith)

lor-lt : (w x y : ℕ) → lor w x y < one_shl w
unfolding lor one_shl
lor-lt zero x y = omega arith
lor-lt (suc w) x y = omega (arith, lor-lt w (x / 2) (y / 2))

-- The address in an entry is the one that was put there, with the flags beside it.
pub pte2pa-pa2pte :
    (pa perm : ℕ)
    → pa % 2 ^ 12 ≡ 0
    → pa < 2 ^ 56
    → perm < 2 ^ 10
    → pte2pa (lor 64 (lor 64 (pa2pte pa) perm) pte_v) ≡ pa
unfolding one_shl
pte2pa-pa2pte pa perm aligned fits small =
    let inner = lor-address (pa2pte pa) perm (omega arith) small in
    let outer =
      lor-address (lor 64 (pa2pte pa) perm) pte_v (lor-lt 64 (pa2pte pa) perm) (omega arith) in
    omega (arith, inner, outer)

pub pte2pa-pa2pte_table :
    (pa : ℕ) → pa % 2 ^ 12 ≡ 0 → pa < 2 ^ 56 → pte2pa (lor 64 (pa2pte pa) pte_v) ≡ pa
pte2pa-pa2pte_table pa aligned fits =
    let outer = lor-address (pa2pte pa) pte_v (omega arith) (omega arith) in omega (arith, outer)

pub is_valid-pte_v : (x : ℕ) → is_valid (lor 64 x pte_v) ≡ true
unfolding bit
is_valid-pte_v x = rw (bit-lor 64 0 x pte_v (omega arith)) (ground arith)

pub is_user-perm : (pa perm : ℕ) → is_user (lor 64 (lor 64 (pa2pte pa) perm) pte_v) ≡ is_user perm
unfolding bit
is_user-perm pa perm =
    bit-lor 64 4 (lor 64 (pa2pte pa) perm) pte_v (omega arith)
    ∙ rw (bit-lor 64 4 (pa2pte pa) perm (omega arith), address pa) (rest perm)
  where
    address : (x : ℕ) → bit 4 (pa2pte x) ≡ false
    address x = ground arith

    rest : (x : ℕ) → (bit 4 x || bit 4 1) ≡ bit 4 x
    rest x = ground arith
