-- ===== src/Kalloc/Round.antt =====
-- `PGROUNDUP`: the masks with `~(PGSIZE - 1)` as arithmetic.
use risc_v_operating_system.Base.{
  ℕ, zero, suc, ◌+◌, ◌-◌, ◌*◌, ◌/◌, ◌%◌, ◌^◌, ◌<◌, ◌≡◌, refl, arith, ap, ◌∙◌,
}
use risc_v_operating_system.Base.Word.{u64, land, lnot, one_shl}
use risc_v_operating_system.Kalloc.{page_size, page_round_up}

land-ones : (w x : ℕ) → x < one_shl w → land w x (lnot w 0) ≡ x
unfolding land lnot one_shl
land-ones zero x h = omega arith
land-ones (suc w) x h =
    let ones : (1 + 2 * lnot w 0) / 2 ≡ lnot w 0 = omega arith in
    rw ones (omega (arith, land-ones w (x / 2) (omega arith)))

-- A mask whose complement is odd clears the lowest bit.
land-clear :
    (w x y : ℕ) → y % 2 ≡ 1 → land (suc w) x (lnot (suc w) y) ≡ 2 * land w (x / 2) (lnot w (y / 2))
unfolding land lnot
land-clear w x y h =
    let rest : (1 - y % 2 + 2 * lnot w (y / 2)) / 2 ≡ lnot w (y / 2) = omega arith in
    rw rest (omega arith)

-- four bits at a time
land-clear_four :
    (w x y : ℕ)
    → y % 16 ≡ 15
    → land (suc (suc (suc (suc w)))) x (lnot (suc (suc (suc (suc w)))) y)
      ≡ 16 * land w (x / 16) (lnot w (y / 16))
land-clear_four w x y h =
    let x16 : x / 2 / 2 / 2 / 2 ≡ x / 16 = omega arith in
    let y16 : y / 2 / 2 / 2 / 2 ≡ y / 16 = omega arith in
    land-clear (suc (suc (suc w))) x y (omega arith)
    ∙ ap (λ n. 2 * n) (land-clear (suc (suc w)) (x / 2) (y / 2) (omega arith))
    ∙ ap (λ n. 2 * (2 * n)) (land-clear (suc w) (x / 2 / 2) (y / 2 / 2) (omega arith))
    ∙ ap (λ n. 2 * (2 * (2 * n))) (land-clear w (x / 2 / 2 / 2) (y / 2 / 2 / 2) (omega arith))
    ∙ rw (x16, y16) (omega arith)

land-page_mask : (x : ℕ) → x < 2 ^ 64 → land 64 x (lnot 64 4095) ≡ 4096 * (x / 4096)
unfolding one_shl
land-page_mask x h =
    land-clear_four 60 x 4095 refl
    ∙ ap (λ n. 16 * n) (land-clear_four 56 (x / 16) 255 refl)
    ∙ ap (λ n. 16 * (16 * n)) (land-clear_four 52 (x / 16 / 16) 15 refl)
    ∙ ap (λ n. 16 * (16 * (16 * n))) (land-ones 52 (x / 16 / 16 / 16) (omega arith))
    ∙ omega arith

-- `PGROUNDUP` is the next multiple of the page size, where the sum does not wrap around.
pub page_round_up_lem :
    (a : ℕ) → a + page_size < 2 ^ 64 → page_round_up a ≡ (a + 4095) / 4096 * 4096
unfolding page_round_up
page_round_up_lem a h =
    let same : u64 (a + page_size - 1) ≡ a + 4095 = omega arith in
    rw same (land-page_mask (a + 4095) (omega arith) ∙ omega arith)
