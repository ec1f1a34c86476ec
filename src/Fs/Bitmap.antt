-- ===== src/Fs/Bitmap.antt =====
-- The free map as a set of blocks.
use risc_v_operating_system.Base.{
  ℕ, ◌/◌, ◌%◌, ◌≡◌, inl, inr, true, false, arith, ◌==◌, if◌then◌else◌, Bool-cases, update_lem,
}
use risc_v_operating_system.Base.Word.{
  one_shl, land, lor, lnot, bit-land, bit-lor, bit-lnot, bit-one_shl, land-one_shl,
}
use risc_v_operating_system.Fs.{Block, is_free, mark_used, mark_free}

-- A block that is marked is used, and no other bit of the map block changes.
pub is_free-mark_used :
    (bytes : Block) (bi i : ℕ)
    → is_free (mark_used bytes bi) i ≡ (if i == bi then false else is_free bytes i)
unfolding is_free mark_used
is_free-mark_used bytes bi i = elim (Bool-cases (bi / 8 == i / 8)) [
  | inl same ↦
      let at : bi / 8 ≡ i / 8 = ground arith in
      let written = update_lem bytes (bi / 8) (i / 8) (lor 8 (bytes (bi / 8)) (one_shl (bi % 8))) in
      ground (
        arith,
        written,
        land-one_shl 8 (i % 8) (lor 8 (bytes (bi / 8)) (one_shl (bi % 8))) (omega arith),
        land-one_shl 8 (i % 8) (bytes (i / 8)) (omega arith),
        bit-lor 8 (i % 8) (bytes (bi / 8)) (one_shl (bi % 8)) (omega arith),
        bit-one_shl (i % 8) (bi % 8),
      )
  | inr other ↦
      ground (arith, update_lem bytes (bi / 8) (i / 8) (lor 8 (bytes (bi / 8)) (one_shl (bi % 8))))
]

pub is_free-mark_free :
    (bytes : Block) (bi i : ℕ)
    → is_free (mark_free bytes bi) i ≡ (if i == bi then true else is_free bytes i)
unfolding is_free mark_free
is_free-mark_free bytes bi i = elim (Bool-cases (bi / 8 == i / 8)) [
  | inl same ↦
      let at : bi / 8 ≡ i / 8 = ground arith in
      let byte = land 8 (bytes (bi / 8)) (lnot 8 (one_shl (bi % 8))) in
      ground (
        arith,
        update_lem bytes (bi / 8) (i / 8) byte,
        land-one_shl 8 (i % 8) byte (omega arith),
        land-one_shl 8 (i % 8) (bytes (i / 8)) (omega arith),
        bit-land 8 (i % 8) (bytes (bi / 8)) (lnot 8 (one_shl (bi % 8))) (omega arith),
        bit-lnot 8 (i % 8) (one_shl (bi % 8)) (omega arith),
        bit-one_shl (i % 8) (bi % 8),
      )
  | inr other ↦ ground (
    arith,
    update_lem bytes (bi / 8) (i / 8) (land 8 (bytes (bi / 8)) (lnot 8 (one_shl (bi % 8)))),
  )
]
