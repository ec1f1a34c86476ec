-- ===== src/Fs.antt =====
-- kernel/fs.c: the lowest layer, blocks and their free map. The buffer cache and the log below it
-- are taken at their word: a block that is read is what was last written, and a change of a
-- buffer is kept by `log_write`. One device.
pub mod Bitmap
pub mod Words
pub mod Alloc
pub mod Free
pub mod Sample
mod Tests
use risc_v_operating_system.Base.{
  ℕ, zero, suc, ◌+◌, ◌-◌, ◌*◌, ◌/◌, ◌%◌, ◌^◌, ◌≤◌, ◌<◌, Bool, ◌&&◌, ◌||◌, not, Option, none, some,
  List, [], ◌∷◌, ltb, leb, ◌==◌, if◌then◌else◌, update, Run, ok, panic, ◌>>=◌, ◌>>◌, panic_if,
}
use risc_v_operating_system.Base.Word.{u32, one_shl, land, lor, lnot}

-- `BSIZE`, and `BPB`, the bits of a block
abbrev pub bsize : ℕ
bsize = 1024

abbrev pub bpb : ℕ
bpb = bsize * 8

-- `struct superblock`
pub record Superblock : Type 0 where
  pub magic : ℕ
  pub size : ℕ
  pub nblocks : ℕ
  pub ninodes : ℕ
  pub nlog : ℕ
  pub logstart : ℕ
  pub inodestart : ℕ
  pub bmapstart : ℕ

-- the bytes of a block
abbrev pub Block : Type 0
Block = ℕ → ℕ

-- All blocks, and the numbers of those that `log_write` was called for, the last one first.
pub record Store : Type 0 where
  pub blocks : ℕ → Block
  pub logged : List ℕ

-- `log_write` of the buffer of block `b` that now holds `bytes`
unfoldable pub keep : (b : ℕ) → Block → Store → Store
keep b bytes s = record { blocks = update s.blocks b bytes; logged = b ∷ s.logged }

unfoldable pub bzero : ℕ → Store → Store
bzero bno s = keep bno (λ i. 0) s

-- `BBLOCK`
abbrev pub bblock : Superblock → ℕ → ℕ
bblock sb b = b / bpb + sb.bmapstart

-- `(bp->data[bi/8] & m) == 0`
unfoldable pub is_free : Block → ℕ → Bool
is_free bytes bi = land 8 (bytes (bi / 8)) (one_shl (bi % 8)) == 0

-- `bp->data[bi/8] |= m` and `bp->data[bi/8] &= ~m`
unfoldable pub mark_used : Block → ℕ → Block
mark_used bytes bi = update bytes (bi / 8) (lor 8 (bytes (bi / 8)) (one_shl (bi % 8)))

unfoldable pub mark_free : Block → ℕ → Block
mark_free bytes bi = update bytes (bi / 8) (land 8 (bytes (bi / 8)) (lnot 8 (one_shl (bi % 8))))

-- The inner loop of `balloc`: the first bit from `bi` on that is 0.
unfoldable pub find_free : (rounds bi : ℕ) → (b size : ℕ) → Block → Option ℕ
find_free zero bi b size bytes = none
find_free (suc rounds) bi b size bytes =
    let rest = find_free rounds (bi + 1) b size bytes in
    if ltb (b + bi) size then (if is_free bytes bi then some bi else rest) else none

module _ (sb : Superblock) where
  -- The outer loop; one that outlasts its fuel counts as a panic.
  unfoldable pub balloc_loop : (fuel b : ℕ) → Store → Run (ℕ × Store)
  balloc_loop zero b s = panic
  balloc_loop (suc fuel) b s =
      if ltb b sb.size
      then elim (find_free bpb 0 b sb.size (s.blocks (bblock sb b))) [
        | none ↦ balloc_loop fuel (u32 (b + bpb)) s
        | some bi ↦
            let bytes = mark_used (s.blocks (bblock sb b)) bi in
            ok (b + bi, bzero (b + bi) (keep (bblock sb b) bytes s))
      ]
      else panic

  -- Each round is a block of the map, so that there are at most `size / BPB + 1`, and a last test.
  unfoldable pub balloc : Store → Run (ℕ × Store)
  balloc s = balloc_loop (sb.size / bpb + 2) 0 s

  unfoldable pub bfree : ℕ → Store → Run Store
  bfree b s =
      let bytes = s.blocks (bblock sb b) in
      panic_if (is_free bytes (b % bpb)) >> ok (keep (bblock sb b) (mark_free bytes (b % bpb)) s)
