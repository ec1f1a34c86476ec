-- ===== src/Contents/Data.antt =====
-- The bytes of a file, and the blocks that `bmap` finds for them.
use risc_v_operating_system.Base.{
  ℕ, ◌+◌, ◌-◌, ◌*◌, ◌/◌, ◌%◌, ◌<◌, ◌≡◌, refl, ap, ◌∙◌, ◌≢◌, inl, inr, true, false, arith, ltb, ◌==◌,
  if◌then◌else◌, Bool-cases, ok,
}
use risc_v_operating_system.Fs.{Superblock, Store, bsize}
use risc_v_operating_system.Fs.Words.{word}
use risc_v_operating_system.Inode.{Inode, ndirect, nindirect, direct, indirect, bmap}
use risc_v_operating_system.Inode.Slots.{slot}
use risc_v_operating_system.Inode.Bmap.{indirect-entry}
use risc_v_operating_system.Inode.Rows.{slot-direct}

-- the block with number `bn` of a file
abbrev pub block_of : Inode → Store → ℕ → ℕ
block_of ip s bn = slot ip s (if ltb bn ndirect then bn else bn + 1)

-- byte `i` of a file
unfoldable pub content : Inode → Store → ℕ → ℕ
content ip s i = s.blocks (block_of ip s (i / bsize)) (i % bsize)

-- The first `n` bytes of a file are in its blocks.
abbrev pub IsFilled : Inode → Store → ℕ → Type 0
IsFilled ip s n =
    (i : ℕ) → i < n → (i / bsize < ndirect + nindirect) × (block_of ip s (i / bsize) ≢ 0)

some_list :
    (ip : Inode) (s : Store) (bn : ℕ)
    → ltb bn ndirect ≡ false
    → slot ip s (bn + 1) ≢ 0
    → (ip.addrs ndirect == 0) ≡ false
unfolding slot
some_list ip s bn high h = ground arith

module _ (sb : Superblock) where
  -- `bmap` changes nothing where there is a block.
  pub bmap-present :
      (bn : ℕ) (ip : Inode) (s : Store)
      → bn < ndirect + nindirect
      → block_of ip s bn ≢ 0
      → bmap sb bn ip s ≡ ok (block_of ip s bn, ip, s)
  unfolding bmap direct indirect
  bmap-present bn ip s lt nz = elim (Bool-cases (ltb bn ndirect)) [
    | inl low ↦
        let at = slot-direct sb ip s bn (ground arith) in
        let here : slot ip s bn ≢ 0 = rw low at nz in
        let some_block : (ip.addrs bn == 0) ≡ false = ground (arith, at) in
        rw (low, some_block, at) refl
    | inr high ↦
        let here : slot ip s (bn + 1) ≢ 0 = rw high at nz in
        let list : (ip.addrs ndirect == 0) ≡ false = some_list ip s bn high here in
        let within : ltb (bn - ndirect) nindirect ≡ true = ground arith in
        let place : bn + 1 ≡ bn - ndirect + 13 = ground arith in
        let at : slot ip s (bn + 1) ≡ word (s.blocks (ip.addrs ndirect)) (4 * (bn - ndirect)) =
          ap (slot ip s) place ∙ indirect-entry sb (bn - ndirect) ip s (ground arith) in
        let some_block : (word (s.blocks (ip.addrs ndirect)) (4 * (bn - ndirect)) == 0) ≡ false =
          ground (arith, at) in
        rw (high, within, list, some_block, at) refl
  ]
