-- ===== src/Contents/Overwrite.antt =====
-- A part of a block is put over what a file has there.
use risc_v_operating_system.Base.{
  ℕ, ◌+◌, ◌-◌, ◌/◌, ◌%◌, ◌≤◌, ◌<◌, ◌≡◌, refl, sym, ap, ◌∙◌, ◌≢◌, inl, inr, true, false, ◌&&◌, arith,
  ltb, leb, ◌==◌, if◌then◌else◌, ==_iff, Bool-cases, update_ne, update_lem,
}
use risc_v_operating_system.Fs.{Superblock, Block, Store, keep, bsize}
use risc_v_operating_system.Inode.{Inode, ndirect, nindirect, iblock, iupdate}
use risc_v_operating_system.Inode.Slots.{slots, slot, IsFile}
use risc_v_operating_system.Inode.Bmap.{slot-list}
use risc_v_operating_system.Contents.{Memory, copied}
use risc_v_operating_system.Contents.Data.{block_of, content, IsFilled}

-- A file's bytes in `s'`, after `len` bytes from `src` have been put over those in `s` from `off` on;
-- its blocks are the same.
pub record Overwritten (ip : Inode) (s : Store) (off src len : ℕ) (mem : Memory) (s' : Store)
    : Type 0 where
  pub list : (k : ℕ) → slot ip s' k ≡ slot ip s k
  pub bytes :
      (i : ℕ) → i < ip.size → content ip s' i ≡ copied off (λ j. mem (src + j)) len (content ip s) i

-- A change of a block that is not the list of the others leaves the slots alone.
slot-keep :
    (ip : Inode) (s : Store) (b : ℕ) (bytes : Block) (k : ℕ)
    → b ≢ ip.addrs ndirect
    → slot ip (keep b bytes s) k ≡ slot ip s k
unfolding slot keep
slot-keep ip s b bytes k ne = rw (update_ne s.blocks b (ip.addrs ndirect) bytes ne) refl

keep_lem :
    (s : Store) (b : ℕ) (bytes : Block) (c o : ℕ)
    → (keep b bytes s).blocks c o ≡ (if b == c then bytes o else s.blocks c o)
unfolding keep
keep_lem s b bytes c o = elim (Bool-cases (b == c)) [
  | inl e ↦ rw (update_lem s.blocks b c bytes, e) refl
  | inr e ↦ rw (update_lem s.blocks b c bytes, e) refl
]

-- a block changed, seen from the file
content-keep :
    (ip : Inode) (s : Store) (b : ℕ) (bytes : Block) (i : ℕ)
    → b ≢ ip.addrs ndirect
    → content ip (keep b bytes s) i
      ≡ (if b == block_of ip s (i / bsize) then bytes (i % bsize) else content ip s i)
unfolding content
content-keep ip s b bytes i ne =
    let place =
      slot-keep ip s b bytes (if ltb (i / bsize) ndirect then i / bsize else i / bsize + 1) ne in
    ap (λ c. (keep b bytes s).blocks c (i % bsize)) place
    ∙ keep_lem s b bytes (block_of ip s (i / bsize)) (i % bsize)

content_lem :
    (ip : Inode) (s : Store) (i : ℕ)
    → content ip s i ≡ s.blocks (block_of ip s (i / bsize)) (i % bsize)
unfolding content
content_lem ip s i = refl

pub copied-nothing : (dst : ℕ) (from g : ℕ → ℕ) (i : ℕ) → g i ≡ copied dst from 0 g i
unfolding copied
copied-nothing dst from g i =
    let empty : leb dst i && ltb i (dst + 0) ≡ false = ground arith in rw empty refl

pub copied-in :
    (dst : ℕ) (from : ℕ → ℕ) (len : ℕ) (g : ℕ → ℕ) (i : ℕ)
    → leb dst i && ltb i (dst + len) ≡ true
    → copied dst from len g i ≡ from (i - dst)
unfolding copied
copied-in dst from len g i h = rw h refl

pub copied-at :
    (dst : ℕ) (from : ℕ → ℕ) (len : ℕ) (g : ℕ → ℕ) (i : ℕ)
    → i < len
    → copied dst from len g (dst + i) ≡ from i
copied-at dst from len g i lt =
    let back : dst + i - dst ≡ i = omega arith in
    copied-in dst from len g (dst + i) (ground arith) ∙ ap from back

pub copied-out :
    (dst : ℕ) (from : ℕ → ℕ) (len : ℕ) (g : ℕ → ℕ) (i : ℕ)
    → leb dst i && ltb i (dst + len) ≡ false
    → copied dst from len g i ≡ g i
unfolding copied
copied-out dst from len g i h = rw h refl

copied-extend :
    (off tot m : ℕ) (from g : ℕ → ℕ) (i : ℕ)
    → leb (off + tot) i && ltb i (off + tot + m) ≡ false
    → copied off from tot g i ≡ copied off from (tot + m) g i
unfolding copied
copied-extend off tot m from g i out =
    let same : leb off i && ltb i (off + (tot + m)) ≡ leb off i && ltb i (off + tot) =
      ground arith in
    rw same refl

copied-chunk :
    (off src tot m : ℕ) (mem g bytes : ℕ → ℕ) (i : ℕ)
    → (off + tot) / bsize ≡ i / bsize
    → m ≤ bsize - (off + tot) % bsize
    → bytes (i % bsize) ≡ copied off (λ j. mem (src + j)) tot g i
    → copied ((off + tot) % bsize) (λ j. mem (src + tot + j)) m bytes (i % bsize)
      ≡ copied off (λ j. mem (src + j)) (tot + m) g i
copied-chunk off src tot m mem g bytes i block chunk_le before =
    elim (Bool-cases (leb (off + tot) i && ltb i (off + tot + m))) [
      | inl fresh ↦
          let inner : leb ((off + tot) % bsize) (i % bsize)
                && ltb (i % bsize) ((off + tot) % bsize + m)
              ≡ true =
            ground arith in
          let outer : leb off i && ltb i (off + (tot + m)) ≡ true = ground arith in
          let place : src + tot + (i % bsize - (off + tot) % bsize) ≡ src + (i - off) =
            ground arith in
          copied-in ((off + tot) % bsize) (λ j. mem (src + tot + j)) m bytes (i % bsize) inner
          ∙ ap mem place
          ∙ sym (copied-in off (λ j. mem (src + j)) (tot + m) g i outer)
      | inr out ↦
          let inner : leb ((off + tot) % bsize) (i % bsize)
                && ltb (i % bsize) ((off + tot) % bsize + m)
              ≡ false =
            ground arith in
          copied-out ((off + tot) % bsize) (λ j. mem (src + tot + j)) m bytes (i % bsize) inner
          ∙ before
          ∙ copied-extend off tot m (λ j. mem (src + j)) g i out
    ]

module _ (sb : Superblock) where
  -- blocks with different numbers are different
  block_of-distinct :
      (ip : Inode) (s : Store) (j k : ℕ)
      → IsFile sb ip s
      → j < ndirect + nindirect
      → k < ndirect + nindirect
      → block_of ip s j ≢ 0
      → block_of ip s j ≡ block_of ip s k
      → j ≡ k
  block_of-distinct ip s j k f j_lt k_lt nz e =
      let same =
        f.distinct (if ltb j ndirect then j else j + 1) (if ltb k ndirect then k else k + 1)
          (ground arith) (ground arith) nz e in
      ground arith

  not_list :
      (ip : Inode) (s : Store) (j : ℕ)
      → IsFile sb ip s
      → j < ndirect + nindirect
      → block_of ip s j ≢ 0
      → block_of ip s j ≢ ip.addrs ndirect
  not_list ip s j f lt nz e =
      let same =
        f.distinct (if ltb j ndirect then j else j + 1) 12 (ground arith) (omega arith) nz
          (e ∙ sym (slot-list sb ip s)) in
      ground arith

  -- one chunk more
  pub Overwritten-more :
      (ip : Inode) (s s' : Store) (off src tot m : ℕ) (mem : Memory)
      → IsFile sb ip s
      → IsFilled ip s ip.size
      → off + tot + m ≤ ip.size
      → 0 < m
      → m ≤ bsize - (off + tot) % bsize
      → Overwritten ip s off src tot mem s'
      → Overwritten ip s off src (tot + m) mem (
          keep
            (block_of ip s' ((off + tot) / bsize))
            (copied
              ((off + tot) % bsize)
              (λ j. mem (src + tot + j))
              m
              (s'.blocks (block_of ip s' ((off + tot) / bsize))))
            s')
  Overwritten-more ip s s' off src tot m mem f filled inside pos chunk_le w =
      let q = (off + tot) / bsize in
      let at = filled (off + tot) (omega arith) in
      let same : block_of ip s' q ≡ block_of ip s q = w.list (if ltb q ndirect then q else q + 1) in
      let ne : block_of ip s' q ≢ ip.addrs ndirect =
        λ e. not_list ip s q f at.0 at.1 (sym same ∙ e) in
      record {
        list = λ k. slot-keep ip s' (block_of ip s' q) _ k ne ∙ w.list k;
        bytes = λ i lt.
            content-keep ip s' (block_of ip s' q) _ i ne ∙ elim (Bool-cases (q == i / bsize)) [
              | inl e ↦
                  let block : q ≡ i / bsize = ground arith in
                  let hit : (block_of ip s' q == block_of ip s' (i / bsize)) ≡ true =
                    (==_iff (block_of ip s' q) (block_of ip s' (i / bsize))).1
                      (ap (block_of ip s') block) in
                  rw hit (
                    copied-chunk off src tot m mem (content ip s) _ i block chunk_le (
                      ap (λ k. s'.blocks (block_of ip s' k) (i % bsize)) block
                      ∙ sym (content_lem ip s' i)
                      ∙ w.bytes i lt))
              | inr e ↦
                  let there = filled i lt in
                  let same_i : block_of ip s' (i / bsize) ≡ block_of ip s (i / bsize) =
                    w.list (if ltb (i / bsize) ndirect then i / bsize else i / bsize + 1) in
                  let apart : block_of ip s q ≢ block_of ip s (i / bsize) = λ x.
                    ground (arith, block_of-distinct ip s q (i / bsize) f at.0 there.0 at.1 x) in
                  let miss : (block_of ip s' q == block_of ip s' (i / bsize)) ≡ false =
                    ground (arith, same, same_i, apart) in
                  rw miss (
                    w.bytes i lt
                    ∙ copied-extend off tot m (λ j. mem (src + j)) (content ip s) i (ground arith))
            ];
      }

  -- the inode's own block
  pub Overwritten-iupdate :
      (ip : Inode) (s s' : Store) (off src len : ℕ) (mem : Memory)
      → IsFilled ip s ip.size
      → ((k : ℕ) → k < slots → slot ip s k ≢ iblock sb ip.inum)
      → Overwritten ip s off src len mem s'
      → Overwritten ip s off src len mem (iupdate sb ip s')
  unfolding iupdate
  Overwritten-iupdate ip s s' off src len mem filled apart w =
      let b = iblock sb ip.inum in
      let ne : b ≢ ip.addrs ndirect = λ e. apart 12 (omega arith) (slot-list sb ip s ∙ sym e) in
      record {
        list = λ k. slot-keep ip s' b _ k ne ∙ w.list k;
        bytes = λ i lt.
            let there = filled i lt in
            let k = if ltb (i / bsize) ndirect then i / bsize else i / bsize + 1 in
            let other : (b == block_of ip s' (i / bsize)) ≡ false =
              ground (arith, w.list k, apart k (ground arith)) in
            content-keep ip s' b _ i ne ∙ rw other (w.bytes i lt);
      }
