-- ===== src/Inode/Bmap.antt =====
-- `bmap`: the block of a file with a given number, allocated if need be.
use risc_v_operating_system.Base.{
  ℕ, ◌+◌, ◌-◌, ◌*◌, ◌≤◌, ◌<◌, ◌≡◌, refl, sym, ◌∙◌, ◌≢◌, inl, inr, true, false, arith, ltb, leb,
  ◌==◌, if◌then◌else◌, Bool-cases, update_self, update_ne, panic, Safely, safely, Safely-bind,
  Safely-mono,
}
use risc_v_operating_system.Fs.{Superblock, Block, Store, keep, bblock}
use risc_v_operating_system.Fs.Words.{word, put_word, word-put_word_self, word-put_word_ne}
use risc_v_operating_system.Fs.Alloc.{used, IsMapped, Taken, balloc-Taken}
use risc_v_operating_system.Inode.{Inode, ndirect, nindirect, indirect, bmap}
use risc_v_operating_system.Inode.Slots.{slots, slot, IsFile, slot-balloc}
use risc_v_operating_system.Inode.Fill.{Filled, TakesOnly, Filled-before, Filled-now, direct-Filled}

module _ (sb : Superblock) where
  indirect-slot :
      (bn : ℕ) (ip : Inode) (s : Store) (r : ℕ × Store) (j : ℕ)
      → IsFile sb ip s
      → IsMapped sb s
      → Taken sb s r
      → bn < nindirect
      → j < slots
      → ip.addrs ndirect ≢ 0
      → slot ip
          (keep (ip.addrs ndirect) (put_word (r.1.blocks (ip.addrs ndirect)) (4 * bn) r.0) r.1)
          j
        ≡ (if j == bn + 13 then r.0 else slot ip s j)
  unfolding slot keep
  indirect-slot bn ip s r j f w t lt j_lt nz =
      let old = r.1.blocks (ip.addrs ndirect) in
      let bytes = put_word old (4 * bn) r.0 in
      let some_list : (ip.addrs ndirect == 0) ≡ false = ground arith in
      let kept = slot-balloc sb ip s r j f t in
      rw (update_self r.1.blocks (ip.addrs ndirect) bytes) (elim (Bool-cases (leb j ndirect)) [
        | inl low ↦ let other : (j == bn + 13) ≡ false = ground arith in rw (low, other) refl
        | inr high ↦ elim (Bool-cases (j == bn + 13)) [
          | inl e ↦
              let place : 4 * (j - 13) ≡ 4 * bn = ground arith in
              rw (high, some_list, e, place)
                (word-put_word_self old (4 * bn) r.0 (omega (arith, t.inside, w.small)))
          | inr ne ↦
              let here : word old (4 * (j - 13))
                  ≡ word (s.blocks (ip.addrs ndirect)) (4 * (j - 13)) =
                rw (high, some_list) at kept in
              rw (high, some_list, ne)
                (word-put_word_ne old (4 * bn) r.0 (4 * (j - 13)) (ground arith) ∙ here)
        ]
      ])

  pub indirect-entry :
      (bn : ℕ) (ip : Inode) (s : Store)
      → ip.addrs ndirect ≢ 0
      → slot ip s (bn + 13) ≡ word (s.blocks (ip.addrs ndirect)) (4 * bn)
  unfolding slot
  indirect-entry bn ip s nz =
      let some_list : (ip.addrs ndirect == 0) ≡ false = ground arith in
      let high : leb (bn + 13) ndirect ≡ false = ground arith in
      let place : 4 * (bn + 13 - 13) ≡ 4 * bn = omega arith in rw (high, some_list, place) refl

  pub slot-list : (ip : Inode) (s : Store) → slot ip s 12 ≡ ip.addrs ndirect
  unfolding slot
  slot-list ip s = refl

  -- A change of a block that is none of the map leaves the map alone.
  pub used-keep :
      (b : ℕ) (bytes : Block) (s : Store) (c : ℕ)
      → b ≢ bblock sb c
      → used sb (keep b bytes s) c ≡ used sb s c
  unfolding keep
  used-keep b bytes s c ne = rw (update_ne s.blocks b (bblock sb c) bytes ne) refl

  -- entry `bn` of the block that lists the others
  indirect-Filled :
      (bn : ℕ) (ip : Inode) (s : Store) (c : ℕ)
      → IsFile sb ip s
      → IsMapped sb s
      → bn < nindirect
      → ip.addrs ndirect ≢ 0
      → c < sb.size
      → used sb s c ≡ false
      → Safely (Filled sb (bn + 13) ip s) (indirect sb (ip.addrs ndirect) bn ip s)
  unfolding indirect
  indirect-Filled bn ip s c f w lt nz small free =
      let a = word (s.blocks (ip.addrs ndirect)) (4 * bn) in
      let here : slot ip s (bn + 13) ≡ a = indirect-entry bn ip s nz in
      elim (Bool-cases (a == 0)) [
        | inr full ↦
            let old : Filled sb (bn + 13) ip s (slot ip s (bn + 13), ip, s) =
              Filled-before sb (bn + 13) ip s f w (ground (arith, here)) in
            rw (full, indirect) (safely (rw here at old))
        | inl z ↦
            rw (z, indirect)
              (Safely-bind (balloc-Taken sb s c w small free) (λ r t. safely (
                Filled-now sb (bn + 13) ip ip s _ r f w t (omega arith) (ground (arith, here))
                  (λ d d_lt. used-keep (ip.addrs ndirect) _ r.1 d (λ e.
                    f.apart 12 d (omega arith) (rw (slot-list ip s) nz) d_lt (slot-list ip s ∙ e)))
                  (λ j j_lt. indirect-slot bn ip s r j f w t lt j_lt nz))))
      ]

  -- one fill after the other
  Filled-trans :
      (k i : ℕ) (ip : Inode) (s : Store) (p q : ℕ × Inode × Store)
      → Filled sb k ip s p
      → Filled sb i p.1 p.2 q
      → Filled sb i ip s q
  Filled-trans k i ip s p q f g = record {
    block = g.block;
    nonzero = g.nonzero;
    file = g.file;
    mapped = g.mapped;
    kept = λ j lt nz. let same = f.kept j lt nz in g.kept j lt (λ z. nz (sym same ∙ z)) ∙ same;
    in_use = λ c lt u. g.in_use c lt (f.in_use c lt u);
  }

  -- Of two free blocks one is left.
  still_free :
      (e : ℕ) (s s' : Store) (c d : ℕ)
      → c < sb.size
      → d < sb.size
      → c ≢ d
      → used sb s c ≡ false
      → used sb s d ≡ false
      → TakesOnly sb e s s'
      → (g : ℕ) × (g < sb.size) × (used sb s' g ≡ false)
  still_free e s s' c d c_lt d_lt ne free free' only = elim (Bool-cases (c == e)) [
    | inl same ↦ (d, d_lt, only d d_lt (ground arith) free')
    | inr other ↦ (c, c_lt, only c c_lt (ground arith) free)
  ]

  -- the slot of block number `bn`
  abbrev pub slot_index : ℕ → ℕ
  slot_index bn = if ltb bn ndirect then bn else bn + 1

  -- For a block number below 268 and a file and a free map in order, with two blocks free, `bmap`
  -- returns, and what it returns is the block that the file then has in this place, and not 0. The
  -- file and the free map stay in order, the file's other blocks stay where they were, and no
  -- block in use becomes free.
  pub bmap-Filled :
      (bn : ℕ) (ip : Inode) (s : Store) (c d : ℕ)
      → IsFile sb ip s
      → IsMapped sb s
      → bn < ndirect + nindirect
      → c < sb.size
      → d < sb.size
      → c ≢ d
      → used sb s c ≡ false
      → used sb s d ≡ false
      → Safely (Filled sb (slot_index bn) ip s) (bmap sb bn ip s)
  unfolding bmap
  bmap-Filled bn ip s c d f w lt c_lt d_lt ne free free' = elim (Bool-cases (ltb bn ndirect)) [
    | inl low ↦
        rw (low, bmap)
          (Safely-mono (direct-Filled sb bn ip s c f w (ground arith) c_lt free) (λ r p. p.0))
    | inr high ↦
        let inside : ltb (bn - ndirect) nindirect ≡ true = ground arith in
        let index : bn - ndirect + 13 ≡ bn + 1 = ground arith in
        rw (high, inside, bmap)
          (Safely-bind (direct-Filled sb 12 ip s c f w (omega arith) c_lt free) (λ r p.
            let left = still_free r.0 s r.2 c d c_lt d_lt ne free free' p.1 in
            let nz : r.1.addrs ndirect ≢ 0 = rw p.2 p.0.nonzero in
            let g =
              indirect-Filled (bn - ndirect) r.1 r.2 left.0 p.0.file p.0.mapped (ground arith) nz
                left.1 left.2 in
            Safely-mono (rw (p.2, index) at g) (λ q h. Filled-trans 12 (bn + 1) ip s r q p.0 h)))
  ]

  -- `bmap` panics where a file has no block with that number.
  pub bmap-panic :
      (bn : ℕ) (ip : Inode) (s : Store) → ndirect + nindirect ≤ bn → bmap sb bn ip s ≡ panic
  unfolding bmap
  bmap-panic bn ip s le =
      let high : ltb bn ndirect ≡ false = ground arith in
      let out : ltb (bn - ndirect) nindirect ≡ false = ground arith in rw (high, out) refl
