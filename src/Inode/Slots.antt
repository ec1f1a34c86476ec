-- ===== src/Inode/Slots.antt =====
-- A file's block map as 269 slots: its 12 direct blocks, the block that lists the others, and these.
-- A slot that holds 0 has no block yet.
use risc_v_operating_system.Base.{
  ℕ, ◌-◌, ◌*◌, ◌<◌, ◌≡◌, sym, ap, ◌∙◌, ◌≢◌, inl, inr, true, false, arith, leb, ◌==◌, if◌then◌else◌,
  Bool-cases,
}
use risc_v_operating_system.Fs.{Superblock, Block, Store, bblock}
use risc_v_operating_system.Fs.Words.{word}
use risc_v_operating_system.Fs.Alloc.{apart_from_map, used, IsMapped, Taken}
use risc_v_operating_system.Inode.{Inode, ndirect}

abbrev pub slots : ℕ
slots = 269

-- `bytes` is the block that lists the others.
abbrev pub slot_of : (addrs : ℕ → ℕ) → (bytes : Block) → ℕ → ℕ
slot_of addrs bytes k =
    if leb k ndirect then addrs k else if addrs ndirect == 0 then 0 else word bytes (4 * (k - 13))

unfoldable pub slot : Inode → Store → ℕ → ℕ
slot ip s k = slot_of ip.addrs (s.blocks (ip.addrs ndirect)) k

module _ (sb : Superblock) where
  -- The blocks of a file are used, none of them twice, and none of them is the boot block or a block
  -- of the free map.
  pub record IsFile (ip : Inode) (s : Store) : Type 0 where
    pub boot : used sb s 0 ≡ true
    pub inside : (k : ℕ) → k < slots → slot ip s k < sb.size
    pub in_use : (k : ℕ) → k < slots → slot ip s k ≢ 0 → used sb s (slot ip s k) ≡ true
    pub apart : (k c : ℕ) → k < slots → slot ip s k ≢ 0 → c < sb.size → slot ip s k ≢ bblock sb c
    pub distinct :
        (j k : ℕ) → j < slots → k < slots → slot ip s j ≢ 0 → slot ip s j ≡ slot ip s k → j ≡ k

  -- a block that was free is none of the file's
  pub new_block :
      (ip : Inode) (s : Store) (r : ℕ × Store) (k : ℕ)
      → IsFile ip s
      → Taken sb s r
      → k < slots
      → slot ip s k ≢ r.0
  new_block ip s r k f t lt e = elim (Bool-cases (slot ip s k == 0)) [
    | inl z ↦
        let zero_block : r.0 ≡ 0 = ground (arith, e) in
        let free : used sb s 0 ≡ false = rw zero_block at t.was_free in
        let clash : true ≡ false = sym f.boot ∙ free in absurd (cc)
    | inr nz ↦
        let busy = f.in_use k lt (ground arith) in
        let free : used sb s (slot ip s k) ≡ false = rw (sym e) at t.was_free in
        let clash : true ≡ false = sym busy ∙ free in absurd (cc)
  ]

  pub new_block-ne_zero :
      (ip : Inode) (s : Store) (r : ℕ × Store) → IsFile ip s → Taken sb s r → r.0 ≢ 0
  new_block-ne_zero ip s r f t e =
      let free : used sb s 0 ≡ false = rw e at t.was_free in
      let clash : true ≡ false = sym f.boot ∙ free in absurd (cc)

  -- `balloc` leaves the slots alone.
  pub slot-balloc :
      (ip : Inode) (s : Store) (r : ℕ × Store) (k : ℕ)
      → IsFile ip s
      → Taken sb s r
      → slot ip r.1 k ≡ slot ip s k
  unfolding slot
  slot-balloc ip s r k f t = elim (Bool-cases (ip.addrs ndirect == 0)) [
    | inl z ↦ ground arith
    | inr nz ↦
        let new : ip.addrs ndirect ≢ r.0 = new_block ip s r 12 f t (omega arith) in
        let map : ip.addrs ndirect ≢ bblock sb r.0 =
          f.apart 12 r.0 (omega arith) (ground arith) t.inside in
        ap (λ bytes. slot_of ip.addrs bytes k) (t.others (ip.addrs ndirect) new map)
  ]

  -- The map stays in order.
  pub Taken-IsMapped : (s : Store) (r : ℕ × Store) → IsMapped sb s → Taken sb s r → IsMapped sb r.1
  Taken-IsMapped s r w t = record {
    small = w.small;
    map_inside = w.map_inside;
    map_used = λ b lt. ground (arith, t.map (bblock sb b) (w.map_inside b lt), w.map_used b lt);
  }

  -- A free slot `k` gets the new block, and the others keep theirs.
  pub extend-IsFile :
      (ip ip' : Inode) (s s' : Store) (r : ℕ × Store) (k : ℕ)
      → IsFile ip s
      → IsMapped sb s
      → Taken sb s r
      → ((c : ℕ) → c < sb.size → used sb s' c ≡ used sb r.1 c)
      → ((j : ℕ) → j < slots → slot ip' s' j ≡ (if j == k then r.0 else slot ip s j))
      → IsFile ip' s'
  extend-IsFile ip ip' s s' r k f w t same at = record {
    boot =
        ground (arith, same 0 (omega (arith, t.inside)), t.map 0 (omega (arith, t.inside)), f.boot);
    inside = λ j lt. ground (arith, at j lt, t.inside, f.inside j lt);
    in_use = λ j lt nz. elim (Bool-cases (j == k)) [
      | inl e ↦
          let here : slot ip' s' j ≡ r.0 = ground (arith, at j lt) in
          rw here (same r.0 t.inside ∙ ground (arith, t.map r.0 t.inside))
      | inr e ↦
          let here : slot ip' s' j ≡ slot ip s j = ground (arith, at j lt) in
          let old = f.in_use j lt (λ z. nz (here ∙ z)) in
          rw here (
            same (slot ip s j) (f.inside j lt)
            ∙ ground (arith, t.map (slot ip s j) (f.inside j lt), old))
    ];
    apart = λ j c lt nz small. elim (Bool-cases (j == k)) [
      | inl e ↦
          let here : slot ip' s' j ≡ r.0 = ground (arith, at j lt) in
          let ne = apart_from_map sb r.0 c s w t.was_free small in rw here (ground (arith, ne))
      | inr e ↦
          let here : slot ip' s' j ≡ slot ip s j = ground (arith, at j lt) in
          rw here (f.apart j c lt (λ z. nz (here ∙ z)) small)
    ];
    distinct = λ i j li lj nz e. ground (
      arith,
      at i li,
      at j lj,
      e,
      f.distinct i j li lj,
      new_block ip s r i f t li,
      new_block ip s r j f t lj,
    );
  }
