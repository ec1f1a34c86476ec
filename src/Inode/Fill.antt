-- ===== src/Inode/Fill.antt =====
-- A slot of a file is filled, or was before: what holds then, and the slots of the inode itself.
use risc_v_operating_system.Base.{
  ℕ, ◌≤◌, ◌<◌, ◌≡◌, refl, ◌∙◌, ◌≢◌, inl, inr, true, false, arith, leb, ◌==◌, if◌then◌else◌,
  Bool-cases, update, update_self, update_lem, Safely, safely, Safely-bind,
}
use risc_v_operating_system.Fs.{Superblock, Store, bblock}
use risc_v_operating_system.Fs.Words.{word_zeros}
use risc_v_operating_system.Fs.Alloc.{used, IsMapped, Taken, balloc-Taken}
use risc_v_operating_system.Inode.{Inode, ndirect, direct}
use risc_v_operating_system.Inode.Slots.{
  slots, slot, IsFile, new_block-ne_zero, slot-balloc, Taken-IsMapped, extend-IsFile,
}

module _ (sb : Superblock) where
  -- What a call that fills slot `k`, or finds it filled, leaves.
  pub record Filled (k : ℕ) (ip : Inode) (s : Store) (r : ℕ × Inode × Store) : Type 0 where
    pub block : r.0 ≡ slot r.1 r.2 k
    pub nonzero : r.0 ≢ 0
    pub file : IsFile sb r.1 r.2
    pub mapped : IsMapped sb r.2
    pub kept : (j : ℕ) → j < slots → slot ip s j ≢ 0 → slot r.1 r.2 j ≡ slot ip s j
    pub in_use : (c : ℕ) → c < sb.size → used sb s c ≡ true → used sb r.2 c ≡ true

  -- At most the block `c` is taken.
  abbrev pub TakesOnly : ℕ → Store → Store → Type 0
  TakesOnly c s s' = (d : ℕ) → d < sb.size → d ≢ c → used sb s d ≡ false → used sb s' d ≡ false

  -- nothing to do
  pub Filled-before :
      (k : ℕ) (ip : Inode) (s : Store)
      → IsFile sb ip s
      → IsMapped sb s
      → slot ip s k ≢ 0
      → Filled k ip s (slot ip s k, ip, s)
  Filled-before k ip s f w nz = record {
    block = refl;
    nonzero = nz;
    file = f;
    mapped = w;
    kept = λ j lt ne. refl;
    in_use = λ c lt u. u;
  }

  -- a new block in a free slot
  pub Filled-now :
      (k : ℕ) (ip ip' : Inode) (s s' : Store) (r : ℕ × Store)
      → IsFile sb ip s
      → IsMapped sb s
      → Taken sb s r
      → k < slots
      → slot ip s k ≡ 0
      → ((c : ℕ) → c < sb.size → used sb s' c ≡ used sb r.1 c)
      → ((j : ℕ) → j < slots → slot ip' s' j ≡ (if j == k then r.0 else slot ip s j))
      → Filled k ip s (r.0, ip', s')
  Filled-now k ip ip' s s' r f w t lt free same at =
      let w1 = Taken-IsMapped sb s r w t in
      record {
        block = ground (arith, at k lt);
        nonzero = new_block-ne_zero sb ip s r f t;
        file = extend-IsFile sb ip ip' s s' r k f w t same at;
        mapped = record {
          small = w.small;
          map_inside = w.map_inside;
          map_used = λ b b_lt. same (bblock sb b) (w.map_inside b b_lt) ∙ w1.map_used b b_lt;
        };
        kept = λ j j_lt nz. ground (arith, at j j_lt, free);
        in_use = λ c c_lt u. ground (arith, same c c_lt, t.map c c_lt, u);
      }

  direct-slot :
      (k : ℕ) (ip : Inode) (s : Store) (r : ℕ × Store) (j : ℕ)
      → IsFile sb ip s
      → Taken sb s r
      → k ≤ ndirect
      → ip.addrs k ≡ 0
      → slot (record ip { addrs = update ip.addrs k r.0 }) r.1 j
        ≡ (if j == k then r.0 else slot ip s j)
  unfolding slot
  direct-slot k ip s r j f t le empty = elim (Bool-cases (leb j ndirect)) [
    | inl low ↦ rw low (ground (arith, update_lem ip.addrs k j r.0))
    | inr high ↦
        let other : (j == k) ≡ false = ground arith in
        elim (Bool-cases (k == ndirect)) [
          | inl last ↦
              let list : update ip.addrs k r.0 12 ≡ r.0 =
                ground (arith, update_lem ip.addrs k 12 r.0) in
              let nz : (r.0 == 0) ≡ false = ground (arith, new_block-ne_zero sb ip s r f t) in
              let none_yet : (ip.addrs 12 == 0) ≡ true = ground (arith, empty) in
              rw (high, other, list, nz, none_yet) (word_zeros (r.1.blocks r.0) _ t.zeroed)
          | inr more ↦
              let list : update ip.addrs k r.0 12 ≡ ip.addrs 12 =
                ground (arith, update_lem ip.addrs k 12 r.0) in
              let kept = slot-balloc sb ip s r j f t in rw (high, other, list) (rw high at kept)
        ]
  ]

  -- entry `k` of the inode, a direct block or the one that lists the others
  pub direct-Filled :
      (k : ℕ) (ip : Inode) (s : Store) (c : ℕ)
      → IsFile sb ip s
      → IsMapped sb s
      → k ≤ ndirect
      → c < sb.size
      → used sb s c ≡ false
      → Safely (λ r. Filled k ip s r × TakesOnly r.0 s r.2 × (r.1.addrs k ≡ r.0)) (direct sb k ip s)
  unfolding direct slot
  direct-Filled k ip s c f w le small free =
      let here : slot ip s k ≡ ip.addrs k = ground arith in
      elim (Bool-cases (ip.addrs k == 0)) [
        | inr nz ↦
            let old : Filled k ip s (slot ip s k, ip, s) =
              Filled-before k ip s f w (ground (arith, here)) in
            rw (nz, direct) (safely (rw here at old, λ d d_lt ne u. u, refl))
        | inl z ↦
            let empty : slot ip s k ≡ 0 = ground (arith, here) in
            rw (z, direct)
              (Safely-bind (balloc-Taken sb s c w small free) (λ r t. safely (
                Filled-now k ip (record ip { addrs = update ip.addrs k r.0 }) s r.1 r f w t
                    (omega arith) empty (λ d d_lt. refl)
                    (λ j lt. direct-slot k ip s r j f t le (ground arith)),
                λ d d_lt ne u. ground (arith, t.map d d_lt, u),
                update_self ip.addrs k r.0,
              )))
      ]
