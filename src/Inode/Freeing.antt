-- ===== src/Inode/Freeing.antt =====
-- The loops of `itrunc`: each gives back a row of blocks.
use risc_v_operating_system.Base.{
  ℕ, zero, suc, ◌+◌, ◌*◌, ◌<◌, ◌≡◌, refl, sym, ap, ◌∙◌, ◌≢◌, inl, inr, Bool, true, false, ◌&&◌,
  ◌||◌, not, arith, ltb, ◌==◌, if◌then◌else◌, Bool-cases, update, update_lem, ok, ◌>>=◌, Safely,
  safely, Safely-bind, Safely-mono,
}
use native.Mathlib.Numerals.{add-one}
use risc_v_operating_system.Fs.{Superblock, Block, Store, bblock, bfree}
use risc_v_operating_system.Fs.Words.{word}
use risc_v_operating_system.Fs.Alloc.{used}
use risc_v_operating_system.Fs.Free.{bfree-Freed}
use risc_v_operating_system.Inode.{Inode, ndirect, nindirect, free_direct, free_indirect}

-- Is `c` one of the first `n` values of `f`?
abbrev pub among : (f : ℕ → ℕ) → (n c : ℕ) → Bool
among f zero c = false
among f (suc n) c = among f n c || f n == c

pub among-false : (f : ℕ → ℕ) (n c : ℕ) → ((j : ℕ) → j < n → f j ≢ c) → among f n c ≡ false
among-false f zero c h = refl
among-false f (suc n) c h =
    ground (arith, among-false f n c (λ j lt. h j (omega arith)), h n (omega arith))

pub among-true : (f : ℕ → ℕ) (n c j : ℕ) → j < n → f j ≡ c → among f n c ≡ true
among-true f zero c j lt e = absurd (omega arith)
among-true f (suc n) c j lt e = elim (Bool-cases (j == n)) [
  | inl last ↦ let here : f n ≡ c = ap f (ground arith) ∙ e in ground (arith, here)
  | inr before ↦ ground (arith, among-true f n c j (ground arith) e)
]

module _ (sb : Superblock) where
  -- The first `n` blocks of a row are free now, and but for them the free map, and all blocks
  -- that are not of the map, are as they were. An entry 0 of the row is no block, and block 0 is as used
  -- as before.
  pub record RowFreed (f : ℕ → ℕ) (n : ℕ) (s s' : Store) : Type 0 where
    pub map : (c : ℕ) → c ≢ 0 → used sb s' c ≡ (used sb s c && not (among f n c))
    pub boot : used sb s' 0 ≡ used sb s 0
    pub others : (b : ℕ) → ((c : ℕ) → c < sb.size → b ≢ bblock sb c) → s'.blocks b ≡ s.blocks b

  -- The blocks of a row are used, and no two of them are the same.
  pub record IsRow (f : ℕ → ℕ) (n : ℕ) (s : Store) : Type 0 where
    pub inside : (k : ℕ) → k < n → f k < sb.size
    pub in_use : (k : ℕ) → k < n → f k ≢ 0 → used sb s (f k) ≡ true
    pub distinct : (j k : ℕ) → j < k → k < n → f k ≢ 0 → f j ≢ f k

  pub RowFreed-zero : (f : ℕ → ℕ) (s : Store) → RowFreed f 0 s s
  RowFreed-zero f s = record { map = λ c nz. ground arith; boot = refl; others = λ b h. refl }

  -- an entry 0
  skip-RowFreed :
      (f : ℕ → ℕ) (n : ℕ) (s s' : Store) → f n ≡ 0 → RowFreed f n s s' → RowFreed f (suc n) s s'
  skip-RowFreed f n s s' z r = record {
    map = λ c nz. ground (arith, r.map c nz);
    boot = r.boot;
    others = r.others;
  }

  -- a block more
  bfree-RowFreed :
      (f : ℕ → ℕ) (n m : ℕ) (s s' : Store)
      → IsRow f m s
      → n < m
      → f n ≢ 0
      → RowFreed f n s s'
      → Safely (RowFreed f (suc n) s) (bfree sb (f n) s')
  bfree-RowFreed f n m s s' row lt nz r =
      let new = among-false f n (f n) (λ j j_lt. row.distinct j n j_lt lt nz) in
      let busy : used sb s' (f n) ≡ true =
        ground (arith, r.map (f n) nz, row.in_use n lt nz, new) in
      Safely-mono (bfree-Freed sb (f n) s' busy) (λ s'' d. record {
        map = λ c c_nz. ground (arith, d.map c, r.map c c_nz);
        boot = ground (arith, d.map 0, r.boot);
        others = λ b h. d.others b (h (f n) (row.inside n lt)) ∙ r.others b h;
      })

  -- the row in a block that is none of the map
  pub free_indirect-RowFreed :
      (rounds j addr : ℕ) (s s' : Store)
      → ((c : ℕ) → c < sb.size → addr ≢ bblock sb c)
      → j + rounds ≡ nindirect
      → IsRow (λ k. word (s.blocks addr) (4 * k)) nindirect s
      → RowFreed (λ k. word (s.blocks addr) (4 * k)) j s s'
      → Safely
          (RowFreed (λ k. word (s.blocks addr) (4 * k)) nindirect s)
          (free_indirect sb rounds j addr s')
  unfolding free_indirect
  free_indirect-RowFreed zero j addr s s' apart e row r =
      let done : j ≡ nindirect = omega arith in safely {a = s'} (rw done at r)
  free_indirect-RowFreed (suc rounds) j addr s s' apart e row r =
      let f : ℕ → ℕ = λ k. word (s.blocks addr) (4 * k) in
      let same : word (s'.blocks addr) (4 * j) ≡ f j =
        ap (λ (bytes : Block). word bytes (4 * j)) (r.others addr apart) in
      elim (Bool-cases (f j == 0)) [
        | inl z ↦
            rw (same, z)
              (free_indirect-RowFreed rounds (j + 1) addr s s' apart (omega arith) row
                (rw (sym (add-one j)) at (skip-RowFreed f j s s' (ground arith) r)))
        | inr nz ↦
            rw (same, nz)
              (Safely-bind (bfree-RowFreed f j nindirect s s' row (omega arith) (ground arith) r)
                (λ s1 r1.
                  free_indirect-RowFreed rounds (j + 1) addr s s1 apart (omega arith) row
                    (rw (sym (add-one j)) at r1)))
      ]

  -- The direct blocks, where `old` is the inode before.
  pub record DirectFreed (n : ℕ) (old : Inode) (s : Store) (r : Inode × Store) : Type 0 where
    pub addrs : (k : ℕ) → r.0.addrs k ≡ (if ltb k n then 0 else old.addrs k)
    pub only : r.0 ≡ record old { addrs = r.0.addrs }
    pub row : RowFreed old.addrs n s r.1

  pub free_direct-DirectFreed :
      (rounds i : ℕ) (old ip : Inode) (s s' : Store)
      → i + rounds ≡ ndirect
      → IsRow old.addrs ndirect s
      → DirectFreed i old s (ip, s')
      → Safely (DirectFreed ndirect old s) (free_direct sb rounds i ip s')
  unfolding free_direct
  free_direct-DirectFreed zero i old ip s s' e row d =
      let done : i ≡ ndirect = omega arith in safely {a = (ip, s')} (rw done at d)
  free_direct-DirectFreed (suc rounds) i old ip s s' e row d =
      let same : ip.addrs i ≡ old.addrs i = ground (arith, d.addrs i) in
      elim (Bool-cases (old.addrs i == 0)) [
        | inl z ↦
            let zero_here : (ip.addrs i == 0) ≡ true = ground arith in
            rw zero_here (
              free_direct-DirectFreed rounds (i + 1) old ip s s' (omega arith) row (record {
                addrs = λ k. ground (arith, d.addrs k);
                only = d.only;
                row = rw (sym (add-one i)) at (skip-RowFreed old.addrs i s s' (ground arith) d.row);
              }))
        | inr nz ↦
            let block_here : (ip.addrs i == 0) ≡ false = ground arith in
            let turn : Safely (DirectFreed (i + 1) old s) (
                bfree sb (old.addrs i) s' >>= λ s1.
                ok (record ip { addrs = update ip.addrs i 0 }, s1)) =
              Safely-bind
                (bfree-RowFreed old.addrs i ndirect s s' row (omega arith) (ground arith) d.row)
                (λ s1 r1. safely {a = (record ip { addrs = update ip.addrs i 0 }, s1)} (record {
                  addrs = λ k. ground (arith, update_lem ip.addrs i k 0, d.addrs k);
                  only = ap (λ (jp : Inode). record jp { addrs = update ip.addrs i 0 }) d.only;
                  row = rw (sym (add-one i)) at r1;
                })) in
            rw (block_here, same)
              (Safely-bind turn
                (λ r d1. free_direct-DirectFreed rounds (i + 1) old r.0 s r.1 (omega arith) row d1))
      ]
