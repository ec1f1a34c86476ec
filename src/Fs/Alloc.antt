-- ===== src/Fs/Alloc.antt =====
-- `balloc` and `bfree` against the set of used blocks.
use risc_v_operating_system.Base.{
  ℕ, zero, suc, ◌+◌, ◌-◌, ◌/◌, ◌%◌, ◌^◌, ◌≤◌, ◌<◌, ◌≡◌, refl, sym, ap, ◌∙◌, ◌≢◌, inl, inr, Bool,
  true, false, not, Option, none, some, arith, ltb, ◌==◌, if◌then◌else◌, Bool-cases, Option-cases,
  update, update_self, update_ne, update_lem, Safely, safely,
}
use risc_v_operating_system.Base.Word.{u32}
use risc_v_operating_system.Fs.{
  bpb, Superblock, Block, Store, keep, bzero, bblock, is_free, mark_used, find_free, balloc_loop,
  balloc,
}
use risc_v_operating_system.Fs.Bitmap.{is_free-mark_used}

-- What the scan of a map block finds.
abbrev pub Found : (rounds bi b size : ℕ) → Block → Option ℕ → Type 0
Found rounds bi b size bytes none =
    (i : ℕ) → bi ≤ i → i < bi + rounds → b + i < size → is_free bytes i ≡ false
Found rounds bi b size bytes (some j) =
    (bi ≤ j)
    × (j < bi + rounds)
    × (b + j < size)
    × (is_free bytes j ≡ true)
    × ((i : ℕ) → bi ≤ i → i < j → is_free bytes i ≡ false)

Found-later :
    (rounds bi b size : ℕ) (bytes : Block) (o : Option ℕ)
    → is_free bytes bi ≡ false
    → Found rounds (bi + 1) b size bytes o
    → Found (suc rounds) bi b size bytes o
Found-later rounds bi b size bytes none busy f = λ i le lt small. elim (Bool-cases (bi == i)) [
  | inl e ↦ let same : bi ≡ i = ground arith in rw same at busy
  | inr ne ↦ f i (ground arith) (omega arith) small
]
Found-later rounds bi b size bytes (some j) busy (le, lt, small, free, before) = (
  omega arith,
  omega arith,
  small,
  free,
  λ i le' lt'. elim (Bool-cases (bi == i)) [
    | inl e ↦ let same : bi ≡ i = ground arith in rw same at busy
    | inr ne ↦ before i (ground arith) lt'
  ],
)

pub find_free-Found :
    (rounds bi b size : ℕ) (bytes : Block)
    → Found rounds bi b size bytes (find_free rounds bi b size bytes)
unfolding find_free
find_free-Found zero bi b size bytes = λ i le lt small. absurd (omega arith)
find_free-Found (suc rounds) bi b size bytes = elim (Bool-cases (ltb (b + bi) size)) [
  | inr out ↦ rw out (λ i le lt small. absurd (ground arith))
  | inl inside ↦ elim (Bool-cases (is_free bytes bi)) [
    | inl free ↦
        rw (inside, free)
          (omega arith, omega arith, ground arith, free, λ i le lt. absurd (omega arith))
    | inr busy ↦
        rw (inside, busy)
          (Found-later rounds bi b size bytes _ busy (find_free-Found rounds (bi + 1) b size bytes))
  ]
]

module _ (sb : Superblock) where
  -- Is block `b` used, by the free map?
  abbrev pub used : Store → ℕ → Bool
  used s b = not (is_free (s.blocks (bblock sb b)) (b % bpb))

  -- The blocks of the free map are used themselves, and the file system is not too large for `int`.
  pub record IsMapped (s : Store) : Type 0 where
    pub small : sb.size < 2 ^ 31
    pub map_inside : (b : ℕ) → b < sb.size → bblock sb b < sb.size
    pub map_used : (b : ℕ) → b < sb.size → used s (bblock sb b) ≡ true

  -- What `balloc` promises: the block was free and is now used and all zeros; no other block's use
  -- changes, and no block changes but this one and its block of the map.
  pub record Taken (s : Store) (r : ℕ × Store) : Type 0 where
    pub inside : r.0 < sb.size
    pub was_free : used s r.0 ≡ false
    pub first : (c : ℕ) → c < r.0 → used s c ≡ true
    pub zeroed : (i : ℕ) → r.1.blocks r.0 i ≡ 0
    pub map : (c : ℕ) → c < sb.size → used r.1 c ≡ (if c == r.0 then true else used s c)
    pub others : (c : ℕ) → c ≢ r.0 → c ≢ bblock sb r.0 → r.1.blocks c ≡ s.blocks c

  abbrev take_block : (b bi : ℕ) → Store → Store
  take_block b bi s = bzero (b + bi) (keep (bblock sb b) (mark_used (s.blocks (bblock sb b)) bi) s)

  -- A free block is no block of the map.
  pub apart_from_map :
      (b c : ℕ) (s : Store)
      → IsMapped s
      → used s b ≡ false
      → c < sb.size
      → (b == bblock sb c) ≡ false
  apart_from_map b c s w free small = elim (Bool-cases (b == bblock sb c)) [
    | inl e ↦
        let same : bblock sb c ≡ b = ground arith in
        let taken : used s b ≡ true = rw same at (w.map_used c small) in
        let clash : true ≡ false = sym taken ∙ free in absurd (cc)
    | inr ne ↦ ne
  ]

  used-take_block :
      (b bi : ℕ) (s : Store) (c : ℕ)
      → b % bpb ≡ 0
      → bi < bpb
      → (b + bi == bblock sb c) ≡ false
      → used (take_block b bi s) c ≡ (if c == b + bi then true else used s c)
  unfolding bzero keep
  used-take_block b bi s c aligned lt apart =
      let marked = mark_used (s.blocks (bblock sb b)) bi in
      let kept = update s.blocks (bblock sb b) marked in
      rw (update_lem kept (b + bi) (bblock sb c) (λ j. 0), apart)
        (elim (Bool-cases (bblock sb b == bblock sb c)) [
          | inl e ↦
              let same : bblock sb b ≡ bblock sb c = ground arith in
              let bits = is_free-mark_used (s.blocks (bblock sb b)) bi (c % bpb) in
              rw (update_lem s.blocks (bblock sb b) (bblock sb c) marked, e)
                (let test : (c % bpb == bi) ≡ (c == b + bi) = ground arith in
                  rw (bits, test, same)
                    (elim (Bool-cases (c == b + bi)) [ inl t ↦ rw t refl | inr t ↦ rw t refl ]))
          | inr ne ↦
              let other : (c == b + bi) ≡ false = ground arith in
              rw (update_lem s.blocks (bblock sb b) (bblock sb c) marked, ne, other) refl
        ])

  take_block-Taken :
      (b bi : ℕ) (s : Store)
      → IsMapped s
      → b % bpb ≡ 0
      → bi < bpb
      → b + bi < sb.size
      → is_free (s.blocks (bblock sb b)) bi ≡ true
      → ((c : ℕ) → c < b + bi → used s c ≡ true)
      → Taken s (b + bi, take_block b bi s)
  unfolding bzero keep
  take_block-Taken b bi s w aligned lt inside free before =
      let block : bblock sb (b + bi) ≡ bblock sb b = omega arith in
      let index : (b + bi) % bpb ≡ bi = omega arith in
      let unused : used s (b + bi) ≡ false = rw (block, index, free) refl in
      let marked = mark_used (s.blocks (bblock sb b)) bi in
      record {
        inside = inside;
        was_free = unused;
        first = before;
        zeroed = λ i. ap (λ (f : Block). f i) (update_self _ (b + bi) (λ j. 0));
        map = λ c small.
            used-take_block b bi s c aligned lt (apart_from_map (b + bi) c s w unused small);
        others = λ c ne ne'.
            update_ne _ (b + bi) c _ (λ e. ne (sym e))
            ∙ update_ne s.blocks (bblock sb b) c marked (λ e. ne' (sym e ∙ sym block));
      }

  -- one block of the map more
  used_below :
      (b : ℕ) (s : Store) (d m : ℕ)
      → b % bpb ≡ 0
      → d < m
      → (d < b → d < sb.size → used s d ≡ true)
      → ((i : ℕ) → i < m - b → b + i < sb.size → is_free (s.blocks (bblock sb b)) i ≡ false)
      → m ≤ b + bpb
      → d < sb.size
      → used s d ≡ true
  used_below b s d m aligned lt before here top inside = elim (Bool-cases (ltb d b)) [
    | inl below ↦ before (ground arith) inside
    | inr above ↦
        let block : bblock sb d ≡ bblock sb b = ground arith in
        let index : d % bpb ≡ d - b = ground arith in
        rw (block, index, here (d - b) (ground arith) (ground arith)) refl
  ]

  -- the scan from block `b` on
  balloc_loop-Taken :
      (fuel b : ℕ) (s : Store) (c : ℕ)
      → IsMapped s
      → b % bpb ≡ 0
      → b ≤ sb.size + bpb
      → sb.size / bpb + 1 < b / bpb + fuel
      → ((d : ℕ) → d < b → d < sb.size → used s d ≡ true)
      → c < sb.size
      → used s c ≡ false
      → Safely (Taken s) (balloc_loop sb fuel b s)
  unfolding balloc_loop
  balloc_loop-Taken zero b s c w aligned near enough before small free =
      absurd (omega (arith, w.small))
  balloc_loop-Taken (suc fuel) b s c w aligned near enough before small free =
      elim (Bool-cases (ltb b sb.size)) [
        | inr past ↦
            let taken = before c (ground arith) small in
            let clash : true ≡ false = sym taken ∙ free in absurd (cc)
        | inl more ↦
            let f = find_free-Found bpb 0 b sb.size (s.blocks (bblock sb b)) in
            elim (Option-cases (find_free bpb 0 b sb.size (s.blocks (bblock sb b)))) [
              | inl e ↦
                  let full : Found bpb 0 b sb.size (s.blocks (bblock sb b)) none = rw e at f in
                  let next : u32 (b + bpb) ≡ b + bpb = omega (arith, w.small) in
                  rw (more, e, next)
                    (balloc_loop-Taken fuel (b + bpb) s c w (omega arith) (ground arith)
                      (omega arith)
                      (λ d lt inside.
                        used_below b s d (b + bpb) aligned lt (before d)
                          (λ i i_lt i_in. full i (omega arith) (omega arith) i_in) (omega arith)
                          inside)
                      small free)
              | inr (bi, e) ↦
                  let g : Found bpb 0 b sb.size (s.blocks (bblock sb b)) (some bi) = rw e at f in
                  rw (more, e)
                    (safely (
                      take_block-Taken b bi s w aligned g.1 g.2 g.3 (λ d lt.
                        used_below b s d (b + bi) aligned lt (before d)
                          (λ i i_lt i_in. g.4 i (omega arith) (omega arith)) (omega (arith, g.1))
                          (omega (arith, g.2)))))
            ]
      ]

  -- Where the free map is in order and not all blocks are used, `balloc` returns the first free
  -- block. It is used then and all zeros, no other block's use changes, and no block's contents
  -- change but its own and those of its block of the map.
  pub balloc-Taken :
      (s : Store) (c : ℕ)
      → IsMapped s
      → c < sb.size
      → used s c ≡ false
      → Safely (Taken s) (balloc sb s)
  unfolding balloc
  balloc-Taken s c w small free =
      balloc_loop-Taken (sb.size / bpb + 2) 0 s c w refl (omega arith) (omega arith)
        (λ d lt. absurd (omega arith)) small free
