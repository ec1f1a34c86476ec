-- ===== src/Fs/Free.antt =====
-- `bfree`, and when the two operations panic.
use risc_v_operating_system.Base.{
  ℕ, zero, suc, ◌+◌, ◌/◌, ◌%◌, ◌^◌, ◌<◌, ◌≡◌, refl, sym, ◌≢◌, ◌↔◌, inl, inr, true, false, some,
  arith, ltb, ◌==◌, if◌then◌else◌, Bool-cases, Option-cases, update_ne, update_lem, panic, ◌>>=◌,
  Safely, safely, Safely-bind, Safely-mono,
}
use risc_v_operating_system.Base.Word.{u32}
use risc_v_operating_system.Fs.{
  bpb, Superblock, Store, keep, bblock, is_free, mark_free, find_free, balloc_loop, balloc, bfree,
}
use risc_v_operating_system.Fs.Bitmap.{is_free-mark_free}
use risc_v_operating_system.Fs.Alloc.{Found, find_free-Found, used, IsMapped, balloc-Taken}

module _ (sb : Superblock) where
  -- what `bfree` promises
  pub record Freed (b : ℕ) (s s' : Store) : Type 0 where
    pub map : (c : ℕ) → used sb s' c ≡ (if c == b then false else used sb s c)
    pub others : (c : ℕ) → c ≢ bblock sb b → s'.blocks c ≡ s.blocks c

  -- `bfree` of a used block marks it free, and changes no other block's use and no block's contents
  -- but those of its block of the map.
  pub bfree-Freed : (b : ℕ) (s : Store) → used sb s b ≡ true → Safely (Freed b s) (bfree sb b s)
  unfolding bfree keep
  bfree-Freed b s busy =
      let go : is_free (s.blocks (bblock sb b)) (b % bpb) ≡ false = ground arith in
      let marked = mark_free (s.blocks (bblock sb b)) (b % bpb) in
      rw go (
        safely {a = keep (bblock sb b) marked s} (record {
          map = λ c. elim (Bool-cases (bblock sb b == bblock sb c)) [
            | inl e ↦
                let same : bblock sb b ≡ bblock sb c = ground arith in
                let test : (c % bpb == b % bpb) ≡ (c == b) = ground arith in
                let bits = is_free-mark_free (s.blocks (bblock sb b)) (b % bpb) (c % bpb) in
                rw (update_lem s.blocks (bblock sb b) (bblock sb c) marked, e)
                  (rw (bits, test, same)
                    (elim (Bool-cases (c == b)) [ inl t ↦ rw t refl | inr t ↦ rw t refl ]))
            | inr ne ↦
                let other : (c == b) ≡ false = ground arith in
                rw (update_lem s.blocks (bblock sb b) (bblock sb c) marked, ne, other) refl
          ];
          others = λ c ne. update_ne s.blocks (bblock sb b) c marked (λ e. ne (sym e));
        }))

  -- `bfree` panics exactly at a block that is free.
  pub bfree-panic_iff : (b : ℕ) (s : Store) → (bfree sb b s ≡ panic) ↔ (used sb s b ≡ false)
  unfolding bfree
  bfree-panic_iff b s = (λ e. ground (arith, e), λ free. ground arith)

  balloc_loop-panic :
      (fuel b : ℕ) (s : Store)
      → b % bpb ≡ 0
      → sb.size + bpb < 2 ^ 32
      → ((c : ℕ) → c < sb.size → used sb s c ≡ true)
      → balloc_loop sb fuel b s ≡ panic
  unfolding balloc_loop
  balloc_loop-panic zero b s aligned small full = refl
  balloc_loop-panic (suc fuel) b s aligned small full = elim (Bool-cases (ltb b sb.size)) [
    | inr past ↦ rw past refl
    | inl more ↦
        let f = find_free-Found bpb 0 b sb.size (s.blocks (bblock sb b)) in
        elim (Option-cases (find_free bpb 0 b sb.size (s.blocks (bblock sb b)))) [
          | inl e ↦
              let next : u32 (b + bpb) ≡ b + bpb = ground arith in
              rw (more, e, next) (balloc_loop-panic fuel (b + bpb) s (omega arith) small full)
          | inr (bi, e) ↦
              let g : Found bpb 0 b sb.size (s.blocks (bblock sb b)) (some bi) = rw e at f in
              let taken = full (b + bi) g.2 in
              let block : bblock sb (b + bi) ≡ bblock sb b = omega (arith, g.1) in
              let index : (b + bi) % bpb ≡ bi = omega (arith, g.1) in
              let clash : false ≡ true = rw (block, index, g.3) at taken in absurd (cc)
        ]
  ]

  -- `balloc` panics if all blocks are used.
  pub balloc-panic :
      (s : Store)
      → sb.size < 2 ^ 31
      → ((c : ℕ) → c < sb.size → used sb s c ≡ true)
      → balloc sb s ≡ panic
  unfolding balloc
  balloc-panic s small full = balloc_loop-panic (sb.size / bpb + 2) 0 s refl (omega arith) full

  -- `bfree` of what `balloc` returned gives back the free map as it was.
  pub bfree-balloc :
      (s : Store) (c : ℕ)
      → IsMapped sb s
      → c < sb.size
      → used sb s c ≡ false
      → Safely
          (λ s'. (d : ℕ) → d < sb.size → used sb s' d ≡ used sb s d)
          (balloc sb s >>= λ r. bfree sb r.0 r.1)
  bfree-balloc s c w small free = Safely-bind (balloc-Taken sb s c w small free) (λ r t.
      let own : used sb r.1 r.0 ≡ true = ground (arith, t.map r.0 t.inside) in
      Safely-mono (bfree-Freed r.0 r.1 own)
        (λ s' f d lt. ground (arith, f.map d, t.map d lt, t.was_free)))
