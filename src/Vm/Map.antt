-- ===== src/Vm/Map.antt =====
-- `mappages`: the pages it maps.
use risc_v_operating_system.Base.{
  ℕ, suc, ◌+◌, ◌-◌, ◌*◌, ◌/◌, ◌%◌, ◌<◌, ◌≡◌, refl, ap, inl, inr, true, false, ◌&&◌, none, some,
  arith, ltb, leb, ◌==◌, if◌then◌else◌, Bool-cases, ok,
}
use risc_v_operating_system.Base.Word.{u64, lor}
use risc_v_operating_system.Kalloc.{Kmem, page_size}
use risc_v_operating_system.Vm.{
  maxva, pa2pte, pte_v, is_valid, entry, set_entry, walk_loop, walk, map_entry, minus_one, map_loop,
}
use risc_v_operating_system.Vm.View.{part}

-- a valid entry for the page at `pa`
abbrev pub leaf_entry : (pa perm : ℕ) → ℕ
leaf_entry pa perm = lor 64 (lor 64 (pa2pte pa) perm) pte_v

-- What a map has for an address after `n` pages from `a` on are mapped to those from `pa` on.
abbrev pub remapped : (a n pa perm : ℕ) → (ℕ → ℕ) → ℕ → ℕ
remapped a n pa perm before va =
    if leb a va && ltb va (a + n * page_size)
    then leaf_entry (pa + (va - a) / page_size * page_size) perm
    else before va

-- one page, then the rest
pub remapped-suc :
    (a n pa perm : ℕ) (f f' : ℕ → ℕ) (va : ℕ)
    → a % page_size ≡ 0
    → f' va ≡ (if part 0 a == part 0 va then leaf_entry pa perm else f va)
    → remapped (a + page_size) n (pa + page_size) perm f' va ≡ remapped a (suc n) pa perm f va
remapped-suc a n pa perm f f' va aligned e = elim (Bool-cases (ltb va a)) [
  | inl before ↦
      let other : (part 0 a == part 0 va) ≡ false = ground arith in
      let out : (leb (a + page_size) va && ltb va (a + page_size + n * page_size)) ≡ false =
        ground arith in
      let out' : (leb a va && ltb va (a + suc n * page_size)) ≡ false = ground arith in
      rw (out, out', e, other) refl
  | inr after ↦ elim (Bool-cases (ltb va (a + page_size))) [
    | inl here ↦
        let same : (part 0 a == part 0 va) ≡ true = ground arith in
        let out : (leb (a + page_size) va && ltb va (a + page_size + n * page_size)) ≡ false =
          ground arith in
        let in_ : (leb a va && ltb va (a + suc n * page_size)) ≡ true = ground arith in
        let first : pa ≡ pa + (va - a) / page_size * page_size = ground arith in
        rw (out, in_, e, same) (ap (λ x. leaf_entry x perm) first)
    | inr beyond ↦
        let other : (part 0 a == part 0 va) ≡ false = ground arith in
        elim (Bool-cases (ltb va (a + suc n * page_size))) [
          | inl inside ↦
              let in1 : (leb (a + page_size) va && ltb va (a + page_size + n * page_size)) ≡ true =
                ground arith in
              let in2 : (leb a va && ltb va (a + suc n * page_size)) ≡ true = ground arith in
              let next : pa + page_size + (va - (a + page_size)) / page_size * page_size
                  ≡ pa + (va - a) / page_size * page_size =
                ground arith in
              rw (in1, in2) (ap (λ x. leaf_entry x perm) next)
          | inr outside ↦
              let out1 : (leb (a + page_size) va && ltb va (a + page_size + n * page_size))
                  ≡ false =
                ground arith in
              let out2 : (leb a va && ltb va (a + suc n * page_size)) ≡ false = ground arith in
              rw (out1, out2, e, other) refl
        ]
  ]
]

-- a round of the loop, where `walk` finds no entry and where it finds one
pub map_loop-none :
    (fuel root a last pa perm : ℕ) (k k1 : Kmem)
    → a < maxva
    → walk_loop 2 true root a k ≡ (none, k1)
    → map_loop (suc fuel) root a last pa perm k ≡ ok (minus_one, k1)
unfolding map_loop walk map_entry
map_loop-none fuel root a last pa perm k k1 lt e =
    let test : leb maxva a ≡ false = ground arith in rw (test, e) refl

pub map_loop-some :
    (fuel root a last pa perm p : ℕ) (k k1 : Kmem)
    → a < maxva
    → walk_loop 2 true root a k ≡ (some p, k1)
    → is_valid (entry k1 p) ≡ false
    → map_loop (suc fuel) root a last pa perm k ≡ (
        if a == last
        then ok (0, set_entry p (leaf_entry pa perm) k1)
        else map_loop fuel root
            (u64 (a + page_size))
            last
            (u64 (pa + page_size))
            perm
            (set_entry p (leaf_entry pa perm) k1))
unfolding map_loop walk map_entry
map_loop-some fuel root a last pa perm p k k1 lt e invalid =
    let test : leb maxva a ≡ false = ground arith in rw (test, e, invalid) refl
