-- ===== src/Bio/Choice.antt =====
-- `bget` seen from outside: a list of buffers, the last one used first.
use risc_v_operating_system.Base.{
  ℕ, zero, suc, ◌+◌, ◌<◌, ◌≡◌, refl, ap, ◌∙◌, inl, inr, Bool, true, false, Option, none, some, List,
  [], ◌∷◌, arith, ◌==◌, if◌then◌else◌, Bool-cases, Option-cases, occurrences, length, update, Run,
  ok, panic, ◌>>=◌,
}
use risc_v_operating_system.Base.Word.{u32}
use risc_v_operating_system.Bio.{
  Buf, Cache, Walk, stopped, ended, endless, first_walk, second_walk, nbuf, head, holds, is_unused,
  walk, acquire_buf, finish_first, finish_second, bget,
}
use risc_v_operating_system.Bio.Ring.{IsChain, IsRing}

-- the first buffer in the list that passes the test, and the last one
unfoldable pub first_match : (Buf → Bool) → (ℕ → Buf) → List ℕ → Option ℕ
first_match test bufs [] = none
first_match test bufs (b ∷ bs) =
    let rest = first_match test bufs bs in if test (bufs b) then some b else rest

unfoldable pub last_match : (Buf → Bool) → (ℕ → Buf) → List ℕ → Option ℕ
last_match test bufs [] = none
last_match test bufs (b ∷ bs) = elim (last_match test bufs bs) [
  | some x ↦ some x
  | none ↦ if test (bufs b) then some b else none
]

-- The buffer that a block gets: the one that holds it, or else the one in no use that was used
-- longest ago.
unfoldable pub lru_recycle : (dev blockno : ℕ) → (ℕ → Buf) → Option ℕ → Run (ℕ × (ℕ → Buf))
lru_recycle dev blockno bufs none = panic
lru_recycle dev blockno bufs (some b) =
    ok (
      b,
      update bufs b (record (bufs b) { dev = dev; blockno = blockno; valid = false; refcnt = 1 }),
    )

unfoldable pub lru_choose : (dev blockno : ℕ) → (ℕ → Buf) → List ℕ → Option ℕ → Run (ℕ × (ℕ → Buf))
lru_choose dev blockno bufs bs none = lru_recycle dev blockno bufs (last_match is_unused bufs bs)
lru_choose dev blockno bufs bs (some b) =
    ok (b, update bufs b (record (bufs b) { refcnt = u32 ((bufs b).refcnt + 1) }))

unfoldable pub lru_get : (dev blockno : ℕ) → (ℕ → Buf) → List ℕ → Run (ℕ × (ℕ → Buf))
lru_get dev blockno bufs bs =
    lru_choose dev blockno bufs bs (first_match (holds dev blockno) bufs bs)

-- a choice, and the lock of what was chosen
abbrev pub locked : Cache → Run (ℕ × (ℕ → Buf)) → Run (ℕ × Cache)
locked c r =
    r >>= λ (q : ℕ × (ℕ → Buf)). acquire_buf q.0 (record c { bufs = q.1 }) >>= λ c'. ok (q.0, c')

abbrev walk_of : Option ℕ → Walk
walk_of none = ended
walk_of (some b) = stopped b

walk-first :
    (next prev : ℕ → ℕ) (test : Buf → Bool) (c : Cache) (fuel a : ℕ) (bs : List ℕ)
    → IsChain next prev a bs head
    → occurrences head bs ≡ 0
    → length bs < fuel
    → walk fuel (next a) next test c ≡ walk_of (first_match test c.bufs bs)
unfolding walk first_match
walk-first next prev test c zero a bs h out enough = absurd (omega arith)
walk-first next prev test c (suc fuel) a [] h out enough =
    let stop : (next a == head) ≡ true = ground (arith, h.0) in rw stop refl
walk-first next prev test c (suc fuel) a (b ∷ bs) h out enough =
    let go : (b == head) ≡ false = ground arith in
    let rest = walk-first next prev test c fuel b bs h.2 (ground arith) (omega arith) in
    rw (h.0, go)
      (elim (Bool-cases (test (c.bufs b))) [ inl hit ↦ rw hit refl | inr miss ↦ rw miss rest ])

-- A walk back over a part of the ring goes on before it, if nothing there passes the test.
abbrev walk_back : Option ℕ → Walk → Walk
walk_back none rest = rest
walk_back (some b) rest = stopped b

step_back :
    (next prev : ℕ → ℕ) (test : Buf → Bool) (c : Cache) (fuel a b : ℕ) (bs : List ℕ) (z : ℕ)
    → IsChain next prev a (b ∷ bs) z
    → (b == head) ≡ false
    → walk (suc fuel) b prev test c
      ≡ walk_back (if test (c.bufs b) then some b else none) (walk fuel a prev test c)
unfolding walk
step_back next prev test c fuel a b bs z h go =
    rw (go, h.1)
      (elim (Bool-cases (test (c.bufs b))) [ inl hit ↦ rw hit refl | inr miss ↦ rw miss refl ])

walk-last :
    (next prev : ℕ → ℕ) (test : Buf → Bool) (c : Cache) (n fuel a : ℕ) (bs : List ℕ) (z : ℕ)
    → IsChain next prev a bs z
    → occurrences head bs ≡ 0
    → n ≡ length bs + fuel
    → walk n (prev z) prev test c ≡ walk_back (last_match test c.bufs bs) (walk fuel a prev test c)
unfolding last_match
walk-last next prev test c n fuel a [] z h out e =
    let same : n ≡ fuel = omega (arith, e) in rw (h.1, same) refl
walk-last next prev test c n fuel a (b ∷ bs) z h out e =
    let back =
      walk-last next prev test c n (suc fuel) b bs z h.2 (ground arith) (omega (arith, e)) in
    elim (Option-cases (last_match test c.bufs bs)) [
      | inl missed ↦
          rw missed (rw missed at back ∙ step_back next prev test c fuel a b bs z h (ground arith))
      | inr (x, found_at) ↦ rw found_at (rw found_at at back)
    ]

-- The loop comes to its end.
abbrev pub ends : Walk → Bool
ends (stopped b) = true
ends ended = true
ends endless = false

walk_of-ends : (o : Option ℕ) → ends (walk_of o) ≡ true
walk_of-ends none = refl
walk_of-ends (some b) = refl

first_walk-of :
    (dev blockno : ℕ) (c : Cache) (bs : List ℕ)
    → IsRing c bs
    → length bs ≡ nbuf
    → first_walk dev blockno c ≡ walk_of (first_match (holds dev blockno) c.bufs bs)
unfolding first_walk
first_walk-of dev blockno c bs r size =
    walk-first c.next c.prev (holds dev blockno) c (nbuf + 1) head bs r.chain
      (ground (arith, r.once head)) (omega (arith, size))

second_walk-of :
    (c : Cache) (bs : List ℕ)
    → IsRing c bs
    → length bs ≡ nbuf
    → second_walk c ≡ walk_of (last_match is_unused c.bufs bs)
unfolding second_walk walk
second_walk-of c bs r size =
    let last =
      walk-last c.next c.prev is_unused c (nbuf + 1) 1 head bs head r.chain
        (ground (arith, r.once head)) (omega (arith, size)) in
    last ∙ elim (Option-cases (last_match is_unused c.bufs bs)) [
      | inl missed ↦ rw missed refl
      | inr (x, found_at) ↦ rw found_at refl
    ]

second_round :
    (dev blockno : ℕ) (c : Cache) (bs : List ℕ)
    → IsRing c bs
    → length bs ≡ nbuf
    → finish_second dev blockno (second_walk c) c
      ≡ locked c (lru_recycle dev blockno c.bufs (last_match is_unused c.bufs bs))
unfolding finish_second lru_recycle
second_round dev blockno c bs r size =
    rw (second_walk-of c bs r size) (elim (Option-cases (last_match is_unused c.bufs bs)) [
      | inl missed ↦ rw missed refl
      | inr (x, found_at) ↦ rw found_at refl
    ])

-- On a ring, both loops of `bget` come to their end, and `bget` takes the buffer that the list
-- gives: the one that holds the block, or else among the buffers in no use the one that was used
-- longest ago; it panics if there is neither, or if it holds that buffer's lock already. All other
-- buffers, the ring and the other locks stay as they are.
pub bget-Lru :
    (dev blockno : ℕ) (c : Cache) (bs : List ℕ)
    → IsRing c bs
    → length bs ≡ nbuf
    → (ends (first_walk dev blockno c) ≡ true)
      × (ends (second_walk c) ≡ true)
      × (bget dev blockno c ≡ locked c (lru_get dev blockno c.bufs bs))
unfolding bget lru_get finish_first lru_choose
bget-Lru dev blockno c bs r size =
    let first = first_walk-of dev blockno c bs r size in
    (
      ap ends first ∙ walk_of-ends _,
      ap ends (second_walk-of c bs r size) ∙ walk_of-ends _,
      rw first (elim (Option-cases (first_match (holds dev blockno) c.bufs bs)) [
        | inl missed ↦ rw missed (second_round dev blockno c bs r size)
        | inr (x, found_at) ↦ rw found_at refl
      ]),
    )
