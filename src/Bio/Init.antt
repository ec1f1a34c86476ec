-- ===== src/Bio/Init.antt =====
-- `binit`: all buffers are in the ring.
use risc_v_operating_system.Base.{
  ℕ, zero, suc, ◌+◌, ◌<◌, ◌≡◌, refl, ap, ◌∙◌, false, ◌&&◌, List, [], ◌∷◌, arith, ltb, leb,
  if◌then◌else◌, occurrences, length, update, update_self,
}
use risc_v_operating_system.Bio.{Cache, nbuf, head, link_front, init_loop, binit}
use risc_v_operating_system.Bio.Ring.{IsRing, link_front-IsRing}

-- the buffers from `b + n - 1` down to `b`
abbrev pub down : (n b : ℕ) → List ℕ
down zero b = []
down (suc n) b = (b + n) ∷ down n b

occurrences-down :
    (n b x : ℕ) → occurrences x (down n b) ≡ (if leb b x && ltb x (b + n) then 1 else 0)
occurrences-down zero b x = ground arith
occurrences-down (suc n) b x = ground (arith, occurrences-down n b x)

length-down : (n b : ℕ) → length (down n b) ≡ n
length-down zero b = refl
length-down (suc n) b = ap suc (length-down n b)

down_next : (b : ℕ) → down (b + 1) 0 ≡ b ∷ down b 0
down_next b =
    let next : b + 1 ≡ suc b = omega arith in
    let start : 0 + b ≡ b = omega arith in ap (λ n. down n 0) next ∙ ap (λ x. x ∷ down b 0) start

down_once : (n b : ℕ) → b < n → occurrences b (down n 0) ≡ 1
down_once n b lt = ground (arith, occurrences-down n 0 b)

init_loop-IsRing :
    (rounds b : ℕ) (c : Cache)
    → b + rounds ≡ nbuf
    → IsRing c (down b 0)
    → IsRing (init_loop rounds b c) (down nbuf 0)
unfolding init_loop
init_loop-IsRing zero b c e r = let all : b ≡ nbuf = omega (arith, e) in rw all at r
init_loop-IsRing (suc rounds) b c e r =
    let c1 : Cache = record c { held = update c.held b false } in
    let r1 : IsRing c1 (down b 0) = record { chain = r.chain; once = r.once } in
    let new : occurrences b (head ∷ down b 0) ≡ 0 = ground (arith, occurrences-down b 0 b) in
    init_loop-IsRing rounds (b + 1) (link_front b c1) (omega (arith, e))
      (rw (down_next b) (link_front-IsRing c1 (down b 0) b r1 new))

-- From any memory, `binit` makes a ring of all 30 buffers, in which each stands once.
pub binit-IsRing :
    (c : Cache)
    → IsRing (binit c) (down nbuf 0)
      × ((b : ℕ) → b < nbuf → occurrences b (down nbuf 0) ≡ 1)
      × (length (down nbuf 0) ≡ nbuf)
unfolding binit
binit-IsRing c = (
  init_loop-IsRing nbuf 0 _ refl (record {
    chain = (update_self c.next head head, update_self c.prev head head);
    once = λ b. ground arith;
  }),
  λ b lt. down_once nbuf b lt,
  length-down nbuf 0,
)
