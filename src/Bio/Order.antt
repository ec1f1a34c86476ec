-- ===== src/Bio/Order.antt =====
-- `brelse`: the ring is in the order of use.
use risc_v_operating_system.Base.{
  ℕ, ◌+◌, ◌-◌, ◌^◌, ◌<◌, ◌≡◌, ap, ◌∙◌, ◌≢◌, inl, inr, Bool, true, false, List, ◌∷◌, arith, ◌==◌,
  if◌then◌else◌, Bool-cases, occurrences, remove, occurrences-remove, update, update_self,
  update_ne, Safely, safely,
}
use risc_v_operating_system.Base.Word.{u32}
use risc_v_operating_system.Bio.{Buf, Cache, head, set_buf, link_front, unlink, brelse}
use risc_v_operating_system.Bio.Ring.{IsRing, unlink-IsRing, link_front-IsRing}

-- the list after a buffer is released, the last one used first
abbrev pub moved : ℕ → (last : Bool) → List ℕ → List ℕ
moved b last bs = if last then b ∷ remove b bs else bs

-- what `brelse` promises
pub record Released (c : Cache) (bs : List ℕ) (b : ℕ) (c' : Cache) : Type 0 where
  pub ring : IsRing c' (moved b ((c.bufs b).refcnt == 1) bs)
  pub count : c'.bufs b ≡ record (c.bufs b) { refcnt = (c.bufs b).refcnt - 1 }
  pub others : (x : ℕ) → b ≢ x → (c'.bufs x ≡ c.bufs x) × (c'.held x ≡ c.held x)
  pub unlocked : c'.held b ≡ false

to_front-IsRing :
    (c : Cache) (bs : List ℕ) (b : ℕ)
    → IsRing c bs
    → 0 < occurrences b bs
    → IsRing (link_front b (unlink b c)) (b ∷ remove b bs)
to_front-IsRing c bs b r at =
    let gone : occurrences b (head ∷ remove b bs) ≡ 0 =
      ground (arith, r.once b, occurrences-remove b b bs at) in
    link_front-IsRing (unlink b c) (remove b bs) b (unlink-IsRing c bs b r at) gone

-- Of a buffer in the ring that the process has locked, `brelse` gives up the lock and a reference
-- without a panic. With the last reference the buffer moves to the front of the ring, in
-- which the others keep their order; before that the ring stays as it is. Other buffers do not
-- change. The count is not zero before, and fits its type.
pub brelse-Released :
    (c : Cache) (bs : List ℕ) (b : ℕ)
    → IsRing c bs
    → 0 < occurrences b bs
    → c.held b ≡ true
    → 0 < (c.bufs b).refcnt
    → (c.bufs b).refcnt < 2 ^ 32
    → Safely (Released c bs b) (brelse b c)
unfolding brelse link_front unlink
brelse-Released c bs b r at mine used fits =
    let less : u32 ((c.bufs b).refcnt + (2 ^ 32 - 1)) ≡ (c.bufs b).refcnt - 1 = ground arith in
    let buf : Buf = record (c.bufs b) { refcnt = u32 ((c.bufs b).refcnt + (2 ^ 32 - 1)) } in
    let c1 = set_buf b buf (record c { held = update c.held b false }) in
    let r1 : IsRing c1 bs = record { chain = r.chain; once = r.once } in
    let count : c1.bufs b ≡ record (c.bufs b) { refcnt = (c.bufs b).refcnt - 1 } =
      update_self c.bufs b buf ∙ ap (λ n. record (c.bufs b) { refcnt = n }) less in
    let others : (x : ℕ) → b ≢ x → (c1.bufs x ≡ c.bufs x) × (c1.held x ≡ c.held x) =
      λ x ne. (update_ne c.bufs b x buf ne, update_ne c.held b x false ne) in
    rw mine (elim (Bool-cases ((c.bufs b).refcnt == 1)) [
      | inl last ↦
          let gone : (u32 ((c.bufs b).refcnt + (2 ^ 32 - 1)) == 0) ≡ true = ground arith in
          rw gone (
            safely (record {
              ring = rw last (to_front-IsRing c1 bs b r1 at);
              count = count;
              others = others;
              unlocked = update_self c.held b false;
            }))
      | inr more ↦
          let left : (u32 ((c.bufs b).refcnt + (2 ^ 32 - 1)) == 0) ≡ false = ground arith in
          rw left (
            safely (record {
              ring = rw more r1;
              count = count;
              others = others;
              unlocked = update_self c.held b false;
            }))
    ])
