-- ===== src/Bio/Unique.antt =====
-- A block has one buffer at most.
use risc_v_operating_system.Base.{
  ℕ, ◌<◌, ◌≡◌, refl, sym, ap, ◌∙◌, ◌≢◌, inl, inr, Bool, true, false, Option, none, some, List, [],
  ◌∷◌, arith, ◌==◌, Bool-cases, Option-cases, occurrences, length, update, update_self, update_lem,
  Run, ok, panic,
}
use risc_v_operating_system.Bio.{Buf, Cache, nbuf, holds, is_unused, acquire_buf, bget}
use risc_v_operating_system.Bio.Ring.{IsRing}
use risc_v_operating_system.Bio.Choice.{
  first_match, last_match, lru_recycle, lru_choose, lru_get, locked, bget-Lru,
}

-- No two buffers in the list hold one block of a device; device 0 is that of buffers not used so far.
abbrev pub IsOne : (ℕ → Buf) → List ℕ → Type 0
IsOne bufs bs =
    (a b : ℕ)
    → 0 < occurrences a bs
    → 0 < occurrences b bs
    → (bufs a).dev ≢ 0
    → (bufs a).dev ≡ (bufs b).dev
    → (bufs a).blockno ≡ (bufs b).blockno
    → a ≡ b

-- a buffer that passes the test, or none if there is none
abbrev IsPick : (Buf → Bool) → (ℕ → Buf) → List ℕ → Option ℕ → Type 0
IsPick test bufs bs none = (b : ℕ) → 0 < occurrences b bs → test (bufs b) ≡ false
IsPick test bufs bs (some b) = (0 < occurrences b bs) × (test (bufs b) ≡ true)

IsPick-cons :
    (test : Buf → Bool) (bufs : ℕ → Buf) (b : ℕ) (bs : List ℕ) (pick : Option ℕ)
    → test (bufs b) ≡ false
    → IsPick test bufs bs pick
    → IsPick test bufs (b ∷ bs) pick
IsPick-cons test bufs b bs none miss h = λ x at. elim (Bool-cases (x == b)) [
  | inl e ↦ let same : x ≡ b = ground arith in rw same miss
  | inr ne ↦ h x (ground arith)
]
IsPick-cons test bufs b bs (some x) miss h = (omega (arith, h.0), h.1)

first_match-IsPick :
    (test : Buf → Bool) (bufs : ℕ → Buf) (bs : List ℕ)
    → IsPick test bufs bs (first_match test bufs bs)
unfolding first_match
first_match-IsPick test bufs [] = λ b at. absurd (omega arith)
first_match-IsPick test bufs (b ∷ bs) = elim (Bool-cases (test (bufs b))) [
  | inl hit ↦ rw hit (ground arith, hit)
  | inr miss ↦
      rw miss (
        IsPick-cons test bufs b bs (first_match test bufs bs) miss
          (first_match-IsPick test bufs bs))
]

last_match-IsPick :
    (test : Buf → Bool) (bufs : ℕ → Buf) (bs : List ℕ)
    → IsPick test bufs bs (last_match test bufs bs)
unfolding last_match
last_match-IsPick test bufs [] = λ b at. absurd (omega arith)
last_match-IsPick test bufs (b ∷ bs) =
    let rest = last_match-IsPick test bufs bs in
    elim (Option-cases (last_match test bufs bs)) [
      | inr (x, e) ↦
          rw e (let h : IsPick test bufs bs (some x) = rw e at rest in (omega (arith, h.0), h.1))
      | inl e ↦ rw e (
          let h : IsPick test bufs bs none = rw e at rest in
          elim (Bool-cases (test (bufs b))) [
            | inl hit ↦ rw hit (ground arith, hit)
            | inr miss ↦ rw miss (IsPick-cons test bufs b bs none miss h)
          ])
    ]

-- what `bget` promises
abbrev pub IsBuffer : (dev blockno : ℕ) → Cache → List ℕ → Run (ℕ × Cache) → Type 0
IsBuffer dev blockno c bs panic =
    (b : ℕ)
    → 0 < occurrences b bs
    → (holds dev blockno (c.bufs b) ≡ false) × ((c.bufs b).refcnt ≢ 0)
IsBuffer dev blockno c bs (ok (b, c')) =
    (0 < occurrences b bs)
    × ((c'.bufs b).dev ≡ dev)
    × ((c'.bufs b).blockno ≡ blockno)
    × (c'.held b ≡ true)
    × IsOne c'.bufs bs
    × IsRing c' bs

-- a buffer becomes that of a block
become :
    (dev blockno : ℕ) (c : Cache) (bs : List ℕ) (b : ℕ) (buf : Buf)
    → IsRing c bs
    → c.held b ≡ false
    → 0 < occurrences b bs
    → buf.dev ≡ dev
    → buf.blockno ≡ blockno
    → IsOne (update c.bufs b buf) bs
    → IsBuffer dev blockno c bs (locked c (ok (b, update c.bufs b buf)))
unfolding acquire_buf
become dev blockno c bs b buf r idle at d n one = rw idle (
  at,
  ap (λ (x : Buf). x.dev) (update_self c.bufs b buf) ∙ d,
  ap (λ (x : Buf). x.blockno) (update_self c.bufs b buf) ∙ n,
  update_self c.held b true,
  one,
  record { chain = r.chain; once = r.once },
)

update-IsOne :
    (bufs : ℕ → Buf) (bs : List ℕ) (b : ℕ) (buf : Buf)
    → IsOne bufs bs
    → ((x : ℕ)
        → 0 < occurrences x bs
        → b ≢ x
        → (bufs x).dev ≡ buf.dev
        → (bufs x).blockno ≢ buf.blockno)
    → IsOne (update bufs b buf) bs
update-IsOne bufs bs b buf one alone x y = elim (Bool-cases (b == x)) [
  | inl ex ↦ elim (Bool-cases (b == y)) [
    | inl ey ↦ λ x_at y_at nz d n. ground arith
    | inr ey ↦
        rw (update_lem bufs b x buf, update_lem bufs b y buf, ex, ey)
          (λ x_at y_at nz d n. absurd (alone y y_at (ground arith) (sym d) (sym n)))
  ]
  | inr ex ↦ elim (Bool-cases (b == y)) [
    | inl ey ↦
        rw (update_lem bufs b x buf, update_lem bufs b y buf, ex, ey)
          (λ x_at y_at nz d n. absurd (alone x x_at (ground arith) d n))
    | inr ey ↦ rw (update_lem bufs b x buf, update_lem bufs b y buf, ex, ey) (one x y)
  ]
]

idle : (test : Bool) → test ≢ true → test ≡ false
idle true h = absurd (h refl)
idle false h = refl

-- On a ring where no block has two buffers, `bget` panics only if all buffers are in use and none
-- holds the block. Otherwise it returns a buffer for the block, locked, and no block has two
-- buffers then. The device must not be 0, and the process may hold locks only of buffers in use
-- that hold other blocks.
pub bget-IsBuffer :
    (dev blockno : ℕ) (c : Cache) (bs : List ℕ)
    → dev ≢ 0
    → IsRing c bs
    → length bs ≡ nbuf
    → IsOne c.bufs bs
    → ((b : ℕ) → c.held b ≡ true → (holds dev blockno (c.bufs b) ≡ false) × ((c.bufs b).refcnt ≢ 0))
    → IsBuffer dev blockno c bs (bget dev blockno c)
unfolding lru_get lru_choose lru_recycle
bget-IsBuffer dev blockno c bs nz r size one other = rw (bget-Lru dev blockno c bs r size).2 (
    let first = first_match-IsPick (holds dev blockno) c.bufs bs in
    elim (Option-cases (first_match (holds dev blockno) c.bufs bs)) [
      | inr (b, e) ↦
          let h : IsPick (holds dev blockno) c.bufs bs (some b) = rw e at first in
          rw e (
            become dev blockno c bs b _ r
              (idle (c.held b) (λ q. ground (arith, h.1, (other b q).0))) h.0 (ground (arith, h.1))
              (ground (arith, h.1))
              (update-IsOne c.bufs bs b _ one
                (λ x at ne d n. ne (one b x h.0 at (ground (arith, h.1)) (sym d) (sym n)))))
      | inl e ↦
          let last = last_match-IsPick is_unused c.bufs bs in
          let miss : IsPick (holds dev blockno) c.bufs bs none = rw e at first in
          rw e (elim (Option-cases (last_match is_unused c.bufs bs)) [
            | inl full ↦
                let busy : IsPick is_unused c.bufs bs none = rw full at last in
                rw full (λ b at. (miss b at, λ z. ground (arith, busy b at)))
            | inr (b, free) ↦
                let h : IsPick is_unused c.bufs bs (some b) = rw free at last in
                rw free (
                  become dev blockno c bs b _ r
                    (idle (c.held b) (λ q. ground (arith, h.1, (other b q).1))) h.0 refl refl
                    (update-IsOne c.bufs bs b _ one (λ x at ne d n. ground (arith, miss x at))))
          ])
    ])
