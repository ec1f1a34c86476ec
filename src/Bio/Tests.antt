-- ===== src/Bio/Tests.antt =====
-- The cache after its start, and after a block is read and released.
use risc_v_operating_system.Base.{
  ℕ, ◌≡◌, refl, inl, inr, true, false, List, arith, ◌==◌, if◌then◌else◌, Bool-cases, Safely,
}
use risc_v_operating_system.Bio.{Cache, first_walk, second_walk, nbuf, binit, bget, brelse}
use risc_v_operating_system.Bio.Ring.{IsRing}
use risc_v_operating_system.Bio.Order.{Released, brelse-Released}
use risc_v_operating_system.Bio.Choice.{ends, lru_get, locked, bget-Lru}
use risc_v_operating_system.Bio.Unique.{IsOne, IsBuffer, bget-IsBuffer}
use risc_v_operating_system.Bio.Init.{down, binit-IsRing}

-- memory before `binit`
abbrev zeros : Cache
zeros = record {
  bufs = λ b. record { valid = false; dev = 0; blockno = 0; refcnt = 0; bytes = λ i. 0 };
  next = λ b. 0;
  prev = λ b. 0;
  held = λ b. false;
}

abbrev order : List ℕ
order = down nbuf 0

-- buffer 29 holds block 5 of device 1, for the process at hand
abbrev cached : Cache
cached = record (binit zeros) {
  bufs = λ b.
      if b == 29
      then record { valid = true; dev = 1; blockno = 5; refcnt = 1; bytes = λ i. 7 }
      else zeros.bufs b;
  held = λ b. b == 29;
}

cached-IsRing : IsRing cached order
cached-IsRing = let r = (binit-IsRing zeros).0 in record { chain = r.chain; once = r.once }

brelse-Released_example : Safely (Released cached order 29) (brelse 29 cached)
brelse-Released_example =
    brelse-Released cached order 29 cached-IsRing (omega arith) refl (omega arith) (omega arith)

bget-Lru_example :
    (ends (first_walk 1 6 cached) ≡ true)
    × (ends (second_walk cached) ≡ true)
    × (bget 1 6 cached ≡ locked cached (lru_get 1 6 cached.bufs order))
bget-Lru_example = bget-Lru 1 6 cached order cached-IsRing refl

dev_at : (b : ℕ) → (cached.bufs b).dev ≡ (if b == 29 then 1 else 0)
dev_at b = elim (Bool-cases (b == 29)) [ inl e ↦ rw e refl | inr e ↦ rw e refl ]

cached-IsOne : IsOne cached.bufs order
cached-IsOne a b a_at b_at nz d n = ground (arith, dev_at a, dev_at b)

bget-IsBuffer_example : IsBuffer 1 6 cached order (bget 1 6 cached)
bget-IsBuffer_example =
    bget-IsBuffer 1 6 cached order (omega arith) cached-IsRing refl cached-IsOne
      (λ b h. let at : b ≡ 29 = ground arith in rw at (refl, omega arith))
