-- ===== src/Log/Header.antt =====
-- The header block of the log: what `write_head` puts into its words, and `read_head` takes out.
use risc_v_operating_system.Base.{
  ℕ, zero, suc, ◌+◌, ◌<◌, ◌≡◌, refl, ◌&&◌, arith, ltb, leb, if◌then◌else◌, update, update_lem,
  update_ne,
}
use risc_v_operating_system.Log.Device.{Block}
use risc_v_operating_system.Log.{read_entries, write_entries}

-- The words of a header block that lists the first `n` of `block`.
pub record HoldsHeader (b : Block) (n : ℕ) (block : ℕ → ℕ) : Type 0 where
  pub count : b 0 ≡ n
  pub entries : (i : ℕ) → i < n → b (i + 1) ≡ block i

read_entries-at :
    (b : Block) (rounds i : ℕ) (block : ℕ → ℕ) (j : ℕ)
    → read_entries b rounds i block j
      ≡ (if leb i j && ltb j (i + rounds) then b (j + 1) else block j)
unfolding read_entries
read_entries-at b zero i block j = ground arith
read_entries-at b (suc rounds) i block j = ground (
  arith,
  read_entries-at b rounds (i + 1) (update block i (b (i + 1))) j,
  update_lem block i j (b (i + 1)),
)

pub read_entries-lt :
    (b : Block) (n : ℕ) (block : ℕ → ℕ) (j : ℕ) → j < n → read_entries b n 0 block j ≡ b (j + 1)
read_entries-lt b n block j h = ground (arith, read_entries-at b n 0 block j)

write_entries-zero :
    (block : ℕ → ℕ) (rounds i : ℕ) (b : Block) → write_entries block rounds i b 0 ≡ b 0
unfolding write_entries
write_entries-zero block zero i b = refl
write_entries-zero block (suc rounds) i b =
    rw (write_entries-zero block rounds (i + 1) (update b (i + 1) (block i)))
      (update_ne b (i + 1) 0 (block i) (omega arith))

write_entries-at :
    (block : ℕ → ℕ) (rounds i : ℕ) (b : Block) (j : ℕ)
    → write_entries block rounds i b (j + 1)
      ≡ (if leb i j && ltb j (i + rounds) then block j else b (j + 1))
unfolding write_entries
write_entries-at block zero i b j = ground arith
write_entries-at block (suc rounds) i b j = ground (
  arith,
  write_entries-at block rounds (i + 1) (update b (i + 1) (block i)) j,
  update_lem b (i + 1) (j + 1) (block i),
)

-- the block that `write_head` writes
pub write_entries-HoldsHeader :
    (b : Block) (n : ℕ) (block : ℕ → ℕ)
    → HoldsHeader (write_entries block n 0 (update b 0 n)) n block
write_entries-HoldsHeader b n block = record {
  count = ground (arith, write_entries-zero block n 0 (update b 0 n), update_lem b 0 0 n);
  entries = λ i h. ground (arith, write_entries-at block n 0 (update b 0 n) i);
}
