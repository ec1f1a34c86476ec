-- ===== src/Contents/Read.antt =====
-- `readi`: the bytes of a file are put in memory.
use risc_v_operating_system.Base.{
  ℕ, zero, suc, ◌+◌, ◌-◌, ◌/◌, ◌%◌, ◌^◌, ◌≤◌, ◌<◌, ◌≡◌, refl, sym, ap, ◌∙◌, inl, inr, Bool, true,
  false, ◌&&◌, arith, ltb, leb, if◌then◌else◌, Bool-cases, Safely, safely,
}
use risc_v_operating_system.Base.Word.{u32, u64}
use risc_v_operating_system.Fs.{Superblock, Store, bsize}
use risc_v_operating_system.Inode.{Inode}
use risc_v_operating_system.Contents.{Memory, copied, chunk, either_copyout, readi_loop, readi}
use risc_v_operating_system.Contents.Data.{block_of, content, IsFilled, bmap-present}

-- the memory after `len` bytes of a file from `off` on have been read to `dst`
abbrev pub with_content : Inode → Store → (off dst len : ℕ) → Memory → Memory
with_content ip s off dst len mem = copied dst (λ j. content ip s (off + j)) len mem

-- how many of `n` bytes from `off` on there are
abbrev pub readable : (size off n : ℕ) → ℕ
readable size off n = if ltb size (off + n) then size - off else n

-- what `readi` promises, with a file and a disk that are as they were
pub record HasRead (ip : Inode) (s : Store) (off dst len : ℕ) (mem : Memory)
    (r : ℕ × Memory × Inode × Store) : Type 0 where
  pub count : r.0 ≡ len
  pub memory : (i : ℕ) → r.1 i ≡ with_content ip s off dst len mem i
  pub inode : r.2 ≡ ip
  pub store : r.3 ≡ s

-- a chunk more
copied-more :
    (ip : Inode) (s : Store) (off dst tot m : ℕ) (mem now : Memory) (i : ℕ)
    → m ≤ bsize - (off + tot) % bsize
    → ((k : ℕ) → now k ≡ with_content ip s off dst tot mem k)
    → copied
        (dst + tot)
        (λ j. s.blocks (block_of ip s ((off + tot) / bsize)) ((off + tot) % bsize + j))
        m
        now
        i
      ≡ with_content ip s off dst (tot + m) mem i
unfolding copied content
copied-more ip s off dst tot m mem now i le h =
    elim (Bool-cases (leb (dst + tot) i && ltb i (dst + tot + m))) [
      | inl fresh ↦
          let in_all : leb dst i && ltb i (dst + (tot + m)) ≡ true = ground arith in
          let block : (off + (i - dst)) / bsize ≡ (off + tot) / bsize = ground arith in
          let byte : (off + (i - dst)) % bsize ≡ (off + tot) % bsize + (i - (dst + tot)) =
            ground arith in
          let same : content ip s (off + (i - dst))
              ≡ s.blocks (block_of ip s ((off + tot) / bsize))
                  ((off + tot) % bsize + (i - (dst + tot))) =
            ap (λ q. s.blocks (block_of ip s q) ((off + (i - dst)) % bsize)) block
            ∙ ap (s.blocks (block_of ip s ((off + tot) / bsize))) byte in
          rw (fresh, in_all) (sym same)
      | inr other ↦
          let same : leb dst i && ltb i (dst + (tot + m)) ≡ leb dst i && ltb i (dst + tot) =
            ground arith in
          rw (other, same) (h i)
    ]

module _ (sb : Superblock)
    (copyout : (dst : ℕ) → (from : ℕ → ℕ) → (len : ℕ) → Memory → Bool × Memory) where
  readi_loop-HasRead :
      (fuel : ℕ) (user_dst : Bool) (tot n off dst : ℕ) (ip : Inode) (s : Store) (mem now : Memory)
      → ((d : ℕ) (from : ℕ → ℕ) (len : ℕ) (m : Memory)
          → either_copyout copyout user_dst d from len m ≡ (true, copied d from len m))
      → tot ≤ n
      → n < tot + fuel
      → off + n < 2 ^ 32
      → dst + n < 2 ^ 64
      → IsFilled ip s (off + n)
      → ((i : ℕ) → now i ≡ with_content ip s off dst tot mem i)
      → Safely
          (HasRead ip s off dst n mem)
          (readi_loop copyout sb fuel user_dst tot n (off + tot) (dst + tot) ip s now)
  unfolding readi_loop
  readi_loop-HasRead zero user_dst tot n off dst ip s mem now works le enough off_fits dst_fits
        filled h =
      absurd (omega arith)
  readi_loop-HasRead (suc fuel) user_dst tot n off dst ip s mem now works le enough off_fits
        dst_fits filled h =
      elim (Bool-cases (ltb tot n)) [
        | inr end_ ↦
            let all : tot ≡ n = ground arith in
            rw end_
              (safely (record { count = all; memory = rw all at h; inode = refl; store = refl }))
        | inl more ↦
            let at = filled (off + tot) (ground arith) in
            let m = chunk tot n (off + tot) in
            rw (more, bmap-present sb ((off + tot) / bsize) ip s at.0 at.1)
              (let m_le : tot + m ≤ n = ground arith in
                let m_fits : m ≤ bsize - (off + tot) % bsize = ground arith in
                let some_byte : 0 < m = ground arith in
                let tot' : u32 (tot + m) ≡ tot + m = omega arith in
                let off' : u32 (off + tot + m) ≡ off + (tot + m) = omega arith in
                let dst' : u64 (dst + tot + m) ≡ dst + (tot + m) = omega arith in
                let from : ℕ → ℕ =
                  λ j. s.blocks (block_of ip s ((off + tot) / bsize)) ((off + tot) % bsize + j) in
                rw (works (dst + tot) from m now, tot', off', dst')
                  (readi_loop-HasRead fuel user_dst (tot + m) n off dst ip s mem
                    (copied (dst + tot) from m now) works m_le (omega arith) off_fits dst_fits
                    filled (λ i. copied-more ip s off dst tot m mem now i m_fits h)))
      ]

  none_read :
      (off dst : ℕ) (ip : Inode) (s : Store) (mem : Memory)
      → HasRead ip s off dst 0 mem (0, mem, ip, s)
  unfolding copied
  none_read off dst ip s mem = record {
    count = refl;
    memory = λ i. let empty : leb dst i && ltb i (dst + 0) ≡ false = ground arith in rw empty refl;
    inode = refl;
    store = refl;
  }

  -- `readi` puts the bytes of a file from `off` on at `dst`, as many as asked for or as there are,
  -- returns their number, and changes nothing else: no other byte of the memory, not the file, and
  -- no block. That a file has blocks for all its bytes and that copying to the destination
  -- succeeds are hypotheses, and that `off + n` and the addresses fit their types.
  pub readi-HasRead :
      (user_dst : Bool) (dst off n : ℕ) (ip : Inode) (s : Store) (mem : Memory)
      → ((d : ℕ) (from : ℕ → ℕ) (len : ℕ) (m : Memory)
          → either_copyout copyout user_dst d from len m ≡ (true, copied d from len m))
      → off + n < 2 ^ 32
      → dst + n < 2 ^ 64
      → IsFilled ip s ip.size
      → Safely
          (HasRead ip s off dst (readable ip.size off n) mem)
          (readi copyout sb user_dst dst off n ip s mem)
  unfolding readi
  readi-HasRead user_dst dst off n ip s mem works off_fits dst_fits filled =
      let sum : u32 (off + n) ≡ off + n = omega arith in
      let go = λ (len : ℕ) (le : len ≤ n) (inside : off + len ≤ ip.size).
        readi_loop-HasRead (len + 1) user_dst 0 len off dst ip s mem mem works (omega arith)
          (omega arith) (omega arith) (omega arith) (λ i lt. filled i (omega arith))
          (λ i. (none_read off dst ip s mem).memory i) in
      let off0 : off + 0 ≡ off = omega arith in
      let dst0 : dst + 0 ≡ dst = omega arith in
      rw sum (elim (Bool-cases (ltb ip.size off)) [
        | inl past ↦
            let none_left : readable ip.size off n ≡ 0 = ground arith in
            rw (past, none_left) (safely (none_read off dst ip s mem))
        | inr before ↦
            let fits : ltb (off + n) off ≡ false = ground arith in
            elim (Bool-cases (ltb ip.size (off + n))) [
              | inl cut ↦
                  let g = go (ip.size - off) (ground arith) (ground arith) in
                  rw (before, fits, cut) (rw (off0, dst0) at g)
              | inr whole ↦
                  let g = go n (omega arith) (ground arith) in
                  rw (before, fits, whole) (rw (off0, dst0) at g)
            ]
      ])
