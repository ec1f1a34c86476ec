-- ===== src/Contents.antt =====
-- kernel/fs.c: the contents of a file (stati, readi, writei), and kernel/proc.c: either_copyout and
-- either_copyin. `copyout` and `copyin` are parameters: they say whether they succeed, and what is
-- in their destination then, also after a failure.
pub mod Data
pub mod Read
pub mod Overwrite
pub mod Write
mod Tests
use risc_v_operating_system.Base.{
  ℕ, zero, suc, ◌+◌, ◌-◌, ◌*◌, ◌/◌, ◌%◌, ◌^◌, Bool, true, false, ◌&&◌, ◌||◌, not, ltb, leb, ◌==◌,
  if◌then◌else◌, update, Run, ok, panic, ◌>>=◌,
}
use risc_v_operating_system.Base.Word.{u32, u64}
use risc_v_operating_system.Fs.{Superblock, Block, Store, keep, bsize}
use risc_v_operating_system.Inode.{Inode, ndirect, nindirect, bmap, iupdate}

-- `struct stat`
pub record Stat : Type 0 where
  pub dev : ℕ
  pub ino : ℕ
  pub file_type : ℕ
  pub nlink : ℕ
  pub size : ℕ

unfoldable pub stati : Inode → Stat
stati ip = record {
  dev = ip.dev;
  ino = ip.inum;
  file_type = ip.file_type;
  nlink = ip.nlink;
  size = ip.size;
}

-- the memory of the kernel, or that of the process: the one that the flag tells
abbrev pub Memory : Type 0
Memory = ℕ → ℕ

-- `memmove` from one object to another
unfoldable pub copied : (dst : ℕ) → (from : ℕ → ℕ) → (len : ℕ) → (ℕ → ℕ) → ℕ → ℕ
copied dst from len mem i = if leb dst i && ltb i (dst + len) then from (i - dst) else mem i

-- `min(n - tot, BSIZE - off%BSIZE)`
abbrev pub chunk : (tot n off : ℕ) → ℕ
chunk tot n off = if ltb (n - tot) (bsize - off % bsize) then n - tot else bsize - off % bsize

abbrev pub minus_one : ℕ
minus_one = 2 ^ 32 - 1

module _ (copyout : (dst : ℕ) → (from : ℕ → ℕ) → (len : ℕ) → Memory → Bool × Memory) where
  unfoldable pub either_copyout :
      (user_dst : Bool) → (dst : ℕ) → (from : ℕ → ℕ) → (len : ℕ) → Memory → Bool × Memory
  either_copyout user_dst dst from len mem =
      if user_dst then copyout dst from len mem else (true, copied dst from len mem)

  -- The loop of `readi`; one that outlasts its fuel counts as a panic.
  unfoldable pub readi_loop :
      Superblock
      → (fuel : ℕ) → (user_dst : Bool) → (tot n off dst : ℕ) → Inode
      → Store
      → Memory
      → Run (ℕ × Memory × Inode × Store)
  readi_loop sb zero user_dst tot n off dst ip s mem = panic
  readi_loop sb (suc fuel) user_dst tot n off dst ip s mem =
      if not (ltb tot n)
      then ok (tot, mem, ip, s)
      else (bmap sb (off / bsize) ip s >>= λ (r : ℕ × Inode × Store).
          (let m = chunk tot n off in
            let c = either_copyout user_dst dst (λ j. r.2.blocks r.0 (off % bsize + j)) m mem in
            if c.0
            then readi_loop sb fuel user_dst (u32 (tot + m)) n (u32 (off + m)) (u64 (dst + m)) r.1
                r.2 c.1
            else ok (minus_one, c.1, r.1, r.2)))

  -- Each round reads a byte or more.
  unfoldable pub readi :
      Superblock
      → (user_dst : Bool) → (dst off n : ℕ) → Inode
      → Store
      → Memory
      → Run (ℕ × Memory × Inode × Store)
  readi sb user_dst dst off n ip s mem =
      if ltb ip.size off || ltb (u32 (off + n)) off
      then ok (0, mem, ip, s)
      else (let n' = if ltb ip.size (u32 (off + n)) then ip.size - off else n in
          readi_loop sb (n' + 1) user_dst 0 n' off dst ip s mem)

module _ (copyin : (at : ℕ) → (src len : ℕ) → Memory → (ℕ → ℕ) → Bool × (ℕ → ℕ)) where
  -- `at` is the index in the buffer, which is the last argument.
  unfoldable pub either_copyin :
      (at : ℕ) → (user_src : Bool) → (src len : ℕ) → Memory → (ℕ → ℕ) → Bool × (ℕ → ℕ)
  either_copyin at user_src src len mem bytes =
      if user_src
      then copyin at src len mem bytes
      else (true, copied at (λ j. mem (src + j)) len bytes)

  -- The loop of `writei`. Where `either_copyin` fails, the buffer keeps what was copied, and is not
  -- logged.
  unfoldable pub writei_loop :
      Superblock
      → (fuel : ℕ) → (user_src : Bool) → (tot n off src : ℕ) → Inode
      → Store
      → Memory
      → Run (ℕ × ℕ × Inode × Store)
  writei_loop sb zero user_src tot n off src ip s mem = panic
  writei_loop sb (suc fuel) user_src tot n off src ip s mem =
      if not (ltb tot n)
      then ok (tot, off, ip, s)
      else (bmap sb (off / bsize) ip s >>= λ (r : ℕ × Inode × Store).
          (let m = chunk tot n off in
            let c = either_copyin (off % bsize) user_src src m mem (r.2.blocks r.0) in
            if c.0
            then writei_loop sb fuel user_src (u32 (tot + m)) n (u32 (off + m)) (u64 (src + m)) r.1
                (keep r.0 c.1 r.2) mem
            else ok (tot, off, r.1, record r.2 { blocks = update r.2.blocks r.0 c.1 })))

  unfoldable pub writei :
      Superblock
      → (user_src : Bool) → (src off n : ℕ) → Inode
      → Store
      → Memory
      → Run (ℕ × Inode × Store)
  writei sb user_src src off n ip s mem =
      if ltb ip.size off
        || ltb (u32 (off + n)) off
        || ltb ((ndirect + nindirect) * bsize) (u32 (off + n))
      then ok (minus_one, ip, s)
      else (writei_loop sb (n + 1) user_src 0 n off src ip s mem >>= λ (r : ℕ × ℕ × Inode × Store).
          (let ip' = if ltb r.2.size r.1 then record r.2 { size = r.1 } else r.2 in
            ok (r.0, ip', iupdate sb ip' r.3)))
