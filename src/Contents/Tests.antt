-- ===== src/Contents/Tests.antt =====
-- Reads and writes of the file of the samples.
use risc_v_operating_system.Base.{
  ℕ, ◌+◌, ◌/◌, ◌<◌, ◌≡◌, refl, ◌≢◌, Bool, true, false, arith, ◌>>=◌, Safely,
}
use risc_v_operating_system.Fs.{bsize}
use risc_v_operating_system.Fs.Sample.{sb, disk}
use risc_v_operating_system.Inode.Sample.{file, slot_lem}
use risc_v_operating_system.Contents.{Memory, copied, either_copyout, either_copyin, readi, writei}
use risc_v_operating_system.Contents.Overwrite.{Overwritten}
use risc_v_operating_system.Fs.{Store}
use risc_v_operating_system.Contents.Write.{writei-Overwritten, readi-writei}
use risc_v_operating_system.Inode.{Inode, iblock}
use risc_v_operating_system.Inode.Sample.{file-IsFile}
use risc_v_operating_system.Inode.Slots.{slots, slot}
use risc_v_operating_system.Contents.Data.{block_of, IsFilled}
use risc_v_operating_system.Contents.Read.{HasRead, readable, readi-HasRead}

file-IsFilled : IsFilled file disk 1000
file-IsFilled i lt =
    let first : i / bsize ≡ 0 = omega arith in
    let here : block_of file disk 0 ≡ 7 = slot_lem 0 in rw first (omega arith, λ z. ground arith)

-- a `copyout` that always fails, which a copy within the kernel does not use
abbrev broken : (dst : ℕ) → (from : ℕ → ℕ) → (len : ℕ) → Memory → Bool × Memory
broken dst from len mem = (false, mem)

kernel_copy :
    (d : ℕ) (from : ℕ → ℕ) (len : ℕ) (m : Memory)
    → either_copyout broken false d from len m ≡ (true, copied d from len m)
unfolding either_copyout
kernel_copy d from len m = refl

readi-HasRead_example :
    Safely
      (HasRead file disk 990 5000 (readable 1000 990 50) (λ i. 1))
      (readi broken sb false 5000 990 50 file disk (λ i. 1))
readi-HasRead_example =
    readi-HasRead sb broken false 5000 990 50 file disk (λ i. 1) kernel_copy (omega arith)
      (omega arith) file-IsFilled

abbrev broken_in : (at : ℕ) → (src len : ℕ) → Memory → (ℕ → ℕ) → Bool × (ℕ → ℕ)
broken_in at src len mem bytes = (false, bytes)

kernel_copy_in :
    (at from len : ℕ) (m : Memory) (bytes : ℕ → ℕ)
    → either_copyin broken_in at false from len m bytes
      ≡ (true, copied at (λ j. m (from + j)) len bytes)
unfolding either_copyin
kernel_copy_in at from len m bytes = refl

not_inode_block : (k : ℕ) → k < slots → slot file disk k ≢ iblock sb 3
not_inode_block k lt = ground (arith, slot_lem k)

writei-Overwritten_example :
    Safely
      (λ r. (r.0 ≡ 20) × (r.1 ≡ file) × Overwritten file disk 500 600 20 (λ i. i) r.2)
      (writei broken_in sb false 600 500 20 file disk (λ i. i))
writei-Overwritten_example =
    writei-Overwritten sb broken_in false 600 500 20 file disk (λ i. i) kernel_copy_in file-IsFile
      file-IsFilled not_inode_block (omega arith) (omega arith) (omega arith)

readi-writei_example :
    Safely
      (λ r. (r.0 ≡ 20) × ((i : ℕ) → i < 20 → r.1 (5000 + i) ≡ 600 + i))
      (writei broken_in sb false 600 500 20 file disk (λ i. i) >>= λ (w : ℕ × Inode × Store).
        readi broken sb false 5000 500 20 w.1 w.2 (λ i. 0))
readi-writei_example =
    readi-writei sb broken_in broken false false 600 5000 500 20 file disk (λ i. i) (λ i. 0)
      kernel_copy_in kernel_copy file-IsFile file-IsFilled not_inode_block (omega arith)
      (omega arith) (omega arith) (omega arith)
