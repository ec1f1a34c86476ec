-- ===== src/Inode/Tests.antt =====
-- Runs on the disk and the file of the samples.
use risc_v_operating_system.Base.{arith, Safely}
use risc_v_operating_system.Fs.Sample.{sb, disk, disk-IsMapped, free_at}
use risc_v_operating_system.Inode.{bmap, itrunc}
use risc_v_operating_system.Inode.Sample.{file, file-IsFile}
use risc_v_operating_system.Inode.Fill.{Filled}
use risc_v_operating_system.Inode.Bmap.{bmap-Filled}
use risc_v_operating_system.Inode.Trunc.{Emptied, itrunc-Emptied}

-- Block 14 of the file is behind the list, which block 8 holds.
bmap-Filled_example : Safely (Filled sb 15 file disk) (bmap sb 14 file disk)
bmap-Filled_example =
    bmap-Filled sb 14 file disk 9 10 file-IsFile disk-IsMapped (omega arith) (omega arith)
      (omega arith) (omega arith) free_at.0 free_at.1

itrunc-Emptied_example : Safely (Emptied sb file disk) (itrunc sb file disk)
itrunc-Emptied_example = itrunc-Emptied sb file disk file-IsFile (λ c lt. ground arith)
