-- ===== src/Fs/Tests.antt =====
-- The free map of a small disk.
use risc_v_operating_system.Base.{arith, Safely}
use risc_v_operating_system.Fs.{balloc}
use risc_v_operating_system.Fs.Sample.{sb, disk, disk-IsMapped, free_at}
use risc_v_operating_system.Fs.Alloc.{Taken, balloc-Taken}

balloc-Taken_example : Safely (Taken sb disk) (balloc sb disk)
balloc-Taken_example = balloc-Taken sb disk 9 disk-IsMapped (omega arith) free_at.0
