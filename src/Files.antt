-- ===== src/Files.antt =====
-- The table of open files of kernel/file.c, and what `pipealloc` does to it. `ftable.lock` makes
-- each function's work on the table one step; it is not a field here.
pub mod Counts
pub mod PipeAlloc
mod Tests
use risc_v_operating_system.Base.{
  ℕ, zero, suc, ◌+◌, ◌-◌, ◌^◌, ◌<◌, Bool, true, false, ◌||◌, not, Option, none, some, ltb, ◌==◌,
  if◌then◌else◌, update, Run, ok, panic, ◌>>=◌, ◌>>◌, panic_if,
}
use risc_v_operating_system.Base.Word.{u32, is_negative}

-- `NFILE`
abbrev pub nfile : ℕ
nfile = 100

pub data FileType : Type 0 where
  fd_none fd_pipe fd_inode fd_device : FileType

-- `struct file`; a pointer is a number.
pub record File : Type 0 where
  pub file_type : FileType
  pub ref : ℕ
  pub readable : Bool
  pub writable : Bool
  pub pipe : ℕ
  pub ip : ℕ
  pub off : ℕ
  pub major : ℕ

-- `ftable.file`, by index; a pointer to a file is its index.
abbrev pub Table : Type 0
Table = ℕ → File

-- The loop of `filealloc`, with the rounds that are left.
unfoldable pub alloc_loop : (rounds f : ℕ) → Table → Option (ℕ × Table)
alloc_loop zero f t = none
alloc_loop (suc rounds) f t =
    let rest = alloc_loop rounds (f + 1) t in
    if (t f).ref == 0 then some (f, update t f (record (t f) { ref = 1 })) else rest

unfoldable pub filealloc : Table → Option (ℕ × Table)
filealloc t = alloc_loop nfile 0 t

-- `ref < 1` for an `int`
abbrev pub below_one : ℕ → Bool
below_one ref = is_negative ref || ref == 0

unfoldable pub filedup : ℕ → Table → Run Table
filedup f t =
    panic_if (below_one (t f).ref) >> ok (update t f (record (t f) { ref = u32 ((t f).ref + 1) }))

-- What `fileclose` calls after the work on the table.
pub data Closing : Type 0 where
  nothing : Closing
  -- `pipeclose(ff.pipe, ff.writable)`
  close_pipe : (pipe : ℕ) → (writable : Bool) → Closing
  -- `begin_op(); iput(ff.ip); end_op();`
  put_inode : (ip : ℕ) → Closing

abbrev pub closing : File → Closing
closing ff = elim ff.file_type [
  | fd_none ↦ nothing
  | fd_pipe ↦ close_pipe ff.pipe ff.writable
  | fd_inode ↦ put_inode ff.ip
  | fd_device ↦ put_inode ff.ip
]

unfoldable pub fileclose : ℕ → Table → Run (Closing × Table)
fileclose f t =
    let ref = u32 ((t f).ref + (2 ^ 32 - 1)) in
    panic_if (below_one (t f).ref)
    >> ok (
        if not (below_one ref)
        then (nothing, update t f (record (t f) { ref = ref }))
        else (closing (t f), update t f (record (t f) { ref = 0; file_type = fd_none })))
