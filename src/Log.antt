-- ===== src/Log.antt =====
-- kernel/log.c, the redo log of the file system, over the blocks of the disk and of the buffer
-- cache. A run of a function may stop at any write to the disk by a loss of power.
-- `log.lock` makes each critical section one step; it is not a field here.
pub mod Device
pub mod Ends
pub mod Header
pub mod WriteLog
pub mod Install
pub mod Commit
pub mod Recover
pub mod Crash
pub mod Safety
pub mod Fields
pub mod Reserve
pub mod Absorb
mod Tests
use risc_v_operating_system.Base.{
  ℕ, zero, suc, ◌+◌, ◌-◌, ◌*◌, ◌%◌, ◌^◌, Bool, true, false, ◌||◌, Option, none, some, List, [], ◌∷◌,
  ltb, leb, ◌==◌, if◌then◌else◌, update,
}
use risc_v_operating_system.Base.Word.{u32}
use Device.{
  Block, Machine, Cmd, Outcome, done, panic, pure, ◌>>=◌, ◌>>◌, memmove, store, bwrite, bpin,
  bunpin,
}

abbrev pub max_op_blocks : ℕ
max_op_blocks = 10

abbrev pub log_size : ℕ
log_size = 30

-- `struct logheader`: the entries below `n` of `block` are in use, and `n` is at most `log_size`.
pub record LogHeader : Type 0 where
  pub n : ℕ
  pub block : ℕ → ℕ

-- `struct log`. `wakeups` counts the calls of `wakeup(&log)`.
pub record Log : Type 0 where
  pub start : ℕ
  pub size : ℕ
  pub outstanding : ℕ
  pub committing : Bool
  pub lh : LogHeader
  pub wakeups : ℕ

-- The loop of `install_trans`, with the rounds that are left.
unfoldable pub install_loop : Log → Bool → (rounds tail : ℕ) → Cmd (Unit {0})
install_loop l recovering zero tail = pure tt
install_loop l recovering (suc rounds) tail = do
  memmove (l.lh.block tail) (l.start + tail + 1)
  bwrite (l.lh.block tail)
  if recovering then pure tt else bunpin (l.lh.block tail)
  install_loop l recovering rounds (tail + 1)

unfoldable pub install_trans : Log → Bool → Cmd (Unit {0})
unfolding install_loop
install_trans l recovering = install_loop l recovering l.lh.n 0

-- `log.lh.block[i] = lh->block[i]` for each `i` from `i` on: word `i + 1` of the header block.
unfoldable pub read_entries : Block → (rounds i : ℕ) → (ℕ → ℕ) → ℕ → ℕ
read_entries b zero i block = block
read_entries b (suc rounds) i block = read_entries b rounds (i + 1) (update block i (b (i + 1)))

unfoldable pub read_head : Log → Cmd Log
unfolding read_entries
read_head l m =
    let b = m.cache l.start in
    done (record l { lh = record { n = b 0; block = read_entries b (b 0) 0 l.lh.block } }) m

-- `hb->block[i] = log.lh.block[i]` for each `i` from `i` on.
unfoldable pub write_entries : (ℕ → ℕ) → (rounds i : ℕ) → Block → Block
write_entries block zero i b = b
write_entries block (suc rounds) i b =
    write_entries block rounds (i + 1) (update b (i + 1) (block i))

unfoldable pub write_head : Log → Cmd (Unit {0})
unfolding write_entries
write_head l = do
  store l.start (λ b. write_entries l.lh.block l.lh.n 0 (update b 0 l.lh.n))
  bwrite l.start

-- `log.lh.n = 0`
abbrev pub clear : Log → Log
clear l = record l { lh = record { n = 0; block = l.lh.block } }

unfoldable pub recover_from_log : Log → Cmd Log
unfolding read_head install_trans write_head
recover_from_log l = do l ← read_head l; install_trans l true; write_head (clear l); pure (clear l)

-- `initlog`, on the fields of the super block that it reads. The test of `sizeof(struct logheader)`
-- is one of constants, 124 bytes against 1024.
unfoldable pub initlog : (logstart nlog : ℕ) → Log → Cmd Log
unfolding recover_from_log
initlog logstart nlog l = recover_from_log (record l { start = logstart; size = nlog })

-- The loop of `write_log`.
unfoldable pub write_log_loop : Log → (rounds tail : ℕ) → Cmd (Unit {0})
write_log_loop l zero tail = pure tt
write_log_loop l (suc rounds) tail = do
  memmove (l.start + tail + 1) (l.lh.block tail)
  bwrite (l.start + tail + 1)
  write_log_loop l rounds (tail + 1)

unfoldable pub write_log : Log → Cmd (Unit {0})
unfolding write_log_loop
write_log l = write_log_loop l l.lh.n 0

unfoldable pub commit : Log → Cmd Log
unfolding write_log write_head install_trans
commit l =
    if ltb 0 l.lh.n
    then (do write_log l; write_head l; install_trans l false; write_head (clear l); pure (clear l))
    else pure l

-- `begin_op`. Each time that it sleeps, the next function of the list says what the other
-- processes do to the log until it runs again; `none` if it still sleeps at the list's end.
unfoldable pub begin_op : List (Log → Log) → Log → Option Log
begin_op [] l =
    if l.committing || ltb log_size (l.lh.n + (l.outstanding + 1) * max_op_blocks)
    then none
    else some (record l { outstanding = l.outstanding + 1 })
begin_op (others ∷ later) l =
    let again = begin_op later (others l) in
    if l.committing
    then again
    else if ltb log_size (l.lh.n + (l.outstanding + 1) * max_op_blocks)
    then again
    else some (record l { outstanding = l.outstanding + 1 })

-- `log.outstanding -= 1`, as its 32 bits.
abbrev pub one_less : Log → Log
one_less l = record l { outstanding = u32 (l.outstanding + 2 ^ 32 - 1) }

abbrev pub wakeup : Log → Log
wakeup l = record l { wakeups = l.wakeups + 1 }

unfoldable pub end_op : Log → Cmd Log
unfolding commit
end_op l =
    if l.committing
    then (λ m. panic)
    else if (one_less l).outstanding == 0
    then (do
      l' ← commit (record (one_less l) { committing = true })
      pure (wakeup (record l' { committing = false })))
    else pure (wakeup (one_less l))

-- The index where the loop of `log_write` stops: the block's entry, or `n`.
unfoldable pub find_entry : (ℕ → ℕ) → ℕ → (rounds i : ℕ) → ℕ
find_entry block blockno zero i = i
find_entry block blockno (suc rounds) i =
    let rest = find_entry block blockno rounds (i + 1) in if block i == blockno then i else rest

unfoldable pub log_write : ℕ → Log → Cmd Log
unfolding find_entry
log_write blockno l =
    if leb log_size l.lh.n || leb (l.size - 1) l.lh.n
    then (λ m. panic)
    else if ltb l.outstanding 1
    then (λ m. panic)
    else let i = find_entry l.lh.block blockno l.lh.n 0 in
      let block = update l.lh.block i blockno in
      if i == l.lh.n
      then (do bpin blockno; pure (record l { lh = record { n = l.lh.n + 1; block = block } }))
      else pure (record l { lh = record { n = l.lh.n; block = block } })
