-- ===== src/Bio.antt =====
-- kernel/bio.c: the cache of disk blocks. `bcache.lock` makes each critical section one step; it is
-- not a field here. A buffer is its index in `bcache.buf`, and `head` stands for `bcache.head`.
pub mod Ring
pub mod Order
pub mod Choice
pub mod Unique
pub mod Init
mod Tests
use risc_v_operating_system.Base.{
  ℕ, zero, suc, ◌+◌, ◌-◌, ◌^◌, Bool, true, false, ◌&&◌, not, Option, none, some, ◌==◌,
  if◌then◌else◌, update, Run, ok, panic, ◌>>=◌, ◌>>◌, panic_if,
}
use risc_v_operating_system.Base.Word.{u32}
use risc_v_operating_system.Fs.{Block}

-- `NBUF`
abbrev pub nbuf : ℕ
nbuf = 30

abbrev pub head : ℕ
head = nbuf

-- `struct buf`, without its links, its sleep lock, and the mark that the driver of the disk keeps.
pub record Buf : Type 0 where
  pub valid : Bool
  pub dev : ℕ
  pub blockno : ℕ
  pub refcnt : ℕ
  pub bytes : Block

-- `bcache`. `next b` and `prev b` are the links of buffer `b`, and `held b` says that the process
-- at hand holds its sleep lock.
pub record Cache : Type 0 where
  pub bufs : ℕ → Buf
  pub next : ℕ → ℕ
  pub prev : ℕ → ℕ
  pub held : ℕ → Bool

abbrev pub set_buf : ℕ → Buf → Cache → Cache
set_buf b buf c = record c { bufs = update c.bufs b buf }

-- The last four steps of `brelse`, and those of a round of `binit`: `b` goes behind `head`.
unfoldable pub link_front : ℕ → Cache → Cache
link_front b c =
    let first = c.next head in
    record c {
      next = update (update c.next b first) head b;
      prev = update (update c.prev b head) first b;
    }

-- The first two of `brelse`: `b` leaves the ring.
unfoldable pub unlink : ℕ → Cache → Cache
unlink b c =
    let prev' = update c.prev (c.next b) (c.prev b) in
    record c { prev = prev'; next = update c.next (prev' b) (c.next b) }

-- The loop of `binit`, from buffer `b` on.
unfoldable pub init_loop : (rounds b : ℕ) → Cache → Cache
init_loop zero b c = c
init_loop (suc rounds) b c =
    init_loop rounds (b + 1) (link_front b (record c { held = update c.held b false }))

unfoldable pub binit : Cache → Cache
binit c =
    init_loop nbuf 0 (record c { next = update c.next head head; prev = update c.prev head head })

-- the test of the first loop of `bget`
abbrev pub holds : (dev blockno : ℕ) → Buf → Bool
holds dev blockno buf = buf.dev == dev && buf.blockno == blockno

abbrev pub is_unused : Buf → Bool
is_unused buf = buf.refcnt == 0

-- How a loop of `bget` ends.
pub data Walk : Type 0 where
  -- at a buffer that passes the test
  stopped : ℕ → Walk
  -- at `head`
  ended : Walk
  -- not at all, in the rounds given
  endless : Walk

-- The loops of `bget`, from buffer `b` on: along `next`, and along `prev`.
unfoldable pub walk : (fuel b : ℕ) → (link : ℕ → ℕ) → (test : Buf → Bool) → Cache → Walk
walk zero b link test c = endless
walk (suc fuel) b link test c =
    let rest = walk fuel (link b) link test c in
    if b == head then ended else if test (c.bufs b) then stopped b else rest

-- The first loop of `bget`, and the second one, each with rounds enough to come to `head`.
unfoldable pub first_walk : (dev blockno : ℕ) → Cache → Walk
first_walk dev blockno c = walk (nbuf + 1) (c.next head) c.next (holds dev blockno) c

unfoldable pub second_walk : Cache → Walk
second_walk c = walk (nbuf + 1) (c.prev head) c.prev is_unused c

-- `acquiresleep(&b->lock)`; a process that waits for its own lock counts as a panic.
unfoldable pub acquire_buf : ℕ → Cache → Run Cache
acquire_buf b c = panic_if (c.held b) >> ok (record c { held = update c.held b true })

-- What `bget` does with a buffer that holds the block, and with one that it recycles.
abbrev pub reuse : ℕ → Cache → Cache
reuse b c = set_buf b (record (c.bufs b) { refcnt = u32 ((c.bufs b).refcnt + 1) }) c

abbrev pub recycle : (dev blockno b : ℕ) → Cache → Cache
recycle dev blockno b c =
    set_buf b (record (c.bufs b) { dev = dev; blockno = blockno; valid = false; refcnt = 1 }) c

-- From the end of the second loop on; a loop that never ends counts as a panic.
unfoldable pub finish_second : (dev blockno : ℕ) → Walk → Cache → Run (ℕ × Cache)
finish_second dev blockno (stopped b) c =
    acquire_buf b (recycle dev blockno b c) >>= λ c'. ok (b, c')
finish_second dev blockno ended c = panic
finish_second dev blockno endless c = panic

unfoldable pub finish_first : (dev blockno : ℕ) → Walk → Cache → Run (ℕ × Cache)
finish_first dev blockno (stopped b) c = acquire_buf b (reuse b c) >>= λ c'. ok (b, c')
finish_first dev blockno ended c = finish_second dev blockno (second_walk c) c
finish_first dev blockno endless c = panic

unfoldable pub bget : (dev blockno : ℕ) → Cache → Run (ℕ × Cache)
bget dev blockno c = finish_first dev blockno (first_walk dev blockno c) c

-- A disk is known by what the driver reads from a block and by what it makes of a write.
module _ {Disk : Type 0} (read : ℕ → Disk → Block) (write : ℕ → Block → Disk → Disk) where
  unfoldable pub bread : (dev blockno : ℕ) → Cache → Disk → Run (ℕ × Cache)
  bread dev blockno c d = bget dev blockno c >>= λ (r : ℕ × Cache).
      (let buf = r.1.bufs r.0 in
        if buf.valid
        then ok r
        else ok (r.0, set_buf r.0 (record buf { bytes = read buf.blockno d; valid = true }) r.1))

  unfoldable pub bwrite : ℕ → Cache → Disk → Run Disk
  bwrite b c d = panic_if (not (c.held b)) >> ok (write (c.bufs b).blockno (c.bufs b).bytes d)

unfoldable pub brelse : ℕ → Cache → Run Cache
brelse b c =
    panic_if (not (c.held b))
    >> (let buf = record (c.bufs b) { refcnt = u32 ((c.bufs b).refcnt + (2 ^ 32 - 1)) } in
        let c' = set_buf b buf (record c { held = update c.held b false }) in
        ok (if buf.refcnt == 0 then link_front b (unlink b c') else c'))

unfoldable pub bpin : ℕ → Cache → Cache
bpin b c = reuse b c

unfoldable pub bunpin : ℕ → Cache → Cache
bunpin b c = set_buf b (record (c.bufs b) { refcnt = u32 ((c.bufs b).refcnt + (2 ^ 32 - 1)) }) c
