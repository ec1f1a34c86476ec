-- ===== src/Pipe.antt =====
-- kernel/pipe.c: a ring of 512 bytes between a writer and a reader. `pi->lock` makes what runs
-- between two sleeps one step; it is not a field here.
pub mod Queue
pub mod Write
pub mod Read
mod Tests
use risc_v_operating_system.Base.{
  ℕ, zero, suc, ◌+◌, ◌-◌, ◌*◌, ◌/◌, ◌%◌, ◌^◌, ◌≤◌, ◌<◌, ◌≡◌, refl, sym, ap, ◌∙◌, fun_ext, ◌≢◌, ◌↔◌,
  ◌⊎◌, inl, inr, Bool, true, false, ◌&&◌, ◌||◌, not, Option, none, some, List, [], ◌∷◌, ◌++◌, map,
  append-nil, append_assoc, arith, ltb, leb, ◌==◌, if◌then◌else◌, ==_iff, Bool-cases, Option-cases,
  length, get_elem?, get_or, set, take, drop, replicate, length-append, length-set, get_or-set_self,
  get_or-set_ne, length-replicate, update, update_self, update_ne, update_lem, Run, ok, panic,
  ◌>>=◌, ◌>>◌, panic_if, Safely, safely, Safely-bind, Safely-mono,
}
use risc_v_operating_system.Base.Word.{
  u32, u64, is_negative, one_shl, land, lor, lnot, bit, bit-land, bit-lor, bit-lnot, bit-zero,
  bit-one_shl, land-one_shl,
}

abbrev pub pipe_size : ℕ
pipe_size = 512

-- The `int` value -1.
abbrev pub minus_one : ℕ
minus_one = 2 ^ 32 - 1

-- `struct pipe`. The last two fields count the calls of `wakeup(&pi->nread)` and
-- `wakeup(&pi->nwrite)`.
pub record Pipe : Type 0 where
  pub buf : ℕ → ℕ
  pub nread : ℕ
  pub nwrite : ℕ
  pub readopen : Bool
  pub writeopen : Bool
  pub reader_wakeups : ℕ
  pub writer_wakeups : ℕ

-- The pipe as one process sees it: `killed` is its own flag. `written` and `taken` are the bytes
-- that all processes have put into the pipe and taken from it, in order; no code reads them.
pub record World : Type 0 where
  pub pipe : Pipe
  pub killed : Bool
  pub written : List ℕ
  pub taken : List ℕ

-- What the other processes do, each time that this one sleeps.
abbrev pub Others : Type 0
Others = List (World → World)

-- The fields that `pipealloc` sets; the page may hold anything else.
unfoldable pub pipealloc_init : (buf : ℕ → ℕ) → Pipe
pipealloc_init buf = record {
  buf = buf;
  nread = 0;
  nwrite = 0;
  readopen = true;
  writeopen = true;
  reader_wakeups = 0;
  writer_wakeups = 0;
}

abbrev pub wakeup_readers : World → World
wakeup_readers w = record w { pipe = record w.pipe { reader_wakeups = w.pipe.reader_wakeups + 1 } }

abbrev pub wakeup_writers : World → World
wakeup_writers w = record w { pipe = record w.pipe { writer_wakeups = w.pipe.writer_wakeups + 1 } }

-- `pipeclose`; the flag says that the page is freed.
unfoldable pub pipeclose : Pipe → Bool → Pipe × Bool
pipeclose p writable =
    let q =
      if writable
      then record p { writeopen = false; reader_wakeups = p.reader_wakeups + 1 }
      else record p { readopen = false; writer_wakeups = p.writer_wakeups + 1 } in
    (q, not q.readopen && not q.writeopen)

abbrev pub is_full : Pipe → Bool
is_full p = p.nwrite == u32 (p.nread + pipe_size)

-- `pi->data[pi->nwrite++ % PIPESIZE] = ch`
unfoldable pub put : ℕ → World → World
put ch w = record w {
  pipe = record w.pipe {
    buf = update w.pipe.buf (w.pipe.nwrite % pipe_size) ch;
    nwrite = u32 (w.pipe.nwrite + 1);
  };
  written = w.written ++ (ch ∷ []);
}

-- `ch = pi->data[pi->nread++ % PIPESIZE]`
unfoldable pub get : World → ℕ × World
get w =
    let ch = w.pipe.buf (w.pipe.nread % pipe_size) in
    (
      ch,
      record w {
        pipe = record w.pipe { nread = u32 (w.pipe.nread + 1) };
        taken = w.taken ++ (ch ∷ []);
      },
    )

-- The number of rounds of a loop `for(i = 0; i < n; i++)` over an `int`.
abbrev pub rounds_of : ℕ → ℕ
rounds_of n = if is_negative n then 0 else n

-- `copyin a` is the byte at a user's address, `none` where `copyin` fails.
module _ (copyin : ℕ → Option ℕ) (addr : ℕ) where
  -- The loop of `pipewrite`; `none` if the process still sleeps when the list of others ends.
  unfoldable pub write_loop : Others → (rounds i : ℕ) → World → Option (ℕ × World)
  write_loop others zero i w = some (i, wakeup_readers w)
  write_loop [] (suc rounds) i w =
      if not w.pipe.readopen || w.killed
      then some (minus_one, w)
      else if is_full w.pipe
      then none
      else elim (copyin (u64 (addr + i))) [
        | none ↦ some (i, wakeup_readers w)
        | some ch ↦ write_loop [] rounds (i + 1) (put ch w)
      ]
  write_loop (o ∷ others) (suc rounds) i w =
      let slept = write_loop others (suc rounds) i (o (wakeup_readers w)) in
      if not w.pipe.readopen || w.killed
      then some (minus_one, w)
      else if is_full w.pipe
      then slept
      else elim (copyin (u64 (addr + i))) [
        | none ↦ some (i, wakeup_readers w)
        | some ch ↦ write_loop (o ∷ others) rounds (i + 1) (put ch w)
      ]

  unfoldable pub pipewrite : Others → ℕ → World → Option (ℕ × World)
  pipewrite others n w = write_loop others (rounds_of n) 0 w

-- `while(pi->nread == pi->nwrite && pi->writeopen)`: the world when the wait ends, and whether it
-- ends by the `return -1` of a killed process.
unfoldable pub read_wait : Others → World → Option (Bool × World)
read_wait [] w =
    if w.pipe.nread == w.pipe.nwrite && w.pipe.writeopen
    then (if w.killed then some (true, w) else none)
    else some (false, w)
read_wait (o ∷ others) w =
    let slept = read_wait others (o w) in
    if w.pipe.nread == w.pipe.nwrite && w.pipe.writeopen
    then (if w.killed then some (true, w) else slept)
    else some (false, w)

-- `copyout a ch` stores a byte at a user's address in the user's memory; `none` where `copyout` fails.
module _ (copyout : (a ch : ℕ) → (ℕ → ℕ) → Option (ℕ → ℕ)) (addr : ℕ) where
  -- The copying loop of `piperead`, with the user's memory.
  unfoldable pub read_loop : (rounds i : ℕ) → World → (ℕ → ℕ) → ℕ × (ℕ → ℕ) × World
  read_loop zero i w user = (i, user, w)
  read_loop (suc rounds) i w user =
      if w.pipe.nread == w.pipe.nwrite
      then (i, user, w)
      else elim (copyout (u64 (addr + i)) (get w).0 user) [
        | none ↦ (i, user, (get w).1)
        | some user' ↦ read_loop rounds (i + 1) (get w).1 user'
      ]

  -- `piperead` once its wait has ended
  unfoldable pub read_after : ℕ → (ℕ → ℕ) → Option (Bool × World) → Option (ℕ × (ℕ → ℕ) × World)
  read_after n user none = none
  read_after n user (some (true, w)) = some (minus_one, user, w)
  read_after n user (some (false, w)) =
      let (r, user', v) = read_loop (rounds_of n) 0 w user in some (r, user', wakeup_writers v)

  unfoldable pub piperead : Others → ℕ → World → (ℕ → ℕ) → Option (ℕ × (ℕ → ℕ) × World)
  piperead others n w user = read_after n user (read_wait others w)
