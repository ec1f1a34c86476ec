-- ===== src/Pipe/Tests.antt =====
-- Concrete runs of the pipe.
use risc_v_operating_system.Base.{
  ℕ, ◌+◌, ◌-◌, ◌^◌, ◌≡◌, refl, inl, inr, true, false, Option, some, [], ◌∷◌, arith, ltb, ◌==◌,
  if◌then◌else◌, Bool-cases, update, none,
}
use risc_v_operating_system.Base.Word.{u64}
use risc_v_operating_system.Pipe.{
  Pipe, World, pipe_size, get, pipewrite, piperead, pipealloc_init, pipeclose,
}
use risc_v_operating_system.Pipe.Queue.{contents, IsFifo, get-IsFifo}
use risc_v_operating_system.Pipe.Write.{Kept, pipewrite-IsFifo}
use risc_v_operating_system.Pipe.Read.{Writable, Took, piperead-Took}

abbrev fresh : World
fresh = record { pipe = pipealloc_init (λ i. 0); killed = false; written = []; taken = [] }

fresh-IsFifo : IsFifo fresh
unfolding pipealloc_init
fresh-IsFifo = record {
  valid = record { read_fits = omega arith; write_fits = omega arith; bounded = omega arith };
  history = refl;
}

-- the counters just before they wrap around: the ring holds the bytes 7, 8 and 9
abbrev wrapped : World
wrapped = record {
  pipe = record {
    buf = λ i. if i == 510 then 7 else if i == 511 then 8 else 9;
    nread = 2 ^ 32 - 2;
    nwrite = 1;
    readopen = true;
    writeopen = true;
    reader_wakeups = 0;
    writer_wakeups = 4;
  };
  killed = false;
  written = 5 ∷ 7 ∷ 8 ∷ 9 ∷ [];
  taken = 5 ∷ [];
}

wrapped-IsFifo : IsFifo wrapped
wrapped-IsFifo = record {
  valid = record { read_fits = omega arith; write_fits = omega arith; bounded = omega arith };
  history = refl;
}

abbrev memory : ℕ → Option ℕ
memory a = some (a + 60)

-- addresses below 104 can be written
abbrev room : (a ch : ℕ) → (ℕ → ℕ) → Option (ℕ → ℕ)
room a ch user = if ltb a 104 then some (update user a ch) else none

abbrev user_memory : ℕ → ℕ
user_memory a = a

-- a full pipe
abbrev full_pipe : Pipe
full_pipe = record (pipealloc_init (λ i. i)) { nwrite = pipe_size }

abbrev full : World
full = record { pipe = full_pipe; killed = false; written = contents full_pipe; taken = [] }

full-IsFifo : IsFifo full
unfolding pipealloc_init
full-IsFifo = record {
  valid = record { read_fits = omega arith; write_fits = omega arith; bounded = omega arith };
  history = refl;
}

-- Another process reads a byte while the writer sleeps.
abbrev take_one : World → World
take_one w = if w.pipe.nread == w.pipe.nwrite then w else (get w).1

take_one-IsFifo : (w : World) → IsFifo w → IsFifo (take_one w)
take_one-IsFifo w f = elim (Bool-cases (w.pipe.nread == w.pipe.nwrite)) [
  | inl empty ↦ rw empty f
  | inr some_left ↦ rw some_left (get-IsFifo w f some_left)
]

pipewrite-IsFifo_example : Kept (pipewrite memory 100 (take_one ∷ take_one ∷ []) 2 full)
pipewrite-IsFifo_example =
    pipewrite-IsFifo memory 100 (take_one ∷ take_one ∷ []) 2 full
      (take_one-IsFifo, (take_one-IsFifo, tt)) full-IsFifo

room-Writable : Writable room 100 0 2
room-Writable j ch user lt =
    let low : ltb (u64 (100 + (0 + j))) 104 ≡ true = ground arith in rw low refl

piperead-Took_example :
    Took room 100 wrapped 2 user_memory (piperead room 100 [] 2 wrapped user_memory)
piperead-Took_example =
    piperead-Took room 100 [] 2 wrapped user_memory wrapped-IsFifo refl refl room-Writable

-- A pipe whose two ends are closed is freed.
closed_pipe_is_freed : (pipeclose (pipeclose (pipealloc_init (λ i. 0)) true).0 false).1 ≡ true
unfolding pipeclose pipealloc_init
closed_pipe_is_freed = refl
