-- ===== src/Pipe/Read.antt =====
-- `piperead`: which bytes reach the user, and what it keeps whatever the others do.
use risc_v_operating_system.Base.{
  ℕ, zero, suc, ◌+◌, ◌^◌, ◌<◌, ◌≡◌, refl, sym, ap, ◌∙◌, ◌≢◌, inl, inr, false, ◌&&◌, Option, none,
  some, List, [], ◌∷◌, ◌++◌, arith, ◌==◌, Bool-cases, length, get_or, update, update_self,
  update_ne,
}
use risc_v_operating_system.Base.Word.{u64, is_negative}
use Prim.Native.Nat.{min}
use native.Mathlib.Nat.{zero-add}
use risc_v_operating_system.Pipe.{
  World, Others, read_after, get, read_wait, read_loop, piperead, wakeup_writers,
}
use risc_v_operating_system.Pipe.Queue.{contents, count, IsFifo, get-contents, get-IsFifo}

first_place : (i : ℕ) → i + 0 ≡ i
first_place i = omega arith

next_place : (i j : ℕ) → i + 1 + j ≡ i + suc j
next_place i j = omega arith

-- Two places of one buffer have two addresses.
u64_apart : (a i j : ℕ) → i < j → j < 2 ^ 64 → u64 (a + i) ≢ u64 (a + j)
u64_apart a i j lt fits = ground arith

module _ (copyout : (a ch : ℕ) → (ℕ → ℕ) → Option (ℕ → ℕ)) (addr : ℕ) where
  -- A byte can be stored at each of the `n` addresses from `addr + i` on.
  abbrev pub Writable : (i n : ℕ) → Type 0
  Writable i n =
      (j ch : ℕ) (user : ℕ → ℕ)
      → j < n
      → copyout (u64 (addr + (i + j))) ch user ≡ some (update user (u64 (addr + (i + j))) ch)

  -- `user'` holds the bytes from `addr + i` on, and but for these is `user`.
  pub record Landed (i : ℕ) (bytes : List ℕ) (user user' : ℕ → ℕ) : Type 0 where
    pub here : (j : ℕ) → j < length bytes → user' (u64 (addr + (i + j))) ≡ get_or bytes j 0
    pub elsewhere :
        (a : ℕ) → ((j : ℕ) → j < length bytes → u64 (addr + (i + j)) ≢ a) → user' a ≡ user a

  -- a byte, and then the others behind it
  Landed-cons :
      (i ch : ℕ) (bytes : List ℕ) (user user' : ℕ → ℕ)
      → i + suc (length bytes) < 2 ^ 64
      → Landed (i + 1) bytes (update user (u64 (addr + i)) ch) user'
      → Landed i (ch ∷ bytes) user user'
  Landed-cons i ch bytes user user' fits l = record {
    here = first_or_later;
    elsewhere = λ a h.
        l.elsewhere a (λ j lt. rw (next_place i j) (h (suc j) (omega arith)))
        ∙ update_ne user (u64 (addr + i)) a ch (rw (first_place i) at (h 0 (omega arith)));
  }
    where
      first_or_later :
          (j : ℕ) → j < suc (length bytes) → user' (u64 (addr + (i + j))) ≡ get_or (ch ∷ bytes) j 0
      first_or_later zero lt =
          let at = first_place i in
          rw at (
            l.elsewhere (u64 (addr + i))
              (λ j j_lt e. u64_apart addr i (i + 1 + j) (omega arith) (omega arith) (sym e))
            ∙ update_self user (u64 (addr + i)) ch)
      first_or_later (suc j) lt = rw (sym (next_place i j)) (l.here j (omega arith))

  -- what the copying loop does from round `i` on
  record Copied (w : World) (i k : ℕ) (user : ℕ → ℕ) (r : ℕ × (ℕ → ℕ) × World) : Type 0 where
    bytes : List ℕ
    number : r.0 ≡ i + k
    split : contents w.pipe ≡ bytes ++ contents r.2.pipe
    length_lem : length bytes ≡ k
    landed : Landed i bytes user r.1
    fifo : IsFifo r.2
    woken : r.2.pipe.writer_wakeups ≡ w.pipe.writer_wakeups

  none_Copied :
      (w : World) (i k : ℕ) (user : ℕ → ℕ) → IsFifo w → k ≡ 0 → Copied w i k user (i, user, w)
  none_Copied w i k user f z = record {
    bytes = [];
    number = omega arith;
    split = refl;
    length_lem = omega arith;
    landed = record { here = λ j lt. absurd (omega arith); elsewhere = λ a h. refl };
    fifo = f;
    woken = refl;
  }

  read_loop-Copied :
      (n i : ℕ) (w : World) (user : ℕ → ℕ)
      → IsFifo w
      → i + n < 2 ^ 64
      → Writable i n
      → Copied w i (min n (count w.pipe)) user (read_loop copyout addr n i w user)
  unfolding read_loop get
  read_loop-Copied zero i w user f fits h = none_Copied w i _ user f (omega arith)
  read_loop-Copied (suc n) i w user f fits h = elim (Bool-cases (w.pipe.nread == w.pipe.nwrite)) [
    | inl empty ↦
        let none_left : count w.pipe ≡ 0 = ground (arith, f.valid.read_fits, f.valid.write_fits) in
        rw empty (none_Copied w i _ user f (omega arith))
    | inr some_left ↦
        let g = get-contents w f.valid some_left in
        let at = first_place i in
        let stored = rw at at (h 0 (get w).0 user (omega arith)) in
        let user' = update user (u64 (addr + i)) (get w).0 in
        let rest =
          read_loop-Copied n (i + 1) (get w).1 user' (get-IsFifo w f some_left) (omega arith)
            (λ j ch m lt. rw (next_place i j) (h (suc j) ch m (omega arith))) in
        rw (some_left, stored)
          (record {
            bytes = (get w).0 ∷ rest.bytes;
            number = omega (arith, rest.number, g.1);
            split = g.0 ∙ ap (λ l. (get w).0 ∷ l) rest.split;
            length_lem = omega (arith, rest.length_lem, g.1);
            landed =
                Landed-cons i (get w).0 rest.bytes user _ (omega (arith, rest.length_lem))
                  rest.landed;
            fifo = rest.fifo;
            woken = rest.woken;
          })
  ]

  -- what a read that returns leaves, after the wakeup of the writers
  abbrev pub Took : World → (k : ℕ) → (ℕ → ℕ) → Option (ℕ × (ℕ → ℕ) × World) → Type 0
  Took w k user r =
      (bytes : List ℕ) × (user' : ℕ → ℕ) × (v : World) × (r ≡ some (k, user', v))
      × (contents w.pipe ≡ bytes ++ contents v.pipe)
      × (length bytes ≡ k)
      × Landed 0 bytes user user'
      × (v.pipe.writer_wakeups ≡ w.pipe.writer_wakeups + 1)
      × IsFifo v

  waking : (w : World) → IsFifo w → IsFifo (wakeup_writers w)
  waking w f = record {
    valid = record {
      read_fits = f.valid.read_fits;
      write_fits = f.valid.write_fits;
      bounded = f.valid.bounded;
    };
    history = f.history;
  }

  -- no wait where there is something to read or nobody writes
  no_wait :
      (others : Others) (w : World)
      → (w.pipe.nread == w.pipe.nwrite && w.pipe.writeopen) ≡ false
      → read_wait others w ≡ some (false, w)
  unfolding read_wait
  no_wait [] w h = rw h refl
  no_wait (o ∷ others) w h = rw h refl

  piperead-no_wait :
      (others : Others) (n : ℕ) (w : World) (user : ℕ → ℕ)
      → (w.pipe.nread == w.pipe.nwrite && w.pipe.writeopen) ≡ false
      → is_negative n ≡ false
      → piperead copyout addr others n w user ≡ (
          let (r, user', v) = read_loop copyout addr n 0 w user in
          some (r, user', wakeup_writers v))
  unfolding piperead read_after
  piperead-no_wait others n w user h positive =
      ap (read_after copyout addr n user) (no_wait others w h) ∙ rw positive refl

  -- If the pipe holds a byte or has no writer, `n` is not negative and a byte can be stored at each of
  -- the user's `n` addresses from `addr` on, `piperead` returns without sleeping with the smaller of
  -- `n` and the number of bytes held. These bytes, the oldest, are in order in the user's memory from
  -- `addr` on, where nothing else has changed; the others stay in order in the pipe, and the writers
  -- are woken once.
  pub piperead-Took :
      (others : Others) (n : ℕ) (w : World) (user : ℕ → ℕ)
      → IsFifo w
      → (w.pipe.nread == w.pipe.nwrite && w.pipe.writeopen) ≡ false
      → is_negative n ≡ false
      → Writable 0 n
      → Took w (min n (count w.pipe)) user (piperead copyout addr others n w user)
  piperead-Took others n w user f h positive ws =
      let c = read_loop-Copied n 0 w user f (ground arith) ws in
      let (r, user', v) = read_loop copyout addr n 0 w user in
      (
        c.bytes,
        user',
        wakeup_writers v,
        piperead-no_wait others n w user h positive
            ∙ ap (λ k. some (k, user', wakeup_writers v)) (c.number ∙ zero-add _),
        c.split,
        c.length_lem,
        c.landed,
        ap (λ k. k + 1) c.woken,
        waking _ c.fifo,
      )

  -- If the pipe holds a byte, `n` is positive and the oldest byte cannot be stored, `piperead` returns
  -- 0 with the user's memory as it was, and that byte is in the pipe no more and has reached nobody.
  pub piperead-lost :
      (others : Others) (n : ℕ) (w : World) (user : ℕ → ℕ)
      → IsFifo w
      → (w.pipe.nread == w.pipe.nwrite) ≡ false
      → is_negative n ≡ false
      → n ≢ 0
      → copyout (u64 (addr + 0)) (get w).0 user ≡ none
      → (v : World) × (piperead copyout addr others n w user ≡ some (0, user, v))
        × (contents w.pipe ≡ (get w).0 ∷ contents v.pipe)
  unfolding read_loop piperead get read_after
  piperead-lost others zero w user f some_left positive more bad = absurd (more refl)
  piperead-lost others (suc n) w user f some_left positive more bad =
      let go : (w.pipe.nread == w.pipe.nwrite && w.pipe.writeopen) ≡ false = rw some_left refl in
      rw (no_wait others w go, positive, some_left, bad)
        (wakeup_writers (get w).1, refl, (get-contents w f.valid some_left).0)
