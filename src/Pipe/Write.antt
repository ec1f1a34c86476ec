-- ===== src/Pipe/Write.antt =====
-- `pipewrite`: what it keeps whatever the others do, and what it writes.
use risc_v_operating_system.Base.{
  ℕ, zero, suc, ◌+◌, ◌≤◌, ◌<◌, ◌≡◌, refl, sym, ap, ◌∙◌, inl, inr, true, false, ◌||◌, not, Option,
  none, some, List, [], ◌∷◌, ◌++◌, append-nil, append_assoc, arith, Bool-cases, Option-cases,
  length,
}
use risc_v_operating_system.Base.Word.{u64, is_negative}
use native.Mathlib.Nat.{zero-add}
use risc_v_operating_system.Pipe.{
  Pipe, World, Others, pipe_size, is_full, put, rounds_of, write_loop, pipewrite, wakeup_readers,
}
use risc_v_operating_system.Pipe.Queue.{contents, count, IsValid, IsFifo, put-contents, put-IsFifo}

-- The other processes keep the pipe's order.
abbrev pub Fair : Others → Type 0
Fair [] = Unit {0}
Fair (o ∷ others) = ((w : World) → IsFifo w → IsFifo (o w)) × Fair others

-- What holds of a call that returned with `r`; one that sleeps for ever says nothing.
abbrev pub Kept : Option (ℕ × World) → Type 0
Kept none = Unit {0}
Kept (some (r, w)) = IsFifo w

waking : (w : World) → IsFifo w → IsFifo (wakeup_readers w)
waking w f = record {
  valid = record {
    read_fits = f.valid.read_fits;
    write_fits = f.valid.write_fits;
    bounded = f.valid.bounded;
  };
  history = f.history;
}

module _ (copyin : ℕ → Option ℕ) (addr : ℕ) where
  write_loop-IsFifo :
      (others : Others) (rounds i : ℕ) (w : World)
      → Fair others
      → IsFifo w
      → Kept (write_loop copyin addr others rounds i w)
  unfolding write_loop
  write_loop-IsFifo others zero i w fair f = waking w f
  write_loop-IsFifo [] (suc rounds) i w fair f =
      elim (Bool-cases (not w.pipe.readopen || w.killed)) [
        | inl stop ↦ rw stop f
        | inr go ↦ elim (Bool-cases (is_full w.pipe)) [
          | inl full ↦ rw (go, full) tt
          | inr room ↦ elim (Option-cases (copyin (u64 (addr + i)))) [
            | inl bad ↦ rw (go, room, bad) (waking w f)
            | inr (ch, e) ↦
                rw (go, room, e)
                  (write_loop-IsFifo [] rounds (i + 1) (put ch w) fair (put-IsFifo ch w f room))
          ]
        ]
      ]
  write_loop-IsFifo (o ∷ others) (suc rounds) i w fair f =
      elim (Bool-cases (not w.pipe.readopen || w.killed)) [
        | inl stop ↦ rw stop f
        | inr go ↦ elim (Bool-cases (is_full w.pipe)) [
          | inl full ↦
              rw (go, full)
                (write_loop-IsFifo others (suc rounds) i (o (wakeup_readers w)) fair.1
                  (fair.0 _ (waking w f)))
          | inr room ↦ elim (Option-cases (copyin (u64 (addr + i)))) [
            | inl bad ↦ rw (go, room, bad) (waking w f)
            | inr (ch, e) ↦
                rw (go, room, e)
                  (write_loop-IsFifo (o ∷ others) rounds (i + 1) (put ch w) fair
                    (put-IsFifo ch w f room))
          ]
        ]
      ]

  -- Whatever other processes do that keeps the pipe's order, and however often it sleeps, a call
  -- of `pipewrite` that returns leaves the pipe in order, so that all bytes ever written are
  -- those taken followed by those in the pipe.
  pub pipewrite-IsFifo :
      (others : Others) (n : ℕ) (w : World)
      → Fair others
      → IsFifo w
      → Kept (pipewrite copyin addr others n w)
  unfolding pipewrite
  pipewrite-IsFifo others n w fair f = write_loop-IsFifo others (rounds_of n) 0 w fair f

  -- The user's memory holds the bytes from `addr + i` on.
  abbrev pub Holds : ℕ → List ℕ → Type 0
  Holds i [] = Unit {0}
  Holds i (b ∷ bs) = (copyin (u64 (addr + i)) ≡ some b) × Holds (i + 1) bs

  abbrev pub Wrote : World → List ℕ → ℕ → Option (ℕ × World) → Type 0
  Wrote w bs n r =
      (v : World) × (r ≡ some (n, v))
      × (contents v.pipe ≡ contents w.pipe ++ bs)
      × (v.pipe.reader_wakeups ≡ w.pipe.reader_wakeups + 1)
      × IsFifo v

  -- one byte more, in front
  Wrote-cons :
      (w : World) (b : ℕ) (bs : List ℕ) (n : ℕ) (r : Option (ℕ × World))
      → IsFifo w
      → is_full w.pipe ≡ false
      → Wrote (put b w) bs n r
      → Wrote w (b ∷ bs) n r
  unfolding put
  Wrote-cons w b bs n r f room (v, e, c, k, g) = (
    v,
    e,
    c
        ∙ ap (λ l. l ++ bs) (put-contents b w f.valid room).0
        ∙ append_assoc (contents w.pipe) (b ∷ []) bs,
    k,
    g,
  )

  -- a pipe that is not full, and whose reader is there
  ready :
      (w : World)
      → w.pipe.readopen ≡ true
      → w.killed ≡ false
      → (not w.pipe.readopen || w.killed) ≡ false
  ready w o k = ground arith

  has_room : (p : Pipe) → IsValid p → count p < pipe_size → is_full p ≡ false
  has_room p v lt = ground (arith, v.read_fits, v.write_fits)

  write_loop-Wrote :
      (others : Others) (bs : List ℕ) (i : ℕ) (w : World)
      → IsFifo w
      → w.pipe.readopen ≡ true
      → w.killed ≡ false
      → Holds i bs
      → count w.pipe + length bs ≤ pipe_size
      → Wrote w bs (i + length bs) (write_loop copyin addr others (length bs) i w)
  unfolding write_loop put
  write_loop-Wrote others [] i w f o k h fits = (
    wakeup_readers w,
    ap (λ j. some (j, wakeup_readers w)) (omega arith),
    sym (append-nil (contents w.pipe)),
    refl,
    waking w f,
  )
  write_loop-Wrote [] (b ∷ bs) i w f o k h fits =
      let room : is_full w.pipe ≡ false = has_room w.pipe f.valid (omega arith) in
      let more : count (put b w).pipe ≡ count w.pipe + 1 = (put-contents b w f.valid room).1 in
      let shift : i + suc (length bs) ≡ i + 1 + length bs = omega arith in
      rw (ready w o k, room, h.0, shift)
        (Wrote-cons w b bs _ _ f room
          (write_loop-Wrote [] bs (i + 1) (put b w) (put-IsFifo b w f room) o k h.1 (omega arith)))
  write_loop-Wrote (t ∷ others) (b ∷ bs) i w f o k h fits =
      let room : is_full w.pipe ≡ false = has_room w.pipe f.valid (omega arith) in
      let more : count (put b w).pipe ≡ count w.pipe + 1 = (put-contents b w f.valid room).1 in
      let shift : i + suc (length bs) ≡ i + 1 + length bs = omega arith in
      rw (ready w o k, room, h.0, shift)
        (Wrote-cons w b bs _ _ f room (
          write_loop-Wrote (t ∷ others) bs (i + 1) (put b w) (put-IsFifo b w f room) o k h.1
            (omega arith)))

  -- With a reader, no kill and room for all `bs`, which the user's memory holds at `addr`,
  -- `pipewrite` returns their number without sleeping; the pipe then holds its old bytes
  -- followed by `bs`, and its readers have been woken once.
  pub pipewrite-Wrote :
      (others : Others) (bs : List ℕ) (w : World)
      → IsFifo w
      → w.pipe.readopen ≡ true
      → w.killed ≡ false
      → Holds 0 bs
      → count w.pipe + length bs ≤ pipe_size
      → Wrote w bs (length bs) (pipewrite copyin addr others (length bs) w)
  unfolding pipewrite
  pipewrite-Wrote others bs w f o k h fits =
      let small : is_negative (length bs) ≡ false = ground arith in
      rw small (rw (zero-add (length bs)) at (write_loop-Wrote others bs 0 w f o k h fits))
