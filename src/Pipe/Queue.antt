-- ===== src/Pipe/Queue.antt =====
-- The pipe as a queue of bytes: what `put` and `get` do to the bytes in it.
use risc_v_operating_system.Base.{
  ℕ, zero, suc, ◌+◌, ◌-◌, ◌%◌, ◌^◌, ◌≤◌, ◌<◌, ◌≡◌, refl, sym, ap, ◌∙◌, ◌≢◌, false, List, [], ◌∷◌,
  ◌++◌, append_assoc, arith, ◌==◌, length, update, update_self, update_ne,
}
use risc_v_operating_system.Base.Word.{u32}
use mathlib.Core.Path.{ap₂}
use native.Mathlib.Numerals.{add-one}
use risc_v_operating_system.Pipe.{Pipe, World, pipe_size, is_full, put, get}

-- the `n` bytes from index `k` on
abbrev pub window : (ℕ → ℕ) → ℕ → ℕ → List ℕ
window buf k zero = []
window buf k (suc n) = buf (k % pipe_size) ∷ window buf (u32 (k + 1)) n

-- how many bytes the pipe holds
abbrev pub count : Pipe → ℕ
count p = u32 (p.nwrite + 2 ^ 32 - p.nread)

abbrev pub contents : Pipe → List ℕ
contents p = window p.buf p.nread (count p)

pub record IsValid (p : Pipe) : Type 0 where
  pub read_fits : p.nread < 2 ^ 32
  pub write_fits : p.nwrite < 2 ^ 32
  pub bounded : count p ≤ pipe_size

-- The pipe is in order, and what was put in is what was taken followed by what it holds.
pub record IsFifo (w : World) : Type 0 where
  pub valid : IsValid w.pipe
  pub history : w.written ≡ w.taken ++ contents w.pipe

pub length-window : (buf : ℕ → ℕ) (k n : ℕ) → length (window buf k n) ≡ n
length-window buf k zero = refl
length-window buf k (suc n) = ap suc (length-window buf (u32 (k + 1)) n)

-- A write `m` places behind the start leaves a window of at most `m` bytes alone.
window-update :
    (buf : ℕ → ℕ) (k n m j v : ℕ)
    → n ≤ m
    → m < pipe_size
    → j ≡ (k + m) % pipe_size
    → window (update buf j v) k n ≡ window buf k n
window-update buf k zero m j v le lt e = refl
window-update buf k (suc n) m j v le lt e = ground (
  arith,
  update_ne buf j (k % pipe_size) v (omega arith),
  window-update buf (u32 (k + 1)) n (m - 1) j v (omega arith) (omega arith) (omega arith),
)

-- A window that is one byte longer ends in that byte.
window-snoc :
    (buf : ℕ → ℕ) (k n e : ℕ)
    → e ≡ (k + n) % pipe_size
    → window buf k (suc n) ≡ window buf k n ++ (buf e ∷ [])
window-snoc buf k zero e h = let q : k % pipe_size ≡ e = omega arith in ap (λ j. buf j ∷ []) q
window-snoc buf k (suc n) e h =
    ap (λ l. buf (k % pipe_size) ∷ l) (window-snoc buf (u32 (k + 1)) n e (omega arith))

count-ne_zero :
    (buf : ℕ → ℕ) (k n : ℕ)
    → n ≢ 0
    → window buf k n ≡ buf (k % pipe_size) ∷ window buf (u32 (k + 1)) (n - 1)
count-ne_zero buf k zero h = absurd (h refl)
count-ne_zero buf k (suc n) h =
    ap (λ m. buf (k % pipe_size) ∷ window buf (u32 (k + 1)) m) (omega arith)

count-lt : (p : Pipe) → IsValid p → is_full p ≡ false → count p < pipe_size
count-lt p v room = ground arith

pub put-contents :
    (ch : ℕ) (w : World)
    → IsValid w.pipe
    → is_full w.pipe ≡ false
    → (contents (put ch w).pipe ≡ contents w.pipe ++ (ch ∷ []))
      × (count (put ch w).pipe ≡ count w.pipe + 1)
      × IsValid (put ch w).pipe
unfolding put
put-contents ch w v room = (
  bytes,
  longer,
  record {
    read_fits = v.read_fits;
    write_fits = omega arith;
    bounded = omega (arith, longer, small);
  },
)
  where
    open w.pipe use {buf, nread, nwrite}

    small : count w.pipe < pipe_size
    small = count-lt w.pipe v room

    longer : u32 (u32 (nwrite + 1) + 2 ^ 32 - nread) ≡ count w.pipe + 1
    longer = omega (arith, v.read_fits, v.write_fits, small)

    last : ℕ
    last = nwrite % pipe_size

    bytes :
        window (update buf last ch) nread (u32 (u32 (nwrite + 1) + 2 ^ 32 - nread))
        ≡ window buf nread (count w.pipe) ++ (ch ∷ [])
    bytes =
        ap (window (update buf last ch) nread) (longer ∙ add-one (count w.pipe))
        ∙ window-snoc (update buf last ch) nread (count w.pipe) last
            (omega (arith, v.read_fits, v.write_fits))
        ∙ ap₂ (λ l c. l ++ (c ∷ []))
            (window-update buf nread (count w.pipe) (count w.pipe) last ch (omega arith) small
              (omega (arith, v.read_fits, v.write_fits)))
            (update_self buf last ch)

pub get-contents :
    (w : World)
    → IsValid w.pipe
    → (w.pipe.nread == w.pipe.nwrite) ≡ false
    → (contents w.pipe ≡ (get w).0 ∷ contents (get w).1.pipe)
      × (count w.pipe ≡ count (get w).1.pipe + 1)
      × IsValid (get w).1.pipe
unfolding get
get-contents w v some_left = (
  count-ne_zero buf nread (count w.pipe) (omega (arith, fewer))
      ∙ ap (λ m. buf (nread % pipe_size) ∷ window buf (u32 (nread + 1)) m) (omega (arith, fewer)),
  fewer,
  record {
    read_fits = omega arith;
    write_fits = v.write_fits;
    bounded = omega (arith, fewer, v.bounded);
  },
)
  where
    open w.pipe use {buf, nread, nwrite}

    fewer : count w.pipe ≡ u32 (nwrite + 2 ^ 32 - u32 (nread + 1)) + 1
    fewer = ground (arith, v.read_fits, v.write_fits, v.bounded)

-- Each byte that goes in or out keeps the history.
pub put-IsFifo : (ch : ℕ) (w : World) → IsFifo w → is_full w.pipe ≡ false → IsFifo (put ch w)
unfolding put
put-IsFifo ch w f room =
    let c = put-contents ch w f.valid room in
    record {
      valid = c.2;
      history =
          ap (λ l. l ++ (ch ∷ [])) f.history
          ∙ append_assoc w.taken (contents w.pipe) (ch ∷ [])
          ∙ ap (λ l. w.taken ++ l) (sym c.0);
    }

pub get-IsFifo : (w : World) → IsFifo w → (w.pipe.nread == w.pipe.nwrite) ≡ false → IsFifo (get w).1
unfolding get
get-IsFifo w f some_left =
    let c = get-contents w f.valid some_left in
    record {
      valid = c.2;
      history =
          f.history
          ∙ ap (λ l. w.taken ++ l) c.0
          ∙ sym (append_assoc w.taken ((get w).0 ∷ []) (contents (get w).1.pipe));
    }
