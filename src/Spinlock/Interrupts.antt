-- ===== src/Spinlock/Interrupts.antt =====
-- `push_off` and `pop_off` in matched pairs.
use risc_v_operating_system.Base.{
  ℕ, suc, ◌+◌, ◌-◌, ◌^◌, ◌<◌, ◌≡◌, refl, ◌∙◌, false, ◌||◌, List, [], ◌∷◌, ◌++◌, arith, ◌==◌,
  if◌then◌else◌, Run, ok, panic, ◌>>=◌, Safely, safely, Safely-bind, Safely-mono,
}
use risc_v_operating_system.Base.Word.{u32, is_negative}
use risc_v_operating_system.Spinlock.{Cpu, push_off, pop_off}

pub data Call : Type 0 where
  push : Call
  pop : Call

abbrev pub run : List Call → Cpu → Run Cpu
run [] c = ok c
run (push ∷ calls) c = run calls (push_off c)
run (pop ∷ calls) c = pop_off c >>= λ c'. run calls c'

-- each `push_off` with its `pop_off`, at most `depth` deep
pub data Matched : ℕ → List Call → Type 0 where
  done : {depth : ℕ} → Matched depth []
  pair :
      {depth : ℕ} {inner rest : List Call}
      → Matched depth inner
      → Matched (suc depth) rest
      → Matched (suc depth) (push ∷ inner ++ pop ∷ rest)

-- Interrupts are off wherever a `push_off` waits for its `pop_off`.
abbrev pub IsOff : Cpu → Type 0
IsOff c = 0 < c.noff → c.interrupts ≡ false

-- the same depth and interrupts
abbrev pub SameInterrupts : Cpu → Cpu → Type 0
SameInterrupts c d =
    (d.noff ≡ c.noff) × (d.interrupts ≡ c.interrupts) × (0 < c.noff → d.intena ≡ c.intena)

run-append : (xs ys : List Call) (c : Cpu) → run (xs ++ ys) c ≡ (run xs c >>= run ys)
run-append [] ys c = refl
run-append (push ∷ xs) ys c = run-append xs ys (push_off c)
run-append (pop ∷ xs) ys c =
    elim (pop_off c)
      as (λ r. (r >>= λ c'. run (xs ++ ys) c') ≡ ((r >>= λ c'. run xs c') >>= run ys)) [
        | ok c' ↦ run-append xs ys c'
        | panic ↦ refl
      ]

pop_off-push_off :
    (c c' : Cpu)
    → IsOff c
    → c.noff + 1 < 2 ^ 31
    → SameInterrupts (push_off c) c'
    → Safely (SameInterrupts c) (pop_off c')
unfolding push_off pop_off
pop_off-push_off c c' off fits (depth, interrupts, intena) =
    let again : c'.intena ≡ (if c.noff == 0 then c.interrupts else c.intena) =
      intena (omega arith) in
    let deep : (is_negative c'.noff || c'.noff == 0) ≡ false = ground arith in
    let back : u32 (c'.noff + (2 ^ 32 - 1)) ≡ c.noff = omega arith in
    rw (interrupts, deep)
      (safely (back, rw back (ground (arith, again, off)), λ h. ground (arith, again)))

SameInterrupts-trans : (c d e : Cpu) → SameInterrupts c d → SameInterrupts d e → SameInterrupts c e
SameInterrupts-trans c d e (n, i, a) (n', i', a') = (n' ∙ n, i' ∙ i, λ h. a' (omega arith) ∙ a h)

-- From a CPU whose interrupts are off if it is inside a `push_off`, matched calls return without a
-- panic if their depth fits an `int`, and then the depth and the interrupts are as before; also
-- `intena`, if the CPU was inside a `push_off`.
pub run-SameInterrupts :
    {depth : ℕ} {calls : List Call}
    → Matched depth calls
    → (c : Cpu) → IsOff c
    → c.noff + depth < 2 ^ 31
    → Safely (SameInterrupts c) (run calls c)
unfolding push_off
run-SameInterrupts done c off fits = safely (refl, refl, λ h. refl)
run-SameInterrupts (pair {inner} {rest} m n) c off fits =
    rw (run-append inner (pop ∷ rest) (push_off c)) (
      Safely-bind (run-SameInterrupts m (push_off c) (λ h. refl) (omega arith)) (λ c' same.
        Safely-bind (pop_off-push_off c c' off (omega arith) same) (λ d same'.
          Safely-mono
            (run-SameInterrupts n d (λ h. ground (arith, same', off)) (omega (arith, same'.0)))
            (λ e. SameInterrupts-trans c d e same'))))
