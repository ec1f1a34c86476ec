-- ===== src/String/Padded.antt =====
-- `strncpy`, which fills its range up with zeros.
use risc_v_operating_system.Base.{
  ℕ, zero, suc, ◌+◌, ◌-◌, ◌≤◌, ◌<◌, ◌≡◌, refl, ◌∙◌, ◌⊎◌, inl, inr, true, false, arith, ◌==◌,
  if◌then◌else◌, Bool-cases, update, update_self, update_ne, update_lem,
}
use risc_v_operating_system.Base.Word.{is_negative}
use risc_v_operating_system.String.{Memory, pad, copy_and_pad, strncpy}
use risc_v_operating_system.String.Move.{is_in}
use risc_v_operating_system.String.Strings.{copy_length, copy_length-le}

pad_lem : (n s : ℕ) (m : Memory) (a : ℕ) → pad n s m a ≡ (if is_in s n a then 0 else m a)
unfolding pad
pad_lem zero s m a = ground arith
pad_lem (suc n) s m a = pad_lem n (s + 1) (update m s 0) a ∙ ground (arith, update_lem m s a 0)

-- The byte at `a` after a copy of `n` bytes from `t` to `s`, where `len` of them come before a 0.
abbrev pub padded : (s t n len : ℕ) → Memory → Memory → ℕ → ℕ
padded s t n len old m a =
    if is_in s len a then old (t + (a - s)) else if is_in s n a then 0 else m a

-- one byte more, in front
padded-cons :
    (s t n len : ℕ) (old m : Memory) (a : ℕ)
    → len ≤ n
    → m t ≡ old t
    → padded (s + 1) (t + 1) n len old (update m s (m t)) a ≡ padded s t (suc n) (suc len) old m a
padded-cons s t n len old m a le src = elim (Bool-cases (s == a)) [
  | inl first ↦
      let out : is_in (s + 1) len a ≡ false = ground arith in
      let out' : is_in (s + 1) n a ≡ false = ground arith in
      let here : is_in s (suc len) a ≡ true = ground arith in
      let from : t + (a - s) ≡ t = ground arith in
      rw (out, out', here, from, update_lem m s a (m t), first) src
  | inr other ↦
      let same : is_in (s + 1) len a ≡ is_in s (suc len) a = ground arith in
      let same' : is_in (s + 1) n a ≡ is_in s (suc n) a = ground arith in
      elim (Bool-cases (is_in s (suc len) a)) [
        | inl copied ↦
            let from : t + 1 + (a - (s + 1)) ≡ t + (a - s) = ground arith in
            rw (same, copied, from) refl
        | inr rest ↦ rw (same, rest, same', update_lem m s a (m t), other) refl
      ]
]

-- nothing but zeros
padded-nul :
    (s t n : ℕ) (old m : Memory) (a c : ℕ)
    → c ≡ 0
    → (if is_in (s + 1) n a then 0 else update m s c a) ≡ padded s t (suc n) 0 old m a
padded-nul s t n old m a c zero_byte =
    let none_in : is_in s 0 a ≡ false = ground arith in
    rw none_in (ground (arith, update_lem m s a c))

copy_and_pad_lem :
    (n s t : ℕ) (old m : Memory) (a : ℕ)
    → (t + n ≤ s) ⊎ (s + n ≤ t)
    → ((i : ℕ) → t ≤ i → i < t + n → m i ≡ old i)
    → copy_and_pad n s t m a ≡ padded s t n (copy_length n t old) old m a
unfolding copy_and_pad
copy_and_pad_lem zero s t old m a apart same =
    let none_in : is_in s 0 a ≡ false = ground arith in rw none_in refl
copy_and_pad_lem (suc n) s t old m a apart same =
    let src : m t ≡ old t = same t (omega arith) (omega arith) in
    let stored : update m s (m t) s ≡ m t = update_self m s (m t) in
    elim (Bool-cases (old t == 0)) [
      | inl nul ↦
          let stop : (update m s (m t) s == 0) ≡ true = ground (arith, stored, src) in
          rw (nul, stop)
            (pad_lem n (s + 1) (update m s (m t)) a
              ∙ padded-nul s t n old m a (m t) (ground (arith, src)))
      | inr more ↦
          let go : (update m s (m t) s == 0) ≡ false = ground (arith, stored, src) in
          rw (more, go)
            (copy_and_pad_lem n (s + 1) (t + 1) old (update m s (m t)) a (ground arith) (λ i le lt.
                update_ne m s i (m t) (ground arith) ∙ same i (omega arith) (omega arith))
              ∙ padded-cons s t n (copy_length n (t + 1) old) old m a (copy_length-le n (t + 1) old)
                  src)
    ]

-- For an `n` that is not negative and two ranges of `n` bytes apart, `strncpy` copies the bytes of
-- `t` up to a 0, makes the others of its `n` bytes 0, and changes nothing else.
pub strncpy_lem :
    (s t n : ℕ) (m : Memory) (a : ℕ)
    → is_negative n ≡ false
    → (t + n ≤ s) ⊎ (s + n ≤ t)
    → strncpy s t n m a ≡ padded s t n (copy_length n t m) m m a
unfolding strncpy
strncpy_lem s t n m a positive apart =
    rw positive (copy_and_pad_lem n s t m m a apart (λ i le lt. refl))
