-- ===== src/String/Move.antt =====
-- `memset` and `memmove`: what every byte is afterwards.
use risc_v_operating_system.Base.{
  ℕ, zero, suc, ◌+◌, ◌-◌, ◌%◌, ◌≤◌, ◌≡◌, refl, ◌∙◌, ◌⊎◌, inl, inr, Bool, true, false, ◌&&◌, arith,
  ltb, leb, ◌==◌, if◌then◌else◌, Bool-cases, update, update_ne, update_lem,
}
use risc_v_operating_system.String.{Memory, set_loop, memset, move_up, move_down, memmove}

-- is `a` one of the `n` addresses from `d` on?
abbrev pub is_in : (d n a : ℕ) → Bool
is_in d n a = leb d a && ltb a (d + n)

set_loop_lem :
    (n d i c : ℕ) (m : Memory) (a : ℕ)
    → set_loop n d i c m a ≡ (if is_in (d + i) n a then c % 256 else m a)
unfolding set_loop
set_loop_lem zero d i c m a = ground arith
set_loop_lem (suc n) d i c m a =
    set_loop_lem n d (i + 1) c (update m (d + i) (c % 256)) a
    ∙ ground (arith, update_lem m (d + i) a (c % 256))

-- `memset` makes its `n` bytes the low byte of `c`, and no others change.
pub memset_lem :
    (d c n : ℕ) (m : Memory) (a : ℕ) → memset d c n m a ≡ (if is_in d n a then c % 256 else m a)
unfolding memset
memset_lem d c n m a = set_loop_lem n d 0 c m a ∙ ground arith

-- what each byte is after a move of `n` bytes from `s` to `d`
abbrev pub moved : (d s n : ℕ) → Memory → ℕ → ℕ
moved d s n m a = if is_in d n a then m (s + (a - d)) else m a

-- the first byte, and then the others
moved-first :
    (n d s : ℕ) (m : Memory) (a : ℕ)
    → (d ≤ s) ⊎ (s + suc n ≤ d)
    → moved (d + 1) (s + 1) n (update m d (m s)) a ≡ moved d s (suc n) m a
moved-first n d s m a h = elim (Bool-cases (is_in (d + 1) n a)) [
  | inl rest ↦
      let here : is_in d (suc n) a ≡ true = ground arith in
      let from : s + 1 + (a - (d + 1)) ≡ s + (a - d) = ground arith in
      rw (rest, here, from) (update_ne m d (s + (a - d)) (m s) (ground arith))
  | inr no_rest ↦ elim (Bool-cases (d == a)) [
    | inl first ↦
        let same : d ≡ a = ground arith in
        let here : is_in d (suc n) a ≡ true = ground arith in
        let from : s + (a - d) ≡ s = ground arith in
        rw (no_rest, here, from, update_lem m d a (m s), first) refl
    | inr other ↦
        let out : is_in d (suc n) a ≡ false = ground arith in
        rw (no_rest, out) (update_ne m d a (m s) (ground arith))
  ]
]

-- the last byte, and then the others
moved-last :
    (n d s : ℕ) (m : Memory) (a : ℕ)
    → s ≤ d
    → moved d s n (update m (d + n) (m (s + n))) a ≡ moved d s (suc n) m a
moved-last n d s m a h = elim (Bool-cases (is_in d n a)) [
  | inl rest ↦
      let here : is_in d (suc n) a ≡ true = ground arith in
      rw (rest, here) (update_ne m (d + n) (s + (a - d)) (m (s + n)) (ground arith))
  | inr no_rest ↦ elim (Bool-cases (d + n == a)) [
    | inl last ↦
        let here : is_in d (suc n) a ≡ true = ground arith in
        let from : s + (a - d) ≡ s + n = ground arith in
        rw (no_rest, here, from, update_lem m (d + n) a (m (s + n)), last) refl
    | inr other ↦
        let out : is_in d (suc n) a ≡ false = ground arith in
        rw (no_rest, out) (update_ne m (d + n) a (m (s + n)) (ground arith))
  ]
]

move_up_lem :
    (n d s : ℕ) (m : Memory) (a : ℕ) → (d ≤ s) ⊎ (s + n ≤ d) → move_up n d s m a ≡ moved d s n m a
unfolding move_up
move_up_lem zero d s m a h = ground arith
move_up_lem (suc n) d s m a h =
    move_up_lem n (d + 1) (s + 1) (update m d (m s)) a (ground arith) ∙ moved-first n d s m a h

move_down_lem :
    (n d s : ℕ) (m : Memory) (a : ℕ) → s ≤ d → move_down n (d + n) (s + n) m a ≡ moved d s n m a
unfolding move_down
move_down_lem zero d s m a h = ground arith
move_down_lem (suc n) d s m a h =
    let last : d + suc n - 1 ≡ d + n = omega arith in
    let last' : s + suc n - 1 ≡ s + n = omega arith in
    rw (last, last')
      (move_down_lem n d s (update m (d + n) (m (s + n))) a h ∙ moved-last n d s m a h)

-- However the two ranges overlap, `memmove` makes its `n` bytes what the source's bytes were before
-- it, and no others change.
pub memmove_lem : (d s n : ℕ) (m : Memory) (a : ℕ) → memmove d s n m a ≡ moved d s n m a
unfolding memmove
memmove_lem d s n m a = elim (Bool-cases (ltb s d && ltb d (s + n))) [
  | inl overlap ↦ rw overlap (move_down_lem n d s m a (ground arith))
  | inr apart ↦ rw apart (move_up_lem n d s m a (ground arith))
]
