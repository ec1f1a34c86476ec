-- ===== src/Life/Wake.antt =====
-- `wakeup`: whom it wakes.
use risc_v_operating_system.Base.{
  ℕ, zero, suc, ◌≡◌, refl, sym, ap, ◌∙◌, fun_ext, inl, inr, true, false, ◌&&◌, not, Option, arith,
  ltb, ◌==◌, if◌then◌else◌, Bool-cases, update, update_self, update_ne,
}
use risc_v_operating_system.Life.{nproc, Task, ProcTable, is_self, woken, wakeup_loop, wakeup}

-- what the slots hold after `wakeup` went over the first `n`
abbrev pub awake : (n : ℕ) → (self : Option ℕ) → (chan : ℕ) → (i : ℕ) → Task → Task
awake n self chan i p = if not (is_self self i) && ltb i n then woken chan p else p

abbrev all_awake : (n : ℕ) → (self : Option ℕ) → (chan : ℕ) → (ℕ → Task) → ℕ → Task
all_awake n self chan f i = awake n self chan i (f i)

-- the next slot is the caller's
awake_self :
    (n : ℕ) (self : Option ℕ) (chan : ℕ) (f : ℕ → Task) (i : ℕ)
    → is_self self n ≡ true
    → all_awake n self chan f i ≡ all_awake (suc n) self chan f i
awake_self n self chan f i me = elim (Bool-cases (i == n)) [
  | inl e ↦
      let same : i ≡ n = ground arith in
      let mine : is_self self i ≡ true = ap (is_self self) same ∙ me in rw mine refl
  | inr ne ↦ let lt : ltb i n ≡ ltb i (suc n) = ground arith in rw lt refl
]

-- or another's
awake_other :
    (n : ℕ) (self : Option ℕ) (chan : ℕ) (f : ℕ → Task) (i : ℕ)
    → is_self self n ≡ false
    → update (all_awake n self chan f) n (woken chan (all_awake n self chan f n)) i
      ≡ all_awake (suc n) self chan f i
awake_other n self chan f i other = elim (Bool-cases (n == i)) [
  | inl e ↦
      let same : n ≡ i = ground arith in
      let here : is_self self i ≡ false = ap (is_self self) (sym same) ∙ other in
      let out : ltb i i ≡ false = ground arith in
      let in_ : ltb i (suc i) ≡ true = ground arith in
      let here' =
        update_self (all_awake i self chan f) i (woken chan (all_awake i self chan f i)) in
      rw (same, here', here, out, in_) refl
  | inr ne ↦
      let lt : ltb i n ≡ ltb i (suc n) = ground arith in
      update_ne (all_awake n self chan f) n i (woken chan (all_awake n self chan f n))
        (ground arith)
      ∙ rw lt refl
]

wakeup_loop_lem :
    (n : ℕ) (self : Option ℕ) (chan : ℕ) (t : ProcTable)
    → wakeup_loop n self chan t ≡ record t { task = all_awake n self chan t.task }
unfolding wakeup_loop
wakeup_loop_lem zero self chan t =
    ap (λ f. record t { task = f })
      (fun_ext (λ i.
        let none_yet : (not (is_self self i) && ltb i 0) ≡ false = ground arith in
        rw none_yet refl))
wakeup_loop_lem (suc n) self chan t =
    let before = wakeup_loop_lem n self chan t in
    elim (Bool-cases (is_self self n)) [
      | inl me ↦ rw me (
          before
          ∙ ap (λ f. record t { task = f }) (fun_ext (λ i. awake_self n self chan t.task i me)))
      | inr other ↦
          rw (other, before)
            (ap (λ f. record t { task = f })
              (fun_ext (λ i. awake_other n self chan t.task i other)))
    ]

-- `wakeup` makes each process that sleeps on the channel runnable, but for the caller, and changes
-- nothing else.
pub wakeup_lem :
    (self : Option ℕ) (chan : ℕ) (t : ProcTable)
    → wakeup self chan t ≡ record t { task = λ i. awake nproc self chan i (t.task i) }
unfolding wakeup
wakeup_lem self chan t = wakeup_loop_lem nproc self chan t
