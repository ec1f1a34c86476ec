-- ===== src/Signal/Deliver.antt =====
-- `signalhandler`: SIGKILL reaches the process.
use risc_v_operating_system.Base.{
  ℕ, zero, suc, ◌+◌, ◌≤◌, ◌≡◌, refl, sym, ap, ◌∙◌, inl, inr, Bool, true, false, ◌||◌, not, Option,
  some, arith, ◌==◌, Bool-cases, ok, Safely, safely, Safely-bind, Safely-mono,
}
use risc_v_operating_system.Signal.Doomed.{
  is_plain, Doomed, turnoff_sigbit-Doomed, sigkill_func-killed, wait_stopped-Doomed,
}
use risc_v_operating_system.Proc.{Proc}
use risc_v_operating_system.Signal.{
  UserMemory, sig_dfl, sig_ign, sigkill, sigstop, sigcont, sigcont_func, sigstop_func,
  is_pending_and_not_masked, turnoff_sigbit,
}
use risc_v_operating_system.Signal.Loop.{
  Others, run_handler, Turn, onward, deliver, signal_round, signal_loop, signalhandler,
}
use risc_v_operating_system.Signal.Mask.{is_pending_iff}

stopped-Doomed : (p : Proc) (b : Bool) → Doomed p → Doomed (record p { stopped = b })
stopped-Doomed p b d = record {
  free = d.free;
  calm = d.calm;
  default = d.default;
  plain = d.plain;
  due = d.due;
}

module _ (func_size : ℕ) (u : UserMemory) (p : Proc) (i : ℕ) (d : Doomed p) where
  -- what a handler run by the kernel leaves
  abbrev Handled : UserMemory × Proc → Type 0
  Handled (v, q) = Doomed q × (i ≡ sigkill → q.killed ≡ true) × (p.killed ≡ true → q.killed ≡ true)

  default-Handled :
      (p.signal_handlers i == sig_dfl) ≡ true → Safely Handled (run_handler func_size u p i)
  unfolding run_handler sigstop_func sigcont_func
  default-Handled c = elim (Bool-cases (i == sigstop)) [
    | inl stop ↦ rw (c, stop) (safely (stopped-Doomed p true d, λ e. ground arith, λ k. k))
    | inr no_stop ↦ elim (Bool-cases (i == sigcont)) [
      | inl cont ↦
          rw (c, no_stop, cont) (safely (stopped-Doomed p false d, λ e. ground arith, λ k. k))
      | inr no_cont ↦
          rw (c, no_stop, no_cont)
            (Safely-bind (sigkill_func-killed p d) (λ q (e, k). safely (e, λ _. k, λ _. k)))
    ]
  ]

  other-Handled :
      (p.signal_handlers i == sig_dfl) ≡ false
      → (p.signal_handlers i == sig_ign) ≡ false
      → is_plain (p.signal_handlers i) ≡ true
      → Safely Handled (run_handler func_size u p i)
  unfolding run_handler sigstop_func sigcont_func
  other-Handled c taken plain = elim (Bool-cases (p.signal_handlers i == sigstop)) [
    | inl stop ↦ rw (c, stop) (safely (stopped-Doomed p true d, not_kill, λ k. k))
    | inr no_stop ↦ elim (Bool-cases (p.signal_handlers i == sigcont)) [
      | inl cont ↦ rw (c, no_stop, cont) (safely (stopped-Doomed p false d, not_kill, λ k. k))
      | inr no_cont ↦
          let kill : (p.signal_handlers i == sigkill) ≡ true = ground arith in
          rw (c, no_stop, no_cont, kill)
            (Safely-bind (sigkill_func-killed p d) (λ q (e, k). safely (e, λ _. k, λ _. k)))
    ]
  ]
    where
      not_kill : i ≡ sigkill → p.killed ≡ true
      not_kill e = ground (arith, ap p.signal_handlers e, d.default)

  run_handler-Handled :
      (p.signal_handlers i == sig_ign) ≡ false
      → is_plain (p.signal_handlers i) ≡ true
      → Safely Handled (run_handler func_size u p i)
  run_handler-Handled taken plain = elim (Bool-cases (p.signal_handlers i == sig_dfl)) [
    | inl c ↦ default-Handled c
    | inr c ↦ other-Handled c taken plain
  ]

-- One round up to SIGKILL goes on; the round of SIGKILL kills.
abbrev Onward : ℕ → Others → Turn → Type 0
Onward i others t =
    (v : UserMemory) × (q : Proc) × (t ≡ onward others v q)
    × Doomed q
    × (i ≡ sigkill → q.killed ≡ true)

Doomed-plain : (p : Proc) (i : ℕ) → Doomed p → i ≤ sigkill → is_plain (p.signal_handlers i) ≡ true
Doomed-plain p i d le = elim (Bool-cases (i == sigkill)) [
  | inl last ↦
      let e : i ≡ sigkill = ground arith in ground (arith, ap p.signal_handlers e, d.default)
  | inr early ↦ d.plain i (ground arith)
]

kept_due :
    (i : ℕ) (q : Proc) → (i ≡ sigkill → q.killed ≡ true) → (q.killed || not (sigkill == i)) ≡ true
kept_due i q h = elim (Bool-cases (sigkill == i)) [
  | inl last ↦ let e : i ≡ sigkill = ground arith in rw (h e)
  | inr early ↦ rw early (ground arith)
]

deliver-Onward :
    (func_size : ℕ) (i : ℕ) (others : Others) (u : UserMemory) (p : Proc)
    → i ≤ sigkill
    → Doomed p
    → Safely (Onward i others) (deliver func_size i others u p)
unfolding deliver
deliver-Onward func_size i others u p le d = elim (Bool-cases (is_pending_and_not_masked i p)) [
  | inl due ↦ elim (Bool-cases (p.signal_handlers i == sig_ign)) [
    | inl skip ↦
        simp (due, d.calm, skip)
          (safely (u, p, refl, d, λ e. ground (arith, ap p.signal_handlers e, d.default)))
    | inr taken ↦
        simp (due, d.calm, taken)
          (Safely-bind (run_handler-Handled func_size u p i d taken (Doomed-plain p i d le))
            (λ (v, q) h. Safely-bind (turnoff-Onward q h) (λ r k. safely (v, r, refl, k.0, k.1))))
  ]
  | inr not_due ↦ rw not_due (
      safely (
        u,
        p,
        refl,
        d,
        λ e.
            let k : is_pending_and_not_masked sigkill p ≡ false =
              ap (λ j. is_pending_and_not_masked j p) (sym e) ∙ not_due in
            ground (arith, is_pending_iff sigkill p, d.due),
      ))
]
  where
    turnoff-Onward :
        (q : Proc)
        → Doomed q × (i ≡ sigkill → q.killed ≡ true) × (p.killed ≡ true → q.killed ≡ true)
        → Safely (λ r. Doomed r × (i ≡ sigkill → r.killed ≡ true)) (turnoff_sigbit q i)
    turnoff-Onward q h =
        Safely-mono (turnoff_sigbit-Doomed q i h.0 (kept_due i q h.1))
          (λ r e. (e.0, λ k. e.1 ∙ h.1 k))

signal_loop-killed :
    (func_size : ℕ) (rounds i : ℕ) (others : Others) (u : UserMemory) (p : Proc)
    → p.killed ≡ true
    → signal_loop func_size rounds i others u p ≡ ok (some (u, p))
unfolding signal_loop signal_round
signal_loop-killed func_size zero i others u p k = refl
signal_loop-killed func_size (suc rounds) i others u p k = simp k refl

signal_round-Onward :
    (func_size : ℕ) (i : ℕ) (others : Others) (u : UserMemory) (p : Proc)
    → i ≤ sigkill
    → Doomed p
    → p.killed ≡ false
    → Safely (λ t. (o : Others) × Onward i o t) (signal_round func_size i others u p)
unfolding signal_round
signal_round-Onward func_size i others u p le d alive = simp alive (
    Safely-bind (wait_stopped-Doomed others p d alive) (λ r (o, q, e, dq).
      rw e (Safely-mono (deliver-Onward func_size i o u q le dq) (λ t w. (o, w)))))

-- Once SIGKILL is due the loop returns, with the process killed.
abbrev pub Killed : Option (UserMemory × Proc) → Type 0
Killed r = (v : UserMemory) × (q : Proc) × (r ≡ some (v, q)) × (q.killed ≡ true)

killed-Killed :
    (func_size : ℕ) (rounds i : ℕ) (others : Others) (u : UserMemory) (p : Proc)
    → p.killed ≡ true
    → Safely Killed (signal_loop func_size rounds i others u p)
killed-Killed func_size rounds i others u p k =
    rw (signal_loop-killed func_size rounds i others u p k) (safely (u, p, refl, k))

signal_loop-Killed :
    (func_size : ℕ) (rounds i : ℕ) (others : Others) (u : UserMemory) (p : Proc)
    → rounds + i ≡ 32
    → i ≤ sigkill
    → Doomed p
    → Safely Killed (signal_loop func_size rounds i others u p)
unfolding signal_loop
signal_loop-Killed func_size zero i others u p e le d = absurd (omega arith)
signal_loop-Killed func_size (suc rounds) i others u p e le d = elim (Bool-cases p.killed) [
  | inl k ↦ killed-Killed func_size (suc rounds) i others u p k
  | inr alive ↦
      Safely-bind (signal_round-Onward func_size i others u p le d alive)
        (λ t (o, (v, q, te, dq, last)). rw te (elim (Bool-cases (i == sigkill)) [
          | inl now ↦ killed-Killed func_size rounds (i + 1) o v q (last (ground arith))
          | inr later ↦
              signal_loop-Killed func_size rounds (i + 1) o v q (omega arith) (ground arith) dq
        ]))
]

-- If SIGKILL is pending on a process that is outside its handlers, with its lock free, the
-- default action for SIGKILL and no user handler for a signal below it, `signalhandler`
-- returns, with the process killed, even if it is stopped, whatever else is pending or masked.
pub signalhandler-Killed :
    (func_size : ℕ) (others : Others) (u : UserMemory) (p : Proc)
    → Doomed p
    → Safely Killed (signalhandler func_size others u p)
unfolding signalhandler
signalhandler-Killed func_size others u p d =
    simp d.calm (signal_loop-Killed func_size 32 0 others u p (omega arith) (omega arith) d)
